-- ===== src/Groups/World.antt =====
-- What the group service works on: Go's memory, the two caches, the database, the message bus.
use Prim.Native.String.{String}
use athena_wow_cluster.Prelude.{
  ℕ, Bool, true, false, Option, none, some, List, [], ◌∷◌, ◌++◌, if◌then◌else◌, take, Map,
}
use athena_wow_cluster.Groups.Model.{GroupMember, Slice, Group, GroupInvite}

pub data Error : Type 0 where
  already_in_group no_permissions group_full group_not_found : Error
  group_member_not_found member_in_dungeon_or_raid invite_not_found : Error
  inviter_not_found icon_invalid message_type_unsupported : Error
  database_error characters_error producer_error : Error

-- A panic is what Go does at a nil pointer, a nil map or an index out of range.
pub data Result {ℓ} (A : Type ℓ) : Type ℓ where
  ok : A → Result A
  err : Error → Result A
  panic : Result A

-- The payloads sent to the message bus; `ServiceID` is one constant and is left out.
pub data Event : Type 0 where
  invite_created : (realm group : ℕ) → GroupInvite → Event
  group_created : (realm : ℕ) → Group → List GroupMember → Event
  member_added : (realm group member : ℕ) → String → List ℕ → Event
  member_left : (realm group member : ℕ) → String → (new_leader : ℕ) → List ℕ → Event
  group_disband : (realm group : ℕ) → List ℕ → Event
  leader_changed : (realm group previous new_leader : ℕ) → List ℕ → Event
  converted_to_raid : (realm group leader : ℕ) → List ℕ → Event
  new_message : (realm group sender : ℕ) → String → (lang : ℕ) → String → ℕ → List ℕ → Event
  target_icon_updated : (realm group updater target icon : ℕ) → List ℕ → Event
  loot_type_changed : (realm group method looter threshold : ℕ) → List ℕ → Event
  difficulty_changed : (realm group updater : ℕ) → Option ℕ → Option ℕ → List ℕ → Event
  online_status_changed : (realm group member : ℕ) → Bool → List ℕ → Event

-- The code that is not the service's: the MySQL driver behind `groupsRepoMysql`, the character
-- service, the message bus, and Go's choice of a capacity when `append` moves a slice.
-- A database call gives its result, `none` for an error, and the database afterwards.
pub record Env : Type 1 where
  pub Db : Type 0
  pub insert_group : Db → (realm : ℕ) → Group → List GroupMember → Option ℕ × Db
  pub delete_group : Db → (realm group : ℕ) → Option (Unit {0}) × Db
  pub update_group : Db → (realm : ℕ) → Group → Option (Unit {0}) × Db
  pub insert_member : Db → (realm : ℕ) → GroupMember → Option (Unit {0}) × Db
  pub update_member : Db → (realm : ℕ) → GroupMember → Option (Unit {0}) × Db
  pub delete_member : Db → (realm member : ℕ) → Option (Unit {0}) × Db
  pub replace_invite : Db → (realm : ℕ) → GroupInvite → Option (Unit {0}) × Db
  pub select_invite : Db → (realm invitee : ℕ) → Option (Option GroupInvite)
  pub maps_of_online : (realm : ℕ) → List ℕ → Option (List ℕ)
  pub produce : Event → Bool
  pub spare_cells : ℕ → ℕ

-- A pointer to a member: a cell of an array.
pub record MemberPtr : Type 0 where
  pub ptr_array : ℕ
  pub ptr_index : ℕ

-- `groups_cache` holds the group objects themselves: a pointer to a group is its realm and key.
-- `is_loaded` tells for which realms the two maps are not nil.
pub record World (e : Env) : Type 0 where
  pub is_loaded : ℕ → Bool
  pub groups_cache : ℕ → Map Group
  pub group_members_cache : ℕ → Map MemberPtr
  pub arrays : ℕ → List GroupMember
  pub next_array : ℕ
  pub db : e.Db
  pub published : List Event

-- A step of the service. Its mutex makes each method of the cache atomic; calls do not interleave.
abbrev pub M : Env → Type 0 → Type 0
M e A = World e → Result A × World e

module _ {e : Env} where
  abbrev pub and_then : {A B : Type 0} → Result A × World e → (A → M e B) → Result B × World e
  and_then (ok a, w) f = f a w
  and_then (err x, w) f = (err x, w)
  and_then (panic, w) f = (panic, w)

  infixl 5 ◌>>=◌ ◌>>◌
  abbrev pub ◌>>=◌ : {A B : Type 0} → M e A → (A → M e B) → M e B
  ◌>>=◌ m f w = and_then (m w) f

  abbrev pub ◌>>◌ : {B : Type 0} → M e (Unit {0}) → M e B → M e B
  ◌>>◌ m k w = and_then (m w) (λ _. k)

  abbrev pub pure : {A : Type 0} → A → M e A
  pure a w = (ok a, w)

  abbrev pub fail : {A : Type 0} → Error → M e A
  fail x w = (err x, w)

  abbrev pub crash : {A : Type 0} → M e A
  crash w = (panic, w)

  -- An early return with an error.
  abbrev pub check : Bool → Error → M e (Unit {0})
  check true x = pure tt
  check false x = fail x

  -- A nil pointer is `none`.
  abbrev pub deref : {A : Type 0} → Option A → M e A
  deref none = crash
  deref (some a) = pure a

  abbrev pub or_fail : {A : Type 0} → Option A → Error → M e A
  or_fail none x = fail x
  or_fail (some a) x = pure a

  -- A call of the database.
  abbrev pub query : {A : Type 0} → (e.Db → Option A × e.Db) → M e A
  query f w = answer (f w.db) w
    where
      answer : {A : Type 0} → Option A × e.Db → M e A
      answer (some a, d) w = (ok a, record w { db = d })
      answer (none, d) w = (err database_error, record w { db = d })

  -- A send whose failure is only logged.
  abbrev pub publish : Event → M e (Unit {0})
  publish ev w = (ok tt, record w { published = w.published ++ ev ∷ [] })

  -- A send whose failure the handler returns.
  abbrev pub publish_or_fail : Event → M e (Unit {0})
  publish_or_fail ev w = (
    if e.produce ev then ok tt else err producer_error,
    record w { published = w.published ++ ev ∷ [] },
  )

-- The members in a slice.
unfoldable pub slice_of : (ℕ → List GroupMember) → Slice → List GroupMember
slice_of arrays s = take s.len (arrays s.array)
