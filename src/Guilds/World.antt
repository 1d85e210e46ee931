-- ===== src/Guilds/World.antt =====
-- What the guild service works on: the cache, the database behind it, and the message bus.
use Prim.Native.String.{String}
use athena_wow_cluster.Prelude.{
  ℕ, Bool, true, false, Option, none, some, List, [], ◌∷◌, ◌++◌, if◌then◌else◌, Map,
}
use athena_wow_cluster.Guilds.Model.{GuildMember, GuildRank, Guild, members_of, online_guids}

pub data Error : Type 0 where
  guild_not_found not_enough_right leader_cant_leave invitee_in_guild rank_not_found : Error
  no_invites rank_limit already_lowest database_error producer_error : Error

-- A panic is what Go does at a nil pointer, a nil map or a slice out of range.
pub data Result {ℓ} (A : Type ℓ) : Type ℓ where
  ok : A → Result A
  err : Error → Result A
  panic : Result A

-- The generic part of an event: the realm and the ID of the guild, and its members online.
pub record GenericGuildEvent : Type 0 where
  pub realm_id : ℕ
  pub guild_id : ℕ
  pub guild_name : String
  pub members_online : List ℕ

pub data Event : Type 0 where
  invite_created :
      (realm guild : ℕ) → String → (inviter : ℕ) → String → (invitee : ℕ) → String → Event
  member_added member_left : GenericGuildEvent → (member : ℕ) → String → Event
  member_kicked : GenericGuildEvent → (member : ℕ) → String → (kicker : ℕ) → String → Event
  motd_updated guild_info_updated : GenericGuildEvent → String → Event
  member_note_updated member_officer_note_updated :
      GenericGuildEvent → (member : ℕ) → String → (updater : ℕ) → String → (note : String) → Event
  rank_updated : GenericGuildEvent → (rank : ℕ) → String → (rights money count : ℕ) → Event
  rank_created rank_deleted : GenericGuildEvent → (rank : ℕ) → String → (count : ℕ) → Event
  member_promote member_demote :
      GenericGuildEvent → (rank : ℕ) → String → (by : ℕ) → String → (member : ℕ) → String → Event
  new_message : (realm guild sender : ℕ) → String → (lang : ℕ) → String → Bool → List ℕ → Event

-- The database of `GuildsRepo` and the producer of events: `none` is an error. A realm's guilds come
-- with their members, each a new object.
pub record Env : Type 1 where
  pub Db : Type 0
  pub load_all : Db → (realm : ℕ) → Option (List (Guild × List GuildMember))
  pub invite_of : Db → (realm player : ℕ) → Option ℕ
  pub add_invite : Db → (realm player guild : ℕ) → Option (Unit {0}) × Db
  pub remove_invite : Db → (realm player : ℕ) → Option (Unit {0}) × Db
  pub add_member : Db → (realm : ℕ) → GuildMember → Option (Unit {0}) × Db
  pub remove_member : Db → (realm player : ℕ) → Option (Unit {0}) × Db
  pub set_motd : Db → (realm guild : ℕ) → String → Option (Unit {0}) × Db
  pub set_public_note : Db → (realm player : ℕ) → String → Option (Unit {0}) × Db
  pub set_officer_note : Db → (realm player : ℕ) → String → Option (Unit {0}) × Db
  pub set_rank : Db → (realm player rank : ℕ) → Option (Unit {0}) × Db
  pub set_info : Db → (realm guild : ℕ) → String → Option (Unit {0}) × Db
  pub update_rank : Db → (realm guild : ℕ) → GuildRank → Option (Unit {0}) × Db
  pub add_rank : Db → (realm guild : ℕ) → GuildRank → Option (Unit {0}) × Db
  pub delete_rank : Db → (realm guild rank : ℕ) → Option (Unit {0}) × Db
  pub produce : Event → Bool

-- `guildsInMemCache`. A pointer to a member is the number of its cell; a guild in `cache` is the
-- object itself. `is_warm` tells for which realms the two maps are not nil.
pub record World (e : Env) : Type 0 where
  pub is_warm : ℕ → Bool
  pub cache : ℕ → Map Guild
  pub guild_members_cache : ℕ → Map ℕ
  pub cells : ℕ → GuildMember
  pub next_cell : ℕ
  pub db : e.Db
  pub published : List Event

-- A step of the service; the mutex of the cache makes its methods atomic, and calls do not interleave.
abbrev pub M : Env → Type 0 → Type 0
M e A = World e → Result A × World e

module _ {e : Env} where
  abbrev pub and_then : {A B : Type 0} → Result A × World e → (A → M e B) → Result B × World e
  and_then (ok a, w) k = k a w
  and_then (err x, w) k = (err x, w)
  and_then (panic, w) k = (panic, w)

  infixl 5 ◌>>=◌ ◌>>◌
  abbrev pub ◌>>=◌ : {A B : Type 0} → M e A → (A → M e B) → M e B
  ◌>>=◌ m k w = and_then (m w) k

  abbrev pub ◌>>◌ : {B : Type 0} → M e (Unit {0}) → M e B → M e B
  ◌>>◌ m k w = and_then (m w) (λ _. k)

  abbrev pub pure : {A : Type 0} → A → M e A
  pure a w = (ok a, w)

  -- An early return with an error.
  abbrev pub check : Bool → Error → M e (Unit {0})
  check true x w = (ok tt, w)
  check false x w = (err x, w)

  abbrev pub or_fail : {A : Type 0} → Option A → Error → M e A
  or_fail none x w = (err x, w)
  or_fail (some a) x w = (ok a, w)

  -- A nil pointer is `none`.
  abbrev pub deref : {A : Type 0} → Option A → M e A
  deref none w = (panic, w)
  deref (some a) w = (ok a, w)

  abbrev pub answer : Option (Unit {0}) × e.Db → M e (Unit {0})
  answer (some u, d) w = (ok tt, record w { db = d })
  answer (none, d) w = (err database_error, record w { db = d })

  -- A call of the database.
  abbrev pub query : (e.Db → Option (Unit {0}) × e.Db) → M e (Unit {0})
  query f w = answer (f w.db) w

  -- A send whose failure the handler returns.
  abbrev pub publish : Event → M e (Unit {0})
  publish ev w = (
    if e.produce ev then ok tt else err producer_error,
    record w { published = w.published ++ ev ∷ [] },
  )

  -- The members of a guild as they are now.
  abbrev pub read_members : Guild → M e (List GuildMember)
  read_members g w = (ok (members_of w.cells g.guild_members), w)

  unfoldable pub build_generic_event_payload : Guild → M e GenericGuildEvent
  unfolding online_guids
  build_generic_event_payload g w = (
    ok (record {
      realm_id = g.realm_id;
      guild_id = g.id;
      guild_name = g.name;
      members_online = online_guids (members_of w.cells g.guild_members);
    }),
    w,
  )
