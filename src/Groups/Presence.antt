-- ===== src/Groups/Presence.antt =====
-- The cache of apps/groupserver/service/group-cache_inmem.go: which member's entry a login or a logout
-- changes.
use athena_wow_cluster.Prelude.{
  ℕ, zero, suc, refl, ap, ◌∙◌, List, [], ◌∷◌, ◌==◌, if◌then◌else◌, ◌<◌, ◌≡◌, ◌≢◌, Bool, some, arith,
  lt→ltb, length, get_elem?, set,
}
use athena_wow_cluster.Groups.Model.{GroupMember, Group, member_by_guid}
use athena_wow_cluster.Groups.World.{Env, World, ok, MemberPtr, slice_of}
use athena_wow_cluster.Groups.Cells.{max_realm_id, store_array}
use athena_wow_cluster.Groups.Cache.{append_member, add_member, set_online}
use athena_wow_cluster.Groups.Arrays.{take-set, get_elem?-take}
use athena_wow_cluster.Groups.Pointers.{members_at, IsCached, add_member_lem}

-- The pointer of a player leads to the entry of the group at an index.
pub record IsAligned {e : Env} (w : World e) (realm player : ℕ) (g : Group) (i : ℕ)
    (m : GroupMember) : Type 0 where
  pub pointer :
      w.group_members_cache realm player
      ≡ some (record { ptr_array = g.members.array; ptr_index = i })
  pub in_slice : i < g.members.len
  pub cell : get_elem? (w.arrays g.members.array) i ≡ some m

pub set_online_lem :
    {e : Env} (w : World e) (online : Bool) (realm player : ℕ) (p : MemberPtr) (m : GroupMember)
    → realm < max_realm_id
    → w.group_members_cache realm player ≡ some p
    → get_elem? (w.arrays p.ptr_array) p.ptr_index ≡ some m
    → set_online online realm player w ≡ (
      ok tt,
      record w {
        arrays =
            store_array w.arrays p.ptr_array
              (set (w.arrays p.ptr_array) p.ptr_index (record m { is_online = online }));
      },
    )
unfolding set_online
set_online_lem w online realm player p m h found cell =
    rw (lt→ltb realm max_realm_id h, found) (rw cell)

-- An entry that keeps its GUID is found under it, when no other entry has the GUID, and all others are
-- found as before.
member_by_guid-set :
    (ms : List GroupMember) (i : ℕ) (m v : GroupMember) (h : ℕ)
    → get_elem? ms i ≡ some m
    → v.member_guid ≡ m.member_guid
    → ((j : ℕ) (x : GroupMember) → get_elem? ms j ≡ some x → x.member_guid ≡ m.member_guid → j ≡ i)
    → member_by_guid (set ms i v) h ≡ (if h == m.member_guid then some v else member_by_guid ms h)
unfolding member_by_guid
member_by_guid-set [] i m v h at same only = cc
member_by_guid-set (x ∷ xs) zero m v h at same only = ground arith
member_by_guid-set (x ∷ xs) (suc i) m v h at same only =
    let other : x.member_guid ≢ m.member_guid = λ e. omega (arith, only 0 x refl e) in
    let ih =
      member_by_guid-set xs i m v h at same
        (λ j y found e. omega (arith, only (suc j) y found e)) in
    ground arith

module _ {e : Env} (w : World e) (realm key : ℕ) (g : Group) (c : IsCached w realm key g) where
  -- While the pointer leads into the group's array, a login or logout changes the entry that it leads
  -- to, and no other entry.
  pub set_online-members_at :
      (online : Bool) (player i : ℕ) (m : GroupMember)
      → IsAligned w realm player g i m
      → ((set_online online realm player w).0 ≡ ok tt)
        × (members_at (set_online online realm player w).1 realm key
            ≡ set (members_at w realm key) i (record m { is_online = online }))
  unfolding slice_of
  set_online-members_at online player i m a = ground (
    arith,
    set_online_lem w online realm player (record { ptr_array = g.members.array; ptr_index = i }) m
        c.realm_fits a.pointer a.cell,
    take-set g.members.len i (w.arrays g.members.array) (record m { is_online = online }),
  )

  -- While the player's pointer leads to the player's own and only entry in the group's array, a login or
  -- logout is seen when the group's members are looked up by GUID: the player has the new status, and
  -- whoever else is looked up is as before.
  pub set_online-member_by_guid :
      (online : Bool) (player i : ℕ) (m : GroupMember)
      → IsAligned w realm player g i m
      → m.member_guid ≡ player
      → ((j : ℕ) (x : GroupMember)
          → get_elem? (members_at w realm key) j ≡ some x
          → x.member_guid ≡ player
          → j ≡ i)
      → ((set_online online realm player w).0 ≡ ok tt)
        × ((h : ℕ)
            → member_by_guid (members_at (set_online online realm player w).1 realm key) h ≡ (
                if h == player
                then some (record m { is_online = online })
                else member_by_guid (members_at w realm key) h))
  unfolding slice_of
  set_online-member_by_guid online player i m a own only =
      let written = set_online-members_at online player i m a in
      let cell : get_elem? (members_at w realm key) i ≡ some m = ground (
        arith,
        c.found,
        get_elem?-take g.members.len i (w.arrays g.members.array) a.in_slice,
        a.cell,
      ) in
      (
        written.0,
        λ h. rw (written.1) (
            member_by_guid-set (members_at w realm key) i m (record m { is_online = online }) h cell
              refl (λ j x found e. only j x found (e ∙ own))
            ∙ ap
                (λ p.
                  if h == p
                  then some (record m { is_online = online })
                  else member_by_guid (members_at w realm key) h)
                own),
      )

-- When the array of a group is full, adding a member moves the group to a new array and leaves the
-- other members' pointers at the old one: their later logins and logouts do not show in the group.
pub add_member_detaches :
    {e : Env} (w : World e) (realm : ℕ) (new : GroupMember) (g : Group) (d : e.Db) (online : Bool)
    (player i : ℕ) (m : GroupMember)
    → IsCached w realm new.group_id g
    → e.insert_member w.db realm new ≡ (some tt, d)
    → g.members.len ≡ length (w.arrays g.members.array)
    → IsAligned w realm player g i m
    → player ≢ new.member_guid
    → let w' = (add_member realm new w).1 in
      members_at (set_online online realm player w').1 realm new.group_id
      ≡ members_at w' realm new.group_id
unfolding slice_of append_member
add_member_detaches {e} w realm new g d online player i m c inserted full a other =
    rw (add_member_lem w realm new g d c inserted) (
      ground (
        arith,
        set_online_lem (append_member realm g new (record w { db = d })).1 online realm player
            (record { ptr_array = g.members.array; ptr_index = i }) m c.realm_fits (ground arith)
            (ground arith),
      ))
