-- ===== src/Groups/Pointers.antt =====
-- The cache of apps/groupserver/service/group-cache_inmem.go: the members that a group lists, and where
-- the member pointers lead after members were added and removed.
use athena_wow_cluster.Prelude.{
  ℕ, suc, ◌≤◌, ◌<◌, ◌≡◌, none, some, List, [], ◌∷◌, ◌++◌, arith, lt→ltb, length, drop, replicate,
}
use athena_wow_cluster.Groups.Model.{GroupMember, Group, zero_member}
use athena_wow_cluster.Groups.World.{Env, World, ok, slice_of}
use athena_wow_cluster.Groups.Cells.{max_realm_id, append_cells}
use athena_wow_cluster.Groups.Cache.{
  at_realm, append_member, group_by_id, group_id_by_player, add_member,
}
use athena_wow_cluster.Groups.Arrays.{take-grown, take-append_cells, get_elem?-grown}

-- The members that the group at a key lists.
abbrev pub members_at : {e : Env} → World e → ℕ → ℕ → List GroupMember
members_at w realm key = elim (w.groups_cache realm key) [
  | none ↦ []
  | some g ↦ slice_of w.arrays g.members
]

-- A group in the cache: its slice lies in an array that was allocated.
pub record IsCached {e : Env} (w : World e) (realm key : ℕ) (g : Group) : Type 0 where
  pub realm_fits : realm < max_realm_id
  pub found : w.groups_cache realm key ≡ some g
  pub fits : g.members.len ≤ length (w.arrays g.members.array)
  pub allocated : g.members.array < w.next_array

module _ {e : Env} (w : World e) (realm : ℕ) where
  at_realm_lem : realm < max_realm_id → at_realm realm w ≡ (ok tt, w)
  at_realm_lem h = rw (lt→ltb realm max_realm_id h)

  pub group_by_id_lem :
      (key : ℕ)
      → realm < max_realm_id
      → group_by_id realm key w ≡ (ok (w.groups_cache realm key), w)
  unfolding group_by_id
  group_by_id_lem key h = rw (lt→ltb realm max_realm_id h)

  pub add_member_lem :
      (m : GroupMember) (g : Group) (d : e.Db)
      → IsCached w realm m.group_id g
      → e.insert_member w.db realm m ≡ (some tt, d)
      → add_member realm m w ≡ append_member realm g m (record w { db = d })
  unfolding add_member
  add_member_lem m g d c inserted = rw (inserted, lt→ltb realm max_realm_id c.realm_fits, c.found)

module _ {e : Env} (w : World e) (realm : ℕ) (m : GroupMember) (g : Group) (d : e.Db)
    (c : IsCached w realm m.group_id g)
    (inserted : e.insert_member w.db realm m ≡ (some tt, d)) where
  -- A member who was added is the last of the group, whether or not the array had room.
  pub members_at-add_member :
      ((add_member realm m w).0 ≡ ok tt)
      × (members_at (add_member realm m w).1 realm m.group_id
          ≡ members_at w realm m.group_id ++ m ∷ [])
  unfolding append_member slice_of
  members_at-add_member = ground (
    arith,
    add_member_lem w realm m g d c inserted,
    take-append_cells (w.arrays g.members.array) g.members.len m c.fits,
    take-grown (w.arrays g.members.array) g.members.len m
        (replicate (e.spare_cells g.members.len) zero_member) c.fits,
  )

  -- The new member's pointer leads to the new entry, so the group is found by the player.
  pub group_id_by_player-add_member :
      (group_id_by_player realm m.member_guid (add_member realm m w).1).0 ≡ ok m.group_id
  unfolding append_member group_id_by_player append_cells
  group_id_by_player-add_member = ground (
    arith,
    add_member_lem w realm m g d c inserted,
    get_elem?-grown (w.arrays g.members.array) g.members.len m
        (drop (suc g.members.len) (w.arrays g.members.array)) c.fits,
    get_elem?-grown (w.arrays g.members.array) g.members.len m
        (replicate (e.spare_cells g.members.len) zero_member) c.fits,
  )
