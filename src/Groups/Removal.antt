-- ===== src/Groups/Removal.antt =====
-- `RemoveMember` of apps/groupserver/service/group-cache_inmem.go: the members and the pointers after it.
use athena_wow_cluster.Prelude.{
  ℕ, suc, ◌+◌, ◌-◌, ◌≤◌, ◌<◌, ◌≡◌, ◌≢◌, Bool, some, List, [], ◌∷◌, arith, lt→ltb, length, get_elem?,
  set,
}
use athena_wow_cluster.Groups.Model.{GroupMember, Group}
use athena_wow_cluster.Groups.World.{Env, World, ok, MemberPtr, slice_of}
use athena_wow_cluster.Groups.Cells.{max_realm_id, remove_cells, index_of}
use athena_wow_cluster.Groups.Cache.{set_online, group_id_by_player, remove_found, remove_member}
use athena_wow_cluster.Groups.Arrays.{
  remove_at, take-set, take-remove_cells, get_elem?-remove_cells, length-take,
}
use athena_wow_cluster.Groups.Pointers.{members_at, IsCached}
use athena_wow_cluster.Groups.Presence.{set_online_lem}

index_of-bounds :
    (ms : List GroupMember) (guid j i : ℕ)
    → index_of ms guid j ≡ some i
    → (j ≤ i) × (i < j + length ms)
unfolding index_of
index_of-bounds [] guid j i e = cc
index_of-bounds (m ∷ ms) guid j i e = ground (arith, index_of-bounds ms guid (j + 1) i)

-- A player who is the member at index `i` of the group, with a pointer to an entry of that group.
pub record IsMember {e : Env} (w : World e) (realm key player : ℕ) (g : Group) (p : MemberPtr)
    (m : GroupMember) (i : ℕ) : Type 0 where
  pub pointer : w.group_members_cache realm player ≡ some p
  pub cell : get_elem? (w.arrays p.ptr_array) p.ptr_index ≡ some m
  pub of_group : m.group_id ≡ key
  pub index : index_of (slice_of w.arrays g.members) player 0 ≡ some i

pub group_id_by_player_lem :
    {e : Env} (w : World e) (realm key player : ℕ) (g : Group) (p : MemberPtr) (m : GroupMember)
    (i : ℕ)
    → realm < max_realm_id
    → IsMember w realm key player g p m i
    → group_id_by_player realm player w ≡ (ok key, w)
unfolding group_id_by_player
group_id_by_player_lem w realm key player g p m i h member =
    rw (lt→ltb realm max_realm_id h) (rw (member.pointer) (rw (member.cell) (rw (member.of_group))))

module _ {e : Env} (w : World e) (realm key player : ℕ) (g : Group) (p : MemberPtr)
    (m : GroupMember) (i : ℕ) (d : e.Db) (c : IsCached w realm key g)
    (member : IsMember w realm key player g p m i)
    (deleted : e.delete_member w.db realm player ≡ (some tt, d)) where
  pub remove_member_lem :
      remove_member realm player w ≡ remove_found realm key g player (some i) (record w { db = d })
  unfolding remove_member
  remove_member_lem =
      rw (deleted, lt→ltb realm max_realm_id c.realm_fits, member.pointer)
        (rw (member.cell) (
          rw (member.of_group)
            (rw (lt→ltb realm max_realm_id c.realm_fits) (rw (c.found) (rw (member.index))))))

  index-bound : i < g.members.len
  unfolding slice_of
  index-bound = omega (
    arith,
    index_of-bounds (slice_of w.arrays g.members) player 0 i member.index,
    length-take g.members.len (w.arrays g.members.array) c.fits,
  )

  -- The group keeps its other members, in their order, and the player has no group any more.
  pub remove_member-members_at :
      ((remove_member realm player w).0 ≡ ok tt)
      × (members_at (remove_member realm player w).1 realm key
          ≡ remove_at i (members_at w realm key))
      × ((group_id_by_player realm player (remove_member realm player w).1).0 ≡ ok 0)
  unfolding remove_found slice_of group_id_by_player
  remove_member-members_at = rw remove_member_lem (
      ground
        (arith, take-remove_cells (w.arrays g.members.array) g.members.len i index-bound c.fits))

  -- The players behind the one removed keep pointers to where they stood: a login or logout of such a
  -- player is written into the entry of the next member.
  pub remove_member_misdirects :
      (online : Bool) (other j : ℕ) (n : GroupMember)
      → other ≢ player
      → i ≤ j
      → suc j < g.members.len
      → w.group_members_cache realm other
        ≡ some (record { ptr_array = g.members.array; ptr_index = j })
      → get_elem? (w.arrays g.members.array) (suc j) ≡ some n
      → let w' = (remove_member realm player w).1 in
        members_at (set_online online realm other w').1 realm key
        ≡ set (members_at w' realm key) j (record n { is_online = online })
  unfolding remove_found slice_of
  remove_member_misdirects online other j n ne le lt aligned next = rw remove_member_lem (
      ground (
        arith,
        set_online_lem (remove_found realm key g player (some i) (record w { db = d })).1 online
            realm other (record { ptr_array = g.members.array; ptr_index = j }) n c.realm_fits
            (ground arith)
            (ground (
              arith,
              get_elem?-remove_cells (w.arrays g.members.array) g.members.len i index-bound c.fits j
                  le lt,
            )),
        take-set (g.members.len - 1) j (remove_cells (w.arrays g.members.array) g.members.len i)
            (record n { is_online = online }),
      ))
