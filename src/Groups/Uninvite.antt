-- ===== src/Groups/Uninvite.antt =====
-- `Uninvite` of apps/groupserver/service/group.go: who may remove a member, and what remains.
use athena_wow_cluster.Prelude.{
  ℕ, ◌<◌, ◌≡◌, ◌≢◌, inl, inr, some, [], ◌∷◌, ◌++◌, arith, ◌==◌, Bool-cases, ==_iff,
}
use athena_wow_cluster.Groups.Model.{GroupMember, Group, member_by_guid, online_member_guids}
use athena_wow_cluster.Groups.World.{
  Env, World, ok, MemberPtr, member_left, slice_of, and_then, publish,
}
use athena_wow_cluster.Groups.Cache.{group_id_by_player, members_of, remove_member, remove_found}
use athena_wow_cluster.Groups.Arrays.{remove_at}
use athena_wow_cluster.Groups.Membership.{uninvite}
use athena_wow_cluster.Groups.Pointers.{members_at, IsCached, group_by_id_lem}
use athena_wow_cluster.Groups.Removal.{IsMember, remove_member_lem, remove_member-members_at}
use athena_wow_cluster.Groups.Rights.{HasGroup, uninvite_refused}

uninvite_run :
    {e : Env} (w : World e) (realm initiator target key : ℕ) (g : Group) (member : GroupMember)
    → HasGroup w realm initiator key
    → key ≢ 0
    → IsCached w realm key g
    → member_by_guid (slice_of w.arrays g.members) target ≡ some member
    → g.leader_guid ≡ initiator
    → 2 < g.members.len
    → uninvite realm initiator target w
      ≡ and_then (remove_member realm target w) (λ _. publish (
          member_left realm key member.member_guid member.member_name g.leader_guid
            (online_member_guids (slice_of w.arrays g.members))))
unfolding uninvite members_of
uninvite_run w realm initiator target key g member has ne c listed leads big =
    ground (arith, group_by_id_lem w realm key c.realm_fits)

-- When a player is removed from a group of more than two, the initiator leads the group. The group keeps
-- the other members in their order, the player has no group any more, and those who were online are
-- told.
pub uninvite_removes :
    {e : Env} (w : World e) (realm initiator target key : ℕ) (g : Group) (p : MemberPtr)
    (m member : GroupMember) (i : ℕ) (d : e.Db)
    → HasGroup w realm initiator key
    → key ≢ 0
    → IsCached w realm key g
    → IsMember w realm key target g p m i
    → member_by_guid (slice_of w.arrays g.members) target ≡ some member
    → 2 < g.members.len
    → e.delete_member w.db realm target ≡ (some tt, d)
    → (uninvite realm initiator target w).0 ≡ ok tt
    → let r = uninvite realm initiator target w in
      (g.leader_guid ≡ initiator)
      × (members_at r.1 realm key ≡ remove_at i (members_at w realm key))
      × ((group_id_by_player realm target r.1).0 ≡ ok 0)
      × (r.1.published
          ≡ w.published
            ++ member_left realm key member.member_guid member.member_name initiator
                (online_member_guids (slice_of w.arrays g.members))
              ∷ [])
unfolding remove_found group_id_by_player
uninvite_removes w realm initiator target key g p m member i d has ne c is_member listed big deleted
      done =
    elim (Bool-cases (g.leader_guid == initiator)) [
      | inr other ↦ absurd (
          ground (
            arith,
            uninvite_refused w realm initiator target key g member has ne c listed (ground arith),
          ))
      | inl same ↦
          let leads = (==_iff g.leader_guid initiator).0 same in
          let kept = remove_member-members_at w realm key target g p m i d c is_member deleted in
          rw (uninvite_run w realm initiator target key g member has ne c listed leads big) (
            ground (
              arith,
              leads,
              kept,
              remove_member_lem w realm key target g p m i d c is_member deleted,
            ))
    ]
