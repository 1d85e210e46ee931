-- ===== src/Groups/Rights.antt =====
-- apps/groupserver/service/group.go: who may invite, remove, message and lead, and what a refusal
-- leaves behind.
use Prim.Native.String.{String}
use athena_wow_cluster.Prelude.{ℕ, ◌≡◌, ◌≢◌, ◌⊎◌, true, false, none, some, [], ◌∷◌, ◌++◌, arith}
use athena_wow_cluster.Groups.Model.{
  GroupMember, Group, is_assistant, is_full, member_by_guid, online_member_guids,
}
use athena_wow_cluster.Groups.World.{
  Env, World, ok, err, no_permissions, database_error, new_message, slice_of,
}
use athena_wow_cluster.Groups.Cache.{group_id_by_player, members_of, update, store_group}
use athena_wow_cluster.Groups.Parts.{change_group_leader, get_group_with_leader}
use athena_wow_cluster.Groups.Membership.{invite, uninvite, change_leader}
use athena_wow_cluster.Groups.Settings.{send_message, is_leader_type}
use athena_wow_cluster.Groups.Pointers.{IsCached, group_by_id_lem}

-- The lookup of a player's group, which changes nothing.
abbrev pub HasGroup : {e : Env} → World e → ℕ → ℕ → ℕ → Type 0
HasGroup w realm player key = group_id_by_player realm player w ≡ (ok key, w)

-- `uninvite` by a player who does not lead the group is refused, and changes nothing: nobody is
-- removed, no event is sent, and the database is not asked.
pub uninvite_refused :
    {e : Env} (w : World e) (realm initiator target key : ℕ) (g : Group) (member : GroupMember)
    → HasGroup w realm initiator key
    → key ≢ 0
    → IsCached w realm key g
    → member_by_guid (slice_of w.arrays g.members) target ≡ some member
    → g.leader_guid ≢ initiator
    → uninvite realm initiator target w ≡ (err no_permissions, w)
unfolding uninvite members_of
uninvite_refused w realm initiator target key g member has ne c listed other =
    ground (arith, group_by_id_lem w realm key c.realm_fits)

-- When the database refuses the update, `changeLeader` reports the error, and the cached group has
-- the new leader all the same.
pub change_leader_not_atomic :
    {e : Env} (w : World e) (realm player new_leader key : ℕ) (g : Group) (member : GroupMember)
    (d : e.Db)
    → HasGroup w realm player key
    → key ≢ 0
    → IsCached w realm key g
    → g.leader_guid ≡ player
    → member_by_guid (slice_of w.arrays g.members) new_leader ≡ some member
    → e.update_group w.db realm (record g { leader_guid = new_leader }) ≡ (none, d)
    → let r = change_leader realm player new_leader w in
      (r.0 ≡ err database_error)
      × (r.1.groups_cache realm key ≡ some (record g { leader_guid = new_leader }))
unfolding change_leader change_group_leader get_group_with_leader members_of update store_group
change_leader_not_atomic w realm player new_leader key g member d has ne c leads listed refused =
    ground (arith, group_by_id_lem w realm key c.realm_fits)

-- An invitation goes out only for a player without a group, and from a member of a group only if the
-- member leads it or assists in it, and it has room.
pub invite_rights :
    {e : Env} (w : World e) (realm inviter invited a b : ℕ) (inviter_name invited_name : String)
    (g : Group) (m : GroupMember)
    → HasGroup w realm invited a
    → HasGroup w realm inviter b
    → b ≢ 0
    → IsCached w realm b g
    → member_by_guid (slice_of w.arrays g.members) inviter ≡ some m
    → (invite realm inviter invited inviter_name invited_name w).0 ≡ ok tt
    → (a ≡ 0) × ((g.leader_guid ≡ inviter) ⊎ (is_assistant m ≡ true)) × (is_full g ≡ false)
unfolding invite members_of
invite_rights w realm inviter invited a b inviter_name invited_name g m no_group has ne c listed e =
    ground (arith, group_by_id_lem w realm b c.realm_fits)

-- A message that is sent comes from a member of a group, a leader's message from its leader, and it
-- goes to the members online.
pub send_message_rights :
    {e : Env} (w : World e) (realm sender lang t key : ℕ) (message : String) (g : Group)
    (m : GroupMember)
    → HasGroup w realm sender key
    → IsCached w realm key g
    → member_by_guid (slice_of w.arrays g.members) sender ≡ some m
    → (send_message realm sender message lang t w).0 ≡ ok tt
    → (key ≢ 0)
      × ((is_leader_type t ≡ some false)
          ⊎ ((is_leader_type t ≡ some true) × (g.leader_guid ≡ sender)))
      × ((send_message realm sender message lang t w).1.published
          ≡ w.published
            ++ new_message realm g.id sender m.member_name lang message t
                (online_member_guids (slice_of w.arrays g.members))
              ∷ [])
unfolding send_message members_of
send_message_rights w realm sender lang t key message g m has c listed e =
    ground (arith, group_by_id_lem w realm key c.realm_fits)
