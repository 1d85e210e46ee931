-- ===== src/Groups/Membership.antt =====
-- apps/groupserver/service/group.go: who is in a group, who invites, leaves and leads.
use Prim.Native.String.{String}
use athena_wow_cluster.Prelude.{ℕ, true, false, not, ◌||◌, leb, ◌==◌, if◌then◌else◌}
use athena_wow_cluster.Groups.Model.{
  GroupMember, GroupInvite, is_assistant, is_full, member_by_guid, online_member_guids,
}
use athena_wow_cluster.Groups.World.{
  Env, M, invite_created, member_left, already_in_group, no_permissions, group_full,
  group_not_found, invite_not_found, inviter_not_found, ◌>>=◌, ◌>>◌, pure, check, deref, or_fail,
  publish,
}
use athena_wow_cluster.Groups.Cache.{group_by_id, group_id_by_player, members_of, remove_member}
use athena_wow_cluster.Groups.Parts.{
  next_leader, add_invite, get_invite_by_invited_player, create_group, add_member_by_invite,
  disband, change_group_leader, get_group_with_leader,
}

module _ {e : Env} where
  send_invite : ℕ → GroupInvite → M e (Unit {0})
  unfolding add_invite
  send_invite realm i = do add_invite realm i; publish (invite_created realm i.invite_group_id i)

  invite_to_group : ℕ → ℕ → ℕ → ℕ → String → String → M e (Unit {0})
  unfolding send_invite
  invite_to_group realm group_id inviter invited inviter_name invited_name = do
    found ← group_by_id realm group_id
    g ← deref found
    ms ← members_of g
    member ← or_fail (member_by_guid ms inviter) inviter_not_found
    check (g.leader_guid == inviter || is_assistant member) no_permissions
    check (not (is_full g)) group_full
    send_invite realm (record {
      inviter = inviter;
      inviter_name = inviter_name;
      invitee = invited;
      invitee_name = invited_name;
      invite_group_id = group_id;
    })

  unfoldable pub invite : (realm inviter invited : ℕ) → String → String → M e (Unit {0})
  unfolding invite_to_group
  invite realm inviter invited inviter_name invited_name = do
    group_id ← group_id_by_player realm invited
    check (group_id == 0) already_in_group
    inviter_group ← group_id_by_player realm inviter
    if inviter_group == 0
        then send_invite realm (record {
          inviter = inviter;
          inviter_name = inviter_name;
          invitee = invited;
          invitee_name = invited_name;
          invite_group_id = 0;
        })
        else invite_to_group realm inviter_group inviter invited inviter_name invited_name

  accept_into_group : ℕ → GroupInvite → M e (Unit {0})
  accept_into_group realm i = do
    found ← group_by_id realm i.invite_group_id
    add_member_by_invite realm i.invite_group_id i

  unfoldable pub accept_invite : (realm player : ℕ) → M e (Unit {0})
  unfolding get_invite_by_invited_player accept_into_group
  accept_invite realm player = do
    found ← get_invite_by_invited_player realm player
    i ← or_fail found invite_not_found
    if i.invite_group_id == 0 then create_group realm i else accept_into_group realm i

  unfoldable pub uninvite : (realm initiator target : ℕ) → M e (Unit {0})
  uninvite realm initiator target = do
    group_id ← group_id_by_player realm initiator
    check (not (group_id == 0)) group_not_found
    found ← group_by_id realm group_id
    g ← or_fail found group_not_found
    ms ← members_of g
    member ← or_fail (member_by_guid ms target) group_not_found
    check (g.leader_guid == initiator) no_permissions
    if leb g.members.len 2 then disband realm g else do
      remove_member realm target
      publish (
          member_left realm group_id member.member_guid member.member_name g.leader_guid
            (online_member_guids ms))

  leave_group : ℕ → ℕ → ℕ → GroupMember → M e (Unit {0})
  leave_group realm player group_id member = do
    found ← group_by_id realm group_id
    g ← deref found
    ms ← members_of g
    remove_member realm player
    publish (
        member_left realm group_id member.member_guid member.member_name g.leader_guid
          (online_member_guids ms))

  unfoldable pub leave : (realm player : ℕ) → M e (Unit {0})
  unfolding leave_group
  leave realm player = do
    group_id ← group_id_by_player realm player
    check (not (group_id == 0)) group_not_found
    found ← group_by_id realm group_id
    g ← deref found
    ms ← members_of g
    member ← or_fail (member_by_guid ms player) group_not_found
    if leb g.members.len 2 then disband realm g else do
      if player == g.leader_guid
          then change_group_leader realm group_id g (next_leader ms player) false
          else pure tt
      leave_group realm player group_id member

  unfoldable pub change_leader : (realm player new_leader : ℕ) → M e (Unit {0})
  change_leader realm player new_leader = do
    (key, g) ← get_group_with_leader realm player
    ms ← members_of g
    member ← or_fail (member_by_guid ms new_leader) group_not_found
    change_group_leader realm key g new_leader true
