-- ===== src/Groups/Parts.antt =====
-- apps/groupserver/service/group.go: what the service's methods share. Contexts and logging are left
-- out. A pointer to a group is its realm and its key in the cache, so a write to a field is a
-- `store_group`, and a read after a call of the cache reads the group again.
use Prim.Native.String.{String}
use athena_wow_cluster.Prelude.{
  ℕ, ◌+◌, Bool, true, not, ◌||◌, Option, none, some, List, [], ◌∷◌, ◌++◌, ◌==◌, if◌then◌else◌,
  replicate,
}
use athena_wow_cluster.Groups.Model.{
  GroupMember, Group, GroupInvite, group_type_flags_normal, loot_type_free_for_all,
  item_quality_uncommon, online_member_guids,
}
use athena_wow_cluster.Groups.World.{
  Env, M, group_created, member_added, group_disband, leader_changed, no_permissions,
  group_not_found, ok, err, database_error, ◌>>=◌, ◌>>◌, pure, check, deref, or_fail, query,
  publish,
}
use athena_wow_cluster.Groups.Cache.{
  group_by_id, group_id_by_player, members_of, store_group, create, delete_group_by_id, update,
  add_member,
}

-- The first online member other than the one who leaves, 0 if there is none.
unfoldable pub next_leader : List GroupMember → ℕ → ℕ
next_leader [] player = 0
next_leader (m ∷ ms) player =
    if not m.is_online || m.member_guid == player then next_leader ms player else m.member_guid

unfoldable pub new_member : ℕ → String → GroupMember
new_member guid name = record {
  group_id = 0;
  member_guid = guid;
  member_flags = 0;
  member_name = name;
  is_online = true;
  sub_group = 0;
  roles = 0;
}

-- The composite literal of `createGroup`; the id and the slice are set when it is stored.
unfoldable pub new_group : GroupInvite → Group
new_group i = record {
  id = 0;
  leader_guid = i.inviter;
  loot_method = loot_type_free_for_all;
  looter_guid = i.inviter;
  loot_threshold = item_quality_uncommon;
  target_icons = replicate 8 0;
  group_type = group_type_flags_normal;
  difficulty = 0;
  raid_difficulty = 0;
  master_looter_guid = i.inviter;
  members = record { array = 0; len = 0 };
}

-- The first icon of the target, counted from `i`.
unfoldable pub icon_of : List ℕ → ℕ → ℕ → Option ℕ
icon_of [] target i = none
icon_of (t ∷ ts) target i = if t == target then some i else icon_of ts target (i + 1)

module _ {e : Env} where
  -- The online members of the group at a key, read now.
  unfoldable pub online_at : ℕ → ℕ → M e (List ℕ)
  unfolding group_by_id members_of
  online_at realm key = do
    found ← group_by_id realm key
    g ← deref found
    ms ← members_of g
    pure (online_member_guids ms)

  unfoldable pub add_invite : ℕ → GroupInvite → M e (Unit {0})
  add_invite realm i = query (λ d. e.replace_invite d realm i)

  unfoldable pub get_invite_by_invited_player : ℕ → ℕ → M e (Option GroupInvite)
  get_invite_by_invited_player realm player w =
      (elim (e.select_invite w.db realm player) [ none ↦ err database_error | some r ↦ ok r ], w)

  unfoldable pub create_group : ℕ → GroupInvite → M e (Unit {0})
  unfolding new_group new_member
  create_group realm i = do
    let ms = new_member i.inviter i.inviter_name ∷ new_member i.invitee i.invitee_name ∷ []
    g ← create realm (new_group i) ms
    stored ← members_of g
    publish (group_created realm g stored)

  -- `addMember`: the event lists the members online after the invitee has joined, then the invitee.
  unfoldable pub add_member_by_invite : ℕ → ℕ → GroupInvite → M e (Unit {0})
  unfolding new_member
  add_member_by_invite realm key i = do
    add_member realm (record (new_member i.invitee i.invitee_name) { group_id = i.invite_group_id })
    online ← online_at realm key
    publish (member_added realm key i.invitee i.invitee_name (online ++ i.invitee ∷ []))

  unfoldable pub disband : ℕ → Group → M e (Unit {0})
  disband realm g = do
    ms ← members_of g
    delete_group_by_id realm g.id
    publish (group_disband realm g.id (online_member_guids ms))

  -- `changeLeader` writes the new leader into the cached group before it asks the database.
  unfoldable pub change_group_leader : ℕ → ℕ → Group → ℕ → Bool → M e (Unit {0})
  change_group_leader realm key g new_leader needs_event_update = do
    let g' = record g { leader_guid = new_leader }
    store_group realm key g'
    update realm g'
    ms ← members_of g'
    if needs_event_update
        then publish (leader_changed realm g.id g.leader_guid new_leader (online_member_guids ms))
        else pure tt

  unfoldable pub get_group_with_leader : ℕ → ℕ → M e (ℕ × Group)
  get_group_with_leader realm leader = do
    group_id ← group_id_by_player realm leader
    check (not (group_id == 0)) group_not_found
    found ← group_by_id realm group_id
    g ← or_fail found group_not_found
    check (g.leader_guid == leader) no_permissions
    pure (group_id, g)

  unfoldable pub group_by_member_guid : ℕ → ℕ → M e (Option Group)
  group_by_member_guid realm member = do
    group_id ← group_id_by_player realm member
    group_by_id realm group_id
