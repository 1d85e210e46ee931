-- ===== src/Groups/Settings.antt =====
-- apps/groupserver/service/group.go: messages, icons, loot, difficulty, and who is online.
use Prim.Native.Nat.{bit_or}
use Prim.Native.String.{String}
use athena_wow_cluster.Prelude.{
  ℕ, Bool, true, false, not, ◌&&◌, ◌||◌, Option, none, some, List, [], ◌∷◌, leb, ◌==◌,
  if◌then◌else◌, set,
}
use athena_wow_cluster.Groups.Model.{
  GroupMember, Group, max_target_icons, group_type_flags_raid, is_assistant, is_raid,
  member_by_guid, online_member_guids,
}
use athena_wow_cluster.Groups.World.{
  Env, M, Event, converted_to_raid, new_message, target_icon_updated, loot_type_changed,
  difficulty_changed, online_status_changed, no_permissions, group_not_found,
  group_member_not_found, member_in_dungeon_or_raid, icon_invalid, message_type_unsupported,
  characters_error, ◌>>=◌, ◌>>◌, pure, check, deref, or_fail, publish, publish_or_fail,
}
use athena_wow_cluster.Groups.Cache.{
  group_by_id, group_id_by_player, members_of, store_group, update,
}
use athena_wow_cluster.Groups.Parts.{icon_of, online_at, get_group_with_leader}
use athena_wow_cluster.Groups.Maps.{is_dungeon, is_raid_map}

abbrev pub message_type_group : ℕ
message_type_group = 0x2

abbrev pub message_type_group_leader : ℕ
message_type_group_leader = 0x33

abbrev pub message_type_raid : ℕ
message_type_raid = 0x3

abbrev pub message_type_raid_leader : ℕ
message_type_raid_leader = 0x27

-- The `switch` of `SendMessage`: whether the type is the leader's, `none` for its default.
unfoldable pub is_leader_type : ℕ → Option Bool
is_leader_type t =
    if t == message_type_group || t == message_type_raid
    then some false
    else if t == message_type_group_leader || t == message_type_raid_leader
    then some true
    else none

unfoldable pub any : (ℕ → Bool) → List ℕ → Bool
any p [] = false
any p (x ∷ xs) = p x || any p xs

module _ {e : Env} where
  -- A write to the group object, `Update`, then an event about it.
  unfoldable pub save : ℕ → ℕ → Group → (List ℕ → Event) → M e (Unit {0})
  save realm key g ev = do
    store_group realm key g
    update realm g
    ms ← members_of g
    publish (ev (online_member_guids ms))

  unfoldable pub convert_to_raid : (realm player : ℕ) → M e (Unit {0})
  unfolding save
  convert_to_raid realm player = do
    (key, g) ← get_group_with_leader realm player
    save realm key (record g { group_type = bit_or g.group_type group_type_flags_raid })
        (converted_to_raid realm g.id g.leader_guid)

  unfoldable pub send_message :
      (realm sender : ℕ) → String → (lang message_type : ℕ) → M e (Unit {0})
  send_message realm sender message lang message_type = do
    group_id ← group_id_by_player realm sender
    check (not (group_id == 0)) group_not_found
    found ← group_by_id realm group_id
    g ← or_fail found group_not_found
    ms ← members_of g
    member ← or_fail (member_by_guid ms sender) group_member_not_found
    is_leader ← or_fail (is_leader_type message_type) message_type_unsupported
    check (not (is_leader && not (g.leader_guid == sender))) no_permissions
    publish (
        new_message realm g.id sender member.member_name lang message message_type
          (online_member_guids ms))

  unfoldable pub set_loot_method :
      (realm updater method loot_master loot_threshold : ℕ) → M e (Unit {0})
  unfolding save
  set_loot_method realm updater method loot_master loot_threshold = do
    (key, g) ← get_group_with_leader realm updater
    save realm key
        (record g {
          loot_method = method;
          loot_threshold = loot_threshold;
          looter_guid = loot_master;
        })
        (loot_type_changed realm g.id method loot_master loot_threshold)

  unfoldable pub set_difficulty :
      (ℕ → Bool) → (Group → Group) → Option ℕ → Option ℕ → (realm updater : ℕ) → M e (Unit {0})
  unfolding save
  set_difficulty is_closed change dungeon raid realm updater = do
    (key, g) ← get_group_with_leader realm updater
    ms ← members_of g
    char_maps ← or_fail (e.maps_of_online realm (online_member_guids ms)) characters_error
    check (not (any is_closed char_maps)) member_in_dungeon_or_raid
    save realm key (change g) (difficulty_changed realm g.id updater dungeon raid)

  unfoldable pub set_dungeon_difficulty : (realm updater difficulty : ℕ) → M e (Unit {0})
  set_dungeon_difficulty realm updater difficulty =
      set_difficulty is_dungeon (λ g. record g { difficulty = difficulty }) (some difficulty) none
        realm updater

  unfoldable pub set_raid_difficulty : (realm updater difficulty : ℕ) → M e (Unit {0})
  set_raid_difficulty realm updater difficulty =
      set_difficulty is_raid_map (λ g. record g { raid_difficulty = difficulty }) none
        (some difficulty) realm updater

  -- The loop of `SetTargetIcon`: the target's old icon is cleared, with an event of its own.
  unfoldable pub clear_icon : ℕ → ℕ → Group → Option ℕ → M e Group
  clear_icon realm key g none = pure g
  clear_icon realm key g (some i) = do
    let g' = record g { target_icons = set g.target_icons i 0 }
    store_group realm key g'
    ms ← members_of g'
    publish (target_icon_updated realm g.id 0 0 i (online_member_guids ms))
    pure g'

  -- Raid members who neither lead nor assist may not mark. `IsAssistant` reads the member only then.
  unfoldable pub may_mark : Group → ℕ → Option GroupMember → M e Bool
  may_mark g updater member =
      if is_raid g && not (g.leader_guid == updater)
      then (deref member >>= λ m. pure (is_assistant m))
      else pure true

  unfoldable pub set_target_icon : (realm updater icon target : ℕ) → M e (Unit {0})
  set_target_icon realm updater icon target = do
    check (not (leb max_target_icons icon)) icon_invalid
    group_id ← group_id_by_player realm updater
    check (not (group_id == 0)) group_not_found
    found ← group_by_id realm group_id
    g ← or_fail found group_not_found
    ms ← members_of g
    allowed ← may_mark g updater (member_by_guid ms updater)
    check allowed no_permissions
    g ← clear_icon realm group_id g (icon_of g.target_icons target 0)
    save realm group_id (record g { target_icons = set g.target_icons icon target })
        (target_icon_updated realm g.id updater target icon)

  -- `HandleCharacterLoggedIn` and `HandleCharacterLoggedOut` of the service.
  unfoldable pub handle_online_status : Bool → (realm player : ℕ) → M e (Unit {0})
  handle_online_status online realm player = do
    group_id ← group_id_by_player realm player
    if group_id == 0 then pure tt else do
      receivers ← online_at realm group_id
      publish_or_fail (online_status_changed realm group_id player online receivers)
