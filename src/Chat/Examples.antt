-- ===== src/Chat/Examples.antt =====
-- Runs of the chat channels on small examples: a channel of three players, whose owner kicks and
-- bans, and a database that accepts everything or refuses the members' flags.
use athena_wow_cluster.Prelude.{
  ℕ, ◌≡◌, ◌≢◌, refl, Bool, true, false, if◌then◌else◌, Option, none, some, List, [], ◌∷◌, empty_map,
  put, arith, Map,
}
use athena_wow_cluster.Chat.Model.{
  ChannelMember, ActiveChannel, find_member, has_flag, member_flag_moderator,
}
use athena_wow_cluster.Chat.Calls.{Env, Moment, Local, ok, err, database_error}
use athena_wow_cluster.Chat.Channel.{leave_channel, set_moderator, set_mute, set_owner}
use athena_wow_cluster.Chat.Queries.{is_member, get_member_flags}
use athena_wow_cluster.Chat.Commands.{
  kick, ban_by_name, unban_by_name, set_mute_by_name, set_moderator_by_name, set_owner_by_name,
  set_channel_password, moderates, owns,
}
use athena_wow_cluster.Chat.Members.{IsOrder}
use athena_wow_cluster.Chat.Owners.{WellFormed, IsOwner}
use athena_wow_cluster.Chat.Manager.{
  Manager, ChannelKey, find_channel, cleanup_local_memory, get_channel, get_or_create_channel,
}
use athena_wow_cluster.Chat.History.{
  Command, join, kick_player, ban_player, unban_player, exec_all, view, Run,
}
use athena_wow_cluster.Chat.Ownership.{exec_all-WellFormed, IsHistory}
use athena_wow_cluster.Chat.Refinement.{exec_all-Run}
use athena_wow_cluster.Chat.Bans.{banned_stays_out}
use athena_wow_cluster.Chat.Rights.{command_rights, refused_unchanged}
use athena_wow_cluster.Chat.Undo.{IsRestored}
use athena_wow_cluster.Chat.Handover.{leave_channel_hands_over}
use athena_wow_cluster.Chat.Cleanup.{cleanup_local_memory_lem, get_or_create_channel-get_channel}

abbrev answer : Bool → Option (Unit {0}) × Unit {0}
answer b = (if b then some tt else none, tt)

-- `writes` tells whether the database takes the flags of a member.
abbrev env_with : Bool → Env
env_with writes = record {
  Db = Unit;
  create_channel = λ d realm row. (some 7, tt);
  channel_by_id = λ d realm id. some none;
  channel_by_name = λ d realm name team. some none;
  all_channels = λ d realm. some [];
  update_channel = λ d realm row. answer true;
  update_last_used = λ d realm id. answer true;
  clean_old_channels = λ d realm time. answer true;
  clean_expired_bans = λ d realm. answer true;
  channel_rights = λ d realm name. some none;
  add_ban = λ d realm b. answer true;
  remove_ban = λ d realm id player. answer true;
  channel_bans = λ d realm id. some [];
  save_member = λ d realm id m. answer true;
  remove_member = λ d realm id player. answer true;
  load_members = λ d realm id. some [];
  update_flags = λ d realm id player flags. answer writes;
  to_lower = λ name. name;
}

abbrev at : ℕ → Moment
at now = record { now = now; order = λ ms. ms }

abbrev owner : ChannelMember
owner = record { player_guid = 10; player_name = "Thrall"; flags = 1 }

abbrev guest : ChannelMember
guest = record { player_guid = 20; player_name = "Rexxar"; flags = 0 }

abbrev helper : ChannelMember
helper = record { player_guid = 30; player_name = "Jaina"; flags = 2 }

abbrev channel_of : List ChannelMember → Map ℕ → ActiveChannel
channel_of ms bans = record {
  channel_id = 7;
  name = "world";
  team = 0;
  password = "";
  announce = true;
  ownership = true;
  moderation = false;
  flags = 1;
  owner_guid = 10;
  rights = none;
  members = ms;
  banned_until = bans;
}

abbrev world : ActiveChannel
world = channel_of (owner ∷ guest ∷ helper ∷ []) empty_map

abbrev purged : ActiveChannel
purged = channel_of (owner ∷ helper ∷ []) (put empty_map 20 500)

abbrev local : (writes : Bool) → ActiveChannel → Local (env_with writes)
local writes ch = record { ch = ch; db = tt }

IsOrder-at : (now : ℕ) → IsOrder (at now)
IsOrder-at now ms d = (d, λ g. refl)

world-WellFormed : WellFormed world
unfolding find_member has_flag
world-WellFormed = record {
  distinct = (refl, (refl, (refl, tt)));
  no_zero = refl;
  only_owner = λ g m e f. ground arith;
  is_owned = λ g m own e. (owner, refl, refl);
}

purged-WellFormed : WellFormed purged
unfolding find_member has_flag
purged-WellFormed = record {
  distinct = (refl, (refl, tt));
  no_zero = refl;
  only_owner = λ g m e f. ground arith;
  is_owned = λ g m own e. (owner, refl, refl);
}

abbrev commands : List (Moment × Command)
commands =
    (at 100, kick_player 30 "Rexxar")
    ∷ (at 101, join 20 "Rexxar" "")
    ∷ (at 102, ban_player 10 "Rexxar")
    ∷ (at 103, unban_player 10 "Rexxar")
    ∷ []

commands-IsHistory : IsHistory commands
commands-IsHistory = (
  IsOrder-at 100,
  tt,
  (IsOrder-at 101, (λ e. absurd (ground arith)), (IsOrder-at 102, tt, (IsOrder-at 103, tt, tt))),
)

exec_all-Run_example : Run commands (view world) (view (exec_all 1 commands (local true world)).ch)
exec_all-Run_example =
    exec_all-Run 1 commands (local true world) commands-IsHistory world-WellFormed

exec_all-WellFormed_example : WellFormed (exec_all 1 commands (local true world)).ch
exec_all-WellFormed_example =
    exec_all-WellFormed 1 commands (local true world) commands-IsHistory world-WellFormed

banned_stays_out_example :
    let after = (exec_all 1 commands (local true purged)).ch in
    (is_member after 20 ≡ false) × (after.banned_until 20 ≡ some 500)
unfolding is_member find_member
banned_stays_out_example =
    banned_stays_out 1 20 500 commands (local true purged) commands-IsHistory purged-WellFormed
      (refl, (refl, (refl, (refl, tt)))) refl refl

command_rights_example :
    let flags = get_member_flags world 30 in
    ((kick (at 100) 1 30 "Rexxar" (local true world)).0 ≡ ok 20 → moderates flags ≡ true)
    × ((ban_by_name (at 100) 1 30 "Rexxar" (local true world)).0 ≡ ok 20 → moderates flags ≡ true)
    × ((unban_by_name (at 100) 1 30 "Rexxar" (local true world)).0 ≡ ok 20 → moderates flags ≡ true)
    × ((set_mute_by_name (at 100) 1 30 "Rexxar" true (local true world)).0 ≡ ok 20
        → moderates flags ≡ true)
    × ((set_moderator_by_name (at 100) 1 30 "Rexxar" true (local true world)).0 ≡ ok 20
        → owns flags ≡ true)
    × ((set_owner_by_name (at 100) 1 30 "Rexxar" (local true world)).0 ≡ ok 20 → owns flags ≡ true)
    × ((set_channel_password 1 30 "secret" (local true world)).0 ≡ ok tt → owns flags ≡ true)
command_rights_example = command_rights (at 100) 1 30 20 "Rexxar" "secret" true (local true world)

refused_unchanged_example :
    let st = local false world in
    ((leave_channel (at 100) 1 20 st).0 ≡ err database_error
      → IsRestored world (leave_channel (at 100) 1 20 st).1.ch)
    × ((set_moderator 1 20 true st).0 ≡ err database_error
        → (set_moderator 1 20 true st).1.ch ≡ world)
    × ((set_mute 1 20 true st).0 ≡ err database_error → (set_mute 1 20 true st).1.ch ≡ world)
    × ((set_owner 1 20 st).0 ≡ err database_error → (set_owner 1 20 st).1.ch ≡ world)
refused_unchanged_example = refused_unchanged (at 100) 1 20 true (local false world) database_error

leave_channel_hands_over_example :
    let r = leave_channel (at 100) 1 10 (local true world) in
    (g : ℕ) × (r.0 ≡ ok g)
    × (g ≢ 10)
    × (r.1.ch.owner_guid ≡ g)
    × IsOwner r.1.ch g
    × (has_flag member_flag_moderator 2 ≡ true
        → has_flag member_flag_moderator (get_member_flags world g) ≡ true)
unfolding find_member has_flag
leave_channel_hands_over_example =
    leave_channel_hands_over (at 100) 1 10 30 (local true world) owner helper (IsOrder-at 100)
      world-WellFormed refl refl refl refl (λ e. absurd (ground arith)) refl

abbrev key : ChannelKey
key = record { realm = 1; lower_name = "world"; team = 0 }

abbrev manager : Manager (env_with true)
manager = record {
  channels = record { key = key; channel = channel_of [] empty_map } ∷ [];
  db = tt;
}

cleanup_local_memory_lem_example :
    let after = (cleanup_local_memory 1 manager).1 in
    (true ≡ true → find_channel after.channels key ≡ none)
    × (true ≡ false → find_channel after.channels key ≡ some (channel_of [] empty_map))
    × ((cleanup_local_memory 1 after).0 ≡ ok 0)
unfolding find_channel
cleanup_local_memory_lem_example =
    cleanup_local_memory_lem 1 manager key (channel_of [] empty_map) (refl, tt) refl

abbrev opened : ActiveChannel
opened = record (channel_of [] empty_map) { owner_guid = 0 }

get_or_create_channel-get_channel_example :
    let fresh = record manager { channels = [] } in
    get_channel (get_or_create_channel (at 100) 1 "world" 0 0 "" 1 fresh).1 1 "world" 0
    ≡ some opened
unfolding get_or_create_channel
get_or_create_channel-get_channel_example =
    get_or_create_channel-get_channel (at 100) 1 0 0 1 "world" "" (record manager { channels = [] })
      opened refl
