-- ===== src/Guilds/Examples.antt =====
-- Runs of the guild service on small examples: a guild of three, with a guild master, an officer and
-- an initiate, and a database that accepts everything.
use Prim.Native.String.{String}
use athena_wow_cluster.Prelude.{
  ℕ, ◌≡◌, refl, ◌<◌, ◌≤◌, ◌+◌, true, if◌then◌else◌, ◌==◌, Option, none, some, [], ◌∷◌, empty_map,
  put, arith, u8, sub8, inl, inr, Bool-cases,
}
use athena_wow_cluster.Guilds.Model.{
  GuildMember, guild_member_status_online, GuildRank, Guild, members_of,
  guild_member_for_member_guid, rank_with_id, has_right, right_remove, right_promote, right_demote,
  lowest_rank_in_guild, rank_for_member,
}
use athena_wow_cluster.Guilds.World.{
  Env, World, ok, err, panic, leader_cant_leave, build_generic_event_payload,
}
use athena_wow_cluster.Guilds.Cache.{
  guild_by_realm_and_id, remove_guild_member, forget_member, change_guild, add_guild_member,
  enter_member, guild_id_by_realm_and_member_guid, remove_first,
}
use athena_wow_cluster.Guilds.Lookup.{own_guild, guild_by_member_guid, guild_id_of, guild_at}
use athena_wow_cluster.Guilds.Service.{
  InviteAcceptedParams, new_member, announce, invite_accepted, leave, kick,
}
use athena_wow_cluster.Guilds.Settings.{set_member_officer_note}
use athena_wow_cluster.Guilds.Ranks.{promote_member, demote_member}
use athena_wow_cluster.Guilds.Promotion.{
  InGuild, HasNewRank, update_rank_rights, promote_member_wraps, set_member_officer_note_crashes,
}
use athena_wow_cluster.Guilds.Membership.{UniqueGuids, leave_lem, kick_lem}
use athena_wow_cluster.Guilds.Accepting.{Joined, invite_accepted_lem}
use athena_wow_cluster.Guilds.Consistency.{IsConsistent}
use athena_wow_cluster.Guilds.Calls.{add_member, call, call-IsConsistent}

abbrev done : Option (Unit {0}) × Unit {0}
done = (some tt, tt)

-- Player 40 is invited to guild 5.
abbrev env : Env
env = record {
  Db = Unit;
  load_all = λ d realm. some [];
  invite_of = λ d realm player. some (if player == 40 then 5 else 0);
  add_invite = λ d realm player guild. done;
  remove_invite = λ d realm player. done;
  add_member = λ d realm m. done;
  remove_member = λ d realm player. done;
  set_motd = λ d realm guild text. done;
  set_public_note = λ d realm player text. done;
  set_officer_note = λ d realm player text. done;
  set_rank = λ d realm player rank. done;
  set_info = λ d realm guild text. done;
  update_rank = λ d realm guild r. done;
  add_rank = λ d realm guild r. done;
  delete_rank = λ d realm guild rank. done;
  produce = λ ev. true;
}

abbrev member_of : (guid rank : ℕ) → String → GuildMember
member_of guid rank name = record {
  guild_id = 5;
  player_guid = guid;
  rank = rank;
  public_note = "";
  officer_note = "";
  name = name;
  race = 1;
  class = 1;
  lvl = 80;
  gender = 0;
  area_id = 1;
  account = 1;
  logout_time = 0;
  status = guild_member_status_online;
}

abbrev rank_of : (rank rights : ℕ) → String → GuildRank
rank_of rank rights name = record {
  guild_id = 5;
  rank = rank;
  name = name;
  rights = rights;
  money_per_day = 0;
}

abbrev master : GuildMember
master = member_of 10 0 "Varian"

abbrev officer : GuildMember
officer = member_of 20 1 "Bolvar"

abbrev initiate : GuildMember
initiate = member_of 30 2 "Anduin"

abbrev officer_rank : GuildRank
officer_rank = rank_of 1 1962495 "Officer"

abbrev master_rank : GuildRank
master_rank = rank_of 0 1962495 "Guild Master"

abbrev initiate_rank : GuildRank
initiate_rank = rank_of 2 67 "Initiate"

abbrev guild : Guild
guild = record {
  realm_id = 1;
  id = 5;
  name = "Stormwind";
  leader_guid = 10;
  info = "";
  message_of_the_day = "";
  guild_ranks = master_rank ∷ officer_rank ∷ initiate_rank ∷ [];
  guild_members = 0 ∷ 1 ∷ 2 ∷ [];
}

abbrev cells : ℕ → GuildMember
cells p = if p == 0 then master else if p == 1 then officer else initiate

abbrev world : World env
world = record {
  is_warm = λ realm. true;
  cache = λ realm. put empty_map 5 guild;
  guild_members_cache = λ realm. put (put (put empty_map 10 0) 20 1) 30 2;
  cells = cells;
  next_cell = 3;
  db = tt;
  published = [];
}

master-InGuild : InGuild world 1 10 0 guild master master_rank
unfolding guild_member_for_member_guid members_of rank_with_id
master-InGuild = record {
  pointer = refl;
  of_guild = refl;
  not_zero = λ q. absurd (ground arith);
  cached = refl;
  listed = refl;
  ranked = refl;
}

officer-InGuild : InGuild world 1 20 1 guild officer officer_rank
unfolding guild_member_for_member_guid members_of rank_with_id
officer-InGuild = record {
  pointer = refl;
  of_guild = refl;
  not_zero = λ q. absurd (ground arith);
  cached = refl;
  listed = refl;
  ranked = refl;
}

initiate-InGuild : InGuild world 1 30 2 guild initiate initiate_rank
unfolding guild_member_for_member_guid members_of rank_with_id
initiate-InGuild = record {
  pointer = refl;
  of_guild = refl;
  not_zero = λ q. absurd (ground arith);
  cached = refl;
  listed = refl;
  ranked = refl;
}

guild-UniqueGuids : UniqueGuids cells (0 ∷ 1 ∷ 2 ∷ [])
unfolding guild_member_for_member_guid members_of
guild-UniqueGuids = (refl, (refl, (refl, tt)))

update_rank_rights_example :
    ((promote_member 1 10 30 world).0 ≡ ok tt
      → (has_right master_rank right_promote ≡ true)
        × (0 < sub8 2 1)
        × HasNewRank world (promote_member 1 10 30 world).1 guild 2 1)
    × ((demote_member 1 10 30 world).0 ≡ ok tt
        → (has_right master_rank right_demote ≡ true)
          × (0 < 2)
          × (u8 (2 + 1) ≤ lowest_rank_in_guild guild.guild_ranks)
          × HasNewRank world (demote_member 1 10 30 world).1 guild 2 3)
update_rank_rights_example =
    update_rank_rights world 1 10 30 0 2 guild master initiate master_rank initiate_rank
      master-InGuild initiate-InGuild

promote_member_wraps_example :
    let r = promote_member 1 20 10 world in
    (r.0 ≡ panic) × (r.1.db ≡ tt) × ((r.1.cells 0).rank ≡ 255)
unfolding has_right rank_with_id
promote_member_wraps_example =
    promote_member_wraps world 1 20 10 1 0 guild officer master officer_rank master_rank
      officer-InGuild master-InGuild tt refl (omega arith) refl refl refl

set_member_officer_note_crashes_example :
    set_member_officer_note 1 10 30 "late" world ≡ (panic, world)
unfolding guild_member_for_member_guid members_of
set_member_officer_note_crashes_example =
    set_member_officer_note_crashes world 1 10 30 0 2 guild master initiate master_rank
      initiate_rank master-InGuild initiate-InGuild "late" refl

leave_lem_example :
    (initiate_rank.rank ≡ 0 → leave 1 30 world ≡ (err leader_cant_leave, world))
    × ((leave 1 30 world).0 ≡ ok tt
        → let w' = (leave 1 30 world).1 in
          (guild_id_by_realm_and_member_guid w' 1 30 ≡ 0)
          × (w'.cache 1 5
              ≡ some (record guild { guild_members = remove_first cells 30 guild.guild_members }))
          × (guild_member_for_member_guid
                (members_of w'.cells (remove_first cells 30 guild.guild_members))
                30
              ≡ none))
leave_lem_example =
    leave_lem world 1 30 2 guild initiate initiate_rank initiate-InGuild guild-UniqueGuids

kicked : (kick 1 20 30 world).0 ≡ ok tt
unfolding kick own_guild guild_by_member_guid guild_id_of guild_at guild_by_realm_and_id
    guild_id_by_realm_and_member_guid rank_for_member rank_with_id has_right
    guild_member_for_member_guid members_of build_generic_event_payload remove_guild_member
    forget_member change_guild
kicked = refl

kick_lem_example :
    let w' = (kick 1 20 30 world).1 in
    let left = remove_first cells 30 guild.guild_members in
    (has_right officer_rank right_remove ≡ true)
    × (1 < 2)
    × (guild_id_by_realm_and_member_guid w' 1 30 ≡ 0)
    × (w'.cache 1 5 ≡ some (record guild { guild_members = left }))
    × ((h : ℕ)
        → guild_member_for_member_guid (members_of w'.cells left) h ≡ (
            if 30 == h
            then none
            else guild_member_for_member_guid (members_of cells (0 ∷ 1 ∷ 2 ∷ [])) h))
kick_lem_example =
    kick_lem world 1 20 30 1 2 guild officer initiate officer_rank initiate_rank officer-InGuild
      initiate-InGuild guild-UniqueGuids kicked

abbrev params : InviteAcceptedParams
params = record {
  char_guid = 40;
  char_name = "Jaina";
  char_race = 1;
  char_class = 8;
  char_lvl = 80;
  char_gender = 1;
  char_area_id = 1;
  char_account = 4;
}

accepted : (invite_accepted 1 params world).0 ≡ ok 5
unfolding invite_accepted announce add_guild_member enter_member change_guild guild_at
    guild_by_realm_and_id build_generic_event_payload
accepted = refl

invite_accepted_lem_example :
    Joined
      (invite_accepted 1 params world).1
      3
      1
      guild
      (new_member 5 (lowest_rank_in_guild guild.guild_ranks) params)
unfolding guild_member_for_member_guid members_of
invite_accepted_lem_example =
    invite_accepted_lem world 1 5 guild params refl refl refl
      (omega arith, (omega arith, (omega arith, tt))) refl accepted

world-IsConsistent : IsConsistent world 1
world-IsConsistent = record {
  is_fresh = λ guid p h. ground arith;
  own_guid = λ guid p h. ground arith;
  in_guild = λ guid p h. elim (Bool-cases (p == 0)) [
    | inl a ↦ (guild, ground arith, inl (ground arith))
    | inr a ↦ elim (Bool-cases (p == 1)) [
      | inl b ↦ (guild, ground arith, inr (inl (ground arith)))
      | inr b ↦ (guild, ground arith, inr (inr (inl (ground arith))))
    ]
  ];
}

call-IsConsistent_example : IsConsistent (call 1 (add_member (member_of 40 2 "Jaina")) world).1 1
call-IsConsistent_example =
    call-IsConsistent world 1 (add_member (member_of 40 2 "Jaina")) (refl, guild, refl)
      world-IsConsistent
