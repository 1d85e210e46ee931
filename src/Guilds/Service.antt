-- ===== src/Guilds/Service.antt =====
-- apps/guildserver/service/guilds.go: who is in a guild: invites, departures and kicks.
use Prim.Native.String.{String}
use athena_wow_cluster.Prelude.{ℕ, not, leb, ◌==◌}
use athena_wow_cluster.Guilds.Model.{
  GuildMember, guild_member_status_online, guild_rank_guild_master, right_invite, right_remove,
  has_right, guild_member_for_member_guid, rank_for_member, lowest_rank_in_guild,
}
use athena_wow_cluster.Guilds.World.{
  Env, M, ◌>>=◌, ◌>>◌, pure, check, or_fail, deref, query, publish, read_members,
  build_generic_event_payload, guild_not_found, not_enough_right, leader_cant_leave,
  invitee_in_guild, rank_not_found, no_invites, database_error, invite_created, member_added,
  member_left, member_kicked,
}
use athena_wow_cluster.Guilds.Cache.{add_guild_member, remove_guild_member}
use athena_wow_cluster.Guilds.Lookup.{guild_id_of, guild_at, own_guild}

pub record InviteAcceptedParams : Type 0 where
  pub char_guid : ℕ
  pub char_name : String
  pub char_race : ℕ
  pub char_class : ℕ
  pub char_lvl : ℕ
  pub char_gender : ℕ
  pub char_area_id : ℕ
  pub char_account : ℕ

unfoldable pub new_member : (guild rank : ℕ) → InviteAcceptedParams → GuildMember
new_member guild rank p = record {
  guild_id = guild;
  player_guid = p.char_guid;
  rank = rank;
  public_note = "";
  officer_note = "";
  name = p.char_name;
  race = p.char_race;
  class = p.char_class;
  lvl = p.char_lvl;
  gender = p.char_gender;
  area_id = p.char_area_id;
  account = p.char_account;
  logout_time = 0;
  status = guild_member_status_online;
}

module _ {e : Env} where
  unfoldable pub invite_member : (realm inviter invitee : ℕ) → String → M e (Unit {0})
  unfolding guild_id_of guild_at rank_for_member has_right guild_member_for_member_guid
  invite_member realm inviter invitee name = do
    id ← guild_id_of realm inviter
    check (not (id == 0)) guild_not_found
    other ← guild_id_of realm invitee
    check (other == 0) invitee_in_guild
    found ← guild_at realm id
    g ← or_fail found guild_not_found
    ms ← read_members g
    rank ← or_fail (rank_for_member g.guild_ranks ms inviter) rank_not_found
    check (has_right rank right_invite) not_enough_right
    query (λ d. e.add_invite d realm invitee id)
    m ← deref (guild_member_for_member_guid ms inviter)
    publish (invite_created realm id g.name inviter m.name invitee name)

  -- The end of `InviteAccepted`: the guild is read again for the event.
  unfoldable pub announce : (realm id : ℕ) → InviteAcceptedParams → M e ℕ
  unfolding guild_at build_generic_event_payload
  announce realm id p = do
    again ← guild_at realm id
    g ← deref again
    generic ← build_generic_event_payload g
    publish (member_added generic p.char_guid p.char_name)
    pure id

  unfoldable pub invite_accepted : (realm : ℕ) → InviteAcceptedParams → M e ℕ
  unfolding guild_at lowest_rank_in_guild add_guild_member new_member announce
  invite_accepted realm p w =
      (do
        id ← or_fail (e.invite_of w.db realm p.char_guid) database_error
        check (not (id == 0)) no_invites
        found ← guild_at realm id
        g ← or_fail found guild_not_found
        query (λ d. e.remove_invite d realm p.char_guid)
        add_guild_member realm (new_member id (lowest_rank_in_guild g.guild_ranks) p)
        announce realm id p)
        w

  unfoldable pub leave : (realm char_guid : ℕ) → M e (Unit {0})
  unfolding own_guild rank_for_member guild_member_for_member_guid build_generic_event_payload
      remove_guild_member
  leave realm char_guid = do
    g ← own_guild realm char_guid
    ms ← read_members g
    rank ← deref (rank_for_member g.guild_ranks ms char_guid)
    check (not (rank.rank == guild_rank_guild_master)) leader_cant_leave
    generic ← build_generic_event_payload g
    remove_guild_member realm char_guid
    m ← deref (guild_member_for_member_guid ms char_guid)
    publish (member_left generic m.player_guid m.name)

  unfoldable pub kick : (realm kicker target : ℕ) → M e (Unit {0})
  unfolding own_guild guild_id_of rank_for_member has_right guild_member_for_member_guid
      build_generic_event_payload remove_guild_member
  kick realm kicker target = do
    g ← own_guild realm kicker
    other ← guild_id_of realm target
    check (g.id == other) not_enough_right
    ms ← read_members g
    mine ← deref (rank_for_member g.guild_ranks ms kicker)
    check (has_right mine right_remove) not_enough_right
    theirs ← deref (rank_for_member g.guild_ranks ms target)
    check (not (leb theirs.rank mine.rank)) not_enough_right
    generic ← build_generic_event_payload g
    remove_guild_member realm target
    m ← deref (guild_member_for_member_guid ms target)
    k ← deref (guild_member_for_member_guid ms kicker)
    publish (member_kicked generic m.player_guid m.name k.player_guid k.name)
