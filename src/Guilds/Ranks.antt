-- ===== src/Guilds/Ranks.antt =====
-- apps/guildserver/service/guilds.go: the ranks of a guild and of its members.
use Prim.Native.String.{String}
use athena_wow_cluster.Prelude.{
  ℕ, Bool, true, false, not, Option, none, some, ◌+◌, ltb, leb, ◌==◌, if◌then◌else◌, length, u8,
  sub8,
}
use athena_wow_cluster.Guilds.Model.{
  GuildRank, Guild, guild_rank_guild_master, guild_rank_max, right_empty, right_promote,
  right_demote, has_right, guild_member_for_member_guid, rank_with_id, lowest_rank_in_guild,
}
use athena_wow_cluster.Guilds.World.{
  Env, M, ◌>>=◌, ◌>>◌, pure, check, deref, publish, read_members, build_generic_event_payload,
  guild_not_found, not_enough_right, rank_limit, already_lowest, rank_updated, rank_created,
  rank_deleted, member_promote, member_demote,
}
use athena_wow_cluster.Guilds.Cache.{
  set_member_rank, store_guild_rank, append_guild_rank, delete_lowest_guild_rank,
}
use athena_wow_cluster.Guilds.Lookup.{guild_id_of, guild_at, own_guild, rank_in}

name_of : Option GuildRank → String
name_of none = ""
name_of (some r) = r.name

module _ {e : Env} where
  -- The guild of a player who must be its guild master, with the master's rank.
  unfoldable pub mastered_guild : (realm updater : ℕ) → M e (Guild × GuildRank)
  unfolding own_guild rank_in
  mastered_guild realm updater = do
    g ← own_guild realm updater
    rank ← rank_in g updater
    check (rank.rank == guild_rank_guild_master) not_enough_right
    pure (g, rank)

  -- The guild after a change, read through its pointer.
  unfoldable pub reread : (realm : ℕ) → Guild → M e Guild
  unfolding guild_at
  reread realm g = do found ← guild_at realm g.id; deref found

  unfoldable pub update_guild_rank :
      (realm updater rank : ℕ) → String → (rights money : ℕ) → M e (Unit {0})
  unfolding mastered_guild reread store_guild_rank build_generic_event_payload
  update_guild_rank realm updater rank name rights money = do
    found ← mastered_guild realm updater
    store_guild_rank realm found.0.id (record {
      guild_id = found.0.id;
      rank = rank;
      name = name;
      rights = rights;
      money_per_day = money;
    })
    now ← reread realm found.0
    generic ← build_generic_event_payload now
    publish (rank_updated generic rank name rights money (u8 (length now.guild_ranks)))

  unfoldable pub add_guild_rank : (realm updater : ℕ) → String → M e (Unit {0})
  unfolding mastered_guild reread lowest_rank_in_guild append_guild_rank build_generic_event_payload
  add_guild_rank realm updater name = do
    found ← mastered_guild realm updater
    let g = found.0
    check (ltb (length g.guild_ranks) guild_rank_max) rank_limit
    let rank = u8 (lowest_rank_in_guild g.guild_ranks + 1)
    append_guild_rank realm g.id (record {
      guild_id = g.id;
      rank = rank;
      name = name;
      rights = right_empty;
      money_per_day = 0;
    })
    now ← reread realm g
    generic ← build_generic_event_payload now
    publish (rank_created generic rank name (u8 (length now.guild_ranks)))

  unfoldable pub delete_last_guild_rank : (realm updater : ℕ) → M e (Unit {0})
  unfolding mastered_guild reread lowest_rank_in_guild rank_with_id name_of delete_lowest_guild_rank
      build_generic_event_payload
  delete_last_guild_rank realm updater = do
    found ← mastered_guild realm updater
    let g = found.0
    let lowest = lowest_rank_in_guild g.guild_ranks
    delete_lowest_guild_rank realm g.id lowest
    now ← reread realm g
    generic ← build_generic_event_payload now
    publish (
        rank_deleted generic found.1.rank (name_of (rank_with_id g.guild_ranks lowest))
          (u8 (length now.guild_ranks)))

  -- The new rank of a member, as a uint8.
  unfoldable pub next_rank : Bool → GuildRank → GuildRank → (lowest : ℕ) → M e ℕ
  next_rank true mine theirs lowest = do
    check (not (leb (sub8 theirs.rank 1) mine.rank)) not_enough_right
    pure (sub8 theirs.rank 1)
  next_rank false mine theirs lowest = do
    check (not (leb theirs.rank mine.rank)) not_enough_right
    check (leb (u8 (theirs.rank + 1)) lowest) already_lowest
    pure (u8 (theirs.rank + 1))

  unfoldable pub update_rank : (realm updater target : ℕ) → (promote : Bool) → M e (Unit {0})
  unfolding own_guild guild_id_of rank_in has_right next_rank lowest_rank_in_guild rank_with_id
      guild_member_for_member_guid set_member_rank build_generic_event_payload
  update_rank realm updater target promote = do
    g ← own_guild realm updater
    other ← guild_id_of realm target
    check (not (other == 0)) guild_not_found
    check (other == g.id) not_enough_right
    mine ← rank_in g updater
    check (has_right mine (if promote then right_promote else right_demote)) not_enough_right
    theirs ← rank_in g target
    rank ← next_rank promote mine theirs (lowest_rank_in_guild g.guild_ranks)
    ms ← read_members g
    set_member_rank realm target rank
    generic ← build_generic_event_payload g
    r ← deref (rank_with_id g.guild_ranks rank)
    u ← deref (guild_member_for_member_guid ms updater)
    m ← deref (guild_member_for_member_guid ms target)
    publish (
        if promote
        then member_promote generic r.rank r.name u.player_guid u.name m.player_guid m.name
        else member_demote generic r.rank r.name u.player_guid u.name m.player_guid m.name)

  unfoldable pub promote_member : (realm updater target : ℕ) → M e (Unit {0})
  unfolding update_rank
  promote_member realm updater target = update_rank realm updater target true

  unfoldable pub demote_member : (realm updater target : ℕ) → M e (Unit {0})
  unfolding update_rank
  demote_member realm updater target = update_rank realm updater target false
