-- ===== src/Guilds/Lookup.antt =====
-- apps/guildserver/service/guilds.go: the guild and the rank of a player, as the handlers find them.
use athena_wow_cluster.Prelude.{ℕ, not, Option, none, ◌==◌, if◌then◌else◌}
use athena_wow_cluster.Guilds.Model.{GuildRank, Guild, rank_for_member}
use athena_wow_cluster.Guilds.World.{
  Env, M, ok, ◌>>=◌, ◌>>◌, pure, check, or_fail, deref, read_members, guild_not_found,
  not_enough_right,
}
use athena_wow_cluster.Guilds.Cache.{guild_by_realm_and_id, guild_id_by_realm_and_member_guid}

module _ {e : Env} where
  unfoldable pub guild_id_of : (realm guid : ℕ) → M e ℕ
  unfolding guild_id_by_realm_and_member_guid
  guild_id_of realm guid w = (ok (guild_id_by_realm_and_member_guid w realm guid), w)

  unfoldable pub guild_at : (realm id : ℕ) → M e (Option Guild)
  unfolding guild_by_realm_and_id
  guild_at realm id w = (ok (guild_by_realm_and_id w realm id), w)

  unfoldable pub guild_by_member_guid : (realm guid : ℕ) → M e (Option Guild)
  unfolding guild_id_of guild_at
  guild_by_member_guid realm guid = do
    id ← guild_id_of realm guid
    if id == 0 then pure none else guild_at realm id

  -- The guild of a player, which the handler must find.
  unfoldable pub own_guild : (realm guid : ℕ) → M e Guild
  unfolding guild_by_member_guid
  own_guild realm guid = do found ← guild_by_member_guid realm guid; or_fail found guild_not_found

  -- The rank of the player in the guild; the source calls a method on it, so nil crashes.
  unfoldable pub rank_in : Guild → ℕ → M e GuildRank
  unfolding rank_for_member
  rank_in g guid = do ms ← read_members g; deref (rank_for_member g.guild_ranks ms guid)

  -- The guild that the updater and the target of a note share; a nil guild crashes at its members.
  unfoldable pub shared_guild : (realm updater target : ℕ) → M e Guild
  unfolding guild_id_of guild_at
  shared_guild realm updater target = do
    id ← guild_id_of realm updater
    check (not (id == 0)) guild_not_found
    other ← guild_id_of realm target
    check (not (other == 0)) guild_not_found
    check (other == id) not_enough_right
    found ← guild_at realm id
    deref found
