-- ===== src/Guilds/Settings.antt =====
-- apps/guildserver/service/guilds.go: the texts of a guild and of its members, and its chat.
use Prim.Native.String.{String}
use athena_wow_cluster.Prelude.{ℕ, Bool}
use athena_wow_cluster.Guilds.Model.{
  right_set_message_of_the_day, right_edit_public_note, right_edit_officers_note,
  right_modify_guild_info, has_right, guild_member_for_member_guid, receivers_of,
}
use athena_wow_cluster.Guilds.World.{
  Env, M, ◌>>=◌, ◌>>◌, check, or_fail, deref, publish, read_members, build_generic_event_payload,
  guild_not_found, not_enough_right, motd_updated, guild_info_updated, member_note_updated,
  member_officer_note_updated, new_message,
}
use athena_wow_cluster.Guilds.Cache.{
  store_message_of_the_day, store_guild_info, store_public_note, store_officer_note,
}
use athena_wow_cluster.Guilds.Lookup.{guild_id_of, own_guild, rank_in, shared_guild}

module _ {e : Env} where
  unfoldable pub set_message_of_the_day : (realm updater : ℕ) → String → M e (Unit {0})
  unfolding own_guild rank_in has_right store_message_of_the_day build_generic_event_payload
  set_message_of_the_day realm updater message = do
    g ← own_guild realm updater
    rank ← rank_in g updater
    check (has_right rank right_set_message_of_the_day) not_enough_right
    store_message_of_the_day realm g.id message
    generic ← build_generic_event_payload g
    publish (motd_updated generic message)

  unfoldable pub set_guild_info : (realm updater : ℕ) → String → M e (Unit {0})
  unfolding own_guild rank_in has_right store_guild_info build_generic_event_payload
  set_guild_info realm updater info = do
    g ← own_guild realm updater
    rank ← rank_in g updater
    check (has_right rank right_modify_guild_info) not_enough_right
    store_guild_info realm g.id info
    generic ← build_generic_event_payload g
    publish (guild_info_updated generic info)

  unfoldable pub set_member_public_note : (realm updater target : ℕ) → String → M e (Unit {0})
  unfolding shared_guild rank_in has_right store_public_note guild_member_for_member_guid
      build_generic_event_payload
  set_member_public_note realm updater target note = do
    g ← shared_guild realm updater target
    rank ← rank_in g updater
    check (has_right rank right_edit_public_note) not_enough_right
    store_public_note realm target note
    ms ← read_members g
    generic ← build_generic_event_payload g
    m ← deref (guild_member_for_member_guid ms target)
    u ← deref (guild_member_for_member_guid ms updater)
    publish (member_note_updated generic target m.name updater u.name note)

  -- The rank is looked up under the ID of the guild.
  unfoldable pub set_member_officer_note : (realm updater target : ℕ) → String → M e (Unit {0})
  unfolding guild_id_of shared_guild rank_in has_right store_officer_note
      guild_member_for_member_guid build_generic_event_payload
  set_member_officer_note realm updater target note = do
    id ← guild_id_of realm updater
    g ← shared_guild realm updater target
    rank ← rank_in g id
    check (has_right rank right_edit_officers_note) not_enough_right
    store_officer_note realm target note
    ms ← read_members g
    generic ← build_generic_event_payload g
    m ← deref (guild_member_for_member_guid ms target)
    u ← deref (guild_member_for_member_guid ms updater)
    publish (member_officer_note_updated generic target m.name updater u.name note)

  unfoldable pub send_guild_message :
      (realm sender : ℕ) → String → (lang : ℕ) → (is_officers : Bool) → M e (Unit {0})
  unfolding own_guild guild_member_for_member_guid receivers_of
  send_guild_message realm sender message lang is_officers = do
    g ← own_guild realm sender
    ms ← read_members g
    m ← or_fail (guild_member_for_member_guid ms sender) guild_not_found
    publish (new_message realm g.id sender m.name lang message is_officers (receivers_of sender ms))
