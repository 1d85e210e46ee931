-- ===== src/Guilds/Promotion.antt =====
-- apps/guildserver/service/guilds.go: what a promotion, a demotion and an officer's note ask for.
use Prim.Native.String.{String}
use athena_wow_cluster.Prelude.{ℕ, ◌≡◌, ◌≢◌, ◌<◌, ◌≤◌, ◌+◌, true, none, some, u8, sub8, arith}
use athena_wow_cluster.Guilds.Model.{
  GuildMember, GuildRank, Guild, members_of, guild_member_for_member_guid, rank_with_id,
  rank_for_member, has_right, right_promote, right_demote, lowest_rank_in_guild,
}
use athena_wow_cluster.Guilds.World.{Env, World, ok, panic}
use athena_wow_cluster.Guilds.Cache.{
  guild_by_realm_and_id, guild_id_by_realm_and_member_guid, set_member_rank, change_member_if,
}
use athena_wow_cluster.Guilds.Lookup.{
  guild_id_of, guild_at, guild_by_member_guid, own_guild, rank_in, shared_guild,
}
use athena_wow_cluster.Guilds.Settings.{set_member_officer_note}
use athena_wow_cluster.Guilds.Ranks.{next_rank, update_rank, promote_member, demote_member}

-- A player who is in a cached guild: the pointer to the member, the member in the guild's list, and
-- the member's rank there.
pub record InGuild {e : Env} (w : World e) (realm guid p : ℕ) (g : Guild) (m : GuildMember)
    (r : GuildRank) : Type 0 where
  pub pointer : w.guild_members_cache realm guid ≡ some p
  pub of_guild : (w.cells p).guild_id ≡ g.id
  pub not_zero : g.id ≢ 0
  pub cached : w.cache realm g.id ≡ some g
  pub listed : guild_member_for_member_guid (members_of w.cells g.guild_members) guid ≡ some m
  pub ranked : rank_with_id g.guild_ranks m.rank ≡ some r

module _ {e : Env} {w : World e} {realm guid p : ℕ} {g : Guild} {m : GuildMember} {r : GuildRank}
    (i : InGuild w realm guid p g m r) where
  pub own_guild_lem : own_guild realm guid w ≡ (ok g, w)
  unfolding own_guild guild_by_member_guid guild_id_of guild_at guild_by_realm_and_id
      guild_id_by_realm_and_member_guid
  own_guild_lem = ground (arith, i.pointer, i.of_guild, i.not_zero, i.cached)

  pub guild_id_of_lem : guild_id_of realm guid w ≡ (ok g.id, w)
  unfolding guild_id_of guild_id_by_realm_and_member_guid
  guild_id_of_lem = ground (arith, i.pointer, i.of_guild)

  pub rank_in_lem : rank_in g guid w ≡ (ok r, w)
  unfolding rank_in rank_for_member
  rank_in_lem = ground (arith, i.listed, i.ranked)

-- A rank of the guild is the rank of the member at the pointer, and nothing else about members and guilds
-- in memory has changed.
pub record HasNewRank {e : Env} (w w' : World e) (g : Guild) (q rank : ℕ) : Type 0 where
  pub of_guild : rank_with_id g.guild_ranks rank ≢ none
  pub new_rank : w'.cells q ≡ record (w.cells q) { rank = rank }
  pub others : (x : ℕ) → x ≢ q → w'.cells x ≡ w.cells x
  pub same_guilds : w'.cache ≡ w.cache
  pub same_pointers : w'.guild_members_cache ≡ w.guild_members_cache

module _ {e : Env} (w : World e) (realm updater target p q : ℕ) (g : Guild) (mu mt : GuildMember)
    (ru rt : GuildRank) (u : InGuild w realm updater p g mu ru)
    (t : InGuild w realm target q g mt rt) where
  promote_member-HasNewRank :
      (promote_member realm updater target w).0 ≡ ok tt
      → HasNewRank w (promote_member realm updater target w).1 g q (sub8 rt.rank 1)
  unfolding promote_member update_rank next_rank set_member_rank change_member_if
  promote_member-HasNewRank h = record {
    of_guild = λ n. ground (
      arith,
      own_guild_lem u,
      guild_id_of_lem t,
      rank_in_lem u,
      rank_in_lem t,
      u.not_zero,
      t.pointer,
    );
    new_rank = ground (
      arith,
      own_guild_lem u,
      guild_id_of_lem t,
      rank_in_lem u,
      rank_in_lem t,
      u.not_zero,
      t.pointer,
    );
    others = λ x ne. ground (
      arith,
      own_guild_lem u,
      guild_id_of_lem t,
      rank_in_lem u,
      rank_in_lem t,
      u.not_zero,
      t.pointer,
    );
    same_guilds = ground (
      arith,
      own_guild_lem u,
      guild_id_of_lem t,
      rank_in_lem u,
      rank_in_lem t,
      u.not_zero,
      t.pointer,
    );
    same_pointers = ground (
      arith,
      own_guild_lem u,
      guild_id_of_lem t,
      rank_in_lem u,
      rank_in_lem t,
      u.not_zero,
      t.pointer,
    );
  }

  demote_member-HasNewRank :
      (demote_member realm updater target w).0 ≡ ok tt
      → HasNewRank w (demote_member realm updater target w).1 g q (u8 (rt.rank + 1))
  unfolding demote_member update_rank next_rank set_member_rank change_member_if
  demote_member-HasNewRank h = record {
    of_guild = λ n. ground (
      arith,
      own_guild_lem u,
      guild_id_of_lem t,
      rank_in_lem u,
      rank_in_lem t,
      u.not_zero,
      t.pointer,
    );
    new_rank = ground (
      arith,
      own_guild_lem u,
      guild_id_of_lem t,
      rank_in_lem u,
      rank_in_lem t,
      u.not_zero,
      t.pointer,
    );
    others = λ x ne. ground (
      arith,
      own_guild_lem u,
      guild_id_of_lem t,
      rank_in_lem u,
      rank_in_lem t,
      u.not_zero,
      t.pointer,
    );
    same_guilds = ground (
      arith,
      own_guild_lem u,
      guild_id_of_lem t,
      rank_in_lem u,
      rank_in_lem t,
      u.not_zero,
      t.pointer,
    );
    same_pointers = ground (
      arith,
      own_guild_lem u,
      guild_id_of_lem t,
      rank_in_lem u,
      rank_in_lem t,
      u.not_zero,
      t.pointer,
    );
  }

  -- A promotion that succeeds was made by a player with the right to promote whose rank is above the new
  -- one, which is the one above the member's, or 255 in place of -1. A demotion that succeeds was made by a
  -- player with the right to demote who ranks above the member, and goes one rank down, not below the
  -- lowest. Either way the guild has the new rank, the member gets it in memory, and no other member, list
  -- of members or guild changes there.
  pub update_rank_rights :
      ((promote_member realm updater target w).0 ≡ ok tt
        → (has_right ru right_promote ≡ true)
          × (ru.rank < sub8 rt.rank 1)
          × HasNewRank w (promote_member realm updater target w).1 g q (sub8 rt.rank 1))
      × ((demote_member realm updater target w).0 ≡ ok tt
          → (has_right ru right_demote ≡ true)
            × (ru.rank < rt.rank)
            × (u8 (rt.rank + 1) ≤ lowest_rank_in_guild g.guild_ranks)
            × HasNewRank w (demote_member realm updater target w).1 g q (u8 (rt.rank + 1)))
  unfolding promote_member demote_member update_rank next_rank
  update_rank_rights = (
    λ h. (
      ground (arith, own_guild_lem u, guild_id_of_lem t, rank_in_lem u, rank_in_lem t, u.not_zero),
      ground (arith, own_guild_lem u, guild_id_of_lem t, rank_in_lem u, rank_in_lem t, u.not_zero),
      promote_member-HasNewRank h,
    ),
    λ h. (
      ground (arith, own_guild_lem u, guild_id_of_lem t, rank_in_lem u, rank_in_lem t, u.not_zero),
      ground (arith, own_guild_lem u, guild_id_of_lem t, rank_in_lem u, rank_in_lem t, u.not_zero),
      ground (arith, own_guild_lem u, guild_id_of_lem t, rank_in_lem u, rank_in_lem t, u.not_zero),
      demote_member-HasNewRank h,
    ),
  )

  -- Whoever may promote can "promote" the guild master: the rank wraps around to 255, the database
  -- and the cache get it, and then the handler crashes for want of such a rank.
  pub promote_member_wraps :
      (d : e.Db)
      → has_right ru right_promote ≡ true
      → ru.rank < 255
      → rt.rank ≡ 0
      → rank_with_id g.guild_ranks 255 ≡ none
      → e.set_rank w.db realm target 255 ≡ (some tt, d)
      → let r = promote_member realm updater target w in
        (r.0 ≡ panic) × (r.1.db ≡ d) × ((r.1.cells q).rank ≡ 255)
  unfolding promote_member update_rank next_rank set_member_rank change_member_if
  promote_member_wraps d right below master no_rank stored = ground (
    arith,
    own_guild_lem u,
    guild_id_of_lem t,
    rank_in_lem u,
    rank_in_lem t,
    u.not_zero,
    t.pointer,
  )

  -- `SetMemberOfficerNote` looks for the rank of the member whose GUID is the ID of the guild. There
  -- is none as a rule, and the handler crashes before it writes anything.
  pub set_member_officer_note_crashes :
      (note : String)
      → guild_member_for_member_guid (members_of w.cells g.guild_members) g.id ≡ none
      → set_member_officer_note realm updater target note w ≡ (panic, w)
  unfolding set_member_officer_note shared_guild rank_in rank_for_member guild_at
      guild_by_realm_and_id
  set_member_officer_note_crashes note none_there =
      ground (arith, guild_id_of_lem u, guild_id_of_lem t, u.not_zero, u.cached)
