-- ===== src/Guilds/Membership.antt =====
-- apps/guildserver/service/guilds.go: what leaving, a kick and an accepted invite do to a guild.
use athena_wow_cluster.Prelude.{
  ℕ, ◌≡◌, ◌<◌, true, none, some, List, [], All, ◌∷◌, ◌==◌, if◌then◌else◌, arith,
}
use athena_wow_cluster.Guilds.Model.{
  GuildMember, GuildRank, Guild, members_of, guild_member_for_member_guid, rank_for_member,
  has_right, right_remove,
}
use athena_wow_cluster.Guilds.World.{
  Env, World, ok, err, leader_cant_leave, build_generic_event_payload,
}
use athena_wow_cluster.Guilds.Cache.{
  guild_id_by_realm_and_member_guid, remove_first, remove_guild_member, forget_member, change_guild,
}
use athena_wow_cluster.Guilds.Service.{leave, kick}
use athena_wow_cluster.Guilds.Promotion.{InGuild, own_guild_lem, guild_id_of_lem}

-- No two pointers of a list lead to members with the same GUID.
abbrev pub UniqueGuids : (ℕ → GuildMember) → List ℕ → Type 0
UniqueGuids cells [] = Unit
UniqueGuids cells (p ∷ ps) =
    (guild_member_for_member_guid (members_of cells ps) (cells p).player_guid ≡ none)
    × UniqueGuids cells ps

-- The removal of a member takes it off the list, and nobody else.
pub remove_first_lem :
    (cells : ℕ → GuildMember) (guid h : ℕ) (ps : List ℕ)
    → UniqueGuids cells ps
    → guild_member_for_member_guid (members_of cells (remove_first cells guid ps)) h
      ≡ (if guid == h then none else guild_member_for_member_guid (members_of cells ps) h)
unfolding guild_member_for_member_guid members_of remove_first
remove_first_lem cells guid h [] u = ground arith
remove_first_lem cells guid h (p ∷ ps) u = ground (arith, remove_first_lem cells guid h ps)

module _ {e : Env} (w : World e) (realm guid p : ℕ) (g : Guild) (m : GuildMember) (r : GuildRank)
    (i : InGuild w realm guid p g m r) (unique : UniqueGuids w.cells g.guild_members) where
  -- What the cache has after the member is removed.
  forget_member_lem :
      let w' = (forget_member realm guid w).1 in
      ((forget_member realm guid w).0 ≡ ok tt)
      × (w'.guild_members_cache realm guid ≡ none)
      × (w'.cache realm g.id
          ≡ some (record g { guild_members = remove_first w.cells guid g.guild_members }))
      × (w'.cells ≡ w.cells)
  unfolding forget_member change_guild
  forget_member_lem = ground (arith, i.pointer, i.of_guild, i.cached)

  -- The guild master cannot leave, and nothing changes. Anyone else whose departure succeeds has no
  -- guild any more, and the guild has its other members.
  pub leave_lem :
      (r.rank ≡ 0 → leave realm guid w ≡ (err leader_cant_leave, w))
      × ((leave realm guid w).0 ≡ ok tt
          → let w' = (leave realm guid w).1 in
            (guild_id_by_realm_and_member_guid w' realm guid ≡ 0)
            × (w'.cache realm g.id
                ≡ some (record g { guild_members = remove_first w.cells guid g.guild_members }))
            × (guild_member_for_member_guid
                  (members_of w'.cells (remove_first w.cells guid g.guild_members))
                  guid
                ≡ none))
  unfolding leave remove_guild_member forget_member change_guild guild_id_by_realm_and_member_guid
      rank_for_member build_generic_event_payload
  leave_lem = (
    λ z. ground (arith, own_guild_lem i, i.listed, i.ranked),
    λ h. (
      ground (arith, own_guild_lem i, i.listed, i.ranked, i.pointer, i.of_guild, i.cached),
      ground (arith, own_guild_lem i, i.listed, i.ranked, i.pointer, i.of_guild, i.cached),
      ground (
        arith,
        own_guild_lem i,
        i.listed,
        i.ranked,
        i.pointer,
        i.of_guild,
        i.cached,
        remove_first_lem w.cells guid guid g.guild_members unique,
      ),
    ),
  )

module _ {e : Env} (w : World e) (realm kicker target p q : ℕ) (g : Guild) (mk mt : GuildMember)
    (rk rt : GuildRank) (k : InGuild w realm kicker p g mk rk)
    (t : InGuild w realm target q g mt rt) (unique : UniqueGuids w.cells g.guild_members) where
  -- A kick that succeeds was made by a player with the right to remove who ranks above the target; the
  -- target has no guild any more, and every other member is still listed.
  pub kick_lem :
      (kick realm kicker target w).0 ≡ ok tt
      → let w' = (kick realm kicker target w).1 in
        let left = remove_first w.cells target g.guild_members in
        (has_right rk right_remove ≡ true)
        × (rk.rank < rt.rank)
        × (guild_id_by_realm_and_member_guid w' realm target ≡ 0)
        × (w'.cache realm g.id ≡ some (record g { guild_members = left }))
        × ((h : ℕ)
            → guild_member_for_member_guid (members_of w'.cells left) h ≡ (
                if target == h
                then none
                else guild_member_for_member_guid (members_of w.cells g.guild_members) h))
  unfolding kick remove_guild_member forget_member change_guild guild_id_by_realm_and_member_guid
      rank_for_member build_generic_event_payload
  kick_lem h = (
    ground (arith, own_guild_lem k, guild_id_of_lem t, k.listed, k.ranked, t.listed, t.ranked),
    ground (arith, own_guild_lem k, guild_id_of_lem t, k.listed, k.ranked, t.listed, t.ranked),
    ground (
      arith,
      own_guild_lem k,
      guild_id_of_lem t,
      k.listed,
      k.ranked,
      t.listed,
      t.ranked,
      t.pointer,
      t.of_guild,
      t.cached,
    ),
    ground (
      arith,
      own_guild_lem k,
      guild_id_of_lem t,
      k.listed,
      k.ranked,
      t.listed,
      t.ranked,
      t.pointer,
      t.of_guild,
      t.cached,
    ),
    λ x. ground (
      arith,
      own_guild_lem k,
      guild_id_of_lem t,
      k.listed,
      k.ranked,
      t.listed,
      t.ranked,
      t.pointer,
      t.of_guild,
      t.cached,
      remove_first_lem w.cells target x g.guild_members unique,
    ),
  )

-- The guild's pointers were given out before.
abbrev pub AllBelow : ℕ → List ℕ → Type 0
AllBelow n = All (λ p. p < n)
