-- ===== src/Guilds/Accepting.antt =====
-- apps/guildserver/service/guilds.go: accepting an invitation.
use athena_wow_cluster.Prelude.{
  ℕ, ◌≡◌, refl, true, none, some, List, [], ◌∷◌, ◌++◌, ◌==◌, inl, inr, Bool-cases, Option-cases,
  arith,
}
use athena_wow_cluster.Guilds.Model.{
  GuildMember, Guild, members_of, guild_member_for_member_guid, lowest_rank_in_guild,
}
use athena_wow_cluster.Guilds.World.{
  Env, World, Result, ok, err, panic, and_then, build_generic_event_payload,
}
use athena_wow_cluster.Guilds.Cache.{
  guild_by_realm_and_id, guild_id_by_realm_and_member_guid, change_guild, add_guild_member,
  enter_member, put_cell,
}
use athena_wow_cluster.Guilds.Lookup.{guild_at}
use athena_wow_cluster.Guilds.Service.{InviteAcceptedParams, new_member, announce, invite_accepted}
use athena_wow_cluster.Guilds.Membership.{AllBelow}

members_of-put_cell :
    (cells : ℕ → GuildMember) (n : ℕ) (m : GuildMember) (ps : List ℕ)
    → AllBelow n ps
    → members_of (put_cell cells n m) ps ≡ members_of cells ps
unfolding members_of
members_of-put_cell cells n m [] b = refl
members_of-put_cell cells n m (p ∷ ps) b = ground (arith, members_of-put_cell cells n m ps)

found-append :
    (cells : ℕ → GuildMember) (n : ℕ) (ps : List ℕ) (guid : ℕ)
    → guild_member_for_member_guid (members_of cells ps) guid ≡ none
    → (cells n).player_guid ≡ guid
    → guild_member_for_member_guid (members_of cells (ps ++ n ∷ [])) guid ≡ some (cells n)
unfolding guild_member_for_member_guid members_of
found-append cells n [] guid e same = ground arith
found-append cells n (p ∷ ps) guid e same = ground (arith, found-append cells n ps guid)

-- The player is in the guild, with the member object that the cache made.
pub record Joined {e : Env} (w' : World e) (n : ℕ) (realm : ℕ) (g : Guild) (m : GuildMember)
    : Type 0 where
  pub id_found : guild_id_by_realm_and_member_guid w' realm m.player_guid ≡ g.id
  pub extended : w'.cache realm g.id ≡ some (record g { guild_members = g.guild_members ++ n ∷ [] })
  pub member_found :
      guild_member_for_member_guid (members_of w'.cells (g.guild_members ++ n ∷ [])) m.player_guid
      ≡ some m

module _ {e : Env} (w : World e) (realm : ℕ) (g : Guild) (m : GuildMember)
    (warm : w.is_warm realm ≡ true) (cached : w.cache realm g.id ≡ some g)
    (of_guild : m.guild_id ≡ g.id) (below : AllBelow w.next_cell g.guild_members)
    (new : guild_member_for_member_guid (members_of w.cells g.guild_members) m.player_guid
      ≡ none) where
  pub add_guild_member_lem :
      (add_guild_member realm m w).0 ≡ ok tt
      → Joined (add_guild_member realm m w).1 w.next_cell realm g m
  unfolding add_guild_member enter_member change_guild guild_id_by_realm_and_member_guid
  add_guild_member_lem h = record {
    id_found = ground (arith, warm, cached, of_guild);
    extended = ground (arith, warm, cached, of_guild);
    member_found = ground (
      arith,
      warm,
      cached,
      of_guild,
      members_of-put_cell w.cells w.next_cell m g.guild_members below,
      found-append (put_cell w.cells w.next_cell m) w.next_cell g.guild_members m.player_guid,
    );
  }

announce_lem :
    {e : Env} (w : World e) (n realm : ℕ) (g : Guild) (m : GuildMember)
    (params : InviteAcceptedParams)
    → Joined w n realm g m
    → Joined (announce realm g.id params w).1 n realm g m
unfolding announce guild_at guild_by_realm_and_id guild_id_by_realm_and_member_guid
    build_generic_event_payload
announce_lem w n realm g m params j = record {
  id_found = ground (arith, j.id_found);
  extended = ground (arith, j.extended);
  member_found = ground (arith, j.member_found);
}

announced :
    {e : Env} (n realm id : ℕ) (g : Guild) (m : GuildMember) (params : InviteAcceptedParams)
    (r : Result (Unit {0}) × World e)
    → (r.0 ≡ ok tt → Joined r.1 n realm g m)
    → (and_then r (λ _. announce realm g.id params)).0 ≡ ok id
    → Joined (and_then r (λ _. announce realm g.id params)).1 n realm g m
announced n realm id g m params (ok tt, w') j h = announce_lem w' n realm g m params (j refl)
announced n realm id g m params (err x, w') j h = absurd (ground arith)
announced n realm id g m params (panic, w') j h = absurd (ground arith)

-- A player who accepts an invite is a member of the inviting guild from then on, with its lowest
-- rank, and is found in its list.
pub invite_accepted_lem :
    {e : Env} (w : World e) (realm id : ℕ) (g : Guild) (params : InviteAcceptedParams)
    → w.is_warm realm ≡ true
    → w.cache realm g.id ≡ some g
    → e.invite_of w.db realm params.char_guid ≡ some g.id
    → AllBelow w.next_cell g.guild_members
    → guild_member_for_member_guid (members_of w.cells g.guild_members) params.char_guid ≡ none
    → (invite_accepted realm params w).0 ≡ ok id
    → Joined
        (invite_accepted realm params w).1
        w.next_cell
        realm
        g
        (new_member g.id (lowest_rank_in_guild g.guild_ranks) params)
unfolding invite_accepted guild_at guild_by_realm_and_id
invite_accepted_lem {e} w realm id g params warm cached invited below new =
    rw invited (elim (Bool-cases (g.id == 0)) [
      | inl z ↦ rw z (λ h. absurd (ground arith))
      | inr z ↦ rw z (
          rw cached (elim (Option-cases (e.remove_invite w.db realm params.char_guid).0) [
            | inl n ↦ rw n (λ h. absurd (ground arith))
            | inr (u, r) ↦ rw r (
                announced w.next_cell realm id g m params
                  (add_guild_member realm m
                    (record w { db = (e.remove_invite w.db realm params.char_guid).1 }))
                  (add_guild_member_lem
                    (record w { db = (e.remove_invite w.db realm params.char_guid).1 }) realm g m
                    warm cached refl below new))
          ]))
    ])
  where
    m : GuildMember
    m = new_member g.id (lowest_rank_in_guild g.guild_ranks) params
