-- ===== src/Guilds/Cache.antt =====
-- apps/guildserver/service/guilds-cache_inmem.go: the guilds and their members in memory, written
-- after the database.
use Prim.Native.String.{String}
use athena_wow_cluster.Prelude.{
  ℕ, true, Option, none, some, List, [], ◌∷◌, ◌++◌, ◌+◌, ltb, ◌==◌, if◌then◌else◌, length, take,
  Map, put, delete, empty_map,
}
use athena_wow_cluster.Guilds.Model.{
  GuildMember, guild_member_status_offline, guild_member_status_online, GuildRank, Guild,
}
use athena_wow_cluster.Guilds.World.{Env, World, M, ok, err, panic, ◌>>◌, query, database_error}

-- `g.cache[realm][id] = v` and `g.guildMembersCache[realm][guid] = p` on maps that are not nil.
abbrev pub put_in : {V : Type 0} → (ℕ → Map V) → (realm key : ℕ) → V → ℕ → Map V
put_in m realm key v r = if realm == r then put (m r) key v else m r

abbrev pub delete_in : {V : Type 0} → (ℕ → Map V) → (realm key : ℕ) → ℕ → Map V
delete_in m realm key r = if realm == r then delete (m r) key else m r

abbrev pub put_cell : (ℕ → GuildMember) → ℕ → GuildMember → ℕ → GuildMember
put_cell cells p m q = if p == q then m else cells q

-- The pointers without the first whose member has the GUID.
unfoldable pub remove_first : (ℕ → GuildMember) → ℕ → List ℕ → List ℕ
remove_first cells guid [] = []
remove_first cells guid (p ∷ ps) =
    let rest = remove_first cells guid ps in if (cells p).player_guid == guid then ps else p ∷ rest

unfoldable pub replace_rank : List GuildRank → GuildRank → List GuildRank
replace_rank [] r = []
replace_rank (x ∷ xs) r =
    let rest = replace_rank xs r in if x.rank == r.rank then r ∷ xs else x ∷ rest

-- The ranks before the given one stay; a rank beyond the list changes nothing.
unfoldable pub cut_ranks : (rank : ℕ) → Guild → Guild
cut_ranks rank g =
    if ltb (length g.guild_ranks) rank
    then g
    else record g { guild_ranks = take rank g.guild_ranks }

-- What `HandleCharactersUpdates` gets for a character; an absent field is nil.
pub record CharacterUpdate : Type 0 where
  pub id : ℕ
  pub area : Option ℕ
  pub lvl : Option ℕ

unfoldable pub apply_char_update : GuildMember → CharacterUpdate → GuildMember
apply_char_update m u = record m {
  area_id = elim u.area [ none ↦ m.area_id | some a ↦ a ];
  lvl = elim u.lvl [ none ↦ m.lvl | some l ↦ l ];
}

module _ {e : Env} where
  unfoldable pub guild_by_realm_and_id : World e → (realm id : ℕ) → Option Guild
  guild_by_realm_and_id w realm id = w.cache realm id

  unfoldable pub guild_id_by_realm_and_member_guid : World e → (realm guid : ℕ) → ℕ
  guild_id_by_realm_and_member_guid w realm guid = elim (w.guild_members_cache realm guid) [
    | none ↦ 0
    | some p ↦ (w.cells p).guild_id
  ]

  -- The guild at the key, changed; a nil guild crashes.
  unfoldable pub change_guild : (realm id : ℕ) → (Guild → Guild) → M e (Unit {0})
  change_guild realm id f w = elim (w.cache realm id) [
    | none ↦ (panic, w)
    | some g ↦ (ok tt, record w { cache = put_in w.cache realm id (f g) })
  ]

  -- The guild at the key, changed if it is there.
  unfoldable pub change_guild_if : (realm id : ℕ) → (Guild → Guild) → M e (Unit {0})
  change_guild_if realm id f w = elim (w.cache realm id) [
    | none ↦ (ok tt, w)
    | some g ↦ (ok tt, record w { cache = put_in w.cache realm id (f g) })
  ]

  -- The member with the GUID, changed if it is there.
  unfoldable pub change_member_if : (realm guid : ℕ) → (GuildMember → GuildMember) → M e (Unit {0})
  change_member_if realm guid f w = elim (w.guild_members_cache realm guid) [
    | none ↦ (ok tt, w)
    | some p ↦ (ok tt, record w { cells = put_cell w.cells p (f (w.cells p)) })
  ]

  -- The new object of the member enters the map of members; a nil map crashes.
  unfoldable pub enter_member : (realm : ℕ) → GuildMember → M e (Unit {0})
  enter_member realm m w =
      if w.is_warm realm
      then (
        ok tt,
        record w {
          guild_members_cache = put_in w.guild_members_cache realm m.player_guid w.next_cell;
          cells = put_cell w.cells w.next_cell m;
          next_cell = w.next_cell + 1;
        },
      )
      else (panic, w)

  unfoldable pub add_guild_member : (realm : ℕ) → GuildMember → M e (Unit {0})
  unfolding enter_member change_guild
  add_guild_member realm m w =
      (do
        query (λ d. e.add_member d realm m)
        enter_member realm m
        change_guild realm m.guild_id
            (λ g. record g { guild_members = g.guild_members ++ w.next_cell ∷ [] }))
        w

  -- The member leaves both maps; the guild must be there.
  unfoldable pub forget_member : (realm guid : ℕ) → M e (Unit {0})
  unfolding remove_first change_guild
  forget_member realm guid w = elim (w.guild_members_cache realm guid) [
    | none ↦ (ok tt, w)
    | some p ↦
        change_guild realm (w.cells p).guild_id
          (λ g. record g { guild_members = remove_first w.cells guid g.guild_members })
          (record w { guild_members_cache = delete_in w.guild_members_cache realm guid })
  ]

  unfoldable pub remove_guild_member : (realm guid : ℕ) → M e (Unit {0})
  unfolding forget_member
  remove_guild_member realm guid = do
    query (λ d. e.remove_member d realm guid)
    forget_member realm guid

  unfoldable pub store_message_of_the_day : (realm id : ℕ) → String → M e (Unit {0})
  unfolding change_guild_if
  store_message_of_the_day realm id message = do
    query (λ d. e.set_motd d realm id message)
    change_guild_if realm id (λ g. record g { message_of_the_day = message })

  unfoldable pub store_guild_info : (realm id : ℕ) → String → M e (Unit {0})
  unfolding change_guild_if
  store_guild_info realm id info = do
    query (λ d. e.set_info d realm id info)
    change_guild_if realm id (λ g. record g { info = info })

  unfoldable pub store_public_note : (realm guid : ℕ) → String → M e (Unit {0})
  unfolding change_member_if
  store_public_note realm guid note = do
    query (λ d. e.set_public_note d realm guid note)
    change_member_if realm guid (λ m. record m { public_note = note })

  unfoldable pub store_officer_note : (realm guid : ℕ) → String → M e (Unit {0})
  unfolding change_member_if
  store_officer_note realm guid note = do
    query (λ d. e.set_officer_note d realm guid note)
    change_member_if realm guid (λ m. record m { officer_note = note })

  unfoldable pub set_member_rank : (realm guid rank : ℕ) → M e (Unit {0})
  unfolding change_member_if
  set_member_rank realm guid rank = do
    query (λ d. e.set_rank d realm guid rank)
    change_member_if realm guid (λ m. record m { rank = rank })

  unfoldable pub store_guild_rank : (realm id : ℕ) → GuildRank → M e (Unit {0})
  unfolding change_guild_if replace_rank
  store_guild_rank realm id r = do
    query (λ d. e.update_rank d realm id r)
    change_guild_if realm id (λ g. record g { guild_ranks = replace_rank g.guild_ranks r })

  unfoldable pub append_guild_rank : (realm id : ℕ) → GuildRank → M e (Unit {0})
  unfolding change_guild_if
  append_guild_rank realm id r = do
    query (λ d. e.add_rank d realm id r)
    change_guild_if realm id (λ g. record g { guild_ranks = g.guild_ranks ++ r ∷ [] })

  unfoldable pub delete_lowest_guild_rank : (realm id rank : ℕ) → M e (Unit {0})
  unfolding change_guild_if cut_ranks
  delete_lowest_guild_rank realm id rank = do
    query (λ d. e.delete_rank d realm id rank)
    change_guild_if realm id (cut_ranks rank)

  unfoldable pub handle_character_logged_in : (realm guid : ℕ) → M e (Unit {0})
  unfolding change_member_if
  handle_character_logged_in realm guid =
      change_member_if realm guid (λ m. record m { status = guild_member_status_online })

  unfoldable pub handle_character_logged_out : (realm guid now : ℕ) → M e (Unit {0})
  unfolding change_member_if
  handle_character_logged_out realm guid now =
      change_member_if realm guid
        (λ m. record m { status = guild_member_status_offline; logout_time = now })

  unfoldable pub handle_characters_updates : (realm : ℕ) → List CharacterUpdate → M e (Unit {0})
  unfolding change_member_if apply_char_update
  handle_characters_updates realm [] w = (ok tt, w)
  handle_characters_updates realm (u ∷ us) w =
      handle_characters_updates realm us
        (change_member_if realm u.id (λ m. apply_char_update m u) w).1

  -- The members of a loaded guild become objects, and enter the map of members.
  unfoldable pub warm_members : (realm : ℕ) → List GuildMember → World e → List ℕ × World e
  warm_members realm [] w = ([], w)
  warm_members realm (m ∷ ms) w =
      let rest = warm_members realm ms (record w {
        guild_members_cache = put_in w.guild_members_cache realm m.player_guid w.next_cell;
        cells = put_cell w.cells w.next_cell m;
        next_cell = w.next_cell + 1;
      }) in
      (w.next_cell ∷ rest.0, rest.1)

  unfoldable pub warm_guilds : (realm : ℕ) → List (Guild × List GuildMember) → World e → World e
  unfolding warm_members
  warm_guilds realm [] w = w
  warm_guilds realm ((g, ms) ∷ gs) w =
      let entered = warm_members realm ms w in
      warm_guilds realm gs (record entered.1 {
        cache = put_in entered.1.cache realm g.id (record g { guild_members = entered.0 });
      })

  unfoldable pub warmup : (realm : ℕ) → M e (Unit {0})
  unfolding warm_guilds
  warmup realm w = elim (e.load_all w.db realm) [
    | none ↦ (err database_error, w)
    | some gs ↦ (
      ok tt,
      warm_guilds realm gs (record w {
        is_warm = λ r. if realm == r then true else w.is_warm r;
        cache = λ r. if realm == r then empty_map else w.cache r;
        guild_members_cache = λ r. if realm == r then empty_map else w.guild_members_cache r;
      }),
    )
  ]
