-- ===== src/Guilds/Calls.antt =====
-- apps/guildserver/service/guilds-cache_inmem.go: the calls of the cache as a history, which keeps its
-- two maps consistent.
use Prim.Native.String.{String}
use athena_wow_cluster.Prelude.{
  ℕ, ◌≡◌, refl, ltb, length, true, Option, some, List, [], ◌∷◌, ◌++◌, inl, inr, Bool-cases,
  Option-cases,
}
use athena_wow_cluster.Guilds.Model.{
  GuildMember, guild_member_status_online, guild_member_status_offline, GuildRank, Guild,
}
use athena_wow_cluster.Guilds.World.{Env, World, M, query, ◌>>◌}
use athena_wow_cluster.Guilds.Cache.{
  replace_rank, cut_ranks, change_guild, change_guild_if, change_member_if, enter_member,
  add_guild_member, forget_member, remove_guild_member, store_message_of_the_day, store_guild_info,
  store_public_note, store_officer_note, set_member_rank, store_guild_rank, append_guild_rank,
  delete_lowest_guild_rank, handle_character_logged_in, handle_character_logged_out,
  handle_characters_updates, CharacterUpdate, apply_char_update,
}
use athena_wow_cluster.Guilds.Consistency.{
  IsConsistent, change_guild_if-IsConsistent, change_member_if-IsConsistent,
  forget_member-IsConsistent, add_guild_member-IsConsistent,
}

-- The methods of the cache that change it, as their arguments.
pub data CacheCall : Type 0 where
  add_member : GuildMember → CacheCall
  remove_member : (guid : ℕ) → CacheCall
  set_motd set_info : (id : ℕ) → String → CacheCall
  set_public_note set_officer_note : (guid : ℕ) → String → CacheCall
  set_rank : (guid rank : ℕ) → CacheCall
  update_rank add_rank : (id : ℕ) → GuildRank → CacheCall
  delete_rank : (id rank : ℕ) → CacheCall
  logged_in : (guid : ℕ) → CacheCall
  logged_out : (guid now : ℕ) → CacheCall
  updates : List CharacterUpdate → CacheCall

unfoldable pub call : {e : Env} → (realm : ℕ) → CacheCall → M e (Unit {0})
unfolding add_guild_member remove_guild_member store_message_of_the_day store_guild_info
    store_public_note store_officer_note set_member_rank store_guild_rank append_guild_rank
    delete_lowest_guild_rank handle_character_logged_in handle_character_logged_out
    handle_characters_updates
call realm (add_member m) = add_guild_member realm m
call realm (remove_member guid) = remove_guild_member realm guid
call realm (set_motd id message) = store_message_of_the_day realm id message
call realm (set_info id info) = store_guild_info realm id info
call realm (set_public_note guid note) = store_public_note realm guid note
call realm (set_officer_note guid note) = store_officer_note realm guid note
call realm (set_rank guid rank) = set_member_rank realm guid rank
call realm (update_rank id r) = store_guild_rank realm id r
call realm (add_rank id r) = append_guild_rank realm id r
call realm (delete_rank id rank) = delete_lowest_guild_rank realm id rank
call realm (logged_in guid) = handle_character_logged_in realm guid
call realm (logged_out guid now) = handle_character_logged_out realm guid now
call realm (updates us) = handle_characters_updates realm us

module _ {e : Env} where
  with_db :
      (w : World e) (realm : ℕ) (d : e.Db)
      → IsConsistent w realm
      → IsConsistent (record w { db = d }) realm
  with_db w realm d c = record {
    is_fresh = c.is_fresh;
    own_guid = c.own_guid;
    in_guild = c.in_guild;
  }

  -- A call of the database before the change.
  after_query :
      (w : World e) (realm : ℕ) (f : e.Db → Option (Unit {0}) × e.Db) (k : M e (Unit {0}))
      → IsConsistent w realm
      → ((d : e.Db) → IsConsistent (k (record w { db = d })).1 realm)
      → IsConsistent ((query f >> k) w).1 realm
  after_query w realm f k c next = elim (Option-cases (f w.db).0) [
    | inl n ↦ rw n (with_db w realm (f w.db).1 c)
    | inr (u, o) ↦ rw o (next (f w.db).1)
  ]

  member_write :
      (w : World e) (realm guid : ℕ) (f : e.Db → Option (Unit {0}) × e.Db)
      (g : GuildMember → GuildMember)
      → IsConsistent w realm
      → ((m : GuildMember) → ((g m).player_guid ≡ m.player_guid) × ((g m).guild_id ≡ m.guild_id))
      → IsConsistent ((query f >> change_member_if realm guid g) w).1 realm
  member_write w realm guid f g c same =
      after_query w realm f (change_member_if realm guid g) c (λ d.
        change_member_if-IsConsistent (record w { db = d }) realm (with_db w realm d c) guid g same)

  guild_write :
      (w : World e) (realm id : ℕ) (f : e.Db → Option (Unit {0}) × e.Db) (h : Guild → Guild)
      → IsConsistent w realm
      → ((g : Guild) → (h g).guild_members ≡ g.guild_members)
      → IsConsistent ((query f >> change_guild_if realm id h) w).1 realm
  guild_write w realm id f h c same = after_query w realm f (change_guild_if realm id h) c (λ d.
      change_guild_if-IsConsistent (record w { db = d }) realm (with_db w realm d c) id h same)

  handle_characters_updates-IsConsistent :
      (us : List CharacterUpdate) (w : World e) (realm : ℕ)
      → IsConsistent w realm
      → IsConsistent (handle_characters_updates realm us w).1 realm
  unfolding handle_characters_updates apply_char_update
  handle_characters_updates-IsConsistent [] w realm c = c
  handle_characters_updates-IsConsistent (u ∷ us) w realm c =
      handle_characters_updates-IsConsistent us _ realm (
        change_member_if-IsConsistent w realm c u.id (λ m. apply_char_update m u)
          (λ m. (refl, refl)))

-- The service adds members to guilds that the cache has, and after the realm is loaded.
abbrev pub IsApplied : {e : Env} → World e → ℕ → CacheCall → Type 0
IsApplied w realm (add_member m) =
    (w.is_warm realm ≡ true) × (g : Guild) × (w.cache realm m.guild_id ≡ some g)
IsApplied w realm c = Unit

cut_ranks-members : (rank : ℕ) (g : Guild) → (cut_ranks rank g).guild_members ≡ g.guild_members
unfolding cut_ranks
cut_ranks-members rank g = elim (Bool-cases (ltb (length g.guild_ranks) rank)) [
  | inl b ↦ rw b refl
  | inr b ↦ rw b refl
]

-- Every call of the cache keeps its two maps consistent, whatever the database answers.
pub call-IsConsistent :
    {e : Env} (w : World e) (realm : ℕ) (k : CacheCall)
    → IsApplied w realm k
    → IsConsistent w realm
    → IsConsistent (call realm k w).1 realm
unfolding call add_guild_member enter_member change_guild remove_guild_member
    store_message_of_the_day store_guild_info store_public_note store_officer_note set_member_rank
    store_guild_rank append_guild_rank delete_lowest_guild_rank handle_character_logged_in
    handle_character_logged_out replace_rank
call-IsConsistent {e} w realm (add_member m) (warm, g, there) c =
    elim (Option-cases (e.add_member w.db realm m).0) [
      | inl n ↦ rw n (with_db w realm (e.add_member w.db realm m).1 c)
      | inr (u, r) ↦ rw r (
          rw warm (
            rw there
              (add_guild_member-IsConsistent w realm c m (e.add_member w.db realm m).1 g there)))
    ]
call-IsConsistent {e} w realm (remove_member guid) a c =
    after_query w realm (λ d. e.remove_member d realm guid) (forget_member realm guid) c
      (λ d. forget_member-IsConsistent (record w { db = d }) realm (with_db w realm d c) guid)
call-IsConsistent {e} w realm (set_motd id message) a c =
    guild_write w realm id (λ d. e.set_motd d realm id message)
      (λ (g : Guild). record g { message_of_the_day = message }) c (λ g. refl)
call-IsConsistent {e} w realm (set_info id info) a c =
    guild_write w realm id (λ d. e.set_info d realm id info)
      (λ (g : Guild). record g { info = info }) c (λ g. refl)
call-IsConsistent {e} w realm (set_public_note guid note) a c =
    member_write w realm guid (λ d. e.set_public_note d realm guid note)
      (λ (m : GuildMember). record m { public_note = note }) c (λ m. (refl, refl))
call-IsConsistent {e} w realm (set_officer_note guid note) a c =
    member_write w realm guid (λ d. e.set_officer_note d realm guid note)
      (λ (m : GuildMember). record m { officer_note = note }) c (λ m. (refl, refl))
call-IsConsistent {e} w realm (set_rank guid rank) a c =
    member_write w realm guid (λ d. e.set_rank d realm guid rank)
      (λ (m : GuildMember). record m { rank = rank }) c (λ m. (refl, refl))
call-IsConsistent {e} w realm (update_rank id r) a c =
    guild_write w realm id (λ d. e.update_rank d realm id r)
      (λ (g : Guild). record g { guild_ranks = replace_rank g.guild_ranks r }) c (λ g. refl)
call-IsConsistent {e} w realm (add_rank id r) a c =
    guild_write w realm id (λ d. e.add_rank d realm id r)
      (λ (g : Guild). record g { guild_ranks = g.guild_ranks ++ r ∷ [] }) c (λ g. refl)
call-IsConsistent {e} w realm (delete_rank id rank) a c =
    guild_write w realm id (λ d. e.delete_rank d realm id rank) (cut_ranks rank) c
      (cut_ranks-members rank)
call-IsConsistent w realm (logged_in guid) a c =
    change_member_if-IsConsistent w realm c guid
      (λ (m : GuildMember). record m { status = guild_member_status_online }) (λ m. (refl, refl))
call-IsConsistent w realm (logged_out guid now) a c =
    change_member_if-IsConsistent w realm c guid
      (λ (m : GuildMember). record m { status = guild_member_status_offline; logout_time = now })
      (λ m. (refl, refl))
call-IsConsistent w realm (updates us) a c = handle_characters_updates-IsConsistent us w realm c
