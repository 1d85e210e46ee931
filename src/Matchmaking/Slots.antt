-- ===== src/Matchmaking/Slots.antt =====
-- apps/matchmakingserver/battleground/battleground.go: slots, invitations and levels.
use athena_wow_cluster.Prelude.{
  ℕ, ◌+◌, ◌-◌, ◌≤◌, ◌<◌, ◌≡◌, refl, sym, subst, ◌∙◌, inl, inr, Option-cases, true, false, none,
  some, List, [], ◌∷◌, ◌++◌, arith, if◌then◌else◌,
}
use athena_wow_cluster.Matchmaking.Battleground.{
  Player, unwrapped, player_eq, PvpTeam, team_any, team_alliance, team_horde, PerTeam, at_team,
  set_team, Battleground, contains_player, remove_first, team_for_invited_player, remove_from_teams,
  remove_player_from_invite, remove_player, add_active_player, player_joined, bracket_id_by_level,
  levels_diapason_for_bracket,
}

-- The bracket of a level from 10 to 80 holds that level.
pub levels_diapason_for_bracket-bracket_id_by_level :
    (level : ℕ)
    → 10 ≤ level
    → level ≤ 80
    → let levels = levels_diapason_for_bracket (bracket_id_by_level level) in
      (levels.0 ≤ level) × (level ≤ levels.1)
unfolding levels_diapason_for_bracket bracket_id_by_level
levels_diapason_for_bracket-bracket_id_by_level level h k = ground arith

-- How often a player stands in a list, and in the lists of all teams.
abbrev pub count : Player → List Player → ℕ
count p [] = 0
count p (q ∷ qs) = let later = count p qs in (if player_eq q p then 1 else 0) + later

abbrev pub count_teams : Player → PerTeam (List Player) → ℕ
count_teams p t = count p t.of_any + count p t.of_alliance + count p t.of_horde

count-remove_first : (p : Player) (qs : List Player) → count p (remove_first qs p) ≡ count p qs - 1
unfolding remove_first
count-remove_first p [] = refl
count-remove_first p (q ∷ qs) = ground (arith, count-remove_first p qs)

count-contains : (p : Player) (qs : List Player) → contains_player qs p ≡ false → count p qs ≡ 0
unfolding contains_player
count-contains p [] h = refl
count-contains p (q ∷ qs) h = ground (arith, count-contains p qs)

contains-count : (p : Player) (qs : List Player) → contains_player qs p ≡ true → 0 < count p qs
unfolding contains_player
contains-count p [] h = cc
contains-count p (q ∷ qs) h = ground (arith, contains-count p qs)

count_teams-remove :
    (p : Player) (t : PerTeam (List Player))
    → count_teams p (remove_from_teams t p) ≡ count_teams p t - 1
unfolding remove_from_teams
count_teams-remove p t = ground (
  arith,
  count-remove_first p t.of_any,
  count-remove_first p t.of_alliance,
  count-remove_first p t.of_horde,
  count-contains p t.of_any,
  count-contains p t.of_alliance,
  count-contains p t.of_horde,
  contains-count p t.of_any,
  contains-count p t.of_alliance,
  contains-count p t.of_horde,
)

at_team-set_team :
    (t : PerTeam (List Player)) (team : PvpTeam) (qs : List Player)
    → at_team (set_team t team qs) team ≡ qs
at_team-set_team t team_any qs = refl
at_team-set_team t team_alliance qs = refl
at_team-set_team t team_horde qs = refl

contains_player-last : (qs : List Player) (p : Player) → contains_player (qs ++ p ∷ []) p ≡ true
unfolding contains_player
contains_player-last [] p = ground arith
contains_player-last (q ∷ qs) p = ground (arith, contains_player-last qs p)

invited_at :
    (b : Battleground) (guid realm : ℕ) (team : PvpTeam)
    → team_for_invited_player b guid realm ≡ some team
    → contains_player (at_team b.invited_players_per_team team) (unwrapped guid realm) ≡ true
unfolding team_for_invited_player
invited_at b guid realm team_any e = ground arith
invited_at b guid realm team_alliance e = ground arith
invited_at b guid realm team_horde e = ground arith

player_joined-some :
    (b : Battleground) (guid realm : ℕ) (team : PvpTeam)
    → team_for_invited_player b guid realm ≡ some team
    → player_joined b guid realm
      ≡ some (add_active_player (remove_player b guid realm) guid realm team)
unfolding player_joined
player_joined-some b guid realm team e = rw (e, player_joined)

player_joined-none :
    (b : Battleground) (guid realm : ℕ)
    → team_for_invited_player b guid realm ≡ none
    → player_joined b guid realm ≡ none
unfolding player_joined
player_joined-none b guid realm e = rw (e, player_joined)

some_injective : {A : Type 0} {a b : A} → some a ≡ some b → a ≡ b
some_injective e = cc

-- The player of the join is active in the team, and has one invitation fewer.
abbrev pub IsJoined : Battleground → Player → PvpTeam → Battleground → Type 0
IsJoined b p team b' =
    (contains_player (at_team b.invited_players_per_team team) p ≡ true)
    × (contains_player (at_team b'.active_players_per_team team) p ≡ true)
    × (count_teams p b'.invited_players_per_team ≡ count_teams p b.invited_players_per_team - 1)

add_active_player-IsJoined :
    (b : Battleground) (guid realm : ℕ) (team : PvpTeam)
    → team_for_invited_player b guid realm ≡ some team
    → IsJoined b
        (unwrapped guid realm)
        team
        (add_active_player (remove_player b guid realm) guid realm team)
unfolding remove_player remove_player_from_invite add_active_player
add_active_player-IsJoined b guid realm team e = (
  invited_at b guid realm team e,
  rw (at_team-set_team (remove_from_teams b.active_players_per_team (unwrapped guid realm)) team _)
      (contains_player-last _ (unwrapped guid realm)),
  count_teams-remove (unwrapped guid realm) b.invited_players_per_team,
)

-- A player who joins was invited to a team and becomes active in that team. One of the player's
-- invitations goes, and only one, even where there are more.
pub player_joined_lem :
    (b b' : Battleground) (guid realm : ℕ)
    → player_joined b guid realm ≡ some b'
    → (team : PvpTeam) × IsJoined b (unwrapped guid realm) team b'
player_joined_lem b b' guid realm e = elim (Option-cases (team_for_invited_player b guid realm)) [
  | inl not_invited ↦ absurd (none_some (sym (player_joined-none b guid realm not_invited) ∙ e))
  | inr (team, invited) ↦ (
    team,
    subst (IsJoined b (unwrapped guid realm) team)
        (some_injective (sym (player_joined-some b guid realm team invited) ∙ e))
        (add_active_player-IsJoined b guid realm team invited),
  )
]
  where
    none_some : {c : Battleground} → ¬ (none ≡ some c)
    none_some h = cc
