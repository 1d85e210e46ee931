-- ===== src/Matchmaking/Battleground.antt =====
-- apps/matchmakingserver/battleground: the players active in a battleground or invited to it. Times,
-- statuses and the sending of events are left out; of an invitation the player is kept.
use athena_wow_cluster.Prelude.{
  ℕ, ◌+◌, ◌-◌, ◌*◌, ◌/◌, ◌%◌, Bool, false, ◌&&◌, ◌||◌, Option, none, some, List, [], ◌∷◌, ◌++◌, ltb,
  leb, ◌==◌, if◌then◌else◌, length, u8, u32_mod,
}

pub record Player : Type 0 where
  pub player_realm : ℕ
  pub low_guid : ℕ

-- `guid.PlayerUnwrapped{uint16(realmID), LowType(playerGUID)}`.
abbrev pub unwrapped : (guid realm : ℕ) → Player
unwrapped guid realm = record { player_realm = realm % 65536; low_guid = guid % u32_mod }

abbrev pub player_eq : Player → Player → Bool
player_eq p q = p.player_realm == q.player_realm && p.low_guid == q.low_guid

pub data PvpTeam : Type 0 where
  team_any team_alliance team_horde : PvpTeam

-- An array indexed by team.
pub record PerTeam {ℓ} (A : Type ℓ) : Type ℓ where
  pub of_any : A
  pub of_alliance : A
  pub of_horde : A

abbrev pub at_team {ℓ} : {A : Type ℓ} → PerTeam A → PvpTeam → A
at_team p team_any = p.of_any
at_team p team_alliance = p.of_alliance
at_team p team_horde = p.of_horde

abbrev pub set_team {ℓ} : {A : Type ℓ} → PerTeam A → PvpTeam → A → PerTeam A
set_team p team_any a = record p { of_any = a }
set_team p team_alliance a = record p { of_alliance = a }
set_team p team_horde a = record p { of_horde = a }

-- `Members` is what the caller put there; the leader stands apart.
pub record QueuedGroup : Type 0 where
  pub leader_guid : Player
  pub members : List Player
  pub group_realm : ℕ
  pub team_id : PvpTeam
  pub is_random_queue : Bool

pub record Battleground : Type 0 where
  pub instance_id : ℕ
  pub map_id : ℕ
  pub battleground_type_id : ℕ
  pub queue_type_id : ℕ
  pub bracket_id : ℕ
  pub battle_group_id : ℕ
  pub realm_id : ℕ
  pub min_players_per_team : ℕ
  pub max_players_per_team : ℕ
  pub active_players_per_team : PerTeam (List Player)
  pub invited_players_per_team : PerTeam (List Player)

-- An `int` below 0 gives 0, as the subtraction does.
unfoldable pub free_slots_for_team : Battleground → PvpTeam → ℕ
free_slots_for_team b team = u8 (
    b.max_players_per_team
    - (length (at_team b.active_players_per_team team)
        + length (at_team b.invited_players_per_team team)))

-- The entries of the inner loops of `InviteGroups`: the members, then the leader.
unfoldable pub invitations : List QueuedGroup → List Player
invitations [] = []
invitations (g ∷ gs) = g.members ++ g.leader_guid ∷ invitations gs

-- `InviteGroups` on the groups in the order of its loop over realms, when every event is sent.
unfoldable pub invite_groups : Battleground → List QueuedGroup → PvpTeam → Battleground
unfolding invitations
invite_groups b groups team = record b {
  invited_players_per_team =
      set_team b.invited_players_per_team team
        (at_team b.invited_players_per_team team ++ invitations groups);
}

unfoldable pub contains_player : List Player → Player → Bool
contains_player [] p = false
contains_player (q ∷ qs) p = player_eq q p || contains_player qs p

-- `append(guids[:index], guids[index+1:]...)` at the first entry of the player.
unfoldable pub remove_first : List Player → Player → List Player
remove_first [] p = []
remove_first (q ∷ qs) p = let rest = remove_first qs p in if player_eq q p then qs else q ∷ rest

unfoldable pub team_for_invited_player : Battleground → (guid realm : ℕ) → Option PvpTeam
unfolding contains_player
team_for_invited_player b guid realm =
    let p = unwrapped guid realm in
    if contains_player b.invited_players_per_team.of_any p
    then some team_any
    else if contains_player b.invited_players_per_team.of_alliance p
    then some team_alliance
    else if contains_player b.invited_players_per_team.of_horde p
    then some team_horde
    else none

-- The loops over the teams, which stop at the first team that has the player.
unfoldable pub remove_from_teams : PerTeam (List Player) → Player → PerTeam (List Player)
unfolding contains_player remove_first
remove_from_teams t p =
    if contains_player t.of_any p
    then record t { of_any = remove_first t.of_any p }
    else if contains_player t.of_alliance p
    then record t { of_alliance = remove_first t.of_alliance p }
    else if contains_player t.of_horde p
    then record t { of_horde = remove_first t.of_horde p }
    else t

unfoldable pub remove_player_from_invite : Battleground → (guid realm : ℕ) → Battleground
remove_player_from_invite b guid realm = record b {
  invited_players_per_team = remove_from_teams b.invited_players_per_team (unwrapped guid realm);
}

unfoldable pub remove_player : Battleground → (guid realm : ℕ) → Battleground
unfolding remove_player_from_invite
remove_player b guid realm =
    remove_player_from_invite
      (record b {
        active_players_per_team =
            remove_from_teams b.active_players_per_team (unwrapped guid realm);
      })
      guid realm

unfoldable pub add_active_player : Battleground → (guid realm : ℕ) → PvpTeam → Battleground
add_active_player b guid realm team = record b {
  active_players_per_team =
      set_team b.active_players_per_team team
        (at_team b.active_players_per_team team ++ unwrapped guid realm ∷ []);
}

-- The update of `PlayerJoinedBattleground`; `none` is its error.
unfoldable pub player_joined : Battleground → (guid realm : ℕ) → Option Battleground
unfolding team_for_invited_player
player_joined b guid realm = elim (team_for_invited_player b guid realm) [
  | none ↦ none
  | some team ↦ some (add_active_player (remove_player b guid realm) guid realm team)
]

unfoldable pub bracket_id_by_level : ℕ → ℕ
bracket_id_by_level level = if ltb level 10 then 1 else if leb 80 level then 8 else level / 10

unfoldable pub levels_diapason_for_bracket : ℕ → ℕ × ℕ
levels_diapason_for_bracket bracket =
    if leb 8 bracket then (80, 80) else (u8 (bracket * 10), u8 (bracket * 10 + 9))
