-- ===== src/Matchmaking/Selection.antt =====
-- apps/matchmakingserver/service/battleground-queue.go: which groups of the queue play together. The
-- groups come in the order in which a loop over the Go map meets them, which Go leaves open.
-- `sort.Slice` may order groups of equal size in any way; the model's sort keeps them in place.
use athena_wow_cluster.Prelude.{
  ℕ, ◌+◌, ◌-◌, Bool, true, false, ◌&&◌, ◌||◌, List, [], ◌∷◌, ◌++◌, ltb, leb, ◌==◌, if◌then◌else◌,
  length, u8, filter,
}
use athena_wow_cluster.Matchmaking.Battleground.{
  PvpTeam, team_any, team_alliance, team_horde, QueuedGroup, player_eq,
}

-- `abs(a - b)`.
abbrev pub distance : ℕ → ℕ → ℕ
distance a b = (a - b) + (b - a)

-- A group counts its leader on top of its members here.
unfoldable pub total_members : List QueuedGroup → ℕ
total_members [] = 0
total_members (g ∷ gs) = (length g.members + 1) + total_members gs

pub record Best : Type 0 where
  pub best : List QueuedGroup
  pub best_total : ℕ
  pub best_diff : ℕ

-- `backtrack`, with the variables that it writes passed on.
unfoldable pub backtrack :
    (min_players max_players : ℕ)
    → List QueuedGroup
    → (current : List QueuedGroup) (current_total current_diff : ℕ) → Best
    → Best
backtrack min_players max_players [] current total diff b =
    if (leb min_players total && leb total max_players)
      && (ltb b.best_total total || (total == b.best_total && ltb diff b.best_diff))
    then record { best = current; best_total = total; best_diff = diff }
    else b
backtrack min_players max_players (g ∷ gs) current total diff b =
    let more = total + length g.members + 1 in
    let included =
      backtrack min_players max_players gs (current ++ g ∷ []) more (distance more max_players) b in
    backtrack min_players max_players gs current total diff
      (if leb (distance more max_players) b.best_diff then included else b)

unfoldable pub find_best_groups :
    List QueuedGroup → (min_players max_players : ℕ) → List QueuedGroup
unfolding backtrack
find_best_groups groups min_players max_players =
    (backtrack min_players max_players groups [] 0 max_players
      (record { best = []; best_total = 0; best_diff = max_players })).best

-- `sort.Slice` by falling number of members.
unfoldable pub insert_group : QueuedGroup → List QueuedGroup → List QueuedGroup
insert_group g [] = g ∷ []
insert_group g (h ∷ hs) =
    let rest = insert_group g hs in
    if ltb (length g.members) (length h.members) then h ∷ rest else g ∷ h ∷ hs

unfoldable pub sort_groups : List QueuedGroup → List QueuedGroup
unfolding insert_group
sort_groups [] = []
sort_groups (g ∷ gs) = insert_group g (sort_groups gs)

abbrev pub is_team : PvpTeam → PvpTeam → Bool
is_team team_any team_any = true
is_team team_alliance team_alliance = true
is_team team_horde team_horde = true
is_team _ _ = false

-- The group plays for the team, or for any.
abbrev pub plays_for : PvpTeam → QueuedGroup → Bool
plays_for team g = is_team g.team_id team || is_team g.team_id team_any

unfoldable pub remove_leader : List QueuedGroup → QueuedGroup → List QueuedGroup
remove_leader [] g = []
remove_leader (h ∷ hs) g =
    let rest = remove_leader hs g in if player_eq h.leader_guid g.leader_guid then hs else h ∷ rest

unfoldable pub remove_leaders : List QueuedGroup → List QueuedGroup → List QueuedGroup
unfolding remove_leader
remove_leaders hs [] = hs
remove_leaders hs (g ∷ gs) = remove_leaders (remove_leader hs g) gs

-- The end of `balancedGroups`: totals more than one apart make the larger side choose again.
unfoldable pub rebalance :
    (min_players : ℕ)
    → (alliance horde best_alliance best_horde : List QueuedGroup)
    → List QueuedGroup × List QueuedGroup
rebalance min_players alliance horde best_alliance best_horde =
    let a = total_members best_alliance in
    let h = total_members best_horde in
    if ltb 1 (distance h a)
    then if ltb a h
      then (best_alliance, find_best_groups horde min_players (a + 1))
      else (find_best_groups alliance min_players (h + 1), best_horde)
    else (best_alliance, best_horde)

-- The groups for the alliance and for the horde.
unfoldable pub balanced_groups :
    List QueuedGroup → (min_players max_players : ℕ) → List QueuedGroup × List QueuedGroup
unfolding rebalance
balanced_groups queued min_players max_players =
    let alliance = sort_groups (filter (plays_for team_alliance) queued) in
    let all_horde = sort_groups (filter (plays_for team_horde) queued) in
    let best_alliance = find_best_groups alliance min_players max_players in
    let horde = remove_leaders all_horde best_alliance in
    rebalance min_players alliance horde best_alliance
      (find_best_groups horde min_players max_players)

-- `findGroupsForGivenSlots`. With no slot left the loop ends.
unfoldable pub find_groups_for_given_slots : PvpTeam → List QueuedGroup → ℕ → List QueuedGroup
find_groups_for_given_slots team [] slots = []
find_groups_for_given_slots team (g ∷ gs) slots =
    let skipped = find_groups_for_given_slots team gs slots in
    let taken = find_groups_for_given_slots team gs (slots - u8 (length g.members)) in
    if slots == 0
    then []
    else if plays_for team g && leb (u8 (length g.members)) slots
    then g ∷ taken
    else skipped
