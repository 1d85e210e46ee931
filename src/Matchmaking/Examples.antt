-- ===== src/Matchmaking/Examples.antt =====
-- The theorems on apps/matchmakingserver at concrete groups, and tests of the model.
use athena_wow_cluster.Prelude.{
  ℕ, ◌≤◌, ◌≡◌, refl, inl, true, false, some, List, [], ◌∷◌, arith, All,
}
use athena_wow_cluster.Matchmaking.Battleground.{
  Player, PvpTeam, team_any, team_alliance, team_horde, QueuedGroup, Battleground, contains_player,
  team_for_invited_player, player_joined, remove_player, remove_player_from_invite,
  remove_from_teams, remove_first, add_active_player,
}
use athena_wow_cluster.Matchmaking.Selection.{
  plays_for, balanced_groups, find_groups_for_given_slots, sort_groups, insert_group,
  find_best_groups, backtrack, remove_leaders, remove_leader, rebalance, total_members,
}
use athena_wow_cluster.Matchmaking.Queue.{
  add_queued_group, queued_group_by_player, remove_all_queued_groups,
}
use athena_wow_cluster.Matchmaking.Fitting.{member_sum, find_groups_for_given_slots-fits}
use athena_wow_cluster.Matchmaking.Balanced.{InBounds, balanced_groups-InBounds}
use athena_wow_cluster.Matchmaking.Membership.{queued_group_by_player-add_queued_group}
use athena_wow_cluster.Matchmaking.Links.{
  queue_link, battleground_link, Links, add_link_for_group_members, remove_queue_for_group_members,
}
use athena_wow_cluster.Matchmaking.Leaving.{remove_queue-add_link}

abbrev player : ℕ → Player
player n = record { player_realm = 1; low_guid = n }

abbrev group_of : PvpTeam → ℕ → List Player → QueuedGroup
group_of team leader ps = record {
  leader_guid = player leader;
  members = ps;
  group_realm = 1;
  team_id = team;
  is_random_queue = false;
}

-- Six for the alliance, and two for any side.
abbrev six : QueuedGroup
six = group_of team_alliance 10 (player 11 ∷ player 12 ∷ player 13 ∷ player 14 ∷ player 15 ∷ [])

abbrev two : QueuedGroup
two = group_of team_any 20 (player 21 ∷ [])

abbrev queued : List QueuedGroup
queued = two ∷ six ∷ []

-- When the alliance chooses again, it may choose a group that the horde has already.
chosen_twice : balanced_groups queued 1 7 ≡ (two ∷ [], two ∷ [])
unfolding balanced_groups sort_groups insert_group find_best_groups backtrack remove_leaders
    remove_leader rebalance total_members
chosen_twice = refl

balanced_groups-InBounds_example :
    (InBounds 1 7 (balanced_groups queued 1 7).0
      × All (λ g. plays_for team_alliance g ≡ true) (balanced_groups queued 1 7).0)
    × (InBounds 1 7 (balanced_groups queued 1 7).1
        × All (λ g. plays_for team_horde g ≡ true) (balanced_groups queued 1 7).1)
balanced_groups-InBounds_example = balanced_groups-InBounds queued 1 7

find_groups_for_given_slots-fits_example :
    (member_sum (find_groups_for_given_slots team_alliance queued 5) ≤ 5)
    × All
        (λ g. plays_for team_alliance g ≡ true)
        (find_groups_for_given_slots team_alliance queued 5)
find_groups_for_given_slots-fits_example =
    find_groups_for_given_slots-fits team_alliance queued 5 (omega arith, (omega arith, tt))

queued_group_by_player-add_queued_group_example :
    queued_group_by_player (add_queued_group remove_all_queued_groups six) (player 10) ≡ some six
queued_group_by_player-add_queued_group_example =
    queued_group_by_player-add_queued_group remove_all_queued_groups six (player 10) (inl refl)

apart : contains_player six.members (player 10) ≡ false
unfolding contains_player
apart = refl

abbrev valley : Battleground
valley = record {
  instance_id = 1;
  map_id = 30;
  battleground_type_id = 1;
  queue_type_id = 1;
  bracket_id = 8;
  battle_group_id = 0;
  realm_id = 1;
  min_players_per_team = 1;
  max_players_per_team = 40;
  active_players_per_team = record { of_any = []; of_alliance = []; of_horde = [] };
  invited_players_per_team = record {
    of_any = [];
    of_alliance = player 10 ∷ player 11 ∷ player 10 ∷ [];
    of_horde = [];
  };
}

abbrev valley_joined : Battleground
valley_joined = record valley {
  active_players_per_team = record { of_any = []; of_alliance = player 10 ∷ []; of_horde = [] };
  invited_players_per_team = record {
    of_any = [];
    of_alliance = player 11 ∷ player 10 ∷ [];
    of_horde = [];
  };
}

joined : player_joined valley 10 1 ≡ some valley_joined
unfolding player_joined team_for_invited_player contains_player remove_player
    remove_player_from_invite remove_from_teams remove_first add_active_player
joined = refl

-- Player 11 is in a battleground already, and in no queue.
abbrev links : Links
links p = battleground_link 1 0 3 ∷ []

remove_queue-add_link_example :
    remove_queue_for_group_members
      (add_link_for_group_members links (queue_link 4 2) six).0
      2
      six
      (player 11)
    ≡ battleground_link 1 0 3 ∷ []
remove_queue-add_link_example = remove_queue-add_link links 4 2 six (player 11) (refl, tt)
