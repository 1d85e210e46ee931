-- ===== src/Matchmaking/Queue.antt =====
-- apps/matchmakingserver/service/battleground-queue.go: the queue of one battleground type and bracket.
-- Its lock makes each operation one step.
use athena_wow_cluster.Prelude.{ℕ, false, Option, none, some, List, [], ◌∷◌, ltb, if◌then◌else◌}
use athena_wow_cluster.Matchmaking.Battleground.{
  Player, player_eq, PvpTeam, team_any, team_alliance, team_horde, QueuedGroup, Battleground,
  free_slots_for_team,
}
use athena_wow_cluster.Matchmaking.Selection.{balanced_groups, find_groups_for_given_slots}

-- `queued_groups` lists the entries of the map in the order in which loops meet them.
pub record PvpQueue : Type 0 where
  pub queued_groups : List QueuedGroup
  pub players_group_leader_by_player : Player → Option Player

abbrev pub set_leader : (Player → Option Player) → Player → Option Player → Player → Option Player
set_leader m p leader q = if player_eq p q then leader else m q

unfoldable pub delete_group : List QueuedGroup → Player → List QueuedGroup
delete_group [] leader = []
delete_group (g ∷ gs) leader =
    let rest = delete_group gs leader in if player_eq g.leader_guid leader then rest else g ∷ rest

unfoldable pub find_group : List QueuedGroup → Player → Option QueuedGroup
find_group [] leader = none
find_group (g ∷ gs) leader = if player_eq g.leader_guid leader then some g else find_group gs leader

unfoldable pub set_leaders :
    (Player → Option Player) → List Player → Option Player → Player → Option Player
set_leaders m [] leader = m
set_leaders m (p ∷ ps) leader = set_leaders (set_leader m p leader) ps leader

-- `AddQueuedGroup` before it tries to match.
unfoldable pub add_queued_group : PvpQueue → QueuedGroup → PvpQueue
add_queued_group q g = record {
  queued_groups = g ∷ delete_group q.queued_groups g.leader_guid;
  players_group_leader_by_player =
      set_leader (set_leaders q.players_group_leader_by_player g.members (some g.leader_guid))
        g.leader_guid (some g.leader_guid);
}

-- The members of a missing entry are those of the zero value: none.
abbrev pub members_of : Option QueuedGroup → List Player
members_of none = []
members_of (some g) = g.members

-- `RemoveQueuedGroup`; `none` is `ErrPlayerNotFound`.
unfoldable pub remove_queued_group : PvpQueue → Player → Option PvpQueue
remove_queued_group q player = elim (q.players_group_leader_by_player player) [
  | none ↦ none
  | some leader ↦ some (record {
    queued_groups = delete_group q.queued_groups leader;
    players_group_leader_by_player =
        set_leaders q.players_group_leader_by_player
          (members_of (find_group q.queued_groups leader)) none;
  })
]

-- `queuedGroups` gives the zero value for a leader that it does not have.
abbrev pub zero_group : QueuedGroup
zero_group = record {
  leader_guid = record { player_realm = 0; low_guid = 0 };
  members = [];
  group_realm = 0;
  team_id = team_any;
  is_random_queue = false;
}

abbrev pub or_zero : Option QueuedGroup → QueuedGroup
or_zero none = zero_group
or_zero (some g) = g

-- `none` is a nil pointer.
unfoldable pub queued_group_by_player : PvpQueue → Player → Option QueuedGroup
queued_group_by_player q player = elim (q.players_group_leader_by_player player) [
  | none ↦ none
  | some leader ↦ some (or_zero (find_group q.queued_groups leader))
]

unfoldable pub remove_group_from_queue : PvpQueue → QueuedGroup → PvpQueue
remove_group_from_queue q g = record {
  queued_groups = delete_group q.queued_groups g.leader_guid;
  players_group_leader_by_player = set_leaders q.players_group_leader_by_player g.members none;
}

unfoldable pub remove_groups_from_queue : PvpQueue → List QueuedGroup → PvpQueue
unfolding remove_group_from_queue
remove_groups_from_queue q [] = q
remove_groups_from_queue q (g ∷ gs) = remove_groups_from_queue (remove_group_from_queue q g) gs

abbrev pub remove_all_queued_groups : PvpQueue
remove_all_queued_groups = record { queued_groups = []; players_group_leader_by_player = λ p. none }

-- What the queue needs of `BattleGroundService` and `BattlegroundCreator`; `none` is an error.
-- `invite_groups` gives the battleground as the call leaves it.
pub record BattleGroundService : Type 1 where
  pub State : Type 0
  pub battlegrounds_that_need_players : State → Option (List Battleground)
  pub invite_groups :
      State → List QueuedGroup → Battleground → PvpTeam → Option State × Battleground
  pub template_players : State → ℕ × ℕ
  pub create_battleground : State → (alliance horde : List QueuedGroup) → Option State

module _ (s : BattleGroundService) where
  -- `inviteGroupsToBG`: an error is logged, and the groups stay in the queue.
  unfoldable pub invite_groups_to_bg :
      s.State × PvpQueue
      → List QueuedGroup
      → Battleground
      → PvpTeam
      → (s.State × PvpQueue) × Battleground
  invite_groups_to_bg (st, q) groups bg team = answer (s.invite_groups st groups bg team)
    where
      answer : Option s.State × Battleground → (s.State × PvpQueue) × Battleground
      answer (none, bg) = ((st, q), bg)
      answer (some st, bg) = ((st, remove_groups_from_queue q groups), bg)

  -- One half of the loop body of `process`.
  unfoldable pub fill_team :
      s.State × PvpQueue → Battleground → PvpTeam → (s.State × PvpQueue) × Battleground
  unfolding invite_groups_to_bg
  fill_team (st, q) bg team =
      if ltb 0 (free_slots_for_team bg team)
      then elim (find_groups_for_given_slots team q.queued_groups (free_slots_for_team bg team)) [
        | [] ↦ ((st, q), bg)
        | g ∷ gs ↦ invite_groups_to_bg (st, q) (g ∷ gs) bg team
      ]
      else ((st, q), bg)

  unfoldable pub fill_battlegrounds : s.State × PvpQueue → List Battleground → s.State × PvpQueue
  unfolding fill_team
  fill_battlegrounds sq [] = sq
  fill_battlegrounds sq (bg ∷ bgs) =
      let alliance = fill_team sq bg team_alliance in
      fill_battlegrounds (fill_team alliance.0 alliance.1 team_horde).0 bgs

  -- The end of `process`: a new battleground for the groups that match.
  unfoldable pub create_for :
      s.State × PvpQueue
      → List QueuedGroup × List QueuedGroup
      → Option (Unit {0}) × (s.State × PvpQueue)
  create_for sq ([], horde) = (some tt, sq)
  create_for sq (alliance, []) = (some tt, sq)
  create_for (st, q) (a ∷ alliance, h ∷ horde) =
      elim (s.create_battleground st (a ∷ alliance) (h ∷ horde)) [
        | none ↦ (none, (st, q))
        | some st ↦ (
          some tt,
          (st, remove_groups_from_queue (remove_groups_from_queue q (h ∷ horde)) (a ∷ alliance)),
        )
      ]

  -- `process`: the error, if any, and what it leaves.
  unfoldable pub process : s.State × PvpQueue → Option (Unit {0}) × (s.State × PvpQueue)
  unfolding create_for
  process (st, q) = elim (s.battlegrounds_that_need_players st) [
    | none ↦ (none, (st, q))
    | some bgs ↦
        let filled = fill_battlegrounds (st, q) bgs in
        let players = s.template_players filled.0 in
        create_for filled (balanced_groups filled.1.queued_groups players.0 players.1)
  ]

  -- `AddQueuedGroup`.
  unfoldable pub enqueue :
      s.State × PvpQueue → QueuedGroup → Option (Unit {0}) × (s.State × PvpQueue)
  unfolding process
  enqueue (st, q) g = process (st, add_queued_group q g)
