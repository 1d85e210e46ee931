-- ===== src/Matchmaking/Membership.antt =====
-- apps/matchmakingserver/service/battleground-queue.go: which group a player is found in.
use athena_wow_cluster.Prelude.{
  ◌≡◌, refl, ap, ◌∙◌, ◌⊎◌, inl, true, false, Option, none, some, List, [], ◌∷◌, arith,
  if◌then◌else◌,
}
use athena_wow_cluster.Matchmaking.Battleground.{Player, player_eq, QueuedGroup, contains_player}
use athena_wow_cluster.Matchmaking.Queue.{
  PvpQueue, set_leader, set_leaders, delete_group, find_group, add_queued_group, members_of,
  remove_queued_group, zero_group, or_zero, queued_group_by_player,
}

player_eq_self : (p : Player) → player_eq p p ≡ true
player_eq_self p = ground arith

player_eq-eq : (p q : Player) → player_eq p q ≡ true → p ≡ q
player_eq-eq p q h = ground arith

set_leaders_lem :
    (m : Player → Option Player) (ps : List Player) (leader : Option Player) (p : Player)
    → set_leaders m ps leader p ≡ (if contains_player ps p then leader else m p)
unfolding set_leaders contains_player
set_leaders_lem m [] leader p = refl
set_leaders_lem m (q ∷ qs) leader p =
    ground (arith, set_leaders_lem (set_leader m q leader) qs leader p)

find_group-delete_group :
    (gs : List QueuedGroup) (leader : Player) → find_group (delete_group gs leader) leader ≡ none
unfolding find_group delete_group
find_group-delete_group [] leader = refl
find_group-delete_group (g ∷ gs) leader = ground (arith, find_group-delete_group gs leader)

-- The leader of a group or one of its members.
abbrev pub IsIn : Player → QueuedGroup → Type 0
IsIn p g = (player_eq g.leader_guid p ≡ true) ⊎ (contains_player g.members p ≡ true)

leader_of-add :
    (q : PvpQueue) (g : QueuedGroup) (p : Player)
    → IsIn p g
    → (add_queued_group q g).players_group_leader_by_player p ≡ some g.leader_guid
unfolding add_queued_group
leader_of-add q g p h =
    ground
      (arith, set_leaders_lem q.players_group_leader_by_player g.members (some g.leader_guid) p)

queued_group_by_player-some :
    (q : PvpQueue) (p leader : Player)
    → q.players_group_leader_by_player p ≡ some leader
    → queued_group_by_player q p ≡ some (or_zero (find_group q.queued_groups leader))
unfolding queued_group_by_player
queued_group_by_player-some q p leader e = rw (e, queued_group_by_player)

queued_group_by_player-none :
    (q : PvpQueue) (p : Player)
    → q.players_group_leader_by_player p ≡ none
    → queued_group_by_player q p ≡ none
unfolding queued_group_by_player
queued_group_by_player-none q p e = rw (e, queued_group_by_player)

-- The queue without the group of a leader.
abbrev without : PvpQueue → Player → PvpQueue
without q leader = record {
  queued_groups = delete_group q.queued_groups leader;
  players_group_leader_by_player =
      set_leaders q.players_group_leader_by_player (members_of (find_group q.queued_groups leader))
        none;
}

remove_queued_group_lem :
    (q : PvpQueue) (p leader : Player)
    → q.players_group_leader_by_player p ≡ some leader
    → remove_queued_group q p ≡ some (without q leader)
unfolding remove_queued_group
remove_queued_group_lem q p leader e = rw (e, remove_queued_group)

find_group-add :
    (q : PvpQueue) (g : QueuedGroup)
    → find_group (add_queued_group q g).queued_groups g.leader_guid ≡ some g
unfolding add_queued_group find_group
find_group-add q g = rw (player_eq_self g.leader_guid)

-- A group that was queued is found by its leader and by each member, whatever they queued in before.
pub queued_group_by_player-add_queued_group :
    (q : PvpQueue) (g : QueuedGroup) (p : Player)
    → IsIn p g
    → queued_group_by_player (add_queued_group q g) p ≡ some g
queued_group_by_player-add_queued_group q g p h =
    queued_group_by_player-some (add_queued_group q g) p g.leader_guid (leader_of-add q g p h)
    ∙ ap (λ o. some (or_zero o)) (find_group-add q g)

-- Whoever of a group that was just queued takes it out of the queue, no member is found any more. A
-- leader who does not stand among the members still is: the lookup gives the zero value of a group.
pub remove_queued_group_keeps_leader :
    (q : PvpQueue) (g : QueuedGroup) (p : Player)
    → IsIn p g
    → contains_player g.members g.leader_guid ≡ false
    → (q' : PvpQueue) × (remove_queued_group (add_queued_group q g) p ≡ some q')
      × ((m : Player) → contains_player g.members m ≡ true → queued_group_by_player q' m ≡ none)
      × (queued_group_by_player q' g.leader_guid ≡ some zero_group)
remove_queued_group_keeps_leader q g p h apart =
    let added = add_queued_group q g in
    let q' = without added g.leader_guid in
    (
      q',
      remove_queued_group_lem added p g.leader_guid (leader_of-add q g p h),
      λ m listed. queued_group_by_player-none q' m (left m ∙ rw listed),
      queued_group_by_player-some q' g.leader_guid g.leader_guid (
            left g.leader_guid
            ∙ rw apart (leader_of-add q g g.leader_guid (inl (player_eq_self g.leader_guid))))
          ∙ ap (λ o. some (or_zero o)) (find_group-delete_group added.queued_groups g.leader_guid),
    )
  where
    left :
        (m : Player)
        → (without (add_queued_group q g) g.leader_guid).players_group_leader_by_player m ≡ (
            if contains_player g.members m
            then none
            else (add_queued_group q g).players_group_leader_by_player m)
    left m =
        rw (find_group-add q g)
          (set_leaders_lem (add_queued_group q g).players_group_leader_by_player g.members none m)
