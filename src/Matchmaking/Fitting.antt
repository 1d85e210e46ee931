-- ===== src/Matchmaking/Fitting.antt =====
-- apps/matchmakingserver/service/battleground-queue.go: how many players the groups chosen bring.
use athena_wow_cluster.Prelude.{
  ℕ, ◌+◌, ◌-◌, ◌≤◌, ◌<◌, ◌≡◌, refl, true, List, [], ◌∷◌, arith, length, length-append, All, u8,
}
use athena_wow_cluster.Matchmaking.Battleground.{PvpTeam, QueuedGroup, invitations}
use athena_wow_cluster.Matchmaking.Selection.{total_members, plays_for, find_groups_for_given_slots}

abbrev pub member_sum : List QueuedGroup → ℕ
member_sum [] = 0
member_sum (g ∷ gs) = length g.members + member_sum gs

-- The groups found for free slots play for the team, and their members, leaders apart, fit the slots.
pub find_groups_for_given_slots-fits :
    (team : PvpTeam) (groups : List QueuedGroup) (slots : ℕ)
    → All (λ (g : QueuedGroup). length g.members < 256) groups
    → (member_sum (find_groups_for_given_slots team groups slots) ≤ slots)
      × All (λ g. plays_for team g ≡ true) (find_groups_for_given_slots team groups slots)
unfolding find_groups_for_given_slots
find_groups_for_given_slots-fits team [] slots a = (omega arith, tt)
find_groups_for_given_slots-fits team (g ∷ gs) slots a = ground (
  arith,
  find_groups_for_given_slots-fits team gs slots a.1,
  find_groups_for_given_slots-fits team gs (slots - u8 (length g.members)) a.1,
)

pub length-invitations :
    (groups : List QueuedGroup) → length (invitations groups) ≡ total_members groups
unfolding invitations total_members
length-invitations [] = refl
length-invitations (g ∷ gs) =
    ground (arith, length-append g.members (g.leader_guid ∷ invitations gs), length-invitations gs)

no_slots :
    (team : PvpTeam) (groups : List QueuedGroup) → find_groups_for_given_slots team groups 0 ≡ []
unfolding find_groups_for_given_slots
no_slots team [] = refl
no_slots team (g ∷ gs) = refl

-- When the first group's members fill the slots exactly, the invitations are one more than the slots:
-- the search counts members without the leader, and the invitation has both.
pub find_groups_overfills :
    (team : PvpTeam) (g : QueuedGroup) (gs : List QueuedGroup) (slots : ℕ)
    → plays_for team g ≡ true
    → length g.members ≡ slots
    → 0 < slots
    → slots < 256
    → length (invitations (find_groups_for_given_slots team (g ∷ gs) slots)) ≡ slots + 1
unfolding find_groups_for_given_slots total_members
find_groups_overfills team g gs slots plays fills some_left fits =
    ground (
      arith,
      length-invitations (find_groups_for_given_slots team (g ∷ gs) slots),
      no_slots team gs,
    )
