-- ===== src/Matchmaking/Balanced.antt =====
-- `balancedGroups` of apps/matchmakingserver/service/battleground-queue.go: the sides that it picks.
use athena_wow_cluster.Prelude.{
  ℕ, ◌+◌, ◌≤◌, ◌≡◌, refl, ◌⊎◌, inl, Bool, true, false, List, [], ◌∷◌, ◌++◌, arith, leb, length,
  filter, if◌then◌else◌, All, All-append,
}
use athena_wow_cluster.Matchmaking.Battleground.{PvpTeam, team_alliance, team_horde, QueuedGroup}
use athena_wow_cluster.Matchmaking.Selection.{
  distance, total_members, Best, backtrack, find_best_groups, insert_group, sort_groups, plays_for,
  remove_leader, remove_leaders, rebalance, balanced_groups,
}

total_members-append :
    (xs ys : List QueuedGroup) → total_members (xs ++ ys) ≡ total_members xs + total_members ys
unfolding total_members
total_members-append [] ys = omega arith
total_members-append (x ∷ xs) ys = omega (arith, total_members-append xs ys)

total_members-one : (g : QueuedGroup) → total_members (g ∷ []) ≡ length g.members + 1
unfolding total_members
total_members-one g = omega arith

either : {A : Type 0} (Q : A → Type 0) (b : Bool) {x y : A} → Q x → Q y → Q (if b then x else y)
either Q true qx qy = qx
either Q false qx qy = qy

-- No group, or a number of players within the bounds.
abbrev pub InBounds : ℕ → ℕ → List QueuedGroup → Type 0
InBounds least most groups =
    (groups ≡ []) ⊎ ((least ≤ total_members groups) × (total_members groups ≤ most))

module _ (least most : ℕ) (P : QueuedGroup → Type 0) where
  backtrack-InBounds :
      (gs current : List QueuedGroup) (total diff : ℕ) (b : Best)
      → total ≡ total_members current
      → All P current
      → All P gs
      → InBounds least most b.best × All P b.best
      → InBounds least most (backtrack least most gs current total diff b).best
        × All P (backtrack least most gs current total diff b).best
  unfolding backtrack
  backtrack-InBounds [] current total diff b e pc pg h = ground arith
  backtrack-InBounds (g ∷ gs) current total diff b e pc pg h =
      let more = total + length g.members + 1 in
      backtrack-InBounds gs current total diff _ e pc pg.1 (
        either (λ (c : Best). InBounds least most c.best × All P c.best)
          (leb (distance more most) b.best_diff)
          (backtrack-InBounds gs (current ++ g ∷ []) more (distance more most) b
            (omega (arith, e, total_members-append current (g ∷ []), total_members-one g))
            (All-append P current (g ∷ []) pc (pg.0, tt)) pg.1 h)
          h)

  find_best_groups-InBounds :
      (gs : List QueuedGroup)
      → All P gs
      → InBounds least most (find_best_groups gs least most)
        × All P (find_best_groups gs least most)
  unfolding find_best_groups total_members
  find_best_groups-InBounds gs pg =
      backtrack-InBounds gs [] 0 most (record { best = []; best_total = 0; best_diff = most }) refl
        tt pg (inl refl, tt)

insert_group-All :
    (P : QueuedGroup → Type 0) (g : QueuedGroup) (gs : List QueuedGroup)
    → P g
    → All P gs
    → All P (insert_group g gs)
unfolding insert_group
insert_group-All P g [] p a = (p, tt)
insert_group-All P g (h ∷ hs) p a = ground (arith, insert_group-All P g hs p a.1)

sort_groups-All :
    (P : QueuedGroup → Type 0) (gs : List QueuedGroup) → All P gs → All P (sort_groups gs)
unfolding sort_groups
sort_groups-All P [] a = tt
sort_groups-All P (g ∷ gs) a = insert_group-All P g (sort_groups gs) a.0 (sort_groups-All P gs a.1)

filter-plays_for :
    (team : PvpTeam) (gs : List QueuedGroup)
    → All (λ g. plays_for team g ≡ true) (filter (plays_for team) gs)
filter-plays_for team [] = tt
filter-plays_for team (g ∷ gs) = ground (arith, filter-plays_for team gs)

remove_leader-All :
    (P : QueuedGroup → Type 0) (hs : List QueuedGroup) (g : QueuedGroup)
    → All P hs
    → All P (remove_leader hs g)
unfolding remove_leader
remove_leader-All P [] g a = tt
remove_leader-All P (h ∷ hs) g a = ground (arith, remove_leader-All P hs g a.1)

remove_leaders-All :
    (P : QueuedGroup → Type 0) (hs gs : List QueuedGroup) → All P hs → All P (remove_leaders hs gs)
unfolding remove_leaders
remove_leaders-All P hs [] a = a
remove_leaders-All P hs (g ∷ gs) a =
    remove_leaders-All P (remove_leader hs g) gs (remove_leader-All P hs g a)

total_members-none : total_members [] ≡ 0
unfolding total_members
total_members-none = refl

rebalance-InBounds :
    (least most : ℕ) (P Q : QueuedGroup → Type 0)
    (alliance horde best_alliance best_horde : List QueuedGroup)
    → All P alliance
    → All Q horde
    → InBounds least most best_alliance × All P best_alliance
    → InBounds least most best_horde × All Q best_horde
    → let r = rebalance least alliance horde best_alliance best_horde in
      (InBounds least most r.0 × All P r.0) × (InBounds least most r.1 × All Q r.1)
unfolding rebalance
rebalance-InBounds least most P Q alliance horde best_alliance best_horde pa qh a h = ground (
  arith,
  find_best_groups-InBounds least (total_members best_alliance + 1) Q horde qh,
  find_best_groups-InBounds least (total_members best_horde + 1) P alliance pa,
  total_members-none,
)

-- Each side of a match is empty or has a number of players within the bounds, leaders counted on top of
-- members, and each of its groups plays for that side or for any.
pub balanced_groups-InBounds :
    (queued : List QueuedGroup) (least most : ℕ)
    → let r = balanced_groups queued least most in
      (InBounds least most r.0 × All (λ g. plays_for team_alliance g ≡ true) r.0)
      × (InBounds least most r.1 × All (λ g. plays_for team_horde g ≡ true) r.1)
unfolding balanced_groups
balanced_groups-InBounds queued least most =
    rebalance-InBounds least most A H alliance horde best_alliance _ alliance-All horde-All
      (find_best_groups-InBounds least most A alliance alliance-All)
      (find_best_groups-InBounds least most H horde horde-All)
  where
    A : QueuedGroup → Type 0
    A g = plays_for team_alliance g ≡ true

    H : QueuedGroup → Type 0
    H g = plays_for team_horde g ≡ true

    alliance : List QueuedGroup
    alliance = sort_groups (filter (plays_for team_alliance) queued)

    best_alliance : List QueuedGroup
    best_alliance = find_best_groups alliance least most

    horde : List QueuedGroup
    horde = remove_leaders (sort_groups (filter (plays_for team_horde) queued)) best_alliance

    alliance-All : All A alliance
    alliance-All = sort_groups-All A _ (filter-plays_for team_alliance queued)

    horde-All : All H horde
    horde-All =
        remove_leaders-All H _ best_alliance
          (sort_groups-All H _ (filter-plays_for team_horde queued))
