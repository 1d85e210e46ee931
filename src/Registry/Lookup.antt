-- ===== src/Registry/Lookup.antt =====
-- `CanHandleMap` of apps/servers-registry/repo/game-server.go: the binary search over the assigned maps.
use athena_wow_cluster.Prelude.{
  ℕ, zero, suc, ◌+◌, ◌-◌, ◌/◌, ◌≤◌, ◌<◌, ◌≡◌, inl, inr, true, not, ◌&&◌, List, [], ◌∷◌, arith, ltb,
  leb, ◌==◌, Bool-cases, All, length,
}
use athena_wow_cluster.Registry.GameServer.{
  GameServer, get_or_zero, search_from, search_ge, contains_map, can_handle_map,
}
use athena_wow_cluster.Registry.Packing.{insert_map, sort_maps}

-- Each map ID is at most the ones behind it.
abbrev pub IsSorted : List ℕ → Type 0
IsSorted [] = Unit {0}
IsSorted (x ∷ xs) = All (λ y. x ≤ y) xs × IsSorted xs

All-get_or_zero :
    (x : ℕ) (xs : List ℕ) (i : ℕ) → All (λ y. x ≤ y) xs → i < length xs → x ≤ get_or_zero xs i
All-get_or_zero x [] i a h = elim h [ ]
All-get_or_zero x (y ∷ ys) zero a h = a.0
All-get_or_zero x (y ∷ ys) (suc i) a h = All-get_or_zero x ys i a.1 (omega arith)

get_or_zero_mono :
    (xs : List ℕ) (i j : ℕ)
    → IsSorted xs
    → i ≤ j
    → j < length xs
    → get_or_zero xs i ≤ get_or_zero xs j
get_or_zero_mono [] i j s h k = elim k [ ]
get_or_zero_mono (x ∷ xs) zero zero s h k = omega arith
get_or_zero_mono (x ∷ xs) zero (suc j) s h k = All-get_or_zero x xs j s.0 (omega arith)
get_or_zero_mono (x ∷ xs) (suc i) zero s h k = elim h [ ]
get_or_zero_mono (x ∷ xs) (suc i) (suc j) s h k =
    get_or_zero_mono xs i j s.1 (omega arith) (omega arith)

-- All before `r` is below `id`, and nothing from `r` on is.
abbrev Splits : List ℕ → ℕ → ℕ → Type 0
Splits xs id r =
    (r ≤ length xs)
    × ((k : ℕ) → k < r → get_or_zero xs k < id)
    × ((k : ℕ) → r ≤ k → k < length xs → id ≤ get_or_zero xs k)

search_from-Splits :
    (fuel : ℕ) (xs : List ℕ) (id lo hi : ℕ)
    → IsSorted xs
    → hi - lo ≤ fuel
    → lo ≤ hi
    → hi ≤ length xs
    → ((k : ℕ) → k < lo → get_or_zero xs k < id)
    → ((k : ℕ) → hi ≤ k → k < length xs → id ≤ get_or_zero xs k)
    → Splits xs id (search_from fuel xs id lo hi)
unfolding search_from
search_from-Splits zero xs id lo hi s f o h below above =
    (omega arith, below, λ k a b. above k (omega arith) b)
search_from-Splits (suc fuel) xs id lo hi s f o h below above = elim (Bool-cases (ltb lo hi)) [
  | inr done ↦ rw done (omega arith, below, λ k a b. above k (ground arith) b)
  | inl more ↦ elim (Bool-cases (leb id (get_or_zero xs ((lo + hi) / 2)))) [
    | inl left ↦
        rw (more, left)
          (search_from-Splits fuel xs id lo ((lo + hi) / 2) s (ground arith) (ground arith)
            (ground arith) below
            (λ k a b. ground (arith, get_or_zero_mono xs ((lo + hi) / 2) k s a b)))
    | inr right ↦
        rw (more, right)
          (search_from-Splits fuel xs id ((lo + hi) / 2 + 1) hi s (ground arith) (ground arith) h
            (λ k a. ground (arith, get_or_zero_mono xs k ((lo + hi) / 2) s)) above)
  ]
]

contains_map-get : (xs : List ℕ) (i : ℕ) → i < length xs → contains_map xs (get_or_zero xs i) ≡ true
unfolding contains_map
contains_map-get [] i h = elim h [ ]
contains_map-get (x ∷ xs) zero h = ground arith
contains_map-get (x ∷ xs) (suc i) h = ground (arith, contains_map-get xs i)

get-contains_map :
    (xs : List ℕ) (id : ℕ)
    → contains_map xs id ≡ true
    → (i : ℕ) × (i < length xs) × (get_or_zero xs i ≡ id)
unfolding contains_map
get-contains_map [] id e = cc
get-contains_map (x ∷ xs) id e = elim (Bool-cases (x == id)) [
  | inl hit ↦ (0, omega arith, ground arith)
  | inr miss ↦
      let rest = get-contains_map xs id (ground arith) in
      (suc rest.0, omega (arith, rest.1), rest.2)
]

search_ge-Splits : (xs : List ℕ) (id : ℕ) → IsSorted xs → Splits xs id (search_ge xs id)
unfolding search_ge
search_ge-Splits xs id s =
    search_from-Splits (length xs) xs id 0 (length xs) s (omega arith) (omega arith) (omega arith)
      (λ k a. absurd (omega arith)) (λ k a b. absurd (omega arith))

found_iff :
    (xs : List ℕ) (id r : ℕ)
    → IsSorted xs
    → Splits xs id r
    → (ltb r (length xs) && get_or_zero xs r == id) ≡ contains_map xs id
found_iff xs id r s (bound, below, above) = elim (Bool-cases (contains_map xs id)) [
  | inl there ↦
      let at = get-contains_map xs id there in
      ground (arith, below at.0, above r, get_or_zero_mono xs r at.0 s, at, there)
  | inr missing ↦ ground (arith, contains_map-get xs r)
]

-- A server whose assigned maps are sorted handles exactly the maps that are assigned to it and not
-- pending.
pub can_handle_map_lem :
    (g : GameServer) (id : ℕ)
    → IsSorted g.assigned_maps_to_handle
    → can_handle_map g id ≡ (
        contains_map g.assigned_maps_to_handle id
        && not (contains_map g.assigned_but_pending_maps id))
unfolding can_handle_map
can_handle_map_lem g id s = ground (
  arith,
  found_iff g.assigned_maps_to_handle id (search_ge g.assigned_maps_to_handle id) s
      (search_ge-Splits g.assigned_maps_to_handle id s),
)

insert_map-All :
    (b x : ℕ) (xs : List ℕ) → b ≤ x → All (λ y. b ≤ y) xs → All (λ y. b ≤ y) (insert_map x xs)
unfolding insert_map
insert_map-All b x [] h a = (h, tt)
insert_map-All b x (y ∷ ys) h a = ground (arith, insert_map-All b x ys h a.1)

All-weaken : (a b : ℕ) (xs : List ℕ) → a ≤ b → All (λ y. b ≤ y) xs → All (λ y. a ≤ y) xs
All-weaken a b [] h p = tt
All-weaken a b (x ∷ xs) h p = (omega arith, All-weaken a b xs h p.1)

insert_map-IsSorted : (x : ℕ) (xs : List ℕ) → IsSorted xs → IsSorted (insert_map x xs)
unfolding insert_map
insert_map-IsSorted x [] s = (tt, tt)
insert_map-IsSorted x (y ∷ ys) s =
    ground (arith, insert_map-IsSorted x ys s.1, insert_map-All y x ys, All-weaken x y ys)

pub sort_maps-IsSorted : (xs : List ℕ) → IsSorted (sort_maps xs)
unfolding sort_maps
sort_maps-IsSorted [] = tt
sort_maps-IsSorted (x ∷ xs) = insert_map-IsSorted x (sort_maps xs) (sort_maps-IsSorted xs)
