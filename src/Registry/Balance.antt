-- ===== src/Registry/Balance.antt =====
-- `greedyBinPackBalancer` of apps/servers-registry/mapbalancing/binpack/distributor.go, map by map.
use athena_wow_cluster.Prelude.{
  ℕ, zero, suc, ◌+◌, ◌%◌, ◌≤◌, ◌<◌, ◌≡◌, refl, ap, inl, inr, none, some, List, [], ◌∷◌, ◌++◌, arith,
  ltb, ◌==◌, if◌then◌else◌, ltb→lt, Bool-cases, Option-cases, length, take, drop, length-append,
  sub32,
}
use athena_wow_cluster.Registry.GameServer.{GameServer}
use athena_wow_cluster.Registry.Weights.{MapsWeight, keys}
use athena_wow_cluster.Registry.Packing.{
  Bin, sort_by_weight, total_weight, ceil_div, cap_weights, first_available_bin, add_to, take_from,
  pack_one, pack_all, spread_bin, spread, fit_to_servers,
}
use athena_wow_cluster.Registry.Distributor.{assign, greedy_bin_pack_balancer}
use athena_wow_cluster.Registry.Conservation.{
  count, count_assigned, count_bins, count-append, count_bins-append, count-sort_maps,
  count-sort_by_weight, keys-cap_weights, count_bins-add_to, length-add_to, length-take_from,
  first_available_bin-lt,
}

pub pack_one-full :
    (limit : ℕ) (x : ℕ × ℕ) (states : List ℕ) (packing : List Bin)
    → first_available_bin states x.1 0 ≡ none
    → pack_one limit x (states, packing)
      ≡ (states ++ sub32 limit x.1 ∷ [], packing ++ (x ∷ []) ∷ [])
unfolding pack_one
pack_one-full limit x states packing e = rw (e, pack_one)

pub pack_one-room :
    (limit : ℕ) (x : ℕ × ℕ) (states : List ℕ) (packing : List Bin) (i : ℕ)
    → first_available_bin states x.1 0 ≡ some i
    → pack_one limit x (states, packing) ≡ (take_from i x.1 states, add_to i x packing)
unfolding pack_one
pack_one-room limit x states packing i e = rw (e, pack_one)

pack_one-keeps :
    (a limit : ℕ) (x : ℕ × ℕ) (states : List ℕ) (packing : List Bin)
    → length states ≡ length packing
    → let r = pack_one limit x (states, packing) in
      (length r.0 ≡ length r.1)
      × (count_bins a r.1 ≡ (if x.0 == a then 1 else 0) + count_bins a packing)
pack_one-keeps a limit x states packing e = elim (Option-cases (first_available_bin states x.1 0)) [
  | inl full ↦ rw (pack_one-full limit x states packing full) (
    omega
        (arith, length-append states (sub32 limit x.1 ∷ []), length-append packing ((x ∷ []) ∷ [])),
    omega (arith, count_bins-append a packing ((x ∷ []) ∷ [])),
  )
  | inr (i, room) ↦
      let low = first_available_bin-lt states x.1 0 i room in
      rw (pack_one-room limit x states packing i room) (
        omega (arith, length-take_from i x.1 states, length-add_to i x packing),
        count_bins-add_to a i x packing (omega arith),
      )
]

pack_all-keeps :
    (a limit : ℕ) (xs : Bin) (s : List ℕ × List Bin)
    → length s.0 ≡ length s.1
    → count_bins a (pack_all limit xs s).1 ≡ count a (keys xs) + count_bins a s.1
unfolding pack_all
pack_all-keeps a limit [] s e = omega arith
pack_all-keeps a limit (x ∷ xs) s e =
    let one = pack_one-keeps a limit x s.0 s.1 e in
    omega (arith, one, pack_all-keeps a limit xs (pack_one limit x s) one.0)

spread_bin-keeps :
    (a n : ℕ) (b : Bin) (s : List Bin × ℕ)
    → length s.0 ≡ n
    → s.1 < n
    → let r = spread_bin n b s in
      (count_bins a r.0 ≡ count a (keys b) + count_bins a s.0) × (length r.0 ≡ n) × (r.1 < n)
unfolding spread_bin
spread_bin-keeps a n [] s e h = omega arith
spread_bin-keeps a n (x ∷ xs) (packing, itr) e h =
    let rest =
      spread_bin-keeps a n xs (add_to itr x packing, (itr + 1) % n)
        (omega (arith, length-add_to itr x packing)) (grind arith) in
    omega (arith, rest, count_bins-add_to a itr x packing (omega arith))

spread-keeps :
    (a n : ℕ) (bs : List Bin) (s : List Bin × ℕ)
    → length s.0 ≡ n
    → s.1 < n
    → (count_bins a (spread n bs s).0 ≡ count_bins a bs + count_bins a s.0)
      × (length (spread n bs s).0 ≡ n)
unfolding spread
spread-keeps a n [] s e h = omega arith
spread-keeps a n (b ∷ bs) s e h =
    let one = spread_bin-keeps a n b s e h in
    omega (arith, one, spread-keeps a n bs (spread_bin n b s) one.1 one.2)

count_bins-take-drop :
    (a n : ℕ) (bs : List Bin)
    → count_bins a (drop n bs) + count_bins a (take n bs) ≡ count_bins a bs
count_bins-take-drop a zero bs = omega arith
count_bins-take-drop a (suc n) [] = refl
count_bins-take-drop a (suc n) (b ∷ bs) = omega (arith, count_bins-take-drop a n bs)

length-take_lt : (n : ℕ) (bs : List Bin) → n < length bs → length (take n bs) ≡ n
length-take_lt zero bs h = refl
length-take_lt (suc n) [] h = elim h [ ]
length-take_lt (suc n) (b ∷ bs) h = ap suc (length-take_lt n bs (omega arith))

fit_to_servers-keeps :
    (a n : ℕ) (packing : List Bin)
    → 0 < n
    → (count_bins a (fit_to_servers n packing) ≡ count_bins a packing)
      × (length (fit_to_servers n packing) ≤ n)
unfolding fit_to_servers
fit_to_servers-keeps a n packing h = elim (Bool-cases (ltb n (length packing))) [
  | inl over ↦
      let few = length-take_lt n packing (ltb→lt n (length packing) over) in
      rw over (
        omega (
          arith,
          spread-keeps a n (drop n packing) (take n packing, 0) few h,
          count_bins-take-drop a n packing,
        ))
  | inr fits ↦ rw fits (refl, ground arith)
]

count_assigned-assign :
    (a : ℕ) (bins : List Bin) (ss : List GameServer)
    → length bins ≤ length ss
    → count_assigned a (assign bins ss) ≡ count_bins a bins + count_assigned a ss
unfolding assign
count_assigned-assign a [] [] h = refl
count_assigned-assign a (b ∷ bs) [] h = elim h [ ]
count_assigned-assign a [] (s ∷ ss) h = omega (
  arith,
  count-sort_maps a s.assigned_maps_to_handle,
  count_assigned-assign a [] ss (omega arith),
)
count_assigned-assign a (b ∷ bs) (s ∷ ss) h = omega (
  arith,
  count-sort_maps a (s.assigned_maps_to_handle ++ keys b),
  count-append a s.assigned_maps_to_handle (keys b),
  count_assigned-assign a bs ss (omega arith),
)

-- The greedy balancer gives each map of the weights to the servers as often as the weights list it.
pub count_assigned-greedy :
    (a : ℕ) (weights : MapsWeight) (servers : List GameServer)
    → 0 < length servers
    → count_assigned a (greedy_bin_pack_balancer weights servers)
      ≡ count a (keys weights) + count_assigned a servers
unfolding greedy_bin_pack_balancer
count_assigned-greedy a weights servers h =
    let limit = ceil_div (total_weight 0 weights) (length servers) in
    let packed = pack_all limit (sort_by_weight (cap_weights limit weights)) ([], []) in
    let fit = fit_to_servers-keeps a (length servers) packed.1 h in
    omega (
      arith,
      fit,
      count_assigned-assign a (fit_to_servers (length servers) packed.1) servers fit.1,
      pack_all-keeps a limit (sort_by_weight (cap_weights limit weights)) ([], []) refl,
      count-sort_by_weight a (cap_weights limit weights),
      ap (count a) (keys-cap_weights limit weights),
    )
