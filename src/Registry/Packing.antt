-- ===== src/Registry/Packing.antt =====
-- apps/servers-registry/mapbalancing/binpack/distributor.go: the greedy packing of maps into bins.
-- `sort.Slice` may order equal elements in any way; the model's sort keeps them in place.
use athena_wow_cluster.Prelude.{
  ℕ, zero, suc, ◌+◌, ◌-◌, ◌/◌, ◌%◌, Option, none, some, List, [], ◌∷◌, ◌++◌, ltb, leb,
  if◌then◌else◌, length, take, drop, add32, sub32,
}
use athena_wow_cluster.Registry.Weights.{MapsWeight}

-- A `mapIDWeight` is a pair of a map ID and a weight.
abbrev pub Bin : Type 0
Bin = List (ℕ × ℕ)

-- `sort.Slice` by falling weight.
unfoldable pub insert_by_weight : ℕ × ℕ → Bin → Bin
insert_by_weight (k, v) [] = (k, v) ∷ []
insert_by_weight (k, v) ((j, w) ∷ ws) =
    let rest = insert_by_weight (k, v) ws in if ltb v w then (j, w) ∷ rest else (k, v) ∷ (j, w) ∷ ws

unfoldable pub sort_by_weight : Bin → Bin
unfolding insert_by_weight
sort_by_weight [] = []
sort_by_weight (x ∷ xs) = insert_by_weight x (sort_by_weight xs)

-- `sort.Slice` by rising map ID.
unfoldable pub insert_map : ℕ → List ℕ → List ℕ
insert_map x [] = x ∷ []
insert_map x (y ∷ ys) = let rest = insert_map x ys in if ltb y x then y ∷ rest else x ∷ y ∷ ys

unfoldable pub sort_maps : List ℕ → List ℕ
unfolding insert_map
sort_maps [] = []
sort_maps (x ∷ xs) = insert_map x (sort_maps xs)

-- The sum of the weights, on uint32.
unfoldable pub total_weight : ℕ → MapsWeight → ℕ
total_weight acc [] = acc
total_weight acc ((k, v) ∷ ws) = total_weight (add32 acc v) ws

-- `math.Ceil(float64(total) / float64(n))`: the quotient of two uint32 is never rounded onto an
-- integer that it is not.
abbrev pub ceil_div : ℕ → ℕ → ℕ
ceil_div total n = (total + n - 1) / n

-- A weight above the share of one server is cut to it.
unfoldable pub cap_weights : ℕ → MapsWeight → MapsWeight
cap_weights limit [] = []
cap_weights limit ((k, v) ∷ ws) = (k, if ltb limit v then limit else v) ∷ cap_weights limit ws

-- The index of the first bin with room, counted from `i`; `none` is -1.
unfoldable pub first_available_bin : List ℕ → ℕ → ℕ → Option ℕ
first_available_bin [] weight i = none
first_available_bin (b ∷ bs) weight i =
    if leb weight b then some i else first_available_bin bs weight (i + 1)

unfoldable pub add_to : ℕ → ℕ × ℕ → List Bin → List Bin
add_to i x [] = []
add_to zero x (b ∷ bs) = (b ++ x ∷ []) ∷ bs
add_to (suc i) x (b ∷ bs) = b ∷ add_to i x bs

unfoldable pub take_from : ℕ → ℕ → List ℕ → List ℕ
take_from i weight [] = []
take_from zero weight (s ∷ ss) = sub32 s weight ∷ ss
take_from (suc i) weight (s ∷ ss) = s ∷ take_from i weight ss

-- One round of the packing loop: `limit` is `weightPerServer`.
unfoldable pub pack_one : ℕ → ℕ × ℕ → List ℕ × List Bin → List ℕ × List Bin
pack_one limit x (states, packing) = elim (first_available_bin states x.1 0) [
  | some i ↦ (take_from i x.1 states, add_to i x packing)
  | none ↦ (states ++ sub32 limit x.1 ∷ [], packing ++ (x ∷ []) ∷ [])
]

unfoldable pub pack_all : ℕ → Bin → List ℕ × List Bin → List ℕ × List Bin
unfolding pack_one
pack_all limit [] s = s
pack_all limit (x ∷ xs) s = pack_all limit xs (pack_one limit x s)

-- The surplus bins' maps go round the servers, from `itr` on.
unfoldable pub spread_bin : ℕ → Bin → List Bin × ℕ → List Bin × ℕ
spread_bin n [] s = s
spread_bin n (x ∷ xs) (packing, itr) = spread_bin n xs (add_to itr x packing, (itr + 1) % n)

unfoldable pub spread : ℕ → List Bin → List Bin × ℕ → List Bin × ℕ
unfolding spread_bin
spread n [] s = s
spread n (b ∷ bs) s = spread n bs (spread_bin n b s)

unfoldable pub fit_to_servers : ℕ → List Bin → List Bin
unfolding spread
fit_to_servers n packing =
    if ltb n (length packing) then (spread n (drop n packing) (take n packing, 0)).0 else packing
