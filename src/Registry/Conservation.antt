-- ===== src/Registry/Conservation.antt =====
-- How often a map stands in lists, bins and servers of
-- apps/servers-registry/mapbalancing/binpack/distributor.go.
use athena_wow_cluster.Prelude.{
  ℕ, zero, suc, ◌+◌, ◌≤◌, ◌<◌, ◌≡◌, refl, ap, some, List, [], ◌∷◌, ◌++◌, arith, ◌==◌, if◌then◌else◌,
  length,
}
use athena_wow_cluster.Registry.GameServer.{GameServer}
use athena_wow_cluster.Registry.Weights.{MapsWeight, keys}
use athena_wow_cluster.Registry.Packing.{
  Bin, insert_by_weight, sort_by_weight, insert_map, sort_maps, cap_weights, first_available_bin,
  add_to, take_from,
}

abbrev pub count : ℕ → List ℕ → ℕ
count id [] = 0
count id (k ∷ ks) = let later = count id ks in (if k == id then 1 else 0) + later

-- How often a map is assigned, over all servers.
abbrev pub count_assigned : ℕ → List GameServer → ℕ
count_assigned a [] = 0
count_assigned a (s ∷ ss) = count a s.assigned_maps_to_handle + count_assigned a ss

abbrev pub count_bins : ℕ → List Bin → ℕ
count_bins a [] = 0
count_bins a (b ∷ bs) = count a (keys b) + count_bins a bs

pub count-append : (id : ℕ) (ks js : List ℕ) → count id ks + count id js ≡ count id (ks ++ js)
count-append id [] js = omega arith
count-append id (k ∷ ks) js = ground (arith, count-append id ks js)

pub count_assigned-append :
    (a : ℕ) (xs ys : List GameServer)
    → count_assigned a (xs ++ ys) ≡ count_assigned a xs + count_assigned a ys
count_assigned-append a [] ys = omega arith
count_assigned-append a (x ∷ xs) ys = omega (arith, count_assigned-append a xs ys)

pub count_bins-append :
    (a : ℕ) (xs ys : List Bin) → count_bins a (xs ++ ys) ≡ count_bins a xs + count_bins a ys
count_bins-append a [] ys = omega arith
count_bins-append a (x ∷ xs) ys = omega (arith, count_bins-append a xs ys)

pub keys-append : (xs ys : Bin) → keys (xs ++ ys) ≡ keys xs ++ keys ys
keys-append [] ys = refl
keys-append ((k, v) ∷ xs) ys = rw (keys-append xs ys)

count-insert_map : (a x : ℕ) (xs : List ℕ) → count a (insert_map x xs) ≡ count a (x ∷ xs)
unfolding insert_map
count-insert_map a x [] = refl
count-insert_map a x (y ∷ ys) = ground (arith, count-insert_map a x ys)

pub count-sort_maps : (a : ℕ) (xs : List ℕ) → count a (sort_maps xs) ≡ count a xs
unfolding sort_maps
count-sort_maps a [] = refl
count-sort_maps a (x ∷ xs) =
    omega (arith, count-insert_map a x (sort_maps xs), count-sort_maps a xs)

count-insert_by_weight :
    (a : ℕ) (x : ℕ × ℕ) (xs : Bin)
    → count a (keys (insert_by_weight x xs)) ≡ count a (keys (x ∷ xs))
unfolding insert_by_weight
count-insert_by_weight a (k, v) [] = refl
count-insert_by_weight a (k, v) ((j, w) ∷ ws) = ground (arith, count-insert_by_weight a (k, v) ws)

pub count-sort_by_weight :
    (a : ℕ) (xs : Bin) → count a (keys (sort_by_weight xs)) ≡ count a (keys xs)
unfolding sort_by_weight
count-sort_by_weight a [] = refl
count-sort_by_weight a ((k, v) ∷ xs) =
    omega (arith, count-insert_by_weight a (k, v) (sort_by_weight xs), count-sort_by_weight a xs)

pub keys-cap_weights : (limit : ℕ) (ws : MapsWeight) → keys (cap_weights limit ws) ≡ keys ws
unfolding cap_weights
keys-cap_weights limit [] = refl
keys-cap_weights limit ((k, v) ∷ ws) = rw (keys-cap_weights limit ws)

pub count_bins-add_to :
    (a i : ℕ) (x : ℕ × ℕ) (bs : List Bin)
    → i < length bs
    → count_bins a (add_to i x bs) ≡ (if x.0 == a then 1 else 0) + count_bins a bs
unfolding add_to
count_bins-add_to a i x [] h = elim h [ ]
count_bins-add_to a zero (k, v) (b ∷ bs) h =
    omega (arith, ap (count a) (keys-append b ((k, v) ∷ [])), count-append a (keys b) (k ∷ []))
count_bins-add_to a (suc i) x (b ∷ bs) h = omega (arith, count_bins-add_to a i x bs (omega arith))

pub length-add_to : (i : ℕ) (x : ℕ × ℕ) (bs : List Bin) → length (add_to i x bs) ≡ length bs
unfolding add_to
length-add_to i x [] = refl
length-add_to zero x (b ∷ bs) = refl
length-add_to (suc i) x (b ∷ bs) = ap suc (length-add_to i x bs)

pub length-take_from : (i w : ℕ) (ss : List ℕ) → length (take_from i w ss) ≡ length ss
unfolding take_from
length-take_from i w [] = refl
length-take_from zero w (s ∷ ss) = refl
length-take_from (suc i) w (s ∷ ss) = ap suc (length-take_from i w ss)

pub first_available_bin-lt :
    (bs : List ℕ) (w j i : ℕ) → first_available_bin bs w j ≡ some i → (j ≤ i) × (i < j + length bs)
unfolding first_available_bin
first_available_bin-lt [] w j i e = cc
first_available_bin-lt (b ∷ bs) w j i e = ground (arith, first_available_bin-lt bs w (j + 1) i)
