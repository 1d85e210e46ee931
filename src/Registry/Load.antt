-- ===== src/Registry/Load.antt =====
-- The weights in the bins of the packing loop of
-- apps/servers-registry/mapbalancing/binpack/distributor.go.
use athena_wow_cluster.Prelude.{
  ℕ, zero, suc, ◌+◌, ◌≤◌, ◌<◌, ◌≡◌, sym, subst, inl, inr, some, List, [], ◌∷◌, ◌++◌, arith, leb,
  Bool-cases, Option-cases, All, u32_mod, sub32,
}
use athena_wow_cluster.Registry.Weights.{MapsWeight}
use athena_wow_cluster.Registry.Packing.{
  Bin, cap_weights, sort_by_weight, insert_by_weight, first_available_bin, add_to, take_from,
  pack_one, pack_all,
}
use athena_wow_cluster.Registry.Balance.{pack_one-full, pack_one-room}

abbrev pub weight_sum : Bin → ℕ
weight_sum [] = 0
weight_sum ((k, v) ∷ xs) = v + weight_sum xs

-- Each state is the room that its bin has left.
abbrev Rooms : ℕ → List ℕ → List Bin → Type 0
Rooms limit [] [] = Unit {0}
Rooms limit [] (b ∷ bs) = ⊥
Rooms limit (s ∷ ss) [] = ⊥
Rooms limit (s ∷ ss) (b ∷ bs) = (s + weight_sum b ≡ limit) × Rooms limit ss bs

weight_sum-append : (xs ys : Bin) → weight_sum (xs ++ ys) ≡ weight_sum xs + weight_sum ys
weight_sum-append [] ys = omega arith
weight_sum-append ((k, v) ∷ xs) ys = omega (arith, weight_sum-append xs ys)

Rooms-append :
    (limit : ℕ) (ss : List ℕ) (bs : List Bin) (s : ℕ) (b : Bin)
    → Rooms limit ss bs
    → s + weight_sum b ≡ limit
    → Rooms limit (ss ++ s ∷ []) (bs ++ b ∷ [])
Rooms-append limit [] [] s b r e = (e, tt)
Rooms-append limit [] (c ∷ bs) s b r e = elim r [ ]
Rooms-append limit (t ∷ ss) [] s b r e = elim r [ ]
Rooms-append limit (t ∷ ss) (c ∷ bs) s b r e = (r.0, Rooms-append limit ss bs s b r.1 e)

first_available_bin-ge : (ss : List ℕ) (w j i : ℕ) → first_available_bin ss w j ≡ some i → j ≤ i
unfolding first_available_bin
first_available_bin-ge [] w j i e = cc
first_available_bin-ge (s ∷ ss) w j i e = ground (arith, first_available_bin-ge ss w (j + 1) i)

Rooms-add_to :
    (limit j i w k : ℕ) (ss : List ℕ) (bs : List Bin)
    → limit < u32_mod
    → Rooms limit ss bs
    → first_available_bin ss w j ≡ some (j + i)
    → Rooms limit (take_from i w ss) (add_to i (k, w) bs)
unfolding take_from add_to first_available_bin
Rooms-add_to limit j i w k [] bs h r e = cc
Rooms-add_to limit j i w k (s ∷ ss) [] h r e = elim r [ ]
Rooms-add_to limit j zero w k (s ∷ ss) (b ∷ bs) h r e = elim (Bool-cases (leb w s)) [
  | inl room ↦ (ground (arith, weight_sum-append b ((k, w) ∷ [])), r.1)
  | inr full ↦ absurd (ground (arith, first_available_bin-ge ss w (j + 1) (j + 0)))
]
Rooms-add_to limit j (suc i) w k (s ∷ ss) (b ∷ bs) h r e = elim (Bool-cases (leb w s)) [
  | inl room ↦ absurd (ground arith)
  | inr full ↦ (r.0, Rooms-add_to limit (j + 1) i w k ss bs h r.1 (ground arith))
]

pack_all-Rooms-step :
    (limit : ℕ) (x : ℕ × ℕ) (xs : Bin) (states : List ℕ) (packing : List Bin) (states' : List ℕ)
    (packing' : List Bin)
    → pack_one limit x (states, packing) ≡ (states', packing')
    → (let r = pack_all limit xs (states', packing') in Rooms limit r.0 r.1)
    → let r = pack_all limit (x ∷ xs) (states, packing) in Rooms limit r.0 r.1
unfolding pack_all
pack_all-Rooms-step limit x xs states packing states' packing' e h =
    subst (λ s. Rooms limit (pack_all limit xs s).0 (pack_all limit xs s).1) (sym e) h

pack_all-Rooms :
    (limit : ℕ) (xs : Bin) (states : List ℕ) (packing : List Bin)
    → limit < u32_mod
    → All (λ (x : ℕ × ℕ). x.1 ≤ limit) xs
    → Rooms limit states packing
    → let r = pack_all limit xs (states, packing) in Rooms limit r.0 r.1
unfolding pack_all
pack_all-Rooms limit [] states packing h a r = r
pack_all-Rooms limit ((k, w) ∷ xs) states packing h a r =
    elim (Option-cases (first_available_bin states w 0)) [
      | inl full ↦
          pack_all-Rooms-step limit (k, w) xs states packing _ _
            (pack_one-full limit (k, w) states packing full)
            (pack_all-Rooms limit xs (states ++ sub32 limit w ∷ []) (packing ++ ((k, w) ∷ []) ∷ [])
              h a.1
              (Rooms-append limit states packing (sub32 limit w) ((k, w) ∷ []) r
                (omega (arith, a.0))))
      | inr (i, room) ↦
          pack_all-Rooms-step limit (k, w) xs states packing _ _
            (pack_one-room limit (k, w) states packing i room)
            (pack_all-Rooms limit xs (take_from i w states) (add_to i (k, w) packing) h a.1
              (Rooms-add_to limit 0 i w k states packing h r (ground arith)))
    ]

Rooms-within :
    (limit : ℕ) (ss : List ℕ) (bs : List Bin)
    → Rooms limit ss bs
    → All (λ b. weight_sum b ≤ limit) bs
Rooms-within limit [] [] r = tt
Rooms-within limit [] (b ∷ bs) r = elim r [ ]
Rooms-within limit (s ∷ ss) [] r = elim r [ ]
Rooms-within limit (s ∷ ss) (b ∷ bs) r = (omega arith, Rooms-within limit ss bs r.1)

cap_weights-within :
    (limit : ℕ) (ws : MapsWeight) → All (λ (x : ℕ × ℕ). x.1 ≤ limit) (cap_weights limit ws)
unfolding cap_weights
cap_weights-within limit [] = tt
cap_weights-within limit ((k, v) ∷ ws) = (ground arith, cap_weights-within limit ws)

insert_by_weight-within :
    (limit : ℕ) (x : ℕ × ℕ) (ws : Bin)
    → x.1 ≤ limit
    → All (λ (x : ℕ × ℕ). x.1 ≤ limit) ws
    → All (λ (x : ℕ × ℕ). x.1 ≤ limit) (insert_by_weight x ws)
unfolding insert_by_weight
insert_by_weight-within limit (k, v) [] h a = (h, tt)
insert_by_weight-within limit (k, v) ((j, w) ∷ ws) h a =
    ground (arith, insert_by_weight-within limit (k, v) ws h a.1)

sort_by_weight-within :
    (limit : ℕ) (ws : Bin)
    → All (λ (x : ℕ × ℕ). x.1 ≤ limit) ws
    → All (λ (x : ℕ × ℕ). x.1 ≤ limit) (sort_by_weight ws)
unfolding sort_by_weight
sort_by_weight-within limit [] a = tt
sort_by_weight-within limit (x ∷ ws) a =
    insert_by_weight-within limit x (sort_by_weight ws) a.0 (sort_by_weight-within limit ws a.1)

-- Whatever the weights are, the packing loop fills no bin above the share of one server, once each
-- weight is cut to that share.
pub pack_all-within :
    (limit : ℕ) (weights : MapsWeight)
    → limit < u32_mod
    → All
        (λ b. weight_sum b ≤ limit)
        (pack_all limit (sort_by_weight (cap_weights limit weights)) ([], [])).1
pack_all-within limit weights h =
    Rooms-within limit (pack_all limit (sort_by_weight (cap_weights limit weights)) ([], [])).0 _ (
      pack_all-Rooms limit (sort_by_weight (cap_weights limit weights)) [] [] h
        (sort_by_weight-within limit (cap_weights limit weights) (cap_weights-within limit weights))
        tt)
