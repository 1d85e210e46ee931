-- ===== src/Registry/Identity.antt =====
-- `Distribute` of apps/servers-registry/mapbalancing/binpack/distributor.go keeps the IDs of the servers
-- apart.
use Prim.Native.String.{String}
use text.Mathlib.Text.{◌==◌}
use text.Mathlib.TextPositions.{eq_refl}
use text.Mathlib.TextEquality.{eq_iff}
use athena_wow_cluster.Prelude.{
  ◌≡◌, sym, subst, false, List, [], ◌∷◌, ◌++◌, inl, inr, Bool-cases, arith, All, All-append,
}
use athena_wow_cluster.Registry.GameServer.{GameServer, is_all_maps_available}
use athena_wow_cluster.Registry.Weights.{MapsWeight}
use athena_wow_cluster.Registry.Distributor.{cleanup, distribute}
use athena_wow_cluster.Registry.Distribution.{own_servers, open_servers, distribute_lem}

abbrev pub Other : String → List GameServer → Type 0
Other id ss = All (λ (t : GameServer). (id == t.id) ≡ false) ss

-- No two servers have the same ID.
abbrev pub DistinctIds : List GameServer → Type 0
DistinctIds [] = Unit
DistinctIds (s ∷ ss) = Other s.id ss × DistinctIds ss

-- No server of the one list has the ID of a server of the other.
abbrev Apart : List GameServer → List GameServer → Type 0
Apart ss ts = All (λ (s : GameServer). Other s.id ts) ss

eq_sym : (a b : String) → (a == b) ≡ false → (b == a) ≡ false
eq_sym a b e = elim (Bool-cases (b == a)) [
  | inl t ↦
      let same : b ≡ a = (eq_iff b a).0 t in absurd (differ (subst (λ x. (a == x) ≡ false) same e))
  | inr f ↦ f
]
  where
    differ : (a == a) ≡ false → ⊥
    differ f = ground (arith, eq_refl a)

module _ (id : String) where
  own_servers-Other : (ss : List GameServer) → Other id ss → Other id (own_servers ss)
  unfolding own_servers
  own_servers-Other [] o = tt
  own_servers-Other (s ∷ ss) o = elim (Bool-cases (is_all_maps_available s)) [
    | inl every ↦ rw every (own_servers-Other ss o.1)
    | inr own ↦ rw own (o.0, own_servers-Other ss o.1)
  ]

  open_servers-Other : (ss : List GameServer) → Other id ss → Other id (open_servers ss)
  open_servers-Other [] o = tt
  open_servers-Other (s ∷ ss) o = elim (Bool-cases (is_all_maps_available s)) [
    | inl every ↦ rw every (o.0, open_servers-Other ss o.1)
    | inr own ↦ rw own (open_servers-Other ss o.1)
  ]

  cleanup-Other : (ss : List GameServer) → Other id ss → Other id (cleanup ss)
  unfolding cleanup
  cleanup-Other [] o = tt
  cleanup-Other (s ∷ ss) o = (o.0, cleanup-Other ss o.1)

  Other-cleanup : (ss : List GameServer) → Other id (cleanup ss) → Other id ss
  unfolding cleanup
  Other-cleanup [] o = tt
  Other-cleanup (s ∷ ss) o = (o.0, Other-cleanup ss o.1)

  -- The same servers, but for their assigned maps.
  same_servers-Other :
      (ss ts : List GameServer) → cleanup ts ≡ cleanup ss → Other id ss → Other id ts
  same_servers-Other ss ts e o = Other-cleanup ts (subst (Other id) (sym e) (cleanup-Other ss o))

cleanup-DistinctIds : (ss : List GameServer) → DistinctIds ss → DistinctIds (cleanup ss)
unfolding cleanup
cleanup-DistinctIds [] d = tt
cleanup-DistinctIds (s ∷ ss) d = (cleanup-Other s.id ss d.0, cleanup-DistinctIds ss d.1)

DistinctIds-cleanup : (ss : List GameServer) → DistinctIds (cleanup ss) → DistinctIds ss
unfolding cleanup
DistinctIds-cleanup [] d = tt
DistinctIds-cleanup (s ∷ ss) d = (Other-cleanup s.id ss d.0, DistinctIds-cleanup ss d.1)

-- One more server that is open.
one_more_open :
    (s : GameServer) (ss ts : List GameServer) → Other s.id ss → Apart ss ts → Apart ss (s ∷ ts)
one_more_open s [] ts o a = tt
one_more_open s (t ∷ ss) ts o a = ((eq_sym s.id t.id o.0, a.0), one_more_open s ss ts o.1 a.1)

parts-DistinctIds :
    (ss : List GameServer)
    → DistinctIds ss
    → DistinctIds (own_servers ss)
      × DistinctIds (open_servers ss)
      × Apart (own_servers ss) (open_servers ss)
unfolding own_servers
parts-DistinctIds [] d = (tt, tt, tt)
parts-DistinctIds (s ∷ ss) d =
    let (own, opened, apart) = parts-DistinctIds ss d.1 in
    elim (Bool-cases (is_all_maps_available s)) [
      | inl e ↦ rw e (
        own,
        (open_servers-Other s.id ss d.0, opened),
        one_more_open s (own_servers ss) (open_servers ss) (own_servers-Other s.id ss d.0) apart,
      )
      | inr e ↦
          rw e
            ((own_servers-Other s.id ss d.0, own), opened, (open_servers-Other s.id ss d.0, apart))
    ]

append-DistinctIds :
    (ss ts : List GameServer)
    → DistinctIds ss
    → DistinctIds ts
    → Apart ss ts
    → DistinctIds (ss ++ ts)
append-DistinctIds [] ts d f a = f
append-DistinctIds (s ∷ ss) ts d f a =
    (All-append _ ss ts d.0 a.0, append-DistinctIds ss ts d.1 f a.1)

same_servers-Apart :
    (rs ss ts : List GameServer) → cleanup ts ≡ cleanup ss → Apart rs ss → Apart rs ts
same_servers-Apart [] ss ts e a = tt
same_servers-Apart (r ∷ rs) ss ts e a =
    (same_servers-Other r.id ss ts e a.0, same_servers-Apart rs ss ts e a.1)

pub distribute-DistinctIds :
    (weights : MapsWeight) (ss : List GameServer)
    → DistinctIds ss
    → DistinctIds (distribute weights ss)
distribute-DistinctIds weights ss d =
    let (shared, whole, placed) = distribute_lem weights ss in
    let (own, opened, apart) = parts-DistinctIds ss d in
    subst DistinctIds (sym whole) (
      append-DistinctIds (own_servers ss) shared own
        (DistinctIds-cleanup shared (
          subst DistinctIds (sym placed.same_servers)
            (cleanup-DistinctIds (open_servers ss) opened)))
        (same_servers-Apart (own_servers ss) (open_servers ss) shared placed.same_servers apart))
