-- ===== src/Registry/Choice.antt =====
-- apps/servers-registry/service/gateway-server.go: which gateway a realm gets.
use athena_wow_cluster.Prelude.{
  ℕ, ◌≡◌, ◌≤◌, inl, inr, ◌==◌, refl, subst, Bool, ltb, true, false, Option, none, some, List, [],
  ◌∷◌, filter, All, Any, arith, Bool-cases,
}
use athena_wow_cluster.Registry.Gateways.{
  GatewayServer, GatewayRepo, insert_gateway, sort_gateways, first, gateways_for_realm,
  gateway_for_realm,
}

-- An order of a list has the same entries.
pub record IsOrder (order : List GatewayServer → List GatewayServer) : Type 1 where
  pub any : (P : GatewayServer → Type 0) (gs : List GatewayServer) → Any P (order gs) → Any P gs
  pub all : (P : GatewayServer → Type 0) (gs : List GatewayServer) → All P (order gs) → All P gs

-- A gateway of the realm with the fewest connections, or none for a realm without gateways.
abbrev pub IsChoice : ℕ → List GatewayServer → Option GatewayServer → Type 0
IsChoice realm gs none = All (λ h. (h.realm_id == realm) ≡ false) gs
IsChoice realm gs (some g) =
    Any (λ h. h ≡ g) gs
    × (g.realm_id == realm) ≡ true
    × All (λ h. (h.realm_id == realm) ≡ true → g.active_connections ≤ h.active_connections) gs

abbrev Least : List GatewayServer → Option GatewayServer → Type 0
Least gs none = gs ≡ []
Least gs (some g) = Any (λ h. h ≡ g) gs × All (λ h. g.active_connections ≤ h.active_connections) gs

module _ {P Q : GatewayServer → Type 0} where
  everywhere : ((g : GatewayServer) → P g → Q g) → (gs : List GatewayServer) → All P gs → All Q gs
  everywhere f [] h = tt
  everywhere f (g ∷ gs) (h, hs) = (f g h, everywhere f gs hs)

  somewhere : ((g : GatewayServer) → P g → Q g) → (gs : List GatewayServer) → Any P gs → Any Q gs
  somewhere f [] h = elim h [ ]
  somewhere f (g ∷ gs) (inl h) = inl (f g h)
  somewhere f (g ∷ gs) (inr h) = inr (somewhere f gs h)

module _ (p : GatewayServer → Bool) (P : GatewayServer → Type 0) where
  Any-filter : (gs : List GatewayServer) → Any P (filter p gs) → Any (λ g. P g × (p g ≡ true)) gs
  Any-filter [] h = elim h [ ]
  Any-filter (g ∷ gs) h = elim (Bool-cases (p g)) [
    | inl y ↦ ground (arith, Any-filter gs)
    | inr n ↦ ground (arith, Any-filter gs)
  ]

  All-filter : (gs : List GatewayServer) → All P (filter p gs) → All (λ g. p g ≡ true → P g) gs
  All-filter [] h = tt
  All-filter (g ∷ gs) h = ground (arith, All-filter gs)

filter-nil :
    (p : GatewayServer → Bool) (gs : List GatewayServer)
    → filter p gs ≡ []
    → All (λ g. p g ≡ false) gs
filter-nil p [] e = tt
filter-nil p (g ∷ gs) e = ground (arith, filter-nil p gs)

insert_gateway-Least :
    (g : GatewayServer) (gs sorted : List GatewayServer)
    → Least gs (first sorted)
    → Least (g ∷ gs) (first (insert_gateway g sorted))
unfolding insert_gateway
insert_gateway-Least g gs [] none_left = rw none_left (inl refl, (omega arith, tt))
insert_gateway-Least g gs (h ∷ hs) (here, least) =
    elim (Bool-cases (ltb h.active_connections g.active_connections)) [
      | inl less ↦ rw less (inr here, (ground arith, least))
      | inr more ↦
          let below : g.active_connections ≤ h.active_connections = ground arith in
          rw more (inl refl, (omega arith, everywhere (λ x le. omega arith) gs least))
    ]

sort_gateways-Least : (gs : List GatewayServer) → Least gs (first (sort_gateways gs))
unfolding sort_gateways
sort_gateways-Least [] = refl
sort_gateways-Least (g ∷ gs) = insert_gateway-Least g gs (sort_gateways gs) (sort_gateways-Least gs)

choice :
    (order : List GatewayServer → List GatewayServer) (realm : ℕ) (gs : List GatewayServer)
    (o : Option GatewayServer)
    → IsOrder order
    → Least (filter (λ g. g.realm_id == realm) (order gs)) o
    → IsChoice realm gs o
choice order realm gs none is_order e =
    is_order.all (λ h. (h.realm_id == realm) ≡ false) gs
      (filter-nil (λ g. g.realm_id == realm) (order gs) e)
choice order realm gs (some g) is_order (here, least) =
    let found =
      is_order.any (λ h. (h ≡ g) × ((h.realm_id == realm) ≡ true)) gs
        (Any-filter (λ h. h.realm_id == realm) (λ h. h ≡ g) (order gs) here) in
    (
      somewhere (λ h x. x.0) gs found,
      of_realm g gs found,
      is_order.all (λ h. (h.realm_id == realm) ≡ true → g.active_connections ≤ h.active_connections)
          gs
          (All-filter (λ h. h.realm_id == realm) (λ h. g.active_connections ≤ h.active_connections)
            (order gs) least),
    )
  where
    of_realm :
        (g : GatewayServer) (gs : List GatewayServer)
        → Any (λ h. (h ≡ g) × ((h.realm_id == realm) ≡ true)) gs
        → (g.realm_id == realm) ≡ true
    of_realm g [] there = elim there [ ]
    of_realm g (h ∷ hs) (inl (same, here)) = subst (λ x. (x.realm_id == realm) ≡ true) same here
    of_realm g (h ∷ hs) (inr there) = of_realm g hs there

-- GatewayForRealm gives a stored gateway of the realm that has the fewest connections of those, and
-- none only for a realm without gateways, in whatever order Go goes over the map.
pub gateway_for_realm-IsChoice :
    (order : List GatewayServer → List GatewayServer) (realm : ℕ) (r : GatewayRepo)
    → IsOrder order
    → IsChoice realm r.storage (gateway_for_realm order realm r)
unfolding gateway_for_realm gateways_for_realm
gateway_for_realm-IsChoice order realm r is_order =
    choice order realm r.storage (gateway_for_realm order realm r) is_order
      (sort_gateways-Least (filter (λ g. g.realm_id == realm) (order r.storage)))
