-- ===== src/Registry/Gateways.antt =====
-- apps/servers-registry: the gateways of a realm, in service/gateway-server.go over the repository of
-- repo/gateway-server-inmem.go. Its lock makes each method one step.
use Prim.Native.String.{String}
use text.Mathlib.Text.{◌==◌ as str_eq}
use athena_wow_cluster.Prelude.{
  ℕ, ◌+◌, Bool, not, ◌==◌, ltb, Option, none, some, List, [], ◌∷◌, if◌then◌else◌, filter,
}

-- An ID is the number that its text shows.
pub record GatewayServer : Type 0 where
  pub id : ℕ
  pub address : String
  pub health_check_addr : String
  pub realm_id : ℕ
  pub active_connections : ℕ

-- The map, whose keys are the addresses for health checks of its values, and the counter.
pub record GatewayRepo : Type 0 where
  pub storage : List GatewayServer
  pub counter : ℕ

unfoldable pub remove_gateway : String → List GatewayServer → List GatewayServer
remove_gateway addr gs = filter (λ g. not (str_eq g.health_check_addr addr)) gs

unfoldable pub add_gateway : GatewayServer → GatewayRepo → GatewayServer × GatewayRepo
unfolding remove_gateway
add_gateway s r =
    let added = record s { id = r.counter + 1 } in
    (
      added,
      record {
        storage = added ∷ remove_gateway s.health_check_addr r.storage;
        counter = r.counter + 1;
      },
    )

-- `Update` with a function that keeps the address, on the first entry with the ID.
unfoldable pub update_gateway :
    ℕ → (GatewayServer → GatewayServer) → List GatewayServer → List GatewayServer
update_gateway id f [] = []
update_gateway id f (g ∷ gs) =
    let rest = update_gateway id f gs in if g.id == id then f g ∷ gs else g ∷ rest

-- `ListByRealm`, in the order in which Go goes over the map.
unfoldable pub gateways_for_realm :
    (List GatewayServer → List GatewayServer) → ℕ → GatewayRepo → List GatewayServer
gateways_for_realm order realm r = filter (λ g. g.realm_id == realm) (order r.storage)

unfoldable pub insert_gateway : GatewayServer → List GatewayServer → List GatewayServer
insert_gateway g [] = g ∷ []
insert_gateway g (h ∷ hs) =
    let rest = insert_gateway g hs in
    if ltb h.active_connections g.active_connections then h ∷ rest else g ∷ h ∷ hs

unfoldable pub sort_gateways : List GatewayServer → List GatewayServer
unfolding insert_gateway
sort_gateways [] = []
sort_gateways (g ∷ gs) = insert_gateway g (sort_gateways gs)

abbrev pub first : List GatewayServer → Option GatewayServer
first [] = none
first (g ∷ gs) = some g

unfoldable pub gateway_for_realm :
    (List GatewayServer → List GatewayServer) → ℕ → GatewayRepo → Option GatewayServer
unfolding gateways_for_realm sort_gateways
gateway_for_realm order realm r = first (sort_gateways (gateways_for_realm order realm r))

-- Whether the health checker and the consumer of metrics accept a gateway; events that fail are logged.
pub record GatewayChecks : Type 0 where
  pub add_health_check_object : GatewayServer → Bool
  pub add_metrics_observable : GatewayServer → Bool

unfoldable pub register_gateway :
    GatewayChecks → GatewayServer → GatewayRepo → Option GatewayServer × GatewayRepo
unfolding add_gateway
register_gateway c s r =
    let added = add_gateway s r in
    if not (c.add_health_check_object s)
    then (none, r)
    else if not (c.add_metrics_observable s)
    then (none, r)
    else (some added.0, added.1)

unfoldable pub on_gateway_unhealthy : GatewayServer → GatewayRepo → GatewayRepo
unfolding remove_gateway
on_gateway_unhealthy s r = record r { storage = remove_gateway s.health_check_addr r.storage }

unfoldable pub on_gateway_metrics : GatewayServer → (connections : ℕ) → GatewayRepo → GatewayRepo
unfolding update_gateway
on_gateway_metrics s connections r = record r {
  storage = update_gateway s.id (λ g. record g { active_connections = connections }) r.storage;
}
