-- ===== src/Registry/Examples.antt =====
-- The theorems on apps/servers-registry at concrete servers and weights.
use athena_wow_cluster.Prelude.{
  ℕ, ◌≤◌, ◌≡◌, ◌++◌, refl, some, ◌++◌, true, false, List, [], ◌∷◌, arith, All,
}
use athena_wow_cluster.Registry.GameServer.{GameServer, contains_map, can_handle_map}
use athena_wow_cluster.Registry.Weights.{MapsWeight}
use athena_wow_cluster.Registry.Packing.{cap_weights, sort_by_weight, pack_all}
use athena_wow_cluster.Registry.Distributor.{distribute}
use athena_wow_cluster.Registry.Lookup.{IsSorted, can_handle_map_lem}
use athena_wow_cluster.Registry.Distribution.{own_servers, IsDistributed, distribute_lem}
use athena_wow_cluster.Registry.Service.{Reassigned, find_reassigned, mark_pending}
use athena_wow_cluster.Registry.Storage.{one}
use athena_wow_cluster.Registry.Pending.{can_handle_map-mark_pending}
use athena_wow_cluster.Registry.Load.{weight_sum, pack_all-within}
use athena_wow_cluster.Registry.Gateways.{GatewayServer, GatewayRepo, gateway_for_realm}
use athena_wow_cluster.Registry.Choice.{IsOrder, IsChoice, gateway_for_realm-IsChoice}

abbrev server : List ℕ → List ℕ → List ℕ → GameServer
server available assigned pending = record {
  id = "s";
  address = "s:1";
  realm_id = 1;
  is_cross_realm = false;
  available_maps = available;
  active_connections = 0;
  assigned_maps_to_handle = assigned;
  assigned_but_pending_maps = pending;
}

-- Two servers open for every map, and one bound to map 530.
abbrev servers : List GameServer
servers = server [] (7 ∷ []) [] ∷ server (530 ∷ []) [] [] ∷ server [] [] [] ∷ []

abbrev weights : MapsWeight
weights = (0, 100) ∷ (1, 100) ∷ (530, 50) ∷ (571, 120) ∷ (33, 1) ∷ []

can_handle_map_lem_example : can_handle_map (server [] (0 ∷ 1 ∷ 530 ∷ []) (1 ∷ [])) 530 ≡ true
unfolding contains_map
can_handle_map_lem_example =
    can_handle_map_lem (server [] (0 ∷ 1 ∷ 530 ∷ []) (1 ∷ [])) 530
      ((omega arith, (omega arith, tt)), ((omega arith, tt), (tt, tt)))

distribute_lem_example :
    (shared : List GameServer) × (distribute weights servers ≡ own_servers servers ++ shared)
    × IsDistributed weights servers shared
distribute_lem_example = distribute_lem weights servers

pack_all-within_example :
    All
      (λ b. weight_sum b ≤ 124)
      (pack_all 124 (sort_by_weight (cap_weights 124 weights)) ([], [])).1
pack_all-within_example = pack_all-within 124 weights (omega arith)

abbrev stored : List GameServer
stored = server [] [] [] ∷ []

-- Server "s" had the maps 0 and 1, and now has 1 and 530.
abbrev moved : List Reassigned
moved =
    record {
      server_id = "s";
      old_assigned_maps_to_handle = 0 ∷ 1 ∷ [];
      new_assigned_maps_to_handle = 1 ∷ 530 ∷ [];
    }
    ∷ []

abbrev now : GameServer
now = server [] (1 ∷ 530 ∷ []) []

now-IsSorted : IsSorted now.assigned_maps_to_handle
now-IsSorted = ((omega arith, tt), (tt, tt))

found_moved :
    find_reassigned moved "s"
    ≡ some (record {
      server_id = "s";
      old_assigned_maps_to_handle = 0 ∷ 1 ∷ [];
      new_assigned_maps_to_handle = 1 ∷ 530 ∷ [];
    })
unfolding find_reassigned
found_moved = refl

can_handle_map-mark_pending_example : can_handle_map (mark_pending moved now) 530 ≡ false
unfolding contains_map
can_handle_map-mark_pending_example =
    can_handle_map-mark_pending moved now _ 530 now-IsSorted found_moved refl

one-stored : one "s" stored ≡ some (server [] [] [])
unfolding one
one-stored = refl

abbrev gateway : (id realm connections : ℕ) → GatewayServer
gateway id realm connections = record {
  id = id;
  address = "10.0.0.1:8085";
  health_check_addr = "10.0.0.1:8900";
  realm_id = realm;
  active_connections = connections;
}

abbrev gateways : GatewayRepo
gateways = record { storage = gateway 3 1 90 ∷ gateway 2 2 5 ∷ gateway 1 1 40 ∷ []; counter = 3 }

as_stored : IsOrder (λ gs. gs)
as_stored = record { any = λ P gs h. h; all = λ P gs h. h }

gateway_for_realm-IsChoice_example :
    IsChoice 1 gateways.storage (gateway_for_realm (λ gs. gs) 1 gateways)
gateway_for_realm-IsChoice_example = gateway_for_realm-IsChoice (λ gs. gs) 1 gateways as_stored
