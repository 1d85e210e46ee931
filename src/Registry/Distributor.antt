-- ===== src/Registry/Distributor.antt =====
-- apps/servers-registry/mapbalancing/binpack/distributor.go: `Distribute`.
use athena_wow_cluster.Prelude.{ℕ, List, [], ◌∷◌, ◌++◌, if◌then◌else◌, length}
use athena_wow_cluster.Registry.GameServer.{GameServer, is_all_maps_available}
use athena_wow_cluster.Registry.Weights.{MapsWeight, delete_map, keys}
use athena_wow_cluster.Registry.Packing.{
  Bin, sort_by_weight, sort_maps, total_weight, ceil_div, cap_weights, pack_all, fit_to_servers,
}

-- The packed maps are appended to the servers' lists, bin by server, and each list is sorted.
unfoldable pub assign : List Bin → List GameServer → List GameServer
assign bins [] = []
assign [] (s ∷ ss) =
    record s { assigned_maps_to_handle = sort_maps s.assigned_maps_to_handle } ∷ assign [] ss
assign (b ∷ bs) (s ∷ ss) =
    record s { assigned_maps_to_handle = sort_maps (s.assigned_maps_to_handle ++ keys b) }
    ∷ assign bs ss

unfoldable pub greedy_bin_pack_balancer : MapsWeight → List GameServer → List GameServer
greedy_bin_pack_balancer weights servers =
    let limit = ceil_div (total_weight 0 weights) (length servers) in
    let packed = pack_all limit (sort_by_weight (cap_weights limit weights)) ([], []) in
    assign (fit_to_servers (length servers) packed.1) servers

-- `servers[i].AssignedMapsToHandle = []uint32{}`.
unfoldable pub cleanup : List GameServer → List GameServer
cleanup [] = []
cleanup (s ∷ ss) = record s { assigned_maps_to_handle = [] } ∷ cleanup ss

unfoldable pub delete_maps : List ℕ → MapsWeight → MapsWeight
delete_maps [] ws = ws
delete_maps (id ∷ ids) ws = delete_maps ids (delete_map id ws)

-- The loop that parts the servers: those open for every map, those bound to their maps, and the
-- weights that are left.
pub record Parted : Type 0 where
  pub servers_to_balance : List GameServer
  pub ready_servers : List GameServer
  pub weights_copy : MapsWeight

unfoldable pub part_one : GameServer → Parted → Parted
part_one s p =
    if is_all_maps_available s
    then record p { servers_to_balance = p.servers_to_balance ++ s ∷ [] }
    else record p {
      ready_servers =
          p.ready_servers ++ record s { assigned_maps_to_handle = s.available_maps } ∷ [];
      weights_copy = delete_maps s.available_maps p.weights_copy;
    }

unfoldable pub part : List GameServer → Parted → Parted
unfolding part_one
part [] p = p
part (s ∷ ss) p = part ss (part_one s p)

unfoldable pub balance : Parted → List GameServer → List GameServer
balance p [] = p.ready_servers
balance p (s ∷ []) =
    p.ready_servers
    ++ record s {
      assigned_maps_to_handle = sort_maps (s.assigned_maps_to_handle ++ keys p.weights_copy);
    }
      ∷ []
balance p (s ∷ t ∷ ss) = p.ready_servers ++ greedy_bin_pack_balancer p.weights_copy (s ∷ t ∷ ss)

unfoldable pub distribute : MapsWeight → List GameServer → List GameServer
unfolding balance
distribute weights servers =
    let p =
      part (cleanup servers)
        (record { servers_to_balance = []; ready_servers = []; weights_copy = weights }) in
    balance p p.servers_to_balance
