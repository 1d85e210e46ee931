-- ===== src/Registry/Pending.antt =====
-- From the distribution to the lookup (apps/servers-registry/service/game-server.go): which maps a server
-- handles after its maps were reassigned, and after it confirmed them.
use athena_wow_cluster.Prelude.{
  ℕ, ◌≡◌, refl, inl, inr, Bool-cases, not, ◌&&◌, ◌||◌, some, List, [], ◌∷◌, arith, ltb,
  if◌then◌else◌, length, All, All-append,
}
use athena_wow_cluster.Registry.GameServer.{
  GameServer, contains_map, can_handle_map, is_all_maps_available,
}
use athena_wow_cluster.Registry.Weights.{MapsWeight}
use athena_wow_cluster.Registry.Packing.{Bin}
use athena_wow_cluster.Registry.Distributor.{
  assign, greedy_bin_pack_balancer, cleanup, Parted, part_one, part, balance, distribute,
}
use athena_wow_cluster.Registry.Lookup.{IsSorted, can_handle_map_lem, sort_maps-IsSorted}
use athena_wow_cluster.Registry.Service.{
  Reassigned, only_new_maps, find_reassigned, mark_pending, maps_loaded,
}

abbrev pub AllSorted : List GameServer → Type 0
AllSorted = All (λ (s : GameServer). IsSorted s.assigned_maps_to_handle)

abbrev pub AllOffered : List GameServer → Type 0
AllOffered = All (λ (s : GameServer). IsSorted s.available_maps)

cleanup-AllOffered : (ss : List GameServer) → AllOffered ss → AllOffered (cleanup ss)
unfolding cleanup
cleanup-AllOffered [] a = tt
cleanup-AllOffered (s ∷ ss) a = (a.0, cleanup-AllOffered ss a.1)

part_one-AllSorted :
    (s : GameServer) (p : Parted)
    → IsSorted s.available_maps
    → AllSorted p.ready_servers
    → AllSorted (part_one s p).ready_servers
unfolding part_one
part_one-AllSorted s p a h = elim (Bool-cases (is_all_maps_available s)) [
  | inl t ↦ rw (t, part_one) h
  | inr f ↦ rw (f, part_one) (All-append _ p.ready_servers _ h (a, tt))
]

part-AllSorted :
    (ss : List GameServer) (p : Parted)
    → AllOffered ss
    → AllSorted p.ready_servers
    → AllSorted (part ss p).ready_servers
unfolding part
part-AllSorted [] p a h = h
part-AllSorted (s ∷ ss) p a h = part-AllSorted ss (part_one s p) a.1 (part_one-AllSorted s p a.0 h)

assign-AllSorted : (bins : List Bin) (ss : List GameServer) → AllSorted (assign bins ss)
unfolding assign
assign-AllSorted [] [] = tt
assign-AllSorted (b ∷ bins) [] = tt
assign-AllSorted [] (s ∷ ss) =
    (sort_maps-IsSorted s.assigned_maps_to_handle, assign-AllSorted [] ss)
assign-AllSorted (b ∷ bins) (s ∷ ss) = (sort_maps-IsSorted _, assign-AllSorted bins ss)

balance-AllSorted :
    (p : Parted) (ss : List GameServer) → AllSorted p.ready_servers → AllSorted (balance p ss)
unfolding balance greedy_bin_pack_balancer
balance-AllSorted p [] h = h
balance-AllSorted p (s ∷ []) h = All-append _ p.ready_servers _ h (sort_maps-IsSorted _, tt)
balance-AllSorted p (s ∷ t ∷ ss) h =
    All-append _ p.ready_servers _ h (assign-AllSorted _ (s ∷ t ∷ ss))

-- Servers that offer their maps in order, as a registration leaves them, get all their assigned maps in
-- order, so that the binary search of the lookup finds them.
pub distribute-AllSorted :
    (weights : MapsWeight) (ss : List GameServer)
    → AllOffered ss
    → AllSorted (distribute weights ss)
unfolding distribute
distribute-AllSorted weights ss a =
    let start : Parted = record {
      servers_to_balance = [];
      ready_servers = [];
      weights_copy = weights;
    } in
    let p = part (cleanup ss) start in
    balance-AllSorted p p.servers_to_balance
      (part-AllSorted (cleanup ss) start (cleanup-AllOffered ss a) tt)

contains_map-only_new_maps :
    (xs old : List ℕ) (id : ℕ)
    → contains_map (only_new_maps xs old) id ≡ (contains_map xs id && not (contains_map old id))
unfolding contains_map only_new_maps
contains_map-only_new_maps [] old id = refl
contains_map-only_new_maps (x ∷ xs) old id = ground (arith, contains_map-only_new_maps xs old id)

-- After a reassignment a server that had maps before handles those of its maps that it had before, until
-- it confirms the others. A server that had none handles what it handled by its pending maps.
pub can_handle_map-mark_pending :
    (res : List Reassigned) (s : GameServer) (r : Reassigned) (id : ℕ)
    → IsSorted s.assigned_maps_to_handle
    → find_reassigned res s.id ≡ some r
    → r.new_assigned_maps_to_handle ≡ s.assigned_maps_to_handle
    → can_handle_map (mark_pending res s) id ≡ (
        contains_map s.assigned_maps_to_handle id
        && (if ltb 0 (length r.old_assigned_maps_to_handle)
            then contains_map r.old_assigned_maps_to_handle id
            else not (contains_map s.assigned_but_pending_maps id)))
unfolding mark_pending
can_handle_map-mark_pending res s r id sorted found same = ground (
  arith,
  can_handle_map_lem s id sorted,
  can_handle_map_lem
      (record s {
        assigned_but_pending_maps =
            only_new_maps s.assigned_maps_to_handle r.old_assigned_maps_to_handle;
      })
      id sorted,
  contains_map-only_new_maps s.assigned_maps_to_handle r.old_assigned_maps_to_handle id,
)

-- Once a server confirms maps, it handles its assigned maps except those still pending.
pub can_handle_map-maps_loaded :
    (s : GameServer) (maps : List ℕ) (id : ℕ)
    → IsSorted s.assigned_maps_to_handle
    → can_handle_map (maps_loaded s maps) id ≡ (
        contains_map s.assigned_maps_to_handle id
        && (not (contains_map s.assigned_but_pending_maps id) || contains_map maps id))
unfolding maps_loaded
can_handle_map-maps_loaded s maps id sorted = ground (
  arith,
  can_handle_map_lem (maps_loaded s maps) id sorted,
  contains_map-only_new_maps s.assigned_but_pending_maps maps id,
)
