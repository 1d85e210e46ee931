-- ===== src/Registry/Distribution.antt =====
-- `Distribute` of apps/servers-registry/mapbalancing/binpack/distributor.go as a whole.
use athena_wow_cluster.Prelude.{
  ℕ, suc, ◌+◌, ◌<◌, ◌≡◌, ◌∙◌, refl, sym, ap, filter, append_assoc, append-nil, inl, inr, Bool, true,
  false, not, ◌&&◌, ◌||◌, List, [], ◌∷◌, ◌++◌, arith, ◌==◌, if◌then◌else◌, Bool-cases, length,
}
use athena_wow_cluster.Registry.GameServer.{GameServer, contains_map, is_all_maps_available}
use athena_wow_cluster.Registry.Weights.{MapsWeight, delete_map, keys}
use athena_wow_cluster.Registry.Packing.{Bin}
use athena_wow_cluster.Registry.Distributor.{
  assign, greedy_bin_pack_balancer, cleanup, delete_maps, Parted, part, balance, distribute,
}
use athena_wow_cluster.Registry.Conservation.{count, count_assigned, count-append, count-sort_maps}
use athena_wow_cluster.Registry.Balance.{count_assigned-greedy}

-- The servers that are open for every map.
abbrev pub open_servers : List GameServer → List GameServer
open_servers ss = filter is_all_maps_available ss

-- The servers bound to maps of their own, with exactly these assigned.
unfoldable pub own_servers : List GameServer → List GameServer
own_servers [] = []
own_servers (s ∷ ss) =
    let rest = own_servers ss in
    if is_all_maps_available s
    then rest
    else record s { assigned_maps_to_handle = s.available_maps } ∷ rest

-- Whether a server bound to its own maps offers a map.
abbrev pub is_bound : ℕ → List GameServer → Bool
is_bound a [] = false
is_bound a (s ∷ ss) =
    (not (is_all_maps_available s) && contains_map s.available_maps a) || is_bound a ss

count-delete_map :
    (a id : ℕ) (ws : MapsWeight)
    → count a (keys (delete_map id ws)) ≡ (if id == a then 0 else count a (keys ws))
unfolding delete_map
count-delete_map a id [] = ground arith
count-delete_map a id ((k, v) ∷ ws) = ground (arith, count-delete_map a id ws)

count-delete_maps :
    (a : ℕ) (ids : List ℕ) (ws : MapsWeight)
    → count a (keys (delete_maps ids ws)) ≡ (if contains_map ids a then 0 else count a (keys ws))
unfolding delete_maps contains_map
count-delete_maps a [] ws = refl
count-delete_maps a (id ∷ ids) ws =
    ground (arith, count-delete_maps a ids (delete_map id ws), count-delete_map a id ws)

abbrev kept_open : GameServer → Parted → Parted
kept_open s p = record p { servers_to_balance = p.servers_to_balance ++ s ∷ [] }

abbrev made_ready : GameServer → Parted → Parted
made_ready s p = record p {
  ready_servers = p.ready_servers ++ record s { assigned_maps_to_handle = s.available_maps } ∷ [];
  weights_copy = delete_maps s.available_maps p.weights_copy;
}

part-nil : (p : Parted) → part [] p ≡ p
unfolding part
part-nil p = refl

part-open :
    (s : GameServer) (ss : List GameServer) (p : Parted)
    → is_all_maps_available s ≡ true
    → part (s ∷ ss) p ≡ part ss (kept_open s p)
unfolding part
part-open s ss p e = ap (part ss) (rw e)

part-own :
    (s : GameServer) (ss : List GameServer) (p : Parted)
    → is_all_maps_available s ≡ false
    → part (s ∷ ss) p ≡ part ss (made_ready s p)
unfolding part
part-own s ss p e = ap (part ss) (rw e)

part-servers :
    (ss : List GameServer) (p : Parted)
    → ((part ss p).ready_servers ≡ p.ready_servers ++ own_servers ss)
      × ((part ss p).servers_to_balance ≡ p.servers_to_balance ++ open_servers ss)
unfolding own_servers
part-servers [] p =
    rw part-nil (sym (append-nil p.ready_servers), sym (append-nil p.servers_to_balance))
part-servers (s ∷ ss) p = elim (Bool-cases (is_all_maps_available s)) [
  | inl every ↦
      let ih = part-servers ss (kept_open s p) in
      rw (part-open s ss p every)
        (rw every (ih.0, ih.1 ∙ append_assoc p.servers_to_balance (s ∷ []) (open_servers ss)))
  | inr own ↦
      let ih = part-servers ss (made_ready s p) in
      rw (part-own s ss p own) (
        rw own (
          ih.0
              ∙ append_assoc p.ready_servers
                  (record s { assigned_maps_to_handle = s.available_maps } ∷ []) (own_servers ss),
          ih.1,
        ))
]

part-weights :
    (a : ℕ) (ss : List GameServer) (p : Parted)
    → count a (keys (part ss p).weights_copy)
      ≡ (if is_bound a ss then 0 else count a (keys p.weights_copy))
part-weights a [] p = rw part-nil refl
part-weights a (s ∷ ss) p = elim (Bool-cases (is_all_maps_available s)) [
  | inl every ↦ rw (part-open s ss p every) (rw every (part-weights a ss (kept_open s p)))
  | inr own ↦ rw (part-own s ss p own) (
      ground (
        arith,
        part-weights a ss (made_ready s p),
        count-delete_maps a s.available_maps p.weights_copy,
      ))
]

-- The maps that servers had assigned before do not matter.
cleanup-keeps :
    (a : ℕ) (ss : List GameServer)
    → (own_servers (cleanup ss) ≡ own_servers ss)
      × (open_servers (cleanup ss) ≡ cleanup (open_servers ss))
      × (is_bound a (cleanup ss) ≡ is_bound a ss)
unfolding cleanup is_all_maps_available own_servers
cleanup-keeps a [] = (refl, refl, refl)
cleanup-keeps a (s ∷ ss) =
    let rest = cleanup-keeps a ss in
    let bare = record s { assigned_maps_to_handle = [] } in
    elim (Bool-cases (length s.available_maps == 0)) [
      | inl every ↦ rw every (rest.0, ap (λ ts. bare ∷ ts) (rest.1), rest.2)
      | inr own ↦ rw own (
        ap (λ ts. record s { assigned_maps_to_handle = s.available_maps } ∷ ts) (rest.0),
        rest.1,
        ap (λ b. contains_map s.available_maps a || b) (rest.2),
      )
    ]

cleanup-cleanup : (ss : List GameServer) → cleanup (cleanup ss) ≡ cleanup ss
unfolding cleanup
cleanup-cleanup [] = refl
cleanup-cleanup (s ∷ ss) =
    ap (λ ts. record s { assigned_maps_to_handle = [] } ∷ ts) (cleanup-cleanup ss)

count_assigned-cleanup : (a : ℕ) (ss : List GameServer) → count_assigned a (cleanup ss) ≡ 0
unfolding cleanup
count_assigned-cleanup a [] = refl
count_assigned-cleanup a (s ∷ ss) = omega (arith, count_assigned-cleanup a ss)

length-cleanup : (ss : List GameServer) → length (cleanup ss) ≡ length ss
unfolding cleanup
length-cleanup [] = refl
length-cleanup (s ∷ ss) = ap suc (length-cleanup ss)

cleanup-assign : (bins : List Bin) (ss : List GameServer) → cleanup (assign bins ss) ≡ cleanup ss
unfolding assign cleanup
cleanup-assign [] [] = refl
cleanup-assign (b ∷ bs) [] = refl
cleanup-assign [] (s ∷ ss) =
    ap (λ ts. record s { assigned_maps_to_handle = [] } ∷ ts) (cleanup-assign [] ss)
cleanup-assign (b ∷ bs) (s ∷ ss) =
    ap (λ ts. record s { assigned_maps_to_handle = [] } ∷ ts) (cleanup-assign bs ss)

-- What the open servers get: the same servers, with the maps of the weights shared out among them.
abbrev pub IsShared : MapsWeight → List GameServer → List GameServer → Type 0
IsShared weights ss shared =
    (cleanup shared ≡ cleanup ss)
    × ((a : ℕ)
        → 0 < length ss
        → count_assigned a shared ≡ count a (keys weights) + count_assigned a ss)

balance_shares :
    (p : Parted) (ss : List GameServer)
    → (shared : List GameServer) × (balance p ss ≡ p.ready_servers ++ shared)
      × IsShared p.weights_copy ss shared
unfolding balance cleanup greedy_bin_pack_balancer
balance_shares p [] = ([], sym (append-nil p.ready_servers), (refl, λ a h. elim h [ ]))
balance_shares p (s ∷ []) = (
  _,
  refl,
  (
    refl,
    λ a h. omega (
      arith,
      count-sort_maps a (s.assigned_maps_to_handle ++ keys p.weights_copy),
      count-append a s.assigned_maps_to_handle (keys p.weights_copy),
    ),
  ),
)
balance_shares p (s ∷ t ∷ ss) = (
  greedy_bin_pack_balancer p.weights_copy (s ∷ t ∷ ss),
  refl,
  (cleanup-assign _ (s ∷ t ∷ ss), λ a h. count_assigned-greedy a p.weights_copy (s ∷ t ∷ ss) h),
)

-- What the open servers have after a distribution.
pub record IsDistributed (weights : MapsWeight) (servers shared : List GameServer) : Type 0 where
  pub same_servers : cleanup shared ≡ cleanup (open_servers servers)
  pub has_maps :
      (a : ℕ)
      → 0 < length (open_servers servers)
      → count_assigned a shared ≡ (if is_bound a servers then 0 else count a (keys weights))

-- `Distribute` gives every server bound to maps exactly these maps, in front of the servers that are
-- open for every map. These are the same servers in the same order; if there is one, they have each map
-- that no bound server offers as often as the weights list it, and no map that a bound server offers.
-- What was assigned before does not count.
pub distribute_lem :
    (weights : MapsWeight) (servers : List GameServer)
    → (shared : List GameServer) × (distribute weights servers ≡ own_servers servers ++ shared)
      × IsDistributed weights servers shared
unfolding distribute
distribute_lem weights servers =
    let start : Parted = record {
      servers_to_balance = [];
      ready_servers = [];
      weights_copy = weights;
    } in
    let p = part (cleanup servers) start in
    let split = part-servers (cleanup servers) start in
    let kept = cleanup-keeps 0 servers in
    let balanced : p.servers_to_balance ≡ cleanup (open_servers servers) = split.1 ∙ kept.1 in
    let (shared, whole, (same, counts)) = balance_shares p p.servers_to_balance in
    (
      shared,
      whole ∙ ap (λ r. r ++ shared) (split.0 ∙ kept.0),
      record {
        same_servers = same ∙ ap cleanup balanced ∙ cleanup-cleanup (open_servers servers);
        has_maps = λ a h. omega (
          arith,
          counts a (omega (arith, ap length balanced, length-cleanup (open_servers servers))),
          ap (count_assigned a) balanced,
          count_assigned-cleanup a (open_servers servers),
          part-weights a (cleanup servers) start,
          ap (λ b. if b then 0 else count a (keys weights)) ((cleanup-keeps a servers).2),
        );
      },
    )
