-- ===== src/Registry/GameServer.antt =====
-- apps/servers-registry/repo/game-server.go: a game server as the registry knows it.
use Prim.Native.String.{String}
use athena_wow_cluster.Prelude.{
  ℕ, zero, suc, ◌+◌, ◌/◌, Bool, false, not, ◌&&◌, ◌||◌, List, [], ◌∷◌, ltb, leb, ◌==◌,
  if◌then◌else◌, length,
}

pub record GameServer : Type 0 where
  pub id : String
  pub address : String
  pub realm_id : ℕ
  pub is_cross_realm : Bool
  pub available_maps : List ℕ
  pub active_connections : ℕ
  pub assigned_maps_to_handle : List ℕ
  pub assigned_but_pending_maps : List ℕ

unfoldable pub is_all_maps_available : GameServer → Bool
is_all_maps_available g = length g.available_maps == 0

abbrev pub is_in_realm : GameServer → ℕ → Bool
is_in_realm g realm = g.realm_id == realm

abbrev pub get_or_zero : List ℕ → ℕ → ℕ
get_or_zero [] i = 0
get_or_zero (x ∷ xs) zero = x
get_or_zero (x ∷ xs) (suc i) = get_or_zero xs i

-- `sort.Search` of Go's library with the test `xs[i] >= id`, on the bounds of its loop. Each round
-- halves `hi - lo`.
unfoldable pub search_from : ℕ → List ℕ → ℕ → ℕ → ℕ → ℕ
search_from zero xs id lo hi = lo
search_from (suc fuel) xs id lo hi =
    let mid = (lo + hi) / 2 in
    let left = search_from fuel xs id lo mid in
    let right = search_from fuel xs id (mid + 1) hi in
    if ltb lo hi then (if leb id (get_or_zero xs mid) then left else right) else lo

-- The length is enough fuel, since each round takes at least one position off `hi - lo`.
unfoldable pub search_ge : List ℕ → ℕ → ℕ
unfolding search_from
search_ge xs id = search_from (length xs) xs id 0 (length xs)

unfoldable pub contains_map : List ℕ → ℕ → Bool
contains_map [] id = false
contains_map (x ∷ xs) id = x == id || contains_map xs id

-- `CanHandleMap`: the map is assigned, and its loading is not still to be confirmed.
unfoldable pub can_handle_map : GameServer → ℕ → Bool
can_handle_map g id =
    let i = search_ge g.assigned_maps_to_handle id in
    if ltb i (length g.assigned_maps_to_handle) && get_or_zero g.assigned_maps_to_handle i == id
    then not (contains_map g.assigned_but_pending_maps id)
    else false
