-- ===== src/Registry/Service.antt =====
-- apps/servers-registry/service/game-server.go: game servers register, fail and confirm maps. The
-- repository, the message bus, the health checks and the metrics are one record of calls.
use Prim.Native.String.{String}
use text.Mathlib.Text.{◌==◌}
use athena_wow_cluster.Prelude.{
  ℕ, Bool, Option, none, some, List, [], ◌∷◌, ltb, if◌then◌else◌, length, filter,
}
use athena_wow_cluster.Registry.GameServer.{GameServer, can_handle_map, contains_map}
use athena_wow_cluster.Registry.Weights.{MapsWeight}
use athena_wow_cluster.Registry.Packing.{sort_maps}
use athena_wow_cluster.Registry.Distributor.{distribute}

-- What `distributeMapsToServers` tells about a server: the part of `events.GameServer` that it reads.
pub record Reassigned : Type 0 where
  pub server_id : String
  pub old_assigned_maps_to_handle : List ℕ
  pub new_assigned_maps_to_handle : List ℕ

-- `OnlyNewMaps` of shared/events/events-serversregistry.go, on the new and the old maps.
unfoldable pub only_new_maps : List ℕ → List ℕ → List ℕ
only_new_maps [] old = []
only_new_maps (x ∷ xs) old =
    let rest = only_new_maps xs old in if contains_map old x then rest else x ∷ rest

-- The old maps of the first server with the ID, nil if there is none.
unfoldable pub old_maps : List GameServer → String → List ℕ
old_maps [] id = []
old_maps (s ∷ ss) id = if s.id == id then s.assigned_maps_to_handle else old_maps ss id

unfoldable pub reassignments : List GameServer → List GameServer → List Reassigned
unfolding old_maps
reassignments before [] = []
reassignments before (s ∷ ss) =
    record {
      server_id = s.id;
      old_assigned_maps_to_handle = old_maps before s.id;
      new_assigned_maps_to_handle = s.assigned_maps_to_handle;
    }
    ∷ reassignments before ss

unfoldable pub find_reassigned : List Reassigned → String → Option Reassigned
find_reassigned [] id = none
find_reassigned (r ∷ rs) id = if r.server_id == id then some r else find_reassigned rs id

-- New maps are pending, except on a server that had none before.
unfoldable pub mark_pending : List Reassigned → GameServer → GameServer
unfolding only_new_maps
mark_pending res s = elim (find_reassigned res s.id) [
  | none ↦ s
  | some r ↦
      if ltb 0 (length r.old_assigned_maps_to_handle)
      then record s {
        assigned_but_pending_maps =
            only_new_maps r.new_assigned_maps_to_handle r.old_assigned_maps_to_handle;
      }
      else s
]

-- The loop of `MapsLoadedForServer`: pending maps that were not loaded stay pending.
unfoldable pub maps_loaded : GameServer → List ℕ → GameServer
unfolding only_new_maps
maps_loaded s maps = record s {
  assigned_but_pending_maps = only_new_maps s.assigned_but_pending_maps maps;
}

-- A call: its result, `none` for an error, and the state that it leaves.
abbrev pub Action : Type 0 → Type 0 → Type 0
Action S A = S → Option A × S

module _ {S : Type 0} where
  abbrev pub and_then : {A B : Type 0} → Option A × S → (A → Action S B) → Option B × S
  and_then (none, st) k = (none, st)
  and_then (some a, st) k = k a st

  infixl 5 ◌>>=◌ ◌>>◌
  abbrev pub ◌>>=◌ : {A B : Type 0} → Action S A → (A → Action S B) → Action S B
  ◌>>=◌ m k st = and_then (m st) k

  abbrev pub ◌>>◌ : {B : Type 0} → Action S (Unit {0}) → Action S B → Action S B
  ◌>>◌ m k st = and_then (m st) (λ _. k)

  abbrev pub pure : {A : Type 0} → A → Action S A
  pure a st = (some a, st)

  abbrev pub found_or_fail : {A : Type 0} → Option A → Action S A
  found_or_fail a st = (a, st)

  -- An error that is only logged.
  abbrev pub logged : {A : Type 0} → Action S A → Action S (Unit {0})
  logged m st = (some tt, (m st).1)

-- `repo.GameServerRepo`, the producer of events, the health checks and the metrics. `upsert` gives the
-- server as the call leaves it, since it may fill in the ID and changes the address. `write_found` is a write
-- through the pointer that `One` gave for an ID; a repository that keeps no such objects ignores it.
pub record GameServerRepo : Type 1 where
  pub State : Type 0
  pub add_health_check : GameServer → Action State (Unit {0})
  pub add_metrics : GameServer → Action State (Unit {0})
  pub remove_metrics : GameServer → Action State (Unit {0})
  pub upsert : GameServer → Action State GameServer
  pub remove : String → Action State (Unit {0})
  pub list_by_realm : ℕ → Action State (List GameServer)
  pub list_of_cross_realms : Action State (List GameServer)
  pub one : String → Action State (Option GameServer)
  pub write_found : String → GameServer → Action State (Unit {0})
  pub maps_reassigned : List Reassigned → Action State (Unit {0})
  pub server_added : GameServer → Action State (Unit {0})
  pub server_removed : GameServer → Action State (Unit {0})

module _ (r : GameServerRepo) (weights : MapsWeight) where
  -- The last loop of `distributeMapsToServers`.
  unfoldable pub upsert_all : List Reassigned → List GameServer → Action r.State (List GameServer)
  unfolding mark_pending
  upsert_all res [] = pure []
  upsert_all res (s ∷ ss) = do
    s ← r.upsert (mark_pending res s)
    ss ← upsert_all res ss
    pure (s ∷ ss)

  unfoldable pub distribute_maps_to_servers : List GameServer → Action r.State (List GameServer)
  unfolding upsert_all reassignments
  distribute_maps_to_servers servers = do
    let res = reassignments servers (distribute weights servers)
    distributed ← upsert_all res (distribute weights servers)
    r.maps_reassigned res
    pure distributed

  unfoldable pub servers_beside : GameServer → Action r.State (List GameServer)
  servers_beside s = if s.is_cross_realm then r.list_of_cross_realms else r.list_by_realm s.realm_id

  -- The maps of the first server of the result with the ID, else the server's own.
  unfoldable pub assigned_of : List GameServer → GameServer → List ℕ
  assigned_of [] s = s.assigned_maps_to_handle
  assigned_of (t ∷ ts) s = if t.id == s.id then t.assigned_maps_to_handle else assigned_of ts s

  unfoldable pub register : GameServer → Action r.State GameServer
  unfolding distribute_maps_to_servers servers_beside assigned_of
  register server = do
    let sorted = record server { available_maps = sort_maps server.available_maps }
    r.add_health_check sorted
    r.add_metrics sorted
    s ← r.upsert sorted
    servers ← servers_beside s
    distributed ← distribute_maps_to_servers servers
    let s' = record s { assigned_maps_to_handle = assigned_of distributed s }
    logged (r.server_added s')
    pure s'

  unfoldable pub available_for_map_and_realm :
      (map_id realm : ℕ) → Bool → Action r.State (List GameServer)
  available_for_map_and_realm map_id realm is_cross_realm = do
    servers ← (if is_cross_realm then r.list_of_cross_realms else r.list_by_realm realm)
    pure (filter (λ s. can_handle_map s map_id) servers)

  unfoldable pub maps_loaded_for_server : String → List ℕ → Action r.State GameServer
  unfolding maps_loaded
  maps_loaded_for_server server_id maps = do
    found ← r.one server_id
    s ← found_or_fail found
    r.write_found server_id (maps_loaded s maps)
    r.upsert (maps_loaded s maps)

  -- `onServerUnhealthy`.
  unfoldable pub on_server_unhealthy : GameServer → Action r.State (Unit {0})
  unfolding distribute_maps_to_servers servers_beside
  on_server_unhealthy s = do
    r.remove s.id
    logged (r.server_removed s)
    logged (r.remove_metrics s)
    servers ← servers_beside s
    logged (distribute_maps_to_servers servers)
