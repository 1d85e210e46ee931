-- ===== src/Registry/Storage.antt =====
-- apps/servers-registry/repo/game-server_inmem.go: game servers in a slice. Its lock makes each method
-- one step.
use Prim.Native.String.{String}
use text.Mathlib.Text.{◌==◌}
use athena_wow_cluster.Prelude.{
  ℕ, ◌≡◌, Option, none, some, List, [], ◌∷◌, ◌++◌, arith, if◌then◌else◌, filter,
}
use athena_wow_cluster.Registry.GameServer.{GameServer, is_in_realm}
use athena_wow_cluster.Registry.Service.{GameServerRepo, pure}

unfoldable pub with_id : GameServer → GameServer
with_id s = if s.id == "" then record s { id = s.address } else s

-- `Upsert` appends, whether or not the ID is there.
unfoldable pub upsert : GameServer → List GameServer → List GameServer
unfolding with_id
upsert s storage = storage ++ with_id s ∷ []

unfoldable pub update_server :
    String → (GameServer → GameServer) → List GameServer → List GameServer
update_server id f [] = []
update_server id f (s ∷ ss) =
    let rest = update_server id f ss in if s.id == id then f s ∷ ss else s ∷ rest

unfoldable pub remove_server : String → List GameServer → List GameServer
remove_server id [] = []
remove_server id (s ∷ ss) = let rest = remove_server id ss in if s.id == id then ss else s ∷ rest

unfoldable pub list_by_realm : ℕ → List GameServer → List GameServer
list_by_realm realm storage = filter (λ s. is_in_realm s realm) storage

unfoldable pub list_of_cross_realms : List GameServer → List GameServer
list_of_cross_realms storage = filter (λ s. s.is_cross_realm) storage

unfoldable pub one : String → List GameServer → Option GameServer
one id [] = none
one id (s ∷ ss) = if s.id == id then some s else one id ss

-- An upsert of a server that is there changes nothing that a lookup by ID sees: the old entry is found.
pub one-upsert :
    (id : String) (s old : GameServer) (storage : List GameServer)
    → one id storage ≡ some old
    → one id (upsert s storage) ≡ some old
unfolding one upsert
one-upsert id s old [] e = cc
one-upsert id s old (t ∷ ts) e = ground (arith, one-upsert id s old ts)

-- The slice as the service's repository; calls of other parts succeed.
abbrev pub in_memory : GameServerRepo
in_memory = record {
  State = List GameServer;
  add_health_check = λ s. pure tt;
  add_metrics = λ s. pure tt;
  remove_metrics = λ s. pure tt;
  upsert = λ s storage. (some (with_id s), upsert s storage);
  remove = λ id storage. (some tt, remove_server id storage);
  list_by_realm = λ realm storage. (some (list_by_realm realm storage), storage);
  list_of_cross_realms = λ storage. (some (list_of_cross_realms storage), storage);
  one = λ id storage. (some (one id storage), storage);
  write_found = λ id s storage. (some tt, update_server id (λ old. s) storage);
  maps_reassigned = λ res. pure tt;
  server_added = λ s. pure tt;
  server_removed = λ s. pure tt;
}
