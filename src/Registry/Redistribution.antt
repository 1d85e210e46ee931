-- ===== src/Registry/Redistribution.antt =====
-- `distributeMapsToServers` of apps/servers-registry/service/game-server.go as a whole, over any
-- repository that stores the maps it is given.
use athena_wow_cluster.Prelude.{◌≡◌, some, List, [], ◌∷◌, ltb, if◌then◌else◌, length, All}
use athena_wow_cluster.Registry.GameServer.{GameServer}
use athena_wow_cluster.Registry.Service.{
  Reassigned, only_new_maps, old_maps, find_reassigned, GameServerRepo,
}

-- The repository hands back the server that it was given, under an ID that it may choose.
abbrev pub Stores : GameServerRepo → Type 0
Stores r =
    (s t : GameServer) (st st' : r.State)
    → r.upsert s st ≡ (some t, st')
    → t ≡ record s { id = t.id }

-- The servers of a list, in its order, but for their IDs.
abbrev pub Stored : List GameServer → List GameServer → Type 0
Stored [] [] = Unit
Stored [] (s ∷ ss) = ⊥
Stored (t ∷ ts) [] = ⊥
Stored (t ∷ ts) (s ∷ ss) = (t ≡ record s { id = t.id }) × Stored ts ss

-- A server after the redistribution: of its new maps those are pending that it did not have before, where
-- it had any.
abbrev pub awaiting : List GameServer → GameServer → GameServer
awaiting before s =
    if ltb 0 (length (old_maps before s.id))
    then record s {
      assigned_but_pending_maps = only_new_maps s.assigned_maps_to_handle (old_maps before s.id);
    }
    else s

abbrev pub all_awaiting : List GameServer → List GameServer → List GameServer
all_awaiting before [] = []
all_awaiting before (s ∷ ss) = awaiting before s ∷ all_awaiting before ss

-- The entry of a server in the reassignments, where IDs are distinct.
abbrev entry : List GameServer → GameServer → Reassigned
entry before s = record {
  server_id = s.id;
  old_assigned_maps_to_handle = old_maps before s.id;
  new_assigned_maps_to_handle = s.assigned_maps_to_handle;
}

abbrev AllFound : List GameServer → List Reassigned → List GameServer → Type 0
AllFound before res ss =
    All (λ (s : GameServer). find_reassigned res s.id ≡ some (entry before s)) ss
