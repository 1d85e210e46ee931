-- ===== src/GuidServer/Middleware.antt =====
-- apps/guidserver/service/guid.go: the goroutine that merges equal refill requests, and the workers.
-- Each receive of its `select` is one step; its maps are functions of the key.
use athena_wow_cluster.Prelude.{
  ℕ, Option, none, some, List, [], ◌∷◌, ◌++◌, leb, ◌==◌, if◌then◌else◌, put, ◌>>=◌, add64, sub64,
}
use athena_wow_cluster.GuidServer.Diapasons.{GuidDiapason, add_diapason}
use athena_wow_cluster.GuidServer.Service.{
  GuidsRequest, Key, key, key_eq, LocalCache, guid_type_max,
}

-- What the service needs of `repo.MaxGuidStorage`; `none` is an error.
pub record MaxGuidStorage : Type 1 where
  pub Store : Type 0
  pub max_guid : Store → (realm guid_type : ℕ) → Option ℕ
  pub set_max_guid : Store → (realm guid_type value : ℕ) → Option Store
  pub increase_max_guid : Store → (realm guid_type amount : ℕ) → Option (ℕ × Store)

-- `requests` are those sent to the workers and not answered yet.
pub record Middleware : Type 0 where
  pub cache : LocalCache
  pub requests_with_resp_in_process : Key → Option GuidsRequest
  pub callbacks_queue : Key → List ℕ
  pub requests : List GuidsRequest

abbrev pub update_key {ℓ} : {A : Type ℓ} → (Key → A) → Key → A → Key → A
update_key m k a j = if key_eq k j then a else m j

abbrev pub own_callback : Option ℕ → List ℕ
own_callback none = []
own_callback (some c) = c ∷ []

-- `case r := <-requestsChanMiddleware`.
unfoldable pub on_request : Middleware → GuidsRequest → Middleware
on_request m r = elim (m.requests_with_resp_in_process (key r)) [
  | some running ↦ record m {
    callbacks_queue =
        update_key m.callbacks_queue (key r) (m.callbacks_queue (key r) ++ own_callback r.callback);
  }
  | none ↦ record m {
    requests_with_resp_in_process = update_key m.requests_with_resp_in_process (key r) (some r);
    requests = m.requests ++ r ∷ [];
  }
]

add_to_cache : LocalCache → (realm guid_type : ℕ) → GuidDiapason → LocalCache
add_to_cache c realm guid_type new = elim (c realm) [
  | none ↦ c
  | some by_type ↦
      put c realm (λ t. if guid_type == t then add_diapason new (by_type t) else by_type t)
]

-- `case r := <-responseChan`: the new state and the callbacks signalled, in order.
unfoldable pub on_response : Middleware → GuidsRequest → GuidDiapason → Middleware × List ℕ
unfolding add_to_cache
on_response m r new = (
  record m {
    cache = add_to_cache m.cache r.realm_id r.guid_type new;
    callbacks_queue = update_key m.callbacks_queue (key r) [];
    requests_with_resp_in_process = update_key m.requests_with_resp_in_process (key r) none;
  },
  own_callback r.callback ++ m.callbacks_queue (key r),
)

-- A worker's answer to a request: an error of the storage gives the range of the zero value, and an
-- unknown type no answer.
unfoldable pub request_processor :
    (s : MaxGuidStorage) → s.Store → GuidsRequest → Option GuidDiapason × s.Store
request_processor s store r =
    if leb guid_type_max r.guid_type
    then (none, store)
    else elim (s.increase_max_guid store r.realm_id r.guid_type r.desired_amount) [
      | none ↦ (some (record { start = 0; end = 0 }), store)
      | some (new_max, store') ↦ (
        some (record { start = add64 (sub64 new_max r.desired_amount) 1; end = new_max }),
        store',
      )
    ]

-- One of the three blocks of `NewGuidService`: a maximum that the storage does not know comes from
-- the database.
unfoldable pub init_max_guid :
    (s : MaxGuidStorage) (mysql : ℕ → ℕ → Option ℕ) → s.Store → ℕ → ℕ → Option s.Store
init_max_guid s mysql store realm guid_type = do
  max ← s.max_guid store realm guid_type
  if max == 0
      then (mysql realm guid_type >>= λ m. s.set_max_guid store realm guid_type m)
      else some store

-- One round of its loop: characters, items, instances.
unfoldable pub init_realm :
    (s : MaxGuidStorage) (mysql : ℕ → ℕ → Option ℕ) → s.Store → ℕ → Option s.Store
init_realm s mysql store realm = do
  store ← init_max_guid s mysql store realm 0
  store ← init_max_guid s mysql store realm 1
  init_max_guid s mysql store realm 2

-- The loop of `NewGuidService` over the realms: the maxima, then empty lists.
unfoldable pub new_guid_service :
    (s : MaxGuidStorage) (mysql : ℕ → ℕ → Option ℕ)
    → List ℕ
    → s.Store
    → LocalCache
    → Option (s.Store × LocalCache)
new_guid_service s mysql [] store cache = some (store, cache)
new_guid_service s mysql (realm ∷ realms) store cache = do
  store ← init_realm s mysql store realm
  new_guid_service s mysql realms store (put cache realm (λ t. []))
