-- ===== src/GuidServer/Refill.antt =====
-- What `GetGuids` returns and asks for, and the ranges with which the workers answer.
use athena_wow_cluster.Prelude.{
  ℕ, ◌+◌, ◌*◌, ◌%◌, ◌<◌, ◌≡◌, refl, ◌≢◌, inl, inr, Bool, true, false, Option, none, some, List, [],
  ◌∷◌, arith, All, Any, u64_mod, add64,
}
use athena_wow_cluster.GuidServer.Diapasons.{
  GuidDiapason, GuidDiapasonWithState, use_guids, use_guids_loop, add_diapason,
}
use athena_wow_cluster.GuidServer.Ranges.{IsFree, IsAscending}
use athena_wow_cluster.GuidServer.Service.{
  Floats, GuidsRequest, LocalCache, Attempt, served, guid_type_max, pct_usage, use_or_retry,
  get_guids_attempt, get_guids,
}
use athena_wow_cluster.GuidServer.Middleware.{MaxGuidStorage, request_processor}

-- The list that `UseGuids` meets.
abbrev pub list_of : LocalCache → ℕ → ℕ → List GuidDiapasonWithState
list_of cache realm guid_type = elim (cache realm) [ none ↦ [] | some by_type ↦ by_type guid_type ]

-- The storage adds the amount to the maximum that it holds for the realm and the type.
abbrev pub Increases : MaxGuidStorage → Type 0
Increases s =
    (store : s.Store) (realm guid_type amount old new_max : ℕ) (store' : s.Store)
    → s.max_guid store realm guid_type ≡ some old
    → s.increase_max_guid store realm guid_type amount ≡ some (new_max, store')
    → (new_max ≡ add64 old amount) × (s.max_guid store' realm guid_type ≡ some new_max)

-- The range of a successful refill begins right above the old maximum, ends at the new one and has
-- the desired size, so later refills lie above it.
pub request_processor-range :
    (s : MaxGuidStorage)
    → Increases s
    → (store store' : s.Store) (r : GuidsRequest) (old new_max : ℕ) → r.guid_type < guid_type_max
    → s.max_guid store r.realm_id r.guid_type ≡ some old
    → s.increase_max_guid store r.realm_id r.guid_type r.desired_amount ≡ some (new_max, store')
    → 0 < r.desired_amount
    → old + r.desired_amount < u64_mod
    → (request_processor s store r
        ≡ (some (record { start = old + 1; end = old + r.desired_amount }), store'))
      × (s.max_guid store' r.realm_id r.guid_type ≡ some (old + r.desired_amount))
unfolding request_processor
request_processor-range s law store store' r old new_max t m e p fits =
    let grown = law store r.realm_id r.guid_type r.desired_amount old new_max store' m e in
    ground arith

add_diapason-zero :
    (lo : ℕ) (ds : List GuidDiapasonWithState)
    → IsAscending lo ds
    → Any (IsFree 0) (add_diapason (record { start = 0; end = 0 }) ds)
unfolding add_diapason
add_diapason-zero lo [] a = ground arith
add_diapason-zero lo (d ∷ []) a = ground arith
add_diapason-zero lo (d ∷ e ∷ ds) a = inr (add_diapason-zero (d.end + 1) (e ∷ ds) a.2)

-- When the storage fails, the worker answers with the zero range, and GUID 0 becomes free.
pub failed_refill_frees_zero :
    (s : MaxGuidStorage) (store : s.Store) (r : GuidsRequest) (lo : ℕ)
    (ds : List GuidDiapasonWithState)
    → r.guid_type < guid_type_max
    → s.increase_max_guid store r.realm_id r.guid_type r.desired_amount ≡ none
    → IsAscending lo ds
    → (new : GuidDiapason) × ((request_processor s store r).0 ≡ some new)
      × Any (IsFree 0) (add_diapason new ds)
unfolding request_processor
failed_refill_frees_zero s store r lo ds t e a =
    (record { start = 0; end = 0 }, ground arith, add_diapason-zero lo ds a)

use_guids-ne-nil :
    (n : ℕ) (d : GuidDiapasonWithState) (ds : List GuidDiapasonWithState)
    → (use_guids n (d ∷ ds)).0 ≢ []
unfolding use_guids use_guids_loop
use_guids-ne-nil n d ds e = ground arith

use_or_retry-served :
    (n : ℕ) (ds : List GuidDiapasonWithState) (asked : Option GuidsRequest) (rs : List GuidDiapason)
    (ds' : List GuidDiapasonWithState) (asked' : Option GuidsRequest)
    → use_or_retry n ds asked ≡ served rs ds' asked'
    → (rs ≢ []) × (use_guids n ds ≡ (rs, ds'))
unfolding use_or_retry
use_or_retry-served n ds asked rs ds' asked' e = ground arith

abbrev is_served : Attempt → Bool
is_served (served rs ds asked) = true
is_served _ = false

use_or_retry-ready :
    (n : ℕ) (ds : List GuidDiapasonWithState) (asked : Option GuidsRequest)
    → ds ≢ []
    → is_served (use_or_retry n ds asked) ≡ true
unfolding use_or_retry
use_or_retry-ready n [] asked h = absurd (h refl)
use_or_retry-ready n (d ∷ ds) asked h = ground (arith, use_guids-ne-nil n d ds)

get_guids_attempt-served :
    (f : Floats) (seen now : LocalCache) (realm guid_type desired waiter : ℕ)
    (rs : List GuidDiapason) (ds : List GuidDiapasonWithState) (asked : Option GuidsRequest)
    → get_guids_attempt f seen now realm guid_type desired waiter ≡ served rs ds asked
    → (rs ≢ []) × (use_guids desired (list_of now realm guid_type) ≡ (rs, ds))
unfolding get_guids_attempt
get_guids_attempt-served f seen now realm guid_type desired waiter rs ds asked e = ground arith

-- A snapshot at which `GetGuids` succeeds: less than 99 percent used, and not emptied since.
abbrev pub IsReady : Floats → LocalCache → LocalCache → ℕ → ℕ → Type 0
IsReady f seen now realm guid_type =
    (seen realm ≢ none)
    × (f.at_least (pct_usage f (list_of seen realm guid_type)) 99 ≡ false)
    × (list_of now realm guid_type ≢ [])

get_guids_attempt-ready :
    (f : Floats) (seen now : LocalCache) (realm guid_type desired waiter : ℕ)
    → guid_type < guid_type_max
    → IsReady f seen now realm guid_type
    → is_served (get_guids_attempt f seen now realm guid_type desired waiter) ≡ true
unfolding get_guids_attempt
get_guids_attempt-ready f seen now realm guid_type desired waiter t (known, fresh, some_left) =
    ground (
      arith,
      known,
      fresh,
      use_or_retry-ready desired (list_of now realm guid_type) none some_left,
      use_or_retry-ready desired (list_of now realm guid_type)
          (some (record {
            realm_id = realm;
            guid_type = guid_type;
            desired_amount = (desired * 5) % u64_mod;
            callback = none;
          }))
          some_left,
    )

module _ (f : Floats) where
  -- What `GetGuids` hands out is what `UseGuids` took from one of the lists it met, and is not empty.
  pub get_guids-served :
      (snapshots : List (LocalCache × LocalCache)) (realm guid_type desired waiter : ℕ)
      {rs : List GuidDiapason} {ds : List GuidDiapasonWithState} {asked : Option GuidsRequest}
      → (get_guids f snapshots realm guid_type desired waiter).1 ≡ some (served rs ds asked)
      → (rs ≢ []) × Any (λ s. use_guids desired (list_of s.1 realm guid_type) ≡ (rs, ds)) snapshots
  unfolding get_guids
  get_guids-served [] realm guid_type desired waiter e = cc
  get_guids-served ((seen, now) ∷ later) realm guid_type desired waiter {rs = rs} {ds = ds}
        {asked = asked} e =
      ground (
        arith,
        get_guids_attempt-served f seen now realm guid_type desired waiter rs ds asked,
        get_guids-served later realm guid_type desired (waiter + 1) {rs = rs} {ds = ds}
            {asked = asked},
      )

  -- A call returns as soon as one pass meets a ready list.
  pub get_guids_returns :
      (snapshots : List (LocalCache × LocalCache)) (realm guid_type desired waiter : ℕ)
      → guid_type < guid_type_max
      → Any (λ s. IsReady f s.0 s.1 realm guid_type) snapshots
      → (get_guids f snapshots realm guid_type desired waiter).1 ≢ none
  unfolding get_guids
  get_guids_returns [] realm guid_type desired waiter t h e = elim h [ ]
  get_guids_returns ((seen, now) ∷ later) realm guid_type desired waiter t (inl ready) e =
      ground (arith, get_guids_attempt-ready f seen now realm guid_type desired waiter t ready)
  get_guids_returns ((seen, now) ∷ later) realm guid_type desired waiter t (inr h) e =
      ground (arith, get_guids_returns later realm guid_type desired (waiter + 1) t h)

  -- Every refill asked for is for the same realm and type, and for five times the GUIDs desired.
  pub get_guids-asks :
      (snapshots : List (LocalCache × LocalCache)) (realm guid_type desired waiter : ℕ)
      → All
          (λ (r : GuidsRequest).
            (r.realm_id ≡ realm)
            × (r.guid_type ≡ guid_type)
            × (r.desired_amount ≡ (desired * 5) % u64_mod))
          (get_guids f snapshots realm guid_type desired waiter).0
  unfolding get_guids
  get_guids-asks [] realm guid_type desired waiter = tt
  get_guids-asks ((seen, now) ∷ later) realm guid_type desired waiter =
      ground (arith, get_guids-asks later realm guid_type desired (waiter + 1))
