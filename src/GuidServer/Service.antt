-- ===== src/GuidServer/Service.antt =====
-- apps/guidserver/service/guid.go: `GetGuids` and the requests that it sends. Channels are unbounded
-- here: a full buffer of 1000 delays a send.
use athena_wow_cluster.Prelude.{
  ℕ, ◌+◌, ◌*◌, ◌%◌, Bool, ◌&&◌, Option, none, some, List, [], ◌∷◌, leb, ◌==◌, if◌then◌else◌, Map,
  u64_mod,
}
use athena_wow_cluster.GuidServer.Diapasons.{
  GuidDiapason, GuidDiapasonWithState, usage_totals, use_guids,
}

-- The floating-point operations of `PctUsage` and of the tests on its result.
pub record Floats : Type 1 where
  pub Float : Type 0
  pub of_u64 : ℕ → Float
  pub div : Float → Float → Float
  pub to_float32 : Float → Float
  pub sub32 : Float → Float → Float
  pub at_least : Float → ℕ → Bool

abbrev pub request_guids_buffer_multiplayer : ℕ
request_guids_buffer_multiplayer = 5

-- GuidTypeCharacter, GuidTypeItem and GuidTypeInstance are 0, 1 and 2.
abbrev pub guid_type_max : ℕ
guid_type_max = 3

-- A callback channel is named by a number.
pub record GuidsRequest : Type 0 where
  pub realm_id : ℕ
  pub guid_type : ℕ
  pub desired_amount : ℕ
  pub callback : Option ℕ

-- `fmt.Sprintf("%d:%d:%d", …)` tells any two triples apart.
pub record Key : Type 0 where
  pub key_realm : ℕ
  pub key_type : ℕ
  pub key_amount : ℕ

abbrev pub key : GuidsRequest → Key
key r = record { key_realm = r.realm_id; key_type = r.guid_type; key_amount = r.desired_amount }

abbrev pub key_eq : Key → Key → Bool
key_eq a b =
    a.key_realm == b.key_realm && (a.key_type == b.key_type && a.key_amount == b.key_amount)

-- `localCache`: the realms that the service was started for, each with a list for each type.
abbrev pub LocalCache : Type 0
LocalCache = Map (ℕ → List GuidDiapasonWithState)

pub data Attempt : Type 0 where
  realm_not_found : Attempt
  index_out_of_range : Attempt
  wait_for : GuidsRequest → Attempt
  served : List GuidDiapason → List GuidDiapasonWithState → Option GuidsRequest → Attempt
  retry : Option GuidsRequest → Attempt

refill : ℕ → ℕ → ℕ → Option ℕ → GuidsRequest
refill realm guid_type desired callback = record {
  realm_id = realm;
  guid_type = guid_type;
  desired_amount = (desired * request_guids_buffer_multiplayer) % u64_mod;
  callback = callback;
}

-- The end of `GetGuids`: nothing handed out means that another goroutine was faster.
unfoldable pub use_or_retry : ℕ → List GuidDiapasonWithState → Option GuidsRequest → Attempt
use_or_retry desired ds asked = answer (use_guids desired ds)
  where
    answer : List GuidDiapason × List GuidDiapasonWithState → Attempt
    answer ([], ds') = retry asked
    answer (r ∷ rs, ds') = served (r ∷ rs) ds' asked

module _ (f : Floats) where
  open f use {Float, of_u64, div, to_float32, sub32, at_least}

  unfoldable pub pct_usage : List GuidDiapasonWithState → Float
  pct_usage [] = of_u64 100
  pct_usage (d ∷ ds) =
      let totals = usage_totals 0 0 (d ∷ ds) in
      sub32 (of_u64 100) (to_float32 (div (of_u64 totals.1) (div (of_u64 totals.0) (of_u64 100))))

  -- One pass through `GetGuids`. `seen` is the list that `PctUsage` reads and `ds` the one that
  -- `UseGuids` meets, since other goroutines may run in between; `waiter` is the new channel.
  unfoldable pub get_guids_attempt :
      LocalCache → LocalCache → (realm guid_type desired waiter : ℕ) → Attempt
  unfolding refill use_or_retry
  get_guids_attempt seen now realm guid_type desired waiter = elim (seen realm) [
    | none ↦ realm_not_found
    | some by_type ↦
        let pct_used = pct_usage (by_type guid_type) in
        let ds : List GuidDiapasonWithState = elim (now realm) [
          | none ↦ []
          | some later ↦ later guid_type
        ] in
        if leb guid_type_max guid_type
        then index_out_of_range
        else if at_least pct_used 99
        then wait_for (refill realm guid_type desired (some waiter))
        else if at_least pct_used 70
        then use_or_retry desired ds (some (refill realm guid_type desired none))
        else use_or_retry desired ds none
  ]

  -- `GetGuids` calls itself after a wait and after a retry: one pass for each pair of snapshots.
  -- The result is what was sent to the middleware and, once the call has returned, its last pass.
  unfoldable pub get_guids :
      List (LocalCache × LocalCache)
      → (realm guid_type desired waiter : ℕ) → List GuidsRequest × Option Attempt
  unfolding get_guids_attempt
  get_guids [] realm guid_type desired waiter = ([], none)
  get_guids ((seen, now) ∷ later) realm guid_type desired waiter =
      let again = get_guids later realm guid_type desired (waiter + 1) in
      elim (get_guids_attempt seen now realm guid_type desired waiter) [
        | wait_for r ↦ (r ∷ again.0, again.1)
        | retry none ↦ again
        | retry (some r) ↦ (r ∷ again.0, again.1)
        | realm_not_found ↦ ([], some realm_not_found)
        | index_out_of_range ↦ ([], some index_out_of_range)
        | served rs ds none ↦ ([], some (served rs ds none))
        | served rs ds (some r) ↦ (r ∷ [], some (served rs ds (some r)))
      ]
