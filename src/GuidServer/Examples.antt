-- ===== src/GuidServer/Examples.antt =====
-- The theorems on apps/guidserver/service at concrete inputs.
use athena_wow_cluster.Prelude.{
  ℕ, ◌-◌, ◌*◌, ◌/◌, ◌<◌, ◌≡◌, ◌≢◌, ◌↔◌, ◌⊎◌, inl, refl, ◌&&◌, none, some, List, [], ◌∷◌, ◌++◌,
  arith, leb, ◌==◌, if◌then◌else◌, add64, Any, put,
}
use athena_wow_cluster.GuidServer.Diapasons.{
  GuidDiapason, GuidDiapasonWithState, usage_totals, total_count, use_guids, use_guids_loop,
  cleanup_empty, guids_left,
}
use athena_wow_cluster.GuidServer.Ranges.{Within, IsFree, size_sum, IsAscending}
use athena_wow_cluster.GuidServer.Issue.{size_sum-use_guids, use_guids_splits, AllBelow}
use athena_wow_cluster.GuidServer.History.{Op, use_op, add_op, run, IsFresh, never_reissued}
use athena_wow_cluster.GuidServer.Service.{
  Floats, GuidsRequest, key, LocalCache, served, pct_usage, get_guids, get_guids_attempt,
  use_or_retry,
}
use athena_wow_cluster.GuidServer.Middleware.{
  MaxGuidStorage, Middleware, init_realm, init_max_guid, on_request, on_response, new_guid_service,
}
use athena_wow_cluster.GuidServer.Merging.{request, Inv, Waits, count_key, Step-Inv}
use athena_wow_cluster.GuidServer.Waking.{Step-Waits, waiting_is_woken, on_request-Waits}
use athena_wow_cluster.GuidServer.Refill.{Increases, IsReady, get_guids_returns}
use athena_wow_cluster.GuidServer.Startup.{Writes}

-- Ranges with ten and five GUIDs left.
abbrev first : GuidDiapasonWithState
first = record { diapason = record { start = 100; end = 119 }; current_guid = 110 }

abbrev second : GuidDiapasonWithState
second = record { diapason = record { start = 200; end = 204 }; current_guid = 200 }

abbrev ranges : List GuidDiapasonWithState
ranges = first ∷ second ∷ []

ranges-IsAscending : IsAscending 1 ranges
ranges-IsAscending = (
  record { started = omega arith; bounded = omega arith; fits = omega arith },
  omega arith,
  (record { started = omega arith; bounded = omega arith; fits = omega arith }, omega arith, tt),
)

ranges-AllBelow : AllBelow 300 ranges
ranges-AllBelow = (omega arith, (omega arith, tt))

size_sum-use_guids_example : size_sum (use_guids 12 ranges).0 ≡ 12
size_sum-use_guids_example =
    size_sum-use_guids 12 1 ranges (omega arith) (omega arith) ranges-IsAscending

handed_out : Any (Within 115) (use_guids 7 ranges).0
unfolding use_guids use_guids_loop guids_left
handed_out = inl (omega arith, omega arith)

use_guids_splits_example :
    (Any (IsFree 115) ranges
      ↔ (Any (Within 115) (use_guids 7 ranges).0 ⊎ Any (IsFree 115) (use_guids 7 ranges).1))
    × ¬ (Any (Within 115) (use_guids 7 ranges).0 × Any (IsFree 115) (use_guids 7 ranges).1)
use_guids_splits_example =
    use_guids_splits 7 1 first (second ∷ []) (omega arith) (omega arith) ranges-IsAscending 115

abbrev later_ops : List Op
later_ops = use_op 3 ∷ add_op (record { start = 300; end = 309 }) ∷ use_op 9 ∷ []

later_ops-IsFresh : IsFresh 300 later_ops
later_ops-IsFresh = (
  omega arith,
  omega arith,
  (omega arith, omega arith, omega arith, (omega arith, omega arith, tt)),
)

never_reissued_example : ¬ Any (Within 115) (run later_ops (use_guids 7 ranges).1).0
never_reissued_example =
    never_reissued 115 7 1 300 first (second ∷ []) later_ops ranges-IsAscending ranges-AllBelow
      (omega arith) (omega arith) (omega arith) later_ops-IsFresh handed_out

-- Two requests for the same realm, type and amount.
abbrev ask : ℕ → GuidsRequest
ask c = record { realm_id = 1; guid_type = 0; desired_amount = 50; callback = some c }

abbrev idle : Middleware
idle = record {
  cache = λ realm. none;
  requests_with_resp_in_process = λ k. none;
  callbacks_queue = λ k. [];
  requests = [];
}

idle-Inv : Inv idle
idle-Inv = record { one_out = λ k. refl; remembered = tt; queued = λ k h. refl }

abbrev busy : Middleware
busy = on_request (on_request idle (ask 7)) (ask 8)

Step-Inv_example : Inv (on_request idle (ask 7))
Step-Inv_example = Step-Inv (request idle (ask 7)) idle-Inv

busy-Inv : Inv busy
busy-Inv =
    Step-Inv (request (on_request idle (ask 7)) (ask 8)) (Step-Inv (request idle (ask 7)) idle-Inv)

waiting_is_woken_example :
    (0 < count_key (key (ask 8)) busy.requests)
    × ((xs : List GuidsRequest) (r : GuidsRequest) (ys : List GuidsRequest) (new : GuidDiapason)
        → busy.requests ≡ xs ++ r ∷ ys
        → key r ≡ key (ask 8)
        → Any (λ j. 8 ≡ j) (on_response (record busy { requests = xs ++ ys }) r new).1)
waiting_is_woken_example =
    waiting_is_woken 8 (key (ask 8)) busy busy-Inv
      (on_request-Waits 8 (on_request idle (ask 7)) (ask 8) refl)

Step-Waits_example : Waits 7 (key (ask 7)) busy ⊎ Any (λ (j : ℕ). 7 ≡ j) []
Step-Waits_example =
    Step-Waits 7 (key (ask 7)) (Step-Inv (request idle (ask 7)) idle-Inv)
      (request (on_request idle (ask 7)) (ask 8)) (on_request-Waits 7 idle (ask 7) refl)

-- A storage that holds the maxima in a function.
abbrev Maxima : Type 0
Maxima = ℕ → ℕ → ℕ

abbrev store_max : Maxima → ℕ → ℕ → ℕ → Maxima
store_max s realm guid_type value r t = if realm == r && guid_type == t then value else s r t

abbrev in_memory : MaxGuidStorage
in_memory = record {
  Store = Maxima;
  max_guid = λ s realm guid_type. some (s realm guid_type);
  set_max_guid = λ s realm guid_type value. some (store_max s realm guid_type value);
  increase_max_guid = λ s realm guid_type amount. some (
    add64 (s realm guid_type) amount,
    store_max s realm guid_type (add64 (s realm guid_type) amount),
  );
}

abbrev hundred : Maxima
hundred r t = 100

in_memory-Increases : Increases in_memory
in_memory-Increases s realm guid_type amount old new_max s' m e = ground arith

in_memory-Writes : Writes in_memory
in_memory-Writes s realm guid_type value s' e r t = ground arith

-- A storage that is down.
abbrev down : MaxGuidStorage
down = record {
  Store = Unit {0};
  max_guid = λ s realm guid_type. none;
  set_max_guid = λ s realm guid_type value. none;
  increase_max_guid = λ s realm guid_type amount. none;
}

abbrev filled : Maxima
filled = store_max (store_max (store_max (λ r t. 0) 1 0 40) 1 1 40) 1 2 40

started :
    new_guid_service in_memory (λ r t. some 40) (1 ∷ []) (λ r t. 0) (λ r. none)
    ≡ some (filled, put (λ r. none) 1 (λ t. []))
unfolding new_guid_service init_realm init_max_guid
started = refl

-- Floating-point numbers in units of 1/10000.
abbrev fixed_point : Floats
fixed_point = record {
  Float = ℕ;
  of_u64 = λ n. n * 10000;
  div = λ a b. a * 10000 / b;
  to_float32 = λ a. a;
  sub32 = λ a b. a - b;
  at_least = λ a n. leb (n * 10000) a;
}

abbrev stocked : LocalCache
stocked realm = if realm == 1 then some (λ t. ranges) else none

abbrev snapshots : List (LocalCache × LocalCache)
snapshots = (stocked, stocked) ∷ []

stocked-IsReady : IsReady fixed_point stocked stocked 1 0
unfolding pct_usage usage_totals total_count guids_left
stocked-IsReady = (λ e. cc, refl, λ e. cc)

get_guids_returns_example : (get_guids fixed_point snapshots 1 0 7 3).1 ≢ none
get_guids_returns_example =
    get_guids_returns fixed_point snapshots 1 0 7 3 (omega arith) (inl stocked-IsReady)

abbrev seven : List GuidDiapason
seven = record { start = 110; end = 116 } ∷ []

abbrev after_seven : List GuidDiapasonWithState
after_seven = record first { current_guid = 117 } ∷ second ∷ []

got_seven : (get_guids fixed_point snapshots 1 0 7 3).1 ≡ some (served seven after_seven none)
unfolding get_guids get_guids_attempt use_or_retry use_guids use_guids_loop cleanup_empty pct_usage
    usage_totals total_count guids_left
got_seven = refl
