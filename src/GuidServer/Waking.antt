-- ===== src/GuidServer/Waking.antt =====
-- apps/guidserver/service/guid.go: calls that wait are woken by the merging goroutine.
use athena_wow_cluster.Prelude.{
  ℕ, ◌<◌, ◌≡◌, refl, sym, subst, ◌≢◌, ◌⊎◌, inl, inr, false, none, some, List, ◌∷◌, ◌++◌, arith,
  Bool-cases, Option-cases, Any, Any-append_left, Any-append_right,
}
use athena_wow_cluster.GuidServer.Diapasons.{GuidDiapason}
use athena_wow_cluster.GuidServer.Service.{GuidsRequest, Key, key, key_eq}
use athena_wow_cluster.GuidServer.Middleware.{
  Middleware, update_key, on_request, on_response, own_callback,
}
use athena_wow_cluster.GuidServer.Merging.{
  Step, request, respond, count_key, Inv, key_eq_iff, update_key_self, All-take_out, Waits,
}

Waits-in_process :
    (c : ℕ) (k : Key) (m : Middleware)
    → Inv m
    → Waits c k m
    → m.requests_with_resp_in_process k ≢ none
Waits-in_process c k m v (inl (r, e, _)) n = cc
Waits-in_process c k m v (inr q) n = elim (subst (Any (λ j. c ≡ j)) (v.queued k n) q) [ ]

on_response_wakes :
    (c : ℕ) (m : Middleware) (xs : List GuidsRequest) (r : GuidsRequest) (ys : List GuidsRequest)
    (new : GuidDiapason)
    → Inv m
    → m.requests ≡ xs ++ r ∷ ys
    → Waits c (key r) m
    → Any (λ j. c ≡ j) (on_response (record m { requests = xs ++ ys }) r new).1
unfolding on_response
on_response_wakes c m xs r ys new v e (inl (r', p, own)) =
    ground (arith, (All-take_out _ xs r ys (rw e at v.remembered)).0)
on_response_wakes c m xs r ys new v e (inr q) = Any-append_right (λ j. c ≡ j) _ _ q

-- While a channel waits, a request for its key is out, and whichever answer comes for that key wakes
-- the channel.
pub waiting_is_woken :
    (c : ℕ) (k : Key) (m : Middleware)
    → Inv m
    → Waits c k m
    → (0 < count_key k m.requests)
      × ((xs : List GuidsRequest) (r : GuidsRequest) (ys : List GuidsRequest) (new : GuidDiapason)
          → m.requests ≡ xs ++ r ∷ ys
          → key r ≡ k
          → Any (λ j. c ≡ j) (on_response (record m { requests = xs ++ ys }) r new).1)
waiting_is_woken c k m v w = (
  ground (arith, v.one_out k, Waits-in_process c k m v w),
  λ xs r ys new e same.
      on_response_wakes c m xs r ys new v e (subst (λ j. Waits c j m) (sym same) w),
)

on_request_keeps :
    (c : ℕ) (k : Key) (m : Middleware) (r : GuidsRequest)
    → Inv m
    → Waits c k m
    → Waits c k (on_request m r)
unfolding on_request
on_request_keeps c k m r v w = elim (Option-cases (m.requests_with_resp_in_process (key r))) [
  | inl e ↦
      rw (e, on_request)
        (elim (Bool-cases (key_eq (key r) k)) [
          | inl same ↦ absurd (
              Waits-in_process c k m v w (
                subst (λ j. m.requests_with_resp_in_process j ≡ none)
                  ((key_eq_iff (key r) k).0 same) e))
          | inr other ↦ rw other w
        ])
  | inr (running, e) ↦ rw (e, on_request) (queue_keeps w)
]
  where
    longer :
        Any (λ j. c ≡ j) (m.callbacks_queue k)
        → Any
            (λ j. c ≡ j)
            (update_key m.callbacks_queue
              (key r)
              (m.callbacks_queue (key r) ++ own_callback r.callback)
              k)
    longer q = elim (Bool-cases (key_eq (key r) k)) [
      | inl same ↦ rw same (
          Any-append_left _ (m.callbacks_queue (key r)) (own_callback r.callback) (
            subst (λ j. Any (λ j. c ≡ j) (m.callbacks_queue j))
              (sym ((key_eq_iff (key r) k).0 same)) q))
      | inr other ↦ rw other q
    ]

    queue_keeps :
        Waits c k m
        → Waits c k (record m {
          callbacks_queue =
              update_key m.callbacks_queue
                (key r)
                (m.callbacks_queue (key r) ++ own_callback r.callback);
        })
    queue_keeps (inl out) = inl out
    queue_keeps (inr q) = inr (longer q)

on_response_keeps :
    (c : ℕ) (k : Key) (m : Middleware) (r : GuidsRequest) (new : GuidDiapason)
    → key_eq (key r) k ≡ false
    → Waits c k m
    → Waits c k (on_response m r new).0
unfolding on_response
on_response_keeps c k m r new other w = rw other w

-- A channel that waits goes on waiting until it is woken.
pub Step-Waits :
    (c : ℕ) (k : Key) {m n : Middleware} {woken : List ℕ}
    → Inv m
    → Step m woken n
    → Waits c k m
    → Waits c k n ⊎ Any (λ j. c ≡ j) woken
Step-Waits c k v (request m r) w = inl (on_request_keeps c k m r v w)
Step-Waits c k v (respond m xs r ys new e) w = elim (Bool-cases (key_eq (key r) k)) [
  | inl same ↦ inr (
      on_response_wakes c m xs r ys new v e
        (subst (λ j. Waits c j m) (sym ((key_eq_iff (key r) k).0 same)) w))
  | inr other ↦ inl (on_response_keeps c k (record m { requests = xs ++ ys }) r new other w)
]

-- A request with a callback leaves its channel waiting for its key.
pub on_request-Waits :
    (c : ℕ) (m : Middleware) (r : GuidsRequest)
    → r.callback ≡ some c
    → Waits c (key r) (on_request m r)
unfolding on_request
on_request-Waits c m r e = elim (Option-cases (m.requests_with_resp_in_process (key r))) [
  | inl fresh ↦
      rw (fresh, on_request)
        (inl (r, update_key_self m.requests_with_resp_in_process (key r) (some r), e))
  | inr (running, busy) ↦
      rw (busy, on_request)
        (inr (
          rw (update_key_self m.callbacks_queue (key r) _) (
            Any-append_right _ (m.callbacks_queue (key r)) (own_callback r.callback)
              (rw e (inl refl)))))
]
