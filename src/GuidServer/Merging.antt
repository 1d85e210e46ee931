-- ===== src/GuidServer/Merging.antt =====
-- The middleware of the guid server as a step relation: who waits, for what, and who wakes them.
use athena_wow_cluster.Prelude.{
  ℕ, ◌+◌, ◌≤◌, ◌≡◌, refl, ap, ◌↔◌, ◌⊎◌, inl, inr, true, Option, none, some, List, [], ◌∷◌, ◌++◌,
  arith, if◌then◌else◌, Option-cases, All, Any, All-append,
}
use athena_wow_cluster.GuidServer.Diapasons.{GuidDiapason}
use athena_wow_cluster.GuidServer.Service.{GuidsRequest, Key, key, key_eq}
use athena_wow_cluster.GuidServer.Middleware.{Middleware, update_key, on_request, on_response}

-- A request arrives, or a worker answers one of the requests that are out.
pub data Step : Middleware → List ℕ → Middleware → Type 0 where
  request : (m : Middleware) (r : GuidsRequest) → Step m [] (on_request m r)
  respond :
      (m : Middleware) (xs : List GuidsRequest) (r : GuidsRequest) (ys : List GuidsRequest)
      (new : GuidDiapason)
      → m.requests ≡ xs ++ r ∷ ys
      → Step m
          (on_response (record m { requests = xs ++ ys }) r new).1
          (on_response (record m { requests = xs ++ ys }) r new).0

pub key_eq_iff : (j k : Key) → (key_eq j k ≡ true) ↔ (j ≡ k)
key_eq_iff j k = ground arith

abbrev pub count_key : Key → List GuidsRequest → ℕ
count_key k [] = 0
count_key k (r ∷ rs) = (if key_eq (key r) k then 1 else 0) + count_key k rs

abbrev pub in_process : Option GuidsRequest → ℕ
in_process none = 0
in_process (some _) = 1

-- For each key: one request is out while the key is in process and none otherwise, it is the one
-- remembered, and callbacks queue only behind it.
pub record Inv (m : Middleware) : Type 0 where
  pub one_out : (k : Key) → count_key k m.requests ≡ in_process (m.requests_with_resp_in_process k)
  pub remembered : All (λ r. m.requests_with_resp_in_process (key r) ≡ some r) m.requests
  pub queued : (k : Key) → m.requests_with_resp_in_process k ≡ none → m.callbacks_queue k ≡ []

in_process_le : (o : Option GuidsRequest) → in_process o ≤ 1
in_process_le none = omega arith
in_process_le (some r) = omega arith

count_key-append :
    (k : Key) (xs ys : List GuidsRequest) → count_key k (xs ++ ys) ≡ count_key k xs + count_key k ys
count_key-append k [] ys = omega arith
count_key-append k (x ∷ xs) ys = omega (arith, count_key-append k xs ys)

pub update_key_self {ℓ} : {A : Type ℓ} (p : Key → A) (k : Key) (a : A) → update_key p k a k ≡ a
update_key_self p k a = ground (arith, key_eq_iff k k)

remembered_put :
    (p : Key → Option GuidsRequest) (r : GuidsRequest) (xs : List GuidsRequest)
    → p (key r) ≡ none
    → All (λ q. p (key q) ≡ some q) xs
    → All (λ q. update_key p (key r) (some r) (key q) ≡ some q) xs
remembered_put p r [] e a = tt
remembered_put p r (x ∷ xs) e a =
    ground (arith, remembered_put p r xs e a.1, key_eq_iff (key r) (key x))

on_request-Inv : (m : Middleware) (r : GuidsRequest) → Inv m → Inv (on_request m r)
unfolding on_request
on_request-Inv m r v = record {
  one_out = λ k.
      ground (arith, v.one_out k, count_key-append k m.requests (r ∷ []), key_eq_iff (key r) k);
  remembered = elim (Option-cases (m.requests_with_resp_in_process (key r))) [
    | inl e ↦
        rw (e, on_request)
          (All-append
            (λ q. update_key m.requests_with_resp_in_process (key r) (some r) (key q) ≡ some q)
            m.requests (r ∷ [])
            (remembered_put m.requests_with_resp_in_process r m.requests e v.remembered)
            (update_key_self m.requests_with_resp_in_process (key r) (some r), tt))
    | inr (running, e) ↦ rw (e, on_request) v.remembered
  ];
  queued = λ k. ground (arith, v.queued k, key_eq_iff (key r) k);
}

remembered_delete :
    (p : Key → Option GuidsRequest) (k : Key) (xs : List GuidsRequest)
    → count_key k xs ≡ 0
    → All (λ q. p (key q) ≡ some q) xs
    → All (λ q. update_key p k none (key q) ≡ some q) xs
remembered_delete p k [] e a = tt
remembered_delete p k (x ∷ xs) e a =
    ground (arith, remembered_delete p k xs, key_eq_iff k (key x), key_eq_iff (key x) k)

pub All-take_out {ℓ κ} :
    {A : Type ℓ} (P : A → Type κ) (xs : List A) (x : A) (ys : List A)
    → All P (xs ++ x ∷ ys)
    → P x × All P (xs ++ ys)
All-take_out P [] x ys a = a
All-take_out P (y ∷ xs) x ys a = let rest = All-take_out P xs x ys a.1 in (rest.0, (a.0, rest.1))

count_key-take_out :
    (k : Key) (xs : List GuidsRequest) (x : GuidsRequest) (ys : List GuidsRequest)
    → count_key k (xs ++ x ∷ ys) ≡ (if key_eq (key x) k then 1 else 0) + count_key k (xs ++ ys)
count_key-take_out k [] x ys = refl
count_key-take_out k (y ∷ xs) x ys = omega (arith, count_key-take_out k xs x ys)

module _ (m : Middleware) (xs : List GuidsRequest) (r : GuidsRequest) (ys : List GuidsRequest)
    (new : GuidDiapason) (e : m.requests ≡ xs ++ r ∷ ys) (v : Inv m) where
  others : count_key (key r) (xs ++ ys) ≡ 0
  others = ground (
    arith,
    v.one_out (key r),
    count_key-take_out (key r) xs r ys,
    key_eq_iff (key r) (key r),
    ap (count_key (key r)) e,
    in_process_le (m.requests_with_resp_in_process (key r)),
  )

  held : All (λ q. m.requests_with_resp_in_process (key q) ≡ some q) (xs ++ r ∷ ys)
  held = rw e at v.remembered

  on_response-Inv : Inv (on_response (record m { requests = xs ++ ys }) r new).0
  unfolding on_response
  on_response-Inv = record {
    one_out = λ k. ground (
      arith,
      v.one_out k,
      others,
      count_key-take_out k xs r ys,
      key_eq_iff (key r) k,
      ap (count_key k) e,
    );
    remembered =
        remembered_delete m.requests_with_resp_in_process (key r) (xs ++ ys) others
          (All-take_out _ xs r ys held).1;
    queued = λ k. ground (arith, v.queued k);
  }

-- Every step keeps the invariant.
pub Step-Inv : {m n : Middleware} {woken : List ℕ} → Step m woken n → Inv m → Inv n
Step-Inv (request m r) v = on_request-Inv m r v
Step-Inv (respond m xs r ys new e) v = on_response-Inv m xs r ys new e v

-- The channel `c` is blocked on key `k`: its request is the one out, or it queues behind it.
abbrev pub Waits : ℕ → Key → Middleware → Type 0
Waits c k m =
    ((r : GuidsRequest) × (m.requests_with_resp_in_process k ≡ some r) × (r.callback ≡ some c))
    ⊎ Any (λ j. c ≡ j) (m.callbacks_queue k)
