-- ===== src/GuidServer/Startup.antt =====
-- `NewGuidService`: the maxima in the storage once the service has started.
use athena_wow_cluster.Prelude.{
  ℕ, ◌<◌, ◌≡◌, inl, inr, Bool, false, ◌&&◌, ◌||◌, Option, none, some, List, [], ◌∷◌, arith, ◌==◌,
  if◌then◌else◌, Bool-cases, put, >>=-eq-some,
}
use athena_wow_cluster.GuidServer.Service.{LocalCache, guid_type_max}
use athena_wow_cluster.GuidServer.Middleware.{
  MaxGuidStorage, init_max_guid, init_realm, new_guid_service,
}

-- A write sets the maximum of its realm and type, and no other.
abbrev pub Writes : MaxGuidStorage → Type 0
Writes s =
    (store : s.Store) (realm guid_type value : ℕ) (store' : s.Store)
    → s.set_max_guid store realm guid_type value ≡ some store'
    → (realm' guid_type' : ℕ)
    → s.max_guid store' realm' guid_type' ≡ (
        if realm == realm' && guid_type == guid_type'
        then some value
        else s.max_guid store realm' guid_type')

-- The maximum known, or the database's where the storage has 0.
abbrev pub initial : Option ℕ → Option ℕ → Option ℕ
initial none mysql = none
initial (some m) mysql = if m == 0 then mysql else some m

initial-initial : (o mysql : Option ℕ) → initial (initial o mysql) mysql ≡ initial o mysql
initial-initial o mysql = ground arith

abbrev pub contains : List ℕ → ℕ → Bool
contains [] a = false
contains (x ∷ xs) a = x == a || contains xs a

module _ (s : MaxGuidStorage) (writes : Writes s) (mysql : ℕ → ℕ → Option ℕ) where
  init_max_guid_lem :
      (store store' : s.Store) (realm guid_type realm' guid_type' : ℕ)
      → init_max_guid s mysql store realm guid_type ≡ some store'
      → s.max_guid store' realm' guid_type' ≡ (
          if realm == realm' && guid_type == guid_type'
          then initial (s.max_guid store realm' guid_type') (mysql realm' guid_type')
          else s.max_guid store realm' guid_type')
  unfolding init_max_guid
  init_max_guid_lem store store' realm guid_type realm' guid_type' e =
      let known = >>=-eq-some (s.max_guid store realm guid_type) _ e in
      elim (Bool-cases (known.0 == 0)) [
        | inl unknown ↦
            let set = >>=-eq-some (mysql realm guid_type) _ (rw unknown at known.2) in
            ground (
              arith,
              known.1,
              unknown,
              set.1,
              writes store realm guid_type set.0 store' set.2 realm' guid_type',
            )
        | inr some_left ↦ ground (arith, known)
      ]

  three_inits :
      (r realm guid_type : ℕ) (store a b c : s.Store)
      → guid_type < guid_type_max
      → init_max_guid s mysql store r 0 ≡ some a
      → init_max_guid s mysql a r 1 ≡ some b
      → init_max_guid s mysql b r 2 ≡ some c
      → s.max_guid c realm guid_type ≡ (
          if r == realm
          then initial (s.max_guid store realm guid_type) (mysql realm guid_type)
          else s.max_guid store realm guid_type)
  three_inits r realm guid_type store a b c t e₀ e₁ e₂ = ground (
    arith,
    init_max_guid_lem store a r 0 realm guid_type e₀,
    init_max_guid_lem a b r 1 realm guid_type e₁,
    init_max_guid_lem b c r 2 realm guid_type e₂,
  )

  init_realm_lem :
      (r : ℕ) (store store' : s.Store) (realm guid_type : ℕ)
      → guid_type < guid_type_max
      → init_realm s mysql store r ≡ some store'
      → s.max_guid store' realm guid_type ≡ (
          if r == realm
          then initial (s.max_guid store realm guid_type) (mysql realm guid_type)
          else s.max_guid store realm guid_type)
  unfolding init_realm
  init_realm_lem r store store' realm guid_type t e =
      let a = >>=-eq-some (init_max_guid s mysql store r 0) _ e in
      let b = >>=-eq-some (init_max_guid s mysql a.0 r 1) _ a.2 in
      three_inits r realm guid_type store a.0 b.0 store' t a.1 b.1 b.2

  new_guid_service-cons :
      (r : ℕ) (realms : List ℕ) (store first store' : s.Store) (realm guid_type : ℕ)
      → s.max_guid first realm guid_type ≡ (
          if r == realm
          then initial (s.max_guid store realm guid_type) (mysql realm guid_type)
          else s.max_guid store realm guid_type)
      → s.max_guid store' realm guid_type ≡ (
          if contains realms realm
          then initial (s.max_guid first realm guid_type) (mysql realm guid_type)
          else s.max_guid first realm guid_type)
      → s.max_guid store' realm guid_type ≡ (
          if contains (r ∷ realms) realm
          then initial (s.max_guid store realm guid_type) (mysql realm guid_type)
          else s.max_guid store realm guid_type)
  new_guid_service-cons r realms store first store' realm guid_type now later = ground (
    arith,
    now,
    later,
    initial-initial (s.max_guid store realm guid_type) (mysql realm guid_type),
  )

  -- Once the service has started, the storage holds for each of its realms and each type the maximum
  -- that it held before, or the database's for that realm and type where it held 0. Whatever it held
  -- for other realms is unchanged.
  pub new_guid_service_lem :
      (realms : List ℕ) (store : s.Store) (cache : LocalCache) (store' : s.Store)
      (cache' : LocalCache) (realm guid_type : ℕ)
      → guid_type < guid_type_max
      → new_guid_service s mysql realms store cache ≡ some (store', cache')
      → s.max_guid store' realm guid_type ≡ (
          if contains realms realm
          then initial (s.max_guid store realm guid_type) (mysql realm guid_type)
          else s.max_guid store realm guid_type)
  unfolding new_guid_service
  new_guid_service_lem [] store cache store' cache' realm guid_type t e = ground arith
  new_guid_service_lem (r ∷ realms) store cache store' cache' realm guid_type t e =
      let first = >>=-eq-some (init_realm s mysql store r) _ e in
      new_guid_service-cons r realms store first.0 store' realm guid_type
        (init_realm_lem r store first.0 realm guid_type t first.1)
        (new_guid_service_lem realms first.0 (put cache r (λ t. [])) store' cache' realm guid_type t
          first.2)
