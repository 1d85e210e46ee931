-- ===== src/Prelude/Maps.antt =====
-- Go maps with numeric keys, read and written only by key: functions into `Option`.
use Prim.Native.Nat.{ℕ}
use mathlib.Core.Path.{◌≡◌, refl}
use mathlib.Core.Option.{Option, none, some}
use athena_wow_cluster.Prelude.Tests.{◌==◌, if◌then◌else◌}

abbrev pub Map {ℓ} : Type ℓ → Type ℓ
Map V = ℕ → Option V

module _ {ℓ} {V : Type ℓ} where
  abbrev pub empty_map : Map V
  empty_map k = none

  -- `m[k] = v`.
  abbrev pub put : Map V → ℕ → V → Map V
  put m k v j = if k == j then some v else m j

  -- `delete(m, k)`.
  abbrev pub delete : Map V → ℕ → Map V
  delete m k j = if k == j then none else m j

-- An error as `none`: the rest of the function is skipped.
infixl 5 ◌>>=◌
abbrev pub ◌>>=◌ {ℓ κ} : {A : Type ℓ} {B : Type κ} → Option A → (A → Option B) → Option B
none >>= f = none
some a >>= f = f a

pub >>=-eq-some {ℓ κ} :
    {A : Type ℓ} {B : Type κ} (m : Option A) (f : A → Option B) {b : B}
    → (m >>= f) ≡ some b
    → (a : A) × (m ≡ some a) × (f a ≡ some b)
>>=-eq-some none f h = cc
>>=-eq-some (some a) f h = (a, refl, h)
