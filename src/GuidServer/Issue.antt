-- ===== src/GuidServer/Issue.antt =====
-- What `UseGuids` and `AddDiapason` promise.
use athena_wow_cluster.Prelude.{
  ℕ, ◌+◌, ◌-◌, ◌≤◌, ◌<◌, ◌≡◌, ◌↔◌, ◌⊎◌, inl, inr, List, [], ◌∷◌, arith, leb, if◌then◌else◌, All,
  Any, u64_mod, sub64,
}
use athena_wow_cluster.GuidServer.Diapasons.{
  GuidDiapason, GuidDiapasonWithState, guids_left, use_guids_loop, cleanup_empty, use_guids,
  add_diapason,
}
use athena_wow_cluster.GuidServer.Ranges.{
  Within, IsFree, size_sum, left_sum, IsAscending, guids_left_lem, IsFree-ge, cleanup_empty-IsFree,
  IsFree-cleanup_empty, cleanup_empty-IsAscending,
}

use_guids_loop-size :
    (n lo : ℕ) (ds : List GuidDiapasonWithState)
    → 0 < n
    → n < u64_mod
    → IsAscending lo ds
    → ((n ≤ left_sum ds) × (size_sum (use_guids_loop n ds).0 ≡ n))
      ⊎ ((left_sum ds < n) × (size_sum (use_guids_loop n ds).0 ≡ left_sum ds))
unfolding use_guids_loop
use_guids_loop-size n lo [] p u a = ground arith
use_guids_loop-size n lo (d ∷ ds) p u a = ground (
  arith,
  guids_left_lem d a.0,
  use_guids_loop-size (n - (d.end + 1 - d.current_guid)) (d.end + 1) ds,
)

use_guids_loop-IsFree :
    (g n lo : ℕ) (ds : List GuidDiapasonWithState)
    → 0 < n
    → n < u64_mod
    → IsAscending lo ds
    → Any (Within g) (use_guids_loop n ds).0
    → Any (IsFree g) ds
unfolding use_guids_loop
use_guids_loop-IsFree g n lo [] p u a h = elim h [ ]
use_guids_loop-IsFree g n lo (d ∷ ds) p u a h = ground (
  arith,
  guids_left_lem d a.0,
  use_guids_loop-IsFree g (n - (d.end + 1 - d.current_guid)) (d.end + 1) ds,
)

-- A request is answered in full whenever the ranges hold enough, and otherwise with all they hold.
pub size_sum-use_guids :
    (n lo : ℕ) (ds : List GuidDiapasonWithState)
    → 0 < n
    → n < u64_mod
    → IsAscending lo ds
    → size_sum (use_guids n ds).0 ≡ (if leb n (left_sum ds) then n else left_sum ds)
unfolding use_guids
size_sum-use_guids n lo ds p u a = ground (arith, use_guids_loop-size n lo ds p u a)

-- Every GUID handed out was free before the request.
pub use_guids-IsFree :
    (g n lo : ℕ) (ds : List GuidDiapasonWithState)
    → 0 < n
    → n < u64_mod
    → IsAscending lo ds
    → Any (Within g) (use_guids n ds).0
    → Any (IsFree g) ds
unfolding use_guids
use_guids-IsFree g n lo ds p u a h = use_guids_loop-IsFree g n lo ds p u a h

use_guids_loop-IsAscending :
    (n lo : ℕ) (ds : List GuidDiapasonWithState)
    → 0 < n
    → n < u64_mod
    → IsAscending lo ds
    → IsAscending lo (use_guids_loop n ds).1
unfolding use_guids_loop
use_guids_loop-IsAscending n lo [] p u a = tt
use_guids_loop-IsAscending n lo (d ∷ ds) p u a = ground (
  arith,
  guids_left_lem d a.0,
  use_guids_loop-IsAscending (n - (d.end + 1 - d.current_guid)) (d.end + 1) ds,
)

-- A request keeps the ranges valid and in order.
pub use_guids-IsAscending :
    (n lo : ℕ) (ds : List GuidDiapasonWithState)
    → 0 < n
    → n < u64_mod
    → IsAscending lo ds
    → IsAscending lo (use_guids n ds).1
unfolding use_guids
use_guids-IsAscending n lo ds p u a =
    cleanup_empty-IsAscending lo (use_guids_loop n ds).1 (use_guids_loop-IsAscending n lo ds p u a)

use_guids_loop-after :
    (g n lo : ℕ) (ds : List GuidDiapasonWithState)
    → 0 < n
    → n < u64_mod
    → IsAscending lo ds
    → Any (IsFree g) (use_guids_loop n ds).1
    → Any (IsFree g) ds
unfolding use_guids_loop
use_guids_loop-after g n lo [] p u a h = elim h [ ]
use_guids_loop-after g n lo (d ∷ ds) p u a h = ground (
  arith,
  guids_left_lem d a.0,
  use_guids_loop-after g (n - (d.end + 1 - d.current_guid)) (d.end + 1) ds,
)

-- A request frees no GUID.
pub IsFree-use_guids :
    (g n lo : ℕ) (ds : List GuidDiapasonWithState)
    → 0 < n
    → n < u64_mod
    → IsAscending lo ds
    → Any (IsFree g) (use_guids n ds).1
    → Any (IsFree g) ds
unfolding use_guids
IsFree-use_guids g n lo ds p u a h =
    use_guids_loop-after g n lo ds p u a (IsFree-cleanup_empty g (use_guids_loop n ds).1 h)

module _ (n lo : ℕ) (d : GuidDiapasonWithState) (ds : List GuidDiapasonWithState) (p : 0 < n)
    (fits : n ≤ d.end + 1 - d.current_guid) (a : IsAscending lo (d ∷ ds)) where
  first_fit :
      (use_guids_loop n (d ∷ ds) ≡ (
        record { start = d.current_guid; end = d.current_guid + n - 1 } ∷ [],
        record d { current_guid = d.current_guid + n } ∷ ds,
      ))
  unfolding use_guids_loop
  first_fit = ground (arith, guids_left_lem d a.0)

  -- While the ranges are valid, apart and in ascending order, as refills from above keep them, a request
  -- that the first range can answer takes out or leaves each free GUID, never both.
  pub use_guids_splits :
      (g : ℕ)
      → (Any (IsFree g) (d ∷ ds)
          ↔ (Any (Within g) (use_guids n (d ∷ ds)).0 ⊎ Any (IsFree g) (use_guids n (d ∷ ds)).1))
        × ¬ (Any (Within g) (use_guids n (d ∷ ds)).0 × Any (IsFree g) (use_guids n (d ∷ ds)).1)
  unfolding use_guids
  use_guids_splits g = rw first_fit (
      ground (
        arith,
        cleanup_empty-IsFree g lo rest (omega arith, a.1, a.2),
        IsFree-cleanup_empty g rest,
        IsFree-ge g (d.end + 1) ds a.2,
      ))
    where
      rest : List GuidDiapasonWithState
      rest = record d { current_guid = d.current_guid + n } ∷ ds

-- The loop's copy is not written back: a first range that is drained by a request for more than it
-- has left stays as it was, and the next request that it can answer hands out its GUIDs again.
pub use_guids_reissues :
    (n m lo : ℕ) (d : GuidDiapasonWithState) (ds : List GuidDiapasonWithState)
    → IsAscending lo (d ∷ ds)
    → d.current_guid ≤ d.end
    → d.end + 1 - d.current_guid < n
    → n < u64_mod
    → 0 < m
    → m ≤ d.end + 1 - d.current_guid
    → Any (Within d.current_guid) (use_guids n (d ∷ ds)).0
      × Any (Within d.current_guid) (use_guids m (use_guids n (d ∷ ds)).1).0
unfolding use_guids use_guids_loop cleanup_empty
use_guids_reissues n m lo d ds a some_left short u p fits = ground (arith, guids_left_lem d a.0)

abbrev pub AllBelow : ℕ → List GuidDiapasonWithState → Type 0
AllBelow hi ds = All (λ d. d.end < hi) ds

module _ (hi : ℕ) (new : GuidDiapason) (above : hi ≤ new.start) (ordered : new.start ≤ new.end)
    (fits : new.end + 1 < u64_mod) where
  -- A range above all others joins them with all its GUIDs, and no other GUID comes or goes.
  pub add_diapason-IsFree :
      (g lo : ℕ) (ds : List GuidDiapasonWithState)
      → IsAscending lo ds
      → AllBelow hi ds
      → Any (IsFree g) (add_diapason new ds) ↔ (Any (IsFree g) ds ⊎ Within g new)
  unfolding add_diapason
  add_diapason-IsFree g lo [] a b = ground arith
  add_diapason-IsFree g lo (d ∷ []) a b = ground arith
  add_diapason-IsFree g lo (d ∷ e ∷ ds) a b =
      ground (arith, add_diapason-IsFree g (d.end + 1) (e ∷ ds) a.2 b.1)

  -- It keeps the ranges valid and in order, and below the end of the new one.
  pub add_diapason-IsAscending :
      (lo : ℕ) (ds : List GuidDiapasonWithState)
      → IsAscending lo ds
      → lo ≤ hi
      → AllBelow hi ds
      → IsAscending lo (add_diapason new ds) × AllBelow (new.end + 1) (add_diapason new ds)
  unfolding add_diapason
  add_diapason-IsAscending lo [] a h b = ground arith
  add_diapason-IsAscending lo (d ∷ []) a h b = ground arith
  add_diapason-IsAscending lo (d ∷ e ∷ ds) a h b =
      ground (arith, add_diapason-IsAscending (d.end + 1) (e ∷ ds) a.2 (omega arith) b.1)

use_guids_loop-AllBelow :
    (n hi : ℕ) (ds : List GuidDiapasonWithState)
    → AllBelow hi ds
    → AllBelow hi (use_guids_loop n ds).1
unfolding use_guids_loop
use_guids_loop-AllBelow n hi [] b = tt
use_guids_loop-AllBelow n hi (d ∷ ds) b =
    ground (arith, use_guids_loop-AllBelow (sub64 n (guids_left d)) hi ds b.1)

cleanup_empty-AllBelow :
    (hi : ℕ) (ds : List GuidDiapasonWithState) → AllBelow hi ds → AllBelow hi (cleanup_empty ds)
unfolding cleanup_empty
cleanup_empty-AllBelow hi [] b = tt
cleanup_empty-AllBelow hi (d ∷ ds) b = ground (arith, cleanup_empty-AllBelow hi ds b.1)

pub use_guids-AllBelow :
    (n hi : ℕ) (ds : List GuidDiapasonWithState) → AllBelow hi ds → AllBelow hi (use_guids n ds).1
unfolding use_guids
use_guids-AllBelow n hi ds b =
    cleanup_empty-AllBelow hi (use_guids_loop n ds).1 (use_guids_loop-AllBelow n hi ds b)

pub IsFree-not_above :
    (g hi : ℕ) (ds : List GuidDiapasonWithState) → AllBelow hi ds → Any (IsFree g) ds → ¬ (hi ≤ g)
IsFree-not_above g hi [] b f h = elim f [ ]
IsFree-not_above g hi (d ∷ ds) b (inl f) h = omega arith
IsFree-not_above g hi (d ∷ ds) b (inr f) h = IsFree-not_above g hi ds b.1 f h
