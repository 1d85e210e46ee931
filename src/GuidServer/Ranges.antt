-- ===== src/GuidServer/Ranges.antt =====
-- What a list of ranges stands for: the set of GUIDs in it, its size, and the order that keeps the
-- ranges apart.
use athena_wow_cluster.Prelude.{
  ℕ, ◌+◌, ◌-◌, ◌≤◌, ◌<◌, ◌≡◌, refl, inl, inr, List, [], ◌∷◌, arith, u64_mod, Any,
}
use athena_wow_cluster.GuidServer.Diapasons.{
  GuidDiapason, GuidDiapasonWithState, guids_left, cleanup_empty,
}

abbrev pub Within : ℕ → GuidDiapason → Type 0
Within g r = (r.start ≤ g) × (g ≤ r.end)

-- A GUID that the range still has to give.
abbrev pub IsFree : ℕ → GuidDiapasonWithState → Type 0
IsFree g d = (d.current_guid ≤ g) × (g ≤ d.end)

abbrev pub size : GuidDiapason → ℕ
size r = r.end + 1 - r.start

abbrev pub size_sum : List GuidDiapason → ℕ
size_sum [] = 0
size_sum (r ∷ rs) = size r + size_sum rs

abbrev pub left_sum : List GuidDiapasonWithState → ℕ
left_sum [] = 0
left_sum (d ∷ ds) = (d.end + 1 - d.current_guid) + left_sum ds

-- The counter lies in the range or just behind it, and the range stays off the end of uint64.
pub record IsValid (d : GuidDiapasonWithState) : Type 0 where
  pub started : d.start ≤ d.current_guid
  pub bounded : d.current_guid ≤ d.end + 1
  pub fits : d.end + 1 < u64_mod

-- Valid ranges, each behind the one before it and none below `lo`.
abbrev pub IsAscending : ℕ → List GuidDiapasonWithState → Type 0
IsAscending lo [] = Unit {0}
IsAscending lo (d ∷ ds) = IsValid d × (lo ≤ d.start) × IsAscending (d.end + 1) ds

pub guids_left_lem :
    (d : GuidDiapasonWithState) → IsValid d → guids_left d ≡ d.end + 1 - d.current_guid
unfolding guids_left
guids_left_lem d v = ground arith

pub IsAscending-mono :
    (m n : ℕ) (ds : List GuidDiapasonWithState) → n ≤ m → IsAscending m ds → IsAscending n ds
IsAscending-mono m n [] h a = tt
IsAscending-mono m n (d ∷ ds) h a = (a.0, omega arith, a.2)

pub IsFree-ge :
    (g lo : ℕ) (ds : List GuidDiapasonWithState) → IsAscending lo ds → Any (IsFree g) ds → lo ≤ g
IsFree-ge g lo [] a f = elim f [ ]
IsFree-ge g lo (d ∷ ds) a (inl f) = omega arith
IsFree-ge g lo (d ∷ ds) a (inr f) = omega (arith, IsFree-ge g (d.end + 1) ds a.2 f)

-- Dropping empty ranges loses no GUID.
pub cleanup_empty-IsFree :
    (g lo : ℕ) (ds : List GuidDiapasonWithState)
    → IsAscending lo ds
    → Any (IsFree g) ds
    → Any (IsFree g) (cleanup_empty ds)
unfolding cleanup_empty
cleanup_empty-IsFree g lo [] a f = elim f [ ]
cleanup_empty-IsFree g lo (d ∷ ds) a f =
    ground (arith, guids_left_lem d a.0, cleanup_empty-IsFree g (d.end + 1) ds a.2)

pub IsFree-cleanup_empty :
    (g : ℕ) (ds : List GuidDiapasonWithState)
    → Any (IsFree g) (cleanup_empty ds)
    → Any (IsFree g) ds
unfolding cleanup_empty
IsFree-cleanup_empty g [] f = elim f [ ]
IsFree-cleanup_empty g (d ∷ ds) f = ground (arith, IsFree-cleanup_empty g ds)

pub cleanup_empty-IsAscending :
    (lo : ℕ) (ds : List GuidDiapasonWithState)
    → IsAscending lo ds
    → IsAscending lo (cleanup_empty ds)
unfolding cleanup_empty
cleanup_empty-IsAscending lo [] a = tt
cleanup_empty-IsAscending lo (d ∷ ds) a = ground (
  arith,
  cleanup_empty-IsAscending (d.end + 1) ds a.2,
  IsAscending-mono (d.end + 1) lo (cleanup_empty ds),
)

pub left_sum-cleanup_empty :
    (lo : ℕ) (ds : List GuidDiapasonWithState)
    → IsAscending lo ds
    → left_sum (cleanup_empty ds) ≡ left_sum ds
unfolding cleanup_empty
left_sum-cleanup_empty lo [] a = refl
left_sum-cleanup_empty lo (d ∷ ds) a =
    ground (arith, guids_left_lem d a.0, left_sum-cleanup_empty (d.end + 1) ds a.2)
