-- ===== src/GuidServer/Diapasons.antt =====
-- apps/guidserver/service/guid-diapasons.go: the ranges of GUIDs that one server may still hand out.
-- The lock of `AvailableDiapasons` makes each method one step, so the list is the state.
use athena_wow_cluster.Prelude.{ℕ, List, [], ◌∷◌, ◌==◌, ltb, leb, if◌then◌else◌, add64, sub64}

pub record GuidDiapason : Type 0 where
  pub start : ℕ
  pub end : ℕ

pub record GuidDiapasonWithState : Type 0 where
  pub diapason : GuidDiapason
  pub open diapason use *
  pub current_guid : ℕ

unfoldable pub guids_left : GuidDiapasonWithState → ℕ
guids_left d = if ltb d.end d.current_guid then 0 else add64 (sub64 d.end d.current_guid) 1

unfoldable pub total_count : GuidDiapasonWithState → ℕ
total_count d = add64 (sub64 d.end d.start) 1

-- The two sums of the loop in `PctUsage`, as (totalCount, totalLeft).
unfoldable pub usage_totals : ℕ → ℕ → List GuidDiapasonWithState → ℕ × ℕ
usage_totals count left [] = (count, left)
usage_totals count left (d ∷ ds) =
    usage_totals (add64 count (total_count d)) (add64 left (guids_left d)) ds

-- The loop of `UseGuids`: the ranges appended to the result, and the list afterwards.
-- The loop variable `diapason` is a copy, so the drained branch, which assigns to its `CurrentGuid`,
-- leaves the entry of the list as it was.
unfoldable pub use_guids_loop :
    ℕ → List GuidDiapasonWithState → List GuidDiapason × List GuidDiapasonWithState
unfolding guids_left
use_guids_loop remaining [] = ([], [])
use_guids_loop remaining (d ∷ ds) =
    let rest = use_guids_loop (sub64 remaining (guids_left d)) ds in
    if leb remaining (guids_left d)
    then (
      record { start = d.current_guid; end = add64 (sub64 d.current_guid 1) remaining } ∷ [],
      record d { current_guid = add64 d.current_guid remaining } ∷ ds,
    )
    else (record { start = d.current_guid; end = d.end } ∷ rest.0, d ∷ rest.1)

unfoldable pub cleanup_empty : List GuidDiapasonWithState → List GuidDiapasonWithState
cleanup_empty [] = []
cleanup_empty (d ∷ ds) = let rest = cleanup_empty ds in if guids_left d == 0 then rest else d ∷ ds

-- `defer d.CleanupEmpty()` runs on both ways out of the loop.
unfoldable pub use_guids :
    ℕ → List GuidDiapasonWithState → List GuidDiapason × List GuidDiapasonWithState
use_guids amount ds = let r = use_guids_loop amount ds in (r.0, cleanup_empty r.1)

-- `AddDiapason`: the new range extends the last one if it follows it, else becomes the last.
unfoldable pub add_diapason : GuidDiapason → List GuidDiapasonWithState → List GuidDiapasonWithState
add_diapason new [] = record { diapason = new; current_guid = new.start } ∷ []
add_diapason new (d ∷ []) =
    if d.end == sub64 new.start 1
    then record d { diapason = record { start = d.start; end = new.end } } ∷ []
    else d ∷ record { diapason = new; current_guid = new.start } ∷ []
add_diapason new (d ∷ e ∷ ds) = d ∷ add_diapason new (e ∷ ds)
