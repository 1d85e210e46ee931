-- ===== src/GuidServer/History.antt =====
-- Histories of requests and refills over one list of ranges.
use athena_wow_cluster.Prelude.{
  ℕ, ◌+◌, ◌-◌, ◌≤◌, ◌<◌, ◌⊎◌, inl, inr, List, [], ◌∷◌, ◌++◌, arith, Any, Any-append, u64_mod,
}
use athena_wow_cluster.GuidServer.Diapasons.{
  GuidDiapason, GuidDiapasonWithState, use_guids, add_diapason,
}
use athena_wow_cluster.GuidServer.Ranges.{Within, IsFree, IsAscending}
use athena_wow_cluster.GuidServer.Issue.{
  use_guids-IsFree, use_guids-IsAscending, IsFree-use_guids, use_guids_splits, AllBelow,
  add_diapason-IsFree, add_diapason-IsAscending, use_guids-AllBelow, IsFree-not_above,
}

pub data Op : Type 0 where
  use_op : ℕ → Op
  add_op : GuidDiapason → Op

-- All ranges handed out along a history, in order, and the list at its end.
unfoldable pub run :
    List Op → List GuidDiapasonWithState → List GuidDiapason × List GuidDiapasonWithState
run [] ds = ([], ds)
run (use_op n ∷ ops) ds =
    let r = use_guids n ds in let rest = run ops r.1 in (r.0 ++ rest.0, rest.1)
run (add_op new ∷ ops) ds = run ops (add_diapason new ds)

-- Requests are for some GUIDs, and each refill lies above everything before it, as the storage's
-- maximum grows.
abbrev pub IsFresh : ℕ → List Op → Type 0
IsFresh hi [] = Unit {0}
IsFresh hi (use_op n ∷ ops) = (0 < n) × (n < u64_mod) × IsFresh hi ops
IsFresh hi (add_op new ∷ ops) =
    (hi ≤ new.start) × (new.start ≤ new.end) × (new.end + 1 < u64_mod) × IsFresh (new.end + 1) ops

-- Whatever a history hands out was free at its start or came by a refill.
pub run-IsFree :
    (g lo hi : ℕ) (ops : List Op) (ds : List GuidDiapasonWithState)
    → IsAscending lo ds
    → AllBelow hi ds
    → lo ≤ hi
    → IsFresh hi ops
    → Any (Within g) (run ops ds).0
    → Any (IsFree g) ds ⊎ (hi ≤ g)
unfolding run
run-IsFree g lo hi [] ds a b l f h = elim h [ ]
run-IsFree g lo hi (use_op n ∷ ops) ds a b l f h =
    elim (Any-append (Within g) (use_guids n ds).0 (run ops (use_guids n ds).1).0 h) [
      | inl now ↦ inl (use_guids-IsFree g n lo ds f.0 f.1 a now)
      | inr later ↦ ground (
        arith,
        run-IsFree g lo hi ops (use_guids n ds).1 (use_guids-IsAscending n lo ds f.0 f.1 a)
            (use_guids-AllBelow n hi ds b) l f.2 later,
        IsFree-use_guids g n lo ds f.0 f.1 a,
      )
    ]
run-IsFree g lo hi (add_op new ∷ ops) ds a b l f h =
    let kept = add_diapason-IsAscending hi new f.0 f.1 f.2 lo ds a l b in
    ground (
      arith,
      run-IsFree g lo (new.end + 1) ops (add_diapason new ds) kept.0 kept.1 (omega arith) f.3 h,
      add_diapason-IsFree hi new f.0 f.1 f.2 g lo ds a b,
    )

-- No GUID is issued twice: what a request that the first range can answer hands out does not come
-- again in any later history of requests and refills from above.
pub never_reissued :
    (g n lo hi : ℕ) (d : GuidDiapasonWithState) (ds : List GuidDiapasonWithState) (ops : List Op)
    → IsAscending lo (d ∷ ds)
    → AllBelow hi (d ∷ ds)
    → lo ≤ hi
    → 0 < n
    → n ≤ d.end + 1 - d.current_guid
    → IsFresh hi ops
    → Any (Within g) (use_guids n (d ∷ ds)).0
    → ¬ Any (Within g) (run ops (use_guids n (d ∷ ds)).1).0
never_reissued g n lo hi d ds ops a b l p fits f now later =
    elim (run-IsFree g lo hi ops (use_guids n (d ∷ ds)).1
      (use_guids-IsAscending n lo (d ∷ ds) p (omega arith) a) (use_guids-AllBelow n hi (d ∷ ds) b) l
      f later) [
        | inl free ↦ (use_guids_splits n lo d ds p fits a g).1 (now, free)
        | inr high ↦
            IsFree-not_above g hi (d ∷ ds) b
              (use_guids-IsFree g n lo (d ∷ ds) p (omega arith) a now) high
      ]
