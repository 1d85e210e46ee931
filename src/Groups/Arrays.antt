-- ===== src/Groups/Arrays.antt =====
-- What the moves of array cells do to the members in a slice.
use athena_wow_cluster.Prelude.{
  ℕ, zero, suc, ◌-◌, ◌≤◌, ◌<◌, ◌≡◌, refl, sym, ap, ◌∙◌, some, List, [], ◌∷◌, ◌++◌, append_assoc,
  arith, length, get_elem?, set, take, drop,
}
use athena_wow_cluster.Groups.Model.{GroupMember}
use athena_wow_cluster.Groups.Cells.{append_cells, remove_cells}

module _ {ℓ} {A : Type ℓ} where
  -- The members without the one at an index.
  abbrev pub remove_at : ℕ → List A → List A
  remove_at i [] = []
  remove_at zero (x ∷ xs) = xs
  remove_at (suc i) (x ∷ xs) = x ∷ remove_at i xs

  take-append-drop-suc : (i : ℕ) (xs : List A) → take i xs ++ drop (suc i) xs ≡ remove_at i xs
  take-append-drop-suc zero [] = refl
  take-append-drop-suc (suc i) [] = refl
  take-append-drop-suc zero (x ∷ xs) = refl
  take-append-drop-suc (suc i) (x ∷ xs) = rw (take-append-drop-suc i xs)

  take-take : (i n : ℕ) (xs : List A) → i ≤ n → take i xs ≡ take i (take n xs)
  take-take zero n xs h = refl
  take-take (suc i) zero xs h = elim h [ ]
  take-take (suc i) (suc n) [] h = refl
  take-take (suc i) (suc n) (x ∷ xs) h = rw (take-take i n xs (omega arith))

  pub length-take : (n : ℕ) (xs : List A) → n ≤ length xs → length (take n xs) ≡ n
  length-take zero xs h = refl
  length-take (suc n) [] h = elim h [ ]
  length-take (suc n) (x ∷ xs) h = ap suc (length-take n xs (omega arith))

  pub length-remove_at :
      (i : ℕ) (xs : List A) → i < length xs → suc (length (remove_at i xs)) ≡ length xs
  length-remove_at i [] h = elim h [ ]
  length-remove_at zero (x ∷ xs) h = refl
  length-remove_at (suc i) (x ∷ xs) h = ap suc (length-remove_at i xs (omega arith))

  take-length_append : (xs ys : List A) (n : ℕ) → length xs ≡ n → take n (xs ++ ys) ≡ xs
  take-length_append [] ys zero e = refl
  take-length_append [] ys (suc n) e = absurd (omega arith)
  take-length_append (x ∷ xs) ys zero e = absurd (omega arith)
  take-length_append (x ∷ xs) ys (suc n) e = rw (take-length_append xs ys n (omega arith))

  pub get_elem?-append_left :
      (xs ys : List A) (j : ℕ) → j < length xs → get_elem? (xs ++ ys) j ≡ get_elem? xs j
  get_elem?-append_left [] ys j h = elim h [ ]
  get_elem?-append_left (x ∷ xs) ys zero h = refl
  get_elem?-append_left (x ∷ xs) ys (suc j) h = get_elem?-append_left xs ys j (omega arith)

  get_elem?-remove_at :
      (i j : ℕ) (xs : List A) → i ≤ j → get_elem? (remove_at i xs) j ≡ get_elem? xs (suc j)
  get_elem?-remove_at i j [] h = refl
  get_elem?-remove_at zero j (x ∷ xs) h = refl
  get_elem?-remove_at (suc i) zero (x ∷ xs) h = elim h [ ]
  get_elem?-remove_at (suc i) (suc j) (x ∷ xs) h = get_elem?-remove_at i j xs (omega arith)

  pub get_elem?-take : (n j : ℕ) (xs : List A) → j < n → get_elem? (take n xs) j ≡ get_elem? xs j
  get_elem?-take zero j xs h = elim h [ ]
  get_elem?-take (suc n) j [] h = refl
  get_elem?-take (suc n) zero (x ∷ xs) h = refl
  get_elem?-take (suc n) (suc j) (x ∷ xs) h = get_elem?-take n j xs (omega arith)

  pub take-grown :
      (xs : List A) (n : ℕ) (x : A) (ys : List A)
      → n ≤ length xs
      → take (suc n) (take n xs ++ x ∷ ys) ≡ take n xs ++ x ∷ []
  take-grown xs zero x ys h = refl
  take-grown [] (suc n) x ys h = elim h [ ]
  take-grown (c ∷ cs) (suc n) x ys h = rw (take-grown cs n x ys (omega arith))

pub take-append_cells :
    (cells : List GroupMember) (n : ℕ) (m : GroupMember)
    → n ≤ length cells
    → take (suc n) (append_cells cells n m) ≡ take n cells ++ m ∷ []
unfolding append_cells
take-append_cells cells n m h = take-grown cells n m (drop (suc n) cells) h

module _ (cells : List GroupMember) (n i : ℕ) (h : i < n) (k : n ≤ length cells) where
  remove_cells_lem : remove_cells cells n i ≡ remove_at i (take n cells) ++ drop (n - 1) cells
  unfolding remove_cells
  remove_cells_lem = rw (take-take i n cells (omega arith)) (
      sym (append_assoc (take i (take n cells)) (drop (suc i) (take n cells)) _)
      ∙ ap (λ l. l ++ drop (n - 1) cells) (take-append-drop-suc i (take n cells)))

  length-rest : length (remove_at i (take n cells)) ≡ n - 1
  length-rest = omega (
    arith,
    length-remove_at i (take n cells) (rw (length-take n cells k) h),
    length-take n cells k,
  )

  -- The slice without its last cell is the members without the removed one.
  pub take-remove_cells : take (n - 1) (remove_cells cells n i) ≡ remove_at i (take n cells)
  take-remove_cells =
      rw remove_cells_lem
        (take-length_append (remove_at i (take n cells)) (drop (n - 1) cells) (n - 1) length-rest)

  -- Each cell from the index on holds the member that stood one further.
  pub get_elem?-remove_cells :
      (j : ℕ) → i ≤ j → suc j < n → get_elem? (remove_cells cells n i) j ≡ get_elem? cells (suc j)
  get_elem?-remove_cells j p q = rw remove_cells_lem (
      get_elem?-append_left (remove_at i (take n cells)) _ j (omega (arith, length-rest))
      ∙ get_elem?-remove_at i j (take n cells) p
      ∙ get_elem?-take n (suc j) cells q)

pub get_elem?-grown {ℓ} :
    {A : Type ℓ} (xs : List A) (n : ℕ) (x : A) (ys : List A)
    → n ≤ length xs
    → get_elem? (take n xs ++ x ∷ ys) n ≡ some x
get_elem?-grown xs zero x ys h = refl
get_elem?-grown [] (suc n) x ys h = elim h [ ]
get_elem?-grown (c ∷ cs) (suc n) x ys h = get_elem?-grown cs n x ys (omega arith)

pub take-set {ℓ} :
    {A : Type ℓ} (n i : ℕ) (xs : List A) (x : A) → take n (set xs i x) ≡ set (take n xs) i x
take-set zero i xs x = refl
take-set (suc n) i [] x = refl
take-set (suc n) zero (y ∷ xs) x = refl
take-set (suc n) (suc i) (y ∷ xs) x = rw (take-set n i xs x)
