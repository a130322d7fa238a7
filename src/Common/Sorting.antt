-- ===== src/Common/Sorting.antt =====
-- `sorted` and `list.sort` of Python: a stable sort by a Boolean order, as insertion sort.
use tecnosor_sas_migration_d.Common.{
  ◌≡◌, Bool, true, false, List, [], ◌∷◌, if◌then◌else◌, find, some, refl, suc, length, arith, All,
  Bool-cases, inl, inr, ℕ, ◌≤◌,
}

-- The first element has the least measure.
abbrev pub HasLeastHead {ℓ} : {A : Type ℓ} → (A → ℕ) → List A → Type 0
HasLeastHead f [] = Unit
HasLeastHead f (c ∷ cs) = All (λ d. f c ≤ f d) cs

module _ {ℓ} {A : Type ℓ} (before : A → A → Bool) where
  -- `x` goes in front of the first element that comes strictly after it or equals it
  unfoldable pub insert : A → List A → List A
  insert x [] = x ∷ []
  insert x (y ∷ ys) = if before y x then y ∷ insert x ys else x ∷ y ∷ ys

  unfoldable pub sort : List A → List A
  unfolding insert
  sort [] = []
  sort (x ∷ xs) = insert x (sort xs)

  pub length-insert : (x : A) (ys : List A) → length (insert x ys) ≡ suc (length ys)
  unfolding insert
  length-insert x [] = omega arith
  length-insert x (y ∷ ys) = ground (arith, length-insert x ys)

  pub length-sort : (xs : List A) → length (sort xs) ≡ length xs
  unfolding sort
  length-sort [] = omega arith
  length-sort (x ∷ xs) = omega (arith, length-insert x (sort xs), length-sort xs)

  pub All-insert {κ} : (P : A → Type κ) (x : A) (ys : List A) → P x → All P ys → All P (insert x ys)
  unfolding insert
  All-insert P x [] h hs = (h, tt)
  All-insert P x (y ∷ ys) h hs = ground (arith, All-insert P x ys h hs.1)

  pub All-sort {κ} : (P : A → Type κ) (xs : List A) → All P xs → All P (sort xs)
  unfolding sort
  All-sort P [] hs = tt
  All-sort P (x ∷ xs) hs = All-insert P x (sort xs) hs.0 (All-sort P xs hs.1)

  -- A sort by a strict order keeps the first element that passes a test, if no two elements that
  -- pass are ordered.
  module _ (p : A → Bool)
      (unordered : (x y : A) → before y x ≡ true → p x ≡ true → p y ≡ false) where
    find-insert : (x : A) (ys : List A) → find p (insert x ys) ≡ (if p x then some x else find p ys)
    unfolding insert
    find-insert x [] = refl
    find-insert x (y ∷ ys) = ground (arith, find-insert x ys, unordered x y)

    pub find-sort : (xs : List A) → find p (sort xs) ≡ find p xs
    unfolding sort
    find-sort [] = refl
    find-sort (x ∷ xs) = ground (arith, find-insert x (sort xs), find-sort xs)

  All-insert_back {κ} :
      (P : A → Type κ) (x : A) (ys : List A) → All P (insert x ys) → P x × All P ys
  unfolding insert
  All-insert_back P x [] h = (h.0, tt)
  All-insert_back P x (y ∷ ys) h = elim (Bool-cases (before y x)) [
    | inl after ↦
        let h' = rw (after, insert) at h in
        let (px, pys) = All-insert_back P x ys h'.1 in (px, (h'.0, pys))
    | inr here ↦ let h' = rw (here, insert) at h in (h'.0, h'.1)
  ]

  pub All-sort_back {κ} : (P : A → Type κ) (xs : List A) → All P (sort xs) → All P xs
  unfolding sort
  All-sort_back P [] h = tt
  All-sort_back P (x ∷ xs) h =
      let (px, pxs) = All-insert_back P x (sort xs) h in (px, All-sort_back P xs pxs)

  -- The head of a sorted list has the least measure, if the order never goes against the measure.
  module _ (f : A → ℕ) (up : (x y : A) → before y x ≡ true → f y ≤ f x)
      (down : (x y : A) → before y x ≡ false → f x ≤ f y) where
    weaken : (a b : ℕ) (ys : List A) → a ≤ b → All (λ d. b ≤ f d) ys → All (λ d. a ≤ f d) ys
    weaken a b [] h hs = tt
    weaken a b (y ∷ ys) h hs = (omega arith, weaken a b ys h hs.1)

    insert-HasLeastHead : (x : A) (ys : List A) → HasLeastHead f ys → HasLeastHead f (insert x ys)
    unfolding insert
    insert-HasLeastHead x [] h = tt
    insert-HasLeastHead x (y ∷ ys) h = elim (Bool-cases (before y x)) [
      | inl after ↦ rw (after, insert) (All-insert (λ d. f y ≤ f d) x ys (up x y after) h)
      | inr here ↦ rw (here, insert) (down x y here, weaken (f x) (f y) ys (down x y here) h)
    ]

    pub sort-HasLeastHead : (xs : List A) → HasLeastHead f (sort xs)
    unfolding sort
    sort-HasLeastHead [] = tt
    sort-HasLeastHead (x ∷ xs) = insert-HasLeastHead x (sort xs) (sort-HasLeastHead xs)
