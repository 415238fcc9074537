-- ===== src/Rag/Order.antt =====
-- `ORDER BY`, `ROW_NUMBER` and `LIMIT` over lists. Postgres leaves the order of ties open; the sort
-- here is stable.
use safe_shield.Prelude.{
  none, some, find_first, ◌∙◌, ap, zero, refl, Bool-cases, suc, sym, false, arith, length, keep,
  take, subst, inr, true, inl, ◌⊎◌, if◌then◌else◌, [], All, ◌∷◌, ◌≡◌, List, Bool, ℕ,
}

-- Membership, with the place kept.
abbrev pub In : {A : Type 0} → A → List A → Type 0
In a [] = ⊥
In a (x ∷ xs) = (a ≡ x) ⊎ In a xs

module _ {A : Type 0} where
  -- `before a b`: a may stand before b.
  unfoldable pub insert_by : (A → A → Bool) → A → List A → List A
  insert_by before a [] = a ∷ []
  insert_by before a (x ∷ xs) = if before a x then a ∷ x ∷ xs else x ∷ insert_by before a xs

  unfoldable pub sort_by : (A → A → Bool) → List A → List A
  unfolding insert_by
  sort_by before [] = []
  sort_by before (x ∷ xs) = insert_by before x (sort_by before xs)

  abbrev pub Sorted : (A → A → Bool) → List A → Type 0
  Sorted before [] = Unit {0}
  Sorted before (x ∷ xs) = All (λ y. before x y ≡ true) xs × Sorted before xs

  In-insert_by :
      (before : A → A → Bool) (a b : A) (xs : List A)
      → In b (insert_by before a xs)
      → (b ≡ a) ⊎ In b xs
  unfolding insert_by
  In-insert_by before a b [] h = h
  In-insert_by before a b (x ∷ xs) h = ground (arith, In-insert_by before a b xs)

  -- A sort, a limit and a filter make no row up.
  pub In-sort_by :
      (before : A → A → Bool) (b : A) (xs : List A) → In b (sort_by before xs) → In b xs
  unfolding sort_by
  In-sort_by before b [] h = h
  In-sort_by before b (x ∷ xs) h = elim (In-insert_by before x b (sort_by before xs) h) [
    | inl e ↦ inl e
    | inr i ↦ inr (In-sort_by before b xs i)
  ]

  pub In-take : (n : ℕ) (b : A) (xs : List A) → In b (take n xs) → In b xs
  In-take zero b xs h = absurd h
  In-take (suc n) b [] h = absurd h
  In-take (suc n) b (x ∷ xs) h = ground (arith, In-take n b xs)

  In-kept :
      (p : A → Bool) (b x : A) (xs : List A)
      → p x ≡ true
      → (b ≡ x) ⊎ In b (keep p xs)
      → (In b (keep p xs) → In b xs × (p b ≡ true))
      → ((b ≡ x) ⊎ In b xs) × (p b ≡ true)
  In-kept p b x xs e (inl same) more = (inl same, ap p same ∙ e)
  In-kept p b x xs e (inr i) more = (inr (more i).0, (more i).1)

  pub In-keep : (p : A → Bool) (b : A) (xs : List A) → In b (keep p xs) → In b xs × (p b ≡ true)
  In-keep p b [] h = absurd h
  In-keep p b (x ∷ xs) h = elim (Bool-cases (p x)) [
    | inl e ↦ In-kept p b x xs e (rw e at h) (In-keep p b xs)
    | inr e ↦ let (i, q) = In-keep p b xs (rw e at h) in (inr i, q)
  ]

  pub keep-In : (p : A → Bool) (b : A) (xs : List A) → In b xs → p b ≡ true → In b (keep p xs)
  keep-In p b [] i h = absurd i
  keep-In p b (x ∷ xs) (inl same) h = let e : p x ≡ true = ap p (sym same) ∙ h in rw e (inl same)
  keep-In p b (x ∷ xs) (inr i) h = elim (Bool-cases (p x)) [
    | inl e ↦ rw e (inr (keep-In p b xs i h))
    | inr e ↦ rw e (keep-In p b xs i h)
  ]

  pub find_first-In : (p : A → Bool) (xs : List A) (a : A) → find_first p xs ≡ some a → In a xs
  find_first-In p [] a h = cc
  find_first-In p (x ∷ xs) a h = elim (Bool-cases (p x)) [
    | inl e ↦ inl (ground arith)
    | inr e ↦ inr (find_first-In p xs a (rw e at h))
  ]

  pub find_first-none :
      (p : A → Bool) (xs : List A) (a : A) → find_first p xs ≡ none → In a xs → p a ≡ false
  find_first-none p [] a h i = absurd i
  find_first-none p (x ∷ xs) a h i = elim (Bool-cases (p x)) [
    | inl e ↦ absurd (ground arith)
    | inr e ↦ elim i [ inl same ↦ ap p same ∙ e | inr j ↦ find_first-none p xs a (rw e at h) j ]
  ]

  pub All-In {κ} : (P : A → Type κ) (xs : List A) (a : A) → All P xs → In a xs → P a
  All-In P [] a h i = absurd i
  All-In P (x ∷ xs) a h (inl e) = subst P (sym e) h.0
  All-In P (x ∷ xs) a h (inr i) = All-In P xs a h.1 i

  pub In-All {κ} : (P : A → Type κ) (xs : List A) → ((a : A) → In a xs → P a) → All P xs
  In-All P [] f = tt
  In-All P (x ∷ xs) f = (f x (inl refl), In-All P xs (λ a i. f a (inr i)))

  length-insert_by :
      (before : A → A → Bool) (a : A) (xs : List A)
      → length (insert_by before a xs) ≡ suc (length xs)
  unfolding insert_by
  length-insert_by before a [] = refl
  length-insert_by before a (x ∷ xs) = ground (arith, length-insert_by before a xs)

  pub length-sort_by :
      (before : A → A → Bool) (xs : List A) → length (sort_by before xs) ≡ length xs
  unfolding sort_by
  length-sort_by before [] = refl
  length-sort_by before (x ∷ xs) =
      omega (arith, length-insert_by before x (sort_by before xs), length-sort_by before xs)

  -- A total, transitive order: what `ORDER BY` asks of its key.
  module _ (before : A → A → Bool) (total : (a b : A) → before a b ≡ false → before b a ≡ true)
      (trans : (a b c : A) → before a b ≡ true → before b c ≡ true → before a c ≡ true) where
    All-insert_by :
        (x a : A) (xs : List A)
        → before x a ≡ true
        → All (λ y. before x y ≡ true) xs
        → All (λ y. before x y ≡ true) (insert_by before a xs)
    unfolding insert_by
    All-insert_by x a [] h all = (h, tt)
    All-insert_by x a (y ∷ ys) h all = elim (Bool-cases (before a y)) [
      | inl e ↦ rw e (h, all)
      | inr e ↦ rw e (all.0, All-insert_by x a ys h all.1)
    ]

    All-before :
        (a x : A) (xs : List A)
        → before a x ≡ true
        → All (λ y. before x y ≡ true) xs
        → All (λ y. before a y ≡ true) xs
    All-before a x [] h all = tt
    All-before a x (y ∷ ys) h all = (trans a x y h all.0, All-before a x ys h all.1)

    insert_by-Sorted :
        (a : A) (xs : List A) → Sorted before xs → Sorted before (insert_by before a xs)
    unfolding insert_by
    insert_by-Sorted a [] h = (tt, tt)
    insert_by-Sorted a (x ∷ xs) h = elim (Bool-cases (before a x)) [
      | inl e ↦ rw e ((e, All-before a x xs e h.0), h)
      | inr e ↦ rw e (All-insert_by x a xs (total a x e) h.0, insert_by-Sorted a xs h.1)
    ]

    pub sort_by-Sorted : (xs : List A) → Sorted before (sort_by before xs)
    unfolding sort_by
    sort_by-Sorted [] = tt
    sort_by-Sorted (x ∷ xs) = insert_by-Sorted x (sort_by before xs) (sort_by-Sorted xs)

    pub take-Sorted : (n : ℕ) (xs : List A) → Sorted before xs → Sorted before (take n xs)
    take-Sorted zero xs h = tt
    take-Sorted (suc n) [] h = tt
    take-Sorted (suc n) (x ∷ xs) h = (take-All n xs h.0, take-Sorted n xs h.1)
      where
        take-All :
            (n : ℕ) (ys : List A)
            → All (λ y. before x y ≡ true) ys
            → All (λ y. before x y ≡ true) (take n ys)
        take-All zero ys h = tt
        take-All (suc n) [] h = tt
        take-All (suc n) (y ∷ ys) h = (h.0, take-All n ys h.1)

module _ {A : Type 0} where
  pub insert_by-In :
      (before : A → A → Bool) (a b : A) (xs : List A)
      → (b ≡ a) ⊎ In b xs
      → In b (insert_by before a xs)
  unfolding insert_by
  insert_by-In before a b [] h = h
  insert_by-In before a b (x ∷ xs) h = elim (Bool-cases (before a x)) [
    | inl e ↦ rw e h
    | inr e ↦ rw e (elim h [
      | inl same ↦ inr (insert_by-In before a b xs (inl same))
      | inr i ↦ elim i [ inl same ↦ inl same | inr j ↦ inr (insert_by-In before a b xs (inr j)) ]
    ])
  ]

  pub sort_by-In :
      (before : A → A → Bool) (b : A) (xs : List A) → In b xs → In b (sort_by before xs)
  unfolding sort_by
  sort_by-In before b [] i = absurd i
  sort_by-In before b (x ∷ xs) (inl e) = insert_by-In before x b (sort_by before xs) (inl e)
  sort_by-In before b (x ∷ xs) (inr i) =
      insert_by-In before x b (sort_by before xs) (inr (sort_by-In before b xs i))
