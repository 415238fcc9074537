-- ===== src/Embed/Order.antt =====
-- Vectors come back in the order of their texts, in whatever order the API lists its items.
use safe_shield.Prelude.{
  All-map, le→leb, arith, subst, refl, sym, ◌∙◌, ap, ◌≡◌, suc, ◌++◌, ◌<◌, ◌≤◌, [], ◌∷◌, All, leb,
  List, Bool, ℕ,
}
use safe_shield.Rag.Order.{sort_by, insert_by}

-- A list with its items in another order.
pub data Shuffled {A : Type 0} : List A → List A → Type 0 where
  nothing : Shuffled [] []
  placed :
      (x : A) (xs front back : List A)
      → Shuffled xs (front ++ back)
      → Shuffled (x ∷ xs) (front ++ (x ∷ back))

module _ {V : Type 0} where
  abbrev pub indexed : ℕ → List V → List (ℕ × V)
  indexed n [] = []
  indexed n (v ∷ vs) = (n, v) ∷ indexed (suc n) vs

  abbrev pub by_index : ℕ × V → ℕ × V → Bool
  by_index a b = leb a.0 b.0

  insert-insert :
      (a b : ℕ × V) (s : List (ℕ × V))
      → a.0 < b.0
      → insert_by by_index a (insert_by by_index b s)
        ≡ insert_by by_index b (insert_by by_index a s)
  unfolding insert_by
  insert-insert a b [] h = ground arith
  insert-insert a b (x ∷ xs) h = ground (arith, insert-insert a b xs h)

  sort-placed :
      (x : ℕ × V) (front back : List (ℕ × V))
      → All (λ e. x.0 < e.0) (front ++ back)
      → sort_by by_index (front ++ (x ∷ back))
        ≡ insert_by by_index x (sort_by by_index (front ++ back))
  unfolding sort_by
  sort-placed x [] back h = refl
  sort-placed x (f ∷ front) back (p, h) =
      ap (insert_by by_index f) (sort-placed x front back h)
      ∙ sym (insert-insert x f (sort_by by_index (front ++ back)) p)

  All-placed :
      (P : ℕ × V → Type 0) (x : ℕ × V) (front back : List (ℕ × V))
      → P x
      → All P (front ++ back)
      → All P (front ++ (x ∷ back))
  All-placed P x [] back p h = (p, h)
  All-placed P x (f ∷ front) back p (q, h) = (q, All-placed P x front back p h)

  Shuffled-All : (P : ℕ × V → Type 0) (xs ys : List (ℕ × V)) → Shuffled xs ys → All P xs → All P ys
  Shuffled-All P xs ys nothing h = tt
  Shuffled-All P xs ys (placed x rest front back more) (p, h) =
      All-placed P x front back p (Shuffled-All P rest (front ++ back) more h)

  indexed-All : (k n : ℕ) (vs : List V) → k ≤ n → All (λ e. k ≤ e.0) (indexed n vs)
  indexed-All k n [] h = tt
  indexed-All k n (v ∷ vs) h = (h, indexed-All k (suc n) vs (omega arith))

  insert-first :
      (x : ℕ × V) (xs : List (ℕ × V)) → All (λ e. x.0 < e.0) xs → insert_by by_index x xs ≡ x ∷ xs
  unfolding insert_by
  insert-first x [] h = refl
  insert-first x (y ∷ ys) (p, h) = rw (le→leb x.0 y.0 (omega arith)) refl

  -- Sorting by index undoes any shuffle of an indexed list.
  pub sort-Shuffled :
      (n : ℕ) (vs : List V) (xs ys : List (ℕ × V))
      → xs ≡ indexed n vs
      → Shuffled xs ys
      → sort_by by_index ys ≡ xs
  unfolding sort_by
  sort-Shuffled n vs xs ys same nothing = refl
  sort-Shuffled n [] xs ys same (placed x rest front back more) = absurd (cc)
  sort-Shuffled n (v ∷ vs) xs ys same (placed x rest front back more) =
      let here : x ≡ (n, v) = cc in
      let there : rest ≡ indexed (suc n) vs = cc in
      let later : All (λ e. x.0 < e.0) rest = subst (All (λ e. x.0 < e.0)) (sym there) (
        All-map (indexed (suc n) vs) (λ e h. rw here h)
          (indexed-All (suc n) (suc n) vs (omega arith))) in
      sort-placed x front back (Shuffled-All (λ e. x.0 < e.0) rest (front ++ back) more later)
      ∙ ap (insert_by by_index x) (sort-Shuffled (suc n) vs rest (front ++ back) there more)
      ∙ insert-first x rest later
