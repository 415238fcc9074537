-- ===== src/Embed/Answers.antt =====
-- What the provider returns, given that the API answers each batch as documented.
use safe_shield.Prelude.{
  inr, ==_iff, arith, inl, ◌==◌, ==_refl, ◌∙◌, sym, Bool-cases, ◌≤◌, refl, [], suc, ap, ◌∷◌, ◌≡◌,
  ◌++◌, Text, map, length, List, ℕ,
}
use safe_shield.Embed.Order.{sort-Shuffled, Shuffled, indexed}
use safe_shield.Prelude.Effects.{err, ok, Result}
use safe_shield.Embed.{batches, requested, checked, request_all, embed, ordered, Counted, Response}
use safe_shield.Embed.Proofs.{batches-Covers, concat}

map-second : {V : Type 0} (n : ℕ) (vs : List V) → map (λ d. d.1) (indexed n vs) ≡ vs
map-second n [] = refl
map-second n (v ∷ vs) = ap (◌∷◌ v) (map-second (suc n) vs)

map-append : {A B : Type 0} (f : A → B) (xs ys : List A) → map f (xs ++ ys) ≡ map f xs ++ map f ys
map-append f [] ys = refl
map-append f (x ∷ xs) ys = ap (◌∷◌ (f x)) (map-append f xs ys)

length-mapped : {A B : Type 0} (f : A → B) (xs : List A) → length (map f xs) ≡ length xs
length-mapped f [] = refl
length-mapped f (x ∷ xs) = ap suc (length-mapped f xs)

module _ {V : Type 0} (create : List Text → Result (Response V)) (vector : Text → V)
    (api : (batch : List Text)
      → (r : Response V) × (create batch ≡ ok r)
        × Shuffled (indexed 0 (map vector batch)) r.items) where
  ordered-vectors :
      (batch : List Text) (r : Response V)
      → Shuffled (indexed 0 (map vector batch)) r.items
      → ordered create r ≡ map vector batch
  unfolding ordered
  ordered-vectors batch r shuffled =
      ap (map (λ d. d.1))
        (sort-Shuffled 0 (map vector batch) (indexed 0 (map vector batch)) r.items refl shuffled)
      ∙ map-second 0 (map vector batch)

  request_all-vectors :
      (bs : List (List Text)) → (request_all create bs).0 ≡ ok (map vector (concat bs))
  unfolding request_all requested
  request_all-vectors [] = refl
  request_all-vectors (batch ∷ rest) =
      let (r, answered, shuffled) = api batch in
      rw answered (
        rw (request_all-vectors rest) (
          rw (ordered-vectors batch r shuffled)
            (ap ok (sym (map-append vector batch (concat rest))))))

  checked-vectors :
      (n : ℕ) (r : Result (List V) × List Counted) (vs : List V)
      → r.0 ≡ ok vs
      → length vs ≡ n
      → (checked create n r).0 ≡ ok vs
  checked-vectors n (err e, counted) vs h k = cc
  checked-vectors n (ok out, counted) vs h k =
      let same : out ≡ vs = cc in rw (ap length same ∙ k) (rw (==_refl n) (ap ok same))

  -- Given an API that answers each batch with the vectors of its texts, each item under the place of
  -- its text in the batch and the items in any order, every text gets its own vector, in the order
  -- of the texts, whatever the batch size, if it is not 0.
  pub embed-map :
      (size : ℕ) (texts : List Text)
      → 1 ≤ size
      → (embed create size texts).0 ≡ ok (map vector texts)
  unfolding embed
  embed-map size [] pos = refl
  embed-map size (t ∷ ts) pos = elim (Bool-cases (size == 0)) [
    | inl e ↦ absurd (omega (arith, (==_iff size 0).0 e))
    | inr e ↦
        let all = t ∷ ts in
        rw e (
          checked-vectors (length all) (request_all create (batches (length all) size all))
            (map vector all)
            (request_all-vectors (batches (length all) size all)
              ∙ ap (λ x. ok (map vector x))
                  (batches-Covers (length all) size all pos (omega arith)).0)
            (length-mapped vector all))
  ]
