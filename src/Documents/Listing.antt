-- ===== src/Documents/Listing.antt =====
-- What a caller sees in the list of documents.
use safe_shield.Prelude.{
  refl, ap, arith, sym, subst, some, ◌↔◌, [], ap, inr, true, inl, leb, ◌≡◌, ◌∷◌, map, All, keep,
  Bool, List, ℕ,
}
use safe_shield.Rag.Order.{
  keep-In, sort_by-In, sort_by-Sorted, In-sort_by, In-keep, Sorted, In, sort_by,
}
use safe_shield.Documents.World.{World}
use safe_shield.Corpus.{visible_to_iff, MayRead, visible_to, Document}
use safe_shield.Documents.Routes.{DocumentResponse, to_response, list_documents}

map-In : {A B : Type 0} (f : A → B) (a : A) (xs : List A) → In a xs → In (f a) (map f xs)
map-In f a [] i = absurd i
map-In f a (x ∷ xs) (inl e) = inl (ap f e)
map-In f a (x ∷ xs) (inr i) = inr (map-In f a xs i)

In-map :
    {A B : Type 0} (f : A → B) (b : B) (xs : List A)
    → In b (map f xs)
    → (a : A) × In a xs × (b ≡ f a)
In-map f b [] i = absurd i
In-map f b (x ∷ xs) (inl e) = (x, inl refl, e)
In-map f b (x ∷ xs) (inr i) = let (a, j, e) = In-map f b xs i in (a, inr j, e)

abbrev pub newer_first : Document → Document → Bool
newer_first a b = leb b.created_at a.created_at

All-map_list :
    (x : Document) (xs : List Document)
    → All (λ y. newer_first x y ≡ true) xs
    → All (λ r. leb r.created_at x.created_at ≡ true) (map to_response xs)
All-map_list x [] h = tt
All-map_list x (y ∷ ys) (p, h) = (p, All-map_list x ys h)

map-Sorted :
    (xs : List Document)
    → Sorted newer_first xs
    → Sorted (λ r q. leb q.created_at r.created_at) (map to_response xs)
map-Sorted [] h = tt
map-Sorted (x ∷ xs) (p, h) = (All-map_list x xs p, map-Sorted xs h)

module _ {V : Type 0} (caller : ℕ) (w : World V) where
  visible : List Document
  visible = keep (λ d. visible_to caller d.user_id) w.tables.documents

  -- The list of a caller holds exactly the documents that the caller may read, their own and the
  -- shared ones, the newest first.
  pub list_documents-MayRead :
      ((r : DocumentResponse)
        → In r (list_documents caller w) ↔ (
            (d : Document) × In d w.tables.documents
            × MayRead (some caller) d.user_id
            × (r ≡ to_response d)))
      × Sorted (λ r q. leb q.created_at r.created_at) (list_documents caller w)
  unfolding list_documents visible
  list_documents-MayRead = (
    λ r. (
      λ i.
          let (d, j, e) = In-map to_response r (sort_by newer_first visible) i in
          let (here, test) =
            In-keep (λ d. visible_to caller d.user_id) d w.tables.documents
              (In-sort_by newer_first d visible j) in
          (d, here, (visible_to_iff caller d.user_id).0 test, e),
      λ (d, here, read, e).
          subst (λ x. In x (map to_response (sort_by newer_first visible))) (sym e)
            (map-In to_response d (sort_by newer_first visible) (
              sort_by-In newer_first d visible (
                keep-In (λ d. visible_to caller d.user_id) d w.tables.documents here
                  ((visible_to_iff caller d.user_id).1 read)))),
    ),
    map-Sorted (sort_by newer_first visible)
        (sort_by-Sorted newer_first (λ a b h. ground arith) (λ a b c h k. ground arith) visible),
  )
