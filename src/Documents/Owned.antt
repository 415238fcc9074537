-- ===== src/Documents/Owned.antt =====
-- The owner that a chunk carries is its document's, whatever is interleaved.
use safe_shield.Prelude.{
  refl, [], inr, subst, sym, Bool-cases, ◌∙◌, inl, ◌∷◌, All-map, All, update_where, ◌≡◌, Bool,
  Option, List, ℕ,
}
use safe_shield.Corpus.{ChunkRow, Tables, Document}
use safe_shield.Rag.Order.{In}

-- Two rows that stand for one document, as far as identity and owner go.
pub record SameDocument (a b : Document) : Type 0 where
  pub id : a.id ≡ b.id
  pub user_id : a.user_id ≡ b.user_id

module _ (p : Document → Bool) (f : Document → Document)
    (same : (d : Document) → SameDocument (f d) d) where
  pub updated-In :
      (ds : List Document) (d : Document)
      → In d (update_where p f ds)
      → (x : Document) × In x ds × SameDocument d x
  updated-In [] d i = absurd i
  updated-In (x ∷ xs) d (inl e) = elim (Bool-cases (p x)) [
    | inl t ↦ (x, inl refl, subst (λ y. SameDocument y x) (sym (rw t at e)) (same x))
    | inr t ↦ (
      x,
      inl refl,
      subst (λ y. SameDocument y x) (sym (rw t at e)) (record { id = refl; user_id = refl }),
    )
  ]
  updated-In (x ∷ xs) d (inr i) = let (y, j, s) = updated-In xs d i in (y, inr j, s)

  pub In-updated :
      (ds : List Document) (d : Document)
      → In d ds
      → (x : Document) × In x (update_where p f ds) × SameDocument x d
  In-updated [] d i = absurd i
  In-updated (x ∷ xs) d (inl e) = elim (Bool-cases (p x)) [
    | inl t ↦ (f x, rw t (inl refl), subst (SameDocument (f x)) (sym e) (same x))
    | inr t ↦
        (x, rw t (inl refl), subst (SameDocument x) (sym e) (record { id = refl; user_id = refl }))
  ]
  In-updated (x ∷ xs) d (inr i) = let (y, j, s) = In-updated xs d i in (y, inr j, s)

-- A running ingestion of document `i` that read the owner `o`.
abbrev pub Reads : List Document → ℕ × Option ℕ → Type 0
Reads ds (i, o) = (d : Document) → In d ds → d.id ≡ i → d.user_id ≡ o

abbrev pub OneOwner : List Document → Type 0
OneOwner ds = (a b : Document) → In a ds → In b ds → a.id ≡ b.id → a.user_id ≡ b.user_id

module _ {V : Type 0} where
  -- The document of a chunk, with the owner that the chunk carries.
  abbrev pub Owner : List Document → ChunkRow V → Type 0
  Owner ds c = (d : Document) × In d ds × (d.id ≡ c.document_id) × (d.user_id ≡ c.user_id)

  pub record IsOwned (t : Tables V) (running : List (ℕ × Option ℕ)) : Type 0 where
    pub chunks : All (Owner t.documents) t.chunks
    pub one_owner : OneOwner t.documents
    pub reads : All (Reads t.documents) running

  -- Rows of documents may change as long as identity and owner stay.
  pub kept-IsOwned :
      (t : Tables V) (running : List (ℕ × Option ℕ)) (p : Document → Bool) (f : Document → Document)
      → ((d : Document) → SameDocument (f d) d)
      → IsOwned t running
      → IsOwned (record { documents = update_where p f t.documents; chunks = t.chunks }) running
  kept-IsOwned t running p f same o = record {
    chunks =
        All-map t.chunks
          (λ c (d, i, a, b).
            let (x, j, s) = In-updated p f same t.documents d i in (x, j, s.id ∙ a, s.user_id ∙ b))
          o.chunks;
    one_owner = λ a b i j e.
        let (x, k, s) = updated-In p f same t.documents a i in
        let (y, l, r) = updated-In p f same t.documents b j in
        s.user_id ∙ o.one_owner x y k l (sym s.id ∙ e ∙ r.id) ∙ sym r.user_id;
    reads =
        All-map running
          (λ r h d i e.
            let (x, k, s) = updated-In p f same t.documents d i in s.user_id ∙ h x k (sym s.id ∙ e))
          o.reads;
  }
