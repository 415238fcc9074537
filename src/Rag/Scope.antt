-- ===== src/Rag/Scope.antt =====
-- Whose text a question can reach.
use safe_shield.Prelude.{
  find_first-test, strip, sym, refl, subst, ◌⊎◌, none, Option-cases, ◌||◌, find_first, Text,
  length-take, [], take, inr, ==_iff, ap, leb, arith, suc, ◌==◌, Bool-cases, inl, ◌∷◌, ◌&&◌, keep,
  length, true, ◌+◌, ◌<◌, ◌≤◌, Option, some, ◌≡◌, List, ℕ,
}
use safe_shield.Rag.Retrieve.{
  Observation, Embed, better, owned_or_shared, in_document, retrieve, hybrid_sql, and_to_or,
  sparse_for, ranked, RetrievedChunk, joined, sparse, distance_of, embedded, in_scope, numbered,
  rank_of, dense, Postgres,
}
use safe_shield.Rag.Order.{find_first-In, In-take, In-sort_by, In-keep, sort_by, In}
use safe_shield.Corpus.{MayRead, Document, Tables, ChunkRow}
use safe_shield.Config.{Settings}
use safe_shield.Auth.Models.{is_some}
use safe_shield.Prelude.Effects.{ok}
use safe_shield.Rag.Results.{retrieve-rows}

-- `id` is the primary key of a table.
abbrev pub PrimaryKey : {V : Type 0} → List (ChunkRow V) → Type 0
PrimaryKey {V} cs = (a b : ChunkRow V) → In a cs → In b cs → a.id ≡ b.id → a ≡ b

In-numbered :
    {A : Type 0} (n : ℕ) (a : A) (r : ℕ) (xs : List A)
    → In (a, r) (numbered n xs)
    → In a xs × (n ≤ r) × (r < n + length xs)
In-numbered n a r [] h = absurd h
In-numbered n a r (x ∷ xs) (inl e) =
    let same : r ≡ n = ap (λ p. p.1) e in (inl (ap (λ p. p.0) e), omega arith, omega arith)
In-numbered n a r (x ∷ xs) (inr i) =
    let (found, low, high) = In-numbered (suc n) a r xs i in (inr found, omega arith, omega arith)

module _ {V : Type 0} where
  pub rank_of-In :
      (i : ℕ) (ranks : List (ChunkRow V × ℕ)) (r : ℕ)
      → rank_of i ranks ≡ some r
      → (c : ChunkRow V) × In (c, r) ranks × (c.id ≡ i)
  unfolding rank_of
  rank_of-In i [] r h = cc
  rank_of-In i ((c, k) ∷ rest) r h = elim (Bool-cases (c.id == i)) [
    | inl e ↦ (c, inl (ground arith), (==_iff c.id i).0 e)
    | inr e ↦ let (d, place, same) = rank_of-In i rest r (ground arith) in (d, inr place, same)
  ]

module _ {V : Type 0} (pg : Postgres V) where
  pub dense-In :
      (t : Tables V) (qvec : V) (uid doc : Option ℕ) (n : ℕ) (c : ChunkRow V) (r : ℕ)
      → In (c, r) (dense pg t qvec uid doc n)
      → In c t.chunks × (in_scope uid doc c ≡ true) × (1 ≤ r) × (r ≤ n)
  unfolding dense
  dense-In t qvec uid doc n c r h =
      let rows = keep (λ c. in_scope uid doc c && embedded c) t.chunks in
      let sorted = sort_by (λ a b. leb (distance_of pg qvec a) (distance_of pg qvec b)) rows in
      let (taken, low, high) = In-numbered 1 c r (take n sorted) h in
      let (here, fits) = In-keep _ c t.chunks (In-sort_by _ c rows (In-take n c sorted taken)) in
      (here, ground arith, low, omega (arith, length-take n sorted))

  pub sparse-In :
      (t : Tables V) (qtext : Text) (uid doc : Option ℕ) (n : ℕ) (c : ChunkRow V) (r : ℕ)
      → In (c, r) (sparse pg t qtext uid doc n)
      → In c t.chunks × (in_scope uid doc c ≡ true) × (1 ≤ r) × (r ≤ n)
  unfolding sparse
  sparse-In t qtext uid doc n c r h =
      from_query (pg.cast_tsquery (and_to_or (pg.plainto_tsquery qtext))) h
    where
      from_query :
          (q : Option Text)
          → In (c, r) (elim q [ none ↦ [] | some query ↦ sparse_for pg t query uid doc n ])
          → In c t.chunks × (in_scope uid doc c ≡ true) × (1 ≤ r) × (r ≤ n)
      from_query none h = absurd h
      from_query (some query) h =
          let rows =
            keep (λ c. in_scope uid doc c && pg.matches c.section_path c.body query) t.chunks in
          let sorted =
            sort_by
              (λ a b.
                leb (pg.rank_cd b.section_path b.body query)
                  (pg.rank_cd a.section_path a.body query))
              rows in
          let (taken, low, high) = In-numbered 1 c r (take n sorted) h in
          let (here, fits) =
            In-keep _ c t.chunks (In-sort_by _ c rows (In-take n c sorted taken)) in
          (here, ground arith, low, omega (arith, length-take n sorted))

module _ {V : Type 0} where
  -- The stored chunk and the document that a result was made of.
  abbrev pub Origin :
      Settings
      → List Document
      → List (ChunkRow V × ℕ)
      → List (ChunkRow V × ℕ)
      → List (ChunkRow V)
      → RetrievedChunk
      → Type 0
  Origin s ds dn sp cs x =
      (c : ChunkRow V) × (d : Document) × In c cs
      × (x ≡ ranked s dn sp c d)
      × (find_first (λ d. d.id == c.document_id) ds ≡ some d)
      × ((is_some (rank_of c.id dn) || is_some (rank_of c.id sp)) ≡ true)

  module _ (s : Settings) (ds : List Document) (dn sp : List (ChunkRow V × ℕ)) where
    Origin-later :
        (b : ChunkRow V) (cs : List (ChunkRow V)) (x : RetrievedChunk)
        → Origin s ds dn sp cs x
        → Origin s ds dn sp (b ∷ cs) x
    Origin-later b cs x (c, d, i, e, f, g) = (c, d, inr i, e, f, g)

    Origin-row :
        (c : ChunkRow V) (d : Document) (cs : List (ChunkRow V)) (x : RetrievedChunk)
        → find_first (λ d. d.id == c.document_id) ds ≡ some d
        → (is_some (rank_of c.id dn) || is_some (rank_of c.id sp)) ≡ true
        → (x ≡ ranked s dn sp c d) ⊎ In x (joined s ds dn sp cs)
        → (In x (joined s ds dn sp cs) → Origin s ds dn sp cs x)
        → Origin s ds dn sp (c ∷ cs) x
    Origin-row c d cs x e f (inl same) more = (c, d, inl refl, same, e, f)
    Origin-row c d cs x e f (inr i) more = Origin-later c cs x (more i)

    pub joined-In :
        (cs : List (ChunkRow V)) (x : RetrievedChunk)
        → In x (joined s ds dn sp cs)
        → Origin s ds dn sp cs x
    unfolding joined
    joined-In [] x h = absurd h
    joined-In (c ∷ cs) x h = elim (Option-cases (find_first (λ d. d.id == c.document_id) ds)) [
      | inl e ↦ Origin-later c cs x (joined-In cs x (rw e at h))
      | inr (d, e) ↦
          let row = rw e at h in
          elim (Bool-cases (is_some (rank_of c.id dn) || is_some (rank_of c.id sp))) [
            | inl f ↦ Origin-row c d cs x e f (rw f at row) (joined-In cs x)
            | inr f ↦ Origin-later c cs x (joined-In cs x (rw f at row))
          ]
    ]

module _ {V : Type 0} (pg : Postgres V) (s : Settings) (t : Tables V) (uid doc : Option ℕ) where
  pub owned_or_shared-MayRead :
      (who owner : Option ℕ) → uid ≡ who → owned_or_shared who owner ≡ true → MayRead uid owner
  owned_or_shared-MayRead none none e h = inl refl
  owned_or_shared-MayRead none (some o) e h = cc
  owned_or_shared-MayRead (some u) none e h = inl refl
  owned_or_shared-MayRead (some u) (some o) e h =
      inr (u, e, ap some ((==_iff o u).0 (ground arith)))

  in_document_eq :
      (wanted : Option ℕ) (d k : ℕ) → wanted ≡ some k → in_document wanted d ≡ true → d ≡ k
  in_document_eq none d k e h = cc
  in_document_eq (some w) d k e h = ground (arith, ==_iff d w)

  -- What a result shows: the text, page and section of a stored chunk that the caller may read, of
  -- the document asked for, under the name of its document.
  abbrev pub InScope : RetrievedChunk → Type 0
  InScope x =
      (c : ChunkRow V) × In c t.chunks
      × (c.id ≡ x.id)
      × (c.body ≡ x.body)
      × (c.page_no ≡ x.page_no)
      × (c.section_path ≡ x.section_path)
      × ((d : Document) × In d t.documents × (d.id ≡ c.document_id) × (d.filename ≡ x.filename))
      × (c.document_id ≡ x.document_id)
      × MayRead uid c.user_id
      × ((d : ℕ) → doc ≡ some d → c.document_id ≡ d)

  ranked-in_scope :
      (n : ℕ) (qvec : V) (qtext : Text) (c : ChunkRow V)
      → PrimaryKey t.chunks
      → In c t.chunks
      → (is_some (rank_of c.id (dense pg t qvec uid doc n))
          || is_some (rank_of c.id (sparse pg t qtext uid doc n)))
        ≡ true
      → in_scope uid doc c ≡ true
  ranked-in_scope n qvec qtext c key here h =
      elim (Option-cases (rank_of c.id (dense pg t qvec uid doc n))) [
        | inr (r, e) ↦
            let (a, place, same) = rank_of-In c.id (dense pg t qvec uid doc n) r e in
            let (stored, fits, _, _) = dense-In pg t qvec uid doc n a r place in
            subst (λ z. in_scope uid doc z ≡ true) (key a c stored here same) fits
        | inl e ↦ elim (Option-cases (rank_of c.id (sparse pg t qtext uid doc n))) [
          | inr (r, f) ↦
              let (a, place, same) = rank_of-In c.id (sparse pg t qtext uid doc n) r f in
              let (stored, fits, _, _) = sparse-In pg t qtext uid doc n a r place in
              subst (λ z. in_scope uid doc z ≡ true) (key a c stored here same) fits
          | inl f ↦ absurd (ground arith)
        ]
      ]

  pub hybrid_sql-InScope :
      (qvec : V) (qtext : Text) (n limit : ℕ)
      → PrimaryKey t.chunks
      → (x : RetrievedChunk) → In x (hybrid_sql pg s t qvec qtext uid doc n limit)
      → InScope x
  unfolding hybrid_sql
  hybrid_sql-InScope qvec qtext n limit key x h =
      let dn = dense pg t qvec uid doc n in
      let sp = sparse pg t qtext uid doc n in
      let rows = joined s t.documents dn sp t.chunks in
      let (c, d, here, same, of_row, found) =
        joined-In s t.documents dn sp t.chunks x
          (In-sort_by better x rows (In-take limit x (sort_by better rows) h)) in
      let scope = ranked-in_scope n qvec qtext c key here found in
      (
        c,
        here,
        ap (λ r. r.id) (sym same),
        ap (λ r. r.body) (sym same),
        ap (λ r. r.page_no) (sym same),
        ap (λ r. r.section_path) (sym same),
        (
          d,
          find_first-In (λ d. d.id == c.document_id) t.documents d of_row,
          (==_iff d.id c.document_id).0
              (find_first-test (λ d. d.id == c.document_id) t.documents d of_row),
          ap (λ r. r.filename) (sym same),
        ),
        ap (λ r. r.document_id) (sym same),
        owned_or_shared-MayRead uid c.user_id refl (ground arith),
        λ k e. in_document_eq doc c.document_id k e (ground arith),
      )

  -- Every chunk that `retrieve` returns is a stored chunk of the shared corpus or of the caller (of
  -- the shared corpus alone where there is no caller), and of the document asked for, if one was,
  -- with its text, page and section and the name of its document. That holds for every text,
  -- provider, limit and number of candidates.
  pub retrieve-InScope :
      (embed : Embed V) (text : Text) (limit candidates : Option ℕ) (rows : List RetrievedChunk)
      (seen : Option Observation)
      → PrimaryKey t.chunks
      → retrieve pg s embed t text uid doc limit candidates ≡ ok (rows, seen)
      → (x : RetrievedChunk) → In x rows
      → InScope x
  retrieve-InScope embed text limit candidates rows seen key h x place =
      elim (retrieve-rows pg s embed t text uid doc limit candidates rows seen h) [
        | inl e ↦ absurd (subst (In x) e place)
        | inr (v, e, _) ↦ hybrid_sql-InScope v (strip text) _ _ key x (subst (In x) e place)
      ]
