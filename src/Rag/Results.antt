-- ===== src/Rag/Results.antt =====
-- What `retrieve` can return: nothing, or the rows of the query.
use safe_shield.Prelude.{
  ◌∷◌, inr, some, arith, inl, is_empty, strip, Bool-cases, ◌⊎◌, [], ◌≡◌, List, Option, Text, ℕ,
}
use safe_shield.Rag.Retrieve.{
  observe_retrieval, or_default, hybrid_sql, with_vectors, retrieve, Observation, RetrievedChunk,
  Embed, Postgres,
}
use safe_shield.Config.{Settings}
use safe_shield.Corpus.{Tables}
use safe_shield.Prelude.Effects.{err, ok, Result}

module _ {V : Type 0} (pg : Postgres V) (s : Settings) (embed : Embed V) (t : Tables V)
    (text : Text) (uid doc limit candidates : Option ℕ) (rows : List RetrievedChunk)
    (seen : Option Observation) where
  abbrev pub Rows : Type 0
  Rows =
      (rows ≡ [])
      ⊎ ((v : V) × (rows
            ≡ hybrid_sql pg s t v (strip text) uid doc
                (or_default candidates s.retrieval_candidates) (or_default limit s.retrieval_top_k))
          × (seen ≡ some (observe_retrieval rows)))

  with_vectors-rows :
      (vectors : Result (List V))
      → with_vectors pg s embed t (strip text) uid doc limit candidates vectors ≡ ok (rows, seen)
      → Rows
  with_vectors-rows (err e) h = cc
  with_vectors-rows (ok []) h = inl (ground arith)
  with_vectors-rows (ok (v ∷ vs)) h = inr (v, ground arith, ground arith)

  pub retrieve-rows : retrieve pg s embed t text uid doc limit candidates ≡ ok (rows, seen) → Rows
  unfolding retrieve
  retrieve-rows h = elim (Bool-cases (is_empty (strip text))) [
    | inl e ↦ inl (ground arith)
    | inr e ↦ with_vectors-rows (embed (strip text ∷ [])) (rw e at h)
  ]
