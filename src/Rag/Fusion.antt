-- ===== src/Rag/Fusion.antt =====
-- Reciprocal rank fusion: the order of the results, and what their scores can be.
use safe_shield.Prelude.{
  length-take, ap, strip, length, ◌<◌, Bool-cases, List, refl, sym, subst, inr, inl, Option-cases,
  some, arith, Text, ◌⊎◌, ◌≤◌, ◌+◌, ◌||◌, true, none, false, ◌*◌, ◌≡◌, Option, ℕ,
}
use safe_shield.Rag.Retrieve.{
  or_default, retrieve, Observation, Embed, joined, dense, sparse, rank_of, hybrid_sql, better,
  RetrievedChunk, Postgres,
}
use safe_shield.Rag.Score.{le-reciprocal, reciprocal_mono, term, score_one, reciprocal, fused}
use safe_shield.Config.{Settings}
use safe_shield.Auth.Models.{is_some}
use safe_shield.Corpus.{Tables}
use safe_shield.Rag.Order.{sort_by-Sorted, take-Sorted, Sorted, sort_by, In-take, In-sort_by, In}
use safe_shield.Rag.Scope.{dense-In, sparse-In, rank_of-In, joined-In}
use safe_shield.Prelude.Effects.{ok}
use safe_shield.Rag.Results.{retrieve-rows}

-- A rank is missing, or one of 1 to `n`.
abbrev pub IsRank : ℕ → Option ℕ → Type 0
IsRank n rank = (rank ≡ none) ⊎ ((r : ℕ) × (rank ≡ some r) × (1 ≤ r) × (r ≤ n))

pub record IsFused (k n : ℕ) (x : RetrievedChunk) : Type 0 where
  pub score : x.score ≡ fused k x.dense_rank x.sparse_rank
  pub dense : IsRank n x.dense_rank
  pub sparse : IsRank n x.sparse_rank
  pub found : (is_some x.dense_rank || is_some x.sparse_rank) ≡ true

module _ {V : Type 0} (pg : Postgres V) (s : Settings) (t : Tables V) (uid doc : Option ℕ)
    (qvec : V) (qtext : Text) (n limit : ℕ) where
  dense-IsRank : (i : ℕ) → IsRank n (rank_of i (dense pg t qvec uid doc n))
  dense-IsRank i = elim (Option-cases (rank_of i (dense pg t qvec uid doc n))) [
    | inl e ↦ inl e
    | inr (r, e) ↦
        let (c, place, _) = rank_of-In i (dense pg t qvec uid doc n) r e in
        let (_, _, low, high) = dense-In pg t qvec uid doc n c r place in inr (r, e, low, high)
  ]

  sparse-IsRank : (i : ℕ) → IsRank n (rank_of i (sparse pg t qtext uid doc n))
  sparse-IsRank i = elim (Option-cases (rank_of i (sparse pg t qtext uid doc n))) [
    | inl e ↦ inl e
    | inr (r, e) ↦
        let (c, place, _) = rank_of-In i (sparse pg t qtext uid doc n) r e in
        let (_, _, low, high) = sparse-In pg t qtext uid doc n c r place in inr (r, e, low, high)
  ]

  pub hybrid_sql-IsFused :
      (x : RetrievedChunk)
      → In x (hybrid_sql pg s t qvec qtext uid doc n limit)
      → IsFused s.rrf_k n x
  unfolding hybrid_sql
  hybrid_sql-IsFused x h =
      let dn = dense pg t qvec uid doc n in
      let sp = sparse pg t qtext uid doc n in
      let rows = joined s t.documents dn sp t.chunks in
      let (c, d, here, same, _, found) =
        joined-In s t.documents dn sp t.chunks x
          (In-sort_by better x rows (In-take limit x (sort_by better rows) h)) in
      subst (IsFused s.rrf_k n) (sym same) (record {
        score = refl;
        dense = dense-IsRank c.id;
        sparse = sparse-IsRank c.id;
        found = found;
      })

mul_le : (m a b c : ℕ) → a ≤ b → m * b ≤ c → m * a ≤ c
mul_le m a b c h k = grind arith

-- What one rank contributes.
le-term :
    (m k n : ℕ) (rank : Option ℕ)
    → IsRank n rank
    → is_some rank ≡ true
    → m * (k + n) ≤ score_one
    → m ≤ term k rank
unfolding term
le-term m k n none r h bound = cc
le-term m k n (some a) (inl e) h bound = cc
le-term m k n (some a) (inr (b, e, low, high)) h bound =
    let same : a ≡ b = cc in
    le-reciprocal m (k + a) (omega arith) (mul_le m (k + a) (k + n) score_one (omega arith) bound)

reciprocal-le-term :
    (k n : ℕ) (rank : Option ℕ)
    → IsRank n rank
    → is_some rank ≡ true
    → reciprocal (k + n) ≤ term k rank
unfolding term
reciprocal-le-term k n none r h = cc
reciprocal-le-term k n (some a) (inl e) h = cc
reciprocal-le-term k n (some a) (inr (b, e, low, high)) h =
    let same : a ≡ b = cc in reciprocal_mono (k + a) (k + n) (omega arith) (omega arith)

term-le-reciprocal : (k n : ℕ) (rank : Option ℕ) → IsRank n rank → term k rank ≤ reciprocal (k + 1)
unfolding term
term-le-reciprocal k n none r = omega arith
term-le-reciprocal k n (some a) (inl e) = cc
term-le-reciprocal k n (some a) (inr (b, e, low, high)) =
    let same : a ≡ b = cc in reciprocal_mono (k + 1) (k + a) (omega arith) (omega arith)

-- What a score is at least, and at most with one rank only.
pub le-score :
    (m k n : ℕ) (x : RetrievedChunk) → IsFused k n x → m * (k + n) ≤ score_one → m ≤ x.score
unfolding fused
le-score m k n x f h = elim (Bool-cases (is_some x.dense_rank)) [
  | inl d ↦ omega (arith, ap_score f.score, le-term m k n x.dense_rank f.dense d h)
  | inr d ↦ omega (arith, ap_score f.score, le-term m k n x.sparse_rank f.sparse (ground arith) h)
]
  where
    ap_score :
        x.score ≡ fused k x.dense_rank x.sparse_rank
        → x.score ≡ term k x.dense_rank + term k x.sparse_rank
    ap_score e = e

both-score :
    (k n : ℕ) (x : RetrievedChunk)
    → IsFused k n x
    → is_some x.dense_rank ≡ true
    → is_some x.sparse_rank ≡ true
    → 2 * reciprocal (k + n) ≤ x.score
unfolding fused
both-score k n x f d e = omega (
  arith,
  f.score,
  reciprocal-le-term k n x.dense_rank f.dense d,
  reciprocal-le-term k n x.sparse_rank f.sparse e,
)

one-score :
    (k n : ℕ) (x : RetrievedChunk)
    → IsFused k n x
    → (x.dense_rank ≡ none) ⊎ (x.sparse_rank ≡ none)
    → x.score ≤ reciprocal (k + 1)
unfolding fused term
one-score k n x f (inl e) = ground (arith, f.score, term-le-reciprocal k n x.sparse_rank f.sparse)
one-score k n x f (inr e) = ground (arith, f.score, term-le-reciprocal k n x.dense_rank f.dense)

better_total : (a b : RetrievedChunk) → better a b ≡ false → better b a ≡ true
better_total a b h = ground arith

better_trans : (a b c : RetrievedChunk) → better a b ≡ true → better b c ≡ true → better a c ≡ true
better_trans a b c h k = ground arith

module _ {V : Type 0} (pg : Postgres V) (s : Settings) (embed : Embed V) (t : Tables V)
    (text : Text) (uid doc limit candidates : Option ℕ) (rows : List RetrievedChunk)
    (seen : Option Observation)
    (returned : retrieve pg s embed t text uid doc limit candidates ≡ ok (rows, seen)) where
  abbrev taken : ℕ
  taken = or_default candidates s.retrieval_candidates

  pub rows-IsFused : (x : RetrievedChunk) → In x rows → IsFused s.rrf_k taken x
  rows-IsFused x i =
      elim (retrieve-rows pg s embed t text uid doc limit candidates rows seen returned) [
        | inl e ↦ absurd (subst (In x) e i)
        | inr (v, e, _) ↦
            hybrid_sql-IsFused pg s t uid doc v (strip text) taken _ x (subst (In x) e i)
      ]

  -- The results are at most as many as asked for, the best score first and the longer chunk first
  -- among equal scores.
  pub retrieve-Sorted : Sorted better rows × (length rows ≤ or_default limit s.retrieval_top_k)
  unfolding hybrid_sql
  retrieve-Sorted =
      elim (retrieve-rows pg s embed t text uid doc limit candidates rows seen returned) [
        | inl e ↦ rw e (tt, omega arith)
        | inr (v, e, _) ↦ rw e (
          take-Sorted better better_total better_trans _ _ (
              sort_by-Sorted better better_total better_trans (
                joined s t.documents (dense pg t v uid doc taken)
                  (sparse pg t (strip text) uid doc taken) t.chunks)),
          omega (
            arith,
            length-take (or_default limit s.retrieval_top_k) (
                sort_by better (
                  joined s t.documents (dense pg t v uid doc taken)
                    (sparse pg t (strip text) uid doc taken) t.chunks)),
          ),
        )
      ]

  -- With the default damping of 60 and at most 30 candidates, a chunk that both rankings found
  -- scores above every chunk that only one of them found, whatever the ranks.
  pub both-above-one :
      s.rrf_k ≡ 60
      → taken ≤ 30
      → (x y : RetrievedChunk) → In x rows
      → In y rows
      → is_some x.dense_rank ≡ true
      → is_some x.sparse_rank ≡ true
      → (y.dense_rank ≡ none) ⊎ (y.sparse_rank ≡ none)
      → y.score < x.score
  unfolding reciprocal
  both-above-one damping few x y i j d e one =
      let above = both-score s.rrf_k taken x (rows-IsFused x i) d e in
      let below = one-score s.rrf_k taken y (rows-IsFused y j) one in
      omega (
        arith,
        reciprocal_mono (s.rrf_k + taken) 90 (omega arith) (omega arith),
        ap (λ k. reciprocal (k + 1)) damping,
      )
