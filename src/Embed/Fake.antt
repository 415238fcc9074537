-- ===== src/Embed/Fake.antt =====
-- `FakeEmbeddings._one` of backend/app/rag/embed.py. SHA-256, UTF-8 and the arithmetic of floats are
-- parameters; the loop runs on fuel, the number of dimensions, since every round adds a number.
use safe_shield.Prelude.{
  false, inr, length-append, inl, Bool-cases, length-take, ◌+◌, zero, length-map, ◌∷◌, ◌%◌, true,
  ◌≤◌, arith, ◌++◌, ◌≡◌, ◌^◌, ltb, [], ◌/◌, length, suc, map, take, List, Text, ℕ,
}

pub record Hashing (F : Type 0) : Type 0 where
  pub sha256 : List ℕ → List ℕ
  pub utf8 : Text → List ℕ
  -- `b / 255.0 - 0.5`
  pub scaled : ℕ → F
  -- `math.sqrt(sum(v * v for v in vec)) or 1.0`
  pub norm_of : List F → F
  pub divided : F → F → F

-- `counter.to_bytes(4, "big")`
abbrev pub to_bytes : ℕ → List ℕ
to_bytes n = (n / 2 ^ 24 % 256) ∷ (n / 2 ^ 16 % 256) ∷ (n / 2 ^ 8 % 256) ∷ (n % 256) ∷ []

module _ {F : Type 0} (h : Hashing F) (dimensions : ℕ) where
  abbrev pub block : List ℕ → ℕ → List F
  block digest counter = map h.scaled (h.sha256 (digest ++ to_bytes counter))

  -- `while len(raw) < self._dimensions`
  unfoldable pub stretched : ℕ → List ℕ → ℕ → List F → List F
  stretched zero digest counter raw = raw
  stretched (suc fuel) digest counter raw = elim (ltb (length raw) dimensions) [
    | true ↦ stretched fuel digest (suc counter) (raw ++ block digest counter)
    | false ↦ raw
  ]

  -- `_one`
  unfoldable pub one : Text → List F
  unfolding stretched
  one text =
      let vec = take dimensions (stretched dimensions (h.sha256 (h.utf8 text)) 0 []) in
      map (λ v. h.divided v (h.norm_of vec)) vec

  module _ (long : (bytes : List ℕ) → length (h.sha256 bytes) ≡ 32) where
    -- With so much fuel the loop has ended: one round less leaves nothing missing.
    stretched-le :
        (fuel : ℕ) (digest : List ℕ) (counter : ℕ) (raw : List F)
        → dimensions ≤ length raw + fuel
        → dimensions ≤ length (stretched fuel digest counter raw)
    unfolding stretched
    stretched-le zero digest counter raw enough = omega (arith, enough)
    stretched-le (suc fuel) digest counter raw enough =
        elim (Bool-cases (ltb (length raw) dimensions)) [
          | inl e ↦
              rw (e, length)
                (stretched-le fuel digest (suc counter) (raw ++ block digest counter) (
                  omega (
                    arith,
                    enough,
                    length-append raw (block digest counter),
                    length-map h.scaled (h.sha256 (digest ++ to_bytes counter)),
                    long (digest ++ to_bytes counter),
                  )))
          | inr e ↦ rw (e, length) (ground arith)
        ]

    -- With a hash of 32 bytes the loop that stretches a digest ends within as many rounds as there
    -- are dimensions, and every text gets a vector of just so many numbers.
    pub length-one : (text : Text) → length (one text) ≡ dimensions
    unfolding one
    length-one text =
        let raw = stretched dimensions (h.sha256 (h.utf8 text)) 0 [] in
        let vec = take dimensions raw in
        omega (
          arith,
          length-map (λ v. h.divided v (h.norm_of vec)) vec,
          length-take dimensions raw,
          stretched-le dimensions (h.sha256 (h.utf8 text)) 0 [] (omega arith),
        )
