-- ===== src/Chunker/Fuel.antt =====
-- The loop that cuts a long sentence ends, and the fuel given to it is enough.
use mathlib.Core.List.{reverse-cons}
use safe_shield.Prelude.{
  zero, suc, inr, inl, leb, Bool-cases, length-drop, suc, refl, take, ◌<◌, length-append, drop,
  List, ◌∙◌, ap, [], ◌≢◌, ◌∷◌, is_space, arith, ◌≤◌, ◌≡◌, strip, drop_while, reverse, length, Bool,
  Text, ℕ,
}
use safe_shield.Chunker.Chunks.{
  count_tokens, with_added, flush, target_tokens, Progress, truncate_to_tokens, hard_split,
  Tokenizer,
}

length-reverse : (s : Text) → length (reverse s) ≡ length s
length-reverse [] = refl
length-reverse (c ∷ s) =
    ap length (reverse-cons c s)
    ∙ omega (arith, length-append (reverse s) (c ∷ []), length-reverse s)

length-drop_while-le : (p : ℕ → Bool) (s : Text) → length (drop_while p s) ≤ length s
length-drop_while-le p [] = omega arith
length-drop_while-le p (c ∷ s) = ground (arith, length-drop_while-le p s)

length-strip-le : (s : Text) → length (strip s) ≤ length s
length-strip-le s =
    let front = drop_while is_space s in
    omega (
      arith,
      length-reverse (drop_while is_space (reverse front)),
      length-drop_while-le is_space (reverse front),
      length-reverse front,
      length-drop_while-le is_space s,
    )

module _ (tk : Tokenizer) (encode_some : (c : ℕ) (cs : Text) → tk.encode (c ∷ cs) ≢ [])
    (decode_some : (n : ℕ) (ns : List ℕ) → tk.decode (n ∷ ns) ≢ []) where
  nonempty : (s : Text) → s ≢ [] → 0 < length s
  nonempty [] h = absurd (h refl)
  nonempty (c ∷ s) h = omega arith

  decode-take : (ns : List ℕ) (k : ℕ) → ns ≢ [] → 0 < length (tk.decode (take (suc k) ns))
  decode-take [] k h = absurd (h refl)
  decode-take (n ∷ ns) k h = nonempty (tk.decode (n ∷ take k ns)) (decode_some n (take k ns))

  piece_some : (c : ℕ) (cs : Text) → 0 < length (truncate_to_tokens tk (c ∷ cs) target_tokens)
  piece_some c cs = elim (Bool-cases (leb (length (tk.encode (c ∷ cs))) target_tokens)) [
    | inl e ↦ rw e (omega arith)
    | inr e ↦ rw e (decode-take (tk.encode (c ∷ cs)) 699 (encode_some c cs))
  ]

  rest_shorter :
      (c : ℕ) (cs : Text)
      → length (strip (drop (length (truncate_to_tokens tk (c ∷ cs) target_tokens)) (c ∷ cs)))
        ≤ length cs
  rest_shorter c cs =
      let piece = truncate_to_tokens tk (c ∷ cs) target_tokens in
      omega (
        arith,
        piece_some c cs,
        length-strip-le (drop (length piece) (c ∷ cs)),
        length-drop (length piece) (c ∷ cs),
      )

  -- With a tokenizer that gives a token for a text and a character for a token, the loop over a
  -- sentence that is too long ends within as many rounds as the sentence has characters: any fuel
  -- from there on gives the same chunks.
  pub hard_split_enough :
      (f g page_no : ℕ) (remaining : Text) (st : Progress)
      → length remaining ≤ f
      → length remaining ≤ g
      → hard_split tk f page_no remaining st ≡ hard_split tk g page_no remaining st
  unfolding hard_split
  hard_split_enough zero zero page_no remaining st a b = refl
  hard_split_enough zero (suc g) page_no [] st a b = refl
  hard_split_enough zero (suc g) page_no (c ∷ cs) st a b = absurd (omega arith)
  hard_split_enough (suc f) zero page_no [] st a b = refl
  hard_split_enough (suc f) zero page_no (c ∷ cs) st a b = absurd (omega arith)
  hard_split_enough (suc f) (suc g) page_no [] st a b = refl
  hard_split_enough (suc f) (suc g) page_no (c ∷ cs) st a b =
      let piece = truncate_to_tokens tk (c ∷ cs) target_tokens in
      let shorter = rest_shorter c cs in
      hard_split_enough f g page_no (strip (drop (length piece) (c ∷ cs)))
        (flush tk (with_added piece page_no (count_tokens tk piece) st)) (omega arith) (omega arith)
