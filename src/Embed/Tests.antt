-- ===== src/Embed/Tests.antt =====
-- Runs of the embedding.
use mathlib.Core.List.{reverse-cons, append-nil}
use safe_shield.Prelude.{
  sym, subst, map, reverse, some, [], ◌∷◌, arith, none, refl, codes, Text, ◌≡◌, List, length, ℕ,
}
use safe_shield.Config.{started, reject_insecure_defaults}
use safe_shield.Embed.{Response, embed}
use safe_shield.Config.Tests.{production}
use safe_shield.Prelude.Effects.{ok, Result}
use safe_shield.Embed.Order.{placed, nothing, indexed, nothing, Shuffled}
use safe_shield.Embed.Answers.{embed-map}

-- An API that answers in reverse order, with the length of each text as its vector.
abbrev reversed_api : List Text → Result (Response ℕ)
reversed_api [] = ok (record { items = []; total_tokens = none })
reversed_api (t ∷ []) = ok (record { items = (0, length t) ∷ []; total_tokens = some 1 })
reversed_api (t ∷ u ∷ rest) =
    ok (record { items = (1, length u) ∷ (0, length t) ∷ []; total_tokens = some 2 })

abbrev three_texts : List Text
three_texts = codes "a" ∷ codes "bb" ∷ codes "ccc" ∷ []

abbrev three_vectors : List ℕ
three_vectors = 1 ∷ 2 ∷ 3 ∷ []

embed_run : (embed reversed_api 2 three_texts).0 ≡ ok three_vectors
unfolding embed
embed_run = refl

production_run : reject_insecure_defaults production ≡ started production
unfolding reject_insecure_defaults
production_run = refl

-- An API that lists the items of a batch backwards.
abbrev backwards_api : List Text → Result (Response ℕ)
backwards_api batch =
    ok (record { items = reverse (indexed 0 (map length batch)); total_tokens = none })

Shuffled-reverse : {A : Type 0} (xs : List A) → Shuffled xs (reverse xs)
Shuffled-reverse [] = nothing
Shuffled-reverse (x ∷ xs) = subst (Shuffled (x ∷ xs)) (sym (reverse-cons x xs)) (
    placed x xs (reverse xs) []
      (subst (Shuffled xs) (sym (append-nil (reverse xs))) (Shuffled-reverse xs)))

embed-map_example : (embed backwards_api 2 three_texts).0 ≡ ok three_vectors
embed-map_example =
    embed-map backwards_api length
      (λ batch. (
        record { items = reverse (indexed 0 (map length batch)); total_tokens = none },
        refl,
        Shuffled-reverse (indexed 0 (map length batch)),
      ))
      2 three_texts (omega arith)
