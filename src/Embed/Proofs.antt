-- ===== src/Embed/Proofs.antt =====
-- What the batches cover, and who embeds in production.
use safe_shield.Prelude.{
  zero, length-take, take-append-drop, take, ◌∙◌, length-drop, refl, ap, drop, suc, arith, [], ◌++◌,
  length, All, ◌≤◌, ◌≡◌, ◌∷◌, Text, List, ℕ,
}
use safe_shield.Embed.{openai_embeddings, get_embedding_provider, batches}
use safe_shield.Config.{started, reject_insecure_defaults, prod, Settings}
use safe_shield.Prelude.Effects.{ok}
use safe_shield.Config.Secure.{reject_insecure_defaults-prod}

abbrev pub concat : List (List Text) → List Text
concat [] = []
concat (b ∷ bs) = b ++ concat bs

-- A request of at least one text and at most as many as allowed.
pub record IsBatch (size : ℕ) (batch : List Text) : Type 0 where
  pub some_text : 1 ≤ length batch
  pub limit : length batch ≤ size

-- With as much fuel as there are texts, the batches are the texts in order, each of at least one
-- text and at most the batch size.
pub batches-Covers :
    (fuel size : ℕ) (texts : List Text)
    → 1 ≤ size
    → length texts ≤ fuel
    → (concat (batches fuel size texts) ≡ texts) × All (IsBatch size) (batches fuel size texts)
unfolding batches
batches-Covers zero size [] pos enough = (refl, tt)
batches-Covers zero size (t ∷ ts) pos enough = absurd (omega arith)
batches-Covers (suc fuel) size [] pos enough = (refl, tt)
batches-Covers (suc fuel) zero (t ∷ ts) pos enough = absurd (omega arith)
batches-Covers (suc fuel) (suc k) (t ∷ ts) pos enough =
    let (same, all) =
      batches-Covers fuel (suc k) (drop k ts) pos (omega (arith, length-drop k ts)) in
    (
      ap (λ r. t ∷ (take k ts ++ r)) same ∙ ap (◌∷◌ t) (take-append-drop k ts),
      (record { some_text = omega arith; limit = omega (arith, length-take k ts) }, all),
    )

-- In production the fake provider is never chosen: a service that the start-up check lets through
-- embeds with the API, in batches of the configured size.
pub get_embedding_provider_started :
    (s : Settings)
    → s.env ≡ prod
    → reject_insecure_defaults s ≡ started s
    → get_embedding_provider s ≡ ok (openai_embeddings s.embedding_batch_size)
unfolding get_embedding_provider
get_embedding_provider_started s in_prod accepted =
    rw ((reject_insecure_defaults-prod s in_prod).0 accepted).has_api_key refl
