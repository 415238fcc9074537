-- ===== src/Corpus.antt =====
-- The tables of documents and of their chunks: backend/app/models/document.py and chunk.py. The
-- type of embedding vectors is a parameter, and a uuid is a number.
use safe_shield.Prelude.{
  refl, arith, ==_iff, ap, inr, inl, ◌⊎◌, ◌↔◌, ◌≡◌, none, ◌==◌, some, false, ◌||◌, true, Text, Bool,
  List, Option, ℕ,
}

pub data DocumentStatus : Type 0 where
  pending processing ready failed : DocumentStatus

pub record Document : Type 0 where
  pub id : ℕ
  -- `none` is the shared corpus
  pub user_id : Option ℕ
  pub filename : Text
  pub title : Option Text
  pub status : DocumentStatus
  pub error : Option Text
  pub page_count : ℕ
  pub chunk_count : ℕ
  pub size_bytes : ℕ
  pub created_at : ℕ

pub record ChunkRow (V : Type 0) : Type 0 where
  pub id : ℕ
  pub document_id : ℕ
  pub user_id : Option ℕ
  pub ordinal : ℕ
  pub page_no : ℕ
  pub section_path : Text
  pub content : Text
  pub body : Text
  pub token_count : ℕ
  -- nullable in the migration
  pub embedding : Option V

pub record Tables (V : Type 0) : Type 0 where
  pub documents : List Document
  pub chunks : List (ChunkRow V)

abbrev pub same_id : Option ℕ → ℕ → Bool
same_id none i = false
same_id (some j) i = j == i

abbrev pub is_null : Option ℕ → Bool
is_null none = true
is_null (some j) = false

-- `or_(user_id == caller, user_id.is_(None))`
abbrev pub visible_to : ℕ → Option ℕ → Bool
visible_to caller owner = same_id owner caller || is_null owner

-- A question of `uid` may use text of the shared corpus, and the caller's own.
abbrev pub MayRead : Option ℕ → Option ℕ → Type 0
MayRead uid owner = (owner ≡ none) ⊎ ((u : ℕ) × (uid ≡ some u) × (owner ≡ some u))

pub visible_to_iff :
    (caller : ℕ) (owner : Option ℕ) → (visible_to caller owner ≡ true) ↔ MayRead (some caller) owner
visible_to_iff caller none = (λ h. inl refl, λ h. refl)
visible_to_iff caller (some o) = (
  λ h. inr (caller, refl, ap some ((==_iff o caller).0 (ground arith))),
  λ h. elim h [ inl e ↦ absurd (cc) | inr (u, same, own) ↦ ground (arith, ==_iff o caller) ],
)
