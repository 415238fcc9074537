-- ===== src/Documents/Refinement.antt =====
-- The promise of `DocumentStorage`, one PDF for each document id, and the two backends that keep it.
use mathlib.Core.List.{reverse-append, reverse-reverse}
use safe_shield.Prelude.{
  strip_of, reverse, codes, drop, ==_refl, ==_iff, ap, text_eq_comm, ◌++◌, text_eq_refl, true-false,
  text_eq_sound, sym, refl, subst, false, ◌∙◌, true, ◌∷◌, inr, inl, Bool-cases, text_eq, [], ◌≡◌,
  none, ◌==◌, if◌then◌else◌, some, List, Option, Text, ℕ,
}
use safe_shield.Documents.Storage.{
  get_storage, local_key, object_key, key, Files, delete, stored, put,
}
use safe_shield.Config.{s3, local, is_set, StorageBackend, Settings}
use safe_shield.Prelude.Effects.{err_ok, ok_injective, ok}

-- The promise: a partial map from document ids to bytes.
abbrev pub Store : Type 0
Store = ℕ → Option Text

pub data Command : Type 0 where
  put_bytes : ℕ → Text → Command
  delete_bytes : ℕ → Command
  read_bytes : ℕ → Command

abbrev pub assigned : ℕ → Option Text → Store → Store
assigned i value store k = if k == i then value else store k

-- What the reads of a run of commands answer, in order, and the state after it.
abbrev pub promised : List Command → Store → List (Option Text) × Store
promised [] store = ([], store)
promised (put_bytes i content ∷ rest) store = promised rest (assigned i (some content) store)
promised (delete_bytes i ∷ rest) store = promised rest (assigned i none store)
promised (read_bytes i ∷ rest) store =
    let (answers, after) = promised rest store in (store i ∷ answers, after)

-- The same of a backend that makes its keys by `path`.
unfoldable pub performed : (ℕ → Text) → List Command → Files → List (Option Text) × Files
unfolding put delete stored
performed path [] files = ([], files)
performed path (put_bytes i content ∷ rest) files = performed path rest (put (path i) content files)
performed path (delete_bytes i ∷ rest) files = performed path rest (delete (path i) files)
performed path (read_bytes i ∷ rest) files =
    let (answers, after) = performed path rest files in (stored (path i) files ∷ answers, after)

text_eq_moved : (a b c : Text) → text_eq a b ≡ true → text_eq a c ≡ false → text_eq b c ≡ false
text_eq_moved a b c h k = subst (λ t. text_eq t c ≡ false) (text_eq_sound a b h) k

text_eq_apart : (a b c : Text) → text_eq a c ≡ true → text_eq b c ≡ false → text_eq a b ≡ false
text_eq_apart a b c h k = elim (Bool-cases (text_eq a b)) [
  | inl e ↦ absurd (true-false (sym h ∙ text_eq_back a b c e k))
  | inr e ↦ e
]
  where
    text_eq_back : (x y z : Text) → text_eq x y ≡ true → text_eq y z ≡ false → text_eq x z ≡ false
    text_eq_back x y z e f = subst (λ t. text_eq t z ≡ false) (sym (text_eq_sound x y e)) f

-- Deleting under one key.
stored-delete :
    (k l : Text) (files : Files)
    → stored l (delete k files) ≡ (if text_eq l k then none else stored l files)
unfolding stored delete
stored-delete k l [] = elim (Bool-cases (text_eq l k)) [ inl e ↦ rw e refl | inr e ↦ rw e refl ]
stored-delete k l ((name, content) ∷ files) = elim (Bool-cases (text_eq name k)) [
  | inl e ↦ elim (Bool-cases (text_eq l k)) [
    | inl f ↦ rw e (rw f (stored-delete k l files ∙ rw f refl))
    | inr f ↦
        let off : text_eq name l ≡ false = text_eq_apart name l k e f in
        rw e (rw f (rw off (stored-delete k l files ∙ rw f refl)))
  ]
  | inr e ↦ elim (Bool-cases (text_eq name l)) [
    | inl g ↦ let f : text_eq l k ≡ false = text_eq_moved name l k g e in rw e (rw g (rw f refl))
    | inr g ↦ rw e (rw g (stored-delete k l files))
  ]
]

stored-put :
    (k l content : Text) (files : Files)
    → stored l (put k content files) ≡ (if text_eq l k then some content else stored l files)
unfolding put stored
stored-put k l content files = elim (Bool-cases (text_eq l k)) [
  | inl e ↦ rw (text_eq_comm k l ∙ e) (rw e refl)
  | inr e ↦ rw (text_eq_comm k l ∙ e) (rw e (stored-delete k l files ∙ rw e refl))
]

-- Files that hold what a store maps the ids to.
abbrev pub Represents : (ℕ → Text) → Files → Store → Type 0
Represents path files store = (i : ℕ) → stored (path i) files ≡ store i

module _ (path : ℕ → Text) (injective : (i j : ℕ) → path i ≡ path j → i ≡ j) where
  same_key : (i j : ℕ) → text_eq (path i) (path j) ≡ (i == j)
  same_key i j = elim (Bool-cases (i == j)) [
    | inl e ↦ rw ((==_iff i j).0 e) (text_eq_refl (path j) ∙ sym (==_refl j))
    | inr e ↦ elim (Bool-cases (text_eq (path i) (path j))) [
      | inl f ↦
          let same = injective i j (text_eq_sound (path i) (path j) f) in
          absurd (true-false (sym ((==_iff i j).1 same) ∙ e))
      | inr f ↦ f ∙ sym e
    ]
  ]

  put-Represents :
      (i : ℕ) (content : Text) (files : Files) (store : Store)
      → Represents path files store
      → Represents path (put (path i) content files) (assigned i (some content) store)
  put-Represents i content files store h k =
      stored-put (path i) (path k) content files
      ∙ ap (λ b. if b then some content else stored (path k) files) (same_key k i)
      ∙ ap (λ o. if k == i then some content else o) (h k)

  delete-Represents :
      (i : ℕ) (files : Files) (store : Store)
      → Represents path files store
      → Represents path (delete (path i) files) (assigned i none store)
  delete-Represents i files store h k =
      stored-delete (path i) (path k) files
      ∙ ap (λ b. if b then none else stored (path k) files) (same_key k i)
      ∙ ap (λ o. if k == i then none else o) (h k)

  performed-Represents :
      (commands : List Command) (files : Files) (store : Store)
      → Represents path files store
      → ((performed path commands files).0 ≡ (promised commands store).0)
        × Represents path (performed path commands files).1 (promised commands store).1
  unfolding performed
  performed-Represents [] files store h = (refl, h)
  performed-Represents (put_bytes i content ∷ rest) files store h =
      performed-Represents rest (put (path i) content files) (assigned i (some content) store)
        (put-Represents i content files store h)
  performed-Represents (delete_bytes i ∷ rest) files store h =
      performed-Represents rest (delete (path i) files) (assigned i none store)
        (delete-Represents i files store h)
  performed-Represents (read_bytes i ∷ rest) files store h =
      let (answers, after) = performed-Represents rest files store h in
      (
        ap (λ a. a ∷ (performed path rest files).0) (h i) ∙ ap (λ found. store i ∷ found) answers,
        after,
      )

append-front : (a b c : Text) → a ++ b ≡ a ++ c → b ≡ c
append-front [] b c h = h
append-front (x ∷ a) b c h = append-front a b c (ap (drop 1) h)

append-back : (a b c : Text) → a ++ c ≡ b ++ c → a ≡ b
append-back a b c h =
    sym (reverse-reverse a)
    ∙ ap reverse (
        append-front (reverse c) (reverse a) (reverse b)
          (sym (reverse-append a c) ∙ ap reverse h ∙ reverse-append b c))
    ∙ reverse-reverse b

module _ (str_uuid : ℕ → Text) (distinct : (i j : ℕ) → str_uuid i ≡ str_uuid j → i ≡ j) where
  key-injective : (i j : ℕ) → key str_uuid i ≡ key str_uuid j → i ≡ j
  key-injective i j h = distinct i j (append-back (str_uuid i) (str_uuid j) (codes ".pdf") h)

  local_key-injective :
      (directory : Text) (i j : ℕ)
      → local_key str_uuid directory i ≡ local_key str_uuid directory j
      → i ≡ j
  local_key-injective directory i j h =
      key-injective i j (append-front (codes "/") _ _ (append-front directory _ _ h))

  object_key-injective :
      (prefix : Text) (i j : ℕ)
      → object_key str_uuid prefix i ≡ object_key str_uuid prefix j
      → i ≡ j
  object_key-injective [] i j h = key-injective i j h
  object_key-injective (c ∷ cs) i j h =
      key-injective i j (append-front (codes "/") _ _ (append-front (c ∷ cs) _ _ h))

  key_of-injective :
      (s : Settings) (backend : StorageBackend) (path : ℕ → Text)
      → get_storage str_uuid (record s { storage_backend = backend }) ≡ ok path
      → (i j : ℕ) → path i ≡ path j
      → i ≡ j
  key_of-injective s local path h i j e =
      local_key-injective s.upload_dir i j
        (ap (λ f. f i) (ok_injective h) ∙ e ∙ sym (ap (λ f. f j) (ok_injective h)))
  key_of-injective s s3 path h i j e = elim (Bool-cases (is_set s.s3_bucket)) [
    | inl b ↦
        let made_of : ok (object_key str_uuid (strip_of (λ c. c == b'/') s.s3_prefix)) ≡ ok path =
          rw b at h in
        let made = ok_injective made_of in
        object_key-injective (strip_of (λ c. c == b'/') s.s3_prefix) i j
          (ap (λ f. f i) made ∙ e ∙ sym (ap (λ f. f j) made))
    | inr b ↦ absurd (err_ok (rw b at h))
  ]

  -- Whatever the configured backend, where the ids have different texts it keeps the promise of a
  -- partial map from ids to bytes: from files that hold a map, any run of puts, deletions and reads
  -- answers as the map does, and ends with files that hold the map at its end. The bytes of one
  -- document are never those of another.
  pub get_storage-Represents :
      (s : Settings) (path : ℕ → Text) (commands : List Command) (files : Files) (store : Store)
      → get_storage str_uuid s ≡ ok path
      → Represents path files store
      → ((performed path commands files).0 ≡ (promised commands store).0)
        × Represents path (performed path commands files).1 (promised commands store).1
  get_storage-Represents s path commands files store configured h =
      performed-Represents path (key_of-injective s s.storage_backend path configured) commands
        files store h
