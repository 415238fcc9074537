-- ===== src/Documents/Lifetime.antt =====
-- Uploads, deletions and ingestions interleaved. An ingestion is two steps, as its two transactions
-- are: between them any other step may happen. `ingest_document` is the one after the other; where
-- its first transaction raises, nothing happens, which is no step.
use safe_shield.Documents.Owned.{IsOwned, OneOwner, Owner, Reads}
use safe_shield.Prelude.{
  All, All-map, ◌==◌, subst, sym, keep, ap, ◌∙◌, true, inr, not, inl, [], ◌⊎◌, ◌++◌, ◌∷◌, some, ◌≡◌,
  Text, Option, ◌≢◌, List, ℕ,
}
use safe_shield.Documents.World.{has_id, is_of, find_document, World}
use safe_shield.Config.{Settings}
use safe_shield.Corpus.{ChunkRow, Tables, Document}
use safe_shield.Rag.Order.{keep-In, In-keep, In-All, All-In, In}
use safe_shield.Chunker.Chunks.{Tokenizer}
use safe_shield.Documents.Routes.{
  new_document, delete_row, delete_document, upload_document, in_request, Draw,
}
use safe_shield.Documents.Ingest.{slow_work, finish_ingestion, claimed, Run}
use safe_shield.Documents.Changes.{delete-tables, upload-tables}
use safe_shield.Documents.Finish.{finished-IsOwned, begun-IsOwned}

pub record Life (V : Type 0) : Type 0 where
  pub world : World V
  -- the ingestions that were begun, each with the owner that it read
  pub running : List (ℕ × Option ℕ)

abbrev pub Fresh : {V : Type 0} → ℕ → Life V → Type 0
Fresh i l =
    ((d : Document) → In d l.world.tables.documents → d.id ≢ i)
    × ((o : Option ℕ) → ¬ In (i, o) l.running)

In-end : (a b : Document) (ds : List Document) → In a (ds ++ (b ∷ [])) → In a ds ⊎ (a ≡ b)
In-end a b [] (inl e) = inr e
In-end a b [] (inr i) = absurd i
In-end a b (x ∷ xs) (inl e) = inl (inl e)
In-end a b (x ∷ xs) (inr i) = elim (In-end a b xs i) [ inl j ↦ inl (inr j) | inr e ↦ inr e ]

end-In : (a b : Document) (ds : List Document) → In a ds → In a (ds ++ (b ∷ []))
end-In a b [] i = absurd i
end-In a b (x ∷ xs) (inl e) = inl e
end-In a b (x ∷ xs) (inr i) = inr (end-In a b xs i)

abbrev pub nothing_stored : {V : Type 0} → List (Text × Text) → Life V
nothing_stored files = record {
  world = record {
    tables = record { documents = []; chunks = [] };
    files = files;
    queue = [];
    ingestions_succeeded = 0;
    ingestions_failed = 0;
    documents_pending = 0;
  };
  running = [];
}

module _ {V : Type 0} (s : Settings) (tk : Tokenizer) where
  pub data Step : Life V → Life V → Type 0 where
    uploading :
        (l : Life V) (draw : Draw) (caller : ℕ) (filename : Option Text) (content : Text)
        → Fresh draw.new_id l
        → Step l (record {
          world = (in_request (upload_document s draw caller filename content) l.world).1;
          running = l.running;
        })
    deleting :
        (l : Life V) (draw : Draw) (i caller : ℕ)
        → Step l (record {
          world = (in_request (delete_document s draw i caller) l.world).1;
          running = l.running;
        })
    beginning :
        (l : Life V) (run : Run V) (i : ℕ) (d : Document)
        → find_document i l.world.tables.documents ≡ some d
        → Step l (record { world = claimed tk run i l.world; running = (i, d.user_id) ∷ l.running })
    finishing :
        (l : Life V) (run : Run V) (i : ℕ) (o : Option ℕ)
        → In (i, o) l.running
        → Step l (record {
          world = (finish_ingestion tk run i (slow_work tk run i o run.extracted) l.world).1;
          running = l.running;
        })

  pub data Steps : Life V → Life V → Type 0 where
    none_yet : (l : Life V) → Steps l l
    and_then : (a b c : Life V) → Steps a b → Step b c → Steps a c

  abbrev pub Good : Life V → Type 0
  Good l = IsOwned l.world.tables l.running

  new_document-Fresh :
      (l : Life V) (draw : Draw) (caller : ℕ) (filename : Option Text) (content : Text)
      → Fresh draw.new_id l
      → Fresh (new_document s draw caller filename content).id l
  unfolding new_document
  new_document-Fresh l draw caller filename content fresh = fresh

  added-IsOwned :
      (l : Life V) (n : Document)
      → Fresh n.id l
      → Good l
      → IsOwned
          (record {
            documents = l.world.tables.documents ++ (n ∷ []);
            chunks = l.world.tables.chunks;
          })
          l.running
  added-IsOwned l n (new, idle) g = record {
    chunks =
        All-map l.world.tables.chunks
          (λ c (d, i, a, b). (d, end-In d n l.world.tables.documents i, a, b)) g.chunks;
    one_owner = λ a b i j e.
        one a b (In-end a n l.world.tables.documents i) (In-end b n l.world.tables.documents j) e;
    reads =
        In-All (Reads (l.world.tables.documents ++ (n ∷ []))) l.running
          (λ r k d i e. read r k d (In-end d n l.world.tables.documents i) e);
  }
    where
      one :
          (a b : Document)
          → In a l.world.tables.documents ⊎ (a ≡ n)
          → In b l.world.tables.documents ⊎ (b ≡ n)
          → a.id ≡ b.id
          → a.user_id ≡ b.user_id
      one a b (inl i) (inl j) e = g.one_owner a b i j e
      one a b (inl i) (inr q) e = absurd (new a i (e ∙ ap (λ x. x.id) q))
      one a b (inr p) (inl j) e = absurd (new b j (sym e ∙ ap (λ x. x.id) p))
      one a b (inr p) (inr q) e = ap (λ x. x.user_id) (p ∙ sym q)

      read :
          (r : ℕ × Option ℕ)
          → In r l.running
          → (d : Document) → In d l.world.tables.documents ⊎ (d ≡ n)
          → d.id ≡ r.0
          → d.user_id ≡ r.1
      read (i, o) k d (inl j) e =
          All-In (Reads l.world.tables.documents) l.running (i, o) g.reads k d j e
      read (i, o) k d (inr q) e =
          absurd (idle o (subst (λ x. In (x, o) l.running) (sym e ∙ ap (λ x. x.id) q) k))

  deleted-IsOwned :
      (draw : Draw) (i : ℕ) (t : Tables V) (running : List (ℕ × Option ℕ))
      → IsOwned t running
      → IsOwned (delete_row i t) running
  deleted-IsOwned draw i t running g = record {
    chunks =
        In-All (Owner (keep (λ d. not (has_id i d)) t.documents))
          (keep (λ c. not (is_of i c)) t.chunks)
          (λ c k. survives c (In-keep (λ c. not (is_of i c)) c t.chunks k));
    one_owner = λ a b j k e.
        g.one_owner a b (In-keep (λ d. not (has_id i d)) a t.documents j).0
          (In-keep (λ d. not (has_id i d)) b t.documents k).0 e;
    reads =
        All-map running (λ r h d j e. h d (In-keep (λ d. not (has_id i d)) d t.documents j).0 e)
          g.reads;
  }
    where
      survives :
          (c : ChunkRow V)
          → In c t.chunks × (not (is_of i c) ≡ true)
          → Owner (keep (λ d. not (has_id i d)) t.documents) c
      survives c (k, other) =
          let (d, j, a, b) = All-In (Owner t.documents) t.chunks c g.chunks k in
          (
            d,
            keep-In (λ x. not (has_id i x)) d t.documents j (ap (λ x. not (x == i)) a ∙ other),
            a,
            b,
          )

  step-IsOwned : (a b : Life V) → Step a b → Good a → Good b
  step-IsOwned a b (uploading l draw caller filename content fresh) g =
      elim (upload-tables s draw caller filename content l.world) [
        | inl e ↦ subst (λ t. IsOwned t l.running) (sym e) g
        | inr e ↦
            subst (λ t. IsOwned t l.running) (sym e)
              (added-IsOwned l (new_document s draw caller filename content)
                (new_document-Fresh l draw caller filename content fresh) g)
      ]
  step-IsOwned a b (deleting l draw i caller) g = elim (delete-tables s draw i caller l.world) [
    | inl e ↦ subst (λ t. IsOwned t l.running) (sym e) g
    | inr e ↦
        subst (λ t. IsOwned t l.running) (sym e) (deleted-IsOwned draw i l.world.tables l.running g)
  ]
  step-IsOwned a b (beginning l run i d found) g =
      begun-IsOwned tk run i d l.world l.running found g
  step-IsOwned a b (finishing l run i o k) g = finished-IsOwned tk run i o l.world l.running k g

  Steps-IsOwned : (a b : Life V) → Steps a b → Good a → Good b
  Steps-IsOwned a b (none_yet l) g = g
  Steps-IsOwned a b (and_then x y z more step) g = step-IsOwned y z step (Steps-IsOwned x y more g)

  -- In every state that uploads, deletions and interleaved ingestions lead to from an empty
  -- database, each chunk belongs to a stored document and carries that document's owner, and a
  -- document id has one owner. New ids must be fresh.
  pub lifetime-IsOwned :
      (files : List (Text × Text)) (l : Life V)
      → Steps (nothing_stored files) l
      → All (Owner l.world.tables.documents) l.world.tables.chunks
        × OneOwner l.world.tables.documents
  lifetime-IsOwned files l steps =
      let good =
        Steps-IsOwned _ l steps
          (record { chunks = tt; one_owner = λ a b i j e. absurd i; reads = tt }) in
      (good.chunks, good.one_owner)
