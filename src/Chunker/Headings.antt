-- ===== src/Chunker/Headings.antt =====
-- `_HeadingStack` of backend/app/rag/chunk.py, and that it keeps exactly the open sections.
use safe_shield.Prelude.{
  if◌then◌else◌, reverse, inr, All-keep, keep-All, inl, map, refl, ltb→lt, ap, Bool-cases, arith,
  codes, leb, All-map, ◌<◌, ◌∷◌, join, ltb, List, ◌≤◌, Text, keep, ◌≡◌, [], All, ℕ,
}

abbrev pub Stack : Type 0
Stack = List (ℕ × Text)

-- `while self._stack and self._stack[-1][0] >= level: self._stack.pop()`
unfoldable pub pop_to : ℕ → Stack → Stack
pop_to level [] = []
pop_to level ((l, text) ∷ rest) =
    let popped = pop_to level rest in if leb level l then popped else (l, text) ∷ rest

unfoldable pub push : ℕ → Text → Stack → Stack
unfolding pop_to
push level text stack = (level, text) ∷ pop_to level stack

unfoldable pub path : Stack → Text
path stack = join (codes " > ") (map (λ e. e.1) (reverse stack))

-- A stack whose levels fall strictly towards its bottom.
abbrev pub Nested : Stack → Type 0
Nested [] = Unit {0}
Nested ((l, text) ∷ rest) = All (λ e. e.0 < l) rest × Nested rest

-- The headings that a new one of this level leaves open.
abbrev pub above : ℕ → Stack → Stack
above level stack = keep (λ e. ltb e.0 level) stack

keep_every : (level : ℕ) (stack : Stack) → All (λ e. e.0 < level) stack → above level stack ≡ stack
keep_every level [] h = refl
keep_every level ((l, text) ∷ rest) h = ground (arith, keep_every level rest h.1)

All-below : (a b : ℕ) (stack : Stack) → a ≤ b → All (λ e. e.0 < a) stack → All (λ e. e.0 < b) stack
All-below a b [] le h = tt
All-below a b ((l, text) ∷ rest) le h = (omega arith, All-below a b rest le h.1)

pop_to-above : (level : ℕ) (stack : Stack) → Nested stack → pop_to level stack ≡ above level stack
unfolding pop_to
pop_to-above level [] nested = refl
pop_to-above level ((l, text) ∷ rest) (below, nested) = elim (Bool-cases (leb level l)) [
  | inl e ↦ rw e (ground (arith, pop_to-above level rest nested))
  | inr e ↦
      rw e (ground (arith, keep_every level rest (All-below l level rest (ground arith) below)))
]

above-Nested : (level : ℕ) (stack : Stack) → Nested stack → Nested (above level stack)
above-Nested level [] nested = tt
above-Nested level ((l, text) ∷ rest) (below, nested) = elim (Bool-cases (ltb l level)) [
  | inl e ↦
      rw e (All-keep (λ e. e.0 < l) (λ e. ltb e.0 level) rest below, above-Nested level rest nested)
  | inr e ↦ rw e (above-Nested level rest nested)
]

above-All : (level : ℕ) (stack : Stack) → All (λ e. e.0 < level) (above level stack)
above-All level stack =
    All-map (above level stack) (λ e h. ltb→lt e.0 level h) (keep-All (λ e. ltb e.0 level) stack)

-- The open headings, from the first heading of a document on.
pub data Opened : Stack → Type 0 where
  top : Opened []
  opened : (level : ℕ) (text : Text) (stack : Stack) → Opened stack → Opened (push level text stack)

pub push-Nested :
    (level : ℕ) (text : Text) (stack : Stack) → Nested stack → Nested (push level text stack)
unfolding push
push-Nested level text stack nested =
    rw (pop_to-above level stack nested) (above-All level stack, above-Nested level stack nested)

Opened-Nested : (stack : Stack) → Opened stack → Nested stack
Opened-Nested stack top = tt
Opened-Nested stack (opened level text below o) =
    push-Nested level text below (Opened-Nested below o)

-- After any run of headings the levels of the stack rise strictly, and one more heading closes
-- exactly the sections of its level and deeper ones: those above it stay open, in their order.
pub push-above :
    (level : ℕ) (text : Text) (stack : Stack)
    → Opened stack
    → Nested stack × (push level text stack ≡ (level, text) ∷ above level stack)
unfolding push
push-above level text stack o = (
  Opened-Nested stack o,
  ap (◌∷◌ (level, text)) (pop_to-above level stack (Opened-Nested stack o)),
)
