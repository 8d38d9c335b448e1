-- ===== src/Sync/Cuts.antt =====
-- Where the pieces of rag/sync.py begin and end: the loop of `chunk_text` always moves on.
use Prim.Native.String.{String}
use aki_rag_middleware.Prelude.{
  ℕ, suc, ◌+◌, ◌/◌, ◌≤◌, ◌<◌, Bool, true, false, ◌&&◌, Option, none, some, ◌==◌, ltb, leb, max, min,
  arith, if◌then◌else◌, Bool-cases, inl, inr,
}
use aki_rag_middleware.Auth.{chars}
use aki_rag_middleware.Store.Scope.{starts}
use aki_rag_middleware.Sync.Chunks.{
  rfind_from, rfind, or_earlier, later, natural_split, cut_at, window_end, next_start, slice,
}

-- A position that is found is a place for the text that is looked for, between the two bounds.
data Within (lower end n : ℕ) : Option ℕ → Type 0 where
  absent : Within lower end n none
  found : (i : ℕ) → lower ≤ i → i + n ≤ end → Within lower end n (some i)

or_earlier-Within :
    (lower end n i : ℕ) (b : Bool) (o : Option ℕ)
    → Within lower end n o
    → Within lower end n
        (or_earlier o (if b && (leb lower i && leb (i + n) end) then some i else none))
or_earlier-Within lower end n i b _ (found j h k) = found j h k
or_earlier-Within lower end n i false _ absent = absent
or_earlier-Within lower end n i true _ absent = elim (Bool-cases (leb lower i && leb (i + n) end)) [
  | inl h ↦ rw h (found i (ground arith) (ground arith))
  | inr h ↦ rw h absent
]

rfind_from-Within :
    (sub : String) (lower end i : ℕ) (s : String)
    → Within lower end (chars sub) (rfind_from sub lower end i s)
unfolding rfind_from
rfind_from-Within sub lower end i String.[] = absent
rfind_from-Within sub lower end i (String.◌∷◌ c s) =
    or_earlier-Within lower end (chars sub) i (starts sub (String.◌∷◌ c s)) _
      (rfind_from-Within sub lower end (suc i) s)

weaken : (lower end n : ℕ) (o : Option ℕ) → 1 ≤ n → Within lower end n o → Within lower end 1 o
weaken lower end n _ h absent = absent
weaken lower end n _ h (found i k l) = found i k (omega arith)

later-Within :
    (lower end n : ℕ) (o p : Option ℕ)
    → Within lower end n o
    → Within lower end n p
    → Within lower end n (later o p)
later-Within lower end n _ _ absent k = k
later-Within lower end n _ _ (found i a b) absent = found i a b
later-Within lower end n _ _ (found i a b) (found j c d) =
    found (max i j) (omega arith) (omega arith)

natural_split-Within :
    (text : String) (lower end : ℕ) → Within lower end 1 (natural_split text lower end)
unfolding natural_split rfind chars
natural_split-Within text lower end =
    later-Within lower end 1 _ _
      (weaken lower end 2 _ (omega arith) (rfind_from-Within "\n\n" lower end 0 text))
      (later-Within lower end 1 _ _ (rfind_from-Within "\n" lower end 0 text) (
        later-Within lower end 1 _ _
          (weaken lower end 2 _ (omega arith) (rfind_from-Within ". " lower end 0 text))
          (rfind_from-Within " " lower end 0 text)))

cut_at-between :
    (text : String) (start lower end : ℕ) (o : Option ℕ)
    → start < end
    → Within lower end 1 o
    → (start < cut_at text start end o) × (cut_at text start end o ≤ end)
cut_at-between text start lower end _ h absent = (h, omega arith)
cut_at-between text start lower end _ h (found i k l) = elim (Bool-cases (ltb start i)) [
  | inl a ↦ elim (Bool-cases (slice i (i + 2) text == ". ")) [
    | inl b ↦ rw (a, b) (ground arith, l)
    | inr b ↦ rw (a, b) (ground arith, omega arith)
  ]
  | inr a ↦ rw a (h, omega arith)
]

-- A piece begins before it ends, within the text, and has at most the size that is asked for.
pub window_end-between :
    (text : String) (size start : ℕ)
    → 0 < size
    → start < chars text
    → (start < window_end text size start)
      × (window_end text size start ≤ chars text)
      × (window_end text size start ≤ start + size)
unfolding window_end
window_end-between text size start h k =
    let end = min (chars text) (start + size) in
    let (a, b) =
      cut_at-between text start (max (start + size / 2) start) end
        (natural_split text (max (start + size / 2) start) end) (omega arith)
        (natural_split-Within text (max (start + size / 2) start) end) in
    elim (Bool-cases (ltb end (chars text))) [
      | inl e ↦ rw e (a, omega arith, omega arith)
      | inr e ↦ rw e (omega arith, omega arith, omega arith)
    ]

-- The next piece begins later, and leaves no gap.
pub next_start-between :
    (text : String) (size overlap start : ℕ)
    → 0 < size
    → start < chars text
    → (start < next_start text size overlap start)
      × (next_start text size overlap start ≤ window_end text size start)
unfolding next_start
next_start-between text size overlap start h k =
    let (a, b, c) = window_end-between text size start h k in (omega arith, omega arith)
