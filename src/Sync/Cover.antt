-- ===== src/Sync/Cover.antt =====
-- The chunks of `chunk_text` of rag/sync.py leave nothing out.
use Prim.Native.String.{String}
use aki_rag_middleware.Prelude.{
  ℕ, ◌+◌, ◌≤◌, ◌<◌, ◌≡◌, refl, true, ◌||◌, List, [], eq_refl, ltb, arith, contains, strip, is_empty,
  Bool-cases, inl, inr,
}
use aki_rag_middleware.Auth.{chars}
use aki_rag_middleware.Sync.Chunks.{slice, piece, window_end, add_chunk, fit_overlap, chunk_text}
use aki_rag_middleware.Sync.Cuts.{window_end-between, next_start-between}
use aki_rag_middleware.Sync.Rounds.{Run, over, last, round, chunk_text-Run}

-- A piece of the text with the position in it, no longer than the size, which is among the chunks
-- when it is stripped, or is blank.
abbrev pub Covered : String → ℕ → List String → ℕ → Type 0
Covered text size chunks i =
    (a : ℕ) × (b : ℕ) × (a ≤ i)
    × (i < b)
    × (b ≤ a + size)
    × ((is_empty (strip (slice a b text)) || contains chunks (strip (slice a b text))) ≡ true)

Covered-add_chunk :
    (text chunk : String) (size i : ℕ) (chunks : List String)
    → Covered text size chunks i
    → Covered text size (add_chunk chunk chunks) i
Covered-add_chunk text chunk size i chunks (a, b, h, k, l, m) = (a, b, h, k, l, ground arith)

contains-add_chunk :
    (chunk : String) (chunks : List String)
    → (is_empty chunk || contains (add_chunk chunk chunks) chunk) ≡ true
contains-add_chunk chunk chunks = elim (Bool-cases (is_empty chunk)) [
  | inl e ↦ rw e refl
  | inr e ↦ rw (e, eq_refl chunk) refl
]

Covered-here :
    (text : String) (size start i : ℕ) (chunks : List String)
    → 0 < size
    → start < chars text
    → start ≤ i
    → i < window_end text size start
    → Covered text size (add_chunk (piece text size start) chunks) i
unfolding piece
Covered-here text size start i chunks h k l m = (
  start,
  window_end text size start,
  l,
  m,
  (window_end-between text size start h k).2,
  contains-add_chunk (strip (slice start (window_end text size start) text)) chunks,
)

Run-Covered :
    (text : String) (size overlap start i : ℕ) (chunks : List String)
    → 0 < size
    → start ≤ i
    → i < chars text
    → Run text size overlap start chunks
    → Covered text size chunks i
Run-Covered text size overlap start i _ h k l (over _ m) = absurd (omega arith)
Run-Covered text size overlap start i _ h k l (last _ m n) =
    Covered-here text size start i [] h m k (omega arith)
Run-Covered text size overlap start i _ h k l (round _ rest m n run) =
    let moves = next_start-between text size overlap start h m in
    elim (Bool-cases (ltb i (window_end text size start))) [
      | inl a ↦ Covered-here text size start i rest h m k (ground arith)
      | inr a ↦
          Covered-add_chunk text _ size i rest
            (Run-Covered text size overlap _ i rest h (ground arith) l run)
    ]

-- Where the size is positive, every position of the stripped text is in a piece of it, no longer
-- than the size, that is among the chunks when it is stripped, or is blank: nothing is left out,
-- for every overlap.
pub chunk_text-Covered :
    (text : String) (size overlap i : ℕ)
    → 0 < size
    → i < chars (strip text)
    → Covered (strip text) size (chunk_text text size overlap) i
unfolding chars
chunk_text-Covered text size overlap i h k = elim (Bool-cases (is_empty (strip text))) [
  | inl e ↦ let p : chars (strip text) ≤ i = no_position (strip text) i e k in absurd (omega arith)
  | inr e ↦
      Run-Covered (strip text) size (fit_overlap size overlap) 0 i _ h (omega arith) k
        (chunk_text-Run text size overlap h e)
]
  where
    no_position : (s : String) (i : ℕ) → is_empty s ≡ true → i < chars s → chars s ≤ i
    no_position String.[] i e k = omega arith
    no_position (String.◌∷◌ c s) i e k = ground arith
