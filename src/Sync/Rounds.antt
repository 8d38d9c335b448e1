-- ===== src/Sync/Rounds.antt =====
-- The loop of `chunk_text` of rag/sync.py as a relation, and that it ends.
use Prim.Native.String.{String}
use aki_rag_middleware.Prelude.{
  ℕ, zero, suc, ◌+◌, ◌≤◌, ◌<◌, ◌≡◌, false, List, [], ltb, leb, eqb, arith, strip, is_empty,
  Bool-cases, inl, inr,
}
use aki_rag_middleware.Auth.{chars}
use aki_rag_middleware.Sync.Chunks.{
  piece, window_end, next_start, add_chunk, chunks_from, fit_overlap, chunk_text,
}
use aki_rag_middleware.Sync.Cuts.{next_start-between}

-- A run of the loop from a position, with the pieces that it appends.
pub data Run (text : String) (size overlap : ℕ) : ℕ → List String → Type 0 where
  over : (start : ℕ) → chars text ≤ start → Run text size overlap start []
  last :
      (start : ℕ)
      → start < chars text
      → chars text ≤ window_end text size start
      → Run text size overlap start (add_chunk (piece text size start) [])
  round :
      (start : ℕ) (rest : List String)
      → start < chars text
      → window_end text size start < chars text
      → Run text size overlap (next_start text size overlap start) rest
      → Run text size overlap start (add_chunk (piece text size start) rest)

chunks_from-Run :
    (text : String) (size overlap fuel start : ℕ)
    → 0 < size
    → chars text ≤ fuel + start
    → Run text size overlap start (chunks_from text size overlap fuel start)
unfolding chunks_from
chunks_from-Run text size overlap zero start h k = over start (omega arith)
chunks_from-Run text size overlap (suc fuel) start h k =
    elim (Bool-cases (ltb start (chars text))) [
      | inl a ↦
          let inside : start < chars text = ground arith in
          let moves = next_start-between text size overlap start h inside in
          elim (Bool-cases (leb (chars text) (window_end text size start))) [
            | inl b ↦ rw (a, b) (last start inside (ground arith))
            | inr b ↦
                rw (a, b)
                  (round start _ inside (ground arith)
                    (chunks_from-Run text size overlap fuel _ h (omega arith)))
          ]
      | inr a ↦ rw a (over start (ground arith))
    ]

-- Where the size is positive and the text is not blank, the loop of chunk_text ends after finitely
-- many rounds, and what it has then appended is the result.
pub chunk_text-Run :
    (text : String) (size overlap : ℕ)
    → 0 < size
    → is_empty (strip text) ≡ false
    → Run (strip text) size (fit_overlap size overlap) 0 (chunk_text text size overlap)
unfolding chunk_text
chunk_text-Run text size overlap h k =
    let positive : eqb size 0 ≡ false = ground arith in
    rw (k, positive)
      (chunks_from-Run (strip text) size (fit_overlap size overlap) _ 0 h (omega arith))
