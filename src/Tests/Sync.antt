-- ===== src/Tests/Sync.antt =====
-- The pieces and the vectors of a small document, rag/sync.py.
use Prim.Native.String.{String}
use aki_rag_middleware.Prelude.{
  ℕ, ◌≡◌, refl, true, false, List, [], ◌∷◌, any, map, All, strip, ltb, is_space, lstrip, rstrip,
  append, is_empty, arith, if◌then◌else◌,
}
use aki_rag_middleware.Auth.{chars}
use aki_rag_middleware.Store.Scope.{starts}
use aki_rag_middleware.Acl.Authorize.{batches}
use aki_rag_middleware.Sync.Chunks.{
  chunk_text, chunks_from, fit_overlap, piece, slice, take, drop, window_end, next_start,
  natural_split, rfind, rfind_from,
}
use aki_rag_middleware.Sync.Rounds.{Run, chunk_text-Run}
use aki_rag_middleware.Sync.Cover.{Covered, chunk_text-Covered}
use aki_rag_middleware.Sync.Sizes.{Fits, chunk_text-Fits}
use aki_rag_middleware.Sync.Split.{adaptive_split}
use aki_rag_middleware.Sync.Embed.{
  Answer, vectors, too_long, embedded, Request, embedding_document_input, embed_group, embed_groups,
  rounds, embed_chunks_resilient,
}
use aki_rag_middleware.Sync.Enough.{ended, embed_chunks_resilient-ended}
use aki_rag_middleware.Sync.Refines.{Refines, Drawn, texts_of, embed_chunks_resilient-Refines}

abbrev letter : String
letter = " Dear all. It is late, and it is cold. "

chunk_text-letter :
    chunk_text letter 16 4 ≡ "Dear all. It is" ∷ "t is late, and" ∷ "and it is cold." ∷ []
unfolding chunk_text chunks_from strip lstrip rstrip is_space chars piece slice take drop window_end
    next_start natural_split rfind rfind_from starts
chunk_text-letter = refl

strip-letter : is_empty (strip letter) ≡ false
unfolding strip lstrip rstrip is_space
strip-letter = refl

chunk_text-Run_example : Run (strip letter) 16 (fit_overlap 16 4) 0 (chunk_text letter 16 4)
chunk_text-Run_example = chunk_text-Run letter 16 4 (omega arith) strip-letter

chunk_text-Covered_example : Covered (strip letter) 16 (chunk_text letter 16 4) 20
unfolding strip lstrip rstrip is_space chars
chunk_text-Covered_example = chunk_text-Covered letter 16 4 20 (omega arith) (omega arith)

chunk_text-Fits_example : All (Fits 16) (chunk_text letter 16 4)
chunk_text-Fits_example = chunk_text-Fits letter 16 4 (omega arith)

-- A service that takes no text of more than two characters, and measures the others.
abbrev narrow : List String → Answer ℕ
unfolding chars
narrow group =
    if any (λ text. ltb 2 (chars text)) group then too_long else vectors (map chars group)

abbrev no_name : String → String
no_name title = ""

abbrev request : ℕ → Request
request least = record { title = ""; include_basename = true; overlap = 0; min_split_chars = least }

abbrev measured : List (String × ℕ)
measured = ("ab", 2) ∷ ("cd", 2) ∷ ("ef", 2) ∷ []

embed_chunks_resilient_runs :
    embed_chunks_resilient no_name narrow (request 2) 8 ("ab cd" ∷ "ef" ∷ []) ≡ embedded measured
unfolding embed_chunks_resilient embed_groups embed_group batches adaptive_split
    embedding_document_input rounds chunk_text chunks_from strip lstrip rstrip is_space chars piece
    slice take drop window_end next_start natural_split rfind rfind_from starts append
embed_chunks_resilient_runs = refl

embed_chunks_resilient-Refines_example :
    Refines (request 2) ("ab cd" ∷ "ef" ∷ []) (texts_of measured)
    × All (Drawn no_name narrow (request 2)) measured
embed_chunks_resilient-Refines_example =
    embed_chunks_resilient-Refines no_name narrow (request 2) 8 ("ab cd" ∷ "ef" ∷ []) measured
      embed_chunks_resilient_runs

embed_chunks_resilient-ended_example :
    ended (embed_chunks_resilient no_name narrow (request 256) 8 (letter ∷ "ef" ∷ [])) ≡ true
embed_chunks_resilient-ended_example =
    embed_chunks_resilient-ended no_name narrow (request 256) 8 (letter ∷ "ef" ∷ []) (omega arith)
