-- ===== src/Sync/Sizes.antt =====
-- How many and how long the chunks of `chunk_text` of rag/sync.py are.
use Prim.Native.String.{String}
use Prim.Native.Char.{code}
use aki_rag_middleware.Prelude.{
  ℕ, zero, suc, ◌+◌, ◌-◌, ◌≤◌, ◌<◌, ◌≡◌, false, ◌&&◌, List, [], length, arith, All, strip, lstrip,
  rstrip, is_empty, is_space, Bool-cases, inl, inr,
}
use aki_rag_middleware.Auth.{chars}
use aki_rag_middleware.Sync.Chunks.{
  take, drop, slice, piece, window_end, add_chunk, fit_overlap, chunk_text,
}
use aki_rag_middleware.Sync.Cuts.{window_end-between, next_start-between}
use aki_rag_middleware.Sync.Rounds.{Run, over, last, round, chunk_text-Run}

pub chars-take : (n : ℕ) (s : String) → chars (take n s) ≤ n
unfolding chars take
chars-take zero s = omega arith
chars-take (suc n) String.[] = omega arith
chars-take (suc n) (String.◌∷◌ c s) = let h = chars-take n s in omega arith

pub chars-drop : (n : ℕ) (s : String) → chars (drop n s) ≡ chars s - n
unfolding chars drop
chars-drop zero s = omega arith
chars-drop (suc n) String.[] = omega arith
chars-drop (suc n) (String.◌∷◌ c s) = let h = chars-drop n s in omega arith

chars-lstrip : (s : String) → chars (lstrip s) ≤ chars s
unfolding chars lstrip
chars-lstrip String.[] = omega arith
chars-lstrip (String.◌∷◌ c s) = ground (arith, chars-lstrip s)

chars-rstrip : (s : String) → chars (rstrip s) ≤ chars s
unfolding chars rstrip
chars-rstrip String.[] = omega arith
chars-rstrip (String.◌∷◌ c s) =
    let h = chars-rstrip s in
    elim (Bool-cases (is_empty (rstrip s) && is_space (code c))) [
      | inl a ↦ rw a (omega arith)
      | inr a ↦ rw a (omega arith)
    ]

pub chars-strip : (s : String) → chars (strip s) ≤ chars s
unfolding strip
chars-strip s = let h = chars-rstrip (lstrip s) in let k = chars-lstrip s in omega arith

abbrev pub Fits : ℕ → String → Type 0
Fits size chunk = (is_empty chunk ≡ false) × (chars chunk ≤ size)

add_chunk-Fits :
    (size : ℕ) (chunk : String) (chunks : List String)
    → chars chunk ≤ size
    → All (Fits size) chunks
    → All (Fits size) (add_chunk chunk chunks)
add_chunk-Fits size chunk chunks h k = elim (Bool-cases (is_empty chunk)) [
  | inl e ↦ rw e k
  | inr e ↦ rw e ((e, h), k)
]

chars-piece :
    (text : String) (size start : ℕ)
    → 0 < size
    → start < chars text
    → chars (piece text size start) ≤ size
unfolding piece slice
chars-piece text size start h k =
    let b = (window_end-between text size start h k).2 in
    let s = chars-strip (slice start (window_end text size start) text) in
    let t = chars-take (window_end text size start - start) (drop start text) in omega arith

Run-Fits :
    (text : String) (size overlap start : ℕ) (chunks : List String)
    → 0 < size
    → Run text size overlap start chunks
    → All (Fits size) chunks
Run-Fits text size overlap start _ h (over _ m) = tt
Run-Fits text size overlap start _ h (last _ m n) =
    add_chunk-Fits size _ [] (chars-piece text size start h m) tt
Run-Fits text size overlap start _ h (round _ rest m n run) =
    add_chunk-Fits size _ rest (chars-piece text size start h m)
      (Run-Fits text size overlap _ rest h run)

-- Where the size is positive, no chunk is empty, and none is longer than the size.
pub chunk_text-Fits :
    (text : String) (size overlap : ℕ) → 0 < size → All (Fits size) (chunk_text text size overlap)
unfolding chunk_text
chunk_text-Fits text size overlap h = elim (Bool-cases (is_empty (strip text))) [
  | inl e ↦ rw e tt
  | inr e ↦
      Run-Fits (strip text) size (fit_overlap size overlap) 0 _ h
        (chunk_text-Run text size overlap h e)
]

length-add_chunk :
    (chunk : String) (chunks : List String) → length (add_chunk chunk chunks) ≤ suc (length chunks)
length-add_chunk chunk chunks = ground arith

length-Run :
    (text : String) (size overlap start : ℕ) (chunks : List String)
    → 0 < size
    → start ≤ chars text
    → Run text size overlap start chunks
    → start + length chunks ≤ chars text
length-Run text size overlap start _ h k (over _ m) = omega arith
length-Run text size overlap start _ h k (last _ m n) =
    omega (arith, length-add_chunk (piece text size start) [])
length-Run text size overlap start _ h k (round _ rest m n run) =
    let moves = next_start-between text size overlap start h m in
    omega (
      arith,
      length-Run text size overlap _ rest h (omega arith) run,
      length-add_chunk (piece text size start) rest,
    )

-- There are at most as many chunks as characters.
pub length-chunk_text :
    (text : String) (size overlap : ℕ)
    → 0 < size
    → length (chunk_text text size overlap) ≤ chars text
unfolding chunk_text
length-chunk_text text size overlap h =
    let trim = chars-strip text in
    elim (Bool-cases (is_empty (strip text))) [
      | inl e ↦ rw e (omega arith)
      | inr e ↦
          let l =
            length-Run (strip text) size (fit_overlap size overlap) 0 _ h (omega arith)
              (chunk_text-Run text size overlap h e) in
          omega arith
    ]
