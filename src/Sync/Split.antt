-- ===== src/Sync/Split.antt =====
-- `_adaptive_embedding_split` of rag/sync.py: the smaller pieces of a chunk that the embedding service
-- finds too long. An overlap below 0 is 0, as the code takes it.
use Prim.Native.String.{String}
use aki_rag_middleware.Prelude.{
  ℕ, ◌+◌, ◌-◌, ◌/◌, ◌<◌, ◌≤◌, Bool, not, ◌&&◌, List, [], ◌∷◌, ◌==◌, ltb, leb, eqb, max, min, strip,
  is_empty, all, filter, length, length-filter-le, ◌||◌, arith, All, if◌then◌else◌, Bool-cases, inl,
  inr,
}
use aki_rag_middleware.Auth.{chars}
use aki_rag_middleware.Sync.Chunks.{take, drop, chunk_text}
use aki_rag_middleware.Sync.Sizes.{
  Fits, chunk_text-Fits, length-chunk_text, chars-take, chars-drop, chars-strip,
}

abbrev pub split_target : String → ℕ
split_target text = max 256 (chars text / 2)

abbrev pub adaptive_overlap : String → ℕ → ℕ
adaptive_overlap text overlap = min overlap (split_target text / 4)

abbrev pub half_overlap : String → ℕ → ℕ
half_overlap text overlap = min (adaptive_overlap text overlap) (chars text / 2 / 2)

abbrev pub left_half : String → ℕ → String
left_half text overlap =
    strip (take (min (chars text) (chars text / 2 + half_overlap text overlap)) text)

abbrev pub right_half : String → ℕ → String
right_half text overlap = strip (drop (chars text / 2 - half_overlap text overlap) text)

abbrev pub useful : String → String → Bool
useful text part = not (is_empty part) && not (part == text)

-- The split in the middle, where there is no natural boundary.
abbrev pub halves : String → ℕ → List String
halves text overlap =
    if eqb (chars text / 2) 0 || leb (chars text) (chars text / 2)
    then []
    else filter (useful text) (left_half text overlap ∷ right_half text overlap ∷ [])

abbrev pub split_stripped : String → ℕ → List String
split_stripped text overlap =
    let parts = chunk_text text (split_target text) (adaptive_overlap text overlap) in
    if ltb (chars text) 2
    then []
    else if leb 2 (length parts) && all (λ part. not (part == text)) parts
    then parts
    else halves text overlap

unfoldable pub adaptive_split : String → ℕ → List String
unfolding strip chars chunk_text take drop
adaptive_split text overlap = split_stripped (strip text) overlap

-- A part that is shorter than the bound.
abbrev pub Shorter : ℕ → String → Type 0
Shorter n part = chars part < n

Shorter-Fits :
    (size n : ℕ) (parts : List String) → size < n → All (Fits size) parts → All (Shorter n) parts
Shorter-Fits size n [] h k = tt
Shorter-Fits size n (part ∷ parts) h k = (omega arith, Shorter-Fits size n parts h k.1)

filter-Shorter :
    (p : String → Bool) (n : ℕ) (parts : List String)
    → All (Shorter n) parts
    → All (Shorter n) (filter p parts)
filter-Shorter p n [] h = tt
filter-Shorter p n (part ∷ parts) h = elim (Bool-cases (p part)) [
  | inl e ↦ rw e (h.0, filter-Shorter p n parts h.1)
  | inr e ↦ rw e (filter-Shorter p n parts h.1)
]

left_half-Shorter :
    (text : String) (overlap : ℕ) → 2 ≤ chars text → Shorter (chars text) (left_half text overlap)
left_half-Shorter text overlap h =
    let n = min (chars text) (chars text / 2 + half_overlap text overlap) in
    let a = chars-strip (take n text) in let b = chars-take n text in omega arith

right_half-Shorter :
    (text : String) (overlap : ℕ) → 2 ≤ chars text → Shorter (chars text) (right_half text overlap)
right_half-Shorter text overlap h =
    let n = chars text / 2 - half_overlap text overlap in
    let a = chars-strip (drop n text) in let b = chars-drop n text in omega arith

halves-Shorter :
    (text : String) (overlap n : ℕ)
    → 2 ≤ chars text
    → chars text ≤ n
    → All (Shorter n) (halves text overlap)
halves-Shorter text overlap n h k =
    elim (Bool-cases (eqb (chars text / 2) 0 || leb (chars text) (chars text / 2))) [
      | inl e ↦ rw e tt
      | inr e ↦
          let a : Shorter n (left_half text overlap) =
            omega (arith, left_half-Shorter text overlap h) in
          let b : Shorter n (right_half text overlap) =
            omega (arith, right_half-Shorter text overlap h) in
          rw e (
            filter-Shorter (useful text) n (left_half text overlap ∷ right_half text overlap ∷ [])
              (a, (b, tt)))
    ]

split_stripped-Shorter :
    (text : String) (overlap n : ℕ)
    → chars text ≤ n
    → 256 < n
    → All (Shorter n) (split_stripped text overlap)
split_stripped-Shorter text overlap n h k =
    let parts = chunk_text text (split_target text) (adaptive_overlap text overlap) in
    elim (Bool-cases (ltb (chars text) 2)) [
      | inl e ↦ rw e tt
      | inr e ↦ elim (Bool-cases (leb 2 (length parts) && all (λ part. not (part == text)) parts)) [
        | inl m ↦
            rw (e, m)
              (Shorter-Fits (split_target text) n parts (omega arith) (
                chunk_text-Fits text (split_target text) (adaptive_overlap text overlap)
                  (omega arith)))
        | inr m ↦ rw (e, m) (halves-Shorter text overlap n (ground arith) h)
      ]
    ]

-- The parts of a chunk of more than 256 characters are shorter than it.
pub adaptive_split-Shorter :
    (chunk : String) (overlap : ℕ)
    → 256 < chars chunk
    → All (Shorter (chars chunk)) (adaptive_split chunk overlap)
unfolding adaptive_split
adaptive_split-Shorter chunk overlap h =
    split_stripped-Shorter (strip chunk) overlap (chars chunk) (chars-strip chunk) h

length-halves :
    (text : String) (overlap : ℕ) → 2 ≤ chars text → length (halves text overlap) ≤ chars text
length-halves text overlap h =
    elim (Bool-cases (eqb (chars text / 2) 0 || leb (chars text) (chars text / 2))) [
      | inl e ↦ rw e (omega arith)
      | inr e ↦
          let l =
            length-filter-le (useful text)
              (left_half text overlap ∷ right_half text overlap ∷ []) in
          rw e (omega arith)
    ]

length-split_stripped :
    (text : String) (overlap : ℕ) → length (split_stripped text overlap) ≤ chars text
length-split_stripped text overlap =
    let parts = chunk_text text (split_target text) (adaptive_overlap text overlap) in
    elim (Bool-cases (ltb (chars text) 2)) [
      | inl e ↦ rw e (omega arith)
      | inr e ↦ elim (Bool-cases (leb 2 (length parts) && all (λ part. not (part == text)) parts)) [
        | inl m ↦
            let l =
              length-chunk_text text (split_target text) (adaptive_overlap text overlap)
                (omega arith) in
            rw (e, m) l
        | inr m ↦ rw (e, m) (length-halves text overlap (ground arith))
      ]
    ]

pub length-adaptive_split :
    (chunk : String) (overlap : ℕ) → length (adaptive_split chunk overlap) ≤ chars chunk
unfolding adaptive_split
length-adaptive_split chunk overlap =
    let a = length-split_stripped (strip chunk) overlap in let b = chars-strip chunk in omega arith
