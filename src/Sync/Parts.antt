-- ===== src/Sync/Parts.antt =====
-- The parts of a chunk that `_adaptive_embedding_split` of rag/sync.py gives leave nothing out of it.
use Prim.Native.String.{String}
use aki_rag_middleware.Prelude.{
  ℕ, zero, suc, ◌+◌, ◌-◌, ◌/◌, ◌≤◌, ◌<◌, ◌≡◌, refl, ap, Bool, true, false, not, ◌&&◌, ◌||◌, List,
  [], ◌∷◌, ◌==◌, eq_refl, ltb, leb, eqb, min, all, filter, arith, contains, length, strip,
  strip_idem, is_empty, Bool-cases, inl, inr,
}
use aki_rag_middleware.Auth.{chars}
use aki_rag_middleware.Sync.Chunks.{take, drop, slice, chunk_text}
use aki_rag_middleware.Sync.Sizes.{chars-drop}
use aki_rag_middleware.Sync.Cover.{chunk_text-Covered}
use aki_rag_middleware.Sync.Split.{
  split_target, adaptive_overlap, half_overlap, left_half, right_half, useful, halves,
  split_stripped, adaptive_split,
}

-- A piece of the text with the position in it is among the parts when it is stripped, or is blank.
abbrev pub Held : String → List String → ℕ → Type 0
Held text parts i =
    (a : ℕ) × (b : ℕ) × (a ≤ i)
    × (i < b)
    × ((is_empty (strip (slice a b text)) || contains parts (strip (slice a b text))) ≡ true)

-- At least two parts, and every position of the stripped chunk is in one of them.
abbrev pub IsSplit : String → List String → Type 0
IsSplit chunk parts =
    (2 ≤ length parts) × ((i : ℕ) → i < chars (strip chunk) → Held (strip chunk) parts i)

take_all_chars : (s : String) (n : ℕ) → chars s ≤ n → take n s ≡ s
unfolding take chars
take_all_chars String.[] zero h = refl
take_all_chars String.[] (suc n) h = refl
take_all_chars (String.◌∷◌ c s) zero h = absurd (omega arith)
take_all_chars (String.◌∷◌ c s) (suc n) h =
    ap (λ r. String.◌∷◌ c r) (take_all_chars s n (omega arith))

slice-start : (text : String) (m : ℕ) → slice 0 m text ≡ take m text
unfolding slice drop
slice-start text m = let same : m - 0 ≡ m = omega arith in ap (λ n. take n text) same

slice-end : (text : String) (k : ℕ) → slice k (chars text) text ≡ drop k text
unfolding slice
slice-end text k = take_all_chars (drop k text) (chars text - k) (omega (arith, chars-drop k text))

-- Two useful halves are the whole.
both_kept :
    (p : String → Bool) (l r : String)
    → 2 ≤ length (filter p (l ∷ r ∷ []))
    → filter p (l ∷ r ∷ []) ≡ l ∷ r ∷ []
both_kept p l r h = elim (Bool-cases (p l)) [
  | inl a ↦ elim (Bool-cases (p r)) [
    | inl b ↦ rw (a, b) refl
    | inr b ↦ absurd (omega (arith, (rw (a, b) at h)))
  ]
  | inr a ↦ elim (Bool-cases (p r)) [
    | inl b ↦ absurd (omega (arith, (rw (a, b) at h)))
    | inr b ↦ absurd (omega (arith, (rw (a, b) at h)))
  ]
]

halves-Held :
    (text : String) (overlap i : ℕ)
    → 2 ≤ length (halves text overlap)
    → i < chars text
    → Held text (halves text overlap) i
halves-Held text overlap i h inside =
    elim (Bool-cases (eqb (chars text / 2) 0 || leb (chars text) (chars text / 2))) [
      | inl none_there ↦ absurd (omega (arith, (rw none_there at h)))
      | inr there ↦
          let l = left_half text overlap in
          let r = right_half text overlap in
          let m = min (chars text) (chars text / 2 + half_overlap text overlap) in
          let k = chars text / 2 - half_overlap text overlap in
          let kept = both_kept (useful text) l r (rw there at h) in
          rw (there, kept)
            (elim (Bool-cases (ltb i m)) [
              | inl early ↦ (
                0,
                m,
                omega arith,
                ground arith,
                rw (slice-start text m, eq_refl l) (ground arith),
              )
              | inr late ↦ (
                k,
                chars text,
                before (ltb i m) late,
                inside,
                rw (slice-end text k, eq_refl r) (ground arith),
              )
            ])
    ]
  where
    before :
        (b : Bool)
        → ltb i (min (chars text) (chars text / 2 + half_overlap text overlap)) ≡ false
        → chars text / 2 - half_overlap text overlap ≤ i
    before b late = ground arith

split_stripped-Held :
    (text : String) (overlap i : ℕ)
    → strip text ≡ text
    → 2 ≤ length (split_stripped text overlap)
    → i < chars text
    → Held text (split_stripped text overlap) i
split_stripped-Held text overlap i clean h inside =
    let parts = chunk_text text (split_target text) (adaptive_overlap text overlap) in
    elim (Bool-cases (ltb (chars text) 2)) [
      | inl short ↦ absurd (omega (arith, (rw short at h)))
      | inr long ↦
          elim (Bool-cases (leb 2 (length parts) && all (λ part. not (part == text)) parts)) [
            | inr other ↦
                rw (long, other) (halves-Held text overlap i (rw (long, other) at h) inside)
            | inl natural ↦
                rw (long, natural)
                  (let (a, b, before, behind, near, held) =
                      chunk_text-Covered text (split_target text) (adaptive_overlap text overlap) i
                        (omega arith) (rw clean inside) in
                    (a, b, before, behind, (rw clean at held)))
          ]
    ]

-- Two parts or more leave nothing out.
pub adaptive_split-IsSplit :
    (chunk : String) (overlap : ℕ)
    → 2 ≤ length (adaptive_split chunk overlap)
    → IsSplit chunk (adaptive_split chunk overlap)
unfolding adaptive_split
adaptive_split-IsSplit chunk overlap h =
    (h, λ i inside. split_stripped-Held (strip chunk) overlap i (strip_idem chunk) h inside)
