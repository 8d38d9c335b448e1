-- ===== src/Search/Leaders.antt =====
-- Where the records of a retrieval arm stand after `_arm_head_document_ids` of rag/search.py has sorted
-- them.
use aki_rag_middleware.Prelude.{
  ℕ, zero, suc, ◌+◌, ◌≤◌, String, ◌≡◌, refl, sym, ap, ◌∙◌, ◌⊎◌, inl, inr, Bool, true, false, ◌&&◌,
  ◌||◌, List, [], ◌∷◌, ◌==◌, any, All, contains, take, leb, ltb, eqb, eqb→eq, arith, Bool-cases,
  if◌then◌else◌,
}
use mathlib.Core.Path.{ap₂}
use aki_rag_middleware.Python.Values.{
  Runtime, Value, Fields, null, bool, int, negative, float, str, list, dict,
}
use aki_rag_middleware.Python.Fields.{get}
use aki_rag_middleware.Search.Provenance.{document_text, ids_of, is_null, rank_less}
use aki_rag_middleware.Search.Dedup.{arm_items, insert_ranked, sort_ranked}
use aki_rag_middleware.Search.Ranked.{All-insert_ranked, All-sort_ranked}

-- No rank, or a number.
abbrev pub IsRanked : String → Fields → Type 0
IsRanked key d = (get d key ≡ null) ⊎ ((rank : ℕ) × (get d key ≡ int rank))

abbrev pub rank_upto : ℕ → Value → ℕ
rank_upto r (int m) = if leb m r then 1 else 0
rank_upto r v = 0

-- How many records have a rank of at most `r`.
abbrev pub upto : String → ℕ → List Fields → ℕ
upto key r [] = 0
upto key r (d ∷ ds) = rank_upto r (get d key) + upto key r ds

abbrev rank_is : ℕ → Value → Bool
rank_is r (int m) = eqb m r
rank_is r v = false

-- The record has this id and this rank.
abbrev pub is_at : Runtime → String → String → ℕ → Fields → Bool
is_at py key id r d = (document_text py d == id) && rank_is r (get d key)

abbrev rank_of : Value → ℕ
rank_of (int m) = m
rank_of v = 0

null-rank : (r : ℕ) (v : Value) → is_null v ≡ true → rank_is r v ≡ false
null-rank r null h = refl
null-rank r (bool b) h = refl
null-rank r (int m) h = cc
null-rank r (negative m) h = refl
null-rank r (float f) h = refl
null-rank r (str s) h = refl
null-rank r (list vs) h = refl
null-rank r (dict d) h = refl

rank_is-rank : (r : ℕ) (v : Value) → rank_is r v ≡ true → rank_of v ≡ r
rank_is-rank r null h = cc
rank_is-rank r (bool b) h = cc
rank_is-rank r (int m) h = eqb→eq m r h
rank_is-rank r (negative m) h = cc
rank_is-rank r (float f) h = cc
rank_is-rank r (str s) h = cc
rank_is-rank r (list vs) h = cc
rank_is-rank r (dict d) h = cc

rank_upto-int : (r m : ℕ) (v : Value) → v ≡ int m → m ≤ r → rank_upto r v ≡ 1
rank_upto-int r m v e h = rw e (ground arith)

and_right : (a b : Bool) → (a && b) ≡ true → b ≡ true
and_right a b h = ground arith

module _ (key : String) where
  abbrev rank : Fields → ℕ
  rank d = rank_of (get d key)

  abbrev IsNumbered : Fields → Type 0
  IsNumbered d = get d key ≡ int (rank d)

  -- The best ranks first.
  abbrev IsSorted : List Fields → Type 0
  IsSorted [] = Unit
  IsSorted (d ∷ ds) = All (λ e. rank d ≤ rank e) ds × IsSorted ds

  numbered : (ds : List Fields) → All (IsRanked key) ds → All IsNumbered (arm_items key ds)
  unfolding arm_items
  numbered [] h = tt
  numbered (d ∷ ds) (inl e, h) = rw e (numbered ds h)
  numbered (d ∷ ds) (inr (m, e), h) = rw e (e ∙ ap int (sym (ap rank_of e)), numbered ds h)

  less_lem :
      (d x : Fields)
      → IsNumbered d
      → IsNumbered x
      → rank_less (get d key) (get x key) ≡ ltb (rank d) (rank x)
  less_lem d x h k = ap₂ rank_less h k

  not-ltb : (a b : ℕ) → ltb a b ≡ false → b ≤ a
  not-ltb a b h = ground arith

  ltb-le : (a b : ℕ) → ltb a b ≡ true → a ≤ b
  ltb-le a b h = ground arith

  All-le :
      (a b : ℕ) (ds : List Fields) → a ≤ b → All (λ e. b ≤ rank e) ds → All (λ e. a ≤ rank e) ds
  All-le a b [] h k = tt
  All-le a b (d ∷ ds) h (l, k) = (omega arith, All-le a b ds h k)

  insert_ranked-IsSorted :
      (x : Fields) (ds : List Fields)
      → IsNumbered x
      → All IsNumbered ds
      → IsSorted ds
      → IsSorted (insert_ranked key x ds)
  unfolding insert_ranked
  insert_ranked-IsSorted x [] n a s = (tt, tt)
  insert_ranked-IsSorted x (d ∷ ds) n (m, a) (b, s) =
      elim (Bool-cases (rank_less (get d key) (get x key))) [
        | inl e ↦ rw e (
          All-insert_ranked (λ e. rank d ≤ rank e) key x ds
              (ltb-le (rank d) (rank x) (sym (less_lem d x m n) ∙ e)) b,
          insert_ranked-IsSorted x ds n a s,
        )
        | inr e ↦
            let first = not-ltb (rank d) (rank x) (sym (less_lem d x m n) ∙ e) in
            rw e ((first, All-le (rank x) (rank d) ds first b), (b, s))
      ]

  sort_ranked-IsSorted : (ds : List Fields) → All IsNumbered ds → IsSorted (sort_ranked key ds)
  unfolding sort_ranked
  sort_ranked-IsSorted [] h = tt
  sort_ranked-IsSorted (d ∷ ds) (a, h) =
      insert_ranked-IsSorted d (sort_ranked key ds) a (All-sort_ranked IsNumbered key ds h)
        (sort_ranked-IsSorted ds h)

  -- The sorting counts each record once.
  module _ (r : ℕ) where
    upto-insert_ranked :
        (x : Fields) (ds : List Fields)
        → upto key r (insert_ranked key x ds) ≡ rank_upto r (get x key) + upto key r ds
    unfolding insert_ranked
    upto-insert_ranked x [] = refl
    upto-insert_ranked x (d ∷ ds) = elim (Bool-cases (rank_less (get d key) (get x key))) [
      | inl e ↦ rw e (omega (arith, upto-insert_ranked x ds))
      | inr e ↦ rw e refl
    ]

    upto-sort_ranked : (ds : List Fields) → upto key r (sort_ranked key ds) ≡ upto key r ds
    unfolding sort_ranked
    upto-sort_ranked [] = refl
    upto-sort_ranked (d ∷ ds) =
        omega (arith, upto-insert_ranked d (sort_ranked key ds), upto-sort_ranked ds)

    upto-arm_items :
        (ds : List Fields) → All (IsRanked key) ds → upto key r (arm_items key ds) ≡ upto key r ds
    unfolding arm_items
    upto-arm_items [] h = refl
    upto-arm_items (d ∷ ds) (inl e, h) = rw e (omega (arith, upto-arm_items ds h))
    upto-arm_items (d ∷ ds) (inr (m, e), h) =
        rw (ap is_null e) (ap (λ n. rank_upto r (get d key) + n) (upto-arm_items ds h))

  module _ (test : Fields → Bool) where
    any-insert_ranked :
        (x : Fields) (ds : List Fields)
        → any test (insert_ranked key x ds) ≡ (test x || any test ds)
    unfolding insert_ranked
    any-insert_ranked x [] = refl
    any-insert_ranked x (d ∷ ds) = elim (Bool-cases (rank_less (get d key) (get x key))) [
      | inl e ↦ rw e (ground (arith, any-insert_ranked x ds))
      | inr e ↦ rw e refl
    ]

    any-sort_ranked : (ds : List Fields) → any test (sort_ranked key ds) ≡ any test ds
    unfolding sort_ranked
    any-sort_ranked [] = refl
    any-sort_ranked (d ∷ ds) =
        any-insert_ranked d (sort_ranked key ds) ∙ ap (λ b. test d || b) (any-sort_ranked ds)

  module _ (py : Runtime) (id : String) (r : ℕ) where
    any-arm_items :
        (ds : List Fields)
        → any (is_at py key id r) ds ≡ true
        → any (is_at py key id r) (arm_items key ds) ≡ true
    unfolding arm_items
    any-arm_items [] h = h
    any-arm_items (d ∷ ds) h = elim (Bool-cases (is_null (get d key))) [
      | inl e ↦ let no_rank = null-rank r (get d key) e in rw e (any-arm_items ds (ground arith))
      | inr e ↦ rw e (elim (Bool-cases (is_at py key id r d)) [
        | inl own ↦ rw own refl
        | inr other ↦ rw other (any-arm_items ds (rw other at h))
      ])
    ]

    -- A record in front of a sorted list has a rank of at most that of one that is found in it.
    any-le :
        (m : ℕ) (ds : List Fields)
        → All (λ e. m ≤ rank e) ds
        → any (is_at py key id r) ds ≡ true
        → m ≤ r
    any-le m [] a h = absurd (cc)
    any-le m (d ∷ ds) (l, a) h = elim (Bool-cases (is_at py key id r d)) [
      | inl own ↦
          let same = rank_is-rank r (get d key) (and_right (document_text py d == id) _ own) in
          omega arith
      | inr other ↦ any-le m ds a (rw other at h)
    ]

    -- A record stands before all that have a worse rank.
    take-any :
        (n : ℕ) (ds : List Fields)
        → All IsNumbered ds
        → IsSorted ds
        → any (is_at py key id r) ds ≡ true
        → upto key r ds ≤ n
        → contains (ids_of py (take n ds)) id ≡ true
    take-any n [] a s h k = absurd (cc)
    take-any zero (d ∷ ds) (m, a) (b, s) h k =
        let first = any-le (rank d) (d ∷ ds) (omega arith, b) h in
        let counted = rank_upto-int r (rank d) (get d key) m first in absurd (omega arith)
    take-any (suc n) (d ∷ ds) (m, a) (b, s) h k = elim (Bool-cases (document_text py d == id)) [
      | inl own ↦ rw own refl
      | inr other ↦
          let first = any-le (rank d) (d ∷ ds) (omega arith, b) h in
          let counted = rank_upto-int r (rank d) (get d key) m first in
          rw other (take-any n ds a s (rw other at h) (omega arith))
    ]

    -- A record of the arm is among the first `n` if at most `n` records have its rank or a better one.
    pub take-sort_ranked :
        (n : ℕ) (ds : List Fields)
        → All (IsRanked key) ds
        → any (is_at py key id r) ds ≡ true
        → upto key r ds ≤ n
        → contains (ids_of py (take n (sort_ranked key (arm_items key ds)))) id ≡ true
    take-sort_ranked n ds ranked there few =
        let items = arm_items key ds in
        let numbers = numbered ds ranked in
        let count = upto-sort_ranked r items ∙ upto-arm_items r ds ranked in
        take-any n (sort_ranked key items) (All-sort_ranked IsNumbered key items numbers)
          (sort_ranked-IsSorted items numbers)
          (any-sort_ranked (is_at py key id r) items ∙ any-arm_items ds there) (omega arith)
