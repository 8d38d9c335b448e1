-- ===== src/Search/Pool.antt =====
-- The candidates that `deduplicate_for_reranker` of rag/search.py hands to the reranker.
use aki_rag_middleware.Prelude.{
  ℕ, zero, suc, ◌+◌, ◌≤◌, ◌<◌, String, ◌≡◌, ap, sym, ◌∙◌, true, ◌&&◌, List, [], ◌∷◌, ◌==◌, contains,
  length, take, leb, arith, eq_iff, Bool-cases, inl, inr,
}
use aki_rag_middleware.Python.Values.{Runtime, Fields}
use aki_rag_middleware.Search.Provenance.{document_text, ids_of}
use aki_rag_middleware.Search.Similar.{Patterns, Paths, Matcher}
use aki_rag_middleware.Search.Variant.{Links}
use aki_rag_middleware.Search.Dedup.{
  Candidate, candidate_of, absorb_first, or_admit, is_new, take_in,
}
use aki_rag_middleware.Search.Represented.{stands_for}
use aki_rag_middleware.Search.Absorbed.{standing, or_admit-Round}

-- `inherit` leaves what a record stands for.
module _ (py : Runtime) (inherit : Fields → Fields → Fields) (patterns : Patterns) (paths : Paths)
    (matcher : Matcher) (links : Links)
    (keeps : (id : String) (target source : Fields)
      → stands_for py id (inherit target source) ≡ stands_for py id target) where
  take_in-kept :
      (max_unique : ℕ) (ds : List Fields) (reps : List Candidate) (id : String)
      → standing py id reps ≡ true
      → standing py id (take_in py inherit patterns paths matcher links max_unique ds reps) ≡ true
  unfolding take_in
  take_in-kept max_unique [] reps id h = h
  take_in-kept max_unique (d ∷ ds) reps id h =
      let c = candidate_of py inherit patterns paths matcher links d in
      let merged = absorb_first py inherit patterns paths matcher links c reps in
      let next = or_admit py inherit patterns paths matcher links c reps merged in
      let r = or_admit-Round py inherit patterns paths matcher links keeps c reps in
      let full =
        is_new py inherit patterns paths matcher links merged && leb max_unique (length next) in
      elim (Bool-cases full) [
        | inl stop ↦ rw stop (r.kept id h)
        | inr go ↦ rw go (take_in-kept max_unique ds next id (r.kept id h))
      ]

  -- As many records as fit are stood for, one or another way.
  pub take_in-taken :
      (max_unique n : ℕ) (ds : List Fields) (reps : List Candidate) (id : String)
      → n + length reps ≤ max_unique
      → contains (ids_of py (take n ds)) id ≡ true
      → standing py id (take_in py inherit patterns paths matcher links max_unique ds reps) ≡ true
  unfolding take_in
  take_in-taken max_unique zero ds reps id fit h = cc
  take_in-taken max_unique (suc n) [] reps id fit h = cc
  take_in-taken max_unique (suc n) (d ∷ ds) reps id fit h =
      let c = candidate_of py inherit patterns paths matcher links d in
      let merged = absorb_first py inherit patterns paths matcher links c reps in
      let next = or_admit py inherit patterns paths matcher links c reps merged in
      let r = or_admit-Round py inherit patterns paths matcher links keeps c reps in
      let new = is_new py inherit patterns paths matcher links merged in
      let full = new && leb max_unique (length next) in
      let larger : length next ≤ suc (length reps) = ground (arith, r.grown) in
      elim (Bool-cases (document_text py d == id)) [
        | inl own ↦
            let there =
              ap (λ i. standing py i next) (sym ((eq_iff (document_text py d) id).0 own))
              ∙ r.taken in
            elim (Bool-cases full) [
              | inl stop ↦ rw stop there
              | inr go ↦ rw go (take_in-kept max_unique ds next id there)
            ]
        | inr other ↦
            let later : contains (ids_of py (take n ds)) id ≡ true = rw other at h in
            elim (Bool-cases full) [
              | inl stop ↦ absurd (no_room n ds later (ground arith))
              | inr go ↦ rw go (take_in-taken max_unique n ds next id (omega arith) later)
            ]
      ]
    where
      no_room : (n : ℕ) (ds : List Fields) → contains (ids_of py (take n ds)) id ≡ true → n ≡ 0 → ⊥
      no_room zero ds h e = cc
      no_room (suc n) ds h e = omega arith

  pub take_in-bound :
      (max_unique : ℕ) (ds : List Fields) (reps : List Candidate)
      → length reps < max_unique
      → length (take_in py inherit patterns paths matcher links max_unique ds reps) ≤ max_unique
  unfolding take_in
  take_in-bound max_unique [] reps h = omega arith
  take_in-bound max_unique (d ∷ ds) reps h =
      let c = candidate_of py inherit patterns paths matcher links d in
      let merged = absorb_first py inherit patterns paths matcher links c reps in
      let next = or_admit py inherit patterns paths matcher links c reps merged in
      let r = or_admit-Round py inherit patterns paths matcher links keeps c reps in
      let new = is_new py inherit patterns paths matcher links merged in
      let full = new && leb max_unique (length next) in
      elim (Bool-cases full) [
        | inl stop ↦ rw stop (ground (arith, r.grown))
        | inr go ↦ rw go (take_in-bound max_unique ds next (ground (arith, r.grown)))
      ]
