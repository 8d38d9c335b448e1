-- ===== src/Search/Arm/Cover.antt =====
-- `deduplicate_retrieval_arm` of rag/search.py loses no document of the arm, and numbers what is left.
use aki_rag_middleware.Prelude.{
  ℕ, suc, ◌≤◌, String, ◌≡◌, refl, ap, sym, ◌∙◌, Bool, true, false, ◌||◌, List, [], ◌∷◌, ◌==◌, map,
  any, contains, length, length-map, arith, eq_iff, Bool-cases, inl, inr, ◌+◌,
}
use aki_rag_middleware.Python.Errors.{ok}
use aki_rag_middleware.Python.Values.{Runtime, Value, int, list, nil, Fields}
use aki_rag_middleware.Python.Fields.{get, put, lookup, lookup-put}
use aki_rag_middleware.Search.Provenance.{text_at, document_text, ids_of, values_in, count_values}
use aki_rag_middleware.Search.Similar.{Patterns, Paths, Matcher}
use aki_rag_middleware.Search.Variant.{Links, or_given}
use aki_rag_middleware.Search.Dedup.{Candidate, finished, absorb_first, or_admit, is_new}
use aki_rag_middleware.Search.Represented.{stands_for, document_text-put}
use aki_rag_middleware.Search.Absorbed.{standing, any-finished, Round, or_admit-Round}
use aki_rag_middleware.Search.Arm.{
  keep_own, counted, number_ranks, arm_candidate, take_in_arm, deduplicate_retrieval_arm,
}

-- The ranks are those of the places, from the first one on.
abbrev pub IsNumbered : ℕ → List Fields → Type 0
IsNumbered rank [] = Unit
IsNumbered rank (d ∷ ds) = (get d "rank" ≡ int rank) × IsNumbered (suc rank) ds

number_ranks-IsNumbered : (rank : ℕ) (ds : List Fields) → IsNumbered rank (number_ranks rank ds)
unfolding number_ranks get
number_ranks-IsNumbered rank [] = tt
number_ranks-IsNumbered rank (d ∷ ds) =
    (rw (lookup-put "rank" "rank" (int rank) d) refl, number_ranks-IsNumbered (suc rank) ds)

length-number_ranks : (rank : ℕ) (ds : List Fields) → length (number_ranks rank ds) ≡ length ds
unfolding number_ranks
length-number_ranks rank [] = refl
length-number_ranks rank (d ∷ ds) = ap suc (length-number_ranks (suc rank) ds)

map-counted-IsNumbered :
    (rank : ℕ) (ds : List Fields) → IsNumbered rank ds → IsNumbered rank (map counted ds)
unfolding get
map-counted-IsNumbered rank [] h = tt
map-counted-IsNumbered rank (d ∷ ds) (a, h) =
    let variants = values_in (or_given (lookup "duplicate_variants" d) (list nil)) in
    (
      rw
          (
            lookup-put "duplicate_count" "rank" (int (1 + count_values variants))
                (put "duplicate_variants" (list variants) d),
            lookup-put "duplicate_variants" "rank" (list variants) d,
          )
          a,
      map-counted-IsNumbered (suc rank) ds h,
    )

module _ (py : Runtime) where
  stands_for-rank :
      (id : String) (rank : Value) (d : Fields)
      → stands_for py id (put "rank" rank d) ≡ stands_for py id d
  unfolding get text_at
  stands_for-rank id rank d =
      rw (lookup-put "rank" "document_id" rank d, lookup-put "rank" "duplicate_variants" rank d)
        refl

  any-number_ranks :
      (id : String) (rank : ℕ) (ds : List Fields)
      → any (stands_for py id) (number_ranks rank ds) ≡ any (stands_for py id) ds
  unfolding number_ranks
  any-number_ranks id rank [] = refl
  any-number_ranks id rank (d ∷ ds) =
      rw (stands_for-rank id (int rank) d, any-number_ranks id (suc rank) ds) refl

  document_text-rank :
      (rank : Value) (d : Fields) → document_text py (put "rank" rank d) ≡ document_text py d
  unfolding get text_at
  document_text-rank rank d = rw (lookup-put "rank" "document_id" rank d) refl

  any-counted :
      (id : String) (rank : ℕ) (ds : List Fields)
      → contains (ids_of py ds) id ≡ true
      → any (stands_for py id) (map counted (number_ranks rank ds)) ≡ true
  unfolding number_ranks
  any-counted id rank [] h = cc
  any-counted id rank (d ∷ ds) h =
      let numbered = put "rank" (int rank) d in
      let variants = values_in (or_given (lookup "duplicate_variants" numbered) (list nil)) in
      let same =
        document_text-put py (int (1 + count_values variants)) (list variants) numbered
        ∙ document_text-rank (int rank) d in
      rw same (ground (arith, any-counted id (suc rank) ds))

module _ (py : Runtime) (patterns : Patterns) (paths : Paths) (matcher : Matcher)
    (links : Links) where
  -- Another record of the arm is taken in; nothing that was stood for is lost.
  arm-Round :
      (c : Candidate) (reps : List Candidate)
      → Round py keep_own patterns paths matcher links
          (λ id target source. refl)
          c
          reps
          (or_admit py keep_own patterns paths matcher links c reps
            (absorb_first py keep_own patterns paths matcher links c reps))
          (is_new py keep_own patterns paths matcher links
            (absorb_first py keep_own patterns paths matcher links c reps))
  arm-Round c reps =
      or_admit-Round py keep_own patterns paths matcher links (λ id target source. refl) c reps

  take_in_arm-kept :
      (arm : String) (ds : List Fields) (reps : List Candidate) (id : String)
      → standing py id reps ≡ true
      → standing py id (take_in_arm py patterns paths matcher links arm ds reps) ≡ true
  unfolding take_in_arm
  take_in_arm-kept arm [] reps id h = h
  take_in_arm-kept arm (d ∷ ds) reps id h =
      let c = arm_candidate py patterns paths matcher links arm d in
      take_in_arm-kept arm ds _ id ((arm-Round c reps).kept id h)

  take_in_arm-taken :
      (arm : String) (ds : List Fields) (reps : List Candidate) (id : String)
      → contains (ids_of py ds) id ≡ true
      → standing py id (take_in_arm py patterns paths matcher links arm ds reps) ≡ true
  unfolding take_in_arm
  take_in_arm-taken arm [] reps id h = cc
  take_in_arm-taken arm (d ∷ ds) reps id h =
      let c = arm_candidate py patterns paths matcher links arm d in
      let next =
        or_admit py keep_own patterns paths matcher links c reps
          (absorb_first py keep_own patterns paths matcher links c reps) in
      elim (Bool-cases (document_text py d == id)) [
        | inl own ↦ take_in_arm-kept arm ds next id (
            ap (λ i. standing py i next) (sym ((eq_iff (document_text py d) id).0 own))
            ∙ (arm-Round c reps).taken)
        | inr other ↦ take_in_arm-taken arm ds next id (rw other at h)
      ]

  take_in_arm-length :
      (arm : String) (ds : List Fields) (reps : List Candidate)
      → length (take_in_arm py patterns paths matcher links arm ds reps) ≤ length ds + length reps
  unfolding take_in_arm
  take_in_arm-length arm [] reps = omega arith
  take_in_arm-length arm (d ∷ ds) reps =
      let c = arm_candidate py patterns paths matcher links arm d in
      let next =
        or_admit py keep_own patterns paths matcher links c reps
          (absorb_first py keep_own patterns paths matcher links c reps) in
      let rest = take_in_arm-length arm ds next in ground (arith, (arm-Round c reps).grown)

  -- For the two arms that are measured there is a result; it has a record for every document of the
  -- arm, which is the document or names it as a variant.
  pub deduplicate_retrieval_arm-covers :
      (enabled : Bool) (arm : String) (results : List Fields) (id : String)
      → (arm == "es" || arm == "vector") ≡ true
      → contains (ids_of py results) id ≡ true
      → (out : List Fields) × (deduplicate_retrieval_arm py patterns paths matcher links enabled arm
            results
          ≡ ok out)
        × (any (stands_for py id) out ≡ true)
  unfolding deduplicate_retrieval_arm
  deduplicate_retrieval_arm-covers false arm results id known h =
      (map counted (number_ranks 1 results), rw known refl, any-counted py id 1 results h)
  deduplicate_retrieval_arm-covers true arm results id known h =
      let reps = take_in_arm py patterns paths matcher links arm results [] in
      let out = map finished reps in
      (
        number_ranks 1 out,
        rw known refl,
        any-number_ranks py id 1 out
            ∙ any-finished py id reps
            ∙ take_in_arm-taken arm results [] id h,
      )

  -- For the two arms that are measured, the result has no more records than there were, and their
  -- ranks are 1, 2, 3 and so on.
  pub deduplicate_retrieval_arm-IsNumbered :
      (enabled : Bool) (arm : String) (results : List Fields)
      → (arm == "es" || arm == "vector") ≡ true
      → (out : List Fields) × (deduplicate_retrieval_arm py patterns paths matcher links enabled arm
            results
          ≡ ok out)
        × (length out ≤ length results)
        × IsNumbered 1 out
  unfolding deduplicate_retrieval_arm
  deduplicate_retrieval_arm-IsNumbered false arm results known =
      let numbered = number_ranks 1 results in
      let a = length-map counted numbered in
      let b = length-number_ranks 1 results in
      (
        map counted numbered,
        rw known refl,
        omega arith,
        map-counted-IsNumbered 1 numbered (number_ranks-IsNumbered 1 results),
      )
  deduplicate_retrieval_arm-IsNumbered true arm results known =
      let reps = take_in_arm py patterns paths matcher links arm results [] in
      let out = map finished reps in
      let a = length-map finished reps in
      let b = length-number_ranks 1 out in
      let c = take_in_arm-length arm results [] in
      (number_ranks 1 out, rw known refl, omega arith, number_ranks-IsNumbered 1 out)
