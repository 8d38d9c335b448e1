-- ===== src/Search/Arm.antt =====
-- `deduplicate_retrieval_arm` of rag/search.py: of the versions of a document one counts in the
-- signal of a retrieval arm.
pub mod Cover
use aki_rag_middleware.Prelude.{
  ℕ, ◌+◌, suc, String, Bool, true, false, not, ◌||◌, Option, none, some, List, [], ◌∷◌, map,
  contains, if◌then◌else◌, ◌==◌,
}
use aki_rag_middleware.Python.Errors.{Outcome, ok, raised, value_error}
use aki_rag_middleware.Python.Values.{Runtime, Value, int, str, list, nil, Fields}
use aki_rag_middleware.Python.Fields.{get, put, lookup}
use aki_rag_middleware.Search.Provenance.{values_in, count_values}
use aki_rag_middleware.Search.Similar.{
  Patterns, Paths, Matcher, dedup_candidate_texts, dedup_filename_signature, dedup_content_hash,
}
use aki_rag_middleware.Search.Variant.{Links, or_given}
use aki_rag_middleware.Search.Dedup.{Candidate, absorb_first, admitted, or_admit, finished}

-- `for rank, item in enumerate(items, start): item["rank"] = rank`
unfoldable pub number_ranks : ℕ → List Fields → List Fields
unfolding put
number_ranks rank [] = []
number_ranks rank (d ∷ ds) = put "rank" (int rank) d ∷ number_ranks (suc rank) ds

-- Nothing but its variants is taken over from a version of an arm.
abbrev pub keep_own : Fields → Fields → Fields
keep_own target source = target

-- A record where duplicates are not looked for; its variants are a list or missing.
abbrev pub counted : Fields → Fields
counted item =
    let variants = values_in (or_given (lookup "duplicate_variants" item) (list nil)) in
    put "duplicate_count" (int (1 + count_values variants))
      (put "duplicate_variants" (list variants) item)

-- The copy whose snippet counts as that of the arm.
abbrev pub snippet_if : Bool → Fields → Value
snippet_if b item = if b then or_given (lookup "snippet" item) (str "") else str ""

unfoldable pub arm_probe : String → Fields → Fields
unfolding put lookup
arm_probe arm item =
    put "vector_snippet" (snippet_if (arm == "vector") item)
      (put "es_snippet" (snippet_if (arm == "es") item) item)

module _ (py : Runtime) (patterns : Patterns) (paths : Paths) (matcher : Matcher)
    (links : Links) where
  abbrev pub arm_candidate : String → Fields → Candidate
  arm_candidate arm item = record {
    item = item;
    signature = dedup_filename_signature py patterns paths (arm_probe arm item);
    texts = dedup_candidate_texts py patterns paths (arm_probe arm item);
    hash = dedup_content_hash py patterns paths item;
  }

  unfoldable pub take_in_arm : String → List Fields → List Candidate → List Candidate
  unfolding absorb_first admitted dedup_filename_signature dedup_candidate_texts dedup_content_hash
      arm_probe
  take_in_arm arm [] reps = reps
  take_in_arm arm (d ∷ ds) reps =
      let c = arm_candidate arm d in
      take_in_arm arm ds (
        or_admit py keep_own patterns paths matcher links c reps
          (absorb_first py keep_own patterns paths matcher links c reps))

  unfoldable pub deduplicate_retrieval_arm : Bool → String → List Fields → Outcome (List Fields)
  unfolding take_in_arm number_ranks
  deduplicate_retrieval_arm dedup_enabled arm results =
      if not (arm == "es" || arm == "vector")
      then raised value_error
      else if not dedup_enabled
      then ok (map counted (number_ranks 1 results))
      else ok (number_ranks 1 (map finished (take_in_arm arm results [])))
