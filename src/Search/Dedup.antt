-- ===== src/Search/Dedup.antt =====
-- The candidates of the reranker, rag/search.py: the heads of the retrieval arms first, and of the
-- versions of one document one. The transient `_dedup_*` keys of a representative are fields here.
use aki_rag_middleware.Prelude.{
  ℕ, ◌+◌, String, Bool, true, false, not, ◌&&◌, ◌||◌, Option, none, some, List, [], ◌∷◌, ◌++◌, ◌==◌,
  contains, is_empty, length, take, leb, eqb, if◌then◌else◌, map,
}
use aki_rag_middleware.Python.Values.{Runtime, Value, null, int, list, dict, nil, cons, Fields}
use aki_rag_middleware.Python.Fields.{get, put, pop_all}
use aki_rag_middleware.Search.Provenance.{
  text_at, document_text, is_null, rank_less, values_in, count_values, merge_duplicate_variants,
  merge_retrieval_provenance,
}
use aki_rag_middleware.Search.Similar.{
  Patterns, Paths, Matcher, Signature, Reason, one_float, same_filename_variant,
  near_duplicate_text, dedup_candidate_texts, dedup_filename_signature, dedup_content_hash,
}
use aki_rag_middleware.Search.Variant.{Links, duplicate_variant}

pub record Candidate : Type 0 where
  pub item : Fields
  pub signature : Option Signature
  pub texts : List String
  pub hash : String

-- A stable sort by the rank of an arm, the best first.
unfoldable pub insert_ranked : String → Fields → List Fields → List Fields
unfolding get
insert_ranked rank_key x [] = x ∷ []
insert_ranked rank_key x (d ∷ ds) =
    let rest = insert_ranked rank_key x ds in
    if rank_less (get d rank_key) (get x rank_key) then d ∷ rest else x ∷ d ∷ ds

unfoldable pub sort_ranked : String → List Fields → List Fields
unfolding insert_ranked
sort_ranked rank_key [] = []
sort_ranked rank_key (d ∷ ds) = insert_ranked rank_key d (sort_ranked rank_key ds)

unfoldable pub arm_items : String → List Fields → List Fields
unfolding get
arm_items rank_key [] = []
arm_items rank_key (d ∷ ds) =
    let rest = arm_items rank_key ds in if is_null (get d rank_key) then rest else d ∷ rest

abbrev pub arm_rank_keys : List String
arm_rank_keys = "es_rank" ∷ "vector_rank" ∷ "graph_rank" ∷ []

abbrev pub dedup_keys : List String
dedup_keys = "_dedup_filename_signature" ∷ "_dedup_texts" ∷ "_dedup_content_hash" ∷ []

module _ (py : Runtime) where
  -- The ids of the records, behind those that are there already.
  unfoldable pub protect : List Fields → List String → List String
  unfolding text_at
  protect [] protected = protected
  protect (d ∷ ds) protected =
      let id = document_text py d in
      protect ds (if is_empty id || contains protected id then protected else protected ++ id ∷ [])

  unfoldable pub protect_arms : List String → ℕ → List Fields → List String → List String
  unfolding protect sort_ranked arm_items
  protect_arms [] n fused protected = protected
  protect_arms (key ∷ keys) n fused protected =
      protect_arms keys n fused (protect (take n (sort_ranked key (arm_items key fused))) protected)

  -- `_arm_head_document_ids`; for `n` = 0 the slices are empty, as the early return is.
  abbrev pub arm_head_document_ids : List Fields → ℕ → List String
  arm_head_document_ids fused n = protect_arms arm_rank_keys n fused []

  abbrev pub has_id : String → Fields → Bool
  has_id id d = document_text py d == id

  abbrev pub or_item : Option Fields → Fields → Bool → Option Fields
  or_item none d own = if own then some d else none
  or_item (some e) d own = some e

  -- `by_id.get(id)`: the last record with the id
  unfoldable pub by_id : String → List Fields → Option Fields
  unfolding text_at
  by_id id [] = none
  by_id id (d ∷ ds) = or_item (by_id id ds) d (has_id id d)

  abbrev pub item_list : Option Fields → List Fields
  item_list none = []
  item_list (some d) = d ∷ []

  unfoldable pub head_items : List String → List Fields → List Fields
  unfolding by_id
  head_items [] fused = []
  head_items (id ∷ ids) fused = item_list (by_id id fused) ++ head_items ids fused

  -- The other records with an id, each id once.
  unfoldable pub other_items : List String → List Fields → List Fields
  unfolding text_at
  other_items queued [] = []
  other_items queued (d ∷ ds) =
      let id = document_text py d in
      let skipped = is_empty id || contains queued id in
      let rest = other_items (if skipped then queued else id ∷ queued) ds in
      if skipped then rest else d ∷ rest

  abbrev pub ordered_items : List Fields → ℕ → List Fields
  ordered_items fused n =
      let heads = arm_head_document_ids fused n in head_items heads fused ++ other_items heads fused

-- `inherit` is what a representative takes over from a candidate, apart from its variants.
module _ (py : Runtime) (inherit : Fields → Fields → Fields) (patterns : Patterns) (paths : Paths)
    (matcher : Matcher) (links : Links) where
  abbrev pub candidate_of : Fields → Candidate
  candidate_of item = record {
    item = item;
    signature = dedup_filename_signature py patterns paths item;
    texts = dedup_candidate_texts py patterns paths item;
    hash = dedup_content_hash py patterns paths item;
  }

  unfoldable pub duplicate_reason : Candidate → Candidate → Option Reason
  unfolding near_duplicate_text
  duplicate_reason candidate representative =
      if not (is_empty candidate.hash) && candidate.hash == representative.hash
      then some ("exact_extracted_content_hash", one_float)
      else if same_filename_variant candidate.signature representative.signature
      then some ("same_filename_variant", null)
      else near_duplicate_text matcher candidate.texts representative.texts

  abbrev pub absorb : Candidate → Candidate → Reason → Candidate
  absorb candidate representative (reason, similarity) = record representative {
    item =
        merge_duplicate_variants py
          (merge_duplicate_variants py (inherit representative.item candidate.item) (
            list (
              cons (dict (duplicate_variant py paths links candidate.item reason similarity)) nil)))
          (get candidate.item "duplicate_variants");
  }

  abbrev pub absorbed_first :
      Candidate
      → Candidate
      → List Candidate
      → Option Reason
      → Option (List Candidate)
      → Option (List Candidate)
  absorbed_first candidate r rs (some reason) rest = some (absorb candidate r reason ∷ rs)
  absorbed_first candidate r rs none none = none
  absorbed_first candidate r rs none (some rest) = some (r ∷ rest)

  -- The representatives after the first of them that is another version has taken the candidate in.
  unfoldable pub absorb_first : Candidate → List Candidate → Option (List Candidate)
  unfolding duplicate_reason get merge_duplicate_variants duplicate_variant
  absorb_first candidate [] = none
  absorb_first candidate (r ∷ rs) =
      absorbed_first candidate r rs (duplicate_reason candidate r) (absorb_first candidate rs)

  unfoldable pub admitted : Candidate → Candidate
  unfolding get put
  admitted candidate =
      let variants = values_in (get candidate.item "duplicate_variants") in
      record candidate {
        item =
            put "duplicate_count" (int (1 + count_values variants))
              (put "duplicate_variants" (list variants) candidate.item);
      }

  abbrev pub or_admit : Candidate → List Candidate → Option (List Candidate) → List Candidate
  or_admit candidate reps none = reps ++ admitted candidate ∷ []
  or_admit candidate reps (some merged) = merged

  abbrev pub is_new : Option (List Candidate) → Bool
  is_new none = true
  is_new (some merged) = false

  unfoldable pub take_in : ℕ → List Fields → List Candidate → List Candidate
  unfolding absorb_first admitted dedup_filename_signature dedup_candidate_texts dedup_content_hash
  take_in max_unique [] reps = reps
  take_in max_unique (d ∷ ds) reps =
      let merged = absorb_first (candidate_of d) reps in
      let next = or_admit (candidate_of d) reps merged in
      let rest = take_in max_unique ds next in
      if is_new merged && leb max_unique (length next) then next else rest

abbrev pub finished : Candidate → Fields
finished representative = pop_all dedup_keys representative.item

module _ (py : Runtime) (equal : Value → Value → Bool) (patterns : Patterns) (paths : Paths)
    (matcher : Matcher) (links : Links) where
  unfoldable pub deduplicate_for_reranker : Bool → List Fields → ℕ → ℕ → List Fields
  unfolding take_in protect_arms head_items other_items pop_all merge_retrieval_provenance
  deduplicate_for_reranker dedup_enabled fused max_unique n =
      let ordered = ordered_items py fused n in
      if eqb max_unique 0
      then []
      else if not dedup_enabled
      then take max_unique ordered
      else map finished (
          take_in py (merge_retrieval_provenance equal) patterns paths matcher links max_unique
            ordered [])
