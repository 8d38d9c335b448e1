-- ===== src/Tests/Search.antt =====
-- Small candidate lists through rag/search.py.
use aki_rag_middleware.Prelude.{
  inl, inr, ℕ, ◌+◌, ◌*◌, ◌/◌, String, ◌≡◌, refl, Bool, true, false, List, [], ◌∷◌, none, some, any,
  contains, length, ltb, arith, strip, lstrip, rstrip, is_space, append, lstrip_by,
}
use aki_rag_middleware.Python.{text_of}
use aki_rag_middleware.Python.Values.{
  Value, null, int, str, Fields, end, field, or_else, truthy, dicts_in, dict_items,
}
use aki_rag_middleware.Python.Fields.{has, get, put, lookup, pop, pop_all}
use aki_rag_middleware.Python.Ascii.{ascii}
use aki_rag_middleware.Auth.{chars}
use aki_rag_middleware.Search.Provenance.{
  text_at, merge_retrieval_provenance, merge_duplicate_variants, new_variants, add_values, is_in,
}
use aki_rag_middleware.Search.Keys.{multi_probe_document_key}
use aki_rag_middleware.Search.Probes.{
  Scores, merge_probe_rankings, scan_rankings, scan_ranking, place_entry, sort_entries,
  insert_entry, number_items,
}
use aki_rag_middleware.Search.Fusion.{rrf}
use aki_rag_middleware.Search.Ranking.{score_in, IsOrdered, merge_probe_rankings-rrf}
use aki_rag_middleware.Search.Required.{keys_of, preserve_required_after_rerank}
use aki_rag_middleware.Search.Mandatory.{preserve_required-keeps}
use aki_rag_middleware.Search.Similar.{
  Patterns, Paths, Matcher, compare_texts, match_right, near_duplicate_text, normalize_dedup_text,
  dedup_candidate_texts, dedup_filename_signature, dedup_content_hash,
}
use aki_rag_middleware.Search.Variant.{Links, duplicate_variant, nextcloud_source_url}
use aki_rag_middleware.Search.Dedup.{
  insert_ranked, sort_ranked, arm_items, protect, protect_arms, by_id, head_items, other_items,
  duplicate_reason, absorb_first, admitted, take_in, deduplicate_for_reranker,
}
use aki_rag_middleware.Search.Represented.{stands_for}
use aki_rag_middleware.Search.Joint.{joint_candidates, final_results}
use aki_rag_middleware.Search.Joint.Whole.{joint_candidates-covers, final_results-keeps}
use aki_rag_middleware.Search.Heads.{deduplicate-heads}
use aki_rag_middleware.Python.Errors.{ok}
use aki_rag_middleware.Search.Arm.{deduplicate_retrieval_arm}
use aki_rag_middleware.Search.Arm.Cover.{deduplicate_retrieval_arm-covers}
use aki_rag_middleware.Search.Required.{merge_required_results}
use aki_rag_middleware.Search.Strict.{is_marked, merge_required_results-covers}
use aki_rag_middleware.Search.Arms.{Weighted, fuse_results}
use aki_rag_middleware.Search.Arms.Sums.{
  record_sum, ranked_sum, graph_sum, fused_sum, fuse_results-shares,
}

abbrev number : Value → ℕ
number (int n) = n
number v = 0

-- Whole numbers in place of floats.
abbrev scores : Scores
scores = record {
  zero_score = int 0;
  add_share = λ k s rank. int (number s + 1000 / (k + rank));
  below = λ a b. ltb (number a) (number b);
}

scores-IsOrdered : IsOrdered scores
scores-IsOrdered = record { asym = λ a b h. ground arith; transfer = λ a b c h k. ground arith }

abbrev unequal : Value → Value → Bool
unequal v w = false

abbrev found : String → ℕ → Fields
found id rank = field "document_id" (str id) (field "es_rank" (int rank) end)

abbrev rankings : List (String × List Fields)
rankings = ("a", found "7" 1 ∷ found "8" 2 ∷ []) ∷ ("b", found "8" 1 ∷ found "9" 2 ∷ []) ∷ []

score-of-eight :
    score_in ascii "id:8" (merge_probe_rankings scores ascii unequal 60 rankings) ≡ some (int 32)
unfolding merge_probe_rankings scan_rankings scan_ranking place_entry sort_entries insert_entry
    number_items multi_probe_document_key text_at get lookup put or_else truthy text_of strip lstrip
    rstrip is_space append merge_retrieval_provenance add_values is_in
score-of-eight = refl

merge_probe_rankings-rrf_example :
    score_in ascii "id:8" (merge_probe_rankings scores ascii unequal 60 rankings)
    ≡ rrf scores ascii 60 "id:8" none rankings
merge_probe_rankings-rrf_example = merge_probe_rankings-rrf scores ascii unequal 60 rankings "id:8"

abbrev ranked : List Fields
ranked = found "7" 1 ∷ found "8" 2 ∷ []

preserve_required-keeps_example :
    contains
      (keys_of ascii
        (preserve_required_after_rerank ascii ranked (found "9" 3 ∷ ranked) ("id:9" ∷ []) 2))
      "id:9"
    ≡ true
unfolding keys_of multi_probe_document_key text_at get lookup or_else truthy text_of strip lstrip
    rstrip is_space append
preserve_required-keeps_example =
    preserve_required-keeps ascii ranked (found "9" 3 ∷ ranked) ("id:9" ∷ []) 2 "id:9"
      (refl, (refl, tt)) (omega arith) refl refl

abbrev same : String → String
same text = text

abbrev patterns : Patterns
patterns = record {
  without_tags = same;
  joined_lines = same;
  spaced_words = same;
  only_words = same;
  single_spaces = same;
}

abbrev paths : Paths
paths = record { suffix = same; stem = same; parent = same; file_name = same; print = same }

abbrev matcher : Matcher
matcher = record {
  exact_text_min_chars = 1;
  min_text_chars = 500;
  unlike_lengths = λ a b. false;
  below_ratio = λ v. true;
  real_quick_ratio = λ a b. null;
  quick_ratio = λ a b. null;
  ratio = λ a b. null;
}

abbrev links : Links
links = record { base_url = ""; urlencode = λ dir file. file }

-- Two copies of a text, the second of which is the best of the graph.
abbrev copies : List Fields
copies =
    field "document_id" (str "files:7")
      (field "es_rank" (int 1) (field "es_snippet" (str "text") end))
    ∷ field "document_id" (str "files:8")
        (field "graph_rank" (int 1) (field "graph_snippet" (str "text") end))
    ∷ []

one-representative :
    length (deduplicate_for_reranker ascii unequal patterns paths matcher links true copies 3 1) ≡ 1
unfolding deduplicate_for_reranker take_in absorb_first admitted duplicate_reason protect_arms
    protect sort_ranked insert_ranked arm_items head_items by_id other_items
    dedup_filename_signature dedup_candidate_texts dedup_content_hash normalize_dedup_text
    near_duplicate_text match_right compare_texts merge_duplicate_variants
    merge_retrieval_provenance new_variants duplicate_variant text_at get lookup put pop pop_all
    or_else truthy text_of strip lstrip rstrip is_space chars append lstrip_by nextcloud_source_url
    dicts_in dict_items add_values is_in
one-representative = refl

deduplicate-heads_example :
    any
      (stands_for ascii "files:8")
      (deduplicate_for_reranker ascii unequal patterns paths matcher links true copies 3 1)
    ≡ true
unfolding text_at get lookup or_else truthy text_of
deduplicate-heads_example =
    deduplicate-heads ascii unequal patterns paths matcher links true copies 3 1 "graph_rank"
      "files:8" 1 (omega arith) refl refl (inl refl, (inr (1, refl), tt)) refl (omega arith)

-- Two copies in the file search, before the ranks are measured.
abbrev arm_copies : List Fields
arm_copies =
    field "document_id" (str "files:7") (field "snippet" (str "text") end)
    ∷ field "document_id" (str "files:8") (field "snippet" (str "text") end)
    ∷ []

deduplicate_retrieval_arm-covers_example :
    (out : List Fields) × (deduplicate_retrieval_arm ascii patterns paths matcher links true "es"
        arm_copies
      ≡ ok out)
    × (any (stands_for ascii "files:8") out ≡ true)
unfolding text_at get lookup or_else truthy text_of
deduplicate_retrieval_arm-covers_example =
    deduplicate_retrieval_arm-covers ascii patterns paths matcher links true "es" arm_copies
      "files:8" refl refl

merge_required_results-covers_example :
    (any
        (is_marked ascii "id:9")
        (merge_required_results ascii unequal (int 0) (found "9" 3 ∷ []) ranked []).0
      ≡ true)
    × (contains (merge_required_results ascii unequal (int 0) (found "9" 3 ∷ []) ranked []).1 "id:9"
        ≡ true)
unfolding multi_probe_document_key text_at get lookup or_else truthy text_of strip lstrip rstrip
    is_space append
merge_required_results-covers_example =
    merge_required_results-covers ascii unequal (int 0) (found "9" 3 ∷ []) ranked [] "id:9" refl

abbrev weighted : Weighted
weighted weight score rank = int (number score + number weight * 1000 / (60 + rank))

abbrev hit : String → ℕ → Fields
hit id rank = field "document_id" (str id) (
    field "rank" (int rank)
      (field "score" (int 1) (field "chunk_no" (int 0) (field "snippet" (str "") end))))

fuse_results-shares_example :
    (out : List Fields) × (fuse_results ascii scores weighted
        (int 2, int 1, int 1)
        (hit "7" 1 ∷ hit "8" 2 ∷ [])
        (hit "8" 1 ∷ [])
        (hit "9" 1 ∷ [])
      ≡ ok out)
    × (record_sum "8" out
        ≡ fused_sum ascii scores weighted
            (int 2, int 1, int 1)
            (hit "7" 1 ∷ hit "8" 2 ∷ [])
            (hit "8" 1 ∷ [])
            (hit "9" 1 ∷ [])
            "8")
unfolding get lookup has
fuse_results-shares_example =
    fuse_results-shares ascii scores weighted (int 2) (int 1) (int 1) (hit "7" 1 ∷ hit "8" 2 ∷ [])
      (hit "8" 1 ∷ []) (hit "9" 1 ∷ []) "8" refl refl refl

sum-of-eight :
    fused_sum ascii scores weighted
      (int 2, int 1, int 1)
      (hit "7" 1 ∷ hit "8" 2 ∷ [])
      (hit "8" 1 ∷ [])
      (hit "8" 1 ∷ [])
      "8"
    ≡ some (int 64)
unfolding ranked_sum graph_sum get lookup
sum-of-eight = refl

-- The reranker raises, and there is room for one record: the mandatory one.
final_results-keeps_example :
    contains (keys_of ascii (final_results ascii none ranked ("id:8" ∷ []) 1)) "id:8" ≡ true
unfolding keys_of multi_probe_document_key text_at get lookup or_else truthy text_of strip lstrip
    rstrip is_space append
final_results-keeps_example =
    final_results-keeps ascii ranked ("id:8" ∷ []) 1 "id:8" (refl, (refl, tt)) (omega arith) refl
      refl

joint_candidates-covers_example :
    any
      (stands_for ascii "9")
      (joint_candidates ascii scores unequal patterns paths matcher links true 60 3 2 rankings [])
    ≡ true
unfolding merge_probe_rankings merge_required_results scan_rankings scan_ranking place_entry
    sort_entries insert_entry number_items multi_probe_document_key text_at get lookup put or_else
    truthy text_of strip lstrip rstrip is_space append merge_retrieval_provenance add_values is_in
joint_candidates-covers_example =
    joint_candidates-covers ascii scores unequal patterns paths matcher links true 60 3 2 rankings
      [] "9" (omega arith) refl refl
