-- ===== src/Search/Joint.antt =====
-- The joint ranking in `perform_multi_probe_search` of rag/search.py: the candidates of the reranker
-- from the rankings of the probes and the strict query, and the result from what it answers.
pub mod Whole
use aki_rag_middleware.Prelude.{
  ℕ, suc, max, min, String, Bool, Option, none, some, List, [], ◌∷◌, map, take, length,
}
use aki_rag_middleware.Python.Values.{Runtime, Value, null, int, Fields}
use aki_rag_middleware.Python.Fields.{put}
use aki_rag_middleware.Search.Probes.{Scores, merge_probe_rankings}
use aki_rag_middleware.Search.Required.{merge_required_results, preserve_required_after_rerank}
use aki_rag_middleware.Search.Similar.{Patterns, Paths, Matcher}
use aki_rag_middleware.Search.Variant.{Links}
use aki_rag_middleware.Search.Dedup.{deduplicate_for_reranker}

-- At most 80 records are reranked.
abbrev pub candidate_limit : ℕ → ℕ → List String → List Fields → ℕ
candidate_limit rerank_candidates limit required fused =
    min (max (max (max rerank_candidates limit) (length required)) (length fused)) 80

abbrev pub unranked : Fields → Fields
unranked item = put "reranker_raw_score" null (put "reranker_score" null item)

unfoldable pub rrf_fallback : List Fields → ℕ → List Fields
unfolding put
rrf_fallback fused_results limit = map unranked (take limit fused_results)

-- None where the reranker is off or raises. Where it names nothing, that counts as an error; without
-- candidates it is the same.
abbrev pub joint_ranked : Option (List Fields) → List Fields → ℕ → List Fields
joint_ranked none candidates limit = rrf_fallback candidates limit
joint_ranked (some []) candidates limit = rrf_fallback candidates limit
joint_ranked (some (d ∷ ds)) candidates limit = d ∷ ds

-- `for rank, item in enumerate(items, start): item["final_rank"] = rank`
unfoldable pub number_final : ℕ → List Fields → List Fields
unfolding put
number_final rank [] = []
number_final rank (d ∷ ds) = put "final_rank" (int rank) d ∷ number_final (suc rank) ds

module _ (py : Runtime) where
  unfoldable pub final_results : Option (List Fields) → List Fields → List String → ℕ → List Fields
  unfolding rrf_fallback preserve_required_after_rerank number_final
  final_results answer candidates required limit = number_final 1 (
      preserve_required_after_rerank py (joint_ranked answer candidates (max 1 limit)) candidates
        required (max 1 limit))

  module _ (sc : Scores) (equal : Value → Value → Bool) (patterns : Patterns) (paths : Paths)
      (matcher : Matcher) (links : Links) where
    -- The joint ranking with the documents of the strict query, and the mandatory keys.
    abbrev pub joint_ranking :
        ℕ → List (String × List Fields) → List Fields → List Fields × List String
    joint_ranking rrf_k rankings strict =
        merge_required_results py equal sc.zero_score strict
          (merge_probe_rankings sc py equal rrf_k rankings) []

    unfoldable pub joint_candidates :
        Bool → ℕ → ℕ → ℕ → List (String × List Fields) → List Fields → List Fields
    unfolding merge_probe_rankings merge_required_results deduplicate_for_reranker
    joint_candidates dedup_enabled rrf_k rerank_candidates limit rankings strict =
        let joint = joint_ranking rrf_k rankings strict in
        deduplicate_for_reranker py equal patterns paths matcher links dedup_enabled joint.0
          (candidate_limit rerank_candidates limit joint.1 joint.0) 0
