-- ===== src/Search/Joint/Whole.antt =====
-- Up to 80 documents no candidate of `perform_multi_probe_search` of rag/search.py is lost before the
-- reranker, and none that is mandatory where the reranker fails.
use aki_rag_middleware.Prelude.{
  ℕ, suc, max, ◌≤◌, String, ◌≡◌, refl, ap, ◌∙◌, Bool, true, false, ◌||◌, none, List, [], ◌∷◌, ◌==◌,
  map, take, any, contains, length, is_empty, eq_iff, arith, Bool-cases, inl, inr,
}
use aki_rag_middleware.Python.Values.{Runtime, Value, null, int, Fields}
use aki_rag_middleware.Python.Fields.{put}
use aki_rag_middleware.Search.Provenance.{document_text, ids_of}
use aki_rag_middleware.Search.Keys.{key-put}
use aki_rag_middleware.Search.Probes.{Scores}
use aki_rag_middleware.Search.Required.{keys_of, has_document_key}
use aki_rag_middleware.Search.Distinct.{IsDistinct}
use aki_rag_middleware.Search.Selected.{IsDistinct-take, take_all}
use aki_rag_middleware.Search.Mandatory.{preserve_required-keeps}
use aki_rag_middleware.Search.Similar.{Patterns, Paths, Matcher}
use aki_rag_middleware.Search.Variant.{Links}
use aki_rag_middleware.Search.Dedup.{other_items, protect, protect_arms, head_items, ordered_items}
use aki_rag_middleware.Search.Represented.{stands_for}
use aki_rag_middleware.Search.Heads.{deduplicate-stands_for}
use aki_rag_middleware.Search.Joint.{
  candidate_limit, unranked, rrf_fallback, number_final, final_results, joint_ranking,
  joint_candidates,
}

module _ (py : Runtime) where
  length-other_items :
      (queued : List String) (ds : List Fields) → length (other_items py queued ds) ≤ length ds
  unfolding other_items
  length-other_items queued [] = omega arith
  length-other_items queued (d ∷ ds) =
      let id = document_text py d in
      elim (Bool-cases (is_empty id || contains queued id)) [
        | inl skip ↦ let rest = length-other_items queued ds in rw skip (omega arith)
        | inr fresh ↦ let rest = length-other_items (id ∷ queued) ds in rw fresh (omega arith)
      ]

  -- Every id that is not queued yet is among the others.
  other_items-contains :
      (queued : List String) (ds : List Fields) (id : String)
      → is_empty id ≡ false
      → contains queued id ≡ false
      → contains (ids_of py ds) id ≡ true
      → contains (ids_of py (other_items py queued ds)) id ≡ true
  unfolding other_items
  other_items-contains queued [] id filled new h = cc
  other_items-contains queued (d ∷ ds) id filled new h =
      elim (Bool-cases (document_text py d == id)) [
        | inl own ↦
            let same = (eq_iff (document_text py d) id).0 own in
            let fresh : (is_empty (document_text py d) || contains queued (document_text py d))
                ≡ false =
              rw (same, filled, new) refl in
            rw (fresh, own) refl
        | inr other ↦
            let later : contains (ids_of py ds) id ≡ true = rw other at h in
            elim (Bool-cases
              (is_empty (document_text py d) || contains queued (document_text py d))) [
                | inl skip ↦ rw skip (other_items-contains queued ds id filled new later)
                | inr fresh ↦
                    rw (fresh, other)
                      (other_items-contains (document_text py d ∷ queued) ds id filled
                        (rw (other, new) refl) later)
              ]
      ]

  ordered_items-zero : (fused : List Fields) → ordered_items py fused 0 ≡ other_items py [] fused
  unfolding protect protect_arms head_items
  ordered_items-zero fused = refl

  keys_of-number_final :
      (rank : ℕ) (ds : List Fields) → keys_of py (number_final rank ds) ≡ keys_of py ds
  unfolding keys_of number_final
  keys_of-number_final rank [] = refl
  keys_of-number_final rank (d ∷ ds) =
      rw (key-put py "final_rank" (int rank) d refl refl refl, keys_of-number_final (suc rank) ds)
        refl

  keys_of-map : (ds : List Fields) → keys_of py (map unranked ds) ≡ keys_of py ds
  unfolding keys_of
  keys_of-map [] = refl
  keys_of-map (d ∷ ds) =
      rw
        (
          key-put py "reranker_raw_score" null (put "reranker_score" null d) refl refl refl,
          key-put py "reranker_score" null d refl refl refl,
          keys_of-map ds,
        )
        refl

  -- Also where the reranker is off or raises, every mandatory document that is a candidate is in
  -- the result, if no two candidates are of the same document and the mandatory ones fit the limit.
  pub final_results-keeps :
      (candidates : List Fields) (required : List String) (limit : ℕ) (k : String)
      → IsDistinct (keys_of py candidates)
      → length required ≤ max 1 limit
      → contains required k ≡ true
      → any (has_document_key py k) candidates ≡ true
      → contains (keys_of py (final_results py none candidates required limit)) k ≡ true
  unfolding final_results rrf_fallback
  final_results-keeps candidates required limit k distinct fit h held =
      let n = max 1 limit in
      ap (λ ks. contains ks k) (keys_of-number_final 1 _)
      ∙ preserve_required-keeps py (rrf_fallback candidates n) candidates required n k
          (rw (keys_of-map (take n candidates)) (IsDistinct-take py n candidates distinct)) fit h
          held

  -- Where the joint ranking has at most 80 records, each of them that has an id is stood for among
  -- the candidates of the reranker.
  pub joint_candidates-covers :
      (sc : Scores) (equal : Value → Value → Bool) (patterns : Patterns) (paths : Paths)
      (matcher : Matcher) (links : Links) (enabled : Bool) (rrf_k rerank_candidates limit : ℕ)
      (rankings : List (String × List Fields)) (strict : List Fields) (id : String)
      → length (joint_ranking py sc equal patterns paths matcher links rrf_k rankings strict).0 ≤ 80
      → is_empty id ≡ false
      → contains
          (ids_of py
            (joint_ranking py sc equal patterns paths matcher links rrf_k rankings strict).0)
          id
        ≡ true
      → any (stands_for py id) (
          joint_candidates py sc equal patterns paths matcher links enabled rrf_k rerank_candidates
            limit rankings strict)
        ≡ true
  unfolding joint_candidates
  joint_candidates-covers sc equal patterns paths matcher links enabled rrf_k cands limit rankings
        strict id few filled h =
      let joint = joint_ranking py sc equal patterns paths matcher links rrf_k rankings strict in
      let fused = joint.0 in
      let n = candidate_limit cands limit joint.1 fused in
      let short = length-other_items [] fused in
      deduplicate-stands_for py equal patterns paths matcher links enabled fused n 0 id (
        ap (λ xs. contains (ids_of py (take n xs)) id) (ordered_items-zero fused)
        ∙ ap (λ xs. contains (ids_of py xs) id)
            (take_all py n (other_items py [] fused) (omega arith))
        ∙ other_items-contains [] fused id filled refl h)
