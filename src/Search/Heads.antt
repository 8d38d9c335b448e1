-- ===== src/Search/Heads.antt =====
-- `deduplicate_for_reranker` of rag/search.py: the best records of every retrieval arm reach the
-- reranker, within its limit.
use aki_rag_middleware.Prelude.{
  ℕ, zero, suc, ◌*◌, ◌≤◌, String, ◌≡◌, refl, ◌∙◌, Bool, true, false, List, [], ◌∷◌, All, any,
  contains, is_empty, length, length-map, length-take-le, take, eqb, arith,
}
use aki_rag_middleware.Python.Values.{Runtime, Value, Fields}
use aki_rag_middleware.Search.Provenance.{ids_of, merge_retrieval_provenance}
use aki_rag_middleware.Search.Similar.{Patterns, Paths, Matcher}
use aki_rag_middleware.Search.Variant.{Links}
use aki_rag_middleware.Search.Dedup.{
  take_in, finished, deduplicate_for_reranker, ordered_items, arm_head_document_ids, arm_rank_keys,
  head_items, other_items,
}
use aki_rag_middleware.Search.Represented.{stands_for, stands_for-provenance}
use aki_rag_middleware.Search.Leaders.{IsRanked, is_at, upto, take-sort_ranked}
use aki_rag_middleware.Search.Absorbed.{any-finished}
use aki_rag_middleware.Search.Pool.{take_in-taken, take_in-bound}
use aki_rag_middleware.Search.Protected.{
  All-protect_arms, ids_of-head_items, ids_of-take, length-protect_arms, protect_arms-contains,
}

positive : (m : ℕ) → eqb (suc m) 0 ≡ false
positive m = ground arith

module _ (py : Runtime) (equal : Value → Value → Bool) (patterns : Patterns) (paths : Paths)
    (matcher : Matcher) (links : Links) where
  any-has_id :
      (id : String) (ds : List Fields)
      → contains (ids_of py ds) id ≡ true
      → any (stands_for py id) ds ≡ true
  any-has_id id [] h = cc
  any-has_id id (d ∷ ds) h = ground (arith, any-has_id id ds)

  -- The first records of the ordering are stood for.
  pub deduplicate-stands_for :
      (enabled : Bool) (fused : List Fields) (max_unique n : ℕ) (id : String)
      → contains (ids_of py (take max_unique (ordered_items py fused n))) id ≡ true
      → any (stands_for py id) (
          deduplicate_for_reranker py equal patterns paths matcher links enabled fused max_unique n)
        ≡ true
  unfolding deduplicate_for_reranker
  deduplicate-stands_for enabled fused zero n id h = cc
  deduplicate-stands_for false fused (suc m) n id h =
      rw (positive m) (any-has_id id (take (suc m) (ordered_items py fused n)) h)
  deduplicate-stands_for true fused (suc m) n id h =
      let ordered = ordered_items py fused n in
      rw (positive m) (
        any-finished py id (
          take_in py (merge_retrieval_provenance equal) patterns paths matcher links (suc m) ordered
            [])
        ∙ take_in-taken py (merge_retrieval_provenance equal) patterns paths matcher links
            (stands_for-provenance py equal) (suc m) (suc m) ordered [] id (omega arith) h)

  -- Where the limit has room for the heads of three arms and the ranks of an arm are missing or
  -- numbers, a record of that arm with an id reaches the reranker, as it is or as a variant of the
  -- record that stands for it, if at most `n` of the fused records have its rank in that arm or a
  -- better one.
  pub deduplicate-heads :
      (enabled : Bool) (fused : List Fields) (max_unique n : ℕ) (key id : String) (rank : ℕ)
      → 3 * n ≤ max_unique
      → contains ("es_rank" ∷ "vector_rank" ∷ "graph_rank" ∷ []) key ≡ true
      → is_empty id ≡ false
      → All (IsRanked key) fused
      → any (is_at py key id rank) fused ≡ true
      → upto key rank fused ≤ n
      → any (stands_for py id) (
          deduplicate_for_reranker py equal patterns paths matcher links enabled fused max_unique n)
        ≡ true
  deduplicate-heads enabled fused max_unique n key id rank fits arm filled ranked there few =
      let heads = arm_head_document_ids py fused n in
      let known = All-protect_arms py fused arm_rank_keys n [] tt in
      let same = ids_of-head_items py heads fused known in
      let many = length-protect_arms py arm_rank_keys n fused [] in
      let best = take-sort_ranked key py id rank n fused ranked there few in
      let inside =
        protect_arms-contains py arm_rank_keys key n fused [] id filled (rw (arm, best) refl) in
      deduplicate-stands_for enabled fused max_unique n id (
        ids_of-take py max_unique (head_items py heads fused) (other_items py heads fused) id
          (rw same (omega arith)) (rw same inside))

  -- The reranker gets no more records than the limit.
  deduplicate-bound :
      (enabled : Bool) (fused : List Fields) (max_unique n : ℕ)
      → length (
          deduplicate_for_reranker py equal patterns paths matcher links enabled fused max_unique n)
        ≤ max_unique
  unfolding deduplicate_for_reranker
  deduplicate-bound enabled fused zero n = omega arith
  deduplicate-bound false fused (suc m) n =
      rw (positive m) (length-take-le (suc m) (ordered_items py fused n))
  deduplicate-bound true fused (suc m) n =
      let reps =
        take_in py (merge_retrieval_provenance equal) patterns paths matcher links (suc m)
          (ordered_items py fused n) [] in
      let l = length-map finished reps in
      let b =
        take_in-bound py (merge_retrieval_provenance equal) patterns paths matcher links
          (stands_for-provenance py equal) (suc m) (ordered_items py fused n) [] (omega arith) in
      rw (positive m) (rw l b)
