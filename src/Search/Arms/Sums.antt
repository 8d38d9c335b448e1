-- ===== src/Search/Arms/Sums.antt =====
-- The sums of `fuse_results` of rag/search.py: every record carries the shares of all hits of its
-- document.
use aki_rag_middleware.Prelude.{
  ℕ, zero, suc, eqb, false, String, ◌≡◌, refl, ap, ◌∙◌, true, Option, none, some, List, [], ◌∷◌,
  ◌==◌, map, all, All, arith, eq_iff, if◌then◌else◌, Bool-cases, inl, inr,
}
use aki_rag_middleware.Python.Errors.{ok}
use aki_rag_middleware.Python.Values.{
  Runtime, Value, null, bool, int, negative, float, str, list, dict, Fields,
}
use aki_rag_middleware.Python.Fields.{get, lookup, lookup-put}
use aki_rag_middleware.Store.Sql.Keys.{eq_comm}
use aki_rag_middleware.Search.Probes.{Scores, Entry, sort_entries}
use aki_rag_middleware.Search.Fusion.{score_of}
use aki_rag_middleware.Search.Unique.{IsUnique, sort_entries-same, All-sort_entries}
use aki_rag_middleware.Search.Arms.{
  Arm, Weighted, es_arm, vector_arm, graph_arm, graph_share, rank_value, id_in, new_record, combine,
  scan_arm, with_rrf, fuse_results,
}
use aki_rag_middleware.Search.Arms.Ids.{
  id-new_record, LeavesId, es_arm-LeavesId, vector_arm-LeavesId, graph_arm-LeavesId, id-written,
}

-- The key of an entry is the id of its record.
abbrev pub Named : Entry → Type 0
Named e = lookup "document_id" e.item ≡ some (str e.key)

-- `rrf` of the first record of a document.
abbrev pub record_sum : String → List Fields → Option Value
record_sum id [] = none
record_sum id (d ∷ ds) = if id_in d == id then lookup "rrf" d else record_sum id ds

module _ (sc : Scores) where
  abbrev pub or_zero : Option Value → Value
  or_zero none = sc.zero_score
  or_zero (some score) = score

  -- What the entry of a document gains from the hits of an arm.
  unfoldable pub shares : Arm → String → List Fields → Option Value → Option Value
  shares arm id [] o = o
  shares arm id (item ∷ items) o =
      shares arm id items (if id_in item == id then some (arm.share item (or_zero o)) else o)

  -- The rank that a hit has in its own arm; 0 where there is none.
  abbrev pub rank_in : Value → ℕ
  rank_in (int n) = n
  rank_in v = 0

  -- The reference: a weighted share more for every hit of the document.
  unfoldable pub ranked_sum : Weighted → Value → String → List Fields → Option Value → Option Value
  ranked_sum add weight id [] sum = sum
  ranked_sum add weight id (item ∷ items) sum =
      let more = some (add weight (or_zero sum) (rank_in (get item "rank"))) in
      ranked_sum add weight id items (if id_in item == id then more else sum)

  abbrev pub share_of : Weighted → Value → Value → ℕ → Value
  share_of add weight score zero = score
  share_of add weight score (suc r) = add weight score (suc r)

  -- The same for the graph, whose hits may have no rank; those without one add nothing.
  unfoldable pub graph_sum : Weighted → Value → String → List Fields → Option Value → Option Value
  graph_sum add weight id [] sum = sum
  graph_sum add weight id (item ∷ items) sum =
      let more = some (share_of add weight (or_zero sum) (rank_in (get item "rank"))) in
      graph_sum add weight id items (if id_in item == id then more else sum)

  rank_in-rank_value : (v : Value) → rank_value v ≡ rank_in v
  rank_in-rank_value null = refl
  rank_in-rank_value (bool b) = refl
  rank_in-rank_value (int n) = refl
  rank_in-rank_value (negative n) = refl
  rank_in-rank_value (float f) = refl
  rank_in-rank_value (str s) = refl
  rank_in-rank_value (list l) = refl
  rank_in-rank_value (dict d) = refl

  shares-es :
      (add : Weighted) (w : Value) (id : String) (items : List Fields) (o : Option Value)
      → shares (es_arm add w) id items o ≡ ranked_sum add w id items o
  unfolding shares ranked_sum
  shares-es add w id [] o = refl
  shares-es add w id (item ∷ items) o =
      rw (rank_in-rank_value (get item "rank")) (shares-es add w id items _)

  shares-vector :
      (add : Weighted) (w : Value) (id : String) (items : List Fields) (o : Option Value)
      → shares (vector_arm add w) id items o ≡ ranked_sum add w id items o
  unfolding shares ranked_sum
  shares-vector add w id [] o = refl
  shares-vector add w id (item ∷ items) o =
      rw (rank_in-rank_value (get item "rank")) (shares-vector add w id items _)

  share_of-graph :
      (add : Weighted) (w score v : Value)
      → graph_share add w v score ≡ share_of add w score (rank_in v)
  share_of-graph add w score v = rw (rank_in-rank_value v) (at_rank (rank_in v))
    where
      at_rank : (r : ℕ) → (if eqb r 0 then score else add w score r) ≡ share_of add w score r
      at_rank zero = refl
      at_rank (suc r) = let nonzero : eqb (suc r) 0 ≡ false = ground arith in rw nonzero refl

  shares-graph :
      (py : Runtime) (add : Weighted) (w : Value) (id : String) (items : List Fields)
      (o : Option Value)
      → shares (graph_arm py add w) id items o ≡ graph_sum add w id items o
  unfolding shares graph_sum
  shares-graph py add w id [] o = refl
  shares-graph py add w id (item ∷ items) o =
      rw (share_of-graph add w (or_zero o) (get item "rank")) (shares-graph py add w id items _)

module _ (py : Runtime) where
  module _ (sc : Scores) where
    score_of-combine :
        (arm : Arm) (item : Fields) (es : List Entry) (k : String)
        → score_of k (combine py sc arm item es) ≡ (
            if id_in item == k
            then some (arm.share item (or_zero sc (score_of k es)))
            else score_of k es)
    unfolding combine
    score_of-combine arm item [] k = ground arith
    score_of-combine arm item (e ∷ es) k = ground (
      arith,
      eq_iff (id_in item) k,
      eq_iff e.key k,
      eq_iff e.key (id_in item),
      score_of-combine arm item es k,
    )

    combine-IsUnique :
        (arm : Arm) (item : Fields) (es : List Entry)
        → IsUnique es
        → IsUnique (combine py sc arm item es)
    unfolding combine
    combine-IsUnique arm item [] u = (refl, tt)
    combine-IsUnique arm item (e ∷ es) (h, u) = elim (Bool-cases (e.key == id_in item)) [
      | inl same ↦ rw same (h, u)
      | inr other ↦ rw other (
        score_of-combine arm item es e.key ∙ rw (eq_comm (id_in item) e.key, other) h,
        combine-IsUnique arm item es u,
      )
    ]

    combine-Named :
        (arm : Arm) (item : Fields) (es : List Entry)
        → LeavesId arm
        → All Named es
        → All Named (combine py sc arm item es)
    unfolding combine
    combine-Named arm item [] leaves n = (
      id-written py arm item (new_record py sc.zero_score item) leaves
          ∙ id-new_record py sc.zero_score item,
      tt,
    )
    combine-Named arm item (e ∷ es) leaves (h, n) = elim (Bool-cases (e.key == id_in item)) [
      | inl same ↦ rw same (id-written py arm item e.item leaves ∙ h, n)
      | inr other ↦ rw other (h, combine-Named arm item es leaves n)
    ]

    -- A list of hits that have what the arm reads is taken in without an error.
    scan_arm-shares :
        (arm : Arm) (items : List Fields) (es : List Entry)
        → LeavesId arm
        → all arm.is_hit items ≡ true
        → IsUnique es
        → All Named es
        → (out : List Entry) × (scan_arm py sc arm items es ≡ ok out)
          × IsUnique out
          × All Named out
          × ((k : String) → score_of k out ≡ shares sc arm k items (score_of k es))
    unfolding scan_arm shares
    scan_arm-shares arm [] es leaves h u n = (es, refl, u, n, (λ k. refl))
    scan_arm-shares arm (item ∷ items) es leaves h u n =
        let hit : arm.is_hit item ≡ true = ground arith in
        let (out, e, v, m, s) =
          scan_arm-shares arm items (combine py sc arm item es) leaves (ground arith)
            (combine-IsUnique arm item es u) (combine-Named arm item es leaves n) in
        (
          out,
          rw hit e,
          v,
          m,
          (λ k. s k ∙ ap (λ o. shares sc arm k items o) (score_of-combine arm item es k)),
        )

    id_in-with_rrf : (e : Entry) → Named e → id_in (with_rrf py sc e) ≡ e.key
    unfolding get
    id_in-with_rrf e h = rw (lookup-put "rrf" "document_id" e.score e.item, h) refl

    record_sum-map :
        (id : String) (es : List Entry)
        → All Named es
        → record_sum id (map (with_rrf py sc) es) ≡ score_of id es
    record_sum-map id [] n = refl
    record_sum-map id (e ∷ es) (h, n) =
        rw (id_in-with_rrf e h, lookup-put "rrf" "rrf" e.score e.item, record_sum-map id es n) refl

    -- The shares of a document in the order in which the arms are taken in.
    abbrev pub fused_sum :
        Weighted
        → Value × Value × Value
        → List Fields
        → List Fields
        → List Fields
        → String
        → Option Value
    fused_sum add (w, v, g) elastic vector graph id =
        graph_sum sc add g id graph
          (ranked_sum sc add v id vector (ranked_sum sc add w id elastic none))

    -- Where every hit has what its arm reads, there is a result. In it a document has exactly the
    -- sum of the weighted shares of its hits, those of the files first, then of the vectors and of
    -- the graph; a document without a hit is not there.
    pub fuse_results-shares :
        (add : Weighted) (es_weight vector_weight graph_weight : Value)
        (elastic vector graph : List Fields) (id : String)
        → all (es_arm add es_weight).is_hit elastic ≡ true
        → all (vector_arm add vector_weight).is_hit vector ≡ true
        → all (graph_arm py add graph_weight).is_hit graph ≡ true
        → (out : List Fields) × (fuse_results py sc add
              (es_weight, vector_weight, graph_weight)
              elastic
              vector
              graph
            ≡ ok out)
          × (record_sum id out
              ≡ fused_sum add (es_weight, vector_weight, graph_weight) elastic vector graph id)
    unfolding fuse_results
    fuse_results-shares add w v g elastic vector graph id h k l =
        let (files, e1, u1, n1, s1) =
          scan_arm-shares (es_arm add w) elastic [] (es_arm-LeavesId py add w) h tt tt in
        let (both, e2, u2, n2, s2) =
          scan_arm-shares (vector_arm add v) vector files (vector_arm-LeavesId py add v) k u1 n1 in
        let (combined, e3, u3, n3, s3) =
          scan_arm-shares (graph_arm py add g) graph both (graph_arm-LeavesId py add g) l u2 n2 in
        (
          map (with_rrf py sc) (sort_entries sc combined),
          rw (e1, e2, e3) refl,
          record_sum-map id (sort_entries sc combined) (All-sort_entries sc Named combined n3)
              ∙ (sort_entries-same sc combined id u3).0
              ∙ s3 id
              ∙ shares-graph sc py add g id graph _
              ∙ ap (graph_sum sc add g id graph) (
                  s2 id
                  ∙ shares-vector sc add v id vector _
                  ∙ ap (ranked_sum sc add v id vector)
                      (s1 id ∙ shares-es sc add w id elastic none)),
        )
