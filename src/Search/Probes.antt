-- ===== src/Search/Probes.antt =====
-- `_merge_probe_rankings` of rag/search.py: the rankings of several probes become one by reciprocal
-- ranks. The three dicts of the code, which have the same keys, are one list of entries.
use aki_rag_middleware.Prelude.{
  ℕ, suc, String, Bool, ◌||◌, List, [], ◌∷◌, ◌++◌, ◌==◌, contains, is_empty, if◌then◌else◌,
}
use aki_rag_middleware.Python.Values.{
  Runtime, Value, str, int, list, dict, Values, nil, cons, Fields, end, field,
}
use aki_rag_middleware.Python.Fields.{put}
use aki_rag_middleware.Search.Provenance.{merge_retrieval_provenance}
use aki_rag_middleware.Search.Keys.{multi_probe_document_key}

-- The floats of the scores: 0.0, `score + 1.0 / (float(rrf_k) + float(rank))`, and `<`.
pub record Scores : Type 0 where
  pub zero_score : Value
  pub add_share : ℕ → Value → ℕ → Value
  pub below : Value → Value → Bool

pub record Entry : Type 0 where
  pub key : String
  pub item : Fields
  pub score : Value
  pub hits : List (String × ℕ)

abbrev pub hit_values : List (String × ℕ) → Values
hit_values [] = nil
hit_values ((query, rank) ∷ hits) =
    cons (dict (field "query" (str query) (field "rank" (int rank) end))) (hit_values hits)

-- `item["rrf"]`, `item["probe_rrf_score"]` and `item["probe_hits"]`
abbrev pub scored_item : Entry → Fields
scored_item e =
    put "probe_hits" (list (hit_values e.hits))
      (put "probe_rrf_score" e.score (put "rrf" e.score e.item))

-- `item["rrf_rank"]`
unfoldable pub number_items : ℕ → List Entry → List Fields
unfolding put
number_items rank [] = []
number_items rank (e ∷ es) = put "rrf_rank" (int rank) (scored_item e) ∷ number_items (suc rank) es

module _ (sc : Scores) where
  abbrev pub add_hit : ℕ → String → ℕ → Entry → Entry
  add_hit rrf_k query rank e = record e {
    score = sc.add_share rrf_k e.score rank;
    hits = e.hits ++ (query, rank) ∷ [];
  }

  -- A stable sort, the highest score first: `x` was before the rest.
  unfoldable pub insert_entry : Entry → List Entry → List Entry
  insert_entry x [] = x ∷ []
  insert_entry x (e ∷ es) =
      let rest = insert_entry x es in if sc.below x.score e.score then e ∷ rest else x ∷ e ∷ es

  unfoldable pub sort_entries : List Entry → List Entry
  unfolding insert_entry
  sort_entries [] = []
  sort_entries (e ∷ es) = insert_entry e (sort_entries es)

  module _ (py : Runtime) (equal : Value → Value → Bool) where
    abbrev pub fresh_entry : String → Fields → Entry
    fresh_entry key item = record { key = key; item = item; score = sc.zero_score; hits = [] }

    abbrev pub merge_entry : Fields → Entry → Entry
    merge_entry source e = record e { item = merge_retrieval_provenance equal e.item source }

    -- A document of a ranking, found under its key or added.
    unfoldable pub place_entry : ℕ → String → ℕ → String → Fields → List Entry → List Entry
    unfolding merge_retrieval_provenance
    place_entry rrf_k query rank key item [] = add_hit rrf_k query rank (fresh_entry key item) ∷ []
    place_entry rrf_k query rank key item (e ∷ es) =
        let rest = place_entry rrf_k query rank key item es in
        if e.key == key then add_hit rrf_k query rank (merge_entry item e) ∷ es else e ∷ rest

    -- One ranking, from `rank` on; a key counts once.
    unfoldable pub scan_ranking :
        ℕ → String → ℕ → List String → List Fields → List Entry → List Entry
    unfolding multi_probe_document_key place_entry
    scan_ranking rrf_k query rank seen [] entries = entries
    scan_ranking rrf_k query rank seen (item ∷ items) entries =
        let key = multi_probe_document_key py item in
        let skipped = is_empty key || contains seen key in
        scan_ranking rrf_k query (suc rank) (if skipped then seen else key ∷ seen) items
          (if skipped then entries else place_entry rrf_k query rank key item entries)

    unfoldable pub scan_rankings : ℕ → List (String × List Fields) → List Entry → List Entry
    unfolding scan_ranking
    scan_rankings rrf_k [] entries = entries
    scan_rankings rrf_k ((query, ranking) ∷ rankings) entries =
        scan_rankings rrf_k rankings (scan_ranking rrf_k query 1 [] ranking entries)

    unfoldable pub merge_probe_rankings : ℕ → List (String × List Fields) → List Fields
    unfolding scan_rankings sort_entries number_items
    merge_probe_rankings rrf_k rankings =
        number_items 1 (sort_entries (scan_rankings rrf_k rankings []))
