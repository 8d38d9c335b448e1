-- ===== src/Search/Arms/Ids.antt =====
-- The records of `fuse_results` of rag/search.py keep the id of their document.
use aki_rag_middleware.Prelude.{
  String, ◌≡◌, refl, ◌∙◌, false, some, List, [], ◌∷◌, ◌==◌, contains, arith, Bool-cases, inl, inr,
}
use aki_rag_middleware.Python.Values.{Runtime, Value, str, list, nil, Fields, truthy}
use aki_rag_middleware.Python.Fields.{get, put, lookup, lookup-put}
use aki_rag_middleware.Search.Provenance.{
  result_metadata_keys, is_kept, put_when, merge_keys, merge_metadata, merge_duplicate_variants,
}
use aki_rag_middleware.Search.Variant.{or_given}
use aki_rag_middleware.Search.Arms.{
  Arm, Weighted, es_arm, vector_arm, graph_arm, id_in, new_record, blank_record, with_title,
  with_variants_of, written,
}

lookup-merge_keys :
    (keys : List String) (j : String) (source target : Fields)
    → contains keys j ≡ false
    → lookup j (merge_keys keys source target) ≡ lookup j target
unfolding merge_keys
lookup-merge_keys [] j source target h = refl
lookup-merge_keys (k ∷ ks) j source target h =
    let v = get source k in
    let other : (k == j) ≡ false = ground arith in
    lookup-merge_keys ks j source (put_when (is_kept k v) k v target) (ground arith)
    ∙ elim (Bool-cases (is_kept k v)) [
      | inl kept ↦ rw (kept, lookup-put k j v target, other) refl
      | inr left ↦ rw left refl
    ]

id-counted :
    (count variants : Value) (d : Fields)
    → lookup "document_id" (put "duplicate_count" count (put "duplicate_variants" variants d))
      ≡ lookup "document_id" d
id-counted count variants d =
    lookup-put "duplicate_count" "document_id" count (put "duplicate_variants" variants d)
    ∙ lookup-put "duplicate_variants" "document_id" variants d

-- What an arm writes leaves the id of a record.
abbrev pub LeavesId : Arm → Type 0
LeavesId arm = (item d : Fields) → lookup "document_id" (arm.write item d) ≡ lookup "document_id" d

module _ (py : Runtime) where
  id-merge_metadata :
      (target source : Fields)
      → lookup "document_id" (merge_metadata target source) ≡ lookup "document_id" target
  unfolding merge_metadata
  id-merge_metadata target source =
      lookup-merge_keys result_metadata_keys "document_id" source target refl

  id-merge_duplicate_variants :
      (target : Fields) (variants : Value)
      → lookup "document_id" (merge_duplicate_variants py target variants)
        ≡ lookup "document_id" target
  unfolding merge_duplicate_variants
  id-merge_duplicate_variants target variants = id-counted _ _ target

  pub id-new_record :
      (nought : Value) (item : Fields)
      → lookup "document_id" (new_record py nought item) ≡ some (str (id_in item))
  unfolding new_record lookup
  id-new_record nought item =
      id-merge_duplicate_variants (merge_metadata (blank_record py nought item) item)
        (or_given (lookup "duplicate_variants" item) (list nil))
      ∙ id-merge_metadata (blank_record py nought item) item

  pub es_arm-LeavesId : (add : Weighted) (weight : Value) → LeavesId (es_arm add weight)
  es_arm-LeavesId add weight item d =
      lookup-put "es_snippet" "document_id" _ _
      ∙ lookup-put "es_score" "document_id" _ _
      ∙ lookup-put "es_rank" "document_id" _ d

  pub vector_arm-LeavesId : (add : Weighted) (weight : Value) → LeavesId (vector_arm add weight)
  vector_arm-LeavesId add weight item d =
      lookup-put "vector_snippet" "document_id" _ _
      ∙ lookup-put "chunk_no" "document_id" _ _
      ∙ lookup-put "vector_score" "document_id" _ _
      ∙ lookup-put "vector_rank" "document_id" _ d

  pub graph_arm-LeavesId : (add : Weighted) (weight : Value) → LeavesId (graph_arm py add weight)
  graph_arm-LeavesId add weight item d =
      lookup-put "graph_snippet" "document_id" _ _
      ∙ lookup-put "graph_direct_relations" "document_id" _ _
      ∙ lookup-put "graph_entities" "document_id" _ _
      ∙ lookup-put "graph_reason" "document_id" _ _
      ∙ lookup-put "graph_score" "document_id" _ _
      ∙ lookup-put "graph_rank" "document_id" _ d

  id-with_title :
      (item d : Fields) → lookup "document_id" (with_title py item d) ≡ lookup "document_id" d
  id-with_title item d = elim (Bool-cases (truthy (get d "title"))) [
    | inl named ↦ rw named refl
    | inr blank ↦ rw blank (lookup-put "title" "document_id" _ d)
  ]

  pub id-written :
      (arm : Arm) (item d : Fields)
      → LeavesId arm
      → lookup "document_id" (written py arm item d) ≡ lookup "document_id" d
  id-written arm item d leaves =
      leaves item (with_title py item (with_variants_of py item (merge_metadata d item)))
      ∙ id-with_title item (with_variants_of py item (merge_metadata d item))
      ∙ id-merge_duplicate_variants (merge_metadata d item) _
      ∙ id-merge_metadata d item
