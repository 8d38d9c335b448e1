-- ===== src/Search/Keys.antt =====
-- The key that tells the documents of rag/search.py apart, and that the provenance of another record
-- does not change it.
use aki_rag_middleware.Prelude.{
  String, ◌≡◌, refl, arith, ◌∙◌, Bool, true, false, List, [], ◌∷◌, ◌==◌, contains, strip, is_empty,
  append, eq_iff, if◌then◌else◌, Bool-cases, inl, inr,
}
use aki_rag_middleware.Python.{text_of}
use aki_rag_middleware.Python.Values.{Runtime, Value, Fields, str, or_else}
use aki_rag_middleware.Python.Fields.{get, put, lookup, lookup-put}
use aki_rag_middleware.Search.Provenance.{
  text_at, put_when, is_null, keep_first, best_rank, union_at, merge_graph,
  merge_retrieval_provenance,
}

unfoldable pub multi_probe_document_key : Runtime → Fields → String
unfolding text_at get or_else text_of strip append
multi_probe_document_key py item =
    let id = strip (text_at py item "document_id") in
    let title =
      strip (text_of py (or_else (get item "title") (or_else (get item "path") (str "")))) in
    if is_empty id then append "title:" (py.casefold title) else append "id:" id

pub key_nonempty :
    (py : Runtime) (item : Fields) → is_empty (multi_probe_document_key py item) ≡ false
unfolding multi_probe_document_key append
key_nonempty py item = ground arith

-- The keys that `merge_retrieval_provenance` may write.
abbrev pub provenance_keys : List String
provenance_keys =
    "es_rank" ∷ "es_score" ∷ "vector_rank" ∷ "vector_score" ∷ "graph_rank" ∷ "graph_score"
    ∷ "es_snippet" ∷ "vector_snippet" ∷ "graph_snippet" ∷ "graph_reason" ∷ "graph_entities"
    ∷ "graph_direct_relations" ∷ "graph_indirect_chains" ∷ []

pub apart :
    (ks : List String) (k j : String)
    → contains ks k ≡ true
    → contains ks j ≡ false
    → (k == j) ≡ false
apart ks k j h l = elim (Bool-cases (k == j)) [
  | inl e ↦ let same = (eq_iff k j).0 e in cc
  | inr e ↦ e
]

other :
    (k j : String)
    → contains provenance_keys k ≡ true
    → contains provenance_keys j ≡ false
    → (k == j) ≡ false
other k j h l = apart provenance_keys k j h l

lookup-put_when :
    (b : Bool) (k j : String) (v : Value) (d : Fields)
    → (k == j) ≡ false
    → lookup j (put_when b k v d) ≡ lookup j d
lookup-put_when true k j v d h = lookup-put k j v d ∙ rw h refl
lookup-put_when false k j v d h = refl

lookup-keep_first :
    (k j : String) (source target : Fields)
    → (k == j) ≡ false
    → lookup j (keep_first k source target) ≡ lookup j target
lookup-keep_first k j source target h = lookup-put_when _ k j _ target h

lookup-best_rank :
    (r s j : String) (source target : Fields)
    → (r == j) ≡ false
    → (s == j) ≡ false
    → lookup j (best_rank r s source target) ≡ lookup j target
lookup-best_rank r s j source target h k =
    lookup-put_when _ s j _ _ k ∙ lookup-put_when _ r j _ target h

module _ (equal : Value → Value → Bool) where
  lookup-union_at :
      (k j : String) (source target : Fields)
      → (k == j) ≡ false
      → lookup j (union_at equal k source target) ≡ lookup j target
  lookup-union_at k j source target h = lookup-put k j _ target ∙ rw h refl

  lookup-merge_graph :
      (j : String) (source target : Fields)
      → contains provenance_keys j ≡ false
      → lookup j (merge_graph equal source target) ≡ lookup j target
  lookup-merge_graph j source target h = elim (Bool-cases (is_null (get source "graph_rank"))) [
    | inl e ↦ rw e refl
    | inr e ↦ rw e (
        lookup-union_at "graph_indirect_chains" j source _ (other "graph_indirect_chains" j refl h)
        ∙ lookup-union_at "graph_direct_relations" j source _
            (other "graph_direct_relations" j refl h)
        ∙ lookup-union_at "graph_entities" j source _ (other "graph_entities" j refl h)
        ∙ lookup-keep_first "graph_reason" j source target (other "graph_reason" j refl h))
  ]

  -- Every other key is as it was.
  pub lookup-merge_retrieval_provenance :
      (j : String) (target source : Fields)
      → contains provenance_keys j ≡ false
      → lookup j (merge_retrieval_provenance equal target source) ≡ lookup j target
  unfolding merge_retrieval_provenance
  lookup-merge_retrieval_provenance j target source h =
      lookup-merge_graph j source _ h
      ∙ lookup-keep_first "graph_snippet" j source _ (other "graph_snippet" j refl h)
      ∙ lookup-keep_first "vector_snippet" j source _ (other "vector_snippet" j refl h)
      ∙ lookup-keep_first "es_snippet" j source _ (other "es_snippet" j refl h)
      ∙ lookup-best_rank "graph_rank" "graph_score" j source _ (other "graph_rank" j refl h)
          (other "graph_score" j refl h)
      ∙ lookup-best_rank "vector_rank" "vector_score" j source _ (other "vector_rank" j refl h)
          (other "vector_score" j refl h)
      ∙ lookup-best_rank "es_rank" "es_score" j source target (other "es_rank" j refl h)
          (other "es_score" j refl h)

  pub key-merge_retrieval_provenance :
      (py : Runtime) (target source : Fields)
      → multi_probe_document_key py (merge_retrieval_provenance equal target source)
        ≡ multi_probe_document_key py target
  unfolding multi_probe_document_key text_at get
  key-merge_retrieval_provenance py target source =
      rw
        (
          lookup-merge_retrieval_provenance "document_id" target source refl,
          lookup-merge_retrieval_provenance "title" target source refl,
          lookup-merge_retrieval_provenance "path" target source refl,
        )
        refl

-- Other keys may be written too.
pub key-put :
    (py : Runtime) (k : String) (v : Value) (d : Fields)
    → (k == "document_id") ≡ false
    → (k == "title") ≡ false
    → (k == "path") ≡ false
    → multi_probe_document_key py (put k v d) ≡ multi_probe_document_key py d
unfolding multi_probe_document_key text_at get
key-put py k v d a b c =
    rw (lookup-put k "document_id" v d, lookup-put k "title" v d, lookup-put k "path" v d, a, b, c)
      refl
