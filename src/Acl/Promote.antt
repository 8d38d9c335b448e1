-- ===== src/Acl/Promote.antt =====
-- `_promote_authorized_duplicate` of rag/acl.py: a visible duplicate takes the place of a denied
-- representative.
pub mod Laws
pub mod Identity
use aki_rag_middleware.Prelude.{
  ℕ, ◌+◌, String, Option, none, some, List, [], ◌∷◌, append, length, if◌then◌else◌,
}
use aki_rag_middleware.Python.{text_of}
use aki_rag_middleware.Python.Values.{
  Runtime, Fields, Value, str, bool, int, list, truthy, or_else, dicts,
}
use mathlib.Core.Bool.{true, false}
use aki_rag_middleware.Python.Fields.{get, put, pop_all, restrict, copy_keys}
use aki_rag_middleware.Acl.FileId.{file_id}

abbrev pub ranking_keys : List String
ranking_keys =
    "rank" ∷ "final_rank" ∷ "score" ∷ "es_rank" ∷ "es_score" ∷ "elasticsearch_rank"
    ∷ "elasticsearch_score" ∷ "vector_rank" ∷ "vector_score" ∷ "graph_rank" ∷ "graph_score" ∷ "rrf"
    ∷ "rrf_rank" ∷ "rrf_score" ∷ "probe_rrf_score" ∷ "probe_hits" ∷ "reranker_score"
    ∷ "reranker_raw_score" ∷ "chunk_no" ∷ "exhaustive_required" ∷ []

abbrev pub identity_keys : List String
identity_keys =
    "document_id" ∷ "id" ∷ "fileid" ∷ "file_id" ∷ "title" ∷ "path" ∷ "directory" ∷ "filename"
    ∷ "nextcloud_es_id" ∷ "nextcloud_openfile_id" ∷ "source_url" ∷ "document_date" ∷ "content_type"
    ∷ "content_hash" ∷ "source" ∷ "provider" ∷ "share_names" ∷ "owner" ∷ "users" ∷ "groups"
    ∷ "circles" ∷ "source_origin" ∷ []

abbrev pub graph_keys : List String
graph_keys =
    "graph_reason" ∷ "graph_entities" ∷ "graph_direct_relations" ∷ "graph_indirect_chains"
    ∷ "graph_relation_observations" ∷ "graph_relation_evidence" ∷ []

module _ (py : Runtime) where
  -- `promoted["document_id"] = f"files:{variant_file_id}"` where the variant brought no id
  unfoldable pub name_by : Option String → Fields → Fields
  unfolding truthy get put
  name_by none promoted = promoted
  name_by (some number) promoted =
      if truthy (get promoted "document_id")
      then promoted
      else put "document_id" (str (append "files:" number)) promoted

  -- The ranking of the representative and the identity of the variant.
  unfoldable pub carried : Fields → Fields → Fields
  unfolding pop_all restrict copy_keys name_by
  carried representative variant = name_by (file_id py variant) (
      copy_keys identity_keys variant
        (pop_all identity_keys (restrict ranking_keys representative)))

  unfoldable pub variant_snippet : Fields → String
  unfolding text_of or_else
  variant_snippet variant = text_of py (
      or_else (get variant "snippet") (
        or_else (get variant "es_snippet") (
          or_else (get variant "vector_snippet") (or_else (get variant "graph_snippet") (str "")))))

  abbrev text_at : Fields → String → String
  text_at variant key = text_of py (or_else (get variant key) (str ""))

  -- The snippets and the context, from the variant alone.
  unfoldable pub with_evidence : Fields → Fields → Fields
  unfolding variant_snippet put
  with_evidence variant promoted =
      let snippet = variant_snippet variant in
      let context = or_else (str snippet) (
        str (text_of py (or_else (get variant "title") (or_else (get variant "path") (str ""))))) in
      put "acl_promoted_duplicate" (bool true) (
        put "context_enriched" (bool false) (
          put "context_text" context (
            put "graph_snippet" (str (text_at variant "graph_snippet")) (
              put "vector_snippet" (str (text_at variant "vector_snippet")) (
                put "es_snippet" (str (text_at variant "es_snippet"))
                  (put "snippet" (str snippet) promoted))))))

  -- `duplicate_variants` and `duplicate_count`
  unfoldable pub with_variants : List Fields → Fields → Fields
  unfolding put
  with_variants variants d =
      put "duplicate_count" (int (1 + length variants))
        (put "duplicate_variants" (list (dicts variants)) d)

  unfoldable pub promote : Fields → Fields → List Fields → Fields
  unfolding carried with_evidence with_variants
  promote representative variant remaining =
      with_variants remaining
        (pop_all graph_keys (with_evidence variant (carried representative variant)))
