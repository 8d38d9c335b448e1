-- ===== src/Search/Arms.antt =====
-- `fuse_results` of rag/search.py: the results of the retrieval arms become one list by weighted
-- reciprocal ranks. Until the end the sum `rrf` of a record stands in its entry.

pub mod Ids
pub mod Sums
use aki_rag_middleware.Prelude.{
  ℕ, ◌+◌, String, Bool, true, false, not, ◌&&◌, Option, none, some, List, [], ◌∷◌, map, ◌==◌, eqb,
  if◌then◌else◌,
}
use aki_rag_middleware.Python.{text_of}
use aki_rag_middleware.Python.Errors.{Outcome, ok, raised, key_error, ◌>>=◌}
use aki_rag_middleware.Python.Values.{
  Runtime, Value, null, int, str, list, nil, Fields, end, field, truthy, or_else,
}
use aki_rag_middleware.Python.Fields.{get, put, has, lookup}
use aki_rag_middleware.Search.Provenance.{
  values_in, merge_metadata, merge_duplicate_variants, text_at,
}
use aki_rag_middleware.Search.Variant.{or_given}
use aki_rag_middleware.Search.Probes.{Scores, Entry, sort_entries}

-- `item["document_id"]`, which is a text; None where it is missing.
abbrev pub id_text : Value → Option String
id_text (str text) = some text
id_text v = none

abbrev pub or_blank : Option String → String
or_blank none = ""
or_blank (some text) = text

abbrev pub id_in : Fields → String
id_in item = or_blank (id_text (get item "document_id"))

abbrev pub is_some : Option String → Bool
is_some none = false
is_some (some text) = true

abbrev pub has_text_id : Fields → Bool
has_text_id item = is_some (id_text (get item "document_id"))

-- `item["rank"]`, which is a whole number.
abbrev pub is_rank : Value → Bool
is_rank (int n) = true
is_rank v = false

abbrev pub rank_value : Value → ℕ
rank_value (int n) = n
rank_value v = 0

-- What a hit of an arm must have, what it writes to a record, and its share of the sum.
pub record Arm : Type 0 where
  pub is_hit : Fields → Bool
  pub write : Fields → Fields → Fields
  pub share : Fields → Value → Value

-- `score + float(weight) / (_rrf_k() + rank)`
abbrev pub Weighted : Type 0
Weighted = Value → Value → ℕ → Value

abbrev pub es_arm : Weighted → Value → Arm
es_arm add weight = record {
  is_hit = λ item.
      has_text_id item && is_rank (get item "rank") && has item "score" && has item "snippet";
  write = λ item d.
      put "es_snippet" (get item "snippet")
        (put "es_score" (get item "score") (put "es_rank" (get item "rank") d));
  share = λ item score. add weight score (rank_value (get item "rank"));
}

abbrev pub vector_arm : Weighted → Value → Arm
vector_arm add weight = record {
  is_hit = λ item.
      has_text_id item
      && is_rank (get item "rank")
      && has item "score"
      && has item "chunk_no"
      && has item "snippet";
  write = λ item d. put "vector_snippet" (get item "snippet") (
      put "chunk_no" (get item "chunk_no")
        (put "vector_score" (get item "score") (put "vector_rank" (get item "rank") d)));
  share = λ item score. add weight score (rank_value (get item "rank"));
}

-- A record of the graph may have no rank; a rank is a whole number, of which 0 counts as none.
abbrev pub graph_share : Weighted → Value → Value → Value → Value
graph_share add weight rank score =
    if eqb (rank_value rank) 0 then score else add weight score (rank_value rank)

abbrev pub graph_arm : Runtime → Weighted → Value → Arm
graph_arm py add weight = record {
  is_hit = has_text_id;
  write = λ item d. put "graph_snippet" (str (text_at py item "graph_snippet")) (
      put "graph_direct_relations" (list (values_in (get item "graph_direct_relations"))) (
        put "graph_entities" (list (values_in (get item "graph_matched_entity_names"))) (
          put "graph_reason" (get item "graph_reason")
            (put "graph_score" (get item "score") (put "graph_rank" (get item "rank") d)))));
  share = λ item score. graph_share add weight (get item "rank") score;
}

module _ (py : Runtime) where
  abbrev pub with_variants_of : Fields → Fields → Fields
  with_variants_of item d =
      merge_duplicate_variants py d (or_given (lookup "duplicate_variants" item) (list nil))

  abbrev pub blank_record : Value → Fields → Fields
  blank_record nought item = field "document_id" (str (id_in item)) (
      field "title" (or_given (lookup "title" item) (str "")) (
        field "rrf" nought (
          field "es_rank" null (
            field "es_score" null (
              field "vector_rank" null (
                field "vector_score" null (
                  field "graph_rank" null (
                    field "graph_score" null (
                      field "graph_reason" null (
                        field "graph_entities" (list nil) (
                          field "graph_direct_relations" (list nil) (
                            field "graph_snippet" (str "") (
                              field "chunk_no" null (
                                field "es_snippet" (str "") (
                                  field "vector_snippet" (str "") (
                                    field "duplicate_variants" (list nil)
                                      (field "duplicate_count" (int 1) end)))))))))))))))))

  unfoldable pub new_record : Value → Fields → Fields
  unfolding merge_metadata merge_duplicate_variants lookup get
  new_record nought item = with_variants_of item (merge_metadata (blank_record nought item) item)

  abbrev pub with_title : Fields → Fields → Fields
  with_title item d =
      if truthy (get d "title") then d else put "title" (or_given (lookup "title" item) (str "")) d

  abbrev pub written : Arm → Fields → Fields → Fields
  written arm item d =
      arm.write item (with_title item (with_variants_of item (merge_metadata d item)))

  module _ (sc : Scores) where
    abbrev pub new_entry : Fields → Entry
    new_entry item = record {
      key = id_in item;
      item = new_record sc.zero_score item;
      score = sc.zero_score;
      hits = [];
    }

    abbrev pub add_to : Arm → Fields → Entry → Entry
    add_to arm item e = record e { item = written arm item e.item; score = arm.share item e.score }

    -- `combined.setdefault(document_id, new_record(item))`, and the writes to it
    unfoldable pub combine : Arm → Fields → List Entry → List Entry
    unfolding new_record merge_metadata merge_duplicate_variants get put lookup truthy
    combine arm item [] = add_to arm item (new_entry item) ∷ []
    combine arm item (e ∷ es) =
        let rest = combine arm item es in
        if e.key == id_in item then add_to arm item e ∷ es else e ∷ rest

    unfoldable pub scan_arm : Arm → List Fields → List Entry → Outcome (List Entry)
    unfolding combine
    scan_arm arm [] es = ok es
    scan_arm arm (item ∷ items) es =
        let rest = scan_arm arm items (combine arm item es) in
        if arm.is_hit item then rest else raised key_error

    abbrev pub with_rrf : Entry → Fields
    with_rrf e = put "rrf" e.score e.item

    unfoldable pub fuse_results :
        Weighted
        → Value × Value × Value
        → List Fields
        → List Fields
        → List Fields
        → Outcome (List Fields)
    unfolding scan_arm sort_entries put
    fuse_results add (es_weight, vector_weight, graph_weight) elastic vector graph = do
      files ← scan_arm (es_arm add es_weight) elastic []
      both ← scan_arm (vector_arm add vector_weight) vector files
      combined ← scan_arm (graph_arm py add graph_weight) graph both
      ok (map with_rrf (sort_entries sc combined))
