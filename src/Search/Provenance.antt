-- ===== src/Search/Provenance.antt =====
-- What two records of the same document give each other, rag/search.py: metadata, suppressed
-- variants, and where each retrieval arm found it. `equal` stands for `==` of the interpreter.
use aki_rag_middleware.Prelude.{
  ℕ, ◌+◌, suc, String, Bool, true, false, not, ◌&&◌, ◌||◌, List, [], ◌∷◌, ◌==◌, ltb, contains,
  is_empty, if◌then◌else◌,
}
use aki_rag_middleware.Python.{text_of}
use aki_rag_middleware.Python.Values.{
  Runtime, Value, null, int, negative, str, list, dict, Values, nil, cons, Fields, end, truthy,
  or_else, dicts_in,
}
use aki_rag_middleware.Python.Fields.{get, put}

-- `RESULT_METADATA_KEYS`
abbrev pub result_metadata_keys : List String
result_metadata_keys =
    "path" ∷ "directory" ∷ "filename" ∷ "nextcloud_es_id" ∷ "nextcloud_openfile_id" ∷ "source_url"
    ∷ "document_date" ∷ "source_date" ∷ "source_date_precision" ∷ "source_date_confidence"
    ∷ "source_date_basis" ∷ "content_type" ∷ "content_kind" ∷ "content_available" ∷ "content_hash"
    ∷ "source" ∷ "provider" ∷ "share_names" ∷ "owner" ∷ "users" ∷ "groups" ∷ "circles" ∷ []

abbrev pub access_keys : List String
access_keys = "users" ∷ "groups" ∷ "circles" ∷ []

abbrev pub is_null : Value → Bool
is_null null = true
is_null v = false

-- Whether the value of a key is taken over: an empty list of the access keys is.
abbrev pub is_kept : String → Value → Bool
is_kept key null = false
is_kept key (str text) = not (is_empty text)
is_kept key (list nil) = contains access_keys key
is_kept key (dict end) = key == "share_names"
is_kept key v = true

abbrev pub put_when : Bool → String → Value → Fields → Fields
put_when b key value d = if b then put key value d else d

unfoldable pub merge_keys : List String → Fields → Fields → Fields
unfolding get put
merge_keys [] source target = target
merge_keys (key ∷ keys) source target =
    merge_keys keys source (put_when (is_kept key (get source key)) key (get source key) target)

unfoldable pub merge_metadata : Fields → Fields → Fields
unfolding merge_keys
merge_metadata target source = merge_keys result_metadata_keys source target

-- `int(a) < int(b)`, for the ranks, which are integers
abbrev pub rank_less : Value → Value → Bool
rank_less (int a) (int b) = ltb a b
rank_less (negative a) (int b) = true
rank_less (negative a) (negative b) = ltb b a
rank_less a b = false

-- The items of `value or []`, for lists.
abbrev pub values_in : Value → Values
values_in (list vs) = vs
values_in v = nil

abbrev pub append_values : Values → Values → Values
append_values nil ws = ws
append_values (cons v vs) ws = cons v (append_values vs ws)

abbrev pub count_values : Values → ℕ
count_values nil = 0
count_values (cons v vs) = suc (count_values vs)

module _ (py : Runtime) where
  -- `str(item.get(key) or "")`
  unfoldable pub text_at : Fields → String → String
  unfolding get or_else text_of
  text_at item key = text_of py (or_else (get item key) (str ""))

  abbrev pub document_text : Fields → String
  document_text item = text_at item "document_id"

  abbrev pub ids_of : List Fields → List String
  ids_of [] = []
  ids_of (v ∷ vs) = document_text v ∷ ids_of vs

  -- The variants that are appended: those whose id was not seen, and those without one.
  unfoldable pub new_variants : List String → List Fields → Values
  unfolding text_at
  new_variants seen [] = nil
  new_variants seen (v ∷ vs) =
      let id = document_text v in
      let known = not (is_empty id) && contains seen id in
      let rest = new_variants (if is_empty id || known then seen else id ∷ seen) vs in
      if known then rest else cons (dict v) rest

  -- `_merge_duplicate_variants`, where the variants of the target are a list or missing
  unfoldable pub merge_duplicate_variants : Fields → Value → Fields
  unfolding get put new_variants dicts_in
  merge_duplicate_variants target variants =
      let existing = get target "duplicate_variants" in
      let all =
        append_values (values_in existing)
          (new_variants (ids_of (dicts_in existing)) (dicts_in variants)) in
      put "duplicate_count" (int (1 + count_values all))
        (put "duplicate_variants" (list all) target)

abbrev pub keep_first : String → Fields → Fields → Fields
keep_first key source target =
    put_when (not (truthy (get target key)) && truthy (get source key)) key (get source key) target

abbrev pub best_rank : String → String → Fields → Fields → Fields
best_rank rank_key score_key source target =
    let s = get source rank_key in
    let t = get target rank_key in
    let better = not (is_null s) && (is_null t || rank_less s t) in
    let ranked = put_when better rank_key s target in
    put_when (better && not (is_null (get source score_key))) score_key (get source score_key)
      ranked

module _ (equal : Value → Value → Bool) where
  unfoldable pub is_in : Value → Values → Bool
  is_in v nil = false
  is_in v (cons w ws) = equal w v || is_in v ws

  -- `for value in values: if value not in names: names.append(value)`
  unfoldable pub add_values : Values → Values → Values
  unfolding is_in
  add_values names nil = names
  add_values names (cons v vs) =
      add_values (if is_in v names then names else append_values names (cons v nil)) vs

  abbrev pub union_at : String → Fields → Fields → Fields
  union_at key source target =
      put key (list (add_values (values_in (get target key)) (values_in (get source key)))) target

  abbrev pub merge_graph : Fields → Fields → Fields
  merge_graph source target =
      if is_null (get source "graph_rank")
      then target
      else union_at "graph_indirect_chains" source (
          union_at "graph_direct_relations" source
            (union_at "graph_entities" source (keep_first "graph_reason" source target)))

  unfoldable pub merge_retrieval_provenance : Fields → Fields → Fields
  unfolding get put truthy add_values
  merge_retrieval_provenance target source = merge_graph source (
      keep_first "graph_snippet" source (
        keep_first "vector_snippet" source (
          keep_first "es_snippet" source (
            best_rank "graph_rank" "graph_score" source (
              best_rank "vector_rank" "vector_score" source
                (best_rank "es_rank" "es_score" source target))))))
