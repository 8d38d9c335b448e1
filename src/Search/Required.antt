-- ===== src/Search/Required.antt =====
-- The mandatory documents of rag/search.py: `_merge_required_results` puts them among the candidates,
-- `_preserve_required_after_rerank` keeps them in the result. The set of their keys is a list, in any
-- order, without repetition.
use aki_rag_middleware.Prelude.{
  ℕ, zero, suc, String, Bool, true, false, ◌||◌, Option, none, some, List, [], ◌∷◌, ◌++◌, ◌==◌,
  contains, is_empty, length, take, any, leb, if◌then◌else◌,
}
use aki_rag_middleware.Python.Values.{
  Runtime, Value, null, bool, str, list, dict, nil, cons, Fields, end, field,
}
use aki_rag_middleware.Python.Fields.{has, put}
use aki_rag_middleware.Search.Provenance.{merge_retrieval_provenance}
use aki_rag_middleware.Search.Keys.{multi_probe_document_key}

-- `d.setdefault(key, value)`
abbrev pub put_default : String → Value → Fields → Fields
put_default key value d = if has d key then d else put key value d

abbrev pub seed_hits : Value
seed_hits = list (cons (dict (field "query" (str "strict_acl_seed") (field "rank" null end))) nil)

-- A mandatory document that no probe found; `nought` is 0.0.
abbrev pub seeded : Value → Fields → Fields
seeded nought source = put_default "probe_hits" seed_hits (
    put_default "rrf" nought
      (put_default "probe_rrf_score" nought (put "exhaustive_required" (bool true) source)))

abbrev pub add_key : String → List String → List String
add_key key keys = if contains keys key then keys else keys ++ key ∷ []

module _ (py : Runtime) where
  abbrev pub has_document_key : String → Fields → Bool
  has_document_key key item = multi_probe_document_key py item == key

  -- Writes to the record that `{key(item): item for item in fused}` names: the last one.
  unfoldable pub update_last : String → (Fields → Fields) → List Fields → List Fields
  unfolding multi_probe_document_key
  update_last key f [] = []
  update_last key f (d ∷ ds) =
      let rest = update_last key f ds in
      if any (has_document_key key) ds
      then d ∷ rest
      else if has_document_key key d
      then f d ∷ ds
      else d ∷ rest

  unfoldable pub find_last : String → List Fields → Option Fields
  unfolding multi_probe_document_key
  find_last key [] = none
  find_last key (d ∷ ds) =
      let rest = find_last key ds in
      if any (has_document_key key) ds
      then rest
      else if has_document_key key d
      then some d
      else none

  abbrev pub marked : (Value → Value → Bool) → Fields → Fields → Fields
  marked equal source existing =
      put "exhaustive_required" (bool true) (merge_retrieval_provenance equal existing source)

  abbrev pub inject : (Value → Value → Bool) → Value → Fields → List Fields → List Fields
  inject equal nought source fused =
      let key = multi_probe_document_key py source in
      if any (has_document_key key) fused
      then update_last key (marked equal source) fused
      else fused ++ seeded nought source ∷ []

  unfoldable pub merge_required_results :
      (Value → Value → Bool)
      → Value
      → List Fields
      → List Fields
      → List String
      → List Fields × List String
  unfolding multi_probe_document_key update_last has put merge_retrieval_provenance
  merge_required_results equal nought [] fused keys = (fused, keys)
  merge_required_results equal nought (source ∷ sources) fused keys =
      let key = multi_probe_document_key py source in
      merge_required_results equal nought sources
        (if is_empty key then fused else inject equal nought source fused)
        (if is_empty key then keys else add_key key keys)

  unfoldable pub keys_of : List Fields → List String
  unfolding multi_probe_document_key
  keys_of [] = []
  keys_of (d ∷ ds) = multi_probe_document_key py d ∷ keys_of ds

  abbrev pub with_found : List Fields → Option Fields → List Fields
  with_found selected none = selected
  with_found selected (some required) = selected ++ required ∷ []

  -- The mandatory candidates that are missing, behind the selected ones.
  unfoldable pub add_required : List Fields → List String → List Fields → List Fields
  unfolding keys_of find_last
  add_required candidates [] selected = selected
  add_required candidates (key ∷ keys) selected = add_required candidates keys (
      if contains (keys_of selected) key
      then selected
      else with_found selected (find_last key candidates))

  abbrev pub drop_or : Fields → List Fields → Bool → Option (List Fields) → Option (List Fields)
  drop_or d ds mandatory (some rest) = some (d ∷ rest)
  drop_or d ds mandatory none = if mandatory then none else some ds

  -- `selected` without its last record that is not mandatory.
  unfoldable pub drop_optional : List String → List Fields → Option (List Fields)
  unfolding multi_probe_document_key
  drop_optional required [] = none
  drop_optional required (d ∷ ds) =
      drop_or d ds (contains required (multi_probe_document_key py d)) (drop_optional required ds)

  abbrev pub is_none : Option (List Fields) → Bool
  is_none none = true
  is_none (some rest) = false

  abbrev pub or_same : List Fields → Option (List Fields) → List Fields
  or_same selected none = selected
  or_same selected (some rest) = rest

  -- The `while` loop; each round shortens the list, so that its length is enough fuel.
  unfoldable pub trim : ℕ → List String → ℕ → List Fields → List Fields
  unfolding drop_optional
  trim zero required limit selected = selected
  trim (suc fuel) required limit selected =
      let dropped = drop_optional required selected in
      let rest = trim fuel required limit (or_same selected dropped) in
      if leb (length selected) limit || is_none dropped then selected else rest

  abbrev pub kept_within : List Fields → List String → ℕ → List Fields → List Fields
  kept_within candidates required limit ranked =
      let selected = add_required candidates required (take limit ranked) in
      take limit (trim (length selected) required limit selected)

  unfoldable pub preserve_required_after_rerank :
      List Fields → List Fields → List String → ℕ → List Fields
  unfolding add_required trim
  preserve_required_after_rerank ranked candidates [] limit = take limit ranked
  preserve_required_after_rerank ranked candidates (key ∷ keys) limit =
      kept_within candidates (key ∷ keys) limit ranked
