-- ===== src/Search/Represented.antt =====
-- The versions that a record of rag/search.py stands for, under the merges of duplicates.
use aki_rag_middleware.Prelude.{
  String, ◌≡◌, refl, ap, ◌∙◌, Bool, true, not, ◌&&◌, ◌||◌, List, [], ◌∷◌, ◌++◌, contains,
  contains-append, is_empty, arith, eq_refl, Bool-cases, inl, inr,
}
use aki_rag_middleware.Python.Values.{
  Runtime, Value, null, bool, int, negative, float, str, list, dict, Values, nil, cons, Fields,
  dict_items, dicts_in,
}
use aki_rag_middleware.Python.Fields.{get, put, pop_all, lookup-put, lookup-pop_all}
use aki_rag_middleware.Search.Provenance.{
  text_at, document_text, ids_of, values_in, append_values, new_variants, merge_duplicate_variants,
  merge_retrieval_provenance,
}
use aki_rag_middleware.Search.Keys.{lookup-merge_retrieval_provenance}
use aki_rag_middleware.Search.Dedup.{has_id, dedup_keys}

abbrev pub variants_of : Fields → List Fields
variants_of d = dicts_in (get d "duplicate_variants")

-- The record is the version with the id, or names it among its variants.
abbrev pub stands_for : Runtime → String → Fields → Bool
stands_for py id d = has_id py id d || contains (ids_of py (variants_of d)) id

dict_items-append :
    (vs ws : Values) → dict_items (append_values vs ws) ≡ dict_items vs ++ dict_items ws
unfolding dict_items
dict_items-append nil ws = refl
dict_items-append (cons (dict d) vs) ws = ap (λ r. d ∷ r) (dict_items-append vs ws)
dict_items-append (cons null vs) ws = dict_items-append vs ws
dict_items-append (cons (bool b) vs) ws = dict_items-append vs ws
dict_items-append (cons (int n) vs) ws = dict_items-append vs ws
dict_items-append (cons (negative n) vs) ws = dict_items-append vs ws
dict_items-append (cons (float f) vs) ws = dict_items-append vs ws
dict_items-append (cons (str s) vs) ws = dict_items-append vs ws
dict_items-append (cons (list l) vs) ws = dict_items-append vs ws

pub dict_items-values_in : (v : Value) → dict_items (values_in v) ≡ dicts_in v
unfolding dicts_in dict_items
dict_items-values_in (list vs) = refl
dict_items-values_in null = refl
dict_items-values_in (bool b) = refl
dict_items-values_in (int n) = refl
dict_items-values_in (negative n) = refl
dict_items-values_in (float f) = refl
dict_items-values_in (str s) = refl
dict_items-values_in (dict d) = refl

-- A list of variants that is written is read.
pub variants_of-put :
    (count : Value) (all : Values) (d : Fields)
    → variants_of (put "duplicate_count" count (put "duplicate_variants" (list all) d))
      ≡ dict_items all
unfolding get dicts_in
variants_of-put count all d =
    rw
      (
        lookup-put "duplicate_count" "duplicate_variants" count
            (put "duplicate_variants" (list all) d),
        lookup-put "duplicate_variants" "duplicate_variants" (list all) d,
      )
      refl

module _ (py : Runtime) where
  ids_of-append : (xs ys : List Fields) → ids_of py (xs ++ ys) ≡ ids_of py xs ++ ids_of py ys
  ids_of-append [] ys = refl
  ids_of-append (x ∷ xs) ys = ap (λ r. document_text py x ∷ r) (ids_of-append xs ys)

  -- What `merge_duplicate_variants` leaves.
  variants_of-merge :
      (target : Fields) (variants : Value)
      → variants_of (merge_duplicate_variants py target variants)
        ≡ variants_of target
          ++ dict_items (new_variants py (ids_of py (variants_of target)) (dicts_in variants))
  unfolding merge_duplicate_variants
  variants_of-merge target variants =
      let existing = get target "duplicate_variants" in
      let new = new_variants py (ids_of py (variants_of target)) (dicts_in variants) in
      variants_of-put _ (append_values (values_in existing) new) target
      ∙ dict_items-append (values_in existing) new
      ∙ ap (λ xs. xs ++ dict_items new) (dict_items-values_in existing)

  pub document_text-put :
      (count all : Value) (d : Fields)
      → document_text py (put "duplicate_count" count (put "duplicate_variants" all d))
        ≡ document_text py d
  unfolding text_at get
  document_text-put count all d =
      rw
        (
          lookup-put "duplicate_count" "document_id" count (put "duplicate_variants" all d),
          lookup-put "duplicate_variants" "document_id" all d,
        )
        refl

  document_text-merge :
      (target : Fields) (variants : Value)
      → document_text py (merge_duplicate_variants py target variants) ≡ document_text py target
  unfolding merge_duplicate_variants
  document_text-merge target variants = document_text-put _ _ target

  pub stands_for-merge :
      (id : String) (target : Fields) (variants : Value)
      → stands_for py id target ≡ true
      → stands_for py id (merge_duplicate_variants py target variants) ≡ true
  stands_for-merge id target variants h =
      rw
        (
          document_text-merge target variants,
          variants_of-merge target variants,
          ids_of-append (variants_of target)
              (dict_items (new_variants py (ids_of py (variants_of target)) (dicts_in variants))),
          contains-append (ids_of py (variants_of target))
              (ids_of py
                (dict_items (new_variants py (ids_of py (variants_of target)) (dicts_in variants))))
              id,
        )
        (ground arith)

  -- The version that is merged is stood for, also where its id was known.
  pub stands_for-new :
      (target variant : Fields)
      → stands_for py
          (document_text py variant)
          (merge_duplicate_variants py target (list (cons (dict variant) nil)))
        ≡ true
  unfolding new_variants dicts_in dict_items
  stands_for-new target variant =
      let id = document_text py variant in
      let seen = ids_of py (variants_of target) in
      let one = list (cons (dict variant) nil) in
      rw
        (
          document_text-merge target one,
          variants_of-merge target one,
          ids_of-append (variants_of target) (dict_items (new_variants py seen (variant ∷ []))),
          contains-append seen (ids_of py (dict_items (new_variants py seen (variant ∷ [])))) id,
        )
        (elim (Bool-cases (not (is_empty id) && contains seen id)) [
          | inl known ↦ rw known (ground arith)
          | inr unknown ↦ rw unknown (ground (arith, eq_refl id))
        ])

  module _ (equal : Value → Value → Bool) where
    pub stands_for-provenance :
        (id : String) (target source : Fields)
        → stands_for py id (merge_retrieval_provenance equal target source)
          ≡ stands_for py id target
    unfolding get text_at
    stands_for-provenance id target source =
        rw
          (
            lookup-merge_retrieval_provenance equal "document_id" target source refl,
            lookup-merge_retrieval_provenance equal "duplicate_variants" target source refl,
          )
          refl

  pub stands_for-pop_all :
      (id : String) (d : Fields) → stands_for py id (pop_all dedup_keys d) ≡ stands_for py id d
  unfolding get text_at
  stands_for-pop_all id d =
      rw
        (
          lookup-pop_all dedup_keys "document_id" d,
          lookup-pop_all dedup_keys "duplicate_variants" d,
        )
        refl
