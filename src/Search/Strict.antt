-- ===== src/Search/Strict.antt =====
-- `_merge_required_results` of rag/search.py: the documents that the strict query found are all among
-- the candidates, marked as mandatory, and no candidate is lost.
use aki_rag_middleware.Prelude.{
  String, ◌≡◌, refl, ap, sym, ◌∙◌, Bool, true, false, ◌&&◌, ◌||◌, List, [], ◌∷◌, ◌==◌, any,
  any-append, contains, contains-append, arith, eq_iff, eq_refl, Bool-cases, inl, inr,
}
use aki_rag_middleware.Python.Values.{Runtime, Value, bool, Fields, truthy}
use aki_rag_middleware.Python.Fields.{get, put, has, lookup-put}
use aki_rag_middleware.Search.Provenance.{merge_retrieval_provenance}
use aki_rag_middleware.Search.Keys.{
  key_nonempty, multi_probe_document_key, key-merge_retrieval_provenance, key-put,
}
use aki_rag_middleware.Search.Required.{
  put_default, seed_hits, seeded, add_key, has_document_key, update_last, marked, inject,
  merge_required_results,
}

module _ (py : Runtime) where
  -- The document is there, marked as mandatory.
  abbrev pub is_marked : String → Fields → Bool
  is_marked key d = has_document_key py key d && truthy (get d "exhaustive_required")

  module _ (equal : Value → Value → Bool) (nought : Value) where
    key-marked :
        (source d : Fields)
        → multi_probe_document_key py (marked py equal source d) ≡ multi_probe_document_key py d
    key-marked source d =
        key-put py "exhaustive_required" (bool true) (merge_retrieval_provenance equal d source)
          refl refl refl
        ∙ key-merge_retrieval_provenance equal py d source

    get-marked :
        (source d : Fields) → truthy (get (marked py equal source d) "exhaustive_required") ≡ true
    unfolding get truthy
    get-marked source d =
        rw
          (lookup-put "exhaustive_required" "exhaustive_required" (bool true)
            (merge_retrieval_provenance equal d source))
          refl

    -- The record that is written to becomes marked.
    update_last-marks :
        (source : Fields) (key : String) (ds : List Fields)
        → any (has_document_key py key) ds ≡ true
        → any (is_marked key) (update_last py key (marked py equal source) ds) ≡ true
    unfolding update_last
    update_last-marks source key [] h = cc
    update_last-marks source key (d ∷ ds) h = elim (Bool-cases (any (has_document_key py key) ds)) [
      | inl later ↦ rw later (ground (arith, update_last-marks source key ds later))
      | inr last ↦
          let own : has_document_key py key d ≡ true = ground arith in
          rw (last, own, key-marked source d, get-marked source d, own) refl
    ]

    -- What holds of a record and of what it becomes is not lost.
    any-update_last :
        (p : Fields → Bool) (source : Fields) (key : String) (ds : List Fields)
        → ((d : Fields) → p d ≡ true → p (marked py equal source d) ≡ true)
        → any p ds ≡ true
        → any p (update_last py key (marked py equal source) ds) ≡ true
    unfolding update_last
    any-update_last p source key [] keeps h = cc
    any-update_last p source key (d ∷ ds) keeps h =
        ground (arith, any-update_last p source key ds keeps, keeps d)

    marked-keeps :
        (k : String) (source d : Fields)
        → is_marked k d ≡ true
        → is_marked k (marked py equal source d) ≡ true
    marked-keeps k source d h = rw (key-marked source d, get-marked source d) (ground arith)

    key-put_default :
        (k : String) (v : Value) (d : Fields)
        → (k == "document_id") ≡ false
        → (k == "title") ≡ false
        → (k == "path") ≡ false
        → multi_probe_document_key py (put_default k v d) ≡ multi_probe_document_key py d
    key-put_default k v d a b c = elim (Bool-cases (has d k)) [
      | inl there ↦ rw there refl
      | inr absent ↦ rw absent (key-put py k v d a b c)
    ]

    get-put_default :
        (k j : String) (v : Value) (d : Fields)
        → (k == j) ≡ false
        → get (put_default k v d) j ≡ get d j
    unfolding get
    get-put_default k j v d a = elim (Bool-cases (has d k)) [
      | inl there ↦ rw there refl
      | inr absent ↦ rw (absent, lookup-put k j v d, a) refl
    ]

    seeded-is_marked :
        (source : Fields)
        → is_marked (multi_probe_document_key py source) (seeded nought source) ≡ true
    unfolding get truthy
    seeded-is_marked source =
        let a = put "exhaustive_required" (bool true) source in
        let b = put_default "probe_rrf_score" nought a in
        let c = put_default "rrf" nought b in
        let same =
          key-put_default "probe_hits" seed_hits c refl refl refl
          ∙ key-put_default "rrf" nought b refl refl refl
          ∙ key-put_default "probe_rrf_score" nought a refl refl refl
          ∙ key-put py "exhaustive_required" (bool true) source refl refl refl in
        let mark =
          get-put_default "probe_hits" "exhaustive_required" seed_hits c refl
          ∙ get-put_default "rrf" "exhaustive_required" nought b refl
          ∙ get-put_default "probe_rrf_score" "exhaustive_required" nought a refl in
        rw
          (
            same,
            mark,
            lookup-put "exhaustive_required" "exhaustive_required" (bool true) source,
            eq_refl (multi_probe_document_key py source),
          )
          refl

    inject-marks :
        (source : Fields) (fused : List Fields)
        → any (is_marked (multi_probe_document_key py source)) (inject py equal nought source fused)
          ≡ true
    inject-marks source fused =
        let key = multi_probe_document_key py source in
        elim (Bool-cases (any (has_document_key py key) fused)) [
          | inl there ↦ rw there (update_last-marks source key fused there)
          | inr absent ↦
              rw
                (
                  absent,
                  any-append (is_marked key) fused (seeded nought source ∷ []),
                  seeded-is_marked source,
                )
                (ground arith)
        ]

    any-inject :
        (p : Fields → Bool) (source : Fields) (fused : List Fields)
        → ((d : Fields) → p d ≡ true → p (marked py equal source d) ≡ true)
        → any p fused ≡ true
        → any p (inject py equal nought source fused) ≡ true
    any-inject p source fused keeps h =
        let key = multi_probe_document_key py source in
        elim (Bool-cases (any (has_document_key py key) fused)) [
          | inl there ↦ rw there (any-update_last p source key fused keeps h)
          | inr absent ↦ rw (absent, any-append p fused (seeded nought source ∷ []), h) refl
        ]

    -- No key is empty.
    merge-step :
        (source : Fields) (sources fused : List Fields) (keys : List String)
        → merge_required_results py equal nought (source ∷ sources) fused keys
          ≡ merge_required_results py equal nought sources
              (inject py equal nought source fused)
              (add_key (multi_probe_document_key py source) keys)
    unfolding merge_required_results
    merge-step source sources fused keys = rw (key_nonempty py source) refl

    any-merge_required_results :
        (p : Fields → Bool) (sources fused : List Fields) (keys : List String)
        → ((source d : Fields) → p d ≡ true → p (marked py equal source d) ≡ true)
        → any p fused ≡ true
        → any p (merge_required_results py equal nought sources fused keys).0 ≡ true
    unfolding merge_required_results
    any-merge_required_results p [] fused keys keeps h = h
    any-merge_required_results p (source ∷ sources) fused keys keeps h =
        ap (λ r. any p r.0) (merge-step source sources fused keys)
        ∙ any-merge_required_results p sources (inject py equal nought source fused) _ keeps
            (any-inject p source fused (keeps source) h)

    contains-add_key :
        (key k : String) (keys : List String)
        → contains (add_key key keys) k ≡ (key == k || contains keys k)
    contains-add_key key k keys = elim (Bool-cases (contains keys key)) [
      | inl there ↦ rw there (ground (arith, eq_iff key k))
      | inr absent ↦ rw (absent, contains-append keys (key ∷ []) k) (ground arith)
    ]

    contains-merge_required_results :
        (sources fused : List Fields) (keys : List String) (k : String)
        → contains keys k ≡ true
        → contains (merge_required_results py equal nought sources fused keys).1 k ≡ true
    unfolding merge_required_results
    contains-merge_required_results [] fused keys k h = h
    contains-merge_required_results (source ∷ sources) fused keys k h =
        ap (λ r. contains r.1 k) (merge-step source sources fused keys)
        ∙ contains-merge_required_results sources (inject py equal nought source fused) _ k
            (contains-add_key (multi_probe_document_key py source) k keys ∙ ground arith)

    -- Every document of the strict query is among the candidates, marked as mandatory, and its key
    -- among the mandatory keys.
    pub merge_required_results-covers :
        (sources fused : List Fields) (keys : List String) (k : String)
        → any (has_document_key py k) sources ≡ true
        → (any (is_marked k) (merge_required_results py equal nought sources fused keys).0 ≡ true)
          × (contains (merge_required_results py equal nought sources fused keys).1 k ≡ true)
    unfolding merge_required_results
    merge_required_results-covers [] fused keys k h = absurd (cc)
    merge_required_results-covers (source ∷ sources) fused keys k h =
        let key = multi_probe_document_key py source in
        let next = inject py equal nought source fused in
        elim (Bool-cases (key == k)) [
          | inl own ↦
              let here =
                ap (λ i. any (is_marked i) next) (sym ((eq_iff key k).0 own))
                ∙ inject-marks source fused in
              (
                ap (λ r. any (is_marked k) r.0) (merge-step source sources fused keys)
                    ∙ any-merge_required_results (is_marked k) sources next _ (marked-keeps k) here,
                ap (λ r. contains r.1 k) (merge-step source sources fused keys)
                    ∙ contains-merge_required_results sources next _ k
                        (contains-add_key key k keys ∙ rw own refl),
              )
          | inr other ↦
              let later =
                merge_required_results-covers sources next (add_key key keys) k (rw other at h) in
              (
                ap (λ r. any (is_marked k) r.0) (merge-step source sources fused keys) ∙ later.0,
                ap (λ r. contains r.1 k) (merge-step source sources fused keys) ∙ later.1,
              )
        ]
