-- ===== src/Acl/Promote/Laws.antt =====
-- What crosses the authorization boundary when a duplicate is promoted
-- (`_promote_authorized_duplicate` of rag/acl.py).
use aki_rag_middleware.Prelude.{
  String, ◌≡◌, refl, Bool, true, false, Option, none, some, List, [], ◌∷◌, ◌∙◌, arith, All,
  contains, ◌==◌, if◌then◌else◌, Bool-cases, inl, inr,
}
use mathlib.Core.Path.{ap₂}
use aki_rag_middleware.Python.Values.{Runtime, Value, Fields, truthy}
use aki_rag_middleware.Python.Fields.{
  lookup, get, restrict, copy_keys, pop_all, field_if, lookup-put, lookup-pop_all, lookup-restrict,
  lookup-copy_keys, either,
}
use aki_rag_middleware.Acl.FileId.{file_id}
use aki_rag_middleware.Acl.Promote.{
  ranking_keys, identity_keys, graph_keys, name_by, carried, with_evidence, with_variants, promote,
}

-- Two dicts agree on the keys.
abbrev pub SameOn : List String → Fields → Fields → Type 0
SameOn ks d e = All (λ k. lookup k d ≡ lookup k e) ks

restrict_congr : (ks : List String) (d e : Fields) → SameOn ks d e → restrict ks d ≡ restrict ks e
unfolding restrict
restrict_congr [] d e h = refl
restrict_congr (k ∷ ks) d e (same, h) = ap₂ (field_if k) same (restrict_congr ks d e h)

abbrev pub evidence_keys : List String
evidence_keys =
    "snippet" ∷ "es_snippet" ∷ "vector_snippet" ∷ "graph_snippet" ∷ "context_text"
    ∷ "context_enriched" ∷ "acl_promoted_duplicate" ∷ []

abbrev pub variant_keys : List String
variant_keys = "duplicate_variants" ∷ "duplicate_count" ∷ []

own_wins :
    (own : Bool) (v w : Option Value)
    → (if own then either v (if own then none else w) else (if own then none else w))
      ≡ (if own then v else w)
own_wins true none w = refl
own_wins true (some v) w = refl
own_wins false v w = refl

module _ (py : Runtime) where
  -- Of the denied representative only its ranking crosses: two representatives that agree on the
  -- ranking keys are replaced by the same record, whatever else they hold.
  pub promote_noninterference :
      (r s variant : Fields) (remaining : List Fields)
      → SameOn ranking_keys r s
      → promote py r variant remaining ≡ promote py s variant remaining
  unfolding promote carried
  promote_noninterference r s variant remaining h = rw (restrict_congr ranking_keys r s h)

  pub lookup-with_variants :
      (vs : List Fields) (d : Fields) (k : String)
      → contains variant_keys k ≡ false
      → lookup k (with_variants py vs d) ≡ lookup k d
  unfolding with_variants
  lookup-with_variants vs d k h = simp lookup-put (ground arith)

  pub lookup-with_evidence :
      (variant d : Fields) (k : String)
      → contains evidence_keys k ≡ false
      → lookup k (with_evidence py variant d) ≡ lookup k d
  unfolding with_evidence
  lookup-with_evidence variant d k h = simp lookup-put (ground arith)

  lookup-name_by :
      (number : Option String) (d : Fields) (k : String)
      → ("document_id" == k) ≡ false
      → lookup k (name_by py number d) ≡ lookup k d
  unfolding name_by
  lookup-name_by none d k h = refl
  lookup-name_by (some number) d k h = elim (Bool-cases (truthy (get d "document_id"))) [
    | inl there ↦ rw there
    | inr missing ↦ rw missing (simp lookup-put (rw h))
  ]

  abbrev pub merged : Fields → Fields → Fields
  merged r variant =
      copy_keys identity_keys variant (pop_all identity_keys (restrict ranking_keys r))

  pub lookup-merged :
      (r variant : Fields) (k : String)
      → lookup k (merged r variant) ≡ (
          if contains identity_keys k
          then lookup k variant
          else if contains ranking_keys k
          then lookup k r
          else none)
  lookup-merged r variant k =
      simp (lookup-copy_keys, lookup-pop_all, lookup-restrict)
        (own_wins (contains identity_keys k) (lookup k variant)
          (if contains ranking_keys k then lookup k r else none))

  -- A key that the promotion does not write itself comes from the variant, if it tells whose
  -- document this is, or else from the ranking of the representative; no other key is there.
  pub lookup-promote :
      (r variant : Fields) (remaining : List Fields) (k : String)
      → ("document_id" == k) ≡ false
      → contains evidence_keys k ≡ false
      → contains variant_keys k ≡ false
      → contains graph_keys k ≡ false
      → lookup k (promote py r variant remaining) ≡ (
          if contains identity_keys k
          then lookup k variant
          else if contains ranking_keys k
          then lookup k r
          else none)
  unfolding promote carried
  lookup-promote r variant remaining k not_id not_evidence not_variant not_graph =
      simp
        (
          lookup-with_variants, not_variant, lookup-pop_all, not_graph, lookup-with_evidence,
          not_evidence,
        )
        (lookup-name_by (file_id py variant) (merged r variant) k not_id
          ∙ lookup-merged r variant k)
