-- ===== src/Search/Mandatory.antt =====
-- `_preserve_required_after_rerank` of rag/search.py keeps the mandatory documents within the limit.
use aki_rag_middleware.Prelude.{
  ℕ, zero, suc, ◌≤◌, String, ◌≡◌, ap, ◌∙◌, true, List, [], ◌∷◌, contains, length, take,
  length-take-le, any, leb, arith, Bool-cases, inl, inr,
}
use aki_rag_middleware.Python.Values.{Runtime, Fields}
use aki_rag_middleware.Search.Required.{
  has_document_key, keys_of, add_required, trim, preserve_required_after_rerank,
}
use aki_rag_middleware.Search.Distinct.{IsDistinct, length-IsDistinct}
use aki_rag_middleware.Search.Selected.{
  add_required-IsDistinct, add_required-found, drop_optional-cases, length-keys_of, IsDistinct-take,
  take_all,
}

module _ (py : Runtime) where
  -- The loop keeps the mandatory documents, and ends within the limit if they fit.
  trim-keeps :
      (fuel : ℕ) (required : List String) (limit : ℕ) (selected : List Fields) (k : String)
      → contains required k ≡ true
      → contains (keys_of py selected) k ≡ true
      → contains (keys_of py (trim py fuel required limit selected)) k ≡ true
  unfolding trim
  trim-keeps zero required limit selected k h m = m
  trim-keeps (suc fuel) required limit selected k h m =
      elim (Bool-cases (leb (length selected) limit)) [
        | inl short ↦ rw short m
        | inr long ↦ rw long (elim (drop_optional-cases py required selected) [
          | inl (all, mandatory) ↦ rw all m
          | inr (rest, dropped, r) ↦
              rw dropped (trim-keeps fuel required limit rest k h (r.keeps k h m))
        ])
      ]

  trim-short :
      (fuel : ℕ) (required : List String) (limit : ℕ) (selected : List Fields)
      → length selected ≤ fuel
      → IsDistinct (keys_of py selected)
      → length required ≤ limit
      → length (trim py fuel required limit selected) ≤ limit
  unfolding trim
  trim-short zero required limit selected h d fit = omega arith
  trim-short (suc fuel) required limit selected h d fit =
      elim (Bool-cases (leb (length selected) limit)) [
        | inl short ↦ rw short (ground arith)
        | inr long ↦ rw long (elim (drop_optional-cases py required selected) [
          | inl (all, mandatory) ↦
              let bound = length-IsDistinct (keys_of py selected) required d mandatory in
              let same = length-keys_of py selected in rw all (omega arith)
          | inr (rest, dropped, r) ↦
              let shorter = r.shorter in
              rw dropped (trim-short fuel required limit rest (omega arith) (r.distinct d) fit)
        ])
      ]

  -- Where no two of the ranked records are of the same document and the mandatory documents fit the
  -- limit, every mandatory document that was a candidate is in the result.
  pub preserve_required-keeps :
      (ranked candidates : List Fields) (required : List String) (limit : ℕ) (k : String)
      → IsDistinct (keys_of py ranked)
      → length required ≤ limit
      → contains required k ≡ true
      → any (has_document_key py k) candidates ≡ true
      → contains (keys_of py (preserve_required_after_rerank py ranked candidates required limit)) k
        ≡ true
  unfolding preserve_required_after_rerank
  preserve_required-keeps ranked candidates [] limit k d fit h held = cc
  preserve_required-keeps ranked candidates (key ∷ keys) limit k d fit h held =
      let required = key ∷ keys in
      let selected = add_required py candidates required (take limit ranked) in
      let distinct =
        add_required-IsDistinct py candidates required (take limit ranked)
          (IsDistinct-take py limit ranked d) in
      let short = trim-short (length selected) required limit selected (omega arith) distinct fit in
      ap (λ xs. contains (keys_of py xs) k) (take_all py limit _ short)
      ∙ trim-keeps (length selected) required limit selected k h
          (add_required-found py candidates required (take limit ranked) k h held)

  -- The result has at most as many records as the limit.
  pub preserve_required-bound :
      (ranked candidates : List Fields) (required : List String) (limit : ℕ)
      → length (preserve_required_after_rerank py ranked candidates required limit) ≤ limit
  unfolding preserve_required_after_rerank
  preserve_required-bound ranked candidates [] limit = length-take-le limit ranked
  preserve_required-bound ranked candidates (key ∷ keys) limit = length-take-le limit _
