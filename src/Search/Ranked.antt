-- ===== src/Search/Ranked.antt =====
-- The records of a retrieval arm of rag/search.py, sorted by its ranks and cut.
use aki_rag_middleware.Prelude.{
  ℕ, zero, suc, String, List, [], ◌∷◌, All, take, Bool-cases, inl, inr,
}
use aki_rag_middleware.Python.Values.{Fields}
use aki_rag_middleware.Python.Fields.{get}
use aki_rag_middleware.Search.Provenance.{is_null, rank_less}
use aki_rag_middleware.Search.Dedup.{arm_items, insert_ranked, sort_ranked}

-- What holds of every record holds of those of an arm, sorted and cut.
module _ (P : Fields → Type 0) where
  pub All-arm_items : (key : String) (ds : List Fields) → All P ds → All P (arm_items key ds)
  unfolding arm_items
  All-arm_items key [] h = tt
  All-arm_items key (d ∷ ds) (a, h) = elim (Bool-cases (is_null (get d key))) [
    | inl e ↦ rw e (All-arm_items key ds h)
    | inr e ↦ rw e (a, All-arm_items key ds h)
  ]

  pub All-insert_ranked :
      (key : String) (x : Fields) (ds : List Fields)
      → P x
      → All P ds
      → All P (insert_ranked key x ds)
  unfolding insert_ranked
  All-insert_ranked key x [] p h = (p, tt)
  All-insert_ranked key x (d ∷ ds) p (a, h) =
      elim (Bool-cases (rank_less (get d key) (get x key))) [
        | inl e ↦ rw e (a, All-insert_ranked key x ds p h)
        | inr e ↦ rw e (p, (a, h))
      ]

  pub All-sort_ranked : (key : String) (ds : List Fields) → All P ds → All P (sort_ranked key ds)
  unfolding sort_ranked
  All-sort_ranked key [] h = tt
  All-sort_ranked key (d ∷ ds) (a, h) =
      All-insert_ranked key d (sort_ranked key ds) a (All-sort_ranked key ds h)

  pub All-take : (n : ℕ) (ds : List Fields) → All P ds → All P (take n ds)
  All-take zero ds h = tt
  All-take (suc n) [] h = tt
  All-take (suc n) (d ∷ ds) (a, h) = (a, All-take n ds h)
