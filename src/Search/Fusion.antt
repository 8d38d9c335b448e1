-- ===== src/Search/Fusion.antt =====
-- The joint ranking of rag/search.py scores every document by the sum of its reciprocal ranks.
use aki_rag_middleware.Prelude.{
  ℕ, suc, String, ◌≡◌, refl, ap, ◌∙◌, Bool, true, Option, none, some, List, [], ◌∷◌, ◌==◌, contains,
  arith, eq_iff, if◌then◌else◌, Bool-cases, inl, inr,
}
use aki_rag_middleware.Python.Values.{Runtime, Value, Fields}
use aki_rag_middleware.Search.Keys.{multi_probe_document_key, key_nonempty}
use aki_rag_middleware.Search.Probes.{Scores, Entry, place_entry, scan_ranking, scan_rankings}

-- The score of the entry with a key, where there is one.
abbrev pub score_of : String → List Entry → Option Value
score_of key [] = none
score_of key (e ∷ es) = if e.key == key then some e.score else score_of key es

module _ (sc : Scores) (py : Runtime) where
  abbrev pub or_zero : Option Value → Value
  or_zero none = sc.zero_score
  or_zero (some score) = score

  -- Where a key stands first in a ranking that is numbered from `rank`.
  unfoldable pub first_rank : String → ℕ → List Fields → Option ℕ
  first_rank key rank [] = none
  first_rank key rank (item ∷ items) =
      let rest = first_rank key (suc rank) items in
      if multi_probe_document_key py item == key then some rank else rest

  abbrev pub with_share : ℕ → Option Value → Option ℕ → Option Value
  with_share rrf_k o none = o
  with_share rrf_k o (some rank) = some (sc.add_share rrf_k (or_zero o) rank)

  -- The reference: the shares of the rankings that name the key, each for its first rank there.
  unfoldable pub rrf : ℕ → String → Option Value → List (String × List Fields) → Option Value
  unfolding first_rank
  rrf rrf_k key o [] = o
  rrf rrf_k key o ((query, ranking) ∷ rankings) =
      rrf rrf_k key (with_share rrf_k o (first_rank key 1 ranking)) rankings

  module _ (equal : Value → Value → Bool) where
    pub score_of-place_entry :
        (rrf_k : ℕ) (query : String) (rank : ℕ) (key : String) (item : Fields) (es : List Entry)
        (k : String)
        → score_of k (place_entry sc py equal rrf_k query rank key item es) ≡ (
            if key == k
            then some (sc.add_share rrf_k (or_zero (score_of k es)) rank)
            else score_of k es)
    unfolding place_entry
    score_of-place_entry rrf_k query rank key item [] k = ground arith
    score_of-place_entry rrf_k query rank key item (e ∷ es) k = ground (
      arith,
      eq_iff key k,
      eq_iff e.key k,
      eq_iff e.key key,
      score_of-place_entry rrf_k query rank key item es k,
    )

    score_of-scan_ranking :
        (rrf_k : ℕ) (query : String) (rank : ℕ) (seen : List String) (items : List Fields)
        (es : List Entry) (k : String)
        → score_of k (scan_ranking sc py equal rrf_k query rank seen items es) ≡ (
            if contains seen k
            then score_of k es
            else with_share rrf_k (score_of k es) (first_rank k rank items))
    unfolding scan_ranking first_rank
    score_of-scan_ranking rrf_k query rank seen [] es k = ground arith
    score_of-scan_ranking rrf_k query rank seen (item ∷ items) es k =
        let key = multi_probe_document_key py item in
        let filled = key_nonempty py item in
        elim (Bool-cases (contains seen key)) [
          | inl old ↦
              let ih = score_of-scan_ranking rrf_k query (suc rank) seen items es k in
              rw (filled, old)
                (ih
                  ∙ passed (score_of k es) seen key k (first_rank k (suc rank) items) (some rank)
                      old)
          | inr fresh ↦
              let es' = place_entry sc py equal rrf_k query rank key item es in
              let ih = score_of-scan_ranking rrf_k query (suc rank) (key ∷ seen) items es' k in
              rw (filled, fresh)
                (ih
                  ∙ rw (score_of-place_entry rrf_k query rank key item es k)
                      (ground (arith, eq_iff key k)))
        ]
      where
        passed :
            (o : Option Value) (seen : List String) (key k : String) (r s : Option ℕ)
            → contains seen key ≡ true
            → (if contains seen k then o else with_share rrf_k o r)
              ≡ (if contains seen k then o else with_share rrf_k o (if key == k then s else r))
        passed o seen key k r s h = elim (Bool-cases (key == k)) [
          | inl e ↦
              let same = (eq_iff key k).0 e in let t : contains seen k ≡ true = cc in rw t refl
          | inr e ↦ rw e refl
        ]

    pub score_of-scan_rankings :
        (rrf_k : ℕ) (rankings : List (String × List Fields)) (es : List Entry) (k : String)
        → score_of k (scan_rankings sc py equal rrf_k rankings es)
          ≡ rrf rrf_k k (score_of k es) rankings
    unfolding scan_rankings rrf
    score_of-scan_rankings rrf_k [] es k = refl
    score_of-scan_rankings rrf_k ((query, ranking) ∷ rankings) es k =
        score_of-scan_rankings rrf_k rankings (scan_ranking sc py equal rrf_k query 1 [] ranking es)
          k
        ∙ ap (λ o. rrf rrf_k k o rankings) (score_of-scan_ranking rrf_k query 1 [] ranking es k)
