-- ===== src/Search/Unique.antt =====
-- The entries of `_merge_probe_rankings` of rag/search.py: each document has one, also when sorted.
use aki_rag_middleware.Prelude.{
  ℕ, suc, String, ◌≡◌, refl, ap, sym, ◌∙◌, Bool, true, false, ◌||◌, Option, none, some, List, [],
  ◌∷◌, ◌==◌, contains, is_empty, All, eq_iff, if◌then◌else◌, Bool-cases, inl, inr,
}
use aki_rag_middleware.Python.Values.{Runtime, Value, Fields}
use aki_rag_middleware.Store.Sql.Keys.{eq_comm}
use aki_rag_middleware.Search.Keys.{multi_probe_document_key, key-merge_retrieval_provenance}
use aki_rag_middleware.Search.Probes.{
  Scores, Entry, insert_entry, sort_entries, place_entry, scan_ranking, scan_rankings,
}
use aki_rag_middleware.Search.Fusion.{score_of, score_of-place_entry}

-- Every key stands in one entry.
abbrev pub IsUnique : List Entry → Type 0
IsUnique [] = Unit
IsUnique (e ∷ es) = (score_of e.key es ≡ none) × IsUnique es

-- The key of an entry is that of its document.
abbrev pub Keyed : Runtime → Entry → Type 0
Keyed py e = multi_probe_document_key py e.item ≡ e.key

module _ (sc : Scores) (py : Runtime) (equal : Value → Value → Bool) where
  IsUnique-place_entry :
      (rrf_k : ℕ) (query : String) (rank : ℕ) (key : String) (item : Fields) (es : List Entry)
      → IsUnique es
      → IsUnique (place_entry sc py equal rrf_k query rank key item es)
  unfolding place_entry
  IsUnique-place_entry rrf_k query rank key item [] u = (refl, tt)
  IsUnique-place_entry rrf_k query rank key item (e ∷ es) (h, u) =
      elim (Bool-cases (e.key == key)) [
        | inl same ↦ rw same (h, u)
        | inr other ↦ rw other (
          score_of-place_entry sc py equal rrf_k query rank key item es e.key
              ∙ rw (eq_comm key e.key, other) h,
          IsUnique-place_entry rrf_k query rank key item es u,
        )
      ]

  Keyed-place_entry :
      (rrf_k : ℕ) (query : String) (rank : ℕ) (item : Fields) (es : List Entry)
      → All (Keyed py) es
      → All
          (Keyed py)
          (place_entry sc py equal rrf_k query rank (multi_probe_document_key py item) item es)
  unfolding place_entry
  Keyed-place_entry rrf_k query rank item [] k = (refl, tt)
  Keyed-place_entry rrf_k query rank item (e ∷ es) (h, k) =
      elim (Bool-cases (e.key == multi_probe_document_key py item)) [
        | inl same ↦ rw same (key-merge_retrieval_provenance equal py e.item item ∙ h, k)
        | inr other ↦ rw other (h, Keyed-place_entry rrf_k query rank item es k)
      ]

  abbrev pub IsFused : List Entry → Type 0
  IsFused es = IsUnique es × All (Keyed py) es

  scan_ranking-IsFused :
      (rrf_k : ℕ) (query : String) (rank : ℕ) (seen : List String) (items : List Fields)
      (es : List Entry)
      → IsFused es
      → IsFused (scan_ranking sc py equal rrf_k query rank seen items es)
  unfolding scan_ranking
  scan_ranking-IsFused rrf_k query rank seen [] es f = f
  scan_ranking-IsFused rrf_k query rank seen (item ∷ items) es (u, k) =
      let key = multi_probe_document_key py item in
      elim (Bool-cases (is_empty key || contains seen key)) [
        | inl skip ↦ rw skip (scan_ranking-IsFused rrf_k query (suc rank) seen items es (u, k))
        | inr fresh ↦ rw fresh (
            scan_ranking-IsFused rrf_k query (suc rank) (key ∷ seen) items
              (place_entry sc py equal rrf_k query rank key item es)
              (
                IsUnique-place_entry rrf_k query rank key item es u,
                Keyed-place_entry rrf_k query rank item es k,
              ))
      ]

  pub scan_rankings-IsFused :
      (rrf_k : ℕ) (rankings : List (String × List Fields)) (es : List Entry)
      → IsFused es
      → IsFused (scan_rankings sc py equal rrf_k rankings es)
  unfolding scan_rankings
  scan_rankings-IsFused rrf_k [] es f = f
  scan_rankings-IsFused rrf_k ((query, ranking) ∷ rankings) es f =
      scan_rankings-IsFused rrf_k rankings (scan_ranking sc py equal rrf_k query 1 [] ranking es)
        (scan_ranking-IsFused rrf_k query 1 [] ranking es f)

module _ (sc : Scores) where
  score_of-insert_entry :
      (x : Entry) (es : List Entry) (k : String)
      → score_of x.key es ≡ none
      → score_of k (insert_entry sc x es) ≡ score_of k (x ∷ es)
  unfolding insert_entry
  score_of-insert_entry x [] k h = refl
  score_of-insert_entry x (e ∷ es) k h = elim (Bool-cases (sc.below x.score e.score)) [
    | inr stay ↦ rw stay refl
    | inl pass ↦ elim (Bool-cases (e.key == x.key)) [
      | inl same ↦ absurd (cc (rw same at h))
      | inr other ↦
          let rest = score_of-insert_entry x es k (rw other at h) in
          rw (pass, rest)
            (swap (some e.score) (some x.score) (score_of k es) (x.key == k) (e.key == k)
              (λ a b. differ a b other))
    ]
  ]
    where
      differ : x.key == k ≡ true → e.key == k ≡ true → (e.key == x.key) ≡ false → true ≡ false
      differ a b c =
          let p = (eq_iff x.key k).0 a in
          let q = (eq_iff e.key k).0 b in let r = (eq_iff e.key x.key).1 (q ∙ sym p) in sym r ∙ c

      swap :
          (u v w : Option Value) (a b : Bool)
          → (a ≡ true → b ≡ true → true ≡ false)
          → (if b then u else (if a then v else w)) ≡ (if a then v else (if b then u else w))
      swap u v w true true f = let n = f refl refl in cc
      swap u v w true false f = refl
      swap u v w false b f = refl

  IsUnique-insert_entry :
      (x : Entry) (es : List Entry)
      → score_of x.key es ≡ none
      → IsUnique es
      → IsUnique (insert_entry sc x es)
  unfolding insert_entry
  IsUnique-insert_entry x [] h u = (h, tt)
  IsUnique-insert_entry x (e ∷ es) h (a, u) = elim (Bool-cases (sc.below x.score e.score)) [
    | inr stay ↦ rw stay (h, (a, u))
    | inl pass ↦ elim (Bool-cases (e.key == x.key)) [
      | inl same ↦ absurd (cc (rw same at h))
      | inr other ↦ rw pass (
        score_of-insert_entry x es e.key (rw other at h) ∙ rw (eq_comm x.key e.key, other) a,
        IsUnique-insert_entry x es (rw other at h) u,
      )
    ]
  ]

  All-insert_entry :
      (P : Entry → Type 0) (x : Entry) (es : List Entry)
      → P x
      → All P es
      → All P (insert_entry sc x es)
  unfolding insert_entry
  All-insert_entry P x [] h k = (h, tt)
  All-insert_entry P x (e ∷ es) h (a, k) = elim (Bool-cases (sc.below x.score e.score)) [
    | inr stay ↦ rw stay (h, (a, k))
    | inl pass ↦ rw pass (a, All-insert_entry P x es h k)
  ]

  pub sort_entries-same :
      (es : List Entry) (k : String)
      → IsUnique es
      → (score_of k (sort_entries sc es) ≡ score_of k es) × IsUnique (sort_entries sc es)
  unfolding sort_entries
  sort_entries-same [] k u = (refl, tt)
  sort_entries-same (e ∷ es) k (a, u) =
      let absent = (sort_entries-same es e.key u).0 ∙ a in
      (
        score_of-insert_entry e (sort_entries sc es) k absent
            ∙ ap (λ o. if e.key == k then some e.score else o) (sort_entries-same es k u).0,
        IsUnique-insert_entry e (sort_entries sc es) absent (sort_entries-same es k u).1,
      )

  pub All-sort_entries :
      (P : Entry → Type 0) (es : List Entry) → All P es → All P (sort_entries sc es)
  unfolding sort_entries
  All-sort_entries P [] k = tt
  All-sort_entries P (e ∷ es) (h, k) =
      All-insert_entry P e (sort_entries sc es) h (All-sort_entries P es k)
