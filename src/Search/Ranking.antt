-- ===== src/Search/Ranking.antt =====
-- The result of `_merge_probe_rankings` of rag/search.py: each document once, with its score, the
-- highest score first.
use aki_rag_middleware.Prelude.{
  ℕ, suc, String, ◌≡◌, refl, ◌∙◌, Bool, true, false, Option, none, some, List, [], ◌∷◌, ◌==◌, All,
  if◌then◌else◌, Bool-cases, inl, inr,
}
use aki_rag_middleware.Python.Values.{Runtime, Value, int, list, Fields}
use aki_rag_middleware.Python.Fields.{put, lookup, lookup-put}
use aki_rag_middleware.Search.Keys.{multi_probe_document_key, key-put}
use aki_rag_middleware.Search.Probes.{
  Scores, Entry, insert_entry, sort_entries, scan_rankings, merge_probe_rankings, number_items,
  scored_item, hit_values,
}
use aki_rag_middleware.Search.Fusion.{score_of, rrf, score_of-scan_rankings}
use aki_rag_middleware.Search.Unique.{
  Keyed, sort_entries-same, All-sort_entries, scan_rankings-IsFused,
}

-- The score of the first record with a key.
abbrev pub score_in : Runtime → String → List Fields → Option Value
score_in py key [] = none
score_in py key (d ∷ ds) =
    if multi_probe_document_key py d == key then lookup "probe_rrf_score" d else score_in py key ds

-- The first record of a list is not below any later one.
abbrev pub IsDescending : Scores → List Entry → Type 0
IsDescending sc [] = Unit
IsDescending sc (e ∷ es) = All (λ f. sc.below e.score f.score ≡ false) es × IsDescending sc es

-- What is relied on of `<` on scores, none of which is a NaN.
pub record IsOrdered (sc : Scores) : Type 0 where
  pub asym : (a b : Value) → sc.below a b ≡ true → sc.below b a ≡ false
  pub transfer :
      (a b c : Value) → sc.below a b ≡ false → sc.below b c ≡ false → sc.below a c ≡ false

module _ (sc : Scores) (order : IsOrdered sc) where
  IsDescending-insert_entry :
      (x : Entry) (es : List Entry) → IsDescending sc es → IsDescending sc (insert_entry sc x es)
  unfolding insert_entry
  IsDescending-insert_entry x [] d = (tt, tt)
  IsDescending-insert_entry x (e ∷ es) (a, d) = elim (Bool-cases (sc.below x.score e.score)) [
    | inr stay ↦
        rw stay ((stay, All_map (λ f. order.transfer x.score e.score f.score stay) es a), (a, d))
    | inl pass ↦ rw pass (
      All_inserted (λ f. sc.below e.score f.score ≡ false) x es (order.asym x.score e.score pass) a,
      IsDescending-insert_entry x es d,
    )
  ]
    where
      All_map :
          {P Q : Entry → Type 0} (f : (e : Entry) → P e → Q e) (es : List Entry)
          → All P es
          → All Q es
      All_map f [] h = tt
      All_map f (e ∷ es) (p, h) = (f e p, All_map f es h)

      All_inserted :
          (P : Entry → Type 0) (x : Entry) (es : List Entry)
          → P x
          → All P es
          → All P (insert_entry sc x es)
      All_inserted P x [] p h = (p, tt)
      All_inserted P x (e ∷ es) p (q, h) = elim (Bool-cases (sc.below x.score e.score)) [
        | inr stay ↦ rw stay (p, (q, h))
        | inl pass ↦ rw pass (q, All_inserted P x es p h)
      ]

  pub sort_entries-IsDescending : (es : List Entry) → IsDescending sc (sort_entries sc es)
  unfolding sort_entries
  sort_entries-IsDescending [] = tt
  sort_entries-IsDescending (e ∷ es) =
      IsDescending-insert_entry e (sort_entries sc es) (sort_entries-IsDescending es)

key-scored_item :
    (py : Runtime) (rank : ℕ) (e : Entry)
    → multi_probe_document_key py (put "rrf_rank" (int rank) (scored_item e))
      ≡ multi_probe_document_key py e.item
key-scored_item py rank e =
    key-put py "rrf_rank" (int rank) (scored_item e) refl refl refl
    ∙ key-put py "probe_hits" (list (hit_values e.hits)) _ refl refl refl
    ∙ key-put py "probe_rrf_score" e.score _ refl refl refl
    ∙ key-put py "rrf" e.score e.item refl refl refl

score-scored_item :
    (rank : ℕ) (e : Entry)
    → lookup "probe_rrf_score" (put "rrf_rank" (int rank) (scored_item e)) ≡ some e.score
score-scored_item rank e =
    lookup-put "rrf_rank" "probe_rrf_score" (int rank) (scored_item e)
    ∙ lookup-put "probe_hits" "probe_rrf_score" (list (hit_values e.hits)) _
    ∙ lookup-put "probe_rrf_score" "probe_rrf_score" e.score _

score_in-number_items :
    (py : Runtime) (rank : ℕ) (es : List Entry) (k : String)
    → All (Keyed py) es
    → score_in py k (number_items rank es) ≡ score_of k es
unfolding number_items
score_in-number_items py rank [] k h = refl
score_in-number_items py rank (e ∷ es) k (a, h) =
    rw
      (
        key-scored_item py rank e,
        a,
        score-scored_item rank e,
        score_in-number_items py (suc rank) es k h,
      )
      refl

module _ (sc : Scores) (py : Runtime) (equal : Value → Value → Bool) where
  -- In the joint ranking, the first record of every document carries exactly the sum of its shares,
  -- one for each probe that found it and by its first rank there, and a document that no probe
  -- found is not there.
  pub merge_probe_rankings-rrf :
      (rrf_k : ℕ) (rankings : List (String × List Fields)) (key : String)
      → score_in py key (merge_probe_rankings sc py equal rrf_k rankings)
        ≡ rrf sc py rrf_k key none rankings
  unfolding merge_probe_rankings
  merge_probe_rankings-rrf rrf_k rankings key =
      let es = scan_rankings sc py equal rrf_k rankings [] in
      let fused = scan_rankings-IsFused sc py equal rrf_k rankings [] (tt, tt) in
      score_in-number_items py 1 (sort_entries sc es) key
        (All-sort_entries sc (Keyed py) es fused.1)
      ∙ (sort_entries-same sc es key fused.0).0
      ∙ score_of-scan_rankings sc py equal rrf_k rankings [] key

  -- The records of the joint ranking are numbered from 1 on, and none has a lower score than a
  -- later one.
  merge_probe_rankings-IsDescending :
      (rrf_k : ℕ) (rankings : List (String × List Fields))
      → IsOrdered sc
      → (es : List Entry) × (merge_probe_rankings sc py equal rrf_k rankings ≡ number_items 1 es)
        × IsDescending sc es
  unfolding merge_probe_rankings
  merge_probe_rankings-IsDescending rrf_k rankings order =
      let es = scan_rankings sc py equal rrf_k rankings [] in
      (sort_entries sc es, refl, sort_entries-IsDescending sc order es)
