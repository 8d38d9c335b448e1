-- ===== src/Signal/Weights.antt =====
-- The weights that `choose_retrieval_strategy` gives, and the bounds of `overlap_at_k`
-- (rag/retrieval_signal.py).
use aki_rag_middleware.Prelude.{
  ℕ, zero, suc, ◌≤◌, String, ◌≡◌, refl, Bool, true, false, not, ◌&&◌, List, [], ◌∷◌, arith,
  contains, filter, length, take, length-filter-le, length-take-le, max, is_empty, if◌then◌else◌,
}
use aki_rag_middleware.Signal.{
  Floats, Strategy, no_results, unspecific, es_preferred, vector_preferred, fusion, Profile, Tuning,
  Choice, is_weak, dominates, secondary_floor, secondary_weight, choose_between,
  choose_retrieval_strategy, overlap_at_k, distinct, choice, max_f,
}

module _ (F : Floats) where
  open F use {Float, zero_f, one_f}

  -- What each strategy says of the weights.
  abbrev pub FitsStrategy : Strategy → Choice F → Type 0
  FitsStrategy no_results c = (c.es_weight ≡ zero_f) × (c.vector_weight ≡ zero_f)
  FitsStrategy unspecific c = (c.es_weight ≡ zero_f) × (c.vector_weight ≡ zero_f)
  FitsStrategy es_preferred c = c.es_weight ≡ one_f
  FitsStrategy vector_preferred c = c.vector_weight ≡ one_f
  FitsStrategy fusion c = (c.es_weight ≡ one_f) × (c.vector_weight ≡ one_f)

  abbrev pub Fits : Choice F → Type 0
  Fits c = FitsStrategy c.strategy c

  between-Fits :
      (a b c d e : Bool) (s t u v : Float)
      → Fits (
          if a
          then choice F unspecific zero_f zero_f
          else if b
          then choice F vector_preferred s one_f
          else if c
          then choice F es_preferred one_f t
          else if d
          then choice F es_preferred one_f u
          else if e
          then choice F vector_preferred v one_f
          else choice F fusion one_f one_f)
  between-Fits true b c d e s t u v = (refl, refl)
  between-Fits false true c d e s t u v = refl
  between-Fits false false true d e s t u v = refl
  between-Fits false false false true e s t u v = refl
  between-Fits false false false false true s t u v = refl
  between-Fits false false false false false s t u v = (refl, refl)

  abbrev by_availability : Bool → Bool → Bool → Bool → Choice F → Choice F
  by_availability ea va ew vw c =
      if not ea && not va
      then choice F no_results zero_f zero_f
      else if ea && not va
      then (if ew then choice F unspecific zero_f zero_f else choice F es_preferred one_f zero_f)
      else if va && not ea
      then (if vw
          then choice F unspecific zero_f zero_f
          else choice F vector_preferred zero_f one_f)
      else c

  by_availability-Fits :
      (ea va ew vw : Bool) (c : Choice F)
      → Fits c
      → Fits (by_availability ea va ew vw c)
        × (ea ≡ false → (by_availability ea va ew vw c).es_weight ≡ zero_f)
        × (va ≡ false → (by_availability ea va ew vw c).vector_weight ≡ zero_f)
  by_availability-Fits true true ew vw c h = (h, (λ e. cc), (λ e. cc))
  by_availability-Fits true false true vw c h = ((refl, refl), (λ e. refl), (λ e. refl))
  by_availability-Fits true false false vw c h = (refl, (λ e. cc), (λ e. refl))
  by_availability-Fits false true ew true c h = ((refl, refl), (λ e. refl), (λ e. refl))
  by_availability-Fits false true ew false c h = (refl, (λ e. refl), (λ e. cc))
  by_availability-Fits false false ew vw c h = ((refl, refl), (λ e. refl), (λ e. refl))

  choose_between-Fits : (t : Tuning F) (es vector : Profile F) → Fits (choose_between F t es vector)
  unfolding choose_between
  choose_between-Fits t es vector =
      let weak = λ (p : Profile F). is_weak F (max_f F zero_f t.unspecific_signal_floor) p in
      between-Fits (weak es && weak vector) (weak es && not (weak vector))
        (weak vector && not (weak es)) (dominates F t es.signal_strength vector.signal_strength)
        (dominates F t vector.signal_strength es.signal_strength) (secondary_floor F t)
        (secondary_floor F t) (secondary_weight F t vector.signal_strength es.signal_strength)
        (secondary_weight F t es.signal_strength vector.signal_strength)

  abbrev chosen : Tuning F → Profile F → Profile F → Choice F
  chosen = choose_retrieval_strategy F

  all-Fits :
      (t : Tuning F) (es vector : Profile F)
      → Fits (chosen t es vector)
        × (es.available ≡ false → (chosen t es vector).es_weight ≡ zero_f)
        × (vector.available ≡ false → (chosen t es vector).vector_weight ≡ zero_f)
  unfolding choose_retrieval_strategy
  all-Fits t es vector =
      let floor = max_f F zero_f t.unspecific_signal_floor in
      by_availability-Fits es.available vector.available (is_weak F floor es)
        (is_weak F floor vector) (choose_between F t es vector) (choose_between-Fits t es vector)

  -- The strategy agrees with the weights: an arm that is preferred has weight one, in a fusion both
  -- have, and without results or with an unspecific field both have zero.
  choose-Fits :
      (t : Tuning F) (es vector : Profile F) → Fits (choose_retrieval_strategy F t es vector)
  choose-Fits t es vector = (all-Fits t es vector).0

  -- Where Elasticsearch has no results its weight is zero.
  absent_es_weight :
      (t : Tuning F) (es vector : Profile F)
      → es.available ≡ false
      → (choose_retrieval_strategy F t es vector).es_weight ≡ zero_f
  absent_es_weight t es vector = (all-Fits t es vector).1

  -- Where the vector search has no results its weight is zero.
  absent_vector_weight :
      (t : Tuning F) (es vector : Profile F)
      → vector.available ≡ false
      → (choose_retrieval_strategy F t es vector).vector_weight ≡ zero_f
  absent_vector_weight t es vector = (all-Fits t es vector).2

length-distinct-le : (F : Floats) (xs : List String) → length (distinct F xs) ≤ length xs
length-distinct-le F [] = omega arith
length-distinct-le F (x ∷ xs) = ground (arith, length-distinct-le F xs)

length-take-le_all : (n : ℕ) (xs : List String) → length (take n xs) ≤ length xs
length-take-le_all zero xs = omega arith
length-take-le_all (suc n) [] = omega arith
length-take-le_all (suc n) (x ∷ xs) = omega (arith, length-take-le_all n xs)

-- The overlap is at most the depth, and at most the entries of the first list.
overlap_at_k_bounds :
    (F : Floats) (left right : List String) (k : ℕ)
    → ((overlap_at_k F left right k).common ≤ max 1 k)
      × ((overlap_at_k F left right k).common ≤ length (filter (λ s. not (is_empty s)) left))
unfolding overlap_at_k
overlap_at_k_bounds F left right k =
    let named = filter (λ s. not (is_empty s)) left in
    let kept = take (max 1 k) named in
    omega (
      arith,
      length-filter-le (contains (take (max 1 k) (filter (λ s. not (is_empty s)) right)))
          (distinct F kept),
      length-distinct-le F kept,
      length-take-le (max 1 k) named,
      length-take-le_all (max 1 k) named,
    )
