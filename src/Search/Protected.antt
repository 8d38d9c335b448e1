-- ===== src/Search/Protected.antt =====
-- `_arm_head_document_ids` of rag/search.py, and where `deduplicate_for_reranker` puts those ids.
use aki_rag_middleware.Prelude.{
  ℕ, zero, suc, ◌+◌, ◌≤◌, String, ◌≡◌, refl, ap, sym, ◌∙◌, Bool, true, false, ◌&&◌, ◌||◌, none,
  some, List, [], ◌∷◌, ◌++◌, ◌==◌, any, All, contains, contains-append, is_empty, length,
  length-append, length-take-le, take, arith, eq_iff, Bool-cases, inl, inr,
}
use aki_rag_middleware.Python.Values.{Runtime, Fields}
use aki_rag_middleware.Search.Provenance.{document_text, ids_of}
use aki_rag_middleware.Search.Dedup.{
  protect, protect_arms, arm_items, sort_ranked, head_items, has_id, by_id,
}
use aki_rag_middleware.Search.Ranked.{All-arm_items, All-sort_ranked, All-take}

-- The most heads of the arms.
abbrev pub room : List String → ℕ → ℕ
room [] n = 0
room (key ∷ keys) n = n + room keys n

or_right : (a b : Bool) → b ≡ true → (a || b) ≡ true
or_right true b h = refl
or_right false b h = h

module _ (py : Runtime) (fused : List Fields) where
  -- An id of a record that is there.
  abbrev pub Known : String → Type 0
  Known id = any (has_id py id) fused ≡ true

  Known-All : (xs ys : List Fields) → xs ++ ys ≡ fused → All (λ d. Known (document_text py d)) ys
  Known-All xs [] e = tt
  Known-All xs (y ∷ ys) e = (known, Known-All (xs ++ y ∷ []) ys (shifted xs y ys ∙ e))
    where
      shifted :
          (xs : List Fields) (y : Fields) (ys : List Fields) → (xs ++ y ∷ []) ++ ys ≡ xs ++ (y ∷ ys)
      shifted [] y ys = refl
      shifted (x ∷ xs) y ys = ap (λ r. x ∷ r) (shifted xs y ys)

      among :
          (id : String) (xs : List Fields)
          → document_text py y ≡ id
          → any (has_id py id) (xs ++ (y ∷ ys)) ≡ true
      among id [] h = rw ((eq_iff (document_text py y) id).1 h) refl
      among id (x ∷ xs) h = ground (arith, among id xs h)

      known : Known (document_text py y)
      known = ap (any (has_id py (document_text py y))) (sym e) ∙ among (document_text py y) xs refl

  All-protect :
      (ds : List Fields) (protected : List String)
      → All (λ d. Known (document_text py d)) ds
      → All Known protected
      → All Known (protect py ds protected)
  unfolding protect
  All-protect [] protected h k = k
  All-protect (d ∷ ds) protected (a, h) k =
      elim (Bool-cases (is_empty (document_text py d) || contains protected (document_text py d))) [
        | inl e ↦ rw e (All-protect ds protected h k)
        | inr e ↦ rw e (
            All-protect ds (protected ++ document_text py d ∷ []) h
              (joined protected (document_text py d) k a))
      ]
    where
      joined :
          (ids : List String) (id : String) → All Known ids → Known id → All Known (ids ++ id ∷ [])
      joined [] id k a = (a, tt)
      joined (i ∷ ids) id (b, k) a = (b, joined ids id k a)

  pub All-protect_arms :
      (keys : List String) (n : ℕ) (protected : List String)
      → All Known protected
      → All Known (protect_arms py keys n fused protected)
  unfolding protect_arms
  All-protect_arms [] n protected k = k
  All-protect_arms (key ∷ keys) n protected k =
      let known = Known-All [] fused refl in
      All-protect_arms keys n _ (
        All-protect (take n (sort_ranked key (arm_items key fused))) protected
          (All-take (λ d. Known (document_text py d)) n _
            (All-sort_ranked (λ d. Known (document_text py d)) key _
              (All-arm_items (λ d. Known (document_text py d)) key fused known)))
          k)

module _ (py : Runtime) where
  by_id-some :
      (id : String) (ds : List Fields)
      → any (has_id py id) ds ≡ true
      → (d : Fields) × (by_id py id ds ≡ some d) × (document_text py d ≡ id)
  unfolding by_id
  by_id-some id [] h = absurd (cc)
  by_id-some id (d ∷ ds) h = elim (Bool-cases (any (has_id py id) ds)) [
    | inl later ↦ let (e, found, own) = by_id-some id ds later in (e, rw found refl, own)
    | inr none_later ↦
        let own : has_id py id d ≡ true = ground arith in
        (d, rw (by_id-none id ds none_later, own) refl, (eq_iff (document_text py d) id).0 own)
  ]
    where
      by_id-none :
          (id : String) (ds : List Fields) → any (has_id py id) ds ≡ false → by_id py id ds ≡ none
      by_id-none id [] h = refl
      by_id-none id (d ∷ ds) h =
          let a : any (has_id py id) ds ≡ false = ground arith in
          let b : has_id py id d ≡ false = ground arith in rw (by_id-none id ds a, b) refl

  pub ids_of-head_items :
      (ids : List String) (fused : List Fields)
      → All (Known py fused) ids
      → ids_of py (head_items py ids fused) ≡ ids
  unfolding head_items
  ids_of-head_items [] fused h = refl
  ids_of-head_items (id ∷ ids) fused (a, h) =
      let (d, found, own) = by_id-some id fused a in
      rw found (
        ap (λ i. i ∷ ids_of py (head_items py ids fused)) own
        ∙ ap (λ r. id ∷ r) (ids_of-head_items ids fused h))

  pub ids_of-take :
      (n : ℕ) (xs ys : List Fields) (id : String)
      → length (ids_of py xs) ≤ n
      → contains (ids_of py xs) id ≡ true
      → contains (ids_of py (take n (xs ++ ys))) id ≡ true
  ids_of-take n [] ys id h k = cc
  ids_of-take zero (x ∷ xs) ys id h k = absurd (omega arith)
  ids_of-take (suc n) (x ∷ xs) ys id h k = elim (Bool-cases (document_text py x == id)) [
    | inl own ↦ rw own refl
    | inr other ↦ rw other (ids_of-take n xs ys id (omega arith) (rw other at k))
  ]

  -- What is protected: what was, and every id of the records.
  protect-contains :
      (ds : List Fields) (protected : List String) (id : String)
      → is_empty id ≡ false
      → (contains protected id || contains (ids_of py ds) id) ≡ true
      → contains (protect py ds protected) id ≡ true
  unfolding protect
  protect-contains [] protected id h k = ground arith
  protect-contains (d ∷ ds) protected id h k =
      let own = document_text py d in
      elim (Bool-cases (is_empty own || contains protected own)) [
        | inl skip ↦ rw skip (protect-contains ds protected id h (passed own skip refl))
        | inr fresh ↦ rw fresh (
            protect-contains ds (protected ++ own ∷ []) id h
              (rw (contains-append protected (own ∷ []) id) (ground arith)))
      ]
    where
      passed :
          (own : String)
          → (is_empty own || contains protected own) ≡ true
          → (own ≡ document_text py d)
          → (contains protected id || contains (ids_of py ds) id) ≡ true
      passed own skip same = elim (Bool-cases (document_text py d == id)) [
        | inl e ↦
            let there : own ≡ id = same ∙ (eq_iff (document_text py d) id).0 e in
            let filled : is_empty own ≡ false = ap is_empty there ∙ h in
            let held : contains protected id ≡ true =
              ap (contains protected) (sym there) ∙ (rw filled at skip) in
            rw held refl
        | inr other ↦ rw other at k
      ]

  length-protect :
      (ds : List Fields) (protected : List String)
      → length (protect py ds protected) ≤ length protected + length ds
  unfolding protect
  length-protect [] protected = omega arith
  length-protect (d ∷ ds) protected =
      let own = document_text py d in
      elim (Bool-cases (is_empty own || contains protected own)) [
        | inl e ↦ rw e (omega (arith, length-protect ds protected))
        | inr e ↦ rw e (
            omega (
              arith,
              length-protect ds (protected ++ own ∷ []),
              length-append protected (own ∷ []),
            ))
      ]

  pub length-protect_arms :
      (keys : List String) (n : ℕ) (fused : List Fields) (protected : List String)
      → length (protect_arms py keys n fused protected) ≤ length protected + room keys n
  unfolding protect_arms
  length-protect_arms [] n fused protected = omega arith
  length-protect_arms (key ∷ keys) n fused protected =
      let heads = take n (sort_ranked key (arm_items key fused)) in
      let a = length-protect_arms keys n fused (protect py heads protected) in
      let b = length-protect heads protected in
      let c = length-take-le n (sort_ranked key (arm_items key fused)) in
      more (length protected) (room keys n) a b c
    where
      more : {a b c : ℕ} (d e : ℕ) → a ≤ b + e → b ≤ d + c → c ≤ n → a ≤ d + (n + e)
      more d e h k l = omega arith

  pub protect_arms-contains :
      (keys : List String) (key : String) (n : ℕ) (fused : List Fields) (protected : List String)
      (id : String)
      → is_empty id ≡ false
      → (contains protected id
          || (contains keys key
              && contains (ids_of py (take n (sort_ranked key (arm_items key fused)))) id))
        ≡ true
      → contains (protect_arms py keys n fused protected) id ≡ true
  unfolding protect_arms
  protect_arms-contains [] key n fused protected id h k = ground arith
  protect_arms-contains (k0 ∷ keys) key n fused protected id h k =
      let heads = take n (sort_ranked k0 (arm_items k0 fused)) in
      let step = protect-contains heads protected id h in
      protect_arms-contains keys key n fused (protect py heads protected) id h
        (elim (Bool-cases (k0 == key)) [
          | inl own ↦
              let e = (eq_iff k0 key).0 own in
              let there : (contains protected id || contains (ids_of py heads) id) ≡ true =
                ap
                  (λ x.
                    contains protected id
                    || contains (ids_of py (take n (sort_ranked x (arm_items x fused)))) id)
                  e
                ∙ (rw own at k) in
              rw (step there) refl
          | inr other ↦
              let there = rw other at k in
              elim (Bool-cases (contains protected id)) [
                | inl old ↦ rw (step (rw old refl)) refl
                | inr new ↦ or_right (contains (protect py heads protected) id) _ (rw new at there)
              ]
        ])
