-- ===== src/Search/Selected.antt =====
-- What the steps of `_preserve_required_after_rerank` of rag/search.py do to the keys of the selection.
use aki_rag_middleware.Prelude.{
  ℕ, zero, suc, ◌≤◌, String, ◌≡◌, refl, ap, sym, ◌∙◌, Bool, true, false, ◌||◌, none, some, List, [],
  ◌∷◌, ◌++◌, ◌==◌, contains, contains-append, length, take, any, All, arith, eq_iff, Bool-cases,
  Option-cases, inl, inr, ◌⊎◌,
}
use aki_rag_middleware.Python.Values.{Runtime, Fields}
use aki_rag_middleware.Search.Keys.{multi_probe_document_key}
use aki_rag_middleware.Search.Required.{
  has_document_key, find_last, keys_of, add_required, drop_optional,
}
use aki_rag_middleware.Search.Distinct.{IsDistinct, IsDistinct-added}

module _ (py : Runtime) where
  keys_of-append : (xs ys : List Fields) → keys_of py (xs ++ ys) ≡ keys_of py xs ++ keys_of py ys
  unfolding keys_of
  keys_of-append [] ys = refl
  keys_of-append (x ∷ xs) ys = ap (λ r. multi_probe_document_key py x ∷ r) (keys_of-append xs ys)

  pub find_last-some :
      (key : String) (ds : List Fields)
      → any (has_document_key py key) ds ≡ true
      → (d : Fields) × (find_last py key ds ≡ some d) × (has_document_key py key d ≡ true)
  unfolding find_last
  find_last-some key [] h = absurd (cc)
  find_last-some key (d ∷ ds) h = elim (Bool-cases (any (has_document_key py key) ds)) [
    | inl later ↦ let (e, found, own) = find_last-some key ds later in (e, rw later found, own)
    | inr none_later ↦
        let own : has_document_key py key d ≡ true = ground arith in
        (d, rw (none_later, own) refl, own)
  ]

  find_last-none :
      (key : String) (ds : List Fields)
      → any (has_document_key py key) ds ≡ false
      → find_last py key ds ≡ none
  unfolding find_last
  find_last-none key [] h = refl
  find_last-none key (d ∷ ds) h =
      let a : any (has_document_key py key) ds ≡ false = ground arith in
      let b : has_document_key py key d ≡ false = ground arith in rw (a, b) refl

  add_required-Keeps :
      (candidates : List Fields) (keys : List String) (selected : List Fields) (k : String)
      → contains (keys_of py selected) k ≡ true
      → contains (keys_of py (add_required py candidates keys selected)) k ≡ true
  unfolding add_required
  add_required-Keeps candidates [] selected k h = h
  add_required-Keeps candidates (key ∷ keys) selected k h =
      add_required-Keeps candidates keys _ k
        (elim (Bool-cases (contains (keys_of py selected) key)) [
          | inl there ↦ rw there h
          | inr missing ↦ rw missing (elim (Option-cases (find_last py key candidates)) [
            | inl absent ↦ rw absent h
            | inr (d, found) ↦ rw found (
                ap (λ xs. contains xs k) (keys_of-append selected (d ∷ []))
                ∙ contains-append (keys_of py selected) (keys_of py (d ∷ [])) k
                ∙ rw h refl)
          ])
        ])

  key_of-found :
      (key : String) (d : Fields)
      → has_document_key py key d ≡ true
      → multi_probe_document_key py d ≡ key
  key_of-found key d h = (eq_iff (multi_probe_document_key py d) key).0 h

  pub add_required-IsDistinct :
      (candidates : List Fields) (keys : List String) (selected : List Fields)
      → IsDistinct (keys_of py selected)
      → IsDistinct (keys_of py (add_required py candidates keys selected))
  unfolding add_required
  add_required-IsDistinct candidates [] selected d = d
  add_required-IsDistinct candidates (key ∷ keys) selected d =
      add_required-IsDistinct candidates keys _
        (elim (Bool-cases (contains (keys_of py selected) key)) [
          | inl there ↦ rw there d
          | inr missing ↦ rw missing (elim (Bool-cases (any (has_document_key py key) candidates)) [
            | inr absent ↦ rw (find_last-none key candidates absent) d
            | inl held ↦
                let (r, found, own) = find_last-some key candidates held in
                rw (found, keys_of-append selected (r ∷ []))
                  (IsDistinct-added (keys_of py selected) (multi_probe_document_key py r) d
                    (ap (contains (keys_of py selected)) (key_of-found key r own) ∙ missing))
          ])
        ])

  pub add_required-found :
      (candidates : List Fields) (keys : List String) (selected : List Fields) (k : String)
      → contains keys k ≡ true
      → any (has_document_key py k) candidates ≡ true
      → contains (keys_of py (add_required py candidates keys selected)) k ≡ true
  unfolding add_required
  add_required-found candidates [] selected k h held = cc
  add_required-found candidates (key ∷ keys) selected k h held = elim (Bool-cases (key == k)) [
    | inr other ↦ add_required-found candidates keys _ k (rw other at h) held
    | inl same ↦
        let e = (eq_iff key k).0 same in
        add_required-Keeps candidates keys _ k
          (elim (Bool-cases (contains (keys_of py selected) key)) [
            | inl there ↦ rw there (ap (contains (keys_of py selected)) (sym e) ∙ there)
            | inr missing ↦
                let (r, found, own) =
                  find_last-some key candidates
                    (ap (λ x. any (has_document_key py x) candidates) e ∙ held) in
                rw (missing, found)
                  (ap (λ xs. contains xs k) (keys_of-append selected (r ∷ []))
                    ∙ contains-append (keys_of py selected) (keys_of py (r ∷ [])) k
                    ∙ last_one (contains (keys_of py selected) k) r (key_of-found key r own ∙ e))
          ])
  ]
    where
      last_one :
          (b : Bool) (r : Fields)
          → multi_probe_document_key py r ≡ k
          → (b || contains (keys_of py (r ∷ [])) k) ≡ true
      last_one b r h =
          let own = (eq_iff (multi_probe_document_key py r) k).1 h in ground (arith, own)

  -- What a round of the loop leaves.
  pub record Dropped (required : List String) (selected rest : List Fields) : Type 0 where
    pub shorter : suc (length rest) ≡ length selected
    pub distinct : IsDistinct (keys_of py selected) → IsDistinct (keys_of py rest)
    pub below :
        (k : String)
        → contains (keys_of py selected) k ≡ false
        → contains (keys_of py rest) k ≡ false
    pub keeps :
        (k : String)
        → contains required k ≡ true
        → contains (keys_of py selected) k ≡ true
        → contains (keys_of py rest) k ≡ true

  pub drop_optional-cases :
      (required : List String) (selected : List Fields)
      → ((drop_optional py required selected ≡ none)
          × All (λ k. contains required k ≡ true) (keys_of py selected))
        ⊎ ((rest : List Fields) × (drop_optional py required selected ≡ some rest)
            × Dropped required selected rest)
  unfolding drop_optional keys_of
  drop_optional-cases required [] = inl (refl, tt)
  drop_optional-cases required (d ∷ ds) = elim (drop_optional-cases required ds) [
    | inr (rest, dropped, r) ↦ inr (
      d ∷ rest,
      rw dropped refl,
      record {
        shorter = ap suc r.shorter;
        distinct = λ u. (r.below (multi_probe_document_key py d) u.0, r.distinct u.1);
        below = λ k h. ground (arith, r.below k);
        keeps = λ k h m. ground (arith, r.keeps k h);
      },
    )
    | inl (all, mandatory) ↦ elim (Bool-cases (contains required (multi_probe_document_key py d))) [
      | inl own ↦ inl (rw (all, own) refl, (own, mandatory))
      | inr optional ↦ inr (
        ds,
        rw (all, optional) refl,
        record {
          shorter = refl;
          distinct = λ u. u.1;
          below = λ k h. ground arith;
          keeps = λ k h m. other_key k h m optional;
        },
      )
    ]
  ]
    where
      other_key :
          (k : String)
          → contains required k ≡ true
          → contains (keys_of py (d ∷ ds)) k ≡ true
          → contains required (multi_probe_document_key py d) ≡ false
          → contains (keys_of py ds) k ≡ true
      other_key k h m optional = elim (Bool-cases (multi_probe_document_key py d == k)) [
        | inl same ↦
            let e = ap (contains required) ((eq_iff (multi_probe_document_key py d) k).0 same) in cc
        | inr other ↦ rw other at m
      ]

  pub length-keys_of : (ds : List Fields) → length (keys_of py ds) ≡ length ds
  unfolding keys_of
  length-keys_of [] = refl
  length-keys_of (d ∷ ds) = ap suc (length-keys_of ds)

  pub IsDistinct-take :
      (n : ℕ) (ds : List Fields) → IsDistinct (keys_of py ds) → IsDistinct (keys_of py (take n ds))
  unfolding keys_of
  IsDistinct-take zero ds d = tt
  IsDistinct-take (suc n) [] d = tt
  IsDistinct-take (suc n) (x ∷ ds) (h, d) =
      (contains-take n ds (multi_probe_document_key py x) h, IsDistinct-take n ds d)
    where
      contains-take :
          (n : ℕ) (ds : List Fields) (k : String)
          → contains (keys_of py ds) k ≡ false
          → contains (keys_of py (take n ds)) k ≡ false
      contains-take zero ds k h = refl
      contains-take (suc n) [] k h = refl
      contains-take (suc n) (x ∷ ds) k h = ground (arith, contains-take n ds k)

  pub take_all : (n : ℕ) (ds : List Fields) → length ds ≤ n → take n ds ≡ ds
  take_all zero [] h = refl
  take_all (suc n) [] h = refl
  take_all zero (d ∷ ds) h = absurd (omega arith)
  take_all (suc n) (d ∷ ds) h = ap (λ r. d ∷ r) (take_all n ds (omega arith))
