-- ===== src/Search/Absorbed.antt =====
-- How a representative of `deduplicate_for_reranker` and `deduplicate_retrieval_arm` of rag/search.py
-- takes a candidate in.
use mathlib.Core.Path.{subst}
use aki_rag_middleware.Prelude.{
  suc, ◌+◌, String, ◌≡◌, refl, ap, sym, ◌∙◌, Bool, true, false, ◌||◌, Option, some, List, [], ◌∷◌,
  any, any-append, map, length, length-append, arith, eq_refl, if◌then◌else◌, Bool-cases,
  Option-cases, inl, inr,
}
use aki_rag_middleware.Python.Values.{Runtime, Value, int, list, dict, nil, cons, Fields}
use aki_rag_middleware.Python.Fields.{get, lookup}
use aki_rag_middleware.Search.Provenance.{
  text_at, document_text, values_in, count_values, merge_duplicate_variants,
}
use aki_rag_middleware.Search.Similar.{Patterns, Paths, Matcher, Reason}
use aki_rag_middleware.Search.Variant.{Links, duplicate_variant}
use aki_rag_middleware.Search.Dedup.{
  Candidate, finished, duplicate_reason, absorb, absorb_first, admitted, or_admit, is_new,
}
use aki_rag_middleware.Search.Represented.{
  stands_for, document_text-put, variants_of-put, dict_items-values_in, stands_for-merge,
  stands_for-new, stands_for-pop_all,
}

or_right : (a : Bool) {b : Bool} → b ≡ true → (a || b) ≡ true
or_right true h = refl
or_right false h = h

abbrev pub standing : Runtime → String → List Candidate → Bool
standing py id reps = any (λ r. stands_for py id r.item) reps

pub any-finished :
    (py : Runtime) (id : String) (reps : List Candidate)
    → any (stands_for py id) (map finished reps) ≡ standing py id reps
any-finished py id [] = refl
any-finished py id (r ∷ rs) = rw (stands_for-pop_all py id r.item, any-finished py id rs) refl

-- `inherit` leaves what a record stands for.
module _ (py : Runtime) (inherit : Fields → Fields → Fields) (patterns : Patterns) (paths : Paths)
    (matcher : Matcher) (links : Links)
    (keeps : (id : String) (target source : Fields)
      → stands_for py id (inherit target source) ≡ stands_for py id target) where
  document_text-variant :
      (item : Fields) (reason : String) (similarity : Value)
      → document_text py (duplicate_variant py paths links item reason similarity)
        ≡ document_text py item
  unfolding duplicate_variant text_at get lookup
  document_text-variant item reason similarity = refl

  stands_for-absorb :
      (id : String) (c r : Candidate) (reason : Reason)
      → stands_for py id r.item ≡ true
      → stands_for py id (absorb py inherit patterns paths matcher links c r reason).item ≡ true
  stands_for-absorb id c r (reason, similarity) h =
      stands_for-merge py id _ _ (stands_for-merge py id _ _ (keeps id r.item c.item ∙ h))

  absorb-stands_for :
      (c r : Candidate) (reason : Reason)
      → stands_for py
          (document_text py c.item)
          (absorb py inherit patterns paths matcher links c r reason).item
        ≡ true
  absorb-stands_for c r (reason, similarity) =
      let variant = duplicate_variant py paths links c.item reason similarity in
      stands_for-merge py (document_text py c.item) _ _ (
        ap
          (λ id.
            stands_for py id (
              merge_duplicate_variants py (inherit r.item c.item) (list (cons (dict variant) nil))))
          (sym (document_text-variant c.item reason similarity))
        ∙ stands_for-new py (inherit r.item c.item) variant)

  admitted-stands_for :
      (id : String) (c : Candidate)
      → stands_for py id c.item ≡ true
      → stands_for py id (admitted py inherit patterns paths matcher links c).item ≡ true
  unfolding admitted
  admitted-stands_for id c h =
      let variants = values_in (get c.item "duplicate_variants") in
      rw
        (
          variants_of-put (int (1 + count_values variants)) variants c.item,
          dict_items-values_in (get c.item "duplicate_variants"),
          document_text-put py (int (1 + count_values variants)) (list variants) c.item,
        )
        h

  -- What it means that a candidate was taken in by one of the representatives.
  record Taken (c : Candidate) (reps merged : List Candidate) : Type 0 where
    same_length : length merged ≡ length reps
    taken : standing py (document_text py c.item) merged ≡ true
    kept : (id : String) → standing py id reps ≡ true → standing py id merged ≡ true

  some_inj :
      (xs ys : List Candidate) → ◌≡◌ {A = Option (List Candidate)} (some xs) (some ys) → xs ≡ ys
  some_inj xs ys h = cc

  absorb_first-Taken :
      (c : Candidate) (reps merged : List Candidate)
      → absorb_first py inherit patterns paths matcher links c reps ≡ some merged
      → Taken c reps merged
  unfolding absorb_first
  absorb_first-Taken c [] merged h = absurd (cc)
  absorb_first-Taken c (r ∷ rs) merged h =
      elim (Option-cases (duplicate_reason py inherit patterns paths matcher links c r)) [
        | inr (reason, found) ↦
            let e =
              some_inj (absorb py inherit patterns paths matcher links c r reason ∷ rs) merged
                (rw found at h) in
            subst (Taken c (r ∷ rs)) e (record {
              same_length = refl;
              taken = rw (absorb-stands_for c r reason) refl;
              kept = λ id k. first_kept id reason k;
            })
        | inl different ↦
            elim (Option-cases (absorb_first py inherit patterns paths matcher links c rs)) [
              | inl nowhere ↦ absurd (cc (rw (different, nowhere) at h))
              | inr (rest, later) ↦
                  let t = absorb_first-Taken c rs rest later in
                  let e = some_inj (r ∷ rest) merged (rw (different, later) at h) in
                  subst (Taken c (r ∷ rs)) e (record {
                    same_length = ap suc t.same_length;
                    taken = or_right (stands_for py (document_text py c.item) r.item) t.taken;
                    kept = λ id k. ground (arith, t.kept id);
                  })
            ]
      ]
    where
      first_kept :
          (id : String) (reason : Reason)
          → standing py id (r ∷ rs) ≡ true
          → standing py id (absorb py inherit patterns paths matcher links c r reason ∷ rs) ≡ true
      first_kept id reason k = elim (Bool-cases (stands_for py id r.item)) [
        | inl own ↦ rw (stands_for-absorb id c r reason own) refl
        | inr other ↦ or_right _ (rw other at k)
      ]

  -- One round: the record is stood for, nothing is lost, and at most one representative is added.
  pub record Round (c : Candidate) (reps next : List Candidate) (added : Bool) : Type 0 where
    pub grown : length next ≡ (if added then suc (length reps) else length reps)
    pub taken : standing py (document_text py c.item) next ≡ true
    pub kept : (id : String) → standing py id reps ≡ true → standing py id next ≡ true

  pub or_admit-Round :
      (c : Candidate) (reps : List Candidate)
      → Round c reps
          (or_admit py inherit patterns paths matcher links c reps
            (absorb_first py inherit patterns paths matcher links c reps))
          (is_new py inherit patterns paths matcher links
            (absorb_first py inherit patterns paths matcher links c reps))
  or_admit-Round c reps =
      elim (Option-cases (absorb_first py inherit patterns paths matcher links c reps)) [
        | inr (merged, found) ↦
            let t = absorb_first-Taken c reps merged found in
            rw found (record { grown = t.same_length; taken = t.taken; kept = t.kept })
        | inl alone ↦
            let new = admitted py inherit patterns paths matcher links c in
            rw alone (record {
              grown = omega (arith, length-append reps (new ∷ []));
              taken =
                  any-append (λ r. stands_for py (document_text py c.item) r.item) reps (new ∷ [])
                  ∙ or_right (standing py (document_text py c.item) reps) (own new);
              kept = λ id h. any-append (λ r. stands_for py id r.item) reps (new ∷ []) ∙ rw h refl;
            })
      ]
    where
      own :
          (new : Candidate)
          → standing py
              (document_text py c.item)
              (admitted py inherit patterns paths matcher links c ∷ [])
            ≡ true
      own new =
          rw
            (admitted-stands_for (document_text py c.item) c
              (rw (eq_refl (document_text py c.item)) refl))
            refl
