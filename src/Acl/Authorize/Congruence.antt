-- ===== src/Acl/Authorize/Congruence.antt =====
-- The groups that `_authorize_with_credential` of rag/acl.py keeps depend on the visible file ids
-- only through the ids that the groups name.
use mathlib.Core.Bool.{or-true}
use aki_rag_middleware.Prelude.{
  String, ◌≡◌, refl, ◌∙◌, Bool, true, false, Option, none, some, List, [], ◌∷◌, ◌++◌, eq_refl,
  contains, contains-append,
}
use aki_rag_middleware.Python.Values.{Runtime, Fields}
use aki_rag_middleware.Acl.Authorize.{
  Group, id_in, id_list, variant_ids, group_ids, visible_variants, promote_first, keep, keep_all,
}

module _ (py : Runtime) where
  module _ (p q : String → Bool) where
    abbrev pub Agree : List String → Type 0
    Agree ids = (n : String) → contains ids n ≡ true → p n ≡ q n

    Agree-left : (xs ys : List String) → Agree (xs ++ ys) → Agree xs
    Agree-left xs ys h n m = h n (contains-append xs ys n ∙ rw m)

    Agree-right : (xs ys : List String) → Agree (xs ++ ys) → Agree ys
    Agree-right xs ys h n m = h n (contains-append xs ys n ∙ rw m (or-true (contains xs n)))

    id_in_congr : (o : Option String) → Agree (id_list o) → id_in p o ≡ id_in q o
    id_in_congr none h = refl
    id_in_congr (some n) h = h n (rw (eq_refl n))

    visible_variants_congr :
        (vs : List (Fields × Option String))
        → Agree (variant_ids py vs)
        → visible_variants py p vs ≡ visible_variants py q vs
    unfolding visible_variants variant_ids
    visible_variants_congr [] h = refl
    visible_variants_congr ((v, i) ∷ vs) h = rw (
      id_in_congr i (Agree-left (id_list i) (variant_ids py vs) h),
      visible_variants_congr vs (Agree-right (id_list i) (variant_ids py vs) h),
    )

    pub keep_all_congr :
        (gs : List Group) → Agree (group_ids py gs) → keep_all py p gs ≡ keep_all py q gs
    unfolding keep_all keep group_ids
    keep_all_congr [] h = refl
    keep_all_congr (g ∷ gs) h =
        let own = variant_ids py g.variants ++ id_list g.representative in
        let here = Agree-left own (group_ids py gs) h in
        rw (
          visible_variants_congr g.variants
              (Agree-left (variant_ids py g.variants) (id_list g.representative) here),
          id_in_congr g.representative
              (Agree-right (variant_ids py g.variants) (id_list g.representative) here),
          keep_all_congr gs (Agree-right own (group_ids py gs) h),
        )

  visible_variants_none :
      (vs : List (Fields × Option String)) → visible_variants py (λ n. false) vs ≡ []
  unfolding visible_variants
  visible_variants_none [] = refl
  visible_variants_none ((v, none) ∷ vs) = visible_variants_none vs
  visible_variants_none ((v, some n) ∷ vs) = visible_variants_none vs

  id_in_none : (o : Option String) → id_in (λ n. false) o ≡ false
  id_in_none none = refl
  id_in_none (some n) = refl

  pub keep_all_none : (gs : List Group) → keep_all py (λ n. false) gs ≡ []
  unfolding keep_all keep promote_first
  keep_all_none [] = refl
  keep_all_none (g ∷ gs) =
      rw (id_in_none g.representative, visible_variants_none g.variants) (keep_all_none gs)
