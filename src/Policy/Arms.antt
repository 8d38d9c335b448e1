-- ===== src/Policy/Arms.antt =====
-- What a planner can and cannot make of the retrieval policy (rag/retrieval_policy.py).
use aki_rag_middleware.Prelude.{
  String, ◌≡◌, refl, sym, ap, ◌∙◌, Bool, true, false, not, ◌&&◌, ◌||◌, Option, none, some, List, [],
  ◌∷◌, arith, ◌==◌, eq_iff, map, filter, contains, contains-append, strip, is_empty, if◌then◌else◌,
}
use mathlib.Core.Path.{ap₂}
use mathlib.Core.Bool.{and-or_distrib_right, or-false}
use aki_rag_middleware.Python.Values.{Runtime}
use aki_rag_middleware.Policy.{
  RetrievalPolicy, required_arms, optional_arms, allowed_arms, intersect, narrow, normal,
  normal_set, fallback_arms, resolved_arms, planner_arms, or_fallback,
}

pub contains-filter :
    (p : String → Bool) (xs : List String) (a : String)
    → contains (filter p xs) a ≡ (contains xs a && p a)
contains-filter p [] a = refl
contains-filter p (x ∷ xs) a = ground (arith, eq_iff x a, contains-filter p xs a)

-- Whether an arm is available, where that is given.
abbrev pub offers : Option (List String) → String → Bool
offers none a = true
offers (some available) a = contains available a

contains-narrow :
    (available : Option (List String)) (xs : List String) (a : String)
    → contains (narrow available xs) a ≡ (contains xs a && offers available a)
contains-narrow none xs a = ground arith
contains-narrow (some available) xs a = contains-filter (contains available) xs a

choice_lem :
    (x r o v : Bool) (xs ys : List String) (a : String)
    → contains xs a ≡ (r && v)
    → contains ys a ≡ ((r || o) && v)
    → contains (if x then xs else ys) a ≡ ((r || (not x && o)) && v)
choice_lem true r o v xs ys a h k = h ∙ ap (λ t. t && v) (sym (or-false r))
choice_lem false r o v xs ys a h k = k

bound_out : (r x o v : Bool) → ((r || (x && o)) && v) ≡ true → ((r || o) ≡ true) × (v ≡ true)
bound_out r x o v h = ground arith

bound_in : (r x o v : Bool) → r ≡ true → v ≡ true → ((r || (x && o)) && v) ≡ true
bound_in r x o v h k = ground arith

or_fallback_out :
    {P : Type 0} (xs ys : List String) (a : String)
    → (contains xs a ≡ true → P)
    → (contains ys a ≡ true → P)
    → contains (or_fallback xs ys) a ≡ true
    → P
or_fallback_out [] ys a f g h = g h
or_fallback_out (x ∷ xs) ys a f g h = f h

or_fallback_in :
    (xs ys : List String) (a : String)
    → contains xs a ≡ true
    → contains (or_fallback xs ys) a ≡ true
or_fallback_in [] ys a h = cc
or_fallback_in (x ∷ xs) ys a h = h

and_assoc' : (a b c : Bool) → (a && (b && c)) ≡ (a && b && c)
and_assoc' true b c = refl
and_assoc' false b c = refl

module _ (py : Runtime) (p : RetrievalPolicy) where
  abbrev wanted : List String → List String
  wanted requested = map (normal py) (filter (λ s. not (is_empty (strip s))) requested)

  contains-fallback_arms :
      (available : Option (List String)) (a : String)
      → contains (fallback_arms py p available) a ≡ (
          (contains (required_arms p) a
            || (not (p.optional_default == "exclude") && contains (optional_arms p) a))
          && offers (normal_set py available) a)
  unfolding fallback_arms
  contains-fallback_arms available a =
      let offered = normal_set py available in
      choice_lem (p.optional_default == "exclude") (contains (required_arms p) a)
        (contains (optional_arms p) a) (offers offered a) (narrow offered (required_arms p)) _ a
        (contains-narrow offered (required_arms p) a)
        (contains-append (narrow offered (required_arms p)) (narrow offered (optional_arms p)) a
          ∙ ap₂ ◌||◌ (contains-narrow offered (required_arms p) a)
              (contains-narrow offered (optional_arms p) a)
          ∙ sym (
              and-or_distrib_right (contains (required_arms p) a) (contains (optional_arms p) a)
                (offers offered a)))

  contains-resolved_arms :
      (requested : List String) (available : Option (List String)) (a : String)
      → contains (resolved_arms py p requested available) a ≡ (
          (contains (required_arms p) a
            || (contains (wanted requested) a && contains (optional_arms p) a))
          && offers available a)
  unfolding resolved_arms
  contains-resolved_arms requested available a =
      contains-append (narrow available (required_arms p))
        (intersect (wanted requested) (narrow available (optional_arms p))) a
      ∙ ap₂ ◌||◌ (contains-narrow available (required_arms p) a) (
          contains-filter (contains (narrow available (optional_arms p))) (wanted requested) a
          ∙ ap (λ t. contains (wanted requested) a && t)
              (contains-narrow available (optional_arms p) a)
          ∙ and_assoc' (contains (wanted requested) a) (contains (optional_arms p) a)
              (offers available a))
      ∙ sym (
          and-or_distrib_right (contains (required_arms p) a)
            (contains (wanted requested) a && contains (optional_arms p) a) (offers available a))

  allowed_lem :
      (a : String)
      → contains (allowed_arms p) a ≡ (contains (required_arms p) a || contains (optional_arms p) a)
  unfolding allowed_arms
  allowed_lem a = contains-append (required_arms p) (optional_arms p) a

  module _ (normal_idem : (s : String) → normal py (normal py s) ≡ normal py s) where
    normal_set_idem :
        (available : Option (List String))
        → normal_set py (normal_set py available) ≡ normal_set py available
    normal_set_idem none = refl
    normal_set_idem (some available) = ap some (map_idem available)
      where
        map_idem : (xs : List String) → map (normal py) (map (normal py) xs) ≡ map (normal py) xs
        map_idem [] = refl
        map_idem (x ∷ xs) = ap₂ ◌∷◌ (normal_idem x) (map_idem xs)

    fallback_lem :
        (available : Option (List String)) (a : String)
        → contains (fallback_arms py p (normal_set py available)) a ≡ (
            (contains (required_arms p) a
              || (not (p.optional_default == "exclude") && contains (optional_arms p) a))
            && offers (normal_set py available) a)
    fallback_lem available a =
        contains-fallback_arms (normal_set py available) a
        ∙ ap
            (λ o.
              (contains (required_arms p) a
                || (not (p.optional_default == "exclude") && contains (optional_arms p) a))
              && offers o a)
            (normal_set_idem available)

    fallback-allowed :
        (available : Option (List String)) (a : String)
        → contains (fallback_arms py p (normal_set py available)) a ≡ true
        → (contains (allowed_arms p) a ≡ true) × (offers (normal_set py available) a ≡ true)
    fallback-allowed available a h =
        let (some_mode, offered) =
          bound_out (contains (required_arms p) a) (not (p.optional_default == "exclude"))
            (contains (optional_arms p) a) (offers (normal_set py available) a)
            (sym (fallback_lem available a) ∙ h) in
        (allowed_lem a ∙ some_mode, offered)

    fallback-required :
        (available : Option (List String)) (a : String)
        → contains (required_arms p) a ≡ true
        → offers (normal_set py available) a ≡ true
        → contains (fallback_arms py p (normal_set py available)) a ≡ true
    fallback-required available a h v =
        fallback_lem available a
        ∙ bound_in (contains (required_arms p) a) (not (p.optional_default == "exclude"))
            (contains (optional_arms p) a) (offers (normal_set py available) a) h v

    -- Whatever the planner asks for, and however badly, an arm that is used is one that the policy
    -- allows and that is available.
    pub planner_arms-allowed :
        (requested : Option (List String)) (valid : Bool) (available : Option (List String))
        (a : String)
        → contains (planner_arms py p requested valid available) a ≡ true
        → (contains (allowed_arms p) a ≡ true) × (offers (normal_set py available) a ≡ true)
    unfolding planner_arms
    planner_arms-allowed none valid available a h = fallback-allowed available a h
    planner_arms-allowed (some requested) false available a h = fallback-allowed available a h
    planner_arms-allowed (some requested) true available a h =
        or_fallback_out (resolved_arms py p requested (normal_set py available))
          (fallback_arms py p (normal_set py available)) a
          (λ used.
            let (some_mode, offered) =
              bound_out (contains (required_arms p) a) (contains (wanted requested) a)
                (contains (optional_arms p) a) (offers (normal_set py available) a)
                (sym (contains-resolved_arms requested (normal_set py available) a) ∙ used) in
            (allowed_lem a ∙ some_mode, offered))
          (fallback-allowed available a) h

    -- A required arm that is available is used, whatever the planner asks for.
    planner_arms-required :
        (requested : Option (List String)) (valid : Bool) (available : Option (List String))
        (a : String)
        → contains (required_arms p) a ≡ true
        → offers (normal_set py available) a ≡ true
        → contains (planner_arms py p requested valid available) a ≡ true
    unfolding planner_arms
    planner_arms-required none valid available a h v = fallback-required available a h v
    planner_arms-required (some requested) false available a h v = fallback-required available a h v
    planner_arms-required (some requested) true available a h v =
        or_fallback_in (resolved_arms py p requested (normal_set py available))
          (fallback_arms py p (normal_set py available)) a
          (contains-resolved_arms requested (normal_set py available) a
            ∙ bound_in (contains (required_arms p) a) (contains (wanted requested) a)
                (contains (optional_arms p) a) (offers (normal_set py available) a) h v)
