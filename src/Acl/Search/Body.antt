-- ===== src/Acl/Search/Body.antt =====
-- The SEARCH body of rag/acl.py asks for exactly the files that it is given.
use Prim.Native.Nat.{◌^◌}
use native.Mathlib.Nat.{pow-suc}
use mathlib.Core.Bool.{and-true}
use aki_rag_middleware.Prelude.{
  ℕ, zero, suc, ◌<◌, String, ◌≡◌, refl, sym, ◌∙◌, Bool, true, false, not, ◌&&◌, ◌||◌, any, some,
  append, Option-cases, List, [], ◌∷◌, ap, arith, eq_iff, eq_refl, contains, length, map,
  some_chars, All, Bool-cases, inl, inr,
}
use aki_rag_middleware.Python.Values.{Runtime, IsUnicode}
use aki_rag_middleware.Python.Errors.{ok, ok-injective}
use aki_rag_middleware.Acl.Xml.{Element, height}
use aki_rag_middleware.Acl.FileId.Laws.{strip_digits}
use aki_rag_middleware.Acl.Search.{
  comparison, or_node, pair_up, fold_level, nested_or, clean_ids, condition_of, search_request,
  build_fileid_search,
}
use aki_rag_middleware.Acl.Search.Meaning.{matches, asks}
use aki_rag_middleware.Acl.Search.Tree.{IsLow, nested_or-balanced}

or-false : (b : Bool) → (b || false) ≡ b
or-false b = ground arith

lt-two_pow : (n : ℕ) → n < 2 ^ n
lt-two_pow zero = omega arith
lt-two_pow (suc n) = omega (arith, lt-two_pow n, pow-suc 2 n)

matches-pair_up :
    (n : String) (level : List Element) → any (matches n) (pair_up level) ≡ any (matches n) level
unfolding pair_up or_node matches
matches-pair_up n [] = refl
matches-pair_up n (a ∷ []) = refl
matches-pair_up n (a ∷ b ∷ rest) = ground (arith, matches-pair_up n rest)

-- The folded condition holds of what one of the expressions holds of.
matches-fold_level :
    (fuel : ℕ) (n : String) (level : List Element) (e : Element)
    → fold_level fuel level ≡ some e
    → matches n e ≡ any (matches n) level
unfolding fold_level
matches-fold_level fuel n [] e h = absurd (cc)
matches-fold_level fuel n (a ∷ []) e h =
    let same : a ≡ e = cc in ap (matches n) (sym same) ∙ sym (or-false (matches n a))
matches-fold_level zero n (a ∷ b ∷ rest) e h = absurd (cc)
matches-fold_level (suc fuel) n (a ∷ b ∷ rest) e h =
    matches-fold_level fuel n (pair_up (a ∷ b ∷ rest)) e h ∙ matches-pair_up n (a ∷ b ∷ rest)

matches-nested_or :
    (n : String) (es : List Element) (e : Element)
    → nested_or es ≡ ok e
    → matches n e ≡ any (matches n) es
unfolding nested_or
matches-nested_or n es e h = elim (Option-cases (fold_level (length es) es)) [
  | inl absent ↦ absurd (cc (rw absent at h))
  | inr (tree, folded) ↦
      let same : tree ≡ e = ok-injective (rw folded at h) in
      ap (matches n) (sym same) ∙ matches-fold_level (length es) n es tree folded
]

matches-comparison :
    (n : String) (cs : List String) → any (matches n) (map comparison cs) ≡ contains cs n
unfolding comparison matches
matches-comparison n [] = refl
matches-comparison n (c ∷ cs) = ground (arith, matches-comparison n cs)

comparison-IsLow : (cs : List String) → All (IsLow 3) (map comparison cs)
unfolding comparison height
comparison-IsLow [] = tt
comparison-IsLow (c ∷ cs) = (omega arith, comparison-IsLow cs)

length-comparison : (cs : List String) → length (map comparison cs) ≡ length cs
length-comparison [] = refl
length-comparison (c ∷ cs) = ap suc (length-comparison cs)

contains_nonempty : (xs : List String) (n : String) → contains xs n ≡ true → 0 < length xs
contains_nonempty [] n h = cc
contains_nonempty (x ∷ xs) n h = omega arith

condition_of-eq : (es : List Element) → condition_of es ≡ nested_or es
unfolding nested_or
condition_of-eq [] = refl
condition_of-eq (e ∷ []) = refl
condition_of-eq (e ∷ f ∷ es) = refl

module _ (py : Runtime) where
  -- The folder of a user on the server.
  abbrev pub folder_of : String → String
  folder_of username = append "/files/" (py.quote username)

  asks-search_request :
      (username n : String) (c : Element)
      → asks (folder_of username) (search_request py username c) n ≡ matches n c
  unfolding search_request asks
  asks-search_request username n c = rw (eq_refl (folder_of username)) (ground arith)

  abbrev pub IsId : String → Type 0
  IsId n = some_chars py.is_digit n ≡ true

  module _ (u : IsUnicode py) where
    contains-clean_ids :
        (seen ids : List String) (n : String)
        → All IsId ids
        → contains (clean_ids py seen ids) n ≡ (contains ids n && not (contains seen n))
    unfolding clean_ids
    contains-clean_ids seen [] n h = refl
    contains-clean_ids seen (v ∷ ids) n (digits, h) =
        rw (strip_digits py u v digits, digits)
          (elim (Bool-cases (contains seen v)) [
            | inl old ↦ rw old (ground (arith, eq_iff v n, contains-clean_ids seen ids n h))
            | inr new ↦ rw new (ground (arith, eq_iff v n, contains-clean_ids (v ∷ seen) ids n h))
          ])

    cleaned_nonempty :
        (ids : List String) → All IsId ids → 0 < length ids → 0 < length (clean_ids py [] ids)
    cleaned_nonempty [] h some_given = absurd (omega arith)
    cleaned_nonempty (v ∷ ids) h some_given =
        contains_nonempty (clean_ids py [] (v ∷ ids)) v
          (contains-clean_ids [] (v ∷ ids) v h ∙ rw (eq_refl v))

    -- The SEARCH body for a non-empty list of file ids is built and asks, in the folder of the user
    -- and everything below it, for the files with exactly those ids.
    pub build_fileid_search_lem :
        (username : String) (ids : List String)
        → All IsId ids
        → 0 < length ids
        → (body : Element) × (build_fileid_search py username ids ≡ ok body)
          × ((n : String) → asks (folder_of username) body n ≡ contains ids n)
    unfolding build_fileid_search
    build_fileid_search_lem username ids h some_given =
        let cs = clean_ids py [] ids in
        let (c, built, same, low) =
          nested_or-balanced 3 (length cs) (map comparison cs)
            (rw (length-comparison cs) (cleaned_nonempty ids h some_given))
            (rw (length-comparison cs) (omega (arith, lt-two_pow (length cs))))
            (comparison-IsLow cs) in
        (
          search_request py username c,
          rw (condition_of-eq (map comparison cs), built),
          λ n.
              asks-search_request username n c
              ∙ matches-nested_or n (map comparison cs) c built
              ∙ matches-comparison n cs
              ∙ contains-clean_ids [] ids n h
              ∙ and-true (contains ids n),
        )
