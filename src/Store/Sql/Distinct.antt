-- ===== src/Store/Sql/Distinct.antt =====
-- Tables in which no two rows have the same key, and what is found in them.
use aki_rag_middleware.Prelude.{
  ◌≡◌, refl, ◌∙◌, Bool, true, false, none, some, List, [], ◌∷◌, ◌++◌, arith, any, Bool-cases, inl,
  inr, if◌then◌else◌,
}
use aki_rag_middleware.Store.Sql.{first, update}
use aki_rag_middleware.Store.Sql.Keys.{some_inj, first-append}

module _ {ℓ} {A : Type ℓ} where
  -- No row has the key of an earlier one.
  abbrev pub Distinct : (A → A → Bool) → List A → Type 0
  Distinct same [] = Unit
  Distinct same (x ∷ xs) = (any (same x) xs ≡ false) × Distinct same xs

  -- A new row of a new key is found.
  pub first-added :
      (p : A → Bool) (xs : List A) (y : A)
      → any p xs ≡ false
      → p y ≡ true
      → first p (xs ++ y ∷ []) ≡ some y
  unfolding first
  first-added p xs y fresh own = first-append p xs (y ∷ []) fresh ∙ rw own

  pub first-none : (p : A → Bool) (xs : List A) → first p xs ≡ none → any p xs ≡ false
  unfolding first
  first-none p [] h = refl
  first-none p (x ∷ xs) h = elim (Bool-cases (p x)) [
    | inl hit ↦ absurd (cc (rw hit at h))
    | inr miss ↦ rw miss (first-none p xs (rw miss at h))
  ]

  first-any :
      (p q : A → Bool) (xs : List A) (r : A) → first p xs ≡ some r → q r ≡ true → any q xs ≡ true
  unfolding first
  first-any p q [] r h k = absurd (cc)
  first-any p q (x ∷ xs) r h k = elim (Bool-cases (p x)) [
    | inl hit ↦ rw (some_inj x r (rw hit at h), k)
    | inr miss ↦ let ih = first-any p q xs r (rw miss at h) k in ground arith
  ]

  -- A row that is found by any test is found by its key.
  pub first-key :
      (same : A → A → Bool) (p : A → Bool) (xs : List A) (r : A)
      → Distinct same xs
      → ((x : A) → same x x ≡ true)
      → ((x y : A) → same x y ≡ same y x)
      → first p xs ≡ some r
      → first (same r) xs ≡ some r
  unfolding first
  first-key same p [] r d refl_same sym_same h = absurd (cc)
  first-key same p (x ∷ xs) r (apart, d) refl_same sym_same h = elim (Bool-cases (p x)) [
    | inl hit ↦ let e = some_inj x r (rw hit at h) in rw (← e, refl_same x)
    | inr miss ↦ elim (Bool-cases (same r x)) [
      | inl wrong ↦
          let there = first-any p (same x) xs r (rw miss at h) (sym_same x r ∙ wrong) in
          absurd (cc (apart, there))
      | inr other ↦ rw other (first-key same p xs r d refl_same sym_same (rw miss at h))
    ]
  ]

  -- An update that keeps a test leaves what the test finds in its place.
  pub first-update :
      (q p : A → Bool) (f : A → A) (xs : List A) (r : A)
      → ((x : A) → q (f x) ≡ q x)
      → first q xs ≡ some r
      → first q (update p f xs) ≡ some (if p r then f r else r)
  unfolding first update
  first-update q p f [] r keep h = absurd (cc)
  first-update q p f (x ∷ xs) r keep h = elim (Bool-cases (q x)) [
    | inl hit ↦
        let e = some_inj x r (rw hit at h) in
        elim (Bool-cases (p x)) [
          | inl changed ↦ rw (← e, changed, keep x, hit)
          | inr kept ↦ rw (← e, kept, hit)
        ]
    | inr miss ↦ elim (Bool-cases (p x)) [
      | inl changed ↦ rw (changed, keep x, miss) (first-update q p f xs r keep (rw miss at h))
      | inr kept ↦ rw (kept, miss) (first-update q p f xs r keep (rw miss at h))
    ]
  ]

  pub any-update :
      (q p : A → Bool) (f : A → A) (xs : List A)
      → ((x : A) → q (f x) ≡ q x)
      → any q (update p f xs) ≡ any q xs
  unfolding update
  any-update q p f [] keep = refl
  any-update q p f (x ∷ xs) keep = elim (Bool-cases (p x)) [
    | inl changed ↦ rw (changed, keep x, any-update q p f xs keep)
    | inr kept ↦ rw (kept, any-update q p f xs keep)
  ]

  -- An update that keeps the key keeps the table distinct.
  pub Distinct-update :
      (same : A → A → Bool) (p : A → Bool) (f : A → A) (xs : List A)
      → ((x y : A) → same (f x) y ≡ same x y)
      → ((x y : A) → same x (f y) ≡ same x y)
      → Distinct same xs
      → Distinct same (update p f xs)
  unfolding update
  Distinct-update same p f [] l r d = tt
  Distinct-update same p f (x ∷ xs) l r (apart, d) =
      let rest = Distinct-update same p f xs l r d in
      elim (Bool-cases (p x)) [
        | inl hit ↦ rw hit (any_key (f x) (l x), rest)
        | inr miss ↦ rw miss (any-update (same x) p f xs (r x) ∙ apart, rest)
      ]
    where
      any_same : (q q2 : A → Bool) (ys : List A) → ((y : A) → q y ≡ q2 y) → any q ys ≡ any q2 ys
      any_same q q2 [] e = refl
      any_same q q2 (y ∷ ys) e = rw (e y, any_same q q2 ys e)

      any_key : (z : A) → ((y : A) → same z y ≡ same x y) → any (same z) (update p f xs) ≡ false
      any_key z e = any-update (same z) p f xs (r z) ∙ any_same (same z) (same x) xs e ∙ apart

  pub Distinct-added :
      (same : A → A → Bool) (xs : List A) (y : A)
      → ((x y : A) → same x y ≡ same y x)
      → any (same y) xs ≡ false
      → Distinct same xs
      → Distinct same (xs ++ y ∷ [])
  Distinct-added same [] y comm fresh d = (refl, tt)
  Distinct-added same (x ∷ xs) y comm fresh (apart, d) =
      (any_added xs apart (comm x y ∙ left), Distinct-added same xs y comm right d)
    where
      left : same y x ≡ false
      left = ground arith

      right : any (same y) xs ≡ false
      right = ground arith

      any_added :
          (zs : List A)
          → any (same x) zs ≡ false
          → same x y ≡ false
          → any (same x) (zs ++ y ∷ []) ≡ false
      any_added [] h k = rw k refl
      any_added (z ∷ zs) h k = ground (arith, any_added zs)
