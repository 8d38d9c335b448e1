-- ===== src/Store/Sql/Keys.antt =====
-- Rows told apart by a text key, under the statements of Store/Sql.
use mathlib.Core.Path.{subst}
use aki_rag_middleware.Prelude.{
  String, ◌≡◌, refl, ap, sym, ◌∙◌, Bool, true, false, ◌||◌, Option, some, List, [], ◌∷◌, ◌++◌, ◌==◌,
  arith, eq_iff, All, any, filter, Bool-cases, inl, inr, if◌then◌else◌,
}
use aki_rag_middleware.Store.Sql.{first, update, delete, upsert}

pub eq_comm : (x y : String) → (x == y) ≡ (y == x)
eq_comm x y = elim (Bool-cases (x == y)) [
  | inl same ↦ same ∙ sym ((eq_iff y x).1 (sym ((eq_iff x y).0 same)))
  | inr apart ↦ elim (Bool-cases (y == x)) [
    | inl wrong ↦ absurd (cc ((eq_iff x y).1 (sym ((eq_iff y x).0 wrong)), apart))
    | inr other ↦ apart ∙ sym other
  ]
]

module _ {ℓ} {A : Type ℓ} where
  pub some_inj : (a b : A) → ◌≡◌ {A = Option A} (some a) (some b) → a ≡ b
  some_inj a b h = cc

  -- What holds of every row holds of the row that is found, which passes the test.
  pub first-All {κ} :
      (Q : A → Type κ) (p : A → Bool) (xs : List A) (r : A)
      → first p xs ≡ some r
      → All Q xs
      → Q r × (p r ≡ true)
  unfolding first
  first-All Q p [] r h all = absurd (cc)
  first-All Q p (x ∷ xs) r h (q, all) = elim (Bool-cases (p x)) [
    | inl hit ↦
        (subst Q (some_inj x r (rw hit at h)) q, ap p (sym (some_inj x r (rw hit at h))) ∙ hit)
    | inr miss ↦ first-All Q p xs r (rw miss at h) all
  ]

  pub first-append :
      (p : A → Bool) (xs ys : List A) → any p xs ≡ false → first p (xs ++ ys) ≡ first p ys
  unfolding first
  first-append p [] ys h = refl
  first-append p (x ∷ xs) ys h = elim (Bool-cases (p x)) [
    | inl hit ↦ absurd (ground arith)
    | inr miss ↦ rw miss (first-append p xs ys (ground arith))
  ]

  pub All-update {κ} :
      (Q : A → Type κ) (p : A → Bool) (f : A → A) (xs : List A)
      → ((x : A) → p x ≡ true → Q (f x))
      → All (λ x. p x ≡ false → Q x) xs
      → All Q (update p f xs)
  unfolding update
  All-update Q p f [] h all = tt
  All-update Q p f (x ∷ xs) h (q, all) = elim (Bool-cases (p x)) [
    | inl hit ↦ rw hit (h x hit, All-update Q p f xs h all)
    | inr miss ↦ rw miss (q miss, All-update Q p f xs h all)
  ]

  pub All-delete {κ} :
      (Q : A → Type κ) (p : A → Bool) (xs : List A) → All Q xs → All Q (delete p xs)
  unfolding delete
  All-delete Q p [] all = tt
  All-delete Q p (x ∷ xs) (q, all) = elim (Bool-cases (p x)) [
    | inl hit ↦ rw hit (All-delete Q p xs all)
    | inr miss ↦ rw miss (q, All-delete Q p xs all)
  ]

  -- The rows of a key after rows have gone by a test of their keys.
  pub filter-delete :
      (key : A → String) (q : String → Bool) (k : String) (xs : List A)
      → filter (λ x. key x == k) (delete (λ x. q (key x)) xs)
        ≡ (if q k then [] else filter (λ x. key x == k) xs)
  unfolding delete
  filter-delete key q k [] = elim (Bool-cases (q k)) [ inl gone ↦ rw gone | inr kept ↦ rw kept ]
  filter-delete key q k (x ∷ xs) =
      let ih = filter-delete key q k xs in
      elim (Bool-cases (key x == k)) [
        | inl same ↦
            let agree : q (key x) ≡ q k = ap q ((eq_iff (key x) k).0 same) in
            elim (Bool-cases (q k)) [
              | inl gone ↦ rw (agree, gone) (ih ∙ rw gone)
              | inr kept ↦ rw (agree, kept, same) (ap (λ r. x ∷ r) (ih ∙ rw kept))
            ]
        | inr other ↦ elim (Bool-cases (q (key x))) [
          | inl gone ↦ rw (gone, other) ih
          | inr kept ↦ rw (kept, other) ih
        ]
      ]

  any-append : (p : A → Bool) (xs ys : List A) → any p (xs ++ ys) ≡ (any p xs || any p ys)
  any-append p [] ys = refl
  any-append p (x ∷ xs) ys = ground (arith, any-append p xs ys)

  -- The same where the rows that are asked for stay or go together.
  pub filter-delete_together :
      (p q : A → Bool) (gone : Bool) (xs : List A)
      → ((x : A) → p x ≡ true → q x ≡ gone)
      → filter p (delete q xs) ≡ (if gone then [] else filter p xs)
  unfolding delete
  filter-delete_together p q true [] h = refl
  filter-delete_together p q false [] h = refl
  filter-delete_together p q gone (x ∷ xs) h =
      let ih = filter-delete_together p q gone xs h in
      elim (Bool-cases (p x)) [
        | inl wanted ↦ elim (Bool-cases gone) [
          | inl all_gone ↦ rw (h x wanted, all_gone) (ih ∙ rw all_gone)
          | inr all_kept ↦ rw (h x wanted, all_kept, wanted) (ap (λ r. x ∷ r) (ih ∙ rw all_kept))
        ]
        | inr other ↦ elim (Bool-cases (q x)) [
          | inl deleted ↦ rw (deleted, other) ih
          | inr kept ↦ rw (kept, other) ih
        ]
      ]

  first-end :
      (p : A → Bool) (xs : List A) (y : A) → p y ≡ false → first p (xs ++ y ∷ []) ≡ first p xs
  unfolding first
  first-end p [] y h = rw h
  first-end p (x ∷ xs) y h = elim (Bool-cases (p x)) [
    | inl hit ↦ rw hit
    | inr miss ↦ rw miss (first-end p xs y h)
  ]

-- `p` and `q` test keys, `f` keeps the key and makes a row that a reader `h` takes for the new one.
module _ {ℓ κ} {A : Type ℓ} {R : Type κ} (h : Option A → R) (p q : A → Bool) (row : A) (f : A → A)
    (keeps : (x : A)
      → p x ≡ true
      → (q x ≡ q row) × (q (f x) ≡ q row) × (h (some (f x)) ≡ h (some row)))
    (agrees : (x : A) → q row ≡ true → q x ≡ true → p x ≡ true) where
  first-update_own :
      (xs : List A) → q row ≡ true → any p xs ≡ true → h (first q (update p f xs)) ≡ h (some row)
  unfolding first update
  first-update_own [] own there = absurd (cc)
  first-update_own (x ∷ xs) own there = elim (Bool-cases (p x)) [
    | inl hit ↦ let (before, after, same) = keeps x hit in rw (hit, after, own) same
    | inr miss ↦ elim (Bool-cases (q x)) [
      | inl wrong ↦ absurd (cc (agrees x own wrong, miss))
      | inr other ↦ rw (miss, other) (first-update_own xs own (ground arith))
    ]
  ]

  first-update_other : (xs : List A) → q row ≡ false → first q (update p f xs) ≡ first q xs
  unfolding first update
  first-update_other [] foreign = refl
  first-update_other (x ∷ xs) foreign = elim (Bool-cases (p x)) [
    | inl hit ↦
        let (before, after, same) = keeps x hit in
        rw (hit, after, before, foreign) (first-update_other xs foreign)
    | inr miss ↦ elim (Bool-cases (q x)) [
      | inl found ↦ rw (miss, found)
      | inr other ↦ rw (miss, other) (first-update_other xs foreign)
    ]
  ]

  any-own : (xs : List A) → q row ≡ true → any p xs ≡ false → any q xs ≡ false
  any-own [] own none_there = refl
  any-own (x ∷ xs) own none_there = elim (Bool-cases (q x)) [
    | inl wrong ↦ let hit = agrees x own wrong in absurd (ground arith)
    | inr other ↦ rw other (any-own xs own (ground arith))
  ]

  -- A read after a write: of the same key the new row, of another key what was there.
  pub first-upsert :
      (xs : List A)
      → h (first q (upsert p row f xs)) ≡ (if q row then h (some row) else h (first q xs))
  unfolding upsert first
  first-upsert xs = elim (Bool-cases (any p xs)) [
    | inl there ↦ elim (Bool-cases (q row)) [
      | inl own ↦ rw (there, own) (first-update_own xs own there)
      | inr foreign ↦ rw (there, foreign) (ap h (first-update_other xs foreign))
    ]
    | inr fresh ↦ elim (Bool-cases (q row)) [
      | inl own ↦
          rw (fresh, own) (ap h (first-append q xs (row ∷ []) (any-own xs own fresh) ∙ rw own))
      | inr foreign ↦ rw (fresh, foreign) (ap h (first-end q xs row foreign))
    ]
  ]
