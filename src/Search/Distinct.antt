-- ===== src/Search/Distinct.antt =====
-- Texts without repetition.
use aki_rag_middleware.Prelude.{
  suc, ◌≤◌, String, ◌≡◌, refl, ap, sym, ◌∙◌, Bool, true, false, ◌||◌, List, [], ◌∷◌, ◌++◌, ◌==◌,
  contains, contains-append, length, All, arith, eq_iff, if◌then◌else◌, Bool-cases, inl, inr,
}
use aki_rag_middleware.Store.Sql.Keys.{eq_comm}

abbrev pub IsDistinct : List String → Type 0
IsDistinct [] = Unit
IsDistinct (x ∷ xs) = (contains xs x ≡ false) × IsDistinct xs

abbrev without : String → List String → List String
without x [] = []
without x (y ∷ ys) = let rest = without x ys in if y == x then ys else y ∷ rest

length-without :
    (x : String) (ys : List String) → contains ys x ≡ true → suc (length (without x ys)) ≡ length ys
length-without x [] h = cc
length-without x (y ∷ ys) h = elim (Bool-cases (y == x)) [
  | inl e ↦ rw e refl
  | inr e ↦ let ih = length-without x ys (rw e at h) in rw e (omega arith)
]

contains-without :
    (x z : String) (ys : List String)
    → (z == x) ≡ false
    → contains ys z ≡ true
    → contains (without x ys) z ≡ true
contains-without x z [] h k = k
contains-without x z (y ∷ ys) h k = elim (Bool-cases (y == x)) [
  | inl e ↦ rw e (tail_of (y == z) (contains ys z) (differ (y == z) e) k)
  | inr e ↦ rw e (ground (arith, contains-without x z ys h))
]
  where
    differ : (b : Bool) → (y == x) ≡ true → (y == z) ≡ false
    differ b e = elim (Bool-cases (y == z)) [
      | inl f ↦
          let p = (eq_iff y x).0 e in
          let q = (eq_iff y z).0 f in let r = (eq_iff z x).1 (sym q ∙ p) in cc
      | inr f ↦ f
    ]

    tail_of : (a b : Bool) → a ≡ false → (a || b) ≡ true → b ≡ true
    tail_of a b h k = ground arith

-- Distinct texts of a list are no more than it has.
pub length-IsDistinct :
    (xs ys : List String)
    → IsDistinct xs
    → All (λ x. contains ys x ≡ true) xs
    → length xs ≤ length ys
length-IsDistinct [] ys d a = omega arith
length-IsDistinct (x ∷ xs) ys (h, d) (k, a) =
    let ih = length-IsDistinct xs (without x ys) d (shrink xs h a) in
    let l = length-without x ys k in omega arith
  where
    shrink :
        (zs : List String)
        → contains zs x ≡ false
        → All (λ z. contains ys z ≡ true) zs
        → All (λ z. contains (without x ys) z ≡ true) zs
    shrink [] h a = tt
    shrink (z ∷ zs) h (k, a) =
        (contains-without x z ys (ground arith) k, shrink zs (ground arith) a)

contains-true : (xs : List String) (x y : String) → (x == y) ≡ true → contains xs x ≡ contains xs y
contains-true xs x y h = ap (contains xs) ((eq_iff x y).0 h)

pub IsDistinct-added :
    (xs : List String) (k : String)
    → IsDistinct xs
    → contains xs k ≡ false
    → IsDistinct (xs ++ k ∷ [])
IsDistinct-added [] k d h = (refl, tt)
IsDistinct-added (x ∷ xs) k (a, d) h = (
  contains-append xs (k ∷ []) x ∙ rw (a, apart_from x k (ground arith)) refl,
  IsDistinct-added xs k d (ground arith),
)
  where
    apart_from : (x k : String) → (x == k) ≡ false → (k == x) ≡ false
    apart_from x k h = eq_comm k x ∙ h
