-- ===== src/Acl/Authorize/Batches.antt =====
-- The batches of `_authorize_with_credential` (rag/acl.py) cover the distinct file ids.
use aki_rag_middleware.Prelude.{
  ℕ, zero, suc, ◌≤◌, ◌<◌, String, ◌≡◌, refl, not, ◌&&◌, List, [], ◌∷◌, ◌++◌, arith, eq_iff,
  contains, length, take, drop, take-append-drop, length-drop, length-take-le, All, Bool-cases, inl,
  inr,
}
use aki_rag_middleware.Acl.Authorize.{batches, distinct, Settings, batch_size}

pub batch_size_bounds : (s : Settings) → (1 ≤ batch_size s) × (batch_size s ≤ 500)
unfolding batch_size
batch_size_bounds s = ground arith

abbrev pub concat : List (List String) → List String
concat [] = []
concat (b ∷ bs) = b ++ concat bs

-- The batches, one behind the other, are the list.
pub concat-batches :
    (fuel size : ℕ) (xs : List String)
    → 0 < size
    → length xs ≤ fuel
    → concat (batches fuel size xs) ≡ xs
unfolding batches
concat-batches fuel size [] pos enough = refl
concat-batches zero size (x ∷ xs) pos enough = absurd (omega arith)
concat-batches (suc fuel) size (x ∷ xs) pos enough =
    rw
      (concat-batches fuel size (drop size (x ∷ xs)) pos (omega (arith, length-drop size (x ∷ xs))))
      (take-append-drop size (x ∷ xs))

-- No batch is empty, and none is longer than the size.
pub batches-IsBounded :
    (fuel size : ℕ) (xs : List String)
    → 0 < size
    → All (λ b. (0 < length b) × (length b ≤ size)) (batches fuel size xs)
unfolding batches
batches-IsBounded fuel size [] pos = tt
batches-IsBounded zero size (x ∷ xs) pos = tt
batches-IsBounded (suc fuel) size (x ∷ xs) pos = (
  (take_nonempty size pos, length-take-le size (x ∷ xs)),
  batches-IsBounded fuel size (drop size (x ∷ xs)) pos,
)
  where
    take_nonempty : (n : ℕ) → 0 < n → 0 < length (take n (x ∷ xs))
    take_nonempty zero h = absurd (omega arith)
    take_nonempty (suc n) h = omega arith

-- `dict.fromkeys` keeps the members.
pub contains-distinct :
    (seen xs : List String) (n : String)
    → contains (distinct seen xs) n ≡ (contains xs n && not (contains seen n))
unfolding distinct
contains-distinct seen [] n = refl
contains-distinct seen (x ∷ xs) n =
    ground (arith, eq_iff x n, contains-distinct seen xs n, contains-distinct (x ∷ seen) xs n)

pub All-distinct :
    (P : String → Type 0) (seen xs : List String) → All P xs → All P (distinct seen xs)
unfolding distinct
All-distinct P seen [] h = tt
All-distinct P seen (x ∷ xs) (px, h) = elim (Bool-cases (contains seen x)) [
  | inl old ↦ rw old (All-distinct P seen xs h)
  | inr new ↦ rw new (px, All-distinct P (x ∷ seen) xs h)
]

All-take : (P : String → Type 0) (n : ℕ) (xs : List String) → All P xs → All P (take n xs)
All-take P zero xs h = tt
All-take P (suc n) [] h = tt
All-take P (suc n) (x ∷ xs) (px, h) = (px, All-take P n xs h)

All-drop : (P : String → Type 0) (n : ℕ) (xs : List String) → All P xs → All P (drop n xs)
All-drop P zero xs h = h
All-drop P (suc n) [] h = tt
All-drop P (suc n) (x ∷ xs) (px, h) = All-drop P n xs h

pub All-batches :
    (P : String → Type 0) (fuel size : ℕ) (xs : List String)
    → All P xs
    → All (λ b. All P b) (batches fuel size xs)
unfolding batches
All-batches P fuel size [] h = tt
All-batches P zero size (x ∷ xs) h = tt
All-batches P (suc fuel) size (x ∷ xs) h = (
  All-take P size (x ∷ xs) h,
  All-batches P fuel size (drop size (x ∷ xs)) (All-drop P size (x ∷ xs) h),
)
