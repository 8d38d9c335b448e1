-- ===== src/Store/Sql.antt =====
-- What the statements of rag/credential_store.py do to a table, a list of rows in order of insertion.
pub mod Keys
pub mod Distinct
use aki_rag_middleware.Prelude.{
  ℕ, suc, Bool, true, false, not, ◌||◌, Option, none, some, List, [], ◌∷◌, ◌++◌, any, filter,
  if◌then◌else◌,
}

module _ {ℓ} {A : Type ℓ} where
  -- `SELECT … WHERE …` and `fetchone()`
  unfoldable pub first : (A → Bool) → List A → Option A
  first p [] = none
  first p (x ∷ xs) = let rest = first p xs in if p x then some x else rest

  -- `UPDATE … SET … WHERE …`
  unfoldable pub update : (A → Bool) → (A → A) → List A → List A
  update p f [] = []
  update p f (x ∷ xs) = (if p x then f x else x) ∷ update p f xs

  -- `DELETE FROM … WHERE …`
  unfoldable pub delete : (A → Bool) → List A → List A
  delete p [] = []
  delete p (x ∷ xs) = let rest = delete p xs in if p x then rest else x ∷ rest

  -- `cur.rowcount`
  unfoldable pub rowcount : (A → Bool) → List A → ℕ
  rowcount p [] = 0
  rowcount p (x ∷ xs) = let rest = rowcount p xs in if p x then suc rest else rest

  -- `INSERT INTO … ON CONFLICT(…) DO UPDATE SET …`, where `p` tells the rows of the same key
  unfoldable pub upsert : (A → Bool) → A → (A → A) → List A → List A
  unfolding update
  upsert p row f xs = if any p xs then update p f xs else xs ++ row ∷ []
