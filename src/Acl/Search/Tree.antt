-- ===== src/Acl/Search/Tree.antt =====
-- The balanced tree of `_nested_or` (rag/acl.py): it holds every comparison, in order, and its
-- depth is logarithmic.
use Prim.Native.Nat.{◌^◌}
use aki_rag_middleware.Prelude.{
  ℕ, zero, suc, ◌+◌, ◌*◌, ◌≤◌, ◌<◌, String, ◌≡◌, refl, ◌∙◌, some, List, [], ◌∷◌, ◌++◌, arith,
  length, All,
}
use native.Mathlib.Nat.{pow-suc}
use mathlib.Core.List.{append-nil, append_assoc}
use aki_rag_middleware.Acl.Xml.{Element, texts_of, height}
use aki_rag_middleware.Acl.Search.{or_node, pair_up, fold_level, nested_or}
use aki_rag_middleware.Python.Errors.{ok}

abbrev pub literals : Element → List String
literals = texts_of "{DAV:}literal"

abbrev pub literals_of : List Element → List String
literals_of [] = []
literals_of (e ∷ es) = literals e ++ literals_of es

length-pair_up : (level : List Element) → 2 * length (pair_up level) ≤ length level + 1
unfolding pair_up
length-pair_up [] = omega arith
length-pair_up (a ∷ []) = omega arith
length-pair_up (a ∷ b ∷ rest) = omega (arith, length-pair_up rest)

literals-pair_up : (level : List Element) → literals_of (pair_up level) ≡ literals_of level
unfolding pair_up or_node texts_of
literals-pair_up [] = refl
literals-pair_up (a ∷ []) = refl
literals-pair_up (a ∷ b ∷ rest) = rw (literals-pair_up rest) (simp (append_assoc))

abbrev pub IsLow : ℕ → Element → Type 0
IsLow h e = height e ≤ h

pair_up-IsLow :
    (h : ℕ) (level : List Element) → All (IsLow h) level → All (IsLow (suc h)) (pair_up level)
unfolding pair_up or_node height
pair_up-IsLow h [] low = tt
pair_up-IsLow h (a ∷ []) low = (omega arith, tt)
pair_up-IsLow h (a ∷ b ∷ rest) (p, (q, low)) = (omega arith, pair_up-IsLow h rest low)

-- With enough fuel the fold ends: it loses nothing, and is at most `k` deeper than its leaves.
fold_level_lem :
    (fuel h k : ℕ) (level : List Element)
    → 0 < length level
    → length level ≤ suc fuel
    → length level ≤ 2 ^ k
    → All (IsLow h) level
    → (e : Element) × (fold_level fuel level ≡ some e)
      × (literals e ≡ literals_of level)
      × (height e ≤ h + k)
unfolding fold_level pair_up
fold_level_lem fuel h k [] some_left fits deep low = absurd (omega arith)
fold_level_lem fuel h k (a ∷ []) some_left fits deep low = (a, refl, simp append-nil, omega arith)
fold_level_lem zero h k (a ∷ b ∷ rest) some_left fits deep low = absurd (omega arith)
fold_level_lem (suc fuel) h zero (a ∷ b ∷ rest) some_left fits deep low = absurd (omega arith)
fold_level_lem (suc fuel) h (suc k) (a ∷ b ∷ rest) some_left fits deep low =
    let paired = length-pair_up (a ∷ b ∷ rest) in
    let (e, folded, same, bound) =
      fold_level_lem fuel (suc h) k (pair_up (a ∷ b ∷ rest)) (omega arith) (omega arith)
        (omega (arith, pow-suc 2 k)) (pair_up-IsLow h (a ∷ b ∷ rest) low) in
    (e, folded, same ∙ literals-pair_up (a ∷ b ∷ rest), omega arith)

-- `_nested_or` of at least one and at most 2^k expressions returns a tree with the literals of all
-- of them in order, and the tree is at most k deeper than the deepest expression.
pub nested_or-balanced :
    (h k : ℕ) (expressions : List Element)
    → 0 < length expressions
    → length expressions ≤ 2 ^ k
    → All (IsLow h) expressions
    → (e : Element) × (nested_or expressions ≡ ok e)
      × (literals e ≡ literals_of expressions)
      × (height e ≤ h + k)
unfolding nested_or
nested_or-balanced h k es some_given few low =
    let (e, folded, same, bound) =
      fold_level_lem (length es) h k es some_given (omega arith) few low in
    (e, rw folded, same, bound)
