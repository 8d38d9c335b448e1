-- ===== src/Prelude/Text.antt =====
-- `str.strip` of Python: white space is the set of `str.isspace`, which `\s` of `re` shares.
use Prim.Native.Nat.{ℕ}
use Prim.Native.Char.{Char, code}
use Prim.Native.String.{String, [], ◌∷◌}
use mathlib.Core.Path.{◌≡◌, refl, ap}
use mathlib.Core.Bool.{Bool, true, false, not, ◌&&◌, ◌||◌}
use mathlib.Core.Bool.{and-false}
use native.Mathlib.Omega.{arith}
use aki_rag_middleware.Prelude.Tests.{leb, eqb, if◌then◌else◌, Bool-cases}
use mathlib.Core.Logic.{inl, inr}

unfoldable pub is_space : ℕ → Bool
is_space c =
    (leb 9 c && leb c 13)
    || (leb 28 c && leb c 32)
    || eqb c 133
    || eqb c 160
    || eqb c 5760
    || (leb 8192 c && leb c 8202)
    || eqb c 8232
    || eqb c 8233
    || eqb c 8239
    || eqb c 8287
    || eqb c 12288

abbrev pub is_empty : String → Bool
is_empty [] = true
is_empty (c ∷ s) = false

unfoldable pub append : String → String → String
append [] t = t
append (c ∷ s) t = c ∷ append s t

unfoldable pub lstrip : String → String
lstrip [] = []
lstrip (c ∷ s) = let rest = lstrip s in if is_space (code c) then rest else c ∷ s

-- White space goes where nothing but white space follows.
unfoldable pub rstrip : String → String
rstrip [] = []
rstrip (c ∷ s) = let rest = rstrip s in if is_empty rest && is_space (code c) then [] else c ∷ rest

unfoldable pub strip : String → String
unfolding lstrip rstrip
strip s = rstrip (lstrip s)

-- Every character of a text, and at least one, passes the test: `str.isdigit`, or `\d+` in full.
abbrev pub all_chars : (ℕ → Bool) → String → Bool
all_chars p [] = true
all_chars p (c ∷ s) = p (code c) && all_chars p s

abbrev pub some_chars : (ℕ → Bool) → String → Bool
some_chars p s = not (is_empty s) && all_chars p s

abbrev pub solid : ℕ → Bool
solid c = not (is_space c)

lstrip-solid : (s : String) → all_chars solid s ≡ true → lstrip s ≡ s
unfolding lstrip
lstrip-solid [] h = refl
lstrip-solid (c ∷ s) h = ground arith

rstrip-solid : (s : String) → all_chars solid s ≡ true → rstrip s ≡ s
unfolding rstrip
rstrip-solid [] h = refl
rstrip-solid (c ∷ s) h = elim (Bool-cases (is_space (code c))) [
  | inl space ↦ absurd (ground arith)
  | inr dark ↦ rw (rstrip-solid s (ground arith), dark) (ground arith)
]

-- A text without white space is its own strip.
pub strip-solid : (s : String) → all_chars solid s ≡ true → strip s ≡ s
unfolding strip
strip-solid s h = rw (lstrip-solid s h) (rstrip-solid s h)

pub lstrip_dark : (c : Char) (s : String) → is_space (code c) ≡ false → lstrip (c ∷ s) ≡ c ∷ s
unfolding lstrip
lstrip_dark c s dark = rw dark

rstrip_dark : (c : Char) (s : String) → is_space (code c) ≡ false → rstrip (c ∷ s) ≡ c ∷ rstrip s
unfolding rstrip
rstrip_dark c s dark = rw dark (rw (and-false (is_empty (rstrip s))))

lstrip_space : (c : Char) (s : String) → is_space (code c) ≡ true → lstrip (c ∷ s) ≡ lstrip s
unfolding lstrip
lstrip_space c s space = rw space

lstrip-rstrip : (s : String) → lstrip (rstrip (lstrip s)) ≡ rstrip (lstrip s)
lstrip-rstrip [] = unfold lstrip rstrip in refl
lstrip-rstrip (c ∷ s) = elim (Bool-cases (is_space (code c))) [
  | inl space ↦ rw (lstrip_space c s space) (lstrip-rstrip s)
  | inr dark ↦ rw (lstrip_dark c s dark) (rw (rstrip_dark c s dark) (lstrip_dark c (rstrip s) dark))
]

pub rstrip_idem : (s : String) → rstrip (rstrip s) ≡ rstrip s
unfolding rstrip
rstrip_idem [] = refl
rstrip_idem (c ∷ s) = elim (Bool-cases (is_empty (rstrip s) && is_space (code c))) [
  | inl all_space ↦ rw all_space
  | inr some_dark ↦ rw some_dark (rw (rstrip_idem s) (rw some_dark))
]

pub strip_idem : (s : String) → strip (strip s) ≡ strip s
unfolding strip
strip_idem s = rw (lstrip-rstrip s) (rstrip_idem (lstrip s))

pub append_assoc : (s t u : String) → append (append s t) u ≡ append s (append t u)
unfolding append
append_assoc [] t u = refl
append_assoc (c ∷ s) t u = ap (λ r. c ∷ r) (append_assoc s t u)

pub is_empty-append : (s t : String) → is_empty (append s t) ≡ (is_empty s && is_empty t)
unfolding append
is_empty-append [] t = refl
is_empty-append (c ∷ s) t = refl

-- White space does not end a text that ends in something else.
pub rstrip-append :
    (s t : String) → is_empty (rstrip t) ≡ false → rstrip (append s t) ≡ append s (rstrip t)
unfolding rstrip append
rstrip-append [] t h = refl
rstrip-append (c ∷ s) t h =
    rw (rstrip-append s t h) (rw (is_empty-append s (rstrip t), h, and-false (is_empty s)))

pub all_chars_mono :
    (p q : ℕ → Bool) (s : String)
    → ((c : ℕ) → p c ≡ true → q c ≡ true)
    → all_chars p s ≡ true
    → all_chars q s ≡ true
all_chars_mono p q [] f h = refl
all_chars_mono p q (c ∷ s) f h = ground (arith, f (code c), all_chars_mono p q s f)

pub strip_nil : strip "" ≡ ""
unfolding strip
strip_nil = refl

strip_example : strip "  files:12 \t" ≡ "files:12"
unfolding strip is_space
strip_example = refl
