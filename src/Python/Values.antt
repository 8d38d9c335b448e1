-- ===== src/Python/Values.antt =====
-- The data of a `dict[str, Any]`, and what the interpreter's tables decide.
use aki_rag_middleware.Prelude.{
  ℕ, String, Bool, true, false, not, List, [], ◌∷◌, ◌==◌, ◌||◌, eqb, is_empty, is_space, ◌≡◌,
  if◌then◌else◌,
}

-- `negative n` is -(n + 1). A float is known by its shortest print, which determines it.
mutual
  pub data Value : Type 0 where
    null : Value
    bool : Bool → Value
    int : ℕ → Value
    negative : ℕ → Value
    float : String → Value
    str : String → Value
    list : Values → Value
    dict : Fields → Value

  pub data Values : Type 0 where
    nil : Values
    cons : Value → Values → Values

  pub data Fields : Type 0 where
    end : Fields
    field : String → Value → Fields → Fields

-- The print of containers, and the Unicode tables behind `\d`, `str.isdigit`, `str.lower`, `str.upper`
-- and `str.casefold`, and `urllib.parse.quote`.
pub record Runtime : Type 0 where
  pub repr : Value → String
  pub is_decimal : ℕ → Bool
  pub is_digit : ℕ → Bool
  pub lower : String → String
  pub casefold : String → String
  pub upper : String → String
  pub quote : String → String

-- What the model relies on of the tables: digits are no white space, and a decimal is a digit.
pub record IsUnicode (py : Runtime) : Type 0 where
  pub decimal-digit : (c : ℕ) → py.is_decimal c ≡ true → py.is_digit c ≡ true
  pub digit-space : (c : ℕ) → py.is_digit c ≡ true → is_space c ≡ false

-- `bool(value)`
unfoldable pub truthy : Value → Bool
truthy null = false
truthy (bool b) = b
truthy (int n) = not (eqb n 0)
truthy (negative n) = true
truthy (float digits) = not (digits == "0.0" || digits == "-0.0")
truthy (str s) = not (is_empty s)
truthy (list nil) = false
truthy (list (cons v vs)) = true
truthy (dict end) = false
truthy (dict (field k v d)) = true

-- `a or b`
unfoldable pub or_else : Value → Value → Value
unfolding truthy
or_else a b = if truthy a then a else b

-- `[dict(item) for item in items]`, as a value
unfoldable pub dicts : List Fields → Values
dicts [] = nil
dicts (d ∷ ds) = cons (dict d) (dicts ds)

-- The entries that are dicts of `value or []`. The entries of a text or a dict are texts; that a
-- number or `True` here raises a TypeError is not modelled.
unfoldable pub dict_items : Values → List Fields
dict_items nil = []
dict_items (cons (dict d) vs) = d ∷ dict_items vs
dict_items (cons v vs) = dict_items vs

unfoldable pub dicts_in : Value → List Fields
unfolding dict_items
dicts_in (list vs) = dict_items vs
dicts_in v = []
