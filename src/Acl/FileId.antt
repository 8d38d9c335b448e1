-- ===== src/Acl/FileId.antt =====
-- `_file_id` of rag/acl.py: the Nextcloud file id that a result stands for.
pub mod Laws
use Prim.Native.Char.{code}
use aki_rag_middleware.Prelude.{
  String, Option, none, some, List, [], ◌∷◌, eqb, some_chars, strip, if◌then◌else◌,
}
use aki_rag_middleware.Python.{text_of}
use aki_rag_middleware.Python.Values.{Runtime, Fields, str, or_else}
use aki_rag_middleware.Python.Fields.{get}

-- The rest of a text behind a prefix.
abbrev pub after : String → String → Option String
after String.[] s = some s
after (String.◌∷◌ p ps) String.[] = none
after (String.◌∷◌ p ps) (String.◌∷◌ c s) = if eqb (code p) (code c) then after ps s else none

-- The first value that there is.
abbrev pub or_first : Option String → Option String → Option String
or_first none next = next
or_first (some found) next = some found

module _ (py : Runtime) where
  unfoldable pub decimals : Option String → Option String
  decimals none = none
  decimals (some rest) = if some_chars py.is_decimal rest then some rest else none

  -- `re.fullmatch(r"files:(\d+)", raw)`
  unfoldable pub prefixed_id : String → Option String
  unfolding decimals
  prefixed_id raw = decimals (after "files:" raw)

  -- `str(item.get(key) or "").strip()`
  unfoldable pub stripped : Fields → String → String
  unfolding get or_else text_of strip
  stripped item key = strip (text_of py (or_else (get item key) (str "")))

  -- The first of the keys with a value of digits.
  unfoldable pub first_digits : List String → Fields → Option String
  unfolding stripped
  first_digits [] item = none
  first_digits (key ∷ keys) item =
      let value = stripped item key in
      let rest = first_digits keys item in if some_chars py.is_digit value then some value else rest

  unfoldable pub raw_id : Fields → String
  unfolding get or_else text_of strip
  raw_id item =
      strip (text_of py (or_else (get item "document_id") (or_else (get item "id") (str ""))))

  unfoldable pub file_id : Fields → Option String
  unfolding raw_id prefixed_id first_digits
  file_id item =
      or_first (prefixed_id (raw_id item))
        (first_digits ("nextcloud_openfile_id" ∷ "fileid" ∷ "file_id" ∷ []) item)
