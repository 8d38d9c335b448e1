-- ===== src/Acl/Search.antt =====
-- The WebDAV SEARCH of rag/acl.py: `_nested_or`, `build_fileid_search_xml` and
-- `parse_authorized_fileids`.
pub mod Meaning
pub mod Tree
pub mod Body
use aki_rag_middleware.Prelude.{
  ℕ, zero, suc, String, Bool, not, Option, none, some, List, [], ◌∷◌, ◌&&◌, append, contains,
  length, map, filter, strip, some_chars, if◌then◌else◌,
}
use aki_rag_middleware.Python.Values.{Runtime}
use aki_rag_middleware.Python.Errors.{Outcome, ok, raised, value_error, ◌>>=◌}
use aki_rag_middleware.Acl.Xml.{Element, element, Elements, end, child, texts_of}

unfoldable pub or_node : Element → Element → Element
or_node a b = element "{DAV:}or" none (child a (child b end))

-- One round of the `while`: neighbours are joined, a last one alone goes on as it is.
unfoldable pub pair_up : List Element → List Element
pair_up [] = []
pair_up (a ∷ []) = a ∷ []
pair_up (a ∷ b ∷ rest) = or_node a b ∷ pair_up rest

-- `while len(level) > 1`, on fuel; the length of the list is enough.
unfoldable pub fold_level : ℕ → List Element → Option Element
unfolding pair_up or_node
fold_level fuel [] = none
fold_level fuel (a ∷ []) = some a
fold_level zero (a ∷ b ∷ rest) = none
fold_level (suc fuel) (a ∷ b ∷ rest) = fold_level fuel (pair_up (a ∷ b ∷ rest))

abbrev or_raise : Option Element → Outcome Element
or_raise none = raised value_error
or_raise (some e) = ok e

unfoldable pub nested_or : List Element → Outcome Element
unfolding fold_level
nested_or expressions = or_raise (fold_level (length expressions) expressions)

-- The distinct texts of digits among the values.
unfoldable pub clean_ids : Runtime → List String → List String → List String
unfolding strip
clean_ids py seen [] = []
clean_ids py seen (value ∷ values) =
    let text = strip value in
    let rest = clean_ids py seen values in
    let next = clean_ids py (text ∷ seen) values in
    if some_chars py.is_digit text && not (contains seen text) then text ∷ next else rest

unfoldable pub comparison : String → Element
comparison number = element "{DAV:}eq" none (
    child
      (element "{DAV:}prop" none (child (element "{http://owncloud.org/ns}fileid" none end) end))
      (child (element "{DAV:}literal" (some number) end) end))

unfoldable pub search_request : Runtime → String → Element → Element
search_request py username condition = element "{DAV:}searchrequest" none (
    child
      (element "{DAV:}basicsearch" none (
        child
          (element "{DAV:}select" none (
            child
              (element "{DAV:}prop" none (
                child (element "{http://owncloud.org/ns}fileid" none end)
                  (child (element "{DAV:}displayname" none end) end)))
              end))
          (child
            (element "{DAV:}from" none (
              child
                (element "{DAV:}scope" none (
                  child (element "{DAV:}href" (some (append "/files/" (py.quote username))) end)
                    (child (element "{DAV:}depth" (some "infinity") end) end)))
                end))
            (child (element "{DAV:}where" none (child condition end))
              (child (element "{DAV:}orderby" none end) end)))))
      end)

-- One comparison stands alone; `_nested_or` gives the same there.
abbrev condition_of : List Element → Outcome Element
condition_of (c ∷ []) = ok c
condition_of cs = nested_or cs

unfoldable pub build_fileid_search : Runtime → String → List String → Outcome Element
unfolding clean_ids comparison nested_or search_request
build_fileid_search py username file_ids = do
  condition ← condition_of (map comparison (clean_ids py [] file_ids))
  ok (search_request py username condition)

-- `elem.text and elem.text.strip().isdigit()`: the test and the value both strip, so an empty text
-- is left out by the second half.
unfoldable pub parse_authorized_fileids : Runtime → Element → List String
unfolding strip texts_of
parse_authorized_fileids py root =
    filter (some_chars py.is_digit) (map strip (texts_of "{http://owncloud.org/ns}fileid" root))
