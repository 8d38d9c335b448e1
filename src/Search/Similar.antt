-- ===== src/Search/Similar.antt =====
-- When rag/search.py takes two records for versions of one document. `re`, `PurePosixPath` and
-- `SequenceMatcher` of the standard library and the thresholds of the configuration are parameters.
use aki_rag_middleware.Prelude.{
  ℕ, String, Bool, false, not, ◌&&◌, ◌||◌, Option, none, some, List, [], ◌∷◌, ◌++◌, ◌==◌, contains,
  ltb, leb, eqb, min, max, strip, lstrip_by, is_empty, append, all_chars, if◌then◌else◌,
}
use aki_rag_middleware.Python.{text_of}
use aki_rag_middleware.Python.Values.{Runtime, Value, str, float, Fields, or_else, truthy}
use aki_rag_middleware.Python.Fields.{get}
use aki_rag_middleware.Auth.{chars}
use aki_rag_middleware.Store.Users.{is_slash}
use aki_rag_middleware.Search.Provenance.{text_at}

-- The substitutions of `re.sub`: tags by a space, hyphens at line ends, other characters than those
-- of words by a space or by nothing, and white space by one space.
pub record Patterns : Type 0 where
  pub without_tags : String → String
  pub joined_lines : String → String
  pub spaced_words : String → String
  pub only_words : String → String
  pub single_spaces : String → String

-- `PurePosixPath(path)`: `.suffix`, `.stem`, `str(.parent)`, `.name` and `str()`
pub record Paths : Type 0 where
  pub suffix : String → String
  pub stem : String → String
  pub parent : String → String
  pub file_name : String → String
  pub print : String → String

-- `SequenceMatcher(None, left, right, autojunk=False)`, and the thresholds: `below` is
-- `< DEDUP_NEAR_TEXT_RATIO`, `unlike_lengths a b` is `a / b < DEDUP_MIN_LENGTH_RATIO`.
pub record Matcher : Type 0 where
  pub exact_text_min_chars : ℕ
  pub min_text_chars : ℕ
  pub unlike_lengths : ℕ → ℕ → Bool
  pub below_ratio : Value → Bool
  pub real_quick_ratio : String → String → Value
  pub quick_ratio : String → String → Value
  pub ratio : String → String → Value

pub record Signature : Type 0 where
  pub directory : String
  pub stem : String
  pub suffix : String

-- `DEDUP_VARIANT_EXTENSIONS`
abbrev pub dedup_variant_extensions : List String
dedup_variant_extensions =
    ".odt" ∷ ".doc" ∷ ".docx" ∷ ".rtf" ∷ ".txt" ∷ ".html" ∷ ".htm" ∷ ".md" ∷ ".pdf" ∷ []

-- A reason and a similarity.
abbrev pub Reason : Type 0
Reason = String × Value

abbrev pub one_float : Value
one_float = float "1.0"

abbrev pub same_filename_variant : Option Signature → Option Signature → Bool
same_filename_variant none r = false
same_filename_variant (some l) none = false
same_filename_variant (some l) (some r) =
    l.directory == r.directory && (l.stem == r.stem && not (l.suffix == r.suffix))

abbrev pub is_hex : ℕ → Bool
is_hex c = (leb b'0' c && leb c b'9') || (leb b'a' c && leb c b'f')

module _ (m : Matcher) where
  unfoldable pub compare_texts : String → String → Option Reason
  unfolding chars
  compare_texts left right =
      let shortest = min (chars left) (chars right) in
      let longest = max (chars left) (chars right) in
      if leb m.exact_text_min_chars shortest && left == right
      then some ("exact_text", one_float)
      else if ltb shortest m.min_text_chars || (eqb longest 0 || m.unlike_lengths shortest longest)
      then none
      else if m.below_ratio (m.real_quick_ratio left right)
          || (m.below_ratio (m.quick_ratio left right) || m.below_ratio (m.ratio left right))
      then none
      else some ("near_text", m.ratio left right)

  abbrev pub or_reason : Option Reason → Option Reason → Option Reason
  or_reason none next = next
  or_reason (some reason) next = some reason

  unfoldable pub match_right : String → List String → Option Reason
  unfolding compare_texts
  match_right left [] = none
  match_right left (right ∷ rights) = or_reason (compare_texts left right) (match_right left rights)

  unfoldable pub near_duplicate_text : List String → List String → Option Reason
  unfolding match_right
  near_duplicate_text [] rights = none
  near_duplicate_text (left ∷ lefts) rights =
      or_reason (match_right left rights) (near_duplicate_text lefts rights)

module _ (py : Runtime) (p : Patterns) (paths : Paths) where
  unfoldable pub normalize_dedup_text : String → String
  unfolding strip
  normalize_dedup_text text =
      if is_empty text
      then ""
      else strip
          (p.single_spaces (p.spaced_words (py.casefold (p.joined_lines (p.without_tags text)))))

  abbrev pub add_text : String → List String → List String
  add_text text texts = if is_empty text || contains texts text then texts else texts ++ text ∷ []

  unfoldable pub dedup_candidate_texts : Fields → List String
  unfolding normalize_dedup_text text_at
  dedup_candidate_texts item = add_text (normalize_dedup_text (text_at py item "graph_snippet")) (
      add_text (normalize_dedup_text (text_at py item "es_snippet"))
        (add_text (normalize_dedup_text (text_at py item "vector_snippet")) []))

  abbrev pub signature_of : String → Option Signature
  signature_of path =
      let suffix = py.casefold (paths.suffix path) in
      let stem = p.only_words (py.casefold (paths.stem path)) in
      if not (contains dedup_variant_extensions suffix) || is_empty stem
      then none
      else some
          (record { directory = py.casefold (paths.parent path); stem = stem; suffix = suffix })

  unfoldable pub dedup_filename_signature : Fields → Option Signature
  unfolding get or_else truthy text_of lstrip_by append
  dedup_filename_signature item =
      let raw_path = or_else (get item "path") (or_else (get item "title") (str "")) in
      if not (truthy raw_path)
      then none
      else signature_of (append "/" (lstrip_by is_slash (text_of py raw_path)))

  unfoldable pub dedup_content_hash : Fields → String
  unfolding get or_else text_of strip chars
  dedup_content_hash item =
      let value = py.lower (
        strip
          (text_of py (or_else (get item "content_hash") (or_else (get item "hash") (str ""))))) in
      if eqb (chars value) 32 && all_chars is_hex value then value else ""
