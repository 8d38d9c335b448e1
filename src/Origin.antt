-- ===== src/Origin.antt =====
-- rag/source_origin.py: the origin of a document, and the source scopes that let it through. The
-- registry, the settings and `PurePosixPath(path).name` are parameters.
pub mod OptIn
use Prim.Native.String.{String}
use aki_rag_middleware.Prelude.{
  ℕ, Bool, true, false, not, ◌&&◌, ◌||◌, Option, none, some, List, [], ◌∷◌, ◌++◌, ◌==◌, any, filter,
  map, contains, eqb, strip, strip_by, is_empty, append, if◌then◌else◌,
}
use aki_rag_middleware.Python.Values.{Runtime}
use aki_rag_middleware.Python.Errors.{Outcome, ok, raised, value_error, ◌>>=◌}
use aki_rag_middleware.Store.Scope.{starts}
use aki_rag_middleware.Store.Users.{is_slash}
use Prim.Native.Char.{code}

-- `SPECIAL_ORIGINS`
abbrev pub special_origins : List String
special_origins = "mail_archive" ∷ "web_archive" ∷ "chat_archive" ∷ []

-- `ALLOWED_SOURCE_SCOPES`
abbrev pub allowed_source_scopes : List String
allowed_source_scopes = "documents" ∷ "mailarchive" ∷ "webarchive" ∷ "chatarchive" ∷ []

-- The roots as the settings have them: those of the users and the chat settings beside the global ones.
pub record Archives : Type 0 where
  pub web_archive_root : String
  pub user_archive_roots : List String
  pub chat_archive_root : String
  pub configured_chat_roots : List String
  pub mail_archive_roots : List String

-- `text.replace("\\", "/")`
unfoldable pub forward : String → String
forward String.[] = String.[]
forward (String.◌∷◌ c s) =
    let rest = forward s in if eqb (code c) b'\\' then append "/" rest else String.◌∷◌ c rest

unfoldable pub normalize_path : String → String
unfolding strip strip_by forward
normalize_path value = strip_by is_slash (forward (strip value))

-- `text.endswith(suffix)`
unfoldable pub ends : String → String → Bool
ends suffix String.[] = is_empty suffix
ends suffix (String.◌∷◌ c s) = suffix == String.◌∷◌ c s || ends suffix s

abbrev pub given : List String → List String
given texts = filter (λ text. not (is_empty text)) texts

-- The sets of roots, in any order: only membership counts.
abbrev pub web_archive_roots : Archives → List String
web_archive_roots a = given (a.web_archive_root ∷ a.user_archive_roots)

abbrev pub chat_archive_roots : Archives → List String
chat_archive_roots a = given (a.chat_archive_root ∷ "AKI-Chats" ∷ a.configured_chat_roots)

abbrev pub scope_for : String → Option String
scope_for origin =
    if origin == "internal"
    then some "documents"
    else if origin == "mail_archive"
    then some "mailarchive"
    else if origin == "web_archive"
    then some "webarchive"
    else if origin == "chat_archive"
    then some "chatarchive"
    else none

abbrev pub is_named : List String → Option String → Bool
is_named scopes none = false
is_named scopes (some scope) = contains scopes scope

abbrev pub allows_origin : Option (List String) → String → Bool
allows_origin none origin = origin == "internal"
allows_origin (some scopes) origin = is_named scopes (scope_for origin)

abbrev pub special : Option String → Bool
special none = false
special (some origin) = contains special_origins origin

abbrev pub or_empty : Option String → String
or_empty none = ""
or_empty (some text) = text

abbrev pub or_none : List String → Option (List String)
or_none [] = none
or_none (scope ∷ scopes) = some (scope ∷ scopes)

module _ (py : Runtime) (name : String → String) (registered_origin : String → Option String) where
  unfoldable pub path_is_under : String → String → Bool
  unfolding normalize_path starts append
  path_is_under path root =
      let p = py.casefold (normalize_path path) in
      let r = py.casefold (normalize_path root) in
      not (is_empty r) && (p == r || starts (append r "/") p)

  unfoldable pub is_machine_sidecar_path : String → Bool
  unfolding normalize_path starts ends
  is_machine_sidecar_path path =
      let n = py.casefold (name (normalize_path path)) in
      n == ".mailmeta.json"
      || (starts "." n && ends ".mailmeta.json" n)
      || (starts "." n && ends ".sunaq.json" n)
      || (starts "." n && ends ".akirag.json" n)
      || (starts "." n && ends ".metadata.json" n)

  unfoldable pub normalize_source_scopes : Option (List String) → Outcome (Option (List String))
  unfolding strip
  normalize_source_scopes none = ok none
  normalize_source_scopes (some values) =
      let scopes = map py.casefold (given (map strip values)) in
      if any (λ scope. not (contains allowed_source_scopes scope)) scopes
      then raised value_error
      else ok (or_none scopes)

  abbrev pub registered : String → Option String
  unfolding strip
  registered document_id =
      if is_empty document_id then none else registered_origin (strip document_id)

  abbrev pub under : String → List String → Bool
  unfolding path_is_under
  under path roots = any (path_is_under path) roots

  -- The origin by the path, where the registry has none.
  abbrev pub classify_path : Archives → String → String
  unfolding is_machine_sidecar_path
  classify_path a path =
      if is_machine_sidecar_path path
      then "machine_metadata"
      else if under path (web_archive_roots a)
      then "web_archive"
      else if under path (chat_archive_roots a)
      then "chat_archive"
      else if under path a.mail_archive_roots
      then "mail_archive"
      else "internal"

  unfoldable pub classify_source_origin : Archives → String → String → String
  classify_source_origin a path document_id =
      if special (registered document_id)
      then or_empty (registered document_id)
      else classify_path a path

  unfoldable pub record_origin : Archives → String → String → Option String → String
  unfolding strip classify_source_origin
  record_origin a document_id path indexed_origin =
      let origin = strip (or_empty indexed_origin) in
      if special (some origin) then origin else classify_source_origin a path document_id

  unfoldable pub source_scope_allows_record :
      Archives → String → String → Option (List String) → Option String → Outcome Bool
  unfolding is_machine_sidecar_path normalize_source_scopes record_origin
  source_scope_allows_record a document_id path scopes indexed_origin =
      let origin = record_origin a document_id path indexed_origin in
      if is_machine_sidecar_path path
      then ok false
      else (do normalized ← normalize_source_scopes scopes; ok (allows_origin normalized origin))

  abbrev pub source_scope_allows_path : Archives → String → Option (List String) → Outcome Bool
  unfolding source_scope_allows_record
  source_scope_allows_path a path scopes = source_scope_allows_record a "" path scopes none
