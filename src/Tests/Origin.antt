-- ===== src/Tests/Origin.antt =====
-- The source scopes of rag/source_origin.py on a page of the web archive.
use Prim.Native.String.{String}
use aki_rag_middleware.Prelude.{
  Bool, false, ◌≡◌, refl, Option, none, some, List, [], ◌∷◌, strip, lstrip, rstrip, is_space,
  strip_by, lstrip_by, rstrip_by, append,
}
use aki_rag_middleware.Python.Errors.{Outcome, ok, raised, value_error}
use aki_rag_middleware.Python.Ascii.{ascii}
use aki_rag_middleware.Store.Scope.{starts}
use aki_rag_middleware.Store.Settings.Paths.{split_slash}
use aki_rag_middleware.Origin.{
  Archives, forward, ends, normalize_path, path_is_under, is_machine_sidecar_path,
  normalize_source_scopes, classify_source_origin, record_origin, source_scope_allows_record,
}

abbrev archives : Archives
archives = record {
  web_archive_root = "Webarchiv";
  user_archive_roots = [];
  chat_archive_root = "SunaQ-Chats";
  configured_chat_roots = [];
  mail_archive_roots = "Mail" ∷ [];
}

abbrev last_of : List String → String
last_of [] = ""
last_of (part ∷ []) = part
last_of (part ∷ next ∷ parts) = last_of (next ∷ parts)

abbrev file_name : String → String
unfolding split_slash
file_name path = last_of (split_slash path)

abbrev unregistered : String → Option String
unregistered document_id = none

abbrev allows : String → Option (List String) → Outcome Bool
allows path scopes =
    source_scope_allows_record ascii file_name unregistered archives "files:7" path scopes none

allows-none : allows "/Webarchiv/page.pdf" none ≡ ok false
unfolding source_scope_allows_record record_origin classify_source_origin normalize_source_scopes
    is_machine_sidecar_path path_is_under normalize_path forward ends starts strip lstrip rstrip
    is_space strip_by lstrip_by rstrip_by append split_slash
allows-none = refl

allows-unknown : allows "/a.pdf" (some ("internet" ∷ [])) ≡ raised value_error
unfolding source_scope_allows_record record_origin classify_source_origin normalize_source_scopes
    is_machine_sidecar_path path_is_under normalize_path forward ends starts strip lstrip rstrip
    is_space strip_by lstrip_by rstrip_by append split_slash
allows-unknown = refl

abbrev origin : String
origin = record_origin ascii file_name unregistered archives "files:7" "/Webarchiv/page.pdf" none
