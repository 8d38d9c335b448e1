-- ===== src/Search/Variant.antt =====
-- `_duplicate_variant` of rag/search.py: what is kept of a record that another one stands for.
use aki_rag_middleware.Prelude.{
  String, Bool, true, false, Option, none, some, ◌==◌, ◌||◌, strip, strip_by, lstrip_by, is_empty,
  append, if◌then◌else◌,
}
use aki_rag_middleware.Python.{text_of}
use aki_rag_middleware.Python.Values.{
  Runtime, Value, null, str, list, dict, nil, Fields, end, field, or_else, truthy,
}
use aki_rag_middleware.Python.Fields.{get, lookup}
use aki_rag_middleware.Acl.FileId.{after}
use aki_rag_middleware.Store.Users.{is_slash}
use aki_rag_middleware.Search.Similar.{Paths}

-- `item.get(key, default)`
abbrev pub or_given : Option Value → Value → Value
or_given none v = v
or_given (some w) v = w

abbrev pub after_prefix : Option String → String
after_prefix none = ""
after_prefix (some rest) = rest

-- `openfile_id`: both prefixes end in the first colon
abbrev pub openfile_id : String → String
openfile_id document_id = after_prefix (after "files:" document_id)

abbrev pub no_file : Value → Bool
no_file null = true
no_file (str text) = is_empty text
no_file v = false

-- `NEXTCLOUD_BASE_URL`, and `urlencode({"dir": …, "openfile": …})`
pub record Links : Type 0 where
  pub base_url : String
  pub urlencode : String → String → String

module _ (py : Runtime) (paths : Paths) (links : Links) where
  abbrev pub rooted : String → String
  rooted title = append "/" (lstrip_by is_slash title)

  abbrev pub title_text : Fields → String
  title_text item = strip (text_of py (or_else (or_given (lookup "title" item) (str "")) (str "")))

  -- `path_metadata(title)["path"]`, `["directory"]` and `["filename"]`
  abbrev pub path_in : String → String
  path_in title = if is_empty title then "" else paths.print (rooted title)

  abbrev pub directory_in : String → String
  directory_in title = if is_empty title then "/" else paths.parent (rooted title)

  abbrev pub filename_in : String → String
  filename_in title = if is_empty title then "" else paths.file_name (rooted title)

  unfoldable pub nextcloud_source_url : Value → Value → String
  unfolding or_else truthy text_of strip strip_by append
  nextcloud_source_url directory openfile =
      let dir = strip (text_of py (or_else directory (str "/"))) in
      let clean = if dir == "/" then dir else append "/" (strip_by is_slash dir) in
      if is_empty links.base_url || no_file openfile
      then ""
      else append links.base_url
          (append "/index.php/apps/files/?" (links.urlencode clean (text_of py openfile)))

  unfoldable pub duplicate_variant : Fields → String → Value → Fields
  unfolding get lookup or_else truthy text_of strip lstrip_by append nextcloud_source_url
  duplicate_variant item reason similarity =
      let title = title_text item in
      let directory = or_else (get item "directory") (str (directory_in title)) in
      let openfile =
        or_else (get item "nextcloud_openfile_id")
          (str (openfile_id (text_of py (or_given (lookup "document_id" item) (str ""))))) in
      field "document_id" (get item "document_id") (
        field "title" (or_given (lookup "title" item) (str "")) (
          field "path" (or_else (get item "path") (str (path_in title))) (
            field "directory" directory (
              field "filename" (or_else (get item "filename") (str (filename_in title))) (
                field "nextcloud_es_id"
                  (or_else (get item "nextcloud_es_id") (get item "document_id"))
                  (field "nextcloud_openfile_id" openfile (
                    field "source_url" (str (nextcloud_source_url directory openfile)) (
                      field "document_date" (get item "document_date") (
                        field "content_type" (get item "content_type") (
                          field "content_hash" (get item "content_hash") (
                            field "source" (get item "source") (
                              field "provider" (get item "provider")
                                (access_and_text item reason similarity)))))))))))))
    where
      access_and_text : Fields → String → Value → Fields
      access_and_text item reason similarity =
          field "share_names" (or_else (get item "share_names") (dict end)) (
            field "owner" (get item "owner") (
              field "users" (or_else (get item "users") (list nil)) (
                field "groups" (or_else (get item "groups") (list nil)) (
                  field "circles" (or_else (get item "circles") (list nil)) (
                    field "source_origin" (get item "source_origin") (
                      field "snippet" (or_given (lookup "snippet" item) (str "")) (
                        field "es_snippet" (or_given (lookup "es_snippet" item) (str "")) (
                          field "vector_snippet" (or_given (lookup "vector_snippet" item) (str ""))
                            (field "graph_snippet" (or_given (lookup "graph_snippet" item) (str ""))
                              (field "reason" (str reason)
                                (field "similarity" similarity end)))))))))))
