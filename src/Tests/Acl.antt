-- ===== src/Tests/Acl.antt =====
-- rag/acl.py on a result that the user cannot see and that has a visible duplicate.
use aki_rag_middleware.Prelude.{
  ◌+◌, ◌≤◌, String, ◌≡◌, refl, true, some, List, [], ◌∷◌, arith, All, contains, is_space,
}
use aki_rag_middleware.Python.Ascii.{ascii, ascii-IsUnicode}
use aki_rag_middleware.Python.Values.{Fields, field, end, str, list, dict, cons, nil, truthy}
use aki_rag_middleware.Python.Fields.{get, lookup}
use aki_rag_middleware.Python.Errors.{ok}
use aki_rag_middleware.Acl.Xml.{Element, height}
use aki_rag_middleware.Acl.FileId.{file_id}
use aki_rag_middleware.Acl.Promote.{promote}
use aki_rag_middleware.Acl.Promote.Laws.{promote_noninterference}
use aki_rag_middleware.Acl.Search.{comparison, nested_or, build_fileid_search}
use aki_rag_middleware.Acl.Search.Tree.{literals, literals_of, nested_or-balanced}
use aki_rag_middleware.Acl.Search.Body.{folder_of, build_fileid_search_lem}
use aki_rag_middleware.Acl.Search.Meaning.{asks}
use aki_rag_middleware.Acl.Authorize.{Settings}
use aki_rag_middleware.Acl.Authorize.Secure.{IsShown, authorize_secure}
use aki_rag_middleware.Acl.Authorize.Exact.{authorize_exact, decision_by}
use aki_rag_middleware.Tests.Cloud.{visible, cloud, alice, cloud-Answers, cloud-IsHonest}

abbrev copy : Fields
copy =
    field "document_id" (str "files:2")
      (field "title" (str "Copy") (field "snippet" (str "text") end))

abbrev denied : Fields
denied = field "document_id" (str "files:1") (
    field "title" (str "Secret")
      (field "rank" (str "1") (field "duplicate_variants" (list (cons (dict copy) nil)) end)))

-- The same ranking on another document.
abbrev denied_other : Fields
denied_other = field "rank" (str "1") (field "title" (str "Other") end)

abbrev live : Settings
live = record { acl_enabled = true; configured_batch = 1; webdav_url = "https://cloud/" }

authorize_secure_example :
    All (IsShown ascii visible) (decision_by ascii visible (denied ∷ copy ∷ [])).results
unfolding get lookup
authorize_secure_example =
    authorize_secure ascii ascii-IsUnicode cloud alice visible cloud-IsHonest live
      (denied ∷ copy ∷ []) (decision_by ascii visible (denied ∷ copy ∷ [])) refl
      (authorize_exact ascii ascii-IsUnicode cloud alice visible cloud-Answers live
        (denied ∷ copy ∷ []) refl refl)

promote_noninterference_example : promote ascii denied copy [] ≡ promote ascii denied_other copy []
promote_noninterference_example = promote_noninterference ascii denied denied_other copy [] (
    unfold lookup in
    (
      refl,
      (
        refl,
        (
          refl,
          (
            refl,
            (
              refl,
              (
                refl,
                (
                  refl,
                  (
                    refl,
                    (
                      refl,
                      (
                        refl,
                        (
                          refl,
                          (
                            refl,
                            (refl, (refl, (refl, (refl, (refl, (refl, (refl, (refl, tt)))))))),
                          ),
                        ),
                      ),
                    ),
                  ),
                ),
              ),
            ),
          ),
        ),
      ),
    ))

copy_id : file_id ascii copy ≡ some "2"
unfolding file_id truthy is_space
copy_id = refl

abbrev two : List Element
two = comparison "1" ∷ comparison "2" ∷ []

nested_or-balanced_example :
    (e : Element) × (nested_or two ≡ ok e) × (literals e ≡ literals_of two) × (height e ≤ 3 + 1)
unfolding comparison height
nested_or-balanced_example =
    nested_or-balanced 3 1 two (omega arith) (omega arith) (omega arith, (omega arith, tt))

build_fileid_search_lem_example :
    (request : Element) × (build_fileid_search ascii "alice" ("1" ∷ "2" ∷ []) ≡ ok request)
    × ((n : String) → asks (folder_of ascii "alice") request n ≡ contains ("1" ∷ "2" ∷ []) n)
build_fileid_search_lem_example =
    build_fileid_search_lem ascii ascii-IsUnicode "alice" ("1" ∷ "2" ∷ []) (refl, (refl, tt))
      (omega arith)
