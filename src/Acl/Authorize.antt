-- ===== src/Acl/Authorize.antt =====
-- `NextcloudLiveAcl.authorize`, `authorize_with_credential` and `_authorize_with_credential` of
-- rag/acl.py. Nextcloud is a parameter: a reply for a credential and a SEARCH body.
pub mod Batches
pub mod Congruence
pub mod Secure
pub mod Exact
use aki_rag_middleware.Prelude.{
  ℕ, zero, suc, String, Bool, true, false, not, ◌||◌, Option, none, some, List, [], ◌∷◌, ◌++◌,
  contains, length, map, filter, all, take, drop, eqb, strip, min, max, is_empty, if◌then◌else◌,
}
use aki_rag_middleware.Python.Values.{
  Runtime, Value, null, bool, int, negative, float, str, list, dict, Fields, dicts_in, truthy,
}
use aki_rag_middleware.Python.Fields.{get}
use aki_rag_middleware.Python.Errors.{
  Outcome, ok, raised, configuration_error, identity_error, backend_error, type_error, ◌>>=◌,
}
use aki_rag_middleware.Acl.Xml.{Element}
use aki_rag_middleware.Acl.FileId.{file_id}
use aki_rag_middleware.Acl.Promote.{with_variants, promote}
use aki_rag_middleware.Acl.Search.{build_fileid_search, parse_authorized_fileids}

pub record NextcloudCredential : Type 0 where
  pub username : String
  pub password : String

pub record AclDecision : Type 0 where
  pub enabled : Bool
  pub results : List Fields
  pub checked : ℕ
  pub authorized : ℕ

-- What the HTTP request gives: a body that parses or not, an error status, or a failed transport.
pub data Reply : Type 0 where
  body : Option Element → Reply
  status_error : ℕ → Reply
  transport_error : Reply

abbrev pub Server : Type 0
Server = NextcloudCredential → Element → Reply

-- A result with its file id, and its duplicates with theirs.
pub record Group : Type 0 where
  pub item : Fields
  pub representative : Option String
  pub variants : List (Fields × Option String)

-- Of the configuration: `acl.enabled`, `acl.batch_size` and whether there is a WebDAV URL.
pub record Settings : Type 0 where
  pub acl_enabled : Bool
  pub configured_batch : ℕ
  pub webdav_url : String

unfoldable pub batch_size : Settings → ℕ
batch_size s = max 1 (min 500 (if eqb s.configured_batch 0 then 100 else s.configured_batch))

-- `for offset in range(0, len(ids), size)`, on fuel; the length of the list is enough.
unfoldable pub batches : ℕ → ℕ → List String → List (List String)
batches fuel size [] = []
batches zero size (x ∷ xs) = []
batches (suc fuel) size (x ∷ xs) = take size (x ∷ xs) ∷ batches fuel size (drop size (x ∷ xs))

-- `list(dict.fromkeys(ids))`
unfoldable pub distinct : List String → List String → List String
distinct seen [] = []
distinct seen (x ∷ xs) =
    let rest = distinct seen xs in
    let next = distinct (x ∷ seen) xs in if contains seen x then rest else x ∷ next

-- `p` holds of the file id, and there is one.
abbrev pub id_in : (String → Bool) → Option String → Bool
id_in p none = false
id_in p (some n) = p n

abbrev pub id_list : Option String → List String
id_list none = []
id_list (some n) = n ∷ []

module _ (py : Runtime) where
  unfoldable pub group_of : Fields → Group
  unfolding get dicts_in
  group_of d = record {
    item = d;
    representative = file_id py d;
    variants = map (λ v. (v, file_id py v)) (dicts_in (get d "duplicate_variants"));
  }

  -- `value or []` can be iterated: no number and not `True`, unless it counts as false.
  abbrev pub is_iterable : Value → Bool
  is_iterable (bool b) = not b
  is_iterable (int n) = eqb n 0
  is_iterable (negative n) = false
  is_iterable (float digits) = not (truthy (float digits))
  is_iterable v = true

  abbrev pub is_readable : Fields → Bool
  is_readable d = is_iterable (get d "duplicate_variants")

  -- The groups are read before anything is asked; iterating a number raises a TypeError.
  unfoldable pub groups_of : List Fields → Outcome (List Group)
  unfolding group_of get truthy
  groups_of results =
      if all is_readable results then ok (map group_of results) else raised type_error

  unfoldable pub variant_ids : List (Fields × Option String) → List String
  variant_ids [] = []
  variant_ids ((v, i) ∷ vs) = id_list i ++ variant_ids vs

  unfoldable pub group_ids : List Group → List String
  unfolding variant_ids
  group_ids [] = []
  group_ids (g ∷ gs) = (variant_ids g.variants ++ id_list g.representative) ++ group_ids gs

  unfoldable pub visible_variants : (String → Bool) → List (Fields × Option String) → List Fields
  visible_variants p [] = []
  visible_variants p ((v, i) ∷ vs) =
      let rest = visible_variants p vs in if id_in p i then v ∷ rest else rest

  unfoldable pub promote_first : Fields → List Fields → List Fields
  promote_first item [] = []
  promote_first item (v ∷ rest) = promote py item v rest ∷ []

  -- The result as it is kept, with its visible duplicates; or a visible one in its place; or nothing.
  unfoldable pub keep : (String → Bool) → Group → List Fields
  unfolding visible_variants promote_first
  keep p g =
      let visible = visible_variants p g.variants in
      if id_in p g.representative
      then with_variants py visible g.item ∷ []
      else promote_first g.item visible

  unfoldable pub keep_all : (String → Bool) → List Group → List Fields
  unfolding keep
  keep_all p [] = []
  keep_all p (g ∷ gs) = keep p g ++ keep_all p gs

  -- The batches of the distinct file ids.
  abbrev pub asked : Settings → List Group → List (List String)
  asked s groups =
      let unique = distinct [] (group_ids groups) in batches (length unique) (batch_size s) unique

  abbrev pub decision_for : List Group → List String → AclDecision
  decision_for groups found =
      let kept = keep_all (contains found) groups in
      record { enabled = true; results = kept; checked = length groups; authorized = length kept }

  module _ (server : Server) where
    read_reply : Reply → Outcome (List String)
    read_reply (body none) = raised backend_error
    read_reply (body (some doc)) = ok (parse_authorized_fileids py doc)
    read_reply (status_error code) =
        if eqb code 401 || eqb code 403 then raised identity_error else raised backend_error
    read_reply transport_error = raised backend_error

    unfoldable pub search_batches : NextcloudCredential → List (List String) → Outcome (List String)
    unfolding read_reply
    search_batches credential [] = ok []
    search_batches credential (batch ∷ rest) = do
      request ← build_fileid_search py credential.username batch
      found ← read_reply (server credential request)
      more ← search_batches credential rest
      ok (found ++ more)

    unfoldable pub decide_groups : Settings → List Group → NextcloudCredential → Outcome AclDecision
    unfolding search_batches batches distinct keep_all group_ids
    decide_groups s groups credential =
        let file_ids = group_ids groups in
        if eqb (length file_ids) 0
        then ok (record { enabled = true; results = []; checked = length groups; authorized = 0 })
        else (do found ← search_batches credential (asked s groups); ok (decision_for groups found))

    abbrev checked_all : List Fields → AclDecision
    checked_all results = record {
      enabled = false;
      results = results;
      checked = length results;
      authorized = length results;
    }

    unfoldable pub authorize :
        Settings → List Fields → Outcome NextcloudCredential → Outcome AclDecision
    unfolding decide_groups groups_of
    authorize s results credential_of_user =
        if not s.acl_enabled
        then ok (checked_all results)
        else if eqb (length results) 0
        then ok (record { enabled = true; results = []; checked = 0; authorized = 0 })
        else if is_empty s.webdav_url
        then raised configuration_error
        else do
          credential ← credential_of_user
          groups ← groups_of results
          decide_groups s groups credential

    unfoldable pub authorize_with_credential :
        Settings → List Fields → String → String → Outcome AclDecision
    unfolding decide_groups groups_of
    authorize_with_credential s results username password =
        if not s.acl_enabled
        then ok (checked_all results)
        else if eqb (length results) 0
        then ok (record { enabled = true; results = []; checked = 0; authorized = 0 })
        else if is_empty s.webdav_url
        then raised configuration_error
        else if is_empty (strip username) || is_empty password
        then raised identity_error
        else do
          groups ← groups_of results
          decide_groups s groups (record { username = strip username; password = password })
