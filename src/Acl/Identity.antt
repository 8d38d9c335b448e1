-- ===== src/Acl/Identity.antt =====
-- `NextcloudLiveAcl.prefilter_identity` of rag/acl.py: the user id and the groups that Nextcloud's OCS
-- interface names for a credential. The interface is an argument.
pub mod Groups
use aki_rag_middleware.Prelude.{
  ℕ, zero, suc, String, Bool, true, false, not, ◌||◌, ◌&&◌, Option, none, some, List, [], ◌∷◌, ◌++◌,
  ◌==◌, contains, eqb, leb, strip, is_empty, if◌then◌else◌,
}
use aki_rag_middleware.Python.{text_of}
use aki_rag_middleware.Python.Values.{
  Value, null, int, float, str, list, dict, Values, nil, cons, Runtime, or_else,
}
use aki_rag_middleware.Python.Fields.{get}
use aki_rag_middleware.Python.Errors.{
  Outcome, ok, raised, configuration_error, identity_error, backend_error, ◌>>=◌,
}
use aki_rag_middleware.Acl.Authorize.{NextcloudCredential}
use aki_rag_middleware.Auth.{chars}

-- A document that is JSON or not, an error status, or a failed transport.
pub data OcsReply : Type 0 where
  document : Option Value → OcsReply
  http_status : ℕ → OcsReply
  http_failure : OcsReply

-- `value.get(key) if isinstance(value, dict) else None`
abbrev pub member : String → Value → Value
member k (dict d) = get d k
member k v = null

abbrev pub is_dict : Value → Bool
is_dict (dict d) = true
is_dict v = false

-- `status_code in {None, 100}`, where 100.0 is 100. The TypeError of a container is a backend error
-- like a wrong code.
unfoldable pub is_ok_code : Value → Bool
is_ok_code null = true
is_ok_code (int n) = eqb n 100
is_ok_code (float digits) = digits == "100.0"
is_ok_code v = false

unfoldable pub first_values : ℕ → Values → Values
first_values zero vs = nil
first_values (suc n) nil = nil
first_values (suc n) (cons v vs) = cons v (first_values n vs)

unfoldable pub with_group : List String → String → List String
unfolding chars
with_group groups group =
    if not (is_empty group) && (leb (chars group) 256 && not (contains groups group))
    then groups ++ group ∷ []
    else groups

module _ (py : Runtime) where
  abbrev pub stripped : Value → String
  stripped v = strip (text_of py (or_else v (str "")))

  unfoldable pub add_groups : List String → Values → List String
  unfolding with_group
  add_groups groups nil = groups
  add_groups groups (cons item items) = add_groups (with_group groups (stripped item)) items

  abbrev pub groups_in : String → Value → Outcome (String × List String)
  groups_in uid null = ok (uid, [])
  groups_in uid (list items) = ok (uid, add_groups [] (first_values 256 items))
  groups_in uid other = raised backend_error

  -- `meta` may be missing, and is then fine.
  unfoldable pub is_ok_meta : Value → Bool
  unfolding is_ok_code text_of or_else
  is_ok_meta meta =
      let status = status_of meta in
      is_ok_code (member "statuscode" meta) && (is_empty status || status == "ok")
    where
      status_of : Value → String
      status_of (dict d) = py.casefold (stripped (get d "status"))
      status_of v = ""

  unfoldable pub read_identity : Value → Outcome (String × List String)
  unfolding is_ok_meta add_groups first_values
  read_identity payload =
      let data_part = member "data" (member "ocs" payload) in
      let uid = stripped (member "id" data_part) in
      if not (is_dict data_part)
      then raised backend_error
      else if not (is_ok_meta (member "meta" (member "ocs" payload)))
      then raised backend_error
      else if is_empty uid
      then raised backend_error
      else groups_in uid (member "groups" data_part)

  abbrev pub read_reply : OcsReply → Outcome (String × List String)
  read_reply (document (some payload)) = read_identity payload
  read_reply (document none) = raised backend_error
  read_reply (http_status code) =
      if eqb code 401 || eqb code 403 then raised identity_error else raised backend_error
  read_reply http_failure = raised backend_error

  unfoldable pub prefilter_identity :
      (NextcloudCredential → OcsReply)
      → Bool
      → String
      → Outcome NextcloudCredential
      → Outcome (String × List String)
  unfolding read_identity
  prefilter_identity ocs enabled base_url credential_of_user =
      if not enabled
      then raised configuration_error
      else if is_empty base_url
      then raised configuration_error
      else do credential ← credential_of_user; read_reply (ocs credential)
