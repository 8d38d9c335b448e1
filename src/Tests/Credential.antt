-- ===== src/Tests/Credential.antt =====
-- `_credential` of rag/acl.py on a store with one account, and `prefilter_identity` on one answer.
use aki_rag_middleware.Prelude.{
  String, length, ◌≤◌, is_empty, List, ◌≡◌, refl, true, false, none, some, [], ◌∷◌, ◌==◌,
  if◌then◌else◌, is_space, strip,
}
use aki_rag_middleware.Python.Ascii.{ascii}
use aki_rag_middleware.Python.Values.{Value, int, list, cons, nil, Fields, field, end, str, dict}
use aki_rag_middleware.Python.Fields.{lookup, get}
use aki_rag_middleware.Python.Errors.{ok, raised, identity_error}
use aki_rag_middleware.Acl.Credential.{credential, is_disabled}
use aki_rag_middleware.Acl.Credential.Bound.{credential-granted}
use aki_rag_middleware.Auth.{Env}
use aki_rag_middleware.Acl.Authorize.{NextcloudCredential}
use aki_rag_middleware.Acl.Identity.{OcsReply, document, prefilter_identity}
use aki_rag_middleware.Acl.Identity.Groups.{IsGroups, prefilter_identity-IsGroups}
use aki_rag_middleware.Store.Rows.{Db, StoredCredential}
use aki_rag_middleware.Store.Credentials.{get_credential}
use aki_rag_middleware.Store.Users.{get_canonical_user_for_identity}
use aki_rag_middleware.Tests.Database.{open_cipher, keyed, one_user, alice_user}
use aki_rag_middleware.Tests.Cloud.{alice}

abbrev environment : Env
environment name =
    if name == "ALICE"
    then some "alice"
    else if name == "ALICE_PASSWORD"
    then some "secret"
    else none

abbrev locked : Db
locked = record one_user { canonical_users = record alice_user { enabled = false } ∷ [] }

abbrev by_store : Fields
by_store = field "acl" (dict (field "identity_mode" (str "credential_store") end)) end

abbrev by_map : Fields
by_map =
    field "acl"
      (dict (
        field "identity_mode" (str "mapped_users") (
          field "user_map"
            (dict (
              field "web:alice"
                (dict (
                  field "username_env" (str "ALICE")
                    (field "password_env" (str "ALICE_PASSWORD") end)))
                end))
            end)))
      end

locked_out :
    credential ascii environment open_cipher keyed locked by_store (some "web::alice")
    ≡ raised identity_error
unfolding credential is_space strip lookup
locked_out = refl

credential-granted_example :
    (row : StoredCredential) × (get_credential ascii open_cipher keyed "web::alice" "nextcloud"
        "primary" one_user
      ≡ ok (some row))
    × (row.username ≡ "alice")
    × (row.secret ≡ "secret")
    × (is_disabled (get_canonical_user_for_identity "web::alice" one_user) ≡ false)
unfolding credential is_space strip lookup
credential-granted_example =
    credential-granted ascii environment open_cipher keyed one_user by_store (some " web::alice ")
      alice refl refl

-- Nextcloud names the group staff twice, and a blank one.
abbrev ocs_answer : Value
ocs_answer = dict (
    field "ocs"
      (dict (
        field "meta" (dict (field "status" (str "ok") (field "statuscode" (int 100) end))) (
          field "data"
            (dict (
              field "id" (str "alice") (
                field "groups"
                  (list (cons (str "staff") (cons (str " ") (cons (str "staff ") nil)))) end)))
            end)))
      end)

abbrev ocs : NextcloudCredential → OcsReply
ocs c = document (some ocs_answer)

abbrev staff : List String
staff = "staff" ∷ []

prefilter_identity-IsGroups_example :
    IsGroups staff × (length staff ≤ 256) × (is_empty "alice" ≡ false)
unfolding prefilter_identity is_space strip get lookup
prefilter_identity-IsGroups_example =
    prefilter_identity-IsGroups ascii ocs true "https://cloud" (ok alice) "alice" staff refl
