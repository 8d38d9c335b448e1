-- ===== src/Store/Users/Reauth.antt =====
-- The Nextcloud credentials of a canonical user in rag/credential_store.py, over all frontends.
use aki_rag_middleware.Prelude.{
  ℕ, ◌+◌, String, ◌≡◌, refl, ◌∙◌, eq_iff, arith, any, ◌||◌, Bool, true, false, ◌&&◌, Option, none,
  some, List, ◌∷◌, [], ◌++◌, ◌==◌, leb, filter, length, strip, if◌then◌else◌,
}
use aki_rag_middleware.Python.Values.{Runtime}
use aki_rag_middleware.Python.Errors.{Outcome}
use aki_rag_middleware.Store.Sql.{delete, rowcount}
use aki_rag_middleware.Store.Crypto.{Cipher, SecretCrypto}
use aki_rag_middleware.Store.Rows.{Db, CredentialRow, IdentityBinding, StoredCredential}
use aki_rag_middleware.Store.Sql.Keys.{filter-delete_together, eq_comm}
use aki_rag_middleware.Store.Users.{is_bound}
use aki_rag_middleware.Store.Credentials.{is_credential, credential_from_row}

-- `list_bindings`, in order of insertion: its order by id does not matter here.
unfoldable pub list_bindings : String → Db → List IdentityBinding
unfolding strip
list_bindings id db = filter (λ b. b.canonical_user_id == strip id) db.bindings

-- The newer of two rows, the first where they are as old.
abbrev pub newer : CredentialRow → Option CredentialRow → Option CredentialRow
newer row none = some row
newer row (some later) = if leb later.updated_at row.updated_at then some row else some later

-- `ORDER BY c.updated_at DESC LIMIT 1`
unfoldable pub newest : List CredentialRow → Option CredentialRow
newest [] = none
newest (row ∷ rows) = newer row (newest rows)

abbrev pub is_nextcloud : String → CredentialRow → Bool
is_nextcloud identity row = row.rag_user_id == identity && row.service == "nextcloud"

-- `identity_bindings b JOIN credentials c …`
unfoldable pub joined : List IdentityBinding → List CredentialRow → List CredentialRow
joined [] rows = []
joined (b ∷ bs) rows =
    filter (is_credential b.rag_user_id "nextcloud" "primary") rows ++ joined bs rows

unfoldable pub get_nextcloud_credential_for_canonical_user :
    Runtime → Cipher → SecretCrypto → String → Db → Outcome (Option StoredCredential)
unfolding newest joined list_bindings credential_from_row
get_nextcloud_credential_for_canonical_user py cipher crypto id db =
    credential_from_row py cipher crypto (newest (joined (list_bindings id db) db.credentials))

pub record Cleared : Type 0 where
  pub bindings : ℕ
  pub credentials_deleted : ℕ
  pub flows_deleted : ℕ

abbrev pub clear_binding : IdentityBinding → Db → Db
clear_binding b db = record db {
  credentials = delete (is_nextcloud b.rag_user_id) db.credentials;
  flows = delete (λ row. row.rag_user_id == b.rag_user_id) db.flows;
}

unfoldable pub clear_bindings : List IdentityBinding → Cleared → Db → Db × Cleared
unfolding delete rowcount
clear_bindings [] done db = (db, done)
clear_bindings (b ∷ bs) done db =
    clear_bindings bs
      (record done {
        credentials_deleted =
            done.credentials_deleted + rowcount (is_nextcloud b.rag_user_id) db.credentials;
        flows_deleted =
            done.flows_deleted + rowcount (λ row. row.rag_user_id == b.rag_user_id) db.flows;
      })
      (clear_binding b db)

unfoldable pub clear_nextcloud_credentials_for_canonical_user : String → Db → Db × Cleared
unfolding clear_bindings list_bindings
clear_nextcloud_credentials_for_canonical_user id db =
    let bindings = list_bindings id db in
    clear_bindings bindings
      (record { bindings = length bindings; credentials_deleted = 0; flows_deleted = 0 }) db

-- The credentials of an identity for a service.
abbrev pub credentials_at : String → String → Db → List CredentialRow
credentials_at identity service db =
    filter (λ row. row.rag_user_id == identity && row.service == service) db.credentials

credentials_at-clear_binding :
    (identity service : String) (b : IdentityBinding) (db : Db)
    → credentials_at identity service (clear_binding b db) ≡ (
        if is_bound identity b && service == "nextcloud"
        then []
        else credentials_at identity service db)
credentials_at-clear_binding identity service b db =
    filter-delete_together (λ row. row.rag_user_id == identity && row.service == service)
      (is_nextcloud b.rag_user_id) (is_bound identity b && service == "nextcloud") db.credentials
      (λ row wanted. rw (
        (eq_iff row.rag_user_id identity).0 (ground arith),
        (eq_iff row.service service).0 (ground arith),
        eq_comm identity b.rag_user_id,
      ))

nested_if {ℓ} :
    {A : Type ℓ} (later here wanted : Bool) (a x : A)
    → (if later && wanted then a else if here && wanted then a else x)
      ≡ (if (here || later) && wanted then a else x)
nested_if true here wanted a x = ground arith
nested_if false here wanted a x = ground arith

credentials_at-clear_bindings :
    (identity service : String) (bs : List IdentityBinding) (done : Cleared) (db : Db)
    → credentials_at identity service (clear_bindings bs done db).0 ≡ (
        if any (is_bound identity) bs && service == "nextcloud"
        then []
        else credentials_at identity service db)
unfolding clear_bindings
credentials_at-clear_bindings identity service [] done db = refl
credentials_at-clear_bindings identity service (b ∷ bs) done db =
    credentials_at-clear_bindings identity service bs _ (clear_binding b db)
    ∙ rw (credentials_at-clear_binding identity service b db) (
        nested_if (any (is_bound identity) bs) (is_bound identity b) (service == "nextcloud") []
          (credentials_at identity service db))

-- After the credentials of a canonical user are cleared, the identities that are bound to it have none
-- for Nextcloud, and every other credential is as it was.
pub clear_nextcloud_credentials_lem :
    (id identity service : String) (db : Db)
    → credentials_at identity service (clear_nextcloud_credentials_for_canonical_user id db).0 ≡ (
        if any (is_bound identity) (list_bindings id db) && service == "nextcloud"
        then []
        else credentials_at identity service db)
unfolding clear_nextcloud_credentials_for_canonical_user
clear_nextcloud_credentials_lem id identity service db =
    let bindings = list_bindings id db in
    credentials_at-clear_bindings identity service bindings
      (record { bindings = length bindings; credentials_deleted = 0; flows_deleted = 0 }) db
