-- ===== src/Store/Credentials.antt =====
-- The generic secrets of `CredentialStore` in rag/credential_store.py.
pub mod Roundtrip
use aki_rag_middleware.Prelude.{
  ℕ, String, Bool, true, false, ◌&&◌, ◌||◌, Option, none, some, ◌==◌, ltb, strip, is_empty, append,
  if◌then◌else◌,
}
use aki_rag_middleware.Python.Values.{Runtime}
use aki_rag_middleware.Python.Errors.{Outcome, ok, raised, value_error, ◌>>=◌}
use aki_rag_middleware.Store.Sql.{first, delete, rowcount, upsert}
use aki_rag_middleware.Store.Crypto.{Cipher, SecretCrypto, encrypt, decrypt}
use aki_rag_middleware.Store.Rows.{Db, CredentialRow, StoredCredential}

-- `_credential_aad`
unfoldable pub credential_aad : String → String → String → String
unfolding append
credential_aad rag_user_id service account_id =
    append "credential|" (append rag_user_id (append "|" (append service (append "|" account_id))))

abbrev pub is_credential : String → String → String → CredentialRow → Bool
is_credential user service account row =
    row.rag_user_id == user && (row.service == service && row.account_id == account)

abbrev pub or_primary : String → String
or_primary account = if is_empty account then "primary" else account

abbrev pub overwrite : CredentialRow → CredentialRow → CredentialRow
overwrite new old = record old {
  server = new.server;
  username = new.username;
  secret = new.secret;
  updated_at = new.updated_at;
}

abbrev pub put_credential : CredentialRow → Db → Db
put_credential row db = record db {
  credentials =
      upsert (is_credential row.rag_user_id row.service row.account_id) row (overwrite row)
        db.credentials;
}

module _ (py : Runtime) (cipher : Cipher) (crypto : SecretCrypto) where
  -- `nonce` is what `secrets.token_bytes` draws.
  unfoldable pub set_credential :
      String → String → String → String → String → String → String → ℕ → Db → Outcome Db
  unfolding credential_aad upsert encrypt strip
  set_credential nonce rag_user_id service username secret account_id server now db =
      let user = strip rag_user_id in
      let service_name = py.lower (strip service) in
      let name = strip username in
      let account = or_primary (strip (or_primary account_id)) in
      if is_empty user || is_empty service_name || is_empty name || is_empty secret
      then raised value_error
      else do
        stored ← encrypt cipher crypto nonce (credential_aad user service_name account) secret
        ok (
            put_credential
              (record {
                rag_user_id = user;
                service = service_name;
                account_id = account;
                server = server;
                username = name;
                secret = stored;
                created_at = now;
                updated_at = now;
              })
              db)

  -- `_credential_from_row`
  unfoldable pub credential_from_row : Option CredentialRow → Outcome (Option StoredCredential)
  unfolding credential_aad decrypt
  credential_from_row none = ok none
  credential_from_row (some row) = do
    secret ←
        decrypt cipher crypto (credential_aad row.rag_user_id row.service row.account_id) false
          row.secret
    ok (
        some (record {
          rag_user_id = row.rag_user_id;
          service = row.service;
          account_id = row.account_id;
          server = row.server;
          username = row.username;
          secret = secret;
        }))

  unfoldable pub get_credential : String → String → String → Db → Outcome (Option StoredCredential)
  unfolding credential_from_row first strip
  get_credential rag_user_id service account_id db = credential_from_row (
      first (is_credential (strip rag_user_id) (py.lower (strip service)) (or_primary account_id))
        db.credentials)

unfoldable pub delete_credential : Runtime → String → String → String → Db → Db × Bool
unfolding delete rowcount strip
delete_credential py rag_user_id service account_id db =
    let test =
      is_credential (strip rag_user_id) (py.lower (strip service)) (or_primary account_id) in
    (record db { credentials = delete test db.credentials }, ltb 0 (rowcount test db.credentials))
