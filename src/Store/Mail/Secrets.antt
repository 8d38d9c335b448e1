-- ===== src/Store/Mail/Secrets.antt =====
-- The passwords of mail accounts in rag/credential_store.py, and the removal of an account.
use aki_rag_middleware.Prelude.{
  String, ℕ, Bool, false, Option, none, some, ltb, is_empty, if◌then◌else◌,
}
use aki_rag_middleware.Python.Values.{Runtime}
use aki_rag_middleware.Python.Errors.{Outcome, ok, raised, value_error, ◌>>=◌}
use aki_rag_middleware.Store.Sql.{delete, rowcount}
use aki_rag_middleware.Store.Scope.{canonical_credential_owner}
use aki_rag_middleware.Store.Crypto.{Cipher, SecretCrypto}
use aki_rag_middleware.Store.Rows.{Db, MailRow, StoredCredential}
use aki_rag_middleware.Store.Credentials.{set_credential, get_credential, delete_credential}
use aki_rag_middleware.Store.Mail.{has_account, get_mail_account, must_be}

module _ (py : Runtime) (cipher : Cipher) (crypto : SecretCrypto) where
  abbrev pub secret_of : Db → Option (MailRow × Bool) → Outcome (Option StoredCredential)
  secret_of db none = ok none
  secret_of db (some (row, has_secret)) = do
    owner ← canonical_credential_owner row.canonical_user_id
    get_credential py cipher crypto owner "mail_imap" row.account_id db

  -- `get_mail_secret` of an account's id
  unfoldable pub get_mail_secret : String → Db → Outcome (Option StoredCredential)
  unfolding get_mail_account get_credential canonical_credential_owner
  get_mail_secret account_id db = do
    item ← get_mail_account py cipher crypto account_id db
    secret_of db item

  abbrev pub write_secret :
      String → String → ℕ → Db → Option (MailRow × Bool) → Outcome (Db × String)
  write_secret nonce secret now db none = raised value_error
  write_secret nonce secret now db (some (row, has_secret)) = do
    owner ← canonical_credential_owner row.canonical_user_id
    db' ←
        if is_empty secret
        then raised value_error
        else set_credential py cipher crypto nonce owner "mail_imap" row.username secret
            row.account_id row.host now db
    ok (db', row.account_id)

  abbrev pub reread : Db → Outcome (Db × String) → Db × Outcome (MailRow × Bool)
  reread db (raised e) = (db, raised e)
  reread db (ok (db', account)) = (
    db',
    do found ← get_mail_account py cipher crypto account db'; must_be py cipher crypto found,
  )

  unfoldable pub set_mail_secret : String → String → String → ℕ → Db → Db × Outcome (MailRow × Bool)
  unfolding get_mail_account set_credential canonical_credential_owner
  set_mail_secret nonce account_id secret now db = reread db (do
    item ← get_mail_account py cipher crypto account_id db
    write_secret nonce secret now db item)

  abbrev pub remove_secret : String → Bool → Db → Outcome String → Db × Outcome Bool
  remove_secret account removed db (raised e) = (db, raised e)
  remove_secret account removed db (ok owner) =
      ((delete_credential py owner "mail_imap" account db).0, ok removed)

  abbrev pub remove_item : Db → Outcome (Option (MailRow × Bool)) → Db × Outcome Bool
  remove_item db (raised e) = (db, raised e)
  remove_item db (ok none) = (db, ok false)
  remove_item db (ok (some (row, has_secret))) =
      remove_secret row.account_id (ltb 0 (rowcount (has_account row.account_id) db.mail_accounts))
        (record db { mail_accounts = delete (has_account row.account_id) db.mail_accounts })
        (canonical_credential_owner row.canonical_user_id)

  unfoldable pub delete_mail_account : String → Db → Db × Outcome Bool
  unfolding get_mail_account delete rowcount delete_credential canonical_credential_owner
  delete_mail_account account_id db =
      remove_item db (get_mail_account py cipher crypto account_id db)
