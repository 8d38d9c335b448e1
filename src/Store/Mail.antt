-- ===== src/Store/Mail.antt =====
-- The mail accounts of `CredentialStore` in rag/credential_store.py. Counts and ports are natural numbers.
pub mod Ownership
pub mod Secrets
use Prim.Native.Char.{code}
use Prim.Native.String
use aki_rag_middleware.Prelude.{
  ℕ, String, Bool, true, false, not, ◌&&◌, ◌||◌, Option, none, some, List, ◌∷◌, [], ◌++◌, ◌==◌, any,
  eqb, ltb, leb, strip, strip_by, is_empty, if◌then◌else◌,
}
use aki_rag_middleware.Python.Values.{Runtime}
use aki_rag_middleware.Python.Errors.{Outcome, ok, raised, value_error, assertion_error, ◌>>=◌}
use aki_rag_middleware.Store.Sql.{first, update, delete, rowcount}
use aki_rag_middleware.Store.Scope.{canonical_credential_owner}
use aki_rag_middleware.Store.Crypto.{Cipher, SecretCrypto}
use aki_rag_middleware.Store.Rows.{
  Db, CanonicalUser, CredentialRow, StoredCredential, MailRow, RootRow,
}
use aki_rag_middleware.Store.Credentials.{
  or_primary, is_credential, set_credential, get_credential, delete_credential,
}
use aki_rag_middleware.Store.Users.{get_canonical_user}
use aki_rag_middleware.Store.Settings.{distinct_texts, is_space_or_slash, see_root}
use aki_rag_middleware.Store.Settings.Paths.{onto_first}

-- The arguments of `save_mail_account`; mailboxes are a text or a list of texts.
pub data Mailboxes : Type 0 where
  text : String → Mailboxes
  names : List String → Mailboxes

pub record MailForm : Type 0 where
  pub account_id : String
  pub name : String
  pub enabled : Bool
  pub host : String
  pub port : ℕ
  pub security : String
  pub verify_tls : Bool
  pub username : String
  pub password : String
  pub mailboxes : Mailboxes
  pub max_messages_per_run : ℕ
  pub not_before : String
  pub store_eml : Bool
  pub store_attachments : Bool
  pub target_path : String
  pub eml_target_path : String

abbrev pub is_break : ℕ → Bool
is_break c = eqb c 13 || (eqb c 10 || eqb c b',')

-- `values.replace("\r", "\n").replace(",", "\n").split("\n")`
unfoldable pub split_names : String → List String
split_names String.[] = "" ∷ []
split_names (String.◌∷◌ c s) =
    let rest = split_names s in if is_break (code c) then "" ∷ rest else onto_first c rest

abbrev pub or_inbox : List String → List String
or_inbox [] = "INBOX" ∷ []
or_inbox (box ∷ boxes) = box ∷ boxes

-- `_clean_mailboxes`
unfoldable pub clean_mailboxes : Mailboxes → List String
unfolding split_names distinct_texts
clean_mailboxes (text values) = or_inbox (distinct_texts [] (split_names values))
clean_mailboxes (names values) = or_inbox (distinct_texts [] values)

abbrev pub has_account : String → MailRow → Bool
has_account account row = row.account_id == account

-- `UPDATE mail_accounts SET …` keeps the account's id and the time it was created.
abbrev pub replace_mail : MailRow → MailRow → MailRow
replace_mail new old = record new { account_id = old.account_id; created_at = old.created_at }

abbrev pub write_mail : MailRow → List MailRow → Option MailRow → Outcome (List MailRow)
write_mail row rows none = ok (rows ++ row ∷ [])
write_mail row rows (some old) =
    if old.canonical_user_id == row.canonical_user_id
    then ok (update (has_account row.account_id) (replace_mail row) rows)
    else raised value_error

abbrev pub see_if_named : String → ℕ → List RootRow → List RootRow
unfolding see_root
see_if_named root now roots = if is_empty root then roots else see_root root now roots

abbrev pub is_mail_secret : String → String → CredentialRow → Bool
is_mail_secret owner account row = is_credential owner "mail_imap" account row

abbrev pub rename_secret : String → String → ℕ → CredentialRow → CredentialRow
rename_secret username host now row = record row {
  username = username;
  server = host;
  updated_at = now;
}

abbrev pub known_user : Option CanonicalUser → Outcome CanonicalUser
known_user none = raised value_error
known_user (some user) = ok user

module _ (py : Runtime) (cipher : Cipher) (crypto : SecretCrypto) where
  -- The row that a form gives, once it is accepted.
  unfoldable pub mail_row : String → CanonicalUser → MailForm → ℕ → Outcome MailRow
  unfolding clean_mailboxes strip strip_by
  mail_row fresh canonical form now =
      let host_value = strip form.host in
      let username_value = strip form.username in
      let target = strip_by is_space_or_slash form.target_path in
      let security_value =
        py.lower (strip (if is_empty form.security then "tls" else form.security)) in
      let account = strip form.account_id in
      if is_empty host_value || is_empty username_value || is_empty target
      then raised value_error
      else if not
          (security_value == "tls" || security_value == "starttls" || security_value == "plain")
      then raised value_error
      else if not (leb 1 form.port && leb form.port 65535)
      then raised value_error
      else ok (record {
        account_id = if is_empty account then fresh else account;
        canonical_user_id = canonical.canonical_user_id;
        name = or_primary (strip (or_primary form.name));
        enabled = form.enabled;
        host = host_value;
        port = form.port;
        security = security_value;
        verify_tls = form.verify_tls;
        username = username_value;
        mailboxes = clean_mailboxes form.mailboxes;
        max_messages_per_run = form.max_messages_per_run;
        not_before = strip form.not_before;
        store_eml = form.store_eml;
        store_attachments = form.store_attachments;
        target_path = target;
        eml_target_path = strip_by is_space_or_slash form.eml_target_path;
        created_at = now;
        updated_at = now;
      })

  -- The first two transactions: the account, and the archive roots that it has used.
  unfoldable pub store_account : String → String → MailForm → ℕ → Db → Outcome (Db × MailRow)
  unfolding get_canonical_user mail_row first update see_root
  store_account fresh canonical_user_id form now db = do
    canonical ← known_user (get_canonical_user canonical_user_id db)
    row ← mail_row fresh canonical form now
    rows ← write_mail row db.mail_accounts (first (has_account row.account_id) db.mail_accounts)
    let roots =
        see_if_named row.eml_target_path now (see_if_named row.target_path now db.mail_roots)
    ok (record db { mail_accounts = rows; mail_roots = roots }, row)

  unfoldable pub put_secret : String → String → String → MailRow → ℕ → Db → Outcome Db
  unfolding update
  put_secret nonce password owner row now db =
      let renamed = record db {
        credentials =
            update (is_mail_secret owner row.account_id) (rename_secret row.username row.host now)
              db.credentials;
      } in
      if is_empty password
      then ok renamed
      else set_credential py cipher crypto nonce owner "mail_imap" row.username password
          row.account_id row.host now db

  -- The secret, or what is not secret of it.
  unfoldable pub store_secret : String → String → MailRow → ℕ → Db → Outcome Db
  unfolding put_secret set_credential canonical_credential_owner
  store_secret nonce password row now db = do
    owner ← canonical_credential_owner row.canonical_user_id
    put_secret nonce password owner row now db

  -- The row, and whether a secret is stored for it
  abbrev pub with_secret : Db → Option MailRow → Outcome (Option (MailRow × Bool))
  with_secret db none = ok none
  with_secret db (some row) = do
    owner ← canonical_credential_owner row.canonical_user_id
    secret ← get_credential py cipher crypto owner "mail_imap" row.account_id db
    ok (some (row, has_some secret))
    where
      has_some : Option StoredCredential → Bool
      has_some none = false
      has_some (some secret) = true

  unfoldable pub get_mail_account : String → Db → Outcome (Option (MailRow × Bool))
  unfolding first get_credential canonical_credential_owner strip
  get_mail_account account_id db =
      with_secret db (first (has_account (strip account_id)) db.mail_accounts)

  abbrev pub must_be : Option (MailRow × Bool) → Outcome (MailRow × Bool)
  must_be none = raised assertion_error
  must_be (some found) = ok found

  abbrev pub then_read : String → Db → Outcome Db → Db × Outcome (MailRow × Bool)
  then_read account db (raised e) = (db, raised e)
  then_read account db (ok db') = (db', do found ← get_mail_account account db'; must_be found)

  abbrev pub then_secret :
      String → String → ℕ → Db → Outcome (Db × MailRow) → Db × Outcome (MailRow × Bool)
  then_secret nonce password now db (raised e) = (db, raised e)
  then_secret nonce password now db (ok (db', row)) =
      then_read row.account_id db' (store_secret nonce password row now db')

  -- A failure in the second part leaves the account that the first part has stored.
  unfoldable pub save_mail_account :
      String → String → String → MailForm → ℕ → Db → Db × Outcome (MailRow × Bool)
  unfolding store_account store_secret get_mail_account
  save_mail_account fresh nonce canonical_user_id form now db =
      then_secret nonce form.password now db (store_account fresh canonical_user_id form now db)
