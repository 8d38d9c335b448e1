-- ===== src/Tests/Store.antt =====
-- rag/credential_store.py and rag/secret_crypto.py on a small database.
use aki_rag_middleware.Prelude.{
  String, ◌≡◌, refl, true, false, some, [], ◌∷◌, all, append, is_space, strip,
}
use aki_rag_middleware.Python.Ascii.{ascii}
use aki_rag_middleware.Python.Errors.{ok}
use aki_rag_middleware.Store.Scope.{scope_identity, split_scoped_identity}
use aki_rag_middleware.Store.Scope.Laws.{split_scoped_identity-scope_identity}
use aki_rag_middleware.Store.Crypto.{
  KeyFile, required, from_environment, encrypt, decrypt, is_encrypted,
}
use aki_rag_middleware.Store.Crypto.Laws.{IsUsable, encrypt-required}
use aki_rag_middleware.Store.Rows.{Db, ProviderClient, SessionRow, CanonicalUser, active}
use aki_rag_middleware.Store.Clients.{register_client, authenticate_client, delete_client}
use aki_rag_middleware.Store.Clients.Access.{authenticate_client-register_client}
use aki_rag_middleware.Store.Clients.Removal.{
  credentials_of, flows_of, bindings_of, delete_client-isolated,
}
use aki_rag_middleware.Store.Credentials.{set_credential, get_credential}
use aki_rag_middleware.Store.Credentials.Roundtrip.{get_credential-set_credential}
use aki_rag_middleware.Store.Users.{
  bind_identity, set_canonical_user_enabled, get_canonical_user, get_canonical_user_for_identity,
}
use aki_rag_middleware.Store.Users.Ensure.{IsUsers}
use aki_rag_middleware.Store.Users.Binding.{
  get_canonical_user_for_identity-bind_identity, bind_identity-shared,
}
use aki_rag_middleware.Store.Users.Reach.{
  bound_identity, enabled_user, Reach, here, next, Reach-IsUsers,
}
use aki_rag_middleware.Store.Users.Reauth.{
  credentials_at, clear_nextcloud_credentials_for_canonical_user, clear_nextcloud_credentials_lem,
}
use aki_rag_middleware.Store.Sessions.{get_curation_session, new_session}
use aki_rag_middleware.Store.Sessions.Access.{get_curation_session-new_session}
use aki_rag_middleware.Store.Settings.Paths.{
  normalize_chat_archive_path, split_slash, good_part, normalize_chat_archive_path_lem,
}
use aki_rag_middleware.Store.Mail.{MailForm, text, save_mail_account}
use aki_rag_middleware.Store.Mail.Ownership.{accounts_of, save_mail_account-others}
use aki_rag_middleware.Tests.Database.{
  open_cipher, open_cipher-IsCipher, keyed, urls, empty_db, one_user, alice_user, client, account,
  binding,
}

abbrev same : String → String
same s = s

abbrev key : String
key = "0123456789012345678901234567"

split_scoped_identity-scope_identity_example :
    split_scoped_identity "web::alice" ≡ some ("web", "alice")
unfolding scope_identity is_space
split_scoped_identity-scope_identity_example =
    split_scoped_identity-scope_identity " web" "alice " "web::alice" refl

abbrev after_delete : Db
after_delete = record empty_db { canonical_users = alice_user ∷ [] }

delete_client-isolated_example :
    (credentials_of "web::alice" after_delete ≡ [])
    × (flows_of "web::alice" after_delete ≡ [])
    × (bindings_of "web::alice" after_delete ≡ [])
unfolding delete_client scope_identity is_space
delete_client-isolated_example =
    delete_client-isolated "web" "web" "alice" "web::alice" one_user after_delete refl refl

abbrev registered : Db
registered = record empty_db { clients = client ∷ [] }

authenticate_client-register_client_example :
    (row : ProviderClient) × ((authenticate_client same key false 5 registered).1 ≡ some row)
    × (row.client_id ≡ "web")
unfolding register_client is_space
authenticate_client-register_client_example =
    authenticate_client-register_client same "web" key "" false false 1 5 empty_db registered refl

abbrev stored_account : Db
stored_account = record empty_db { credentials = account ∷ [] }

get_credential-set_credential_example :
    get_credential ascii open_cipher keyed "web::alice" "nextcloud" "" stored_account
    ≡ ok (
        some (record {
          rag_user_id = "web::alice";
          service = "nextcloud";
          account_id = "primary";
          server = "cloud";
          username = "alice";
          secret = "secret";
        }))
unfolding set_credential is_encrypted is_space
get_credential-set_credential_example =
    get_credential-set_credential ascii open_cipher keyed "n" "web::alice" " nextcloud" "alice"
      "secret" "" "cloud" 1 empty_db stored_account "web::alice" "nextcloud" "" open_cipher-IsCipher
      refl refl

abbrev key_file : KeyFile
key_file = record { valid = true; secure_permissions = true; content = "k" }

encrypt-required_example :
    (found : KeyFile) × (some key_file ≡ some found)
    × IsUsable found
    × (encrypt open_cipher (record { mode = required; key = some "k" }) "n" "aad" "secret"
        ≡ ok (append "enc:v1:" (open_cipher.seal found.content "n" "aad" "secret")))
    × (decrypt open_cipher
          (record { mode = required; key = some "k" })
          "aad"
          false
          (append "enc:v1:" (open_cipher.seal found.content "n" "aad" "secret"))
        ≡ ok "secret")
unfolding from_environment is_encrypted
encrypt-required_example =
    encrypt-required open_cipher (some key_file) (record { mode = required; key = some "k" }) "n"
      "aad" "secret" open_cipher-IsCipher refl refl

abbrev new_alice : CanonicalUser
new_alice = record alice_user { findings_curation_enabled = false }

abbrev bound : Db
bound = record empty_db { canonical_users = new_alice ∷ []; bindings = binding ∷ [] }

nil-IsUsers : IsUsers []
nil-IsUsers = record { ids = tt; logins = tt }

get_canonical_user_for_identity-bind_identity_example :
    (get_canonical_user_for_identity "web::alice" bound ≡ some new_alice)
    × (new_alice.nextcloud_server ≡ "cloud")
    × (new_alice.nextcloud_login ≡ "alice")
unfolding bind_identity is_space
get_canonical_user_for_identity-bind_identity_example =
    get_canonical_user_for_identity-bind_identity ascii urls "u1" "web::alice" "cloud/" "alice" 1
      empty_db bound new_alice nil-IsUsers refl

abbrev second : Db
second = record empty_db {
  canonical_users = record new_alice { last_seen_at = 2; updated_at = 2 } ∷ [];
  bindings =
      binding ∷ record binding { rag_user_id = "app::al"; created_at = 2; updated_at = 2 } ∷ [];
}

bind_identity-shared_example :
    (record new_alice { last_seen_at = 2; updated_at = 2 }).canonical_user_id ≡ "u1"
unfolding bind_identity is_space
bind_identity-shared_example =
    bind_identity-shared ascii urls "u1" "u2" "web::alice" "app::al" "cloud/" "cloud" "alice"
      " alice" 1 2 empty_db bound second new_alice
      (record new_alice { last_seen_at = 2; updated_at = 2 }) nil-IsUsers refl refl refl refl

abbrev history :
    Reach ascii urls open_cipher keyed empty_db (set_canonical_user_enabled "u1" false 3 second).0
unfolding bind_identity is_space
history =
    next
      (next
        (next here
          (bound_identity "u1" "web::alice" "cloud/" "alice" 1 empty_db bound new_alice refl))
        (bound_identity "u2" "app::al" "cloud" " alice" 2 bound second
          (record new_alice { last_seen_at = 2; updated_at = 2 }) refl))
      (enabled_user "u1" false 3 second)

Reach-IsUsers_example : IsUsers (set_canonical_user_enabled "u1" false 3 second).0.canonical_users
Reach-IsUsers_example = Reach-IsUsers nil-IsUsers history

clear_nextcloud_credentials_lem_example :
    credentials_at "web::alice" "nextcloud"
      (clear_nextcloud_credentials_for_canonical_user "u1" one_user).0
    ≡ []
unfolding clear_nextcloud_credentials_for_canonical_user is_space strip
clear_nextcloud_credentials_lem_example =
    clear_nextcloud_credentials_lem "u1" "web::alice" "nextcloud" one_user

abbrev session : SessionRow
session = record {
  session_id_hash = "t";
  canonical_user_id = "u1";
  nextcloud_server = "cloud";
  nextcloud_login = "alice";
  app_password = "enc:v1:pw";
  csrf_token = "csrf";
  state = active;
  created_at = 10;
  expires_at = 70;
  last_seen_at = 10;
}

abbrev with_session : Db
with_session = record one_user { sessions = session ∷ [] }

get_curation_session-new_session_example :
    (get_curation_session ascii urls open_cipher keyed same "t" false 69 with_session).1
    ≡ ok (some (record session { app_password = "pw" }))
unfolding new_session is_encrypted is_space
get_curation_session-new_session_example =
    get_curation_session-new_session ascii urls open_cipher keyed same "t" "csrf" "n" "u1" "cloud"
      "alice" "pw" 5 10 one_user with_session false 69 open_cipher-IsCipher refl refl

normalize_chat_archive_path_lem_example : all good_part (split_slash "a/b") ≡ true
unfolding normalize_chat_archive_path is_space
normalize_chat_archive_path_lem_example = normalize_chat_archive_path_lem "/a / b/" "a/b" refl

abbrev form : MailForm
form = record {
  account_id = "";
  name = "";
  enabled = true;
  host = "imap";
  port = 993;
  security = "tls";
  verify_tls = true;
  username = "alice";
  password = "pw";
  mailboxes = text "INBOX,Sent";
  max_messages_per_run = 50;
  not_before = "";
  store_eml = false;
  store_attachments = false;
  target_path = "mail/";
  eml_target_path = "";
}

save_mail_account-others_example :
    accounts_of "u2"
      (save_mail_account ascii open_cipher keyed "m1" "n" "u1" form 3 one_user).0.mail_accounts
    ≡ []
unfolding get_canonical_user strip is_space
save_mail_account-others_example =
    save_mail_account-others ascii open_cipher keyed "m1" "n" "u1" "u2" form 3 one_user alice_user
      tt refl refl
