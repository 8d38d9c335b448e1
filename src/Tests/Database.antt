-- ===== src/Tests/Database.antt =====
-- A small credential database: the frontend web with its user alice, bound to a Nextcloud account.
use aki_rag_middleware.Prelude.{true, none, some, [], ◌∷◌, refl}
use aki_rag_middleware.Store.Crypto.{Cipher, IsCipher, SecretCrypto, preferred}
use aki_rag_middleware.Store.Rows.{
  Db, CredentialRow, CanonicalUser, IdentityBinding, ProviderClient,
}
use aki_rag_middleware.Store.Users.{Urls}

-- It seals nothing, which the law of a cipher allows.
abbrev pub open_cipher : Cipher
open_cipher = record { seal = λ key nonce aad text. text; reveal = λ key aad payload. some payload }

pub open_cipher-IsCipher : IsCipher open_cipher
open_cipher-IsCipher = record { reveal-seal = λ key nonce aad text. refl }

abbrev pub keyed : SecretCrypto
keyed = record { mode = preferred; key = some "k" }

abbrev pub urls : Urls
urls = record {
  scheme = λ s. "https";
  netloc = λ s. s;
  path = λ s. "";
  unsplit = λ scheme netloc path. netloc;
}

abbrev pub empty_db : Db
empty_db = record {
  credentials = [];
  flows = [];
  clients = [];
  canonical_users = [];
  bindings = [];
  sessions = [];
  model_settings = [];
  mail_accounts = [];
  mail_roots = [];
  web_settings = [];
  web_roots = [];
  chat_settings = [];
  chat_roots = [];
  scope_migration = none;
}

abbrev pub account : CredentialRow
account = record {
  rag_user_id = "web::alice";
  service = "nextcloud";
  account_id = "primary";
  server = "cloud";
  username = "alice";
  secret = "enc:v1:secret";
  created_at = 1;
  updated_at = 1;
}

abbrev pub alice_user : CanonicalUser
alice_user = record {
  canonical_user_id = "u1";
  nextcloud_server = "cloud";
  nextcloud_login = "alice";
  enabled = true;
  created_at = 1;
  updated_at = 1;
  last_seen_at = 1;
  findings_curation_enabled = true;
}

abbrev pub client : ProviderClient
client = record {
  client_id = "web";
  name = "web";
  api_key_hash = "0123456789012345678901234567";
  enabled = true;
  created_at = 1;
  updated_at = 1;
  last_used_at = none;
}

abbrev pub binding : IdentityBinding
binding = record {
  rag_user_id = "web::alice";
  canonical_user_id = "u1";
  created_at = 1;
  updated_at = 1;
}

abbrev pub one_user : Db
one_user = record empty_db {
  credentials = account ∷ [];
  clients = client ∷ [];
  canonical_users = alice_user ∷ [];
  bindings = binding ∷ [];
}
