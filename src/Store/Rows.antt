-- ===== src/Store/Rows.antt =====
-- The tables of rag/credential_store.py, one row type to a table. Times are numbers of seconds, a JSON
-- column is its value.
use aki_rag_middleware.Prelude.{ℕ, String, Bool, Option, List}

pub record CredentialRow : Type 0 where
  pub rag_user_id : String
  pub service : String
  pub account_id : String
  pub server : String
  pub username : String
  pub secret : String
  pub created_at : ℕ
  pub updated_at : ℕ

-- A credential as the store hands it out, its secret decrypted.
pub record StoredCredential : Type 0 where
  pub rag_user_id : String
  pub service : String
  pub account_id : String
  pub server : String
  pub username : String
  pub secret : String

pub record FlowRow : Type 0 where
  pub flow_id : String
  pub rag_user_id : String
  pub poll_endpoint : String
  pub poll_token : String
  pub login_url : String
  pub created_at : ℕ

pub record ProviderClient : Type 0 where
  pub client_id : String
  pub name : String
  pub api_key_hash : String
  pub enabled : Bool
  pub created_at : ℕ
  pub updated_at : ℕ
  pub last_used_at : Option ℕ

pub record CanonicalUser : Type 0 where
  pub canonical_user_id : String
  pub nextcloud_server : String
  pub nextcloud_login : String
  pub enabled : Bool
  pub created_at : ℕ
  pub updated_at : ℕ
  pub last_seen_at : ℕ
  pub findings_curation_enabled : Bool

pub record IdentityBinding : Type 0 where
  pub rag_user_id : String
  pub canonical_user_id : String
  pub created_at : ℕ
  pub updated_at : ℕ

pub data SessionState : Type 0 where
  active revocation_pending : SessionState

pub record SessionRow : Type 0 where
  pub session_id_hash : String
  pub canonical_user_id : String
  pub nextcloud_server : String
  pub nextcloud_login : String
  pub app_password : String
  pub csrf_token : String
  pub state : SessionState
  pub created_at : ℕ
  pub expires_at : ℕ
  pub last_seen_at : ℕ

pub record ModelSettings : Type 0 where
  pub canonical_user_id : String
  pub default_model_id : String
  pub allowed_model_ids : List String
  pub updated_at : ℕ

pub record MailRow : Type 0 where
  pub account_id : String
  pub canonical_user_id : String
  pub name : String
  pub enabled : Bool
  pub host : String
  pub port : ℕ
  pub security : String
  pub verify_tls : Bool
  pub username : String
  pub mailboxes : List String
  pub max_messages_per_run : ℕ
  pub not_before : String
  pub store_eml : Bool
  pub store_attachments : Bool
  pub target_path : String
  pub eml_target_path : String
  pub created_at : ℕ
  pub updated_at : ℕ

pub record RootRow : Type 0 where
  pub target_path : String
  pub first_seen_at : ℕ
  pub last_seen_at : ℕ

pub record WebSettings : Type 0 where
  pub canonical_user_id : String
  pub enabled : Bool
  pub archive_enabled : Bool
  pub target_path : String
  pub created_at : ℕ
  pub updated_at : ℕ

pub record ChatSettings : Type 0 where
  pub canonical_user_id : String
  pub enabled : Bool
  pub target_path : String
  pub updated_at : ℕ

pub record Db : Type 0 where
  pub credentials : List CredentialRow
  pub flows : List FlowRow
  pub clients : List ProviderClient
  pub canonical_users : List CanonicalUser
  pub bindings : List IdentityBinding
  pub sessions : List SessionRow
  pub model_settings : List ModelSettings
  pub mail_accounts : List MailRow
  pub mail_roots : List RootRow
  pub web_settings : List WebSettings
  pub web_roots : List RootRow
  pub chat_settings : List ChatSettings
  pub chat_roots : List RootRow
  pub scope_migration : Option String
