-- ===== src/Store.antt =====
-- rag/credential_store.py and rag/secret_crypto.py: trusted clients, identities, secrets and sessions in
-- an SQLite database.
pub mod Sql
pub mod Scope
pub mod Crypto
pub mod Rows
pub mod Clients
pub mod Credentials
pub mod Users
pub mod Sessions
pub mod Flows
pub mod Settings
pub mod Mail
