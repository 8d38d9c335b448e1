-- ===== src/Acl.antt =====
-- rag/acl.py: live Nextcloud authorization of retrieved results.
pub mod FileId
pub mod Promote
pub mod Xml
pub mod Search
pub mod Authorize
pub mod Credential
pub mod Identity
