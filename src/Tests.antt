-- ===== src/Tests.antt =====
-- Runs on small inputs, and the theorems at inputs that meet their hypotheses.
mod Cloud
mod Database
mod Credential
mod Store
mod Origin
mod Search
mod Sync
mod Acl
mod Queue
mod Rest
