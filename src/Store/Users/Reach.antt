-- ===== src/Store/Users/Reach.antt =====
-- The store of rag/credential_store.py as a state machine: whatever calls follow one another, no two
-- canonical users have the same id or the same Nextcloud account.
use mathlib.Core.Path.{subst}
use aki_rag_middleware.Prelude.{ℕ, String, ◌≡◌, refl, sym, Bool, ◌||◌, strip, is_empty}
use aki_rag_middleware.Python.Values.{Runtime}
use aki_rag_middleware.Python.Errors.{ok, value_error, guard-eq-ok}
use aki_rag_middleware.Store.Sql.{first}
use aki_rag_middleware.Store.Rows.{Db, CanonicalUser}
use aki_rag_middleware.Store.Crypto.{Cipher, SecretCrypto}
use aki_rag_middleware.Store.Credentials.{set_credential, delete_credential}
use aki_rag_middleware.Store.Credentials.Roundtrip.{set_credential-eq-ok}
use aki_rag_middleware.Store.Clients.{
  delete_client, register_client, set_client_enabled, authenticate_client,
}
use aki_rag_middleware.Store.Sessions.{
  mark_curation_session_revocation_pending, create_curation_session, get_curation_session,
  delete_curation_session_by_hash,
}
use aki_rag_middleware.Store.Users.Reauth.{clear_nextcloud_credentials_for_canonical_user}
use aki_rag_middleware.Store.Users.Same.{
  delete_client-users, register_client-users, authenticate_client-users,
  clear_nextcloud_credentials-users, create_curation_session-users, get_curation_session-users,
}
use aki_rag_middleware.Store.Users.{
  Urls, has_user_id, has_login, new_user, ensured, bind_identity, normalize_nextcloud_server,
  ensure_canonical_user, set_canonical_user_enabled, set_findings_curation_enabled, enable_user,
  enable_curation,
}
use aki_rag_middleware.Store.Users.Ensure.{IsUsers}
use aki_rag_middleware.Store.Users.Binding.{bind_identity-eq-ok}
use aki_rag_middleware.Store.Users.Valid.{IsUsers-update, ensured-IsUsers}

-- A call, and what it leaves. The calls on login flows, settings and mail accounts do not touch the
-- users and are left out, as are calls that only read.
pub data Step (py : Runtime) (urls : Urls) (cipher : Cipher) (crypto : SecretCrypto)
    : Db → Db → Type 0 where
  ensured_user :
      (fresh server login : String) (now : ℕ) (db after : Db) (user : CanonicalUser)
      → ensure_canonical_user py urls fresh server login now db ≡ ok (after, user)
      → Step py urls cipher crypto db after
  bound_identity :
      (fresh id server login : String) (now : ℕ) (db after : Db) (user : CanonicalUser)
      → bind_identity py urls fresh id server login now db ≡ ok (after, user)
      → Step py urls cipher crypto db after
  enabled_user :
      (id : String) (enabled : Bool) (now : ℕ) (db : Db)
      → Step py urls cipher crypto db (set_canonical_user_enabled id enabled now db).0
  enabled_curation :
      (id : String) (enabled : Bool) (now : ℕ) (db : Db)
      → Step py urls cipher crypto db (set_findings_curation_enabled id enabled now db).0
  stored_secret :
      (nonce id service name secret account server : String) (now : ℕ) (db after : Db)
      → set_credential py cipher crypto nonce id service name secret account server now db
        ≡ ok after
      → Step py urls cipher crypto db after
  deleted_secret :
      (id service account : String) (db : Db)
      → Step py urls cipher crypto db (delete_credential py id service account db).0
  deleted_client :
      (client : String) (purge : Bool) (db after : Db) (found : Bool)
      → delete_client client purge db ≡ ok (after, found)
      → Step py urls cipher crypto db after
  registered_client :
      (key_hash : String → String) (client key name : String) (enabled replace : Bool) (now : ℕ)
      (db after : Db)
      → register_client key_hash client key name enabled replace now db ≡ ok after
      → Step py urls cipher crypto db after
  enabled_client :
      (client : String) (enabled : Bool) (now : ℕ) (db : Db)
      → Step py urls cipher crypto db (set_client_enabled client enabled now db).0
  authenticated_client :
      (key_hash : String → String) (key : String) (touch : Bool) (now : ℕ) (db : Db)
      → Step py urls cipher crypto db (authenticate_client key_hash key touch now db).0
  cleared_credentials :
      (id : String) (db : Db)
      → Step py urls cipher crypto db (clear_nextcloud_credentials_for_canonical_user id db).0
  created_session :
      (session_hash : String → String) (token csrf nonce id server login password : String)
      (lifetime now later : ℕ) (db : Db)
      → Step py urls cipher crypto db
          (create_curation_session py urls cipher crypto session_hash token csrf nonce id server
            login password lifetime now later db).0
  read_session :
      (session_hash : String → String) (token : String) (touch : Bool) (now : ℕ) (db : Db)
      → Step py urls cipher crypto db
          (get_curation_session py urls cipher crypto session_hash token touch now db).0
  deleted_session :
      (digest : String) (db : Db)
      → Step py urls cipher crypto db (delete_curation_session_by_hash digest db).0
  revoked_session :
      (digest : String) (db : Db)
      → Step py urls cipher crypto db (mark_curation_session_revocation_pending digest db)

pub data Reach (py : Runtime) (urls : Urls) (cipher : Cipher) (crypto : SecretCrypto) (start : Db)
    : Db → Type 0 where
  here : Reach py urls cipher crypto start start
  next :
      {db after : Db}
      → Reach py urls cipher crypto start db
      → Step py urls cipher crypto db after
      → Reach py urls cipher crypto start after

module _ (py : Runtime) (urls : Urls) where
  ensure_canonical_user-IsUsers :
      (fresh server login : String) (now : ℕ) (db after : Db) (user : CanonicalUser)
      → IsUsers db.canonical_users
      → ensure_canonical_user py urls fresh server login now db ≡ ok (after, user)
      → IsUsers after.canonical_users
  unfolding ensure_canonical_user
  ensure_canonical_user-IsUsers fresh server login now db after user valid h =
      let s = normalize_nextcloud_server py urls server in
      let l = strip login in
      let (given, h2) =
        guard-eq-ok (is_empty s || is_empty l) value_error
          (ensured (new_user fresh s l now) now db (first (has_login s l) db.canonical_users)) h in
      ensured-IsUsers fresh s l now db after user valid h2

module _ {py : Runtime} {urls : Urls} {cipher : Cipher} {crypto : SecretCrypto} where
  Step-IsUsers :
      {db after : Db}
      → Step py urls cipher crypto db after
      → IsUsers db.canonical_users
      → IsUsers after.canonical_users
  unfolding set_canonical_user_enabled set_findings_curation_enabled delete_credential
      mark_curation_session_revocation_pending set_client_enabled delete_curation_session_by_hash
  Step-IsUsers (ensured_user fresh server login now db after user h) valid =
      ensure_canonical_user-IsUsers py urls fresh server login now db after user valid h
  Step-IsUsers (bound_identity fresh id server login now db after user h) valid =
      let (mid, ensured_as, same) =
        bind_identity-eq-ok py urls fresh id server login now db after user h in
      subst (λ d. IsUsers d.canonical_users) same
        (ensure_canonical_user-IsUsers py urls fresh server login now db mid user valid ensured_as)
  Step-IsUsers (enabled_user id enabled now db) valid =
      IsUsers-update (has_user_id (strip id)) (enable_user enabled now) db.canonical_users
        (λ u v. (refl, refl)) (λ u v. (refl, refl)) valid
  Step-IsUsers (enabled_curation id enabled now db) valid =
      IsUsers-update (has_user_id (strip id)) (enable_curation enabled now) db.canonical_users
        (λ u v. (refl, refl)) (λ u v. (refl, refl)) valid
  Step-IsUsers (stored_secret nonce id service name secret account server now db after h) valid =
      let (stored, sealed, same) =
        set_credential-eq-ok py cipher crypto nonce id service name secret account server now db
          after h in
      subst (λ d. IsUsers d.canonical_users) same valid
  Step-IsUsers (deleted_secret id service account db) valid = valid
  Step-IsUsers (deleted_client client b db after found h) valid =
      subst IsUsers (delete_client-users client b found db after h) valid
  Step-IsUsers (registered_client hash client key name enabled replace now db after h) valid =
      subst IsUsers (register_client-users hash client key name enabled replace now db after h)
        valid
  Step-IsUsers (enabled_client client enabled now db) valid = valid
  Step-IsUsers (authenticated_client hash key touch now db) valid =
      subst IsUsers (sym (authenticate_client-users hash key touch now db)) valid
  Step-IsUsers (cleared_credentials id db) valid =
      subst IsUsers (sym (clear_nextcloud_credentials-users id db)) valid
  Step-IsUsers
        (created_session hash token csrf nonce id server login password lifetime now later db)
        valid =
      subst IsUsers
        (sym (
          create_curation_session-users py urls cipher crypto hash token csrf nonce id server login
            password lifetime now later db))
        valid
  Step-IsUsers (read_session hash token touch now db) valid =
      subst IsUsers (sym (get_curation_session-users py urls cipher crypto hash token touch now db))
        valid
  Step-IsUsers (deleted_session digest db) valid = valid
  Step-IsUsers (revoked_session digest db) valid = valid

  -- From a store in which no two canonical users have the same id or the same Nextcloud account, no
  -- sequence of calls on users, bindings, credentials, clients and sessions leads to one that has
  -- them.
  pub Reach-IsUsers :
      {start db : Db}
      → IsUsers start.canonical_users
      → Reach py urls cipher crypto start db
      → IsUsers db.canonical_users
  Reach-IsUsers valid here = valid
  Reach-IsUsers valid (next r step) = Step-IsUsers step (Reach-IsUsers valid r)
