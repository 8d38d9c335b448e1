-- ===== src/Store/Users/Same.antt =====
-- The calls on clients, sessions and credentials of rag/credential_store.py that leave the canonical
-- users as they are.
use aki_rag_middleware.Prelude.{
  ℕ, String, ◌≡◌, refl, sym, ap, Bool, true, false, not, Option, none, some, List, [], ◌∷◌, strip,
  is_empty, ltb, eqb, append, inl, inr, if◌then◌else◌, Bool-cases,
}
use aki_rag_middleware.Python.Values.{Runtime}
use aki_rag_middleware.Python.Errors.{
  Outcome, ok, raised, value_error, integrity_error, ◌>>=◌, >>=-eq-ok, ok-injective, guard-eq-ok,
  if-eq-ok,
}
use aki_rag_middleware.Auth.{chars}
use aki_rag_middleware.Store.Scope.{is_client_id, separator}
use aki_rag_middleware.Store.Sql.{first, delete, rowcount}
use aki_rag_middleware.Store.Rows.{Db, CanonicalUser, ProviderClient, SessionRow, IdentityBinding}
use aki_rag_middleware.Store.Crypto.{Cipher, SecretCrypto}
use aki_rag_middleware.Store.Clients.{
  or_else_text, new_client, insert_client, register_client, is_live_key, authenticated,
  authenticate_client, delete_client, purge, has_client_id,
}
use aki_rag_middleware.Store.Users.{Urls}
use aki_rag_middleware.Store.Sessions.{
  has_session, is_live, live_session, get_curation_session, new_session, created,
  create_curation_session,
}
use aki_rag_middleware.Store.Sessions.Access.{new_session-eq-ok}
use aki_rag_middleware.Store.Users.Reauth.{
  Cleared, clear_binding, clear_bindings, list_bindings,
  clear_nextcloud_credentials_for_canonical_user,
}

abbrev pub users_of : Db → List CanonicalUser
users_of db = db.canonical_users

pub delete_client-users :
    (client_id : String) (b found : Bool) (db after : Db)
    → delete_client client_id b db ≡ ok (after, found)
    → users_of db ≡ users_of after
unfolding delete_client purge
delete_client-users client_id b found db after h =
    let client = strip client_id in
    let remaining = record db { clients = delete (has_client_id client) db.clients } in
    let clean : Outcome (Db × Bool) =
      if b then ok (purge (append client separator) remaining, true) else ok (remaining, true) in
    let absent = eqb (rowcount (has_client_id client) db.clients) 0 in
    let (named, h2) =
      guard-eq-ok (not (is_client_id client)) value_error (if absent then ok (db, false) else clean)
        h in
    elim (if-eq-ok absent (db, false) clean h2) [
      | inl e ↦ ap (λ p. users_of p.0) e
      | inr e ↦
          elim (if-eq-ok b (purge (append client separator) remaining, true) (ok (remaining, true))
            e) [
              | inl e2 ↦ ap (λ p. users_of p.0) e2
              | inr e2 ↦ ap (λ p. users_of p.0) (ok-injective e2)
            ]
    ]

module _ (key_hash : String → String) where
  pub register_client-users :
      (client_id api_key name : String) (enabled replace : Bool) (now : ℕ) (db after : Db)
      → register_client key_hash client_id api_key name enabled replace now db ≡ ok after
      → users_of db ≡ users_of after
  unfolding register_client
  register_client-users client_id api_key name enabled replace now db after h =
      let client = strip client_id in
      let secret = strip api_key in
      let display = or_else_text (strip (or_else_text name client)) client in
      let row = new_client client display (key_hash secret) enabled now in
      let write : List ProviderClient → Outcome Db = λ rows. ok (record db { clients = rows }) in
      let insertion = insert_client replace row db.clients >>= write in
      let long : Outcome Db = if ltb (chars secret) 24 then raised value_error else insertion in
      let (known, h2) = guard-eq-ok (not (is_client_id client)) value_error long h in
      let (enough, h3) = guard-eq-ok (ltb (chars secret) 24) value_error insertion h2 in
      let (rows, inserted, h4) = >>=-eq-ok (insert_client replace row db.clients) write h3 in
      ap users_of (ok-injective h4)

  pub authenticate_client-users :
      (api_key : String) (touch : Bool) (now : ℕ) (db : Db)
      → users_of (authenticate_client key_hash api_key touch now db).0 ≡ users_of db
  unfolding authenticate_client
  authenticate_client-users api_key touch now db = elim (Bool-cases (is_empty (strip api_key))) [
    | inl blank ↦ rw blank refl
    | inr given ↦ rw given (found touch (first (is_live_key (key_hash (strip api_key))) db.clients))
  ]
    where
      found :
          (b : Bool) (o : Option ProviderClient)
          → users_of (authenticated key_hash b now db o).0 ≡ users_of db
      found b none = refl
      found true (some row) = refl
      found false (some row) = refl

module _ (py : Runtime) (urls : Urls) (cipher : Cipher) (crypto : SecretCrypto)
    (session_hash : String → String) where
  pub get_curation_session-users :
      (token : String) (touch : Bool) (now : ℕ) (db : Db)
      → users_of (get_curation_session py urls cipher crypto session_hash token touch now db).0
        ≡ users_of db
  unfolding get_curation_session
  get_curation_session-users token touch now db =
      found (first (has_session (session_hash token)) db.sessions)
    where
      found :
          (o : Option SessionRow)
          → users_of
              (live_session py urls cipher crypto session_hash
                (session_hash token)
                touch
                now
                db
                o).0
            ≡ users_of db
      found none = refl
      found (some row) = elim (Bool-cases (is_live now row)) [
        | inr over ↦ rw over refl
        | inl live ↦ elim (Bool-cases touch) [
          | inl touched ↦ rw (live, touched) refl
          | inr plain ↦ rw (live, plain) refl
        ]
      ]

  pub new_session-users :
      (token csrf nonce id server login password : String) (lifetime now : ℕ) (db after : Db)
      → new_session py urls cipher crypto session_hash token csrf nonce id server login password
          lifetime now db
        ≡ ok after
      → users_of db ≡ users_of after
  new_session-users token csrf nonce id server login password lifetime now db after h =
      let (user, may, (sealed, made, inserted)) =
        new_session-eq-ok py urls cipher crypto session_hash token csrf nonce id server login
          password lifetime now db after h in
      let (free, stored) = guard-eq-ok _ integrity_error _ inserted in
      ap users_of (ok-injective stored)

  pub create_curation_session-users :
      (token csrf nonce id server login password : String) (lifetime now later : ℕ) (db : Db)
      → users_of
          (create_curation_session py urls cipher crypto session_hash token csrf nonce id server
            login password lifetime now later db).0
        ≡ users_of db
  unfolding create_curation_session
  create_curation_session-users token csrf nonce id server login password lifetime now later db =
      ended
        (new_session py urls cipher crypto session_hash token csrf nonce id server login password
          lifetime now db)
        (new_session-users token csrf nonce id server login password lifetime now db)
    where
      ended :
          (m : Outcome Db)
          → ((after : Db) → m ≡ ok after → users_of db ≡ users_of after)
          → users_of (created py urls cipher crypto session_hash token later db m).0 ≡ users_of db
      ended (raised e) same = refl
      ended (ok after) same = sym (same after refl)

clear_bindings-users :
    (bs : List IdentityBinding) (done : Cleared) (db : Db)
    → users_of (clear_bindings bs done db).0 ≡ users_of db
unfolding clear_bindings
clear_bindings-users [] done db = refl
clear_bindings-users (b ∷ bs) done db = clear_bindings-users bs _ (clear_binding b db)

pub clear_nextcloud_credentials-users :
    (id : String) (db : Db)
    → users_of (clear_nextcloud_credentials_for_canonical_user id db).0 ≡ users_of db
unfolding clear_nextcloud_credentials_for_canonical_user
clear_nextcloud_credentials-users id db = clear_bindings-users (list_bindings id db) _ db
