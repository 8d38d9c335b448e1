-- ===== src/Store/Sessions/Access.antt =====
-- Who gets a curation session in rag/credential_store.py, and for how long.
use mathlib.Core.Path.{subst}
use aki_rag_middleware.Prelude.{
  ℕ, ◌+◌, String, ◌≡◌, refl, sym, ap, ◌∙◌, Bool, true, false, not, ◌&&◌, ◌||◌, Option, none, some,
  List, ◌∷◌, [], ◌++◌, any, All, eq_refl, arith, ltb, max, strip, if◌then◌else◌, Bool-cases,
  Option-cases, inl, inr,
}
use aki_rag_middleware.Python.Values.{Runtime}
use aki_rag_middleware.Python.Errors.{
  Outcome, ok, raised, value_error, runtime_error, permission_error, integrity_error, ◌>>=◌,
  >>=-eq-ok, ok-injective, guard-eq-ok,
}
use aki_rag_middleware.Store.Sql.{first, update}
use aki_rag_middleware.Store.Sql.Keys.{first-All}
use aki_rag_middleware.Store.Sql.Distinct.{first-added, first-update}
use aki_rag_middleware.Store.Crypto.{
  Cipher, IsCipher, SecretCrypto, usable_key, encrypt, decrypt, is_encrypted,
}
use aki_rag_middleware.Store.Crypto.Laws.{decrypt-encrypt}
use aki_rag_middleware.Store.Rows.{Db, CanonicalUser, SessionRow, active}
use aki_rag_middleware.Store.Users.{
  Urls, normalize_nextcloud_server, get_canonical_user, has_user_id,
}
use aki_rag_middleware.Store.Sessions.{
  session_aad, has_session, is_active, is_live, is_some, touch_session, may_curate, insert_session,
  get_curation_session, new_session, pend_session, mark_curation_session_revocation_pending,
}

abbrev Revoked : String → SessionRow → Type 0
Revoked digest row = (has_session digest row && is_active row.state) ≡ false

pend_session-Revoked :
    (digest : String) (rows : List SessionRow)
    → All (Revoked digest) (update (has_session digest) pend_session rows)
unfolding update
pend_session-Revoked digest [] = tt
pend_session-Revoked digest (r ∷ rows) = (ground arith, pend_session-Revoked digest rows)

may_curate-eq-ok :
    (o : Option CanonicalUser) (user : CanonicalUser)
    → may_curate o ≡ ok user
    → (o ≡ some user) × (user.enabled ≡ true) × (user.findings_curation_enabled ≡ true)
may_curate-eq-ok none user h = absurd (cc)
may_curate-eq-ok (some u) user h =
    let curating = if not u.findings_curation_enabled then raised permission_error else ok u in
    let (on, h2) = guard-eq-ok (not u.enabled) value_error curating h in
    let (allowed, h3) = guard-eq-ok (not u.findings_curation_enabled) permission_error (ok u) h2 in
    let same : u ≡ user = ok-injective h3 in
    (
      ap some same,
      ap (λ v. v.enabled) (sym same) ∙ ground arith,
      ap (λ v. v.findings_curation_enabled) (sym same) ∙ ground arith,
    )

module _ (py : Runtime) (urls : Urls) (cipher : Cipher) (crypto : SecretCrypto)
    (session_hash : String → String) where
  abbrev get : String → Bool → ℕ → Db → Outcome (Option SessionRow)
  get token touch t db =
      (get_curation_session py urls cipher crypto session_hash token touch t db).1

  -- A session that is marked for revocation is handed out no more, where the digest of its token
  -- has no white space around it.
  get_curation_session-revoked :
      (token : String) (touch : Bool) (t : ℕ) (db : Db)
      → strip (session_hash token) ≡ session_hash token
      → get token touch t (mark_curation_session_revocation_pending (session_hash token) db)
        ≡ ok none
  unfolding get_curation_session mark_curation_session_revocation_pending
  get_curation_session-revoked token touch t db plain =
      let digest = session_hash token in
      let rows = update (has_session digest) pend_session db.sessions in
      rw plain (elim (Option-cases (first (has_session digest) rows)) [
        | inl missing ↦ rw (get, missing)
        | inr (r, found) ↦
            let (dead, own) =
              first-All (Revoked digest) (has_session digest) rows r found
                (pend_session-Revoked digest db.sessions) in
            let off : is_live t r ≡ false = ground arith in rw (get, found, off)
      ])

  abbrev session : String → String → String → String → String → String → ℕ → ℕ → ℕ → SessionRow
  session token csrf id server login password lifetime now seen = record {
    session_id_hash = session_hash token;
    canonical_user_id = id;
    nextcloud_server = normalize_nextcloud_server py urls server;
    nextcloud_login = strip login;
    app_password = password;
    csrf_token = csrf;
    state = active;
    created_at = now;
    expires_at = now + max 60 lifetime;
    last_seen_at = seen;
  }

  get-inserted :
      (token csrf id server login password sealed : String) (lifetime now : ℕ) (touch : Bool)
      (t : ℕ) (db : Db)
      → first (has_session (session_hash token)) db.sessions
        ≡ some (session token csrf id server login sealed lifetime now now)
      → decrypt cipher crypto (session_aad (session_hash token) id) false sealed ≡ ok password
      → get token touch t db ≡ (
          if ltb t (now + max 60 lifetime)
          then ok (
              some (
                session token csrf id server login password lifetime now
                  (if touch then t else now)))
          else ok none)
  unfolding get_curation_session
  get-inserted token csrf id server login password sealed lifetime now touch t db found clear =
      let digest = session_hash token in
      let row = session token csrf id server login sealed lifetime now now in
      elim (Bool-cases (ltb t (now + max 60 lifetime))) [
        | inl live ↦ elim (Bool-cases touch) [
          | inl touched ↦
              let there =
                first-update (has_session digest) (has_session digest) (touch_session t) db.sessions
                  row (λ r. refl) found in
              rw (get, found, live, touched, there, eq_refl digest, clear)
          | inr plain ↦ rw (get, found, live, plain, clear)
        ]
        | inr dead ↦ rw (get, found, dead)
      ]

  pub new_session-eq-ok :
      (token csrf nonce id server login password : String) (lifetime now : ℕ) (db after : Db)
      → new_session py urls cipher crypto session_hash token csrf nonce id server login password
          lifetime now db
        ≡ ok after
      → (user : CanonicalUser) × (may_curate (get_canonical_user id db) ≡ ok user)
        × ((sealed : String) × (encrypt cipher crypto nonce
                (session_aad (session_hash token) id)
                password
              ≡ ok sealed)
            × (insert_session (session token csrf id server login sealed lifetime now now) db
                ≡ ok after))
  unfolding new_session
  new_session-eq-ok token csrf nonce id server login password lifetime now db after h =
      let sealing = encrypt cipher crypto nonce (session_aad (session_hash token) id) password in
      let write : String → Outcome Db =
        λ e. insert_session (session token csrf id server login e lifetime now now) db in
      let seal : CanonicalUser → Outcome Db = λ u. sealing >>= write in
      let keyed = is_some (usable_key crypto.mode crypto.key) in
      let allowed = may_curate (get_canonical_user id db) in
      let (able, h2) = guard-eq-ok (not keyed) runtime_error (allowed >>= seal) h in
      let (user, may, h3) = >>=-eq-ok allowed seal h2 in
      let (sealed, made, h4) = >>=-eq-ok sealing write h3 in (user, may, (sealed, made, h4))

  -- A session is inserted only for a user who is known, enabled and may curate.
  new_session-allowed :
      (token csrf nonce id server login password : String) (lifetime now : ℕ) (db after : Db)
      → new_session py urls cipher crypto session_hash token csrf nonce id server login password
          lifetime now db
        ≡ ok after
      → (user : CanonicalUser) × (get_canonical_user id db ≡ some user)
        × (user.enabled ≡ true)
        × (user.findings_curation_enabled ≡ true)
  new_session-allowed token csrf nonce id server login password lifetime now db after h =
      let (user, may, rest) =
        new_session-eq-ok token csrf nonce id server login password lifetime now db after h in
      let (there, on, curating) = may_curate-eq-ok (get_canonical_user id db) user may in
      (user, there, on, curating)

  -- A session that is inserted, with a password that is not marked as encrypted already, is handed
  -- out with that password until it expires, at least a minute after it began, and no longer.
  pub get_curation_session-new_session :
      (token csrf nonce id server login password : String) (lifetime now : ℕ) (db after : Db)
      (touch : Bool) (t : ℕ)
      → IsCipher cipher
      → is_encrypted password ≡ false
      → new_session py urls cipher crypto session_hash token csrf nonce id server login password
          lifetime now db
        ≡ ok after
      → get token touch t after ≡ (
          if ltb t (now + max 60 lifetime)
          then ok (
              some (record {
                session_id_hash = session_hash token;
                canonical_user_id = id;
                nextcloud_server = normalize_nextcloud_server py urls server;
                nextcloud_login = strip login;
                app_password = password;
                csrf_token = csrf;
                state = active;
                created_at = now;
                expires_at = now + max 60 lifetime;
                last_seen_at = if touch then t else now;
              }))
          else ok none)
  get_curation_session-new_session token csrf nonce id server login password lifetime now db after
        touch t lawful plain h =
      let (user, may, (sealed, made, inserted)) =
        new_session-eq-ok token csrf nonce id server login password lifetime now db after h in
      let digest = session_hash token in
      let row = session token csrf id server login sealed lifetime now now in
      let refused =
        any (has_session digest) db.sessions || not (any (has_user_id id) db.canonical_users) in
      let (free, kept) =
        guard-eq-ok refused integrity_error (ok (record db { sessions = db.sessions ++ row ∷ [] }))
          inserted in
      let clear =
        decrypt-encrypt cipher lawful crypto nonce (session_aad digest id) password sealed plain
          made in
      subst
        (λ d. get token touch t d ≡ (
          if ltb t (now + max 60 lifetime)
          then ok (
              some (
                session token csrf id server login password lifetime now
                  (if touch then t else now)))
          else ok none))
        (ok-injective kept)
        (get-inserted token csrf id server login password sealed lifetime now touch t
          (record db { sessions = db.sessions ++ row ∷ [] })
          (first-added (has_session digest) db.sessions row (ground arith) (eq_refl digest)) clear)
