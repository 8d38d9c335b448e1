-- ===== src/Store/Sessions.antt =====
-- The curation sessions of `CredentialStore` in rag/credential_store.py. The digest of a token, which is
-- SHA-256 of hashlib, is a parameter, and what `secrets` draws are arguments.
pub mod Access
use aki_rag_middleware.Prelude.{
  ℕ, ◌+◌, String, Bool, true, false, not, ◌&&◌, ◌||◌, Option, none, some, List, ◌∷◌, [], ◌++◌, ◌==◌,
  any, ltb, leb, max, strip, append, if◌then◌else◌,
}
use aki_rag_middleware.Python.Values.{Runtime}
use aki_rag_middleware.Python.Errors.{
  Outcome, ok, raised, value_error, runtime_error, permission_error, integrity_error,
  assertion_error, ◌>>=◌,
}
use aki_rag_middleware.Store.Sql.{first, update, delete, rowcount}
use aki_rag_middleware.Store.Crypto.{Cipher, SecretCrypto, usable_key, encrypt, decrypt}
use aki_rag_middleware.Store.Rows.{
  Db, CanonicalUser, SessionRow, SessionState, active, revocation_pending,
}
use aki_rag_middleware.Store.Users.{
  has_user_id, Urls, normalize_nextcloud_server, get_canonical_user,
}

-- `_curation_session_aad`
unfoldable pub session_aad : String → String → String
unfolding append
session_aad session_id_hash canonical_user_id =
    append "curation-session|" (append session_id_hash (append "|" canonical_user_id))

abbrev pub has_session : String → SessionRow → Bool
has_session digest row = row.session_id_hash == digest

abbrev pub is_active : SessionState → Bool
is_active active = true
is_active revocation_pending = false

-- `SecretCrypto.enabled`
abbrev pub is_some : Option String → Bool
is_some none = false
is_some (some key) = true

abbrev pub touch_session : ℕ → SessionRow → SessionRow
touch_session now row = record row { last_seen_at = now }

abbrev pub is_live : ℕ → SessionRow → Bool
is_live now row = is_active row.state && ltb now row.expires_at

abbrev pub may_curate : Option CanonicalUser → Outcome CanonicalUser
may_curate none = raised value_error
may_curate (some user) =
    if not user.enabled
    then raised value_error
    else if not user.findings_curation_enabled
    then raised permission_error
    else ok user

-- `INSERT INTO curation_sessions`, with its primary and its foreign key
abbrev pub insert_session : SessionRow → Db → Outcome Db
insert_session row db =
    if any (has_session row.session_id_hash) db.sessions
      || not (any (has_user_id row.canonical_user_id) db.canonical_users)
    then raised integrity_error
    else ok (record db { sessions = db.sessions ++ row ∷ [] })

module _ (py : Runtime) (urls : Urls) (cipher : Cipher) (crypto : SecretCrypto)
    (session_hash : String → String) where
  -- `_curation_session_from_row`: the row with its password decrypted
  unfoldable pub session_from_row : Option SessionRow → Outcome (Option SessionRow)
  unfolding session_aad decrypt
  session_from_row none = ok none
  session_from_row (some row) = do
    secret ←
        decrypt cipher crypto (session_aad row.session_id_hash row.canonical_user_id) false
          row.app_password
    ok (some (record row { app_password = secret }))

  unfoldable pub get_curation_session_any : String → Db → Outcome (Option SessionRow)
  unfolding session_from_row first
  get_curation_session_any session_token db =
      session_from_row (first (has_session (session_hash session_token)) db.sessions)

  -- A failing decryption leaves the touch in the table.
  abbrev pub live_session :
      String → Bool → ℕ → Db → Option SessionRow → Db × Outcome (Option SessionRow)
  live_session digest touch now db none = (db, ok none)
  live_session digest touch now db (some row) =
      let touched = record db {
        sessions = update (has_session digest) (touch_session now) db.sessions;
      } in
      if not (is_live now row)
      then (db, ok none)
      else if touch
      then (touched, session_from_row (first (has_session digest) touched.sessions))
      else (db, session_from_row (some row))

  unfoldable pub get_curation_session : String → Bool → ℕ → Db → Db × Outcome (Option SessionRow)
  unfolding first update session_from_row
  get_curation_session session_token touch now db =
      let digest = session_hash session_token in
      live_session digest touch now db (first (has_session digest) db.sessions)

  -- What is inserted, where nothing stands against it; `now` is the clock.
  unfoldable pub new_session :
      String → String → String → String → String → String → String → ℕ → ℕ → Db → Outcome Db
  unfolding get_canonical_user normalize_nextcloud_server session_aad encrypt strip
  new_session token csrf_token nonce id server login app_password lifetime now db =
      let digest = session_hash token in
      if not (is_some (usable_key crypto.mode crypto.key)) then raised runtime_error else do
        user ← may_curate (get_canonical_user id db)
        encrypted ← encrypt cipher crypto nonce (session_aad digest id) app_password
        insert_session
            (record {
              session_id_hash = digest;
              canonical_user_id = id;
              nextcloud_server = normalize_nextcloud_server py urls server;
              nextcloud_login = strip login;
              app_password = encrypted;
              csrf_token = csrf_token;
              state = active;
              created_at = now;
              expires_at = now + max 60 lifetime;
              last_seen_at = now;
            })
            db

  abbrev pub handed_out : String → Option SessionRow → Outcome (String × SessionRow)
  handed_out token none = raised assertion_error
  handed_out token (some session) = ok (token, session)

  -- `later` is the clock at the read that ends the call.
  abbrev pub created : String → ℕ → Db → Outcome Db → Db × Outcome (String × SessionRow)
  created token later db (raised e) = (db, raised e)
  created token later db (ok db') =
      (db', (get_curation_session token false later db').1 >>= handed_out token)

  unfoldable pub create_curation_session :
      String
      → String
      → String
      → String
      → String
      → String
      → String
      → ℕ
      → ℕ
      → ℕ
      → Db
      → Db × Outcome (String × SessionRow)
  unfolding new_session get_curation_session
  create_curation_session token csrf_token nonce id server login app_password lifetime now later
        db =
      created token later db
        (new_session token csrf_token nonce id server login app_password lifetime now db)

abbrev pub pend_session : SessionRow → SessionRow
pend_session row = record row { state = revocation_pending }

unfoldable pub mark_curation_session_revocation_pending : String → Db → Db
unfolding update strip
mark_curation_session_revocation_pending session_id_hash db = record db {
  sessions = update (has_session (strip session_id_hash)) pend_session db.sessions;
}

unfoldable pub delete_curation_session_by_hash : String → Db → Db × Bool
unfolding delete rowcount strip
delete_curation_session_by_hash session_id_hash db = (
  record db { sessions = delete (has_session (strip session_id_hash)) db.sessions },
  ltb 0 (rowcount (has_session (strip session_id_hash)) db.sessions),
)
