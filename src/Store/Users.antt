-- ===== src/Store/Users.antt =====
-- The canonical Nextcloud users of `CredentialStore` in rag/credential_store.py and the identities that
-- are bound to them. `urllib.parse` is a parameter.
pub mod Ensure
pub mod Binding
pub mod Reauth
pub mod Valid
pub mod Same
pub mod Reach
use aki_rag_middleware.Prelude.{
  ℕ, ◌+◌, String, Bool, true, false, not, ◌&&◌, ◌||◌, Option, none, some, List, ◌∷◌, [], ◌++◌, ◌==◌,
  any, eqb, ltb, leb, filter, length, strip, rstrip_by, is_empty, if◌then◌else◌,
}
use aki_rag_middleware.Python.Values.{Runtime}
use aki_rag_middleware.Python.Errors.{
  Outcome, ok, raised, value_error, integrity_error, assertion_error, ◌>>=◌,
}
use aki_rag_middleware.Store.Sql.{first, update, delete, rowcount, upsert}
use aki_rag_middleware.Store.Rows.{Db, CredentialRow, CanonicalUser, IdentityBinding}

pub record Urls : Type 0 where
  pub scheme : String → String
  pub netloc : String → String
  pub path : String → String
  pub unsplit : String → String → String → String

abbrev pub is_slash : ℕ → Bool
is_slash c = eqb c b'/'

abbrev pub has_user_id : String → CanonicalUser → Bool
has_user_id id user = user.canonical_user_id == id

abbrev pub has_login : String → String → CanonicalUser → Bool
has_login server login user = user.nextcloud_server == server && user.nextcloud_login == login

abbrev pub is_bound : String → IdentityBinding → Bool
is_bound id row = row.rag_user_id == id

abbrev pub see : ℕ → CanonicalUser → CanonicalUser
see now user = record user { last_seen_at = now; updated_at = now }

-- `assert result is not None`
abbrev pub asserted : Db → Option CanonicalUser → Outcome (Db × CanonicalUser)
asserted db none = raised assertion_error
asserted db (some user) = ok (db, user)

abbrev pub new_user : String → String → String → ℕ → CanonicalUser
new_user id server login now = record {
  canonical_user_id = id;
  nextcloud_server = server;
  nextcloud_login = login;
  enabled = true;
  created_at = now;
  updated_at = now;
  last_seen_at = now;
  findings_curation_enabled = false;
}

abbrev pub insert_user : CanonicalUser → Db → Outcome (Db × CanonicalUser)
insert_user user db =
    let db' = record db { canonical_users = db.canonical_users ++ user ∷ [] } in
    if any (has_user_id user.canonical_user_id) db.canonical_users
    then raised integrity_error
    else asserted db' (first (has_user_id user.canonical_user_id) db'.canonical_users)

abbrev pub ensured : CanonicalUser → ℕ → Db → Option CanonicalUser → Outcome (Db × CanonicalUser)
ensured new now db none = insert_user new db
ensured new now db (some old) =
    let db' = record db {
      canonical_users = update (has_user_id old.canonical_user_id) (see now) db.canonical_users;
    } in
    asserted db' (first (has_user_id old.canonical_user_id) db'.canonical_users)

abbrev pub rebind : String → ℕ → IdentityBinding → IdentityBinding
rebind id now row = record row { canonical_user_id = id; updated_at = now }

abbrev pub put_binding : String → ℕ → Db → CanonicalUser → Db
put_binding identity now db user = record db {
  bindings =
      upsert (is_bound identity)
        (record {
          rag_user_id = identity;
          canonical_user_id = user.canonical_user_id;
          created_at = now;
          updated_at = now;
        })
        (rebind user.canonical_user_id now) db.bindings;
}

module _ (py : Runtime) (urls : Urls) where
  unfoldable pub normalize_nextcloud_server : String → String
  unfolding rstrip_by strip
  normalize_nextcloud_server value =
      let text = rstrip_by is_slash (strip value) in
      if is_empty text
      then ""
      else if is_empty (urls.scheme text) || is_empty (urls.netloc text)
      then text
      else urls.unsplit (py.lower (urls.scheme text)) (py.lower (urls.netloc text))
          (rstrip_by is_slash (urls.path text))

  -- `fresh` is what `uuid.uuid4().hex` draws.
  unfoldable pub ensure_canonical_user :
      String → String → String → ℕ → Db → Outcome (Db × CanonicalUser)
  unfolding normalize_nextcloud_server first update strip
  ensure_canonical_user fresh server login now db =
      let server_value = normalize_nextcloud_server server in
      let login_value = strip login in
      if is_empty server_value || is_empty login_value
      then raised value_error
      else ensured (new_user fresh server_value login_value now) now db
          (first (has_login server_value login_value) db.canonical_users)

  unfoldable pub bind_identity :
      String → String → String → String → ℕ → Db → Outcome (Db × CanonicalUser)
  unfolding ensure_canonical_user upsert strip
  bind_identity fresh rag_user_id server login now db =
      let identity = strip rag_user_id in
      if is_empty identity then raised value_error else do
        (db', user) ← ensure_canonical_user fresh server login now db
        ok (put_binding identity now db' user, user)

unfoldable pub get_canonical_user : String → Db → Option CanonicalUser
unfolding first strip
get_canonical_user id db = first (has_user_id (strip id)) db.canonical_users

abbrev pub or_next : Option CanonicalUser → Option CanonicalUser → Option CanonicalUser
or_next (some user) next = some user
or_next none next = next

-- `identity_bindings b JOIN canonical_users u … WHERE b.rag_user_id=?`
unfoldable pub bound_user :
    List CanonicalUser → String → List IdentityBinding → Option CanonicalUser
unfolding first
bound_user users identity [] = none
bound_user users identity (b ∷ bs) =
    let rest = bound_user users identity bs in
    if is_bound identity b
    then or_next (first (has_user_id b.canonical_user_id) users) rest
    else rest

unfoldable pub get_canonical_user_for_identity : String → Db → Option CanonicalUser
unfolding bound_user strip
get_canonical_user_for_identity rag_user_id db =
    bound_user db.canonical_users (strip rag_user_id) db.bindings

abbrev pub canonical_user_count : Db → ℕ
canonical_user_count db = length db.canonical_users

abbrev pub enable_user : Bool → ℕ → CanonicalUser → CanonicalUser
enable_user enabled now user = record user { enabled = enabled; updated_at = now }

unfoldable pub set_canonical_user_enabled : String → Bool → ℕ → Db → Db × Bool
unfolding update rowcount strip
set_canonical_user_enabled id enabled now db =
    let test = has_user_id (strip id) in
    (
      record db { canonical_users = update test (enable_user enabled now) db.canonical_users },
      ltb 0 (rowcount test db.canonical_users),
    )

abbrev pub enable_curation : Bool → ℕ → CanonicalUser → CanonicalUser
enable_curation enabled now user = record user {
  findings_curation_enabled = enabled;
  updated_at = now;
}

unfoldable pub set_findings_curation_enabled : String → Bool → ℕ → Db → Db × Bool
unfolding update rowcount strip
set_findings_curation_enabled id enabled now db =
    let test = has_user_id (strip id) in
    (
      record db { canonical_users = update test (enable_curation enabled now) db.canonical_users },
      ltb 0 (rowcount test db.canonical_users),
    )
