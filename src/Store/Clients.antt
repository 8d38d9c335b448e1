-- ===== src/Store/Clients.antt =====
-- The trusted frontends of `CredentialStore` in rag/credential_store.py. The digest of a key, which is
-- SHA-256 of hashlib, is a parameter.
pub mod Access
pub mod Removal
use aki_rag_middleware.Prelude.{
  ℕ, String, Bool, true, false, not, ◌&&◌, Option, none, some, List, ◌∷◌, [], ◌++◌, ◌==◌, any, eqb,
  ltb, length, strip, is_empty, append, if◌then◌else◌,
}
use aki_rag_middleware.Python.Errors.{Outcome, ok, raised, value_error, integrity_error, ◌>>=◌}
use aki_rag_middleware.Auth.{chars}
use aki_rag_middleware.Store.Sql.{first, update, delete, rowcount, upsert}
use aki_rag_middleware.Store.Scope.{is_client_id, starts, separator}
use aki_rag_middleware.Store.Rows.{Db, ProviderClient}

abbrev pub or_else_text : String → String → String
or_else_text text default = if is_empty text then default else text

abbrev pub has_client_id : String → ProviderClient → Bool
has_client_id client row = row.client_id == client

abbrev pub has_key_hash : String → ProviderClient → Bool
has_key_hash hash row = row.api_key_hash == hash

-- A row of another client with this hash, which the UNIQUE column refuses.
abbrev pub takes_hash : String → String → ProviderClient → Bool
takes_hash client hash row = row.api_key_hash == hash && not (row.client_id == client)

unfoldable pub new_client : String → String → String → Bool → ℕ → ProviderClient
new_client client display hash enabled now = record {
  client_id = client;
  name = display;
  api_key_hash = hash;
  enabled = enabled;
  created_at = now;
  updated_at = now;
  last_used_at = none;
}

-- `ON CONFLICT(client_id) DO UPDATE`
unfoldable pub replace_client : String → String → Bool → ℕ → ProviderClient → ProviderClient
replace_client display hash enabled now row = record row {
  name = display;
  api_key_hash = hash;
  enabled = enabled;
  updated_at = now;
}

unfoldable pub insert_client :
    Bool → ProviderClient → List ProviderClient → Outcome (List ProviderClient)
unfolding upsert replace_client
insert_client replace row rows =
    if any (takes_hash row.client_id row.api_key_hash) rows
    then raised integrity_error
    else if replace
    then ok (
        upsert (has_client_id row.client_id) row
          (replace_client row.name row.api_key_hash row.enabled row.updated_at) rows)
    else if any (has_client_id row.client_id) rows
    then raised integrity_error
    else ok (rows ++ row ∷ [])

abbrev pub touch_client : ℕ → ProviderClient → ProviderClient
touch_client now row = record row { last_used_at = some now }

abbrev pub is_live_key : String → ProviderClient → Bool
is_live_key hash row = has_key_hash hash row && row.enabled

module _ (key_hash : String → String) where
  unfoldable pub register_client : String → String → String → Bool → Bool → ℕ → Db → Outcome Db
  unfolding insert_client new_client is_client_id chars strip
  register_client client_id api_key name enabled replace now db =
      let client = strip client_id in
      let secret = strip api_key in
      let display = or_else_text (strip (or_else_text name client)) client in
      if not (is_client_id client)
      then raised value_error
      else if ltb (chars secret) 24
      then raised value_error
      else do
        rows ←
            insert_client replace (new_client client display (key_hash secret) enabled now)
              db.clients
        ok (record db { clients = rows })

  -- `secrets.token_urlsafe(32)` is the first argument.
  unfoldable pub create_client : String → String → String → ℕ → Db → Outcome (Db × String)
  unfolding register_client
  create_client token client_id name now db = do
    db' ← register_client client_id token name true false now db
    ok (db', token)

  abbrev pub authenticated : Bool → ℕ → Db → Option ProviderClient → Db × Option ProviderClient
  authenticated touch now db none = (db, none)
  authenticated true now db (some row) = (
    record db { clients = update (has_client_id row.client_id) (touch_client now) db.clients },
    some (touch_client now row),
  )
  authenticated false now db (some row) = (db, some row)

  unfoldable pub authenticate_client : String → Bool → ℕ → Db → Db × Option ProviderClient
  unfolding first update strip
  authenticate_client api_key touch now db =
      let secret = strip api_key in
      if is_empty secret
      then (db, none)
      else authenticated touch now db (first (is_live_key (key_hash secret)) db.clients)

abbrev pub enable_client : Bool → ℕ → ProviderClient → ProviderClient
enable_client enabled now row = record row { enabled = enabled; updated_at = now }

unfoldable pub set_client_enabled : String → Bool → ℕ → Db → Db × Bool
unfolding update rowcount strip
set_client_enabled client_id enabled now db =
    let client = strip client_id in
    (
      record db { clients = update (has_client_id client) (enable_client enabled now) db.clients },
      ltb 0 (rowcount (has_client_id client) db.clients),
    )

-- What belongs to the frontend-scoped identities under a prefix goes.
unfoldable pub purge : String → Db → Db
unfolding delete starts
purge prefix db = record db {
  flows = delete (λ row. starts prefix row.rag_user_id) db.flows;
  credentials = delete (λ row. starts prefix row.rag_user_id) db.credentials;
  bindings = delete (λ row. starts prefix row.rag_user_id) db.bindings;
}

unfoldable pub delete_client : String → Bool → Db → Outcome (Db × Bool)
unfolding delete rowcount purge is_client_id strip append
delete_client client_id purge_identity_state db =
    let client = strip client_id in
    let remaining = record db { clients = delete (has_client_id client) db.clients } in
    if not (is_client_id client)
    then raised value_error
    else if eqb (rowcount (has_client_id client) db.clients) 0
    then ok (db, false)
    else if purge_identity_state
    then ok (purge (append client separator) remaining, true)
    else ok (remaining, true)

abbrev pub client_count : Db → ℕ
client_count db = length db.clients
