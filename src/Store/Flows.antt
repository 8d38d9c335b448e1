-- ===== src/Store/Flows.antt =====
-- The pending Nextcloud logins of `CredentialStore` in rag/credential_store.py.
use aki_rag_middleware.Prelude.{
  ℕ, ◌-◌, String, Bool, false, ◌&&◌, Option, none, some, List, ◌∷◌, [], ◌++◌, ◌==◌, any, leb,
  filter, strip, append, is_empty, if◌then◌else◌,
}
use aki_rag_middleware.Python.Errors.{Outcome, ok, raised, integrity_error, ◌>>=◌}
use aki_rag_middleware.Store.Sql.{first, delete, rowcount}
use aki_rag_middleware.Store.Crypto.{Cipher, SecretCrypto, encrypt, decrypt}
use aki_rag_middleware.Store.Rows.{Db, FlowRow}

-- `_flow_aad`
unfoldable pub flow_aad : String → String → String
unfolding append
flow_aad flow_id rag_user_id = append "nextcloud-flow|" (append flow_id (append "|" rag_user_id))

abbrev pub has_flow : String → FlowRow → Bool
has_flow id row = row.flow_id == id

abbrev pub is_flow_of : String → FlowRow → Bool
is_flow_of user row = row.rag_user_id == user

abbrev pub insert_flow : FlowRow → Db → Outcome (Db × String)
insert_flow row db =
    if any (has_flow row.flow_id) db.flows
    then raised integrity_error
    else ok (record db { flows = db.flows ++ row ∷ [] }, row.flow_id)

-- The newer of two rows, the first where they are as old.
abbrev pub newer_flow : FlowRow → Option FlowRow → Option FlowRow
newer_flow row none = some row
newer_flow row (some later) = if leb later.created_at row.created_at then some row else some later

unfoldable pub newest_flow : List FlowRow → Option FlowRow
newest_flow [] = none
newest_flow (row ∷ rows) = newer_flow row (newest_flow rows)

module _ (cipher : Cipher) (crypto : SecretCrypto) where
  unfoldable pub create_nextcloud_flow :
      String → String → String → String → String → String → ℕ → Db → Outcome (Db × String)
  unfolding flow_aad encrypt strip
  create_nextcloud_flow fresh nonce rag_user_id poll_endpoint poll_token login_url now db = do
    stored_token ← encrypt cipher crypto nonce (flow_aad fresh (strip rag_user_id)) poll_token
    insert_flow
        (record {
          flow_id = fresh;
          rag_user_id = strip rag_user_id;
          poll_endpoint = poll_endpoint;
          poll_token = stored_token;
          login_url = login_url;
          created_at = now;
        })
        db

  unfoldable pub flow_from_row : Option FlowRow → Outcome (Option FlowRow)
  unfolding flow_aad decrypt
  flow_from_row none = ok none
  flow_from_row (some row) = do
    token ← decrypt cipher crypto (flow_aad row.flow_id row.rag_user_id) false row.poll_token
    ok (some (record row { poll_token = token }))

  unfoldable pub get_nextcloud_flow : String → Db → Outcome (Option FlowRow)
  unfolding flow_from_row first
  get_nextcloud_flow flow_id db = flow_from_row (first (has_flow flow_id) db.flows)

  -- `ORDER BY created_at DESC LIMIT 1`; a cutoff before the epoch excludes no row.
  unfoldable pub get_recent_nextcloud_flow : String → ℕ → ℕ → Db → Outcome (Option FlowRow)
  unfolding flow_from_row newest_flow strip
  get_recent_nextcloud_flow rag_user_id max_age now db =
      let user = strip rag_user_id in
      if is_empty user
      then ok none
      else flow_from_row (
          newest_flow
            (filter (λ row. is_flow_of user row && leb (now - max_age) row.created_at) db.flows))

unfoldable pub delete_nextcloud_flows_for_user : String → Db → Db × ℕ
unfolding delete rowcount strip
delete_nextcloud_flows_for_user rag_user_id db =
    let user = strip rag_user_id in
    if is_empty user then (db, 0) else (
      record db { flows = delete (is_flow_of user) db.flows },
      rowcount (is_flow_of user) db.flows,
    )

unfoldable pub delete_nextcloud_flow : String → Db → Db
unfolding delete
delete_nextcloud_flow flow_id db = record db { flows = delete (has_flow flow_id) db.flows }
