-- ===== src/Store/Settings.antt =====
-- The settings of a canonical user in `CredentialStore` of rag/credential_store.py: models, the web
-- archive and the chat archive.
pub mod Paths
use aki_rag_middleware.Prelude.{
  ℕ, String, Bool, true, false, not, ◌&&◌, ◌||◌, Option, none, some, List, ◌∷◌, [], ◌==◌, any, eqb,
  ltb, filter, map, contains, strip, strip_by, is_empty, if◌then◌else◌,
}
use aki_rag_middleware.Python.Errors.{Outcome, ok, raised, value_error, assertion_error, ◌>>=◌}
use aki_rag_middleware.Store.Sql.{first, delete, rowcount, upsert}
use aki_rag_middleware.Store.Rows.{
  Db, CanonicalUser, ModelSettings, WebSettings, ChatSettings, RootRow,
}
use aki_rag_middleware.Store.Users.{get_canonical_user}
use aki_rag_middleware.Store.Settings.Paths.{normalize_chat_archive_path}

-- `tuple(dict.fromkeys(…))` over stripped, non-blank texts
unfoldable pub distinct_texts : List String → List String → List String
unfolding strip
distinct_texts seen [] = []
distinct_texts seen (x ∷ xs) =
    let item = strip x in
    let skipped = distinct_texts seen xs in
    let kept = item ∷ distinct_texts (item ∷ seen) xs in
    if is_empty item || contains seen item then skipped else kept

abbrev pub is_known : Option CanonicalUser → Bool
is_known none = false
is_known (some user) = true

abbrev pub asserted_some {ℓ} : {A : Type ℓ} → Option A → Outcome A
asserted_some none = raised assertion_error
asserted_some (some a) = ok a

-- `ON CONFLICT(target_path) DO UPDATE SET last_seen_at=excluded.last_seen_at`
unfoldable pub see_root : String → ℕ → List RootRow → List RootRow
unfolding upsert
see_root path now roots =
    upsert (λ r. r.target_path == path)
      (record { target_path = path; first_seen_at = now; last_seen_at = now })
      (λ r. record r { last_seen_at = now }) roots

abbrev pub model_settings_of : ModelSettings → ModelSettings
model_settings_of row = record row {
  default_model_id = strip row.default_model_id;
  allowed_model_ids = distinct_texts [] row.allowed_model_ids;
}

abbrev pub read_models : Option ModelSettings → Option ModelSettings
unfolding strip distinct_texts
read_models none = none
read_models (some row) = some (model_settings_of row)

unfoldable pub get_model_settings : String → Db → Option ModelSettings
unfolding read_models first strip
get_model_settings id db =
    let user_id = strip id in
    if is_empty user_id
    then none
    else read_models (first (λ r. r.canonical_user_id == user_id) db.model_settings)

unfoldable pub put_models : ModelSettings → Db → Db
unfolding upsert
put_models row db = record db {
  model_settings =
      upsert (λ r. r.canonical_user_id == row.canonical_user_id) row
        (λ old. record old {
          default_model_id = row.default_model_id;
          allowed_model_ids = row.allowed_model_ids;
          updated_at = row.updated_at;
        })
        db.model_settings;
}

abbrev pub is_none_left : List String → Bool
is_none_left [] = true
is_none_left (x ∷ xs) = false

unfoldable pub set_model_settings :
    String → String → List String → ℕ → Db → Outcome (Db × ModelSettings)
unfolding get_canonical_user put_models get_model_settings
set_model_settings id default_model_id allowed_model_ids now db =
    let user_id = strip id in
    let allowed = distinct_texts [] allowed_model_ids in
    let default_id = strip default_model_id in
    let db' =
      put_models
        (record {
          canonical_user_id = user_id;
          default_model_id = default_id;
          allowed_model_ids = allowed;
          updated_at = now;
        })
        db in
    if is_empty user_id || not (is_known (get_canonical_user user_id db))
    then raised value_error
    else if is_none_left allowed
    then raised value_error
    else if not (contains allowed default_id)
    then raised value_error
    else do settings ← asserted_some (get_model_settings user_id db'); ok (db', settings)

unfoldable pub clear_model_settings : String → Db → Db × Bool
unfolding delete rowcount strip
clear_model_settings id db =
    let test = λ (r : ModelSettings). r.canonical_user_id == strip id in
    (
      record db { model_settings = delete test db.model_settings },
      ltb 0 (rowcount test db.model_settings),
    )

abbrev pub is_space_or_slash : ℕ → Bool
is_space_or_slash c = eqb c 32 || eqb c b'/'

unfoldable pub put_web : WebSettings → ℕ → Db → Db
unfolding upsert see_root
put_web row now db = record db {
  web_settings =
      upsert (λ r. r.canonical_user_id == row.canonical_user_id) row
        (λ old. record old {
          enabled = row.enabled;
          archive_enabled = row.archive_enabled;
          target_path = row.target_path;
          updated_at = row.updated_at;
        })
        db.web_settings;
  web_roots =
      if row.archive_enabled && not (is_empty row.target_path)
      then see_root row.target_path now db.web_roots
      else db.web_roots;
}

unfoldable pub get_web_settings : String → Db → Option WebSettings
unfolding first strip
get_web_settings id db = first (λ r. r.canonical_user_id == strip id) db.web_settings

unfoldable pub set_web_settings :
    String → Bool → Bool → String → ℕ → Db → Outcome (Db × WebSettings)
unfolding get_canonical_user put_web get_web_settings strip_by
set_web_settings id enabled archive_enabled target_path now db =
    let target = strip_by is_space_or_slash target_path in
    let db' =
      put_web
        (record {
          canonical_user_id = strip id;
          enabled = enabled;
          archive_enabled = archive_enabled;
          target_path = target;
          created_at = now;
          updated_at = now;
        })
        now db in
    if not (is_known (get_canonical_user id db))
    then raised value_error
    else if archive_enabled && is_empty target
    then raised value_error
    else do settings ← asserted_some (get_web_settings id db'); ok (db', settings)

unfoldable pub put_chat : ChatSettings → ℕ → Db → Db
unfolding upsert see_root
put_chat row now db = record db {
  chat_settings =
      upsert (λ r. r.canonical_user_id == row.canonical_user_id) row
        (λ old. record old {
          enabled = row.enabled;
          target_path = row.target_path;
          updated_at = row.updated_at;
        })
        db.chat_settings;
  chat_roots = see_root row.target_path now db.chat_roots;
}

abbrev pub read_chat : String → Option ChatSettings → Outcome (Option ChatSettings)
read_chat user_id none = ok none
read_chat user_id (some row) = do
  target ← normalize_chat_archive_path row.target_path
  ok (some (record row { canonical_user_id = user_id; target_path = target }))

unfoldable pub get_chat_settings : String → Db → Outcome (Option ChatSettings)
unfolding first strip normalize_chat_archive_path
get_chat_settings id db =
    let user_id = strip id in
    if is_empty user_id
    then ok none
    else read_chat user_id (first (λ r. r.canonical_user_id == user_id) db.chat_settings)

abbrev pub chat_written : String → Db → Outcome Db → Db × Outcome ChatSettings
chat_written user_id db (raised e) = (db, raised e)
chat_written user_id db (ok db') =
    (db', do found ← get_chat_settings user_id db'; asserted_some found)

unfoldable pub set_chat_settings : String → Bool → String → ℕ → Db → Db × Outcome ChatSettings
unfolding get_canonical_user put_chat get_chat_settings normalize_chat_archive_path
set_chat_settings id enabled target_path now db =
    let user_id = strip id in
    chat_written user_id db (
      if is_empty user_id || not (is_known (get_canonical_user user_id db))
      then raised value_error
      else do
        target ← normalize_chat_archive_path target_path
        ok (
            put_chat
              (record {
                canonical_user_id = user_id;
                enabled = enabled;
                target_path = target;
                updated_at = now;
              })
              now db))
