-- ===== src/Acl/Credential.antt =====
-- `NextcloudLiveAcl._credential` of rag/acl.py: the Nextcloud credential of a RAG user, out of the
-- environment, which is an argument, or of the store of rag/credential_store.py.
pub mod Bound
use aki_rag_middleware.Prelude.{
  String, Bool, true, false, not, ◌||◌, ◌&&◌, Option, none, some, List, [], ◌∷◌, ◌==◌, strip,
  is_empty, if◌then◌else◌,
}
use aki_rag_middleware.Python.{text_of}
use aki_rag_middleware.Python.Values.{Value, str, dict, Fields, end, Runtime, or_else}
use aki_rag_middleware.Python.Fields.{lookup, get}
use aki_rag_middleware.Python.Errors.{
  Outcome, ok, raised, configuration_error, identity_error, ◌>>=◌,
}
use aki_rag_middleware.Acl.Authorize.{NextcloudCredential}
use aki_rag_middleware.Store.Crypto.{Cipher, SecretCrypto}
use aki_rag_middleware.Store.Rows.{Db, StoredCredential, CanonicalUser}
use aki_rag_middleware.Store.Credentials.{get_credential}
use aki_rag_middleware.Store.Users.{get_canonical_user_for_identity}
use aki_rag_middleware.Auth.{Env, or_blank}

-- `cfg.get` along the parts of a dotted path
abbrev pub entry : String → Value → Option Value
entry k (dict d) = lookup k d
entry k v = none

unfoldable pub follow : List String → Option Value → Option Value
follow [] found = found
follow (k ∷ ks) none = none
follow (k ∷ ks) (some v) = follow ks (entry k v)

abbrev pub or_default : Option Value → Value → Value
or_default none default = default
or_default (some v) default = v

-- `_cfg_get`
unfoldable pub cfg_get : Fields → List String → Value → Value
unfolding follow
cfg_get cfg path default = or_default (follow path (some (dict cfg))) default

unfoldable pub getenv : Env → String → String
getenv env name = or_blank (env name)

-- A user that the store does not know is not disabled.
abbrev pub is_disabled : Option CanonicalUser → Bool
is_disabled none = false
is_disabled (some u) = not u.enabled

abbrev pub released : Option StoredCredential → Bool → Outcome NextcloudCredential
released none disabled = raised identity_error
released (some row) disabled =
    if disabled
    then raised identity_error
    else ok (record { username = row.username; password = row.secret })

unfoldable pub stored : Runtime → Cipher → SecretCrypto → Db → String → Outcome NextcloudCredential
unfolding get_credential get_canonical_user_for_identity
stored py cipher crypto db user = do
  found ← get_credential py cipher crypto user "nextcloud" "primary" db
  released found (is_disabled (get_canonical_user_for_identity user db))

-- A pair of which neither part is missing.
abbrev pub complete : Outcome NextcloudCredential → String → String → Outcome NextcloudCredential
complete failure username password =
    if is_empty username || is_empty password
    then failure
    else ok (record { username = username; password = password })

module _ (py : Runtime) (env : Env) where
  -- `str(value or default)`
  unfoldable pub text_or : Value → String → String
  unfolding text_of or_else
  text_or v default = text_of py (or_else v (str default))

  unfoldable pub setting : Fields → String → String → String
  unfolding cfg_get text_or
  setting cfg key default = text_or (cfg_get cfg ("acl" ∷ key ∷ []) (str default)) default

  unfoldable pub identity_mode : Fields → String
  unfolding setting
  identity_mode cfg = py.lower (strip (setting cfg "identity_mode" "single_user"))

  unfoldable pub single_user : Fields → Outcome NextcloudCredential
  unfolding setting getenv
  single_user cfg =
      complete (raised configuration_error)
        (strip (getenv env (setting cfg "username_env" "NEXTCLOUD_USERNAME")))
        (getenv env (setting cfg "password_env" "NEXTCLOUD_APP_PASSWORD"))

  unfoldable pub mapped_entry : Option Value → Outcome NextcloudCredential
  unfolding text_or getenv
  mapped_entry (some (dict e)) =
      let username_env = strip (text_or (get e "username_env") "") in
      let password_env = strip (text_or (get e "password_env") "") in
      complete (raised identity_error)
        (if not (is_empty username_env)
          then strip (getenv env username_env)
          else strip (text_or (get e "username") ""))
        (if not (is_empty password_env) then getenv env password_env else "")
  mapped_entry other = raised identity_error

  unfoldable pub mapped : Value → String → Outcome NextcloudCredential
  unfolding mapped_entry
  mapped (dict users) user = mapped_entry (lookup user users)
  mapped other user = raised configuration_error

  -- `_credential`
  unfoldable pub credential :
      Cipher → SecretCrypto → Db → Fields → Option String → Outcome NextcloudCredential
  unfolding identity_mode single_user stored mapped cfg_get or_else
  credential cipher crypto db cfg rag_user_id =
      let mode = identity_mode cfg in
      let user = strip (or_blank rag_user_id) in
      if mode == "single_user"
      then single_user cfg
      else if is_empty user
      then raised identity_error
      else if mode == "credential_store"
      then stored py cipher crypto db user
      else if not (mode == "mapped_users")
      then raised configuration_error
      else mapped (or_else (cfg_get cfg ("acl" ∷ "user_map" ∷ []) (dict end)) (dict end)) user
