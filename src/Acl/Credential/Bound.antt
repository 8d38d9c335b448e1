-- ===== src/Acl/Credential/Bound.antt =====
-- What `_credential` of rag/acl.py hands out.
use aki_rag_middleware.Prelude.{
  String, ◌≡◌, refl, sym, ap, ◌∙◌, Bool, true, false, Option, none, some, ◌==◌, strip, is_empty,
  Bool-cases, inl, inr,
}
use aki_rag_middleware.Python.Values.{Value, dict, Fields, Runtime}
use aki_rag_middleware.Python.Fields.{lookup}
use aki_rag_middleware.Python.Errors.{
  Outcome, Failure, ok, >>=-eq-ok, raised, ok-injective, identity_error, configuration_error,
}
use aki_rag_middleware.Acl.Authorize.{NextcloudCredential}
use aki_rag_middleware.Acl.Credential.{
  is_disabled, released, stored, complete, identity_mode, single_user, mapped_entry, mapped,
  credential,
}
use aki_rag_middleware.Store.Crypto.{Cipher, SecretCrypto}
use aki_rag_middleware.Store.Rows.{Db, StoredCredential}
use aki_rag_middleware.Store.Credentials.{get_credential}
use aki_rag_middleware.Store.Users.{get_canonical_user_for_identity}
use aki_rag_middleware.Auth.{Env, or_blank}

released-some :
    (row : StoredCredential) (disabled : Bool) (c : NextcloudCredential)
    → released (some row) disabled ≡ ok c
    → (row.username ≡ c.username) × (row.secret ≡ c.password) × (disabled ≡ false)
released-some row true c h = absurd (cc)
released-some row false c h =
    let same = ok-injective h in (ap (λ d. d.username) same, ap (λ d. d.password) same, refl)

released-found :
    (found : Option StoredCredential) (disabled : Bool) (c : NextcloudCredential)
    → released found disabled ≡ ok c
    → (row : StoredCredential) × (found ≡ some row)
      × (row.username ≡ c.username)
      × (row.secret ≡ c.password)
      × (disabled ≡ false)
released-found none disabled c h = absurd (cc)
released-found (some row) disabled c h =
    let (name, word, enabled) = released-some row disabled c h in (row, refl, name, word, enabled)

-- Neither part of the credential is empty.
pub record IsComplete (c : NextcloudCredential) : Type 0 where
  pub named : is_empty c.username ≡ false
  pub secret : is_empty c.password ≡ false

complete-IsComplete :
    (e : Failure) (username password : String) (c : NextcloudCredential)
    → complete (raised e) username password ≡ ok c
    → IsComplete c
complete-IsComplete e username password c h = elim (Bool-cases (is_empty username)) [
  | inl blank ↦ absurd (cc (rw blank at h))
  | inr filled ↦ elim (Bool-cases (is_empty password)) [
    | inl blank ↦ absurd (cc (rw (filled, blank) at h))
    | inr given ↦
        let same = ok-injective (rw (filled, given) at h) in
        record {
          named = sym (ap (λ d. is_empty d.username) same) ∙ filled;
          secret = sym (ap (λ d. is_empty d.password) same) ∙ given;
        }
  ]
]

module _ (py : Runtime) (env : Env) where
  mapped_entry-IsComplete :
      (o : Option Value) (c : NextcloudCredential) → mapped_entry py env o ≡ ok c → IsComplete c
  unfolding mapped_entry
  mapped_entry-IsComplete (some (dict e)) c h = complete-IsComplete identity_error _ _ c h
  mapped_entry-IsComplete o c h = absurd (cc)

  mapped-IsComplete :
      (v : Value) (user : String) (c : NextcloudCredential)
      → mapped py env v user ≡ ok c
      → IsComplete c
  unfolding mapped
  mapped-IsComplete (dict users) user c h = mapped_entry-IsComplete (lookup user users) c h
  mapped-IsComplete v user c h = absurd (cc)

  -- In the mode credential_store, a credential that is handed out is what the store holds, decrypted,
  -- for the stripped RAG user at Nextcloud, and a Nextcloud user that is bound to it is not disabled.
  pub credential-granted :
      (cipher : Cipher) (crypto : SecretCrypto) (db : Db) (cfg : Fields) (user : Option String)
      (c : NextcloudCredential)
      → identity_mode py env cfg ≡ "credential_store"
      → credential py env cipher crypto db cfg user ≡ ok c
      → (row : StoredCredential) × (get_credential py cipher crypto
            (strip (or_blank user))
            "nextcloud"
            "primary"
            db
          ≡ ok (some row))
        × (row.username ≡ c.username)
        × (row.secret ≡ c.password)
        × (is_disabled (get_canonical_user_for_identity (strip (or_blank user)) db) ≡ false)
  unfolding credential stored
  credential-granted cipher crypto db cfg user c mode h =
      let id = strip (or_blank user) in
      elim (Bool-cases (is_empty id)) [
        | inl blank ↦ absurd (cc (rw (mode, blank) at h))
        | inr there ↦
            let release : Option StoredCredential → Outcome NextcloudCredential =
              λ found. released found (is_disabled (get_canonical_user_for_identity id db)) in
            let (found, read, given) =
              >>=-eq-ok (get_credential py cipher crypto id "nextcloud" "primary" db) release
                (rw (mode, there) at h) in
            let (row, same, name, word, enabled) =
              released-found found (is_disabled (get_canonical_user_for_identity id db)) c given in
            (row, read ∙ ap (λ o. ok o) same, name, word, enabled)
      ]

  -- In every other identity mode, a credential that is handed out has a name and a password.
  credential-IsComplete :
      (cipher : Cipher) (crypto : SecretCrypto) (db : Db) (cfg : Fields) (user : Option String)
      (c : NextcloudCredential)
      → (identity_mode py env cfg == "credential_store") ≡ false
      → credential py env cipher crypto db cfg user ≡ ok c
      → IsComplete c
  unfolding credential single_user
  credential-IsComplete cipher crypto db cfg user c other h =
      elim (Bool-cases (identity_mode py env cfg == "single_user")) [
        | inl alone ↦ complete-IsComplete configuration_error _ _ c (rw alone at h)
        | inr many ↦ elim (Bool-cases (is_empty (strip (or_blank user)))) [
          | inl blank ↦ absurd (cc (rw (many, blank) at h))
          | inr there ↦ elim (Bool-cases (identity_mode py env cfg == "mapped_users")) [
            | inl map_mode ↦ mapped-IsComplete _ _ c (rw (many, there, other, map_mode) at h)
            | inr unknown ↦ absurd (cc (rw (many, there, other, unknown) at h))
          ]
        ]
      ]
