-- ===== src/Store/Crypto/Laws.antt =====
-- Secrets that are encrypted can be decrypted, and are encrypted where that is required.
use aki_rag_middleware.Prelude.{
  String, ◌≡◌, refl, true, false, not, arith, Option, none, some, append, if◌then◌else◌, Bool-cases,
  inl, inr,
}
use aki_rag_middleware.Python.Errors.{ok, raised, runtime_error, ok-injective, guard-eq-ok}
use aki_rag_middleware.Store.Crypto.{
  Cipher, IsCipher, Mode, disabled, preferred, required, SecretCrypto, KeyFile, is_encrypted,
  from_environment, is_required, usable_key, payload_of, sealed, encrypt, decrypt, encrypted_prefix,
}

is_encrypted-prefix : (payload : String) → is_encrypted (append encrypted_prefix payload) ≡ true
unfolding is_encrypted append
is_encrypted-prefix payload = refl

payload_of-prefix : (payload : String) → payload_of (append encrypted_prefix payload) ≡ payload
unfolding append
payload_of-prefix payload = refl

usable_key-key :
    (mode : Mode) (key : Option String) (used : String)
    → usable_key mode key ≡ some used
    → key ≡ some used
usable_key-key disabled key used h = absurd (cc)
usable_key-key preferred key used h = h
usable_key-key required key used h = h

module _ (cipher : Cipher) (lawful : IsCipher cipher) where
  decrypt-sealed :
      (crypto : SecretCrypto) (nonce aad text stored : String)
      → is_encrypted text ≡ false
      → (key : Option String) → usable_key crypto.mode crypto.key ≡ key
      → sealed cipher crypto key nonce aad text ≡ ok stored
      → decrypt cipher crypto aad false stored ≡ ok text
  unfolding decrypt
  decrypt-sealed crypto nonce aad text stored plain none given h =
      elim (Bool-cases (is_required crypto.mode)) [
        | inl needed ↦ absurd (cc (rw needed at h))
        | inr free ↦
            let same : text ≡ stored = ok-injective (rw free at h) in rw (← same, plain, free)
      ]
  decrypt-sealed crypto nonce aad text stored plain (some key) given h =
      let same : append encrypted_prefix (cipher.seal key nonce aad text) ≡ stored =
        ok-injective h in
      rw (
        ← same,
        is_encrypted-prefix (cipher.seal key nonce aad text),
        usable_key-key crypto.mode crypto.key key given,
        payload_of-prefix (cipher.seal key nonce aad text),
        lawful.reveal-seal key nonce aad text,
      )

  -- A secret that is not itself marked as encrypted is decrypted to what it was.
  pub decrypt-encrypt :
      (crypto : SecretCrypto) (nonce aad text stored : String)
      → is_encrypted text ≡ false
      → encrypt cipher crypto nonce aad text ≡ ok stored
      → decrypt cipher crypto aad false stored ≡ ok text
  unfolding encrypt
  decrypt-encrypt crypto nonce aad text stored plain h =
      decrypt-sealed crypto nonce aad text stored plain (usable_key crypto.mode crypto.key) refl
        (rw plain at h)

-- What `required` asks of the environment.
abbrev pub IsUsable : KeyFile → Type 0
IsUsable file = (file.valid ≡ true) × (file.secure_permissions ≡ true)

from_environment-required :
    (file : Option KeyFile) (crypto : SecretCrypto)
    → from_environment required file ≡ ok crypto
    → (found : KeyFile) × (file ≡ some found)
      × IsUsable found
      × (record { mode = required; key = some found.content } ≡ crypto)
unfolding from_environment
from_environment-required none crypto h = absurd (cc)
from_environment-required (some file) crypto h =
    let accepted =
      if not file.secure_permissions
      then raised runtime_error
      else ok (record { mode = required; key = some file.content }) in
    let (valid, h2) = guard-eq-ok (not file.valid) runtime_error accepted h in
    let (secure, h3) =
      guard-eq-ok (not file.secure_permissions) runtime_error
        (ok (record { mode = required; key = some file.content })) h2 in
    (file, refl, (ground arith, ground arith), ok-injective h3)

-- Where encryption is required and the environment is accepted, there is a key file that is valid
-- and protected, and a secret that is not marked as encrypted already is stored, without an error,
-- as the mark and what the cipher makes of it under that key, and is read back from that.
pub encrypt-required :
    (cipher : Cipher) (file : Option KeyFile) (crypto : SecretCrypto) (nonce aad text : String)
    → IsCipher cipher
    → from_environment required file ≡ ok crypto
    → is_encrypted text ≡ false
    → (found : KeyFile) × (file ≡ some found)
      × IsUsable found
      × (encrypt cipher crypto nonce aad text
          ≡ ok (append "enc:v1:" (cipher.seal found.content nonce aad text)))
      × (decrypt cipher crypto aad false
            (append "enc:v1:" (cipher.seal found.content nonce aad text))
          ≡ ok text)
unfolding encrypt
encrypt-required cipher file crypto nonce aad text lawful h plain =
    let (found, there, usable, same) = from_environment-required file crypto h in
    let stored = append "enc:v1:" (cipher.seal found.content nonce aad text) in
    let written : encrypt cipher crypto nonce aad text ≡ ok stored = rw (← same, plain) refl in
    (
      found,
      there,
      usable,
      written,
      decrypt-encrypt cipher lawful crypto nonce aad text stored plain written,
    )
