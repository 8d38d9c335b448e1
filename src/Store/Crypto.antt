-- ===== src/Store/Crypto.antt =====
-- rag/secret_crypto.py: encryption of reversible secrets. AES-GCM and base64 are a parameter.
pub mod Laws
use aki_rag_middleware.Prelude.{
  String, ◌≡◌, Bool, true, false, not, ◌&&◌, Option, none, some, append, is_empty, if◌then◌else◌,
}
use aki_rag_middleware.Python.Errors.{Outcome, ok, raised, runtime_error}
use aki_rag_middleware.Store.Scope.{starts}

-- `seal key nonce aad text` is the base64 of a nonce and of what AESGCM encrypts; `reveal key aad`
-- decodes and decrypts, and fails where a payload is not authentic.
pub record Cipher : Type 0 where
  pub seal : String → String → String → String → String
  pub reveal : String → String → String → Option String

-- Decryption under the same key and the same associated data gives back what was encrypted.
pub record IsCipher (cipher : Cipher) : Type 0 where
  pub reveal-seal :
      (key nonce aad text : String)
      → cipher.reveal key aad (cipher.seal key nonce aad text) ≡ some text

pub data Mode : Type 0 where
  disabled preferred required : Mode

abbrev pub is_disabled_mode : Mode → Bool
is_disabled_mode disabled = true
is_disabled_mode _ = false

abbrev pub is_required : Mode → Bool
is_required required = true
is_required _ = false

pub record SecretCrypto : Type 0 where
  pub mode : Mode
  pub key : Option String

-- What `key_file_status` and `_decode_key` find of the key file, if there is one.
pub record KeyFile : Type 0 where
  pub valid : Bool
  pub secure_permissions : Bool
  pub content : String

abbrev pub encrypted_prefix : String
encrypted_prefix = "enc:v1:"

unfoldable pub is_encrypted : String → Bool
unfolding starts
is_encrypted value = starts encrypted_prefix value

abbrev pub missing_key : Mode → Outcome SecretCrypto
missing_key mode =
    if is_required mode then raised runtime_error else ok (record { mode = mode; key = none })

abbrev pub loaded_key : Mode → KeyFile → Outcome SecretCrypto
loaded_key mode file =
    if not file.valid
    then raised runtime_error
    else if is_required mode && not file.secure_permissions
    then raised runtime_error
    else ok (record { mode = mode; key = some file.content })

unfoldable pub from_environment : Mode → Option KeyFile → Outcome SecretCrypto
from_environment disabled file = ok (record { mode = disabled; key = none })
from_environment preferred none = missing_key preferred
from_environment preferred (some file) = loaded_key preferred file
from_environment required none = missing_key required
from_environment required (some file) = loaded_key required file

-- The key that `encrypt` uses, if encryption is `enabled`.
abbrev pub usable_key : Mode → Option String → Option String
usable_key disabled key = none
usable_key preferred key = key
usable_key required key = key

abbrev pub payload_of : String → String
payload_of value = skip encrypted_prefix value
  where
    skip : String → String → String
    skip String.[] text = text
    skip (String.◌∷◌ c prefix) String.[] = String.[]
    skip (String.◌∷◌ c prefix) (String.◌∷◌ d text) = skip prefix text

abbrev pub or_failed : Option String → Outcome String
or_failed none = raised runtime_error
or_failed (some text) = ok text

module _ (cipher : Cipher) where
  abbrev pub sealed : SecretCrypto → Option String → String → String → String → Outcome String
  sealed crypto none nonce aad value =
      if is_required crypto.mode then raised runtime_error else ok value
  sealed crypto (some key) nonce aad value =
      ok (append encrypted_prefix (cipher.seal key nonce aad value))

  unfoldable pub encrypt : SecretCrypto → String → String → String → Outcome String
  unfolding is_encrypted append
  encrypt crypto nonce aad value =
      if is_encrypted value
      then ok value
      else sealed crypto (usable_key crypto.mode crypto.key) nonce aad value

  abbrev pub opened : Option String → String → String → Outcome String
  opened none aad value = raised runtime_error
  opened (some key) aad value = or_failed (cipher.reveal key aad (payload_of value))

  unfoldable pub decrypt : SecretCrypto → String → Bool → String → Outcome String
  unfolding is_encrypted
  decrypt crypto aad allow_plaintext value =
      if not (is_encrypted value)
      then (if is_required crypto.mode && not allow_plaintext
          then raised runtime_error
          else ok value)
      else opened crypto.key aad value
