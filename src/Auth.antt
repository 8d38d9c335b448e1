-- ===== src/Auth.antt =====
-- rag/internal_auth.py: machine credentials for calls into the middleware API. The environment is an
-- argument: what `os.getenv` finds under a name.
pub mod Keys
use aki_rag_middleware.Prelude.{
  ℕ, suc, String, Bool, true, false, ◌||◌, Option, none, some, List, [], ◌∷◌, ◌==◌, ltb, leb, strip,
  some_chars, ◌&&◌, if◌then◌else◌,
}
use aki_rag_middleware.Python.Errors.{Outcome, ok, raised, type_error}

abbrev pub env_name : String
env_name = "RAG_INTERNAL_API_KEY"

abbrev pub header_name : String
header_name = "X-AKI-Internal-Key"

abbrev pub provider_env_name : String
provider_env_name = "RAG_PROVIDER_INTERNAL_KEY"

abbrev pub provider_header_name : String
provider_header_name = "X-AKI-Provider-Key"

abbrev pub min_key_length : ℕ
min_key_length = 32

abbrev pub Env : Type 0
Env = String → Option String

abbrev pub or_blank : Option String → String
or_blank none = ""
or_blank (some s) = s

-- `len(text)`
unfoldable pub chars : String → ℕ
chars String.[] = 0
chars (String.◌∷◌ c s) = suc (chars s)

-- `_key`
unfoldable pub key_of : Env → String → String
unfolding strip
key_of env name = strip (or_blank (env name))

unfoldable pub configured : Env → String → Bool
unfolding key_of chars
configured env name = leb min_key_length (chars (key_of env name))

abbrev pub internal_api_configured : Env → Bool
internal_api_configured env = configured env env_name

abbrev pub provider_api_configured : Env → Bool
provider_api_configured env = configured env provider_env_name

-- A header dict; the later of two equal names wins.
abbrev pub Headers : Type 0
Headers = List (String × String)

unfoldable pub set_header : String → String → Headers → Headers
set_header k v [] = (k, v) ∷ []
set_header k v ((j, w) ∷ h) = if j == k then (j, v) ∷ h else (j, w) ∷ set_header k v h

unfoldable pub update_headers : Headers → Headers → Headers
unfolding set_header
update_headers [] h = h
update_headers ((k, v) ∷ extra) h = update_headers extra (set_header k v h)

unfoldable pub header : String → Headers → Option String
header k [] = none
header k ((j, w) ∷ h) = if j == k then some w else header k h

-- `none` stands for the RuntimeError.
unfoldable pub internal_api_headers : Env → Headers → Option Headers
unfolding key_of chars update_headers
internal_api_headers env extra =
    let key = key_of env env_name in
    if ltb (chars key) min_key_length
    then none
    else some (update_headers extra ((header_name, key) ∷ []))

abbrev add_provider : Env → Headers → Option Headers → Option Headers
add_provider env extra none = none
add_provider env extra (some base) =
    let key = key_of env provider_env_name in
    if ltb (chars key) min_key_length
    then none
    else some (update_headers extra (set_header provider_header_name key base))

unfoldable pub provider_api_headers : Env → Headers → Option Headers
unfolding internal_api_headers
provider_api_headers env extra = add_provider env extra (internal_api_headers env [])

-- `text.isascii()`, for a text that is not empty
unfoldable pub is_ascii : String → Bool
is_ascii text = some_chars (λ c. ltb c 128) text

-- `_valid`; `secrets.compare_digest` is equality in constant time, for texts that are both ASCII, and
-- raises a TypeError for others.
unfoldable pub valid : Env → String → Option String → Outcome Bool
unfolding key_of chars is_ascii
valid env name supplied =
    let expected = key_of env name in
    let candidate = strip (or_blank supplied) in
    if ltb (chars expected) min_key_length || ltb (chars candidate) min_key_length
    then ok false
    else if is_ascii candidate && is_ascii expected
    then ok (candidate == expected)
    else raised type_error

abbrev pub valid_internal_api_key : Env → Option String → Outcome Bool
valid_internal_api_key env supplied = valid env env_name supplied

abbrev pub valid_provider_internal_key : Env → Option String → Outcome Bool
valid_provider_internal_key env supplied = valid env provider_env_name supplied
