-- ===== src/Store/Scope.antt =====
-- The names of rag/credential_store.py: frontend-scoped identities, `client::user`, and the owners of
-- the credentials of a canonical user.
pub mod Laws
use Prim.Native.Char.{code}
use Prim.Native.String.{String}
use Prim.Native.String
use aki_rag_middleware.Prelude.{
  ℕ, Bool, true, false, not, ◌||◌, ◌&&◌, Option, none, some, eqb, leb, strip, is_empty, append,
  some_chars, if◌then◌else◌,
}
use aki_rag_middleware.Python.Errors.{Outcome, ok, raised, value_error}
use aki_rag_middleware.Auth.{chars}

-- `_CLIENT_ID_RE`
unfoldable pub client_char : ℕ → Bool
client_char c =
    (leb b'A' c && leb c b'Z')
    || (leb b'a' c && leb c b'z')
    || (leb b'0' c && leb c b'9')
    || eqb c b'.'
    || eqb c b'_'
    || eqb c b'-'

unfoldable pub is_client_id : String → Bool
unfolding client_char chars
is_client_id client = some_chars client_char client && leb (chars client) 80

abbrev pub separator : String
separator = "::"

abbrev pub canonical_prefix : String
canonical_prefix = "canonical-user:"

-- `text.startswith(prefix)`, and `substr(text,1,length(prefix))=prefix` of SQL
unfoldable pub starts : String → String → Bool
starts String.[] text = true
starts (String.◌∷◌ a prefix) String.[] = false
starts (String.◌∷◌ a prefix) (String.◌∷◌ b text) = eqb (code a) (code b) && starts prefix text

abbrev pub tail : String → String
tail String.[] = String.[]
tail (String.◌∷◌ c s) = s

abbrev pub prepend : String → Option (String × String) → Option (String × String)
prepend c none = none
prepend c (some (s, t)) = some (append c s, t)

-- `text.split("::", 1)` where the separator occurs
unfoldable pub split_once : String → Option (String × String)
unfolding starts append
split_once String.[] = none
split_once (String.◌∷◌ c s) =
    let rest = split_once s in
    if starts separator (String.◌∷◌ c s)
    then some ("", tail s)
    else prepend (String.◌∷◌ c String.[]) rest

-- `f"{client}::{user}"`
unfoldable pub scoped : String → String → String
unfolding append
scoped client user = append client (append separator user)

unfoldable pub scope_identity : String → String → Outcome String
unfolding scoped is_client_id strip
scope_identity client_id external_user_id =
    let client = strip client_id in
    let user = strip external_user_id in
    if is_empty client || not (is_client_id client)
    then raised value_error
    else if is_empty user
    then raised value_error
    else ok (scoped client user)

abbrev pub both_named : Option (String × String) → Option (String × String)
both_named none = none
both_named (some (client, user)) =
    if is_empty client || is_empty user then none else some (client, user)

unfoldable pub split_scoped_identity : String → Option (String × String)
unfolding split_once strip
split_scoped_identity value = both_named (split_once (strip value))

unfoldable pub canonical_credential_owner : String → Outcome String
unfolding append strip
canonical_credential_owner canonical_user_id =
    let user_id = strip canonical_user_id in
    if is_empty user_id then raised value_error else ok (append canonical_prefix user_id)
