-- ===== src/Auth/Keys.antt =====
-- What the machine credentials of rag/internal_auth.py let through.
use aki_rag_middleware.Prelude.{
  ℕ, ◌≤◌, String, ◌≡◌, ◌↔◌, ap, refl, Bool, true, false, ◌&&◌, ◌||◌, Bool-cases, inl, inr, Option,
  some, [], ◌∷◌, arith, ◌==◌, eq_iff, ltb, strip, if◌then◌else◌,
}
use aki_rag_middleware.Auth.{
  Env, Headers, or_blank, chars, key_of, configured, env_name, header_name, provider_env_name,
  provider_header_name, min_key_length, set_header, update_headers, header, internal_api_headers,
  provider_api_headers, valid, is_ascii,
}
use aki_rag_middleware.Python.Errors.{ok, raised, type_error, ok-injective}

valid_lem :
    (n : ℕ) (k c : String) (f : String → ℕ) (p : String → Bool)
    → ((if ltb (f k) n || ltb (f c) n
          then ok false
          else if p c && p k
          then ok (c == k)
          else raised type_error)
        ≡ ok true)
      ↔ ((c ≡ k) × (n ≤ f k) × (p k ≡ true))
valid_lem n k c f p = (accepted, λ h. given h)
  where
    accepted :
        ((if ltb (f k) n || ltb (f c) n
            then ok false
            else if p c && p k
            then ok (c == k)
            else raised type_error)
          ≡ ok true)
        → (c ≡ k) × (n ≤ f k) × (p k ≡ true)
    accepted h = elim (Bool-cases (ltb (f k) n || ltb (f c) n)) [
      | inl short ↦ absurd (cc (rw short at h))
      | inr long ↦ elim (Bool-cases (p c && p k)) [
        | inr other ↦ absurd (cc (rw (long, other) at h))
        | inl plain ↦
            let same : (c == k) ≡ true = ok-injective (rw (long, plain) at h) in
            ((eq_iff c k).0 same, ground arith, ground arith)
      ]
    ]

    given :
        (c ≡ k) × (n ≤ f k) × (p k ≡ true)
        → (if ltb (f k) n || ltb (f c) n
            then ok false
            else if p c && p k
            then ok (c == k)
            else raised type_error)
          ≡ ok true
    given (same, long, plain) =
        let short : (ltb (f k) n || ltb (f c) n) ≡ false = ground (arith, ap f same) in
        let ascii : (p c && p k) ≡ true = ground (arith, ap p same) in
        rw (short, ascii, (eq_iff c k).1 same) refl

-- A machine key is accepted exactly if, stripped, it is the stripped key of the environment, and
-- that has at least 32 characters, which are all ASCII.
pub valid_iff :
    (env : Env) (name : String) (supplied : Option String)
    → (valid env name supplied ≡ ok true) ↔ (
        (strip (or_blank supplied) ≡ key_of env name)
        × (min_key_length ≤ chars (key_of env name))
        × (is_ascii (key_of env name) ≡ true))
unfolding valid
valid_iff env name supplied =
    valid_lem min_key_length (key_of env name) (strip (or_blank supplied)) chars is_ascii

header-set_header :
    (k j v : String) (h : Headers)
    → header j (set_header k v h) ≡ (if k == j then some v else header j h)
unfolding set_header header
header-set_header k j v [] = refl
header-set_header k j v ((i, w) ∷ h) =
    ground (arith, eq_iff k j, eq_iff i k, eq_iff i j, header-set_header k j v h)

-- Where both machine keys are configured, the headers of a provider call are given and carry both.
provider_api_headers_lem :
    (env : Env)
    → configured env env_name ≡ true
    → configured env provider_env_name ≡ true
    → (h : Headers) × (provider_api_headers env [] ≡ some h)
      × (header header_name h ≡ some (key_of env env_name))
      × (header provider_header_name h ≡ some (key_of env provider_env_name))
unfolding provider_api_headers internal_api_headers configured update_headers set_header header
provider_api_headers_lem env i p = (
  (header_name, key_of env env_name) ∷ (provider_header_name, key_of env provider_env_name) ∷ [],
  ground arith,
  refl,
  refl,
)
