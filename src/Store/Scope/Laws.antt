-- ===== src/Store/Scope/Laws.antt =====
-- Scoped identities can be taken apart, and those of two clients differ.
use Prim.Native.Char.{Char, code}
use mathlib.Core.Path.{ap₂}
use text.Mathlib.TextEquality.{codes_equal}
use aki_rag_middleware.Prelude.{
  ℕ, String, ◌≡◌, refl, sym, ap, ◌∙◌, Bool, true, false, not, ◌||◌, some, arith, ◌==◌, eq_iff,
  strip, strip_idem, rstrip, lstrip, lstrip_dark, rstrip_idem, rstrip-append, append_assoc,
  is_empty-append, is_empty, append, is_space, all_chars, some_chars, Bool-cases, inl, inr,
  if◌then◌else◌,
}
use aki_rag_middleware.Python.Errors.{ok, value_error, raised, guard-eq-ok, ok-injective}
use aki_rag_middleware.Store.Scope.{
  client_char, is_client_id, starts, split_once, separator, scoped, scope_identity,
  split_scoped_identity,
}

starts-separator :
    (c : Char) (s : String)
    → client_char (code c) ≡ true
    → starts separator (String.◌∷◌ c s) ≡ false
unfolding starts client_char
starts-separator c s h = ground arith

split-scoped :
    (client user : String)
    → all_chars client_char client ≡ true
    → split_once (scoped client user) ≡ some (client, user)
unfolding split_once scoped
split-scoped String.[] user h = refl
split-scoped (String.◌∷◌ c client) user h =
    let rest = split-scoped client user (ground arith) in
    rw (starts-separator c (scoped client user) (ground arith)) (rw rest refl)

client_char-solid : (c : ℕ) → client_char c ≡ true → is_space c ≡ false
unfolding client_char is_space
client_char-solid c h = ground arith

strip-scoped :
    (client user : String)
    → some_chars client_char client ≡ true
    → strip user ≡ user
    → is_empty user ≡ false
    → strip (scoped client user) ≡ scoped client user
unfolding strip scoped
strip-scoped String.[] user h k e = absurd (cc)
strip-scoped (String.◌∷◌ c client) user h k e =
    let dark = client_char-solid (code c) (ground arith) in
    let shown : rstrip user ≡ user = ap rstrip (sym k) ∙ rstrip_idem (lstrip user) ∙ k in
    let tail_full : is_empty (rstrip user) ≡ false = ap is_empty shown ∙ e in
    let inner : rstrip (append separator user) ≡ append separator user =
      rstrip-append separator user tail_full ∙ ap (append separator) shown in
    let inner_full : is_empty (rstrip (append separator user)) ≡ false =
      ap is_empty inner ∙ is_empty-append separator user in
    ap rstrip (lstrip_dark c (append client (append separator user)) dark)
    ∙ rstrip-append (String.◌∷◌ c client) (append separator user) inner_full
    ∙ ap (append (String.◌∷◌ c client)) inner

is_client_id-chars : (c : String) → is_client_id c ≡ true → some_chars client_char c ≡ true
unfolding is_client_id
is_client_id-chars c h = ground arith

scope_identity-eq-ok :
    (client_id external_user_id id : String)
    → scope_identity client_id external_user_id ≡ ok id
    → (scoped (strip client_id) (strip external_user_id) ≡ id)
      × (some_chars client_char (strip client_id) ≡ true)
      × (is_empty (strip external_user_id) ≡ false)
unfolding scope_identity
scope_identity-eq-ok client_id external_user_id id h =
    let client = strip client_id in
    let user = strip external_user_id in
    let (known, h2) =
      guard-eq-ok (is_empty client || not (is_client_id client)) value_error
        (if is_empty user then raised value_error else ok (scoped client user)) h in
    let (named, h3) = guard-eq-ok (is_empty user) value_error (ok (scoped client user)) h2 in
    (ok-injective h3, is_client_id-chars client (ground arith), named)

some-all : (p : ℕ → Bool) (s : String) → some_chars p s ≡ true → all_chars p s ≡ true
some-all p s h = ground arith

some-full : (p : ℕ → Bool) (s : String) → some_chars p s ≡ true → is_empty s ≡ false
some-full p s h = ground arith

starts-append : (p t : String) → starts p (append p t) ≡ true
unfolding starts append
starts-append String.[] t = refl
starts-append (String.◌∷◌ c p) t = ground (arith, starts-append p t)

starts-split : (p t : String) → starts p t ≡ true → (rest : String) × (append p rest ≡ t)
unfolding starts append
starts-split String.[] t h = (t, refl)
starts-split (String.◌∷◌ c p) String.[] h = absurd (cc)
starts-split (String.◌∷◌ c p) (String.◌∷◌ d t) h =
    let (rest, same) = starts-split p t (ground arith) in
    (rest, ap₂ (λ a r. String.◌∷◌ a r) (codes_equal c d (ground arith)) same)

-- An identity that is made of a client and a user is taken apart into them, stripped.
pub split_scoped_identity-scope_identity :
    (client_id external_user_id id : String)
    → scope_identity client_id external_user_id ≡ ok id
    → split_scoped_identity id ≡ some (strip client_id, strip external_user_id)
unfolding split_scoped_identity
split_scoped_identity-scope_identity client_id external_user_id id h =
    let (same, known, named) = scope_identity-eq-ok client_id external_user_id id h in
    let client = strip client_id in
    let user = strip external_user_id in
    rw (
      ← same,
      strip-scoped client user known (strip_idem external_user_id) named,
      split-scoped client user (some-all client_char client known),
      some-full client_char client known,
      named,
    )

-- An identity starts with the prefix of a client exactly if it is of that client.
pub starts-scope_identity :
    (client client_id external_user_id id : String)
    → is_client_id client ≡ true
    → scope_identity client_id external_user_id ≡ ok id
    → starts (append client separator) id ≡ (client == strip client_id)
unfolding scoped
starts-scope_identity client client_id external_user_id id valid h =
    let (same, known, named) = scope_identity-eq-ok client_id external_user_id id h in
    let own = strip client_id in
    let user = strip external_user_id in
    elim (Bool-cases (starts (append client separator) id)) [
      | inl hit ↦
          let (rest, made) = starts-split (append client separator) id hit in
          let both : scoped client rest ≡ scoped own user =
            sym (append_assoc client separator rest) ∙ made ∙ sym same in
          let split =
            sym (
              split-scoped client rest
                (some-all client_char client (is_client_id-chars client valid)))
            ∙ ap split_once both
            ∙ split-scoped own user (some-all client_char own known) in
          rw (hit, (eq_iff client own).1 (cc split))
      | inr miss ↦ elim (Bool-cases (client == own)) [
        | inl agree ↦ absurd (
            cc (
              miss,
              starts-append (append client separator) user,
              append_assoc client separator user,
              ap (λ a. scoped a user) ((eq_iff client own).0 agree),
              same,
            ))
        | inr other ↦ rw (miss, other)
      ]
    ]
