-- ===== src/Acl/Identity/Groups.antt =====
-- What `prefilter_identity` of rag/acl.py takes from the answer about a user.
use aki_rag_middleware.Prelude.{
  eqb, if◌then◌else◌, ℕ, zero, suc, ◌+◌, ◌≤◌, String, ◌≡◌, refl, ap, sym, ◌∙◌, Bool, true, false,
  not, ◌||◌, ◌&&◌, none, some, List, [], ◌∷◌, ◌++◌, ◌==◌, arith, contains, all, leb, length,
  length-append, is_empty, Bool-cases, inl, inr, eq_iff, contains-append,
}
use mathlib.Core.Path.{subst}
use aki_rag_middleware.Python.Values.{Values, nil, cons, Runtime, Value, null, list}
use aki_rag_middleware.Python.Errors.{
  Outcome, ◌>>=◌, raised, backend_error, configuration_error, identity_error, ok, ok-injective,
  guard-eq-ok, >>=-eq-ok,
}
use aki_rag_middleware.Acl.Identity.{
  member, is_dict, is_ok_meta, with_group, add_groups, first_values, groups_in, stripped,
  read_identity, read_reply, OcsReply, document, http_status, http_failure, prefilter_identity,
}
use aki_rag_middleware.Acl.Authorize.{NextcloudCredential}
use aki_rag_middleware.Auth.{chars}

abbrev pub fits : String → Bool
fits g = not (is_empty g) && leb (chars g) 256

-- No text stands in the list twice.
unfoldable pub nodup : List String → Bool
nodup [] = true
nodup (x ∷ xs) = not (contains xs x) && nodup xs

pub record IsGroups (groups : List String) : Type 0 where
  pub fitting : all fits groups ≡ true
  pub distinct : nodup groups ≡ true

all-append :
    (p : String → Bool) (xs : List String) (y : String)
    → all p xs ≡ true
    → p y ≡ true
    → all p (xs ++ y ∷ []) ≡ true
all-append p [] y h k = rw k refl
all-append p (x ∷ xs) y h k = let rest = all-append p xs y (ground arith) k in ground arith

neq_comm : (x y : String) → (x == y) ≡ false → (y == x) ≡ false
neq_comm x y apart = elim (Bool-cases (y == x)) [
  | inl same ↦ absurd (cc (apart, (eq_iff x y).1 (sym ((eq_iff y x).0 same))))
  | inr other ↦ other
]

nodup-append :
    (xs : List String) (y : String)
    → nodup xs ≡ true
    → contains xs y ≡ false
    → nodup (xs ++ y ∷ []) ≡ true
unfolding nodup
nodup-append [] y h k = refl
nodup-append (x ∷ xs) y h k =
    let rest = nodup-append xs y (ground arith) (ground arith) in
    let apart : (y == x) ≡ false = neq_comm x y (ground arith) in
    let both = contains-append xs (y ∷ []) x in ground arith

with_group-IsGroups :
    (groups : List String) (g : String) → IsGroups groups → IsGroups (with_group groups g)
unfolding with_group
with_group-IsGroups groups g v =
    elim (Bool-cases (not (is_empty g) && (leb (chars g) 256 && not (contains groups g)))) [
      | inl taken ↦ rw taken (record {
        fitting = all-append fits groups g v.fitting (ground arith);
        distinct = nodup-append groups g v.distinct (ground arith);
      })
      | inr left_out ↦ rw left_out v
    ]

length-with_group :
    (groups : List String) (g : String) → length (with_group groups g) ≤ length groups + 1
unfolding with_group
length-with_group groups g =
    elim (Bool-cases (not (is_empty g) && (leb (chars g) 256 && not (contains groups g)))) [
      | inl taken ↦ rw taken (omega (arith, length-append groups (g ∷ [])))
      | inr left_out ↦ rw left_out (omega arith)
    ]

module _ (py : Runtime) where
  add_groups-IsGroups :
      (groups : List String) (vs : Values) → IsGroups groups → IsGroups (add_groups py groups vs)
  unfolding add_groups
  add_groups-IsGroups groups nil v = v
  add_groups-IsGroups groups (cons item items) v =
      add_groups-IsGroups (with_group groups (stripped py item)) items
        (with_group-IsGroups groups (stripped py item) v)

  first_values-bounded :
      (n : ℕ) (vs : Values) (groups : List String)
      → length (add_groups py groups (first_values n vs)) ≤ length groups + n
  unfolding first_values add_groups with_group
  first_values-bounded zero vs groups = omega arith
  first_values-bounded (suc n) nil groups = omega arith
  first_values-bounded (suc n) (cons item items) groups =
      let rest = first_values-bounded n items (with_group groups (stripped py item)) in
      let one = length-with_group groups (stripped py item) in omega arith

  groups_in-IsGroups :
      (uid user : String) (raw : Value) (groups : List String)
      → groups_in py uid raw ≡ ok (user, groups)
      → IsGroups groups × (length groups ≤ 256) × (uid ≡ user)
  unfolding nodup
  groups_in-IsGroups uid user null groups h =
      let same = ok-injective h in
      subst (λ (p : String × List String). IsGroups p.1 × (length p.1 ≤ 256) × (uid ≡ p.0)) same
        (record { fitting = refl; distinct = refl }, omega arith, refl)
  groups_in-IsGroups uid user (list items) groups h =
      subst (λ (p : String × List String). IsGroups p.1 × (length p.1 ≤ 256) × (uid ≡ p.0))
        (ok-injective h)
        (
          add_groups-IsGroups [] (first_values 256 items)
              (record { fitting = refl; distinct = refl }),
          first_values-bounded 256 items [],
          refl,
        )
  groups_in-IsGroups uid user other groups h = absurd (cc)

  read_identity-IsGroups :
      (payload : Value) (user : String) (groups : List String)
      → read_identity py payload ≡ ok (user, groups)
      → IsGroups groups × (length groups ≤ 256) × (is_empty user ≡ false)
  unfolding read_identity
  read_identity-IsGroups payload user groups h =
      let ocs = member "ocs" payload in
      let part = member "data" ocs in
      let uid = stripped py (member "id" part) in
      let raw = member "groups" part in
      let meta = member "meta" ocs in
      let third = if is_empty uid then raised backend_error else groups_in py uid raw in
      let second = if not (is_ok_meta py meta) then raised backend_error else third in
      let (shaped, h2) = guard-eq-ok (not (is_dict part)) backend_error second h in
      let (fine, h3) = guard-eq-ok (not (is_ok_meta py meta)) backend_error third h2 in
      let (named, listed) = guard-eq-ok (is_empty uid) backend_error (groups_in py uid raw) h3 in
      let (good, few, same) = groups_in-IsGroups uid user raw groups listed in
      (good, few, sym (ap is_empty same) ∙ named)

  read_reply-IsGroups :
      (reply : OcsReply) (user : String) (groups : List String)
      → read_reply py reply ≡ ok (user, groups)
      → IsGroups groups × (length groups ≤ 256) × (is_empty user ≡ false)
  read_reply-IsGroups (document (some payload)) user groups h =
      read_identity-IsGroups payload user groups h
  read_reply-IsGroups (document none) user groups h = absurd (cc)
  read_reply-IsGroups (http_status code) user groups h =
      absurd (
        cc ((guard-eq-ok (eqb code 401 || eqb code 403) identity_error (raised backend_error) h).1))
  read_reply-IsGroups http_failure user groups h = absurd (cc)

  -- Where the identity of a user is found, the user id is not empty, and of the groups no two are the
  -- same, none is empty or longer than 256 characters, and there are at most 256.
  pub prefilter_identity-IsGroups :
      (ocs : NextcloudCredential → OcsReply) (enabled : Bool) (base_url : String)
      (found : Outcome NextcloudCredential) (user : String) (groups : List String)
      → prefilter_identity py ocs enabled base_url found ≡ ok (user, groups)
      → IsGroups groups × (length groups ≤ 256) × (is_empty user ≡ false)
  unfolding prefilter_identity
  prefilter_identity-IsGroups ocs enabled base_url found user groups h =
      let rest = found >>= λ c. read_reply py (ocs c) in
      let based = if is_empty base_url then raised configuration_error else rest in
      let (live, h2) = guard-eq-ok (not enabled) configuration_error based h in
      let (given, h3) = guard-eq-ok (is_empty base_url) configuration_error rest h2 in
      let (c, had, got) = >>=-eq-ok found (λ c. read_reply py (ocs c)) h3 in
      read_reply-IsGroups (ocs c) user groups got
