-- ===== src/Store/Users/Ensure.antt =====
-- `ensure_canonical_user` of rag/credential_store.py finds or adds the user of a Nextcloud account.
use mathlib.Core.Path.{subst}
use aki_rag_middleware.Prelude.{
  ℕ, String, ◌≡◌, refl, ap, ◌∙◌, Bool, true, ◌||◌, Option, none, some, List, ◌∷◌, [], ◌++◌, any,
  All, eq_iff, eq_refl, arith, strip, is_empty, Bool-cases, Option-cases, inl, inr,
}
use aki_rag_middleware.Python.Values.{Runtime}
use aki_rag_middleware.Python.Errors.{ok, value_error, ok-injective, guard-eq-ok}
use aki_rag_middleware.Store.Sql.{first, update}
use aki_rag_middleware.Store.Sql.Keys.{first-append, first-All, eq_comm}
use aki_rag_middleware.Store.Sql.Distinct.{Distinct, first-key, first-update, first-none}
use aki_rag_middleware.Store.Rows.{Db, CanonicalUser}
use aki_rag_middleware.Store.Users.{
  Urls, has_user_id, has_login, see, asserted, new_user, insert_user, ensured,
  normalize_nextcloud_server, ensure_canonical_user,
}

abbrev pub same_id : CanonicalUser → CanonicalUser → Bool
same_id u v = has_user_id u.canonical_user_id v

abbrev pub same_login : CanonicalUser → CanonicalUser → Bool
same_login u v = has_login u.nextcloud_server u.nextcloud_login v

-- Neither an id nor an account stands in the table twice.
pub record IsUsers (users : List CanonicalUser) : Type 0 where
  pub ids : Distinct same_id users
  pub logins : Distinct same_login users

-- What `ensure_canonical_user` leaves: the user, found by its id and by its account.
pub record IsEnsured (server login : String) (db after : Db) (user : CanonicalUser) : Type 0 where
  pub by_id : first (has_user_id user.canonical_user_id) after.canonical_users ≡ some user
  pub by_login : first (has_login server login) after.canonical_users ≡ some user
  pub named : (user.nextcloud_server ≡ server) × (user.nextcloud_login ≡ login)
  pub same_bindings : after.bindings ≡ db.bindings

has_login-parts :
    (server login : String) (u : CanonicalUser)
    → has_login server login u ≡ true
    → (u.nextcloud_server ≡ server) × (u.nextcloud_login ≡ login)
has_login-parts server login u h = (
  (eq_iff u.nextcloud_server server).0 (ground arith),
  (eq_iff u.nextcloud_login login).0 (ground arith),
)

pub asserted-eq-ok :
    (db after : Db) (o : Option CanonicalUser) (user : CanonicalUser)
    → asserted db o ≡ ok (after, user)
    → (db ≡ after) × (o ≡ some user)
asserted-eq-ok db after none user h = absurd (cc)
asserted-eq-ok db after (some u) user h =
    (ap (λ p. p.0) (ok-injective h), ap (λ p. some p.1) (ok-injective h))

pub All-Unit : (users : List CanonicalUser) → All (λ u. Unit {0}) users
All-Unit [] = tt
All-Unit (u ∷ users) = (tt, All-Unit users)

seen-IsEnsured :
    (server login : String) (old user : CanonicalUser) (now : ℕ) (db after : Db)
    → IsUsers db.canonical_users
    → first (has_login server login) db.canonical_users ≡ some old
    → ensured (new_user "" server login now) now db (some old) ≡ ok (after, user)
    → IsEnsured server login db after user
seen-IsEnsured server login old user now db after valid found h =
    let by_key =
      first-key same_id (has_login server login) db.canonical_users old valid.ids
        (λ u. eq_refl u.canonical_user_id) (λ u v. eq_comm v.canonical_user_id u.canonical_user_id)
        found in
    let own : has_user_id old.canonical_user_id old ≡ true = eq_refl old.canonical_user_id in
    let after' = record db {
      canonical_users = update (has_user_id old.canonical_user_id) (see now) db.canonical_users;
    } in
    let seen_by : (q : CanonicalUser → Bool)
        → ((u : CanonicalUser) → q (see now u) ≡ q u)
        → first q db.canonical_users ≡ some old
        → first q after'.canonical_users ≡ some (see now old) =
      λ q keep there.
        first-update q (has_user_id old.canonical_user_id) (see now) db.canonical_users old keep
          there
        ∙ rw own refl in
    let by_id = seen_by (has_user_id old.canonical_user_id) (λ u. refl) by_key in
    let (left, same) =
      asserted-eq-ok after' after (first (has_user_id old.canonical_user_id) after'.canonical_users)
        user h in
    let whole : IsEnsured server login db after' (see now old) = record {
      by_id = by_id;
      by_login = seen_by (has_login server login) (λ u. refl) found;
      named =
          has_login-parts server login old
            (first-All (λ u. Unit {0}) (has_login server login) db.canonical_users old found
              (All-Unit db.canonical_users)).1;
      same_bindings = refl;
    } in
    let e : see now old ≡ user = cc in
    subst (λ d. IsEnsured server login db d user) left
      (subst (λ u. IsEnsured server login db after' u) e whole)

added-IsEnsured :
    (fresh server login : String) (user : CanonicalUser) (now : ℕ) (db after : Db)
    → first (has_login server login) db.canonical_users ≡ none
    → insert_user (new_user fresh server login now) db ≡ ok (after, user)
    → IsEnsured server login db after user
unfolding first
added-IsEnsured fresh server login user now db after missing h =
    let new = new_user fresh server login now in
    let after' = record db { canonical_users = db.canonical_users ++ new ∷ [] } in
    elim (Bool-cases (any (has_user_id fresh) db.canonical_users)) [
      | inl taken ↦ absurd (cc (rw taken at h))
      | inr free ↦
          let by_id : first (has_user_id fresh) after'.canonical_users ≡ some new =
            first-append (has_user_id fresh) db.canonical_users (new ∷ []) free
            ∙ rw (eq_refl fresh) refl in
          let by_login : first (has_login server login) after'.canonical_users ≡ some new =
            first-append (has_login server login) db.canonical_users (new ∷ [])
              (first-none (has_login server login) db.canonical_users missing)
            ∙ rw (eq_refl server, eq_refl login) refl in
          let whole : IsEnsured server login db after' new = record {
            by_id = by_id;
            by_login = by_login;
            named = (refl, refl);
            same_bindings = refl;
          } in
          let (left, same) =
            asserted-eq-ok after' after (first (has_user_id fresh) after'.canonical_users) user
              (rw free at h) in
          let e : new ≡ user = cc in
          subst (λ d. IsEnsured server login db d user) left
            (subst (λ u. IsEnsured server login db after' u) e whole)
    ]

module _ (py : Runtime) (urls : Urls) where
  pub ensure_canonical_user-IsEnsured :
      (fresh server login : String) (now : ℕ) (db after : Db) (user : CanonicalUser)
      → IsUsers db.canonical_users
      → ensure_canonical_user py urls fresh server login now db ≡ ok (after, user)
      → IsEnsured (normalize_nextcloud_server py urls server) (strip login) db after user
  unfolding ensure_canonical_user
  ensure_canonical_user-IsEnsured fresh server login now db after user valid h =
      let s = normalize_nextcloud_server py urls server in
      let l = strip login in
      let new = new_user fresh s l now in
      let (given, h2) =
        guard-eq-ok (is_empty s || is_empty l) value_error
          (ensured new now db (first (has_login s l) db.canonical_users)) h in
      elim (Option-cases (first (has_login s l) db.canonical_users)) [
        | inl missing ↦ added-IsEnsured fresh s l user now db after missing (rw missing at h2)
        | inr (old, found) ↦ seen-IsEnsured s l old user now db after valid found (rw found at h2)
      ]
