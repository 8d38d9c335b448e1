-- ===== src/Store/Users/Binding.antt =====
-- An identity that is bound in rag/credential_store.py belongs to the Nextcloud account that it named.
use mathlib.Core.Path.{ap₂}
use aki_rag_middleware.Prelude.{
  ℕ, String, ◌≡◌, sym, ap, ◌∙◌, true, false, ◌||◌, some, List, ◌∷◌, [], ◌++◌, any, eq_iff, eq_refl,
  arith, strip, is_empty, Bool-cases, inl, inr,
}
use aki_rag_middleware.Python.Values.{Runtime}
use aki_rag_middleware.Python.Errors.{
  Outcome, ok, value_error, ◌>>=◌, >>=-eq-ok, ok-injective, guard-eq-ok,
}
use aki_rag_middleware.Store.Sql.{first, update, upsert}
use aki_rag_middleware.Store.Sql.Keys.{first-All}
use aki_rag_middleware.Store.Rows.{Db, CanonicalUser, IdentityBinding}
use aki_rag_middleware.Store.Users.{
  Urls, has_user_id, has_login, is_bound, see, new_user, ensured, rebind, put_binding,
  normalize_nextcloud_server, ensure_canonical_user, bind_identity, bound_user,
  get_canonical_user_for_identity,
}
use aki_rag_middleware.Store.Users.Ensure.{
  IsUsers, All-Unit, asserted-eq-ok, ensure_canonical_user-IsEnsured,
}

module _ (py : Runtime) (urls : Urls) where
  pub bind_identity-eq-ok :
      (fresh rag_user_id server login : String) (now : ℕ) (db after : Db) (user : CanonicalUser)
      → bind_identity py urls fresh rag_user_id server login now db ≡ ok (after, user)
      → (db' : Db) × (ensure_canonical_user py urls fresh server login now db ≡ ok (db', user))
        × (put_binding (strip rag_user_id) now db' user ≡ after)
  unfolding bind_identity
  bind_identity-eq-ok fresh rag_user_id server login now db after user h =
      let bind : Db × CanonicalUser → Outcome (Db × CanonicalUser) =
        λ p. ok (put_binding (strip rag_user_id) now p.0 p.1, p.1) in
      let ensure = ensure_canonical_user py urls fresh server login now db in
      let (given, h2) =
        guard-eq-ok (is_empty (strip rag_user_id)) value_error (ensure >>= bind) h in
      let (p, ensured_as, same) = >>=-eq-ok ensure bind h2 in
      let e : p.1 ≡ user = ap (λ q. q.1) (ok-injective same) in
      (
        p.0,
        ensured_as ∙ ap (λ u. ok (p.0, u)) e,
        ap (put_binding (strip rag_user_id) now p.0) (sym e) ∙ ap (λ q. q.0) (ok-injective same),
      )

bound_user-update :
    (users : List CanonicalUser) (identity : String) (now : ℕ) (user : CanonicalUser)
    (bs : List IdentityBinding)
    → first (has_user_id user.canonical_user_id) users ≡ some user
    → any (is_bound identity) bs ≡ true
    → bound_user users identity (update (is_bound identity) (rebind user.canonical_user_id now) bs)
      ≡ some user
unfolding bound_user update
bound_user-update users identity now user [] there h = absurd (cc)
bound_user-update users identity now user (b ∷ bs) there h =
    elim (Bool-cases (is_bound identity b)) [
      | inl own ↦ rw (own, own, there)
      | inr other ↦
          rw (other, other) (bound_user-update users identity now user bs there (ground arith))
    ]

bound_user-append :
    (users : List CanonicalUser) (identity : String) (user : CanonicalUser)
    (bs : List IdentityBinding) (b : IdentityBinding)
    → first (has_user_id b.canonical_user_id) users ≡ some user
    → is_bound identity b ≡ true
    → any (is_bound identity) bs ≡ false
    → bound_user users identity (bs ++ b ∷ []) ≡ some user
unfolding bound_user
bound_user-append users identity user [] b there own h = rw (own, there)
bound_user-append users identity user (c ∷ bs) b there own h =
    elim (Bool-cases (is_bound identity c)) [
      | inl wrong ↦ absurd (ground arith)
      | inr other ↦ rw other (bound_user-append users identity user bs b there own (ground arith))
    ]

bound_user-put_binding :
    (identity : String) (now : ℕ) (db : Db) (user : CanonicalUser)
    → first (has_user_id user.canonical_user_id) db.canonical_users ≡ some user
    → bound_user db.canonical_users identity (put_binding identity now db user).bindings ≡ some user
unfolding upsert
bound_user-put_binding identity now db user there =
    elim (Bool-cases (any (is_bound identity) db.bindings)) [
      | inl old ↦
          rw old (bound_user-update db.canonical_users identity now user db.bindings there old)
      | inr fresh ↦ rw fresh (
          bound_user-append db.canonical_users identity user db.bindings _ there (eq_refl identity)
            fresh)
    ]

module _ (py : Runtime) (urls : Urls) where
  -- In a store whose users differ by id and by account, an identity that is bound to a Nextcloud account
  -- is looked up as the user that the call gave, who has that server, normalized, and that login.
  pub get_canonical_user_for_identity-bind_identity :
      (fresh rag_user_id server login : String) (now : ℕ) (db after : Db) (user : CanonicalUser)
      → IsUsers db.canonical_users
      → bind_identity py urls fresh rag_user_id server login now db ≡ ok (after, user)
      → (get_canonical_user_for_identity rag_user_id after ≡ some user)
        × (user.nextcloud_server ≡ normalize_nextcloud_server py urls server)
        × (user.nextcloud_login ≡ strip login)
  unfolding get_canonical_user_for_identity
  get_canonical_user_for_identity-bind_identity fresh rag_user_id server login now db after user
        valid h =
      let (db', ensured_as, same) =
        bind_identity-eq-ok py urls fresh rag_user_id server login now db after user h in
      let e =
        ensure_canonical_user-IsEnsured py urls fresh server login now db db' user valid
          ensured_as in
      (
        ap (λ d. bound_user d.canonical_users (strip rag_user_id) d.bindings) (sym same)
            ∙ bound_user-put_binding (strip rag_user_id) now db' user e.by_id,
        e.named.0,
        e.named.1,
      )

  -- Two identities that are bound to the same Nextcloud account one after the other belong to the
  -- same canonical user, in a store whose users differ by id and by account.
  pub bind_identity-shared :
      (f g a b s t l m : String) (now later : ℕ) (db mid after : Db) (u v : CanonicalUser)
      → IsUsers db.canonical_users
      → bind_identity py urls f a s l now db ≡ ok (mid, u)
      → bind_identity py urls g b t m later mid ≡ ok (after, v)
      → normalize_nextcloud_server py urls s ≡ normalize_nextcloud_server py urls t
      → strip l ≡ strip m
      → v.canonical_user_id ≡ u.canonical_user_id
  unfolding ensure_canonical_user
  bind_identity-shared f g a b s t l m now later db mid after u v valid h k server login =
      let (db', e1, same) = bind_identity-eq-ok py urls f a s l now db mid u h in
      let e = ensure_canonical_user-IsEnsured py urls f s l now db db' u valid e1 in
      let (mid', e2, rest) = bind_identity-eq-ok py urls g b t m later mid after v k in
      let test = has_login (normalize_nextcloud_server py urls t) (strip m) in
      let there : first test mid.canonical_users ≡ some u =
        ap (λ d. first test d.canonical_users) (sym same)
        ∙ ap₂ (λ x y. first (has_login x y) db'.canonical_users) (sym server) (sym login)
        ∙ e.by_login in
      let (given, h2) =
        guard-eq-ok (is_empty (normalize_nextcloud_server py urls t) || is_empty (strip m))
          value_error
          (ensured (new_user g (normalize_nextcloud_server py urls t) (strip m) later) later mid
            (first test mid.canonical_users))
          e2 in
      let seen = update (has_user_id u.canonical_user_id) (see later) mid.canonical_users in
      let (left, found) =
        asserted-eq-ok (record mid { canonical_users = seen }) mid'
          (first (has_user_id u.canonical_user_id) seen) v (rw there at h2) in
      (eq_iff v.canonical_user_id u.canonical_user_id).0
        (first-All (λ u. Unit {0}) (has_user_id u.canonical_user_id) seen v found (All-Unit seen)).1
