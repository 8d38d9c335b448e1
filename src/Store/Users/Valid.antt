-- ===== src/Store/Users/Valid.antt =====
-- The canonical users of rag/credential_store.py: no two have the same id or the same account.
use mathlib.Core.Path.{subst}
use aki_rag_middleware.Prelude.{
  ℕ, String, ◌≡◌, refl, Bool, false, List, ◌∷◌, [], ◌++◌, any, Bool-cases, Option-cases, inl, inr,
}
use aki_rag_middleware.Python.Errors.{ok}
use aki_rag_middleware.Store.Sql.{first, update}
use aki_rag_middleware.Store.Sql.Distinct.{Distinct-update, Distinct-added, first-none}
use aki_rag_middleware.Store.Sql.Keys.{eq_comm}
use aki_rag_middleware.Store.Rows.{Db, CanonicalUser}
use aki_rag_middleware.Store.Users.{has_user_id, has_login, see, new_user, insert_user, ensured}
use aki_rag_middleware.Store.Users.Ensure.{IsUsers, same_id, same_login, asserted-eq-ok}

pub IsUsers-update :
    (p : CanonicalUser → Bool) (f : CanonicalUser → CanonicalUser) (users : List CanonicalUser)
    → ((u v : CanonicalUser) → (same_id (f u) v ≡ same_id u v) × (same_id u (f v) ≡ same_id u v))
    → ((u v : CanonicalUser)
        → (same_login (f u) v ≡ same_login u v) × (same_login u (f v) ≡ same_login u v))
    → IsUsers users
    → IsUsers (update p f users)
IsUsers-update p f users i l valid = record {
  ids = Distinct-update same_id p f users (λ u v. (i u v).0) (λ u v. (i u v).1) valid.ids;
  logins = Distinct-update same_login p f users (λ u v. (l u v).0) (λ u v. (l u v).1) valid.logins;
}

IsUsers-added :
    (user : CanonicalUser) (users : List CanonicalUser)
    → any (has_user_id user.canonical_user_id) users ≡ false
    → any (has_login user.nextcloud_server user.nextcloud_login) users ≡ false
    → IsUsers users
    → IsUsers (users ++ user ∷ [])
IsUsers-added user users i l valid = record {
  ids =
      Distinct-added same_id users user (λ u v. eq_comm v.canonical_user_id u.canonical_user_id) i
        valid.ids;
  logins =
      Distinct-added same_login users user
        (λ u v. rw (
          eq_comm v.nextcloud_server u.nextcloud_server,
          eq_comm v.nextcloud_login u.nextcloud_login,
        ))
        l valid.logins;
}

-- What `ensured` leaves of the users.
pub ensured-IsUsers :
    (fresh server login : String) (now : ℕ) (db after : Db) (user : CanonicalUser)
    → IsUsers db.canonical_users
    → ensured
        (new_user fresh server login now)
        now
        db
        (first (has_login server login) db.canonical_users)
      ≡ ok (after, user)
    → IsUsers after.canonical_users
ensured-IsUsers fresh server login now db after user valid h =
    let new = new_user fresh server login now in
    elim (Option-cases (first (has_login server login) db.canonical_users)) [
      | inl missing ↦
          let after' = record db { canonical_users = db.canonical_users ++ new ∷ [] } in
          let inserted : insert_user new db ≡ ok (after, user) = rw missing at h in
          elim (Bool-cases (any (has_user_id fresh) db.canonical_users)) [
            | inl taken ↦ absurd (cc (rw taken at inserted))
            | inr free ↦
                let (left, same) =
                  asserted-eq-ok after' after (first (has_user_id fresh) after'.canonical_users)
                    user (rw free at inserted) in
                subst (λ d. IsUsers d.canonical_users) left
                  (IsUsers-added new db.canonical_users free
                    (first-none (has_login server login) db.canonical_users missing) valid)
          ]
      | inr (old, found) ↦
          let after' = record db {
            canonical_users =
                update (has_user_id old.canonical_user_id) (see now) db.canonical_users;
          } in
          let (left, same) =
            asserted-eq-ok after' after
              (first (has_user_id old.canonical_user_id) after'.canonical_users) user
              (rw found at h) in
          subst (λ d. IsUsers d.canonical_users) left
            (IsUsers-update (has_user_id old.canonical_user_id) (see now) db.canonical_users
              (λ u v. (refl, refl)) (λ u v. (refl, refl)) valid)
    ]
