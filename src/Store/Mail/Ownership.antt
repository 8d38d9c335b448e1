-- ===== src/Store/Mail/Ownership.antt =====
-- Saving a mail account in rag/credential_store.py touches the accounts of one user alone.
use aki_rag_middleware.Prelude.{
  ℕ, String, ◌≡◌, refl, sym, ap, ◌∙◌, Bool, false, Option, none, some, List, ◌∷◌, [], ◌++◌, ◌==◌,
  any, filter, eq_iff, arith, is_empty, Bool-cases, Option-cases, inl, inr,
}
use aki_rag_middleware.Python.Values.{Runtime}
use aki_rag_middleware.Python.Errors.{Outcome, ok, raised, ◌>>=◌, >>=-eq-ok, ok-injective}
use aki_rag_middleware.Store.Sql.{first, update}
use aki_rag_middleware.Store.Sql.Distinct.{Distinct}
use aki_rag_middleware.Store.Crypto.{Cipher, SecretCrypto}
use aki_rag_middleware.Store.Rows.{Db, MailRow, CanonicalUser}
use aki_rag_middleware.Store.Users.{get_canonical_user}
use aki_rag_middleware.Store.Scope.{canonical_credential_owner}
use aki_rag_middleware.Store.Credentials.Roundtrip.{set_credential-eq-ok}
use aki_rag_middleware.Store.Mail.{
  MailForm, has_account, replace_mail, write_mail, mail_row, known_user, see_if_named,
  store_account, then_read, then_secret, put_secret, store_secret, save_mail_account,
}

abbrev pub same_account : MailRow → MailRow → Bool
same_account a b = has_account a.account_id b

-- The accounts of a user.
abbrev pub accounts_of : String → List MailRow → List MailRow
accounts_of user rows = filter (λ r. r.canonical_user_id == user) rows

accounts_of-append :
    (user : String) (rows : List MailRow) (row : MailRow)
    → (row.canonical_user_id == user) ≡ false
    → accounts_of user (rows ++ row ∷ []) ≡ accounts_of user rows
accounts_of-append user [] row h = rw h
accounts_of-append user (r ∷ rows) row h = elim (Bool-cases (r.canonical_user_id == user)) [
  | inl own ↦ rw own (ap (λ t. r ∷ t) (accounts_of-append user rows row h))
  | inr other ↦ rw other (accounts_of-append user rows row h)
]

update-untouched :
    (p : MailRow → Bool) (f : MailRow → MailRow) (rows : List MailRow)
    → any p rows ≡ false
    → update p f rows ≡ rows
unfolding update
update-untouched p f [] h = refl
update-untouched p f (r ∷ rows) h =
    let miss : p r ≡ false = ground arith in rw (miss, update-untouched p f rows (ground arith))

some_same : (a b : MailRow) → some a ≡ some b → a ≡ b
some_same a b h = cc

-- The one row of the account belongs to the same user as the new one.
accounts_of-update :
    (user : String) (row old : MailRow) (rows : List MailRow)
    → Distinct same_account rows
    → first (has_account row.account_id) rows ≡ some old
    → old.canonical_user_id ≡ row.canonical_user_id
    → (row.canonical_user_id == user) ≡ false
    → accounts_of user (update (has_account row.account_id) (replace_mail row) rows)
      ≡ accounts_of user rows
unfolding update first
accounts_of-update user row old [] d found owned h = absurd (cc)
accounts_of-update user row old (r ∷ rows) (apart, d) found owned h =
    elim (Bool-cases (has_account row.account_id r)) [
      | inl hit ↦
          let key : r.account_id ≡ row.account_id = (eq_iff r.account_id row.account_id).0 hit in
          let alone : any (has_account row.account_id) rows ≡ false =
            ap (λ k. any (has_account k) rows) (sym key) ∙ apart in
          let same : r ≡ old = some_same r old (rw hit at found) in
          let foreign : (r.canonical_user_id == user) ≡ false =
            ap (λ u. u == user) (ap (λ m. m.canonical_user_id) same ∙ owned) ∙ h in
          rw
            (
              hit,
              h,
              foreign,
              update-untouched (has_account row.account_id) (replace_mail row) rows alone,
            )
            refl
      | inr miss ↦ elim (Bool-cases (r.canonical_user_id == user)) [
        | inl own ↦
            rw (miss, own)
              (ap (λ t. r ∷ t) (accounts_of-update user row old rows d (rw miss at found) owned h))
        | inr other ↦
            rw (miss, other) (accounts_of-update user row old rows d (rw miss at found) owned h)
      ]
    ]

write_mail-others :
    (user : String) (row : MailRow) (rows after : List MailRow)
    → Distinct same_account rows
    → write_mail row rows (first (has_account row.account_id) rows) ≡ ok after
    → (row.canonical_user_id == user) ≡ false
    → accounts_of user after ≡ accounts_of user rows
write_mail-others user row rows after d h foreign =
    elim (Option-cases (first (has_account row.account_id) rows)) [
      | inl missing ↦
          ap (accounts_of user) (sym (ok-injective (rw missing at h)))
          ∙ accounts_of-append user rows row foreign
      | inr (old, found) ↦ elim (Bool-cases (old.canonical_user_id == row.canonical_user_id)) [
        | inl own ↦
            ap (accounts_of user) (sym (ok-injective (rw (found, own) at h)))
            ∙ accounts_of-update user row old rows d found
                ((eq_iff old.canonical_user_id row.canonical_user_id).0 own) foreign
        | inr other ↦ absurd (cc (rw (found, other) at h))
      ]
    ]

some_user : (a b : CanonicalUser) → some a ≡ some b → a ≡ b
some_user a b h = cc

known_user-eq-ok :
    (o : Option CanonicalUser) (user : CanonicalUser) → known_user o ≡ ok user → o ≡ some user
known_user-eq-ok none user h = absurd (cc)
known_user-eq-ok (some u) user h = ap some (ok-injective h)

module _ (py : Runtime) (cipher : Cipher) (crypto : SecretCrypto) where
  mail_row-owner :
      (fresh : String) (canonical : CanonicalUser) (form : MailForm) (now : ℕ) (row : MailRow)
      → mail_row py cipher crypto fresh canonical form now ≡ ok row
      → row.canonical_user_id ≡ canonical.canonical_user_id
  unfolding mail_row
  mail_row-owner fresh canonical form now row h = ground arith

  store_account-others :
      (fresh id other : String) (form : MailForm) (now : ℕ) (db after : Db) (row : MailRow)
      (user : CanonicalUser)
      → Distinct same_account db.mail_accounts
      → get_canonical_user id db ≡ some user
      → (user.canonical_user_id == other) ≡ false
      → store_account py cipher crypto fresh id form now db ≡ ok (after, row)
      → accounts_of other after.mail_accounts ≡ accounts_of other db.mail_accounts
  unfolding store_account
  store_account-others fresh id other form now db after row user d there foreign h =
      let write : CanonicalUser → MailRow → List MailRow → Outcome (Db × MailRow) =
        λ canonical row rows. ok (
          record db {
            mail_accounts = rows;
            mail_roots =
                see_if_named row.eml_target_path now
                  (see_if_named row.target_path now db.mail_roots);
          },
          row,
        ) in
      let storing : MailRow → Outcome (List MailRow) =
        λ r. write_mail r db.mail_accounts (first (has_account r.account_id) db.mail_accounts) in
      let (canonical, known, h2) =
        >>=-eq-ok (known_user (get_canonical_user id db))
          (λ c. mail_row py cipher crypto fresh c form now >>= λ r. storing r >>= write c r) h in
      let (made, accepted, h3) =
        >>=-eq-ok (mail_row py cipher crypto fresh canonical form now)
          (λ r. storing r >>= write canonical r) h2 in
      let (rows, written, h4) = >>=-eq-ok (storing made) (write canonical made) h3 in
      let same : user ≡ canonical =
        some_user user canonical
          (sym there ∙ known_user-eq-ok (get_canonical_user id db) canonical known) in
      let owner = mail_row-owner fresh canonical form now made accepted in
      ap (λ p. accounts_of other p.0.mail_accounts) (sym (ok-injective h4))
      ∙ write_mail-others other made db.mail_accounts rows d written
          (ap (λ u. u == other) (owner ∙ ap (λ u. u.canonical_user_id) (sym same)) ∙ foreign)

  put_secret-mail :
      (nonce password owner : String) (row : MailRow) (now : ℕ) (db after : Db)
      → put_secret py cipher crypto nonce password owner row now db ≡ ok after
      → db.mail_accounts ≡ after.mail_accounts
  unfolding put_secret
  put_secret-mail nonce password owner row now db after h = elim (Bool-cases (is_empty password)) [
    | inl kept ↦ ap (λ d. d.mail_accounts) (ok-injective (rw kept at h))
    | inr given ↦
        let (stored, sealed, same) =
          set_credential-eq-ok py cipher crypto nonce owner "mail_imap" row.username password
            row.account_id row.host now db after (rw given at h) in
        ap (λ d. d.mail_accounts) same
  ]

  store_secret-mail :
      (nonce password : String) (row : MailRow) (now : ℕ) (db after : Db)
      → store_secret py cipher crypto nonce password row now db ≡ ok after
      → db.mail_accounts ≡ after.mail_accounts
  unfolding store_secret
  store_secret-mail nonce password row now db after h =
      let (owner, named, put) =
        >>=-eq-ok (canonical_credential_owner row.canonical_user_id)
          (λ owner. put_secret py cipher crypto nonce password owner row now db) h in
      put_secret-mail nonce password owner row now db after put

  then_read-mail :
      (account : String) (db : Db) (o : Outcome Db)
      → ((after : Db) → o ≡ ok after → db.mail_accounts ≡ after.mail_accounts)
      → (then_read py cipher crypto account db o).0.mail_accounts ≡ db.mail_accounts
  then_read-mail account db (raised e) keep = refl
  then_read-mail account db (ok after) keep = sym (keep after refl)

  then_secret-others :
      (nonce password other : String) (now : ℕ) (db : Db) (o : Outcome (Db × MailRow))
      → ((after : Db) (row : MailRow)
          → o ≡ ok (after, row)
          → accounts_of other after.mail_accounts ≡ accounts_of other db.mail_accounts)
      → accounts_of other (then_secret py cipher crypto nonce password now db o).0.mail_accounts
        ≡ accounts_of other db.mail_accounts
  then_secret-others nonce password other now db (raised e) keep = refl
  then_secret-others nonce password other now db (ok (db', row)) keep =
      ap (accounts_of other) (
        then_read-mail row.account_id db' (store_secret py cipher crypto nonce password row now db')
          (λ after h. store_secret-mail nonce password row now db' after h))
      ∙ keep db' row refl

  -- Where no two accounts have the same id and the user is known, saving a mail account for it
  -- leaves the accounts of every other user as they are, in whatever way it ends.
  pub save_mail_account-others :
      (fresh nonce id other : String) (form : MailForm) (now : ℕ) (db : Db) (user : CanonicalUser)
      → Distinct same_account db.mail_accounts
      → get_canonical_user id db ≡ some user
      → (user.canonical_user_id == other) ≡ false
      → accounts_of other
          (save_mail_account py cipher crypto fresh nonce id form now db).0.mail_accounts
        ≡ accounts_of other db.mail_accounts
  unfolding save_mail_account
  save_mail_account-others fresh nonce id other form now db user d there foreign =
      then_secret-others nonce form.password other now db
        (store_account py cipher crypto fresh id form now db)
        (λ after row h.
          store_account-others fresh id other form now db after row user d there foreign h)
