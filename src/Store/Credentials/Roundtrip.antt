-- ===== src/Store/Credentials/Roundtrip.antt =====
-- Secrets that are written to `CredentialStore` of rag/credential_store.py are read back.
use aki_rag_middleware.Prelude.{
  ℕ, String, ◌≡◌, refl, ap, sym, ◌∙◌, true, false, ◌&&◌, ◌||◌, some, ◌==◌, eq_iff, arith, strip,
  is_empty, if◌then◌else◌,
}
use aki_rag_middleware.Python.Values.{Runtime}
use aki_rag_middleware.Python.Errors.{
  Outcome, ok, value_error, ◌>>=◌, >>=-eq-ok, guard-eq-ok, ok-injective,
}
use aki_rag_middleware.Store.Sql.Keys.{first-upsert}
use aki_rag_middleware.Store.Crypto.{Cipher, IsCipher, SecretCrypto, encrypt, is_encrypted}
use aki_rag_middleware.Store.Crypto.Laws.{decrypt-encrypt}
use aki_rag_middleware.Store.Rows.{Db, CredentialRow}
use aki_rag_middleware.Store.Credentials.{
  is_credential, credential_aad, or_primary, overwrite, put_credential, set_credential,
  credential_from_row, get_credential,
}

is_credential-parts :
    (u s a : String) (row : CredentialRow)
    → is_credential u s a row ≡ true
    → (row.rag_user_id ≡ u) × (row.service ≡ s) × (row.account_id ≡ a)
is_credential-parts u s a row h = (
  (eq_iff row.rag_user_id u).0 (ground arith),
  (eq_iff row.service s).0 (ground arith),
  (eq_iff row.account_id a).0 (ground arith),
)

is_credential-same :
    (u s a : String) (row x : CredentialRow)
    → is_credential u s a row ≡ true
    → is_credential u s a x ≡ true
    → is_credential row.rag_user_id row.service row.account_id x ≡ true
is_credential-same u s a row x own hit =
    let (ru, rs, ra) = is_credential-parts u s a row own in
    let (xu, xs, xa) = is_credential-parts u s a x hit in
    rw (
      (eq_iff x.rag_user_id row.rag_user_id).1 (xu ∙ sym ru),
      (eq_iff x.service row.service).1 (xs ∙ sym rs),
      (eq_iff x.account_id row.account_id).1 (xa ∙ sym ra),
    )

module _ (py : Runtime) (cipher : Cipher) (crypto : SecretCrypto) where
  overwrite-read :
      (row old : CredentialRow)
      → is_credential row.rag_user_id row.service row.account_id old ≡ true
      → credential_from_row py cipher crypto (some (overwrite row old))
        ≡ credential_from_row py cipher crypto (some row)
  unfolding credential_from_row
  overwrite-read row old h =
      let (u, s, a) = is_credential-parts row.rag_user_id row.service row.account_id old h in
      rw (u, s, a)

  get_credential-put_credential :
      (row : CredentialRow) (u s a : String) (db : Db)
      → get_credential py cipher crypto u s a (put_credential row db) ≡ (
          if is_credential (strip u) (py.lower (strip s)) (or_primary a) row
          then credential_from_row py cipher crypto (some row)
          else get_credential py cipher crypto u s a db)
  unfolding get_credential
  get_credential-put_credential row u s a db =
      first-upsert (credential_from_row py cipher crypto)
        (is_credential row.rag_user_id row.service row.account_id)
        (is_credential (strip u) (py.lower (strip s)) (or_primary a)) row (overwrite row)
        (λ x hit.
          let (xu, xs, xa) = is_credential-parts row.rag_user_id row.service row.account_id x hit in
          (rw (xu, xs, xa), rw (xu, xs, xa), overwrite-read row x hit))
        (λ x own hit.
          is_credential-same (strip u) (py.lower (strip s)) (or_primary a) row x own hit)
        db.credentials

  -- The row that `set_credential` writes.
  abbrev pub new_row : String → String → String → String → String → String → ℕ → CredentialRow
  new_row stored u s name a server now = record {
    rag_user_id = strip u;
    service = py.lower (strip s);
    account_id = or_primary (strip (or_primary a));
    server = server;
    username = strip name;
    secret = stored;
    created_at = now;
    updated_at = now;
  }

  pub set_credential-eq-ok :
      (nonce u s name secret a server : String) (now : ℕ) (db after : Db)
      → set_credential py cipher crypto nonce u s name secret a server now db ≡ ok after
      → (stored : String) × (encrypt cipher crypto nonce
            (credential_aad (strip u) (py.lower (strip s)) (or_primary (strip (or_primary a))))
            secret
          ≡ ok stored)
        × (put_credential (new_row stored u s name a server now) db ≡ after)
  unfolding set_credential
  set_credential-eq-ok nonce u s name secret a server now db after h =
      let aad = credential_aad (strip u) (py.lower (strip s)) (or_primary (strip (or_primary a))) in
      let missing =
        is_empty (strip u)
        || is_empty (py.lower (strip s))
        || is_empty (strip name)
        || is_empty secret in
      let write : String → Outcome Db =
        λ stored. ok (put_credential (new_row stored u s name a server now) db) in
      let (given, h2) =
        guard-eq-ok missing value_error (encrypt cipher crypto nonce aad secret >>= write) h in
      let (stored, sealed, same) = >>=-eq-ok (encrypt cipher crypto nonce aad secret) write h2 in
      (stored, sealed, ok-injective same)

  -- After a secret is stored that is not marked as encrypted already, a read gives it back whose
  -- user is the same when stripped, whose service is the same when stripped and in lower case, and
  -- whose account id, as it is given, is the stored one, which is stripped; any other read gives
  -- what it gave before.
  pub get_credential-set_credential :
      (nonce u s name secret a server : String) (now : ℕ) (db after : Db) (u2 s2 a2 : String)
      → IsCipher cipher
      → is_encrypted secret ≡ false
      → set_credential py cipher crypto nonce u s name secret a server now db ≡ ok after
      → get_credential py cipher crypto u2 s2 a2 after ≡ (
          if strip u == strip u2
            && (py.lower (strip s) == py.lower (strip s2)
                && or_primary (strip (or_primary a)) == or_primary a2)
          then ok (
              some (record {
                rag_user_id = strip u;
                service = py.lower (strip s);
                account_id = or_primary (strip (or_primary a));
                server = server;
                username = strip name;
                secret = secret;
              }))
          else get_credential py cipher crypto u2 s2 a2 db)
  unfolding credential_from_row
  get_credential-set_credential nonce u s name secret a server now db after u2 s2 a2 lawful plain
        h =
      let (stored, sealed, same) =
        set_credential-eq-ok nonce u s name secret a server now db after h in
      let aad = credential_aad (strip u) (py.lower (strip s)) (or_primary (strip (or_primary a))) in
      let clear = decrypt-encrypt cipher lawful crypto nonce aad secret stored plain sealed in
      ap (get_credential py cipher crypto u2 s2 a2) (sym same)
      ∙ get_credential-put_credential (new_row stored u s name a server now) u2 s2 a2 db
      ∙ rw clear refl
