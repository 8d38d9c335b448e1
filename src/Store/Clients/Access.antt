-- ===== src/Store/Clients/Access.antt =====
-- Which key opens the API for which client of rag/credential_store.py.
use mathlib.Core.Path.{subst}
use aki_rag_middleware.Prelude.{
  ℕ, String, ◌≡◌, refl, ap, sym, ◌∙◌, Bool, true, false, not, ◌&&◌, Option, none, some, List, ◌∷◌,
  [], ◌++◌, ◌==◌, any, eq_refl, eq_iff, arith, All, ltb, strip, is_empty, if◌then◌else◌, Bool-cases,
  inl, inr,
}
use aki_rag_middleware.Python.Errors.{
  Outcome, ok, raised, value_error, ◌>>=◌, >>=-eq-ok, ok-injective, guard-eq-ok,
}
use aki_rag_middleware.Auth.{chars}
use aki_rag_middleware.Store.Sql.{first, update}
use aki_rag_middleware.Store.Sql.Keys.{first-append, first-All}
use aki_rag_middleware.Store.Scope.{is_client_id}
use aki_rag_middleware.Store.Rows.{Db, ProviderClient}
use aki_rag_middleware.Store.Clients.{
  or_else_text, has_client_id, takes_hash, new_client, replace_client, insert_client, is_live_key,
  enable_client, set_client_enabled, register_client, authenticated, authenticate_client,
  touch_client,
}

-- The row that a live key finds, with the client that it names.
abbrev Finds : String → ProviderClient → List ProviderClient → Type 0
Finds hash row rows =
    (r : ProviderClient) × (first (is_live_key hash) rows ≡ some r) × (r.client_id ≡ row.client_id)

untaken-dead :
    (client hash : String) (rows : List ProviderClient)
    → any (takes_hash client hash) rows ≡ false
    → any (has_client_id client) rows ≡ false
    → any (is_live_key hash) rows ≡ false
untaken-dead client hash [] h k = refl
untaken-dead client hash (r ∷ rows) h k = ground (arith, untaken-dead client hash rows)

replaced-found :
    (row : ProviderClient) (rows : List ProviderClient)
    → row.enabled ≡ true
    → any (takes_hash row.client_id row.api_key_hash) rows ≡ false
    → any (has_client_id row.client_id) rows ≡ true
    → Finds row.api_key_hash row (
        update
          (has_client_id row.client_id)
          (replace_client row.name row.api_key_hash row.enabled row.updated_at)
          rows)
unfolding first update replace_client
replaced-found row [] on h k = absurd (cc)
replaced-found row (r ∷ rows) on h k = elim (Bool-cases (r.client_id == row.client_id)) [
  | inl own ↦ (
    replace_client row.name row.api_key_hash row.enabled row.updated_at r,
    rw (own, eq_refl row.api_key_hash, on),
    (eq_iff r.client_id row.client_id).0 own,
  )
  | inr other ↦
      let (found, same, named) = replaced-found row rows on (ground arith) (ground arith) in
      let dead : is_live_key row.api_key_hash r ≡ false = ground arith in
      (found, rw (other, dead) same, named)
]

appended-found :
    (row : ProviderClient) (rows : List ProviderClient)
    → row.enabled ≡ true
    → any (takes_hash row.client_id row.api_key_hash) rows ≡ false
    → any (has_client_id row.client_id) rows ≡ false
    → Finds row.api_key_hash row (rows ++ row ∷ [])
unfolding first
appended-found row rows on h k = (
  row,
  first-append (is_live_key row.api_key_hash) rows (row ∷ [])
        (untaken-dead row.client_id row.api_key_hash rows h k)
      ∙ rw (eq_refl row.api_key_hash, on),
  refl,
)

insert_client-found :
    (replace : Bool) (row : ProviderClient) (rows after : List ProviderClient)
    → row.enabled ≡ true
    → any (takes_hash row.client_id row.api_key_hash) rows ≡ false
    → insert_client replace row rows ≡ ok after
    → Finds row.api_key_hash row after
unfolding insert_client
insert_client-found true row rows after on free h =
    elim (Bool-cases (any (has_client_id row.client_id) rows)) [
      | inl old ↦
          subst (Finds row.api_key_hash row) (ok-injective (rw (free, old) at h))
            (replaced-found row rows on free old)
      | inr fresh ↦
          subst (Finds row.api_key_hash row) (ok-injective (rw (free, fresh) at h))
            (appended-found row rows on free fresh)
    ]
insert_client-found false row rows after on free h =
    elim (Bool-cases (any (has_client_id row.client_id) rows)) [
      | inl old ↦ absurd (cc (rw (free, old) at h))
      | inr fresh ↦
          subst (Finds row.api_key_hash row) (ok-injective (rw (free, fresh) at h))
            (appended-found row rows on free fresh)
    ]

insert_client-free :
    (replace : Bool) (row : ProviderClient) (rows after : List ProviderClient)
    → insert_client replace row rows ≡ ok after
    → any (takes_hash row.client_id row.api_key_hash) rows ≡ false
unfolding insert_client
insert_client-free replace row rows after h =
    elim (Bool-cases (any (takes_hash row.client_id row.api_key_hash) rows)) [
      | inl taken ↦ absurd (cc (rw taken at h))
      | inr free ↦ free
    ]

short_empty : (s : String) → ltb (chars s) 24 ≡ false → is_empty s ≡ false
unfolding chars
short_empty String.[] h = absurd (cc)
short_empty (String.◌∷◌ c s) h = refl

abbrev Disabled : String → ProviderClient → Type 0
Disabled client row = (row.client_id == client && row.enabled) ≡ false

enable_client-Disabled :
    (client : String) (now : ℕ) (rows : List ProviderClient)
    → All (Disabled client) (update (has_client_id client) (enable_client false now) rows)
unfolding update
enable_client-Disabled client now [] = tt
enable_client-Disabled client now (r ∷ rows) =
    (ground arith, enable_client-Disabled client now rows)

module _ (key_hash : String → String) where
  authenticated-some :
      (touch : Bool) (now : ℕ) (db : Db) (r : ProviderClient)
      → (row : ProviderClient) × ((authenticated key_hash touch now db (some r)).1 ≡ some row)
        × (row.client_id ≡ r.client_id)
  authenticated-some true now db r = (touch_client now r, refl, refl)
  authenticated-some false now db r = (r, refl, refl)

  authenticated-from :
      (touch : Bool) (now : ℕ) (db : Db) (o : Option ProviderClient) (row : ProviderClient)
      → (authenticated key_hash touch now db o).1 ≡ some row
      → (r : ProviderClient) × (o ≡ some r) × (row.client_id ≡ r.client_id)
  authenticated-from touch now db none row h = absurd (cc)
  authenticated-from true now db (some r) row h =
      let same : touch_client now r ≡ row = cc in (r, refl, ap (λ c. c.client_id) (sym same))
  authenticated-from false now db (some r) row h =
      let same : r ≡ row = cc in (r, refl, ap (λ c. c.client_id) (sym same))

  -- Where the registration of an enabled client succeeds, its key opens the API for that client.
  pub authenticate_client-register_client :
      (client_id api_key name : String) (replace touch : Bool) (now later : ℕ) (db after : Db)
      → register_client key_hash client_id api_key name true replace now db ≡ ok after
      → (row : ProviderClient) × ((authenticate_client key_hash api_key touch later after).1
          ≡ some row)
        × (row.client_id ≡ strip client_id)
  unfolding register_client authenticate_client
  authenticate_client-register_client client_id api_key name replace touch now later db after h =
      let client = strip client_id in
      let secret = strip api_key in
      let display = or_else_text (strip (or_else_text name client)) client in
      let row = new_client client display (key_hash secret) true now in
      let insertion : Outcome Db =
        insert_client replace row db.clients >>= λ rows. ok (record db { clients = rows }) in
      let long = if ltb (chars secret) 24 then raised value_error else insertion in
      let (known, h2) = guard-eq-ok (not (is_client_id client)) value_error long h in
      let (enough, h3) = guard-eq-ok (ltb (chars secret) 24) value_error insertion h2 in
      let (rows, inserted, same) =
        >>=-eq-ok (insert_client replace row db.clients) (λ rows. ok (record db { clients = rows }))
          h3 in
      let (found, here, named) =
        insert_client-found replace row db.clients rows refl
          (insert_client-free replace row db.clients rows inserted) inserted in
      let kept : rows ≡ after.clients = ap (λ d. d.clients) (ok-injective same) in
      let (result, given, own) = authenticated-some touch later after found in
      (
        result,
        rw (short_empty secret enough) (
            ap (λ o. (authenticated key_hash touch later after o).1)
              (ap (first (is_live_key (key_hash secret))) (sym kept) ∙ here)
            ∙ given),
        own ∙ named,
      )

  -- Once a client is disabled, no key opens the API for it.
  authenticate_client-disabled :
      (client_id api_key : String) (touch : Bool) (now later : ℕ) (db : Db) (row : ProviderClient)
      → (authenticate_client key_hash api_key touch later
          (set_client_enabled client_id false now db).0).1
        ≡ some row
      → (row.client_id == strip client_id) ≡ false
  unfolding authenticate_client set_client_enabled
  authenticate_client-disabled client_id api_key touch now later db row h =
      let client = strip client_id in
      let secret = strip api_key in
      let changed = (set_client_enabled client_id false now db).0 in
      elim (Bool-cases (is_empty secret)) [
        | inl blank ↦ absurd (cc (rw blank at h))
        | inr given ↦
            let (r, found, named) =
              authenticated-from touch later changed
                (first (is_live_key (key_hash secret)) changed.clients) row (rw given at h) in
            let (dead, live) =
              first-All (Disabled client) (is_live_key (key_hash secret)) changed.clients r found
                (enable_client-Disabled client now db.clients) in
            ap (λ n. n == client) named ∙ ground arith
      ]
