-- ===== src/Store/Clients/Removal.antt =====
-- What the deletion of a client in rag/credential_store.py takes with it.
use aki_rag_middleware.Prelude.{
  String, ◌≡◌, refl, ap, sym, ◌∙◌, true, List, [], ◌==◌, eqb, filter, strip, append, if◌then◌else◌,
  Bool-cases, inl, inr,
}
use aki_rag_middleware.Python.Errors.{ok, ok-injective}
use aki_rag_middleware.Store.Sql.{delete, rowcount}
use aki_rag_middleware.Store.Sql.Keys.{filter-delete}
use aki_rag_middleware.Store.Scope.{is_client_id, scope_identity, starts, separator}
use aki_rag_middleware.Store.Scope.Laws.{starts-scope_identity}
use aki_rag_middleware.Store.Rows.{Db, CredentialRow, FlowRow, IdentityBinding}
use aki_rag_middleware.Store.Clients.{has_client_id, purge, delete_client}

-- The rows of an identity.
abbrev pub credentials_of : String → Db → List CredentialRow
credentials_of id db = filter (λ row. row.rag_user_id == id) db.credentials

abbrev pub flows_of : String → Db → List FlowRow
flows_of id db = filter (λ row. row.rag_user_id == id) db.flows

abbrev pub bindings_of : String → Db → List IdentityBinding
bindings_of id db = filter (λ row. row.rag_user_id == id) db.bindings

deleted_purged :
    (client_id : String) (db after : Db)
    → delete_client client_id true db ≡ ok (after, true)
    → (is_client_id (strip client_id) ≡ true)
      × (purge
            (append (strip client_id) separator)
            (record db { clients = delete (has_client_id (strip client_id)) db.clients })
          ≡ after)
unfolding delete_client
deleted_purged client_id db after h =
    let client = strip client_id in
    elim (Bool-cases (is_client_id client)) [
      | inl known ↦ elim (Bool-cases (eqb (rowcount (has_client_id client) db.clients) 0)) [
        | inl absent ↦ absurd (cc (rw (known, absent) at h))
        | inr there ↦ (known, ap (λ p. p.0) (ok-injective (rw (known, there) at h)))
      ]
      | inr unknown ↦ absurd (cc (rw unknown at h))
    ]

-- A deleted client takes its own identities with it, their credentials, login flows and bindings, and
-- leaves those of the identities of other clients as they are.
pub delete_client-isolated :
    (client_id other_id user_id id : String) (db after : Db)
    → delete_client client_id true db ≡ ok (after, true)
    → scope_identity other_id user_id ≡ ok id
    → (credentials_of id after
        ≡ (if strip client_id == strip other_id then [] else credentials_of id db))
      × (flows_of id after ≡ (if strip client_id == strip other_id then [] else flows_of id db))
      × (bindings_of id after
          ≡ (if strip client_id == strip other_id then [] else bindings_of id db))
unfolding purge
delete_client-isolated client_id other_id user_id id db after h k =
    let (known, same) = deleted_purged client_id db after h in
    let client = strip client_id in
    let prefix = append client separator in
    let own : starts prefix id ≡ (client == strip other_id) =
      starts-scope_identity client other_id user_id id known k in
    (
      ap (credentials_of id) (sym same)
          ∙ filter-delete (λ row. row.rag_user_id) (starts prefix) id db.credentials
          ∙ rw own refl,
      ap (flows_of id) (sym same)
          ∙ filter-delete (λ row. row.rag_user_id) (starts prefix) id db.flows
          ∙ rw own refl,
      ap (bindings_of id) (sym same)
          ∙ filter-delete (λ row. row.rag_user_id) (starts prefix) id db.bindings
          ∙ rw own refl,
    )
