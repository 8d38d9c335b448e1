-- ===== src/Queue/Job.antt =====
-- The rows of `graph_jobs` in rag/graph_queue.py and the SQL that selects and updates them. A table
-- is a list in order of `id`; times are numbers of seconds; a JSON column is its value.
use aki_rag_middleware.Prelude.{
  ℕ, ◌+◌, ◌≤◌, ◌<◌, String, Bool, true, false, ◌&&◌, Option, none, some, List, [], ◌∷◌, ◌==◌, eqb,
  if◌then◌else◌, All,
}
use aki_rag_middleware.Python.Values.{Value, Fields}

pub data Status : Type 0 where
  pending running done done_with_errors skipped_oversize failed coalesced : Status

pub record JobPayload : Type 0 where
  pub query_id : String
  pub user_query : String
  pub retrieval_query : String
  pub evidence_action : String
  pub entity_discovery : Value
  pub relation_discovery : Value
  pub force_reindex : Bool
  pub count_evidence : Bool
  pub document : Fields

pub record Job : Type 0 where
  pub id : ℕ
  pub status : Status
  pub priority : ℕ
  pub created_at : ℕ
  pub updated_at : ℕ
  pub started_at : Option ℕ
  pub finished_at : Option ℕ
  pub attempts : ℕ
  pub document_id : String
  pub query_id : String
  pub evidence_action : String
  pub payload : JobPayload
  pub result : Option Fields
  pub last_error : Option String
  pub coalesced_count : ℕ
  pub coalesced_into : Option ℕ

-- The table with the next AUTOINCREMENT value.
pub record Table : Type 0 where
  pub jobs : List Job
  pub next_id : ℕ

abbrev pub is_running : Status → Bool
is_running running = true
is_running _ = false

abbrev pub is_pending : Status → Bool
is_pending pending = true
is_pending _ = false

-- `status IN ('pending','running')`
abbrev pub is_active : Status → Bool
is_active pending = true
is_active running = true
is_active _ = false

-- The first row that passes the test, `ORDER BY id LIMIT 1`.
unfoldable pub find_first : (Job → Bool) → List Job → Option Job
find_first p [] = none
find_first p (j ∷ js) = let rest = find_first p js in if p j then some j else rest

-- `UPDATE graph_jobs SET … WHERE …`
unfoldable pub update_where : (Job → Bool) → (Job → Job) → List Job → List Job
update_where p f [] = []
update_where p f (j ∷ js) = (if p j then f j else j) ∷ update_where p f js

abbrev pub has_id : ℕ → Job → Bool
has_id n j = eqb j.id n

abbrev pub or_found : Option Job → Option Job → Option Job
or_found none next = next
or_found (some j) next = some j

-- `WHERE document_id=? AND status IN ('pending','running')
--  ORDER BY CASE status WHEN 'running' THEN 0 ELSE 1 END, id ASC LIMIT 1`
unfoldable pub active_job : String → List Job → Option Job
unfolding find_first
active_job document js =
    or_found (find_first (λ j. j.document_id == document && is_running j.status) js)
      (find_first (λ j. j.document_id == document && is_pending j.status) js)

-- The ids ascend and stay below the next one: how AUTOINCREMENT keeps a table.
abbrev pub Ascending : List Job → Type 0
Ascending [] = Unit
Ascending (j ∷ js) = All (λ k. j.id < k.id) js × Ascending js

pub record IsTable (t : Table) : Type 0 where
  pub ascending : Ascending t.jobs
  pub below : All (λ j. j.id < t.next_id) t.jobs

-- How many jobs of a document are pending or running.
unfoldable pub active_count : String → List Job → ℕ
active_count document [] = 0
active_count document (j ∷ js) =
    (if j.document_id == document && is_active j.status then 1 else 0) + active_count document js

-- No document has two of them.
abbrev pub IsSingle : List Job → Type 0
IsSingle js = (document : String) → active_count document js ≤ 1
