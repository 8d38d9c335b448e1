-- ===== src/Queue/Worker.antt =====
-- What the worker does to a job in rag/graph_queue.py: `claim_next`, `finish`, `fail`,
-- `recover_stale_running`, and the counts of `stats`.
use aki_rag_middleware.Prelude.{
  ℕ, ◌+◌, String, Bool, true, not, ◌&&◌, ◌||◌, Option, none, some, List, [], ◌∷◌, ◌==◌, ltb, leb,
  eqb, length, all, filter, max, append, if◌then◌else◌,
}
use aki_rag_middleware.Python.{text_of}
use aki_rag_middleware.Python.Values.{Runtime, Fields, str, or_else}
use aki_rag_middleware.Python.Fields.{get}
use aki_rag_middleware.Queue.Job.{
  Job, Table, Status, pending, running, done, done_with_errors, skipped_oversize, failed,
  is_pending, is_running, update_where, has_id,
}

-- `ORDER BY priority ASC, id ASC`
abbrev pub before : Job → Job → Bool
before a b = ltb a.priority b.priority || (eqb a.priority b.priority && leb a.id b.id)

abbrev pub better : Job → Option Job → Job
better j none = j
better j (some k) = if before j k then j else k

-- `WHERE status='pending' ORDER BY priority ASC, id ASC LIMIT 1`
unfoldable pub next_pending : List Job → Option Job
next_pending [] = none
next_pending (j ∷ js) =
    let rest = next_pending js in if is_pending j.status then some (better j rest) else rest

unfoldable pub start : ℕ → Job → Job
start now j = record j {
  status = running;
  started_at = some now;
  updated_at = now;
  attempts = j.attempts + 1;
}

abbrev claim_found : ℕ → Table → Option Job → Option Job × Table
claim_found now t none = (none, t)
claim_found now t (some j) = (
  some (record j { status = running; attempts = j.attempts + 1 }),
  record t { jobs = update_where (λ k. has_id j.id k && is_pending k.status) (start now) t.jobs },
)

-- The job handed to the worker is the row that was read, with two columns brought up to date.
unfoldable pub claim_next : Bool → ℕ → Table → Option Job × Table
unfolding next_pending start update_where
claim_next enabled now t =
    if not enabled then (none, t) else claim_found now t (next_pending t.jobs)

-- What the worker reports: the documents, and how many errors.
pub record Report : Type 0 where
  pub documents : List Fields
  pub errors : List String
  pub result : Fields

abbrev pub is_oversize : Runtime → Fields → Bool
is_oversize py doc = text_of py (or_else (get doc "status") (str "")) == "skipped_oversize"

unfoldable pub final_status : Runtime → Report → Status
final_status py r =
    if not (eqb (length r.documents) 0) && all (is_oversize py) r.documents
    then skipped_oversize
    else if not (eqb (length r.errors) 0)
    then done_with_errors
    else done

-- `json.dumps` prints the errors.
unfoldable pub finish_row : Runtime → (List String → String) → ℕ → Report → Job → Job
unfolding final_status
finish_row py dumps now r j = record j {
  status = final_status py r;
  result = some r.result;
  last_error = (if eqb (length r.errors) 0 then none else some (dumps r.errors));
  finished_at = some now;
  updated_at = now;
}

unfoldable pub finish : Runtime → (List String → String) → ℕ → ℕ → Report → Table → Table
unfolding finish_row update_where
finish py dumps now n r t = record t {
  jobs = update_where (has_id n) (finish_row py dumps now r) t.jobs;
}

unfoldable pub fail_row : ℕ → String → Bool → Job → Job
fail_row now error retry j = record j {
  status = (if retry then pending else failed);
  last_error = some error;
  updated_at = now;
  finished_at = (if retry then j.finished_at else some now);
}

unfoldable pub fail : ℕ → ℕ → String → Bool → Table → Table
unfolding fail_row update_where
fail now n error retry t = record t {
  jobs = update_where (has_id n) (fail_row now error retry) t.jobs;
}

-- `started is None or started.timestamp() < now - max(60, stale_seconds)`
abbrev pub is_stale : ℕ → ℕ → Option ℕ → Bool
is_stale now stale_seconds none = true
is_stale now stale_seconds (some t) = ltb (t + max 60 stale_seconds) now

abbrev or_blank : Option String → String
or_blank none = ""
or_blank (some s) = s

unfoldable pub is_abandoned : ℕ → ℕ → Job → Bool
is_abandoned now stale_seconds j = is_running j.status && is_stale now stale_seconds j.started_at

unfoldable pub recover_row : ℕ → Job → Job
unfolding append
recover_row now j = record j {
  status = pending;
  updated_at = now;
  last_error = some (append (or_blank j.last_error) " [stale worker recovered]");
}

-- How many rows came back, and the table.
unfoldable pub recover_stale_running : ℕ → ℕ → Table → ℕ × Table
unfolding is_abandoned recover_row update_where
recover_stale_running now stale_seconds t = (
  length (filter (is_abandoned now stale_seconds) t.jobs),
  record t { jobs = update_where (is_abandoned now stale_seconds) (recover_row now) t.jobs },
)
