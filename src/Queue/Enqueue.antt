-- ===== src/Queue/Enqueue.antt =====
-- `GraphQueue.enqueue_evidence` and `_coalesce_existing_active_jobs` of rag/graph_queue.py.
use aki_rag_middleware.Prelude.{
  ℕ, suc, ◌+◌, String, Bool, not, ◌&&◌, ◌||◌, Option, none, some, List, [], ◌∷◌, map, ◌++◌, ◌==◌,
  min, ltb, eqb, strip, is_empty, if◌then◌else◌,
}
use aki_rag_middleware.Python.{text_of}
use aki_rag_middleware.Python.Values.{Runtime, Value, Fields, str, or_else}
use aki_rag_middleware.Python.Fields.{get}
use aki_rag_middleware.Queue.Job.{
  Job, JobPayload, Table, pending, coalesced, is_active, update_where, has_id, active_job,
}

-- What `payload` brings, with the defaults of its `get` calls applied; the priority is resolved.
pub record Evidence : Type 0 where
  pub query_id : String
  pub user_query : String
  pub retrieval_query : String
  pub evidence_action : String
  pub entity_discovery : Value
  pub relation_discovery : Value
  pub force_reindex : Bool
  pub count_evidence : Bool
  pub documents : List Fields

-- The named priorities with their configured values.
pub record Priorities : Type 0 where
  pub high : ℕ
  pub normal : ℕ
  pub background : ℕ
  pub fallback : ℕ

-- A configured 0 gives way to the default: `int(cfg_get(…, default=d) or d)`.
abbrev configured : ℕ → ℕ → ℕ
configured value default = if eqb value 0 then default else value

pub data RawPriority : Type 0 where
  absent : RawPriority
  number : ℕ → RawPriority
  name : String → RawPriority

-- A text that is none of the three names goes to `int()`: its number, or a ValueError, `none`.
unfoldable pub resolve_priority :
    (parse_int : String → Option ℕ) → Runtime → Priorities → RawPriority → Option ℕ
unfolding strip
resolve_priority parse_int py p absent = some (configured p.fallback 100)
resolve_priority parse_int py p (number n) = some n
resolve_priority parse_int py p (name text) =
    let key = py.lower (strip text) in
    if key == "high"
    then some (configured p.high 50)
    else if key == "normal"
    then some (configured p.normal 100)
    else if key == "background"
    then some (configured p.background 200)
    else parse_int text

pub record Progress : Type 0 where
  pub table : Table
  pub job_ids : List ℕ
  pub coalesced_job_ids : List ℕ

abbrev pub queued_id : Table → Option Job → List ℕ
queued_id t none = t.next_id ∷ []
queued_id t (some old) = []

abbrev pub coalesced_id : Option Job → List ℕ
coalesced_id none = []
coalesced_id (some old) = old.id ∷ []

module _ (py : Runtime) (now priority : ℕ) (e : Evidence) where
  unfoldable pub document_key : Fields → String
  unfolding get or_else text_of strip
  document_key doc = strip (text_of py (or_else (get doc "document_id") (str "")))

  unfoldable pub job_payload : Fields → JobPayload
  job_payload doc = record {
    query_id = e.query_id;
    user_query = e.user_query;
    retrieval_query = e.retrieval_query;
    evidence_action = e.evidence_action;
    entity_discovery = e.entity_discovery;
    relation_discovery = e.relation_discovery;
    force_reindex = e.force_reindex;
    count_evidence = e.count_evidence;
    document = doc;
  }

  -- Whether the later event replaces the payload of the job that is there. A stored priority of 0
  -- reads as the new one: `int(existing["priority"] or priority)`.
  unfoldable pub promotes : Job → Bool
  promotes old =
      ltb priority (if eqb old.priority 0 then priority else old.priority)
      || (e.count_evidence && not old.payload.count_evidence)

  unfoldable pub coalesce : Job → Fields → Job → Job
  unfolding promotes job_payload
  coalesce old doc j =
      if promotes old
      then record j {
        coalesced_count = j.coalesced_count + 1;
        updated_at = now;
        priority = min j.priority priority;
        query_id = e.query_id;
        evidence_action = e.evidence_action;
        payload = job_payload doc;
      }
      else record j {
        coalesced_count = j.coalesced_count + 1;
        updated_at = now;
        priority = min j.priority priority;
      }

  unfoldable pub new_job : ℕ → String → Fields → Job
  unfolding job_payload
  new_job n document doc = record {
    id = n;
    status = pending;
    priority = priority;
    created_at = now;
    updated_at = now;
    started_at = none;
    finished_at = none;
    attempts = 0;
    document_id = document;
    query_id = e.query_id;
    evidence_action = e.evidence_action;
    payload = job_payload doc;
    result = none;
    last_error = none;
    coalesced_count = 0;
    coalesced_into = none;
  }

  -- The branch on the row that the SELECT found.
  unfoldable pub place : Table → String → Fields → Option Job → Table
  unfolding coalesce new_job update_where
  place t document doc (some old) = record t {
    jobs = update_where (has_id old.id) (coalesce old doc) t.jobs;
  }
  place t document doc none = record {
    jobs = t.jobs ++ new_job t.next_id document doc ∷ [];
    next_id = suc t.next_id;
  }

  -- The table and the ids queued and coalesced so far.
  unfoldable pub enqueue_document : Progress → Fields → Progress
  unfolding place document_key active_job
  enqueue_document r doc =
      let document = document_key doc in
      let found = active_job document r.table.jobs in
      if is_empty document then r else record {
        table = place r.table document doc found;
        job_ids = r.job_ids ++ queued_id r.table found;
        coalesced_job_ids = r.coalesced_job_ids ++ coalesced_id found;
      }

  unfoldable pub enqueue_documents : Progress → List Fields → Progress
  unfolding enqueue_document
  enqueue_documents r [] = r
  enqueue_documents r (doc ∷ docs) = enqueue_documents (enqueue_document r doc) docs

  -- The transaction of `enqueue_evidence`, the queue being enabled or not.
  unfoldable pub enqueue_evidence : Bool → Table → Progress
  unfolding enqueue_documents
  enqueue_evidence enabled t =
      let start : Progress = record { table = t; job_ids = []; coalesced_job_ids = [] } in
      if not enabled then start else enqueue_documents start e.documents

-- `COALESCE(finished_at, ?)`
abbrev first_time : Option ℕ → ℕ → Option ℕ
first_time none now = some now
first_time (some t) now = some t

-- One group of `_coalesce_existing_active_jobs`: the keeper stays, the other active rows of its
-- document are closed, and the keeper counts them with what they had counted.
unfoldable pub is_extra : Job → Job → Bool
is_extra keeper j =
    j.document_id == keeper.document_id && is_active j.status && not (eqb j.id keeper.id)

unfoldable pub close_extra : ℕ → Job → Job → Job
close_extra now keeper j = record j {
  status = coalesced;
  coalesced_into = some keeper.id;
  finished_at = first_time j.finished_at now;
  updated_at = now;
}

unfoldable pub extra_events : Job → List Job → ℕ
unfolding is_extra
extra_events keeper [] = 0
extra_events keeper (j ∷ js) =
    (if is_extra keeper j then 1 + j.coalesced_count else 0) + extra_events keeper js

unfoldable pub coalesce_group : ℕ → Job → List Job → List Job
unfolding is_extra close_extra extra_events update_where
coalesce_group now keeper js =
    let extra = extra_events keeper js in
    update_where (λ j. eqb j.id keeper.id && ltb 0 extra)
      (λ j. record j { coalesced_count = j.coalesced_count + extra; updated_at = now })
      (update_where (is_extra keeper) (close_extra now keeper) js)

abbrev coalesce_found : ℕ → Option Job → List Job → List Job
coalesce_found now none js = js
coalesce_found now (some keeper) js = coalesce_group now keeper js

-- The loop over the groups, by the documents of the rows. A document with one active row has no
-- extra, so the `HAVING COUNT(*) > 1` changes nothing here.
unfoldable pub coalesce_documents : ℕ → List String → List Job → List Job
unfolding coalesce_group active_job
coalesce_documents now [] js = js
coalesce_documents now (d ∷ ds) js =
    coalesce_documents now ds (coalesce_found now (active_job d js) js)

unfoldable pub coalesce_existing : ℕ → Table → Table
unfolding coalesce_documents
coalesce_existing now t = record t {
  jobs = coalesce_documents now (map (λ j. j.document_id) t.jobs) t.jobs;
}
