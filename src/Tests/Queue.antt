-- ===== src/Tests/Queue.antt =====
-- rag/graph_queue.py on a table with two pending jobs of one priority each.
use aki_rag_middleware.Prelude.{ℕ, ◌≡◌, refl, true, false, none, [], ◌∷◌, arith}
use aki_rag_middleware.Python.Ascii.{ascii}
use aki_rag_middleware.Python.Values.{Fields, field, end, str, null}
use aki_rag_middleware.Queue.Job.{
  Job, JobPayload, Table, Status, pending, running, IsSingle, active_count,
}
use aki_rag_middleware.Queue.Enqueue.{Evidence, Progress, enqueue_evidence, enqueue_documents}
use aki_rag_middleware.Queue.Worker.{claim_next}
use aki_rag_middleware.Queue.Steps.{enqueued, claimed, here, next, Reach-IsSingle}
use aki_rag_middleware.Queue.Events.{Counts, keyed, enqueue_documents-Counts}

abbrev empty : Table
empty = record { jobs = []; next_id = 1 }

abbrev report : Fields
report = field "document_id" (str "files:7") end

abbrev event : Evidence
event = record {
  query_id = "q1";
  user_query = "";
  retrieval_query = "";
  evidence_action = "answer";
  entity_discovery = null;
  relation_discovery = null;
  force_reindex = false;
  count_evidence = true;
  documents = report ∷ report ∷ end ∷ [];
}

abbrev begun : Progress
begun = record { table = empty; job_ids = []; coalesced_job_ids = [] }

abbrev first_table : Table
first_table = (enqueue_evidence ascii 10 100 event true empty).table

empty-IsSingle : IsSingle empty.jobs
unfolding active_count
empty-IsSingle d = omega arith

-- One event queued twice, and then a claim.
Reach-IsSingle_example : IsSingle (claim_next true 12 first_table).1.jobs
Reach-IsSingle_example =
    Reach-IsSingle {py = ascii} {s = empty} empty-IsSingle
      (next (next here (enqueued empty 10 100 event true)) (claimed first_table true 12))

enqueue_documents-Counts_example :
    Counts ascii 10 100 event begun
      (enqueue_documents ascii 10 100 event begun event.documents)
      (keyed ascii 10 100 event event.documents)
enqueue_documents-Counts_example =
    enqueue_documents-Counts ascii 10 100 event begun event.documents
      (record { ascending = tt; below = tt })

abbrev payload : JobPayload
payload = record {
  query_id = "";
  user_query = "";
  retrieval_query = "";
  evidence_action = "answer";
  entity_discovery = null;
  relation_discovery = null;
  force_reindex = false;
  count_evidence = true;
  document = end;
}

abbrev job : ℕ → ℕ → Status → Job
job n p s = record {
  id = n;
  status = s;
  priority = p;
  created_at = 0;
  updated_at = 0;
  started_at = none;
  finished_at = none;
  attempts = 0;
  document_id = "files:1";
  query_id = "";
  evidence_action = "answer";
  payload = payload;
  result = none;
  last_error = none;
  coalesced_count = 0;
  coalesced_into = none;
}

abbrev waiting : Table
waiting = record { jobs = job 1 200 pending ∷ job 2 50 pending ∷ []; next_id = 3 }

abbrev handed_out : Job
handed_out = record (job 2 50 pending) { status = running; attempts = 1 }

abbrev busy : Table
busy = record { jobs = job 1 200 running ∷ []; next_id = 2 }

claims_nothing : (claim_next true 9 busy).0 ≡ none
unfolding claim_next
claims_nothing = refl
