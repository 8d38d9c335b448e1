-- ===== src/Queue/Steps.antt =====
-- The queue as a state machine: the transactions of rag/graph_queue.py in any order.
use aki_rag_middleware.Prelude.{ℕ, String, Bool, List}
use aki_rag_middleware.Python.Values.{Runtime}
use aki_rag_middleware.Queue.Job.{Table, IsSingle}
use aki_rag_middleware.Queue.Enqueue.{Evidence, enqueue_evidence}
use aki_rag_middleware.Queue.Worker.{claim_next, finish, fail, recover_stale_running, Report}
use aki_rag_middleware.Queue.Single.{
  IsHeld, enqueue_evidence-IsSingle, claim_next-IsSingle, finish-IsSingle, fail-IsSingle,
  recover-IsSingle,
}

-- A worker fails only the job that it holds.
pub data Step (py : Runtime) : Table → Table → Type 0 where
  enqueued :
      (t : Table) (now priority : ℕ) (e : Evidence) (enabled : Bool)
      → Step py t (enqueue_evidence py now priority e enabled t).table
  claimed : (t : Table) (enabled : Bool) (now : ℕ) → Step py t (claim_next enabled now t).1
  finished :
      (t : Table) (dumps : List String → String) (now n : ℕ) (r : Report)
      → Step py t (finish py dumps now n r t)
  gave_up :
      (t : Table) (now n : ℕ) (error : String) (retry : Bool)
      → IsHeld n t.jobs
      → Step py t (fail now n error retry t)
  recovered : (t : Table) (now stale : ℕ) → Step py t (recover_stale_running now stale t).1

pub data Reach (py : Runtime) (s : Table) : Table → Type 0 where
  here : Reach py s s
  next : {t u : Table} → Reach py s t → Step py t u → Reach py s u

Step-IsSingle : {py : Runtime} {t u : Table} → Step py t u → IsSingle t.jobs → IsSingle u.jobs
Step-IsSingle {py} (enqueued t now p e enabled) h = enqueue_evidence-IsSingle py now p e enabled t h
Step-IsSingle (claimed t enabled now) h = claim_next-IsSingle enabled now t h
Step-IsSingle {py} (finished t dumps now n r) h = finish-IsSingle py dumps now n r t h
Step-IsSingle (gave_up t now n error retry held) h = fail-IsSingle now n error retry t held h
Step-IsSingle (recovered t now stale) h = recover-IsSingle now stale t h

-- From a table without two active jobs for a document, no sequence of enqueues, claims, finishes,
-- failures of held jobs and recoveries leads to one that has them.
pub Reach-IsSingle : {py : Runtime} {s t : Table} → IsSingle s.jobs → Reach py s t → IsSingle t.jobs
Reach-IsSingle h here = h
Reach-IsSingle h (next r st) = Step-IsSingle st (Reach-IsSingle h r)
