-- ===== src/Queue/Events.antt =====
-- Coalescing loses no evidence event: each event is a new row or is counted on one
-- (`enqueue_evidence` of rag/graph_queue.py).
use native.Mathlib.Nat.{le_refl}
use aki_rag_middleware.Prelude.{
  ℕ, suc, ◌+◌, ◌<◌, String, ◌≡◌, refl, ◌∙◌, ◌&&◌, Option, none, some, List, [], ◌∷◌, ◌++◌, arith,
  ◌==◌, length, length-append, is_empty, if◌then◌else◌, Bool-cases, inl, inr,
}
use aki_rag_middleware.Python.Values.{Runtime, Fields}
use aki_rag_middleware.Queue.Job.{
  Job, Table, is_running, is_pending, find_first, has_id, active_job, IsTable,
}
use aki_rag_middleware.Queue.Rows.{
  events, events-append, events-update_where, ids-update_where, Ascending-update_where,
  Ascending-append, All-snoc, raise_bound, found_once,
}
use aki_rag_middleware.Queue.Enqueue.{
  Evidence, Progress, document_key, new_job, coalesce, place, queued_id, coalesced_id,
  enqueue_document, enqueue_documents,
}

module _ (py : Runtime) (now priority : ℕ) (e : Evidence) where
  coalesce-id : (old j : Job) (doc : Fields) → (coalesce py now priority e old doc j).id ≡ j.id
  unfolding coalesce
  coalesce-id old j doc = ground arith

  coalesce-count :
      (old j : Job) (doc : Fields)
      → (coalesce py now priority e old doc j).coalesced_count ≡ j.coalesced_count + 1
  unfolding coalesce
  coalesce-count old j doc = ground arith

  place-IsTable :
      (t : Table) (document : String) (doc : Fields) (found : Option Job)
      → IsTable t
      → IsTable (place py now priority e t document doc found)
  unfolding place
  place-IsTable t document doc (some old) h = record {
    ascending =
        Ascending-update_where (has_id old.id) (coalesce py now priority e old doc)
          (λ j. coalesce-id old j doc) t.jobs h.ascending;
    below =
        ids-update_where (has_id old.id) (coalesce py now priority e old doc)
          (λ j. coalesce-id old j doc) (λ n. n < t.next_id) t.jobs h.below;
  }
  place-IsTable t document doc none h =
      let fresh = new_job py now priority e t.next_id document doc in
      unfold new_job in
      record {
        ascending = Ascending-append t.jobs fresh h.below h.ascending;
        below =
            All-snoc (λ j. j.id < suc t.next_id) t.jobs fresh (raise_bound t.next_id t.jobs h.below)
              (le_refl (suc t.next_id));
      }

  events-place :
      (t : Table) (document : String) (doc : Fields) (found : Option Job)
      → active_job document t.jobs ≡ found
      → IsTable t
      → events (place py now priority e t document doc found).jobs ≡ suc (events t.jobs)
  unfolding place active_job
  events-place t document doc none h ok =
      rw (events-append t.jobs) (unfold events new_job in omega arith)
  events-place t document doc (some old) h ok =
      let run = λ (j : Job). j.document_id == document && is_running j.status in
      let wait = λ (j : Job). j.document_id == document && is_pending j.status in
      let f = coalesce py now priority e old doc in
      elim (found_once (find_first run t.jobs) (find_first wait t.jobs) old h) [
        | inl busy ↦
            events-update_where f (λ j. coalesce-count old j doc) run t.jobs old busy ok.ascending
        | inr idle ↦
            events-update_where f (λ j. coalesce-count old j doc) wait t.jobs old idle ok.ascending
      ]

  -- The documents of an event that have an id.
  pub keyed : List Fields → ℕ
  keyed [] = 0
  keyed (doc ∷ docs) = (if is_empty (document_key py now priority e doc) then 0 else 1) + keyed docs

  pub tally : Progress → ℕ
  tally r = length r.job_ids + length r.coalesced_job_ids

  tally-step :
      (r : Progress) (t u : Table) (found : Option Job)
      → tally (record {
        table = u;
        job_ids = r.job_ids ++ queued_id t found;
        coalesced_job_ids = r.coalesced_job_ids ++ coalesced_id found;
      })
        ≡ suc (tally r)
  unfolding tally
  tally-step r t u none =
      omega
        (arith, length-append r.job_ids (t.next_id ∷ []), length-append {0} r.coalesced_job_ids [])
  tally-step r t u (some old) =
      omega (arith, length-append {0} r.job_ids [], length-append r.coalesced_job_ids (old.id ∷ []))

  pub record Counts (r s : Progress) (n : ℕ) : Type 0 where
    pub table_lem : IsTable s.table
    pub events_lem : events s.table.jobs ≡ events r.table.jobs + n
    pub tally_lem : tally s ≡ tally r + n

  enqueue_document-Counts :
      (r : Progress) (doc : Fields)
      → IsTable r.table
      → Counts r (enqueue_document py now priority e r doc) (keyed (doc ∷ []))
  unfolding enqueue_document keyed
  enqueue_document-Counts r doc ok =
      let document = document_key py now priority e doc in
      let found = active_job document r.table.jobs in
      let t = place py now priority e r.table document doc found in
      elim (Bool-cases (is_empty document)) [
        | inl blank ↦
            rw blank (record { table_lem = ok; events_lem = omega arith; tally_lem = omega arith })
        | inr named ↦ rw named (record {
          table_lem = place-IsTable r.table document doc found ok;
          events_lem = events-place r.table document doc found refl ok ∙ omega arith;
          tally_lem = tally-step r r.table t found ∙ omega arith;
        })
      ]

  -- Each document with an id adds one event to the rows, as a new row or as a count on one, and one
  -- id to the reply; the ids of the table stay ascending.
  pub enqueue_documents-Counts :
      (r : Progress) (docs : List Fields)
      → IsTable r.table
      → Counts r (enqueue_documents py now priority e r docs) (keyed docs)
  unfolding enqueue_documents keyed
  enqueue_documents-Counts r [] ok = record {
    table_lem = ok;
    events_lem = omega arith;
    tally_lem = omega arith;
  }
  enqueue_documents-Counts r (doc ∷ docs) ok =
      let one = enqueue_document-Counts r doc ok in
      let rest =
        enqueue_documents-Counts (enqueue_document py now priority e r doc) docs one.table_lem in
      record {
        table_lem = rest.table_lem;
        events_lem = omega (arith, one.events_lem, rest.events_lem);
        tally_lem = omega (arith, one.tally_lem, rest.tally_lem);
      }
