-- ===== src/Queue/Single.antt =====
-- No document ever has two jobs that are pending or running (rag/graph_queue.py).
use aki_rag_middleware.Prelude.{
  ℕ, ◌+◌, ◌≤◌, String, ◌≡◌, refl, sym, ap, ◌∙◌, Bool, true, false, ◌&&◌, ◌||◌, Option, none, some,
  List, [], ◌∷◌, ◌++◌, arith, ◌==◌, eq_iff, eqb, is_empty, All, Bool-cases, Option-cases, inl, inr,
}
use mathlib.Core.Bool.{false≢true}
use native.Mathlib.Nat.{le_trans}
use aki_rag_middleware.Python.Values.{Runtime, Fields}
use aki_rag_middleware.Queue.Job.{
  Job, Table, Status, pending, running, is_active, is_running, is_pending, find_first, update_where,
  has_id, active_job, active_count, IsSingle, or_found,
}
use aki_rag_middleware.Queue.Enqueue.{
  Evidence, Progress, document_key, new_job, coalesce, place, enqueue_document, enqueue_documents,
  enqueue_evidence,
}
use aki_rag_middleware.Queue.Worker.{
  start, next_pending, claim_next, finish_row, fail_row, recover_row, finish, final_status, fail,
  is_abandoned, recover_stale_running, Report,
}

active_count-append :
    (d : String) (js ks : List Job)
    → active_count d (js ++ ks) ≡ active_count d js + active_count d ks
unfolding active_count
active_count-append d [] ks = omega arith
active_count-append d (j ∷ js) ks = omega (arith, active_count-append d js ks)

-- An update that keeps the document and activates no row adds no active job.
active_count-update_where-le :
    (d : String) (p : Job → Bool) (f : Job → Job) (js : List Job)
    → ((j : Job) → p j ≡ true → (f j).document_id ≡ j.document_id)
    → All (λ j. p j ≡ true → is_active (f j).status ≡ true → is_active j.status ≡ true) js
    → active_count d (update_where p f js) ≤ active_count d js
unfolding active_count update_where
active_count-update_where-le d p f [] same act = omega arith
active_count-update_where-le d p f (j ∷ js) same (act, rest) =
    let ih = active_count-update_where-le d p f js same rest in
    elim (Bool-cases (p j)) [
      | inl hit ↦ rw hit (ground (arith, same j hit, act hit))
      | inr miss ↦ rw miss (omega arith)
    ]

find_first-none :
    (p : Job → Bool) (js : List Job) → find_first p js ≡ none → All (λ j. p j ≡ false) js
unfolding find_first
find_first-none p [] h = tt
find_first-none p (j ∷ js) h = elim (Bool-cases (p j)) [
  | inl hit ↦ absurd (ground arith)
  | inr miss ↦ (miss, find_first-none p js (rw miss at h))
]

is_active_lem : (s : Status) → is_active s ≡ (is_running s || is_pending s)
is_active_lem running = refl
is_active_lem pending = refl
is_active_lem _ = refl

idle_count :
    (d : String) (js : List Job)
    → All (λ j. (j.document_id == d && is_running j.status) ≡ false) js
    → All (λ j. (j.document_id == d && is_pending j.status) ≡ false) js
    → active_count d js ≡ 0
unfolding active_count
idle_count d [] h k = refl
idle_count d (j ∷ js) (p, h) (q, k) = ground (arith, is_active_lem j.status, idle_count d js h k)

or_found-none : (a b : Option Job) → or_found a b ≡ none → (a ≡ none) × (b ≡ none)
or_found-none none b h = (refl, h)
or_found-none (some j) b h = cc

-- Where no active job is found there is none.
pub active_job-none : (d : String) (js : List Job) → active_job d js ≡ none → active_count d js ≡ 0
unfolding active_job
active_job-none d js h =
    let run = λ (j : Job). j.document_id == d && is_running j.status in
    let wait = λ (j : Job). j.document_id == d && is_pending j.status in
    let (no_run, no_wait) = or_found-none (find_first run js) (find_first wait js) h in
    idle_count d js (find_first-none run js no_run) (find_first-none wait js no_wait)

All-of : {A : Type 0} {P : A → Type 0} → ((x : A) → P x) → (xs : List A) → All P xs
All-of f [] = tt
All-of f (x ∷ xs) = (f x, All-of f xs)

All-map :
    {A : Type 0} {P Q : A → Type 0} → ((x : A) → P x → Q x) → (xs : List A) → All P xs → All Q xs
All-map f [] h = tt
All-map f (x ∷ xs) (p, h) = (f x p, All-map f xs h)

update_where-IsSingle :
    (p : Job → Bool) (f : Job → Job) (js : List Job)
    → ((j : Job) → p j ≡ true → (f j).document_id ≡ j.document_id)
    → All (λ j. p j ≡ true → is_active (f j).status ≡ true → is_active j.status ≡ true) js
    → IsSingle js
    → IsSingle (update_where p f js)
update_where-IsSingle p f js same act single d =
    le_trans (active_count-update_where-le d p f js same act) (single d)

pending_is_active : (b : Bool) (s : Status) → (b && is_pending s) ≡ true → is_active s ≡ true
pending_is_active b s h = ground (arith, is_active_lem s)

abandoned_active :
    (now stale : ℕ) (j : Job) → is_abandoned now stale j ≡ true → is_active j.status ≡ true
unfolding is_abandoned
abandoned_active now stale j h = ground (arith, is_active_lem j.status)

module _ (py : Runtime) (now priority : ℕ) (e : Evidence) where
  coalesce-document_id :
      (old j : Job) (doc : Fields)
      → (coalesce py now priority e old doc j).document_id ≡ j.document_id
  unfolding coalesce
  coalesce-document_id old j doc = ground arith

  coalesce-status :
      (old j : Job) (doc : Fields) → (coalesce py now priority e old doc j).status ≡ j.status
  unfolding coalesce
  coalesce-status old j doc = ground arith

  place-IsSingle :
      (t : Table) (document : String) (doc : Fields) (found : Option Job)
      → active_job document t.jobs ≡ found
      → IsSingle t.jobs
      → IsSingle (place py now priority e t document doc found).jobs
  unfolding place
  place-IsSingle t document doc (some old) h single =
      update_where-IsSingle (has_id old.id) (coalesce py now priority e old doc) t.jobs
        (λ j _. coalesce-document_id old j doc)
        (All-of (λ j _ a. ap is_active (sym (coalesce-status old j doc)) ∙ a) t.jobs) single
  place-IsSingle t document doc none h single = λ d. rw (active_count-append d t.jobs) (
      unfold active_count new_job in
      ground (arith, single d, eq_iff document d, active_job-none document t.jobs h))

  enqueue_document-IsSingle :
      (r : Progress) (doc : Fields)
      → IsSingle r.table.jobs
      → IsSingle (enqueue_document py now priority e r doc).table.jobs
  unfolding enqueue_document
  enqueue_document-IsSingle r doc single =
      let document = document_key py now priority e doc in
      elim (Bool-cases (is_empty document)) [
        | inl blank ↦ rw blank single
        | inr keyed ↦
            rw keyed
              (place-IsSingle r.table document doc (active_job document r.table.jobs) refl single)
      ]

  enqueue_documents-IsSingle :
      (r : Progress) (docs : List Fields)
      → IsSingle r.table.jobs
      → IsSingle (enqueue_documents py now priority e r docs).table.jobs
  unfolding enqueue_documents
  enqueue_documents-IsSingle r [] single = single
  enqueue_documents-IsSingle r (doc ∷ docs) single =
      enqueue_documents-IsSingle (enqueue_document py now priority e r doc) docs
        (enqueue_document-IsSingle r doc single)

  pub enqueue_evidence-IsSingle :
      (enabled : Bool) (t : Table)
      → IsSingle t.jobs
      → IsSingle (enqueue_evidence py now priority e enabled t).table.jobs
  unfolding enqueue_evidence
  enqueue_evidence-IsSingle true t single =
      enqueue_documents-IsSingle (record { table = t; job_ids = []; coalesced_job_ids = [] })
        e.documents single
  enqueue_evidence-IsSingle false t single = single

pub claim_next-IsSingle :
    (enabled : Bool) (now : ℕ) (t : Table)
    → IsSingle t.jobs
    → IsSingle (claim_next enabled now t).1.jobs
unfolding claim_next
claim_next-IsSingle false now t single = single
claim_next-IsSingle true now t single = elim (Option-cases (next_pending t.jobs)) [
  | inl idle ↦ rw idle single
  | inr (j, found) ↦ rw found (
      update_where-IsSingle (λ k. has_id j.id k && is_pending k.status) (start now) t.jobs
        (unfold start in λ k _. refl)
        (All-of (λ k p _. pending_is_active (eqb k.id j.id) k.status p) t.jobs) single)
]

final_status_inactive : (py : Runtime) (r : Report) → is_active (final_status py r) ≡ false
unfolding final_status
final_status_inactive py r = ground arith

pub finish-IsSingle :
    (py : Runtime) (dumps : List String → String) (now n : ℕ) (r : Report) (t : Table)
    → IsSingle t.jobs
    → IsSingle (finish py dumps now n r t).jobs
unfolding finish
finish-IsSingle py dumps now n r t single =
    update_where-IsSingle (has_id n) (finish_row py dumps now r) t.jobs
      (unfold finish_row in λ j _. refl)
      (All-of
        (unfold finish_row in λ j _ a. absurd (false≢true (sym (final_status_inactive py r) ∙ a)))
        t.jobs)
      single

-- `fail` may bring a job back: the caller holds it, so it is active.
abbrev pub IsHeld : ℕ → List Job → Type 0
IsHeld n js = All (λ j. has_id n j ≡ true → is_active j.status ≡ true) js

pub fail-IsSingle :
    (now n : ℕ) (error : String) (retry : Bool) (t : Table)
    → IsHeld n t.jobs
    → IsSingle t.jobs
    → IsSingle (fail now n error retry t).jobs
unfolding fail
fail-IsSingle now n error retry t held single =
    update_where-IsSingle (has_id n) (fail_row now error retry) t.jobs
      (unfold fail_row in λ j _. refl) (All-map (λ j active hit _. active hit) t.jobs held) single

pub recover-IsSingle :
    (now stale : ℕ) (t : Table)
    → IsSingle t.jobs
    → IsSingle (recover_stale_running now stale t).1.jobs
unfolding recover_stale_running
recover-IsSingle now stale t single =
    update_where-IsSingle (is_abandoned now stale) (recover_row now) t.jobs
      (unfold recover_row in λ j _. refl) (All-of (λ j p _. abandoned_active now stale j p) t.jobs)
      single
