-- ===== src/Queue/Order.antt =====
-- `claim_next` of rag/graph_queue.py serves the queue in order of priority and age.
use aki_rag_middleware.Prelude.{
  ℕ, ◌≡◌, inl, inr, Bool, true, false, not, ◌||◌, Option, none, List, [], ◌∷◌, arith, All,
  Bool-cases, Option-cases,
}
use mathlib.Core.Option.{some-ne-none}
use aki_rag_middleware.Queue.Job.{Job, Table, is_pending}
use aki_rag_middleware.Queue.Worker.{before, next_pending, claim_next}

-- The job is pending and comes before each pending row.
abbrev IsFirst : Job → List Job → Type 0
IsFirst j js =
    (is_pending j.status ≡ true) × All (λ k. is_pending k.status ≡ true → before j k ≡ true) js

-- The same by tests alone: a row is not pending or the job comes before it.
abbrev pub IsNext : Job → List Job → Type 0
IsNext j js =
    (is_pending j.status ≡ true) × All (λ k. (not (is_pending k.status) || before j k) ≡ true) js

-- Where nothing is found no row is pending.
next_pending-none :
    (js : List Job) → next_pending js ≡ none → All (λ k. is_pending k.status ≡ false) js
unfolding next_pending
next_pending-none [] h = tt
next_pending-none (j ∷ js) h = elim (Bool-cases (is_pending j.status)) [
  | inl waits ↦ absurd (ground arith)
  | inr other ↦ (other, next_pending-none js (rw other at h))
]

-- It hands out nothing only where no job is pending.
claim_next_idle :
    (now : ℕ) (t : Table)
    → (claim_next true now t).0 ≡ none
    → All (λ k. is_pending k.status ≡ false) t.jobs
unfolding claim_next
claim_next_idle now t h = elim (Option-cases (next_pending t.jobs)) [
  | inl idle ↦ next_pending-none t.jobs idle
  | inr (j, found) ↦ absurd (some-ne-none _ (rw found at h))
]
