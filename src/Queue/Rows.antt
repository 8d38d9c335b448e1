-- ===== src/Queue/Rows.antt =====
-- Rows under SELECT and UPDATE of rag/graph_queue.py: the ids of a table, and the events that its
-- rows stand for.
use mathlib.Core.Path.{subst}
use mathlib.Core.Option.{some-injective}
use aki_rag_middleware.Prelude.{
  ℕ, suc, ◌+◌, ◌<◌, ◌⊎◌, ◌≡◌, refl, sym, Bool, true, false, Option, none, some, List, [], ◌∷◌, ◌++◌,
  arith, eqb, eqb_refl, All, if◌then◌else◌, Bool-cases, inl, inr,
}
use aki_rag_middleware.Queue.Job.{Job, find_first, update_where, has_id, or_found, Ascending}

-- The events that the rows stand for.
unfoldable pub events : List Job → ℕ
events [] = 0
events (j ∷ js) = (1 + j.coalesced_count) + events js

pub events-append : (js ks : List Job) → events (js ++ ks) ≡ events js + events ks
unfolding events
events-append [] ks = omega arith
events-append (j ∷ js) ks = omega (arith, events-append js ks)

update_where-miss :
    (n : ℕ) (f : Job → Job) (js : List Job)
    → All (λ k. n < k.id) js
    → update_where (has_id n) f js ≡ js
unfolding update_where
update_where-miss n f [] h = refl
update_where-miss n f (j ∷ js) (p, h) =
    let other : eqb j.id n ≡ false = ground arith in rw (other, update_where-miss n f js h)

find_first-All :
    (Q : Job → Type 0) (p : Job → Bool) (js : List Job) (j : Job)
    → find_first p js ≡ some j
    → All Q js
    → Q j
unfolding find_first
find_first-All Q p [] j h all = absurd (cc)
find_first-All Q p (k ∷ js) j h (q, all) = elim (Bool-cases (p k)) [
  | inl hit ↦ subst Q (some-injective _ _ (rw hit at h)) q
  | inr miss ↦ find_first-All Q p js j (rw miss at h) all
]

module _ (f : Job → Job) (bumps : (j : Job) → (f j).coalesced_count ≡ j.coalesced_count + 1) where
  pub events-update_where :
      (p : Job → Bool) (js : List Job) (j : Job)
      → find_first p js ≡ some j
      → Ascending js
      → events (update_where (has_id j.id) f js) ≡ suc (events js)
  unfolding events update_where find_first
  events-update_where p [] j h asc = absurd (cc)
  events-update_where p (k ∷ js) j h (later, asc) = elim (Bool-cases (p k)) [
    | inl hit ↦
        subst (λ (m : Job). events (update_where (has_id m.id) f (k ∷ js)) ≡ suc (events (k ∷ js)))
          (some-injective k j (rw hit at h))
          (rw (eqb_refl k.id, update_where-miss k.id f js later) (omega (arith, bumps k)))
    | inr miss ↦
        let found : find_first p js ≡ some j = rw miss at h in
        let older : k.id < j.id = find_first-All (λ m. k.id < m.id) p js j found later in
        let other : eqb k.id j.id ≡ false = ground arith in
        rw other (omega (arith, events-update_where p js j found asc))
  ]

module _ (p : Job → Bool) (f : Job → Job) (same : (j : Job) → (f j).id ≡ j.id) where
  pub ids-update_where :
      (Q : ℕ → Type 0) (js : List Job)
      → All (λ j. Q j.id) js
      → All (λ j. Q j.id) (update_where p f js)
  unfolding update_where
  ids-update_where Q [] h = tt
  ids-update_where Q (j ∷ js) (q, h) = (if_id (p j) j q, ids-update_where Q js h)
    where
      if_id : (b : Bool) (k : Job) → Q k.id → Q (if b then f k else k).id
      if_id true k r = subst Q (sym (same k)) r
      if_id false k r = r

  pub Ascending-update_where : (js : List Job) → Ascending js → Ascending (update_where p f js)
  unfolding update_where
  Ascending-update_where [] h = tt
  Ascending-update_where (j ∷ js) (later, h) = (
    subst (λ n. All (λ k. n < k.id) (update_where p f js)) (sym (if_same (p j) j))
        (ids-update_where (λ n. j.id < n) js later),
    Ascending-update_where js h,
  )
    where
      if_same : (b : Bool) (k : Job) → (if b then f k else k).id ≡ k.id
      if_same true k = same k
      if_same false k = refl

pub All-snoc : (Q : Job → Type 0) (js : List Job) (k : Job) → All Q js → Q k → All Q (js ++ k ∷ [])
All-snoc Q [] k h q = (q, tt)
All-snoc Q (j ∷ js) k (p, h) q = (p, All-snoc Q js k h q)

pub Ascending-append :
    (js : List Job) (k : Job) → All (λ j. j.id < k.id) js → Ascending js → Ascending (js ++ k ∷ [])
Ascending-append [] k h asc = (tt, tt)
Ascending-append (j ∷ js) k (p, h) (later, asc) =
    (All-snoc (λ m. j.id < m.id) js k later p, Ascending-append js k h asc)

pub raise_bound : (n : ℕ) (js : List Job) → All (λ j. j.id < n) js → All (λ j. j.id < suc n) js
raise_bound n [] h = tt
raise_bound n (j ∷ js) (p, h) = (omega arith, raise_bound n js h)

pub found_once : (a b : Option Job) (j : Job) → or_found a b ≡ some j → (a ≡ some j) ⊎ (b ≡ some j)
found_once none b j h = inr h
found_once (some k) b j h = inl h
