-- ===== src/Hooks/Gate.antt =====
-- What passes a policy hook (rag/policy_hooks.py).
use aki_rag_middleware.Prelude.{
  String, ◌≡◌, refl, sym, inl, inr, Bool, true, false, ◌||◌, Option, none, some, ◌==◌, contains,
  strip, if◌then◌else◌, Bool-cases,
}
use aki_rag_middleware.Python.Values.{Runtime, Fields}
use aki_rag_middleware.Hooks.{
  hook_stages, hook_actions, HookRequest, HookDecision, HookOutcome, passed, evaluator_error,
  value_error, rejected, Evaluator, checked_decision, evaluate_policy_hook, act, apply_policy_hook,
}

act_cases :
    {A : Type 0} (b q m : Bool) (x y : A) (refusal : HookOutcome A) {out : A}
    → (refusal ≡ passed out → ⊥)
    → (if b || q then refusal else if m then passed x else passed y) ≡ passed out
    → (b ≡ false) × (q ≡ false) × (out ≡ (if m then x else y))
act_cases true q m x y refusal f h = absurd (f h)
act_cases false true m x y refusal f h = absurd (f h)
act_cases false false true x y refusal f h = (refl, refl, cc)
act_cases false false false x y refusal f h = (refl, refl, cc)

passed-injective : {A : Type 0} {x y : A} → passed x ≡ passed y → x ≡ y
passed-injective h = cc

module _ {A : Type 0} (py : Runtime) where
  -- As shipped, with no evaluator, a hook at a known stage hands back the content unchanged.
  apply-shipped :
      (stage : String) (content : A) (metadata : Fields)
      → contains hook_stages (strip stage) ≡ true
      → apply_policy_hook py none stage content metadata ≡ passed content
  unfolding apply_policy_hook evaluate_policy_hook
  apply-shipped stage content metadata known = rw known

  act-passed :
      (f : Option (Evaluator A)) (stage : String) (content out : A)
      (o : HookOutcome (HookDecision A))
      → act py f stage content o ≡ passed out
      → (d : HookDecision A) × (o ≡ passed d)
        × ((d.action == "BLOCK") ≡ false)
        × ((d.action == "QUARANTINE") ≡ false)
        × (out ≡ (if d.action == "MODIFY" then d.content else content))
  act-passed f stage content out (passed d) h =
      let (no_block, no_quarantine, same) =
        act_cases (d.action == "BLOCK") (d.action == "QUARANTINE") (d.action == "MODIFY") d.content
          content (rejected stage d.action d.reason) (λ e. cc) h in
      (d, refl, no_block, no_quarantine, same)
  act-passed f stage content out evaluator_error h = cc
  act-passed f stage content out value_error h = cc
  act-passed f stage content out (rejected s a r) h = cc

  checked-passed :
      (f : Option (Evaluator A)) (o : Option (HookDecision A)) (d : HookDecision A)
      → checked_decision py f o ≡ passed d
      → (given : HookDecision A) × (o ≡ some given)
        × (contains hook_actions (py.upper (strip given.action)) ≡ true)
        × (d ≡ record given { action = py.upper (strip given.action) })
  checked-passed f none d h = cc
  checked-passed f (some given) d h =
      elim (Bool-cases (contains hook_actions (py.upper (strip given.action)))) [
        | inl known ↦ (given, refl, known, passed-injective (sym (rw known at h)))
        | inr unknown ↦ cc (rw unknown at h)
      ]

  -- Content passes a configured hook only at a known stage, by a decision of the evaluator whose
  -- action is known and neither BLOCK nor QUARANTINE; it is the evaluator's content if the action is
  -- MODIFY, and otherwise the content that was given.
  pub apply-passed :
      (f : Evaluator A) (stage : String) (content out : A) (metadata : Fields)
      → apply_policy_hook py (some f) stage content metadata ≡ passed out
      → (contains hook_stages (strip stage) ≡ true)
        × (d : HookDecision A) × (f
              (record { stage = strip stage; content = content; metadata = metadata })
            ≡ some d)
        × (contains hook_actions (py.upper (strip d.action)) ≡ true)
        × ((py.upper (strip d.action) == "BLOCK") ≡ false)
        × ((py.upper (strip d.action) == "QUARANTINE") ≡ false)
        × (out ≡ (if py.upper (strip d.action) == "MODIFY" then d.content else content))
  unfolding apply_policy_hook evaluate_policy_hook
  apply-passed f stage content out metadata h =
      elim (Bool-cases (contains hook_stages (strip stage))) [
        | inr unknown ↦ cc (rw unknown at h)
        | inl known ↦
            let request : HookRequest A = record {
              stage = strip stage;
              content = content;
              metadata = metadata;
            } in
            let (e, decided, no_block, no_quarantine, same) =
              act-passed (some f) stage content out (checked_decision py (some f) (f request))
                (rw known at h) in
            let (d, given, word, normal) = checked-passed (some f) (f request) e decided in
            (
              known,
              d,
              given,
              word,
              rw normal at no_block,
              rw normal at no_quarantine,
              rw normal at same,
            )
      ]
