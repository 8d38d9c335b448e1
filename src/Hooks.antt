-- ===== src/Hooks.antt =====
-- rag/policy_hooks.py: the inspection hooks at the boundaries of the data flow.
pub mod Gate
use aki_rag_middleware.Prelude.{
  String, Bool, ◌||◌, Option, none, some, List, [], ◌∷◌, ◌==◌, contains, strip, if◌then◌else◌,
}
use aki_rag_middleware.Python.Values.{Runtime, Fields}

abbrev pub hook_stages : List String
hook_stages =
    "outbound_query" ∷ "pre_fetch" ∷ "post_fetch" ∷ "pre_persist" ∷ "pre_model_egress" ∷ []

abbrev pub hook_actions : List String
hook_actions = "ALLOW" ∷ "BLOCK" ∷ "QUARANTINE" ∷ "MODIFY" ∷ []

-- `Any` content is a type of its own.
pub record HookRequest {ℓ} (A : Type ℓ) : Type ℓ where
  pub stage : String
  pub content : A
  pub metadata : Fields

pub record HookDecision {ℓ} (A : Type ℓ) : Type ℓ where
  pub action : String
  pub content : A
  pub reason : String
  pub metadata : Fields

-- The exceptions: of the evaluator itself, of an unknown word, of a rejection.
pub data HookOutcome {ℓ} (A : Type ℓ) : Type ℓ where
  passed : A → HookOutcome A
  evaluator_error : HookOutcome A
  value_error : HookOutcome A
  rejected : String → String → String → HookOutcome A

-- A configured evaluator decides or raises; `none` is the shipped state. That it returns another
-- class than a decision, a TypeError, is ruled out by its type.
abbrev pub Evaluator {ℓ} : Type ℓ → Type ℓ
Evaluator A = HookRequest A → Option (HookDecision A)

module _ {ℓ} {A : Type ℓ} (py : Runtime) (evaluator : Option (Evaluator A)) where
  abbrev pub checked_decision : Option (HookDecision A) → HookOutcome (HookDecision A)
  checked_decision none = evaluator_error
  checked_decision (some d) =
      let action = py.upper (strip d.action) in
      if contains hook_actions action then passed (record d { action = action }) else value_error

  abbrev pub consult : Option (Evaluator A) → HookRequest A → HookOutcome (HookDecision A)
  consult none r =
      passed (record { action = "ALLOW"; content = r.content; reason = ""; metadata = Fields.end })
  consult (some f) r = checked_decision (f r)

  unfoldable pub evaluate_policy_hook : String → A → Fields → HookOutcome (HookDecision A)
  unfolding strip
  evaluate_policy_hook stage content metadata =
      let name = strip stage in
      if contains hook_stages name
      then consult evaluator (record { stage = name; content = content; metadata = metadata })
      else value_error

  abbrev pub act : String → A → HookOutcome (HookDecision A) → HookOutcome A
  act stage content evaluator_error = evaluator_error
  act stage content value_error = value_error
  act stage content (rejected s a r) = rejected s a r
  act stage content (passed d) =
      if d.action == "BLOCK" || d.action == "QUARANTINE"
      then rejected stage d.action d.reason
      else if d.action == "MODIFY"
      then passed d.content
      else passed content

  unfoldable pub apply_policy_hook : String → A → Fields → HookOutcome A
  unfolding evaluate_policy_hook
  apply_policy_hook stage content metadata =
      act stage content (evaluate_policy_hook stage content metadata)
