-- ===== src/Tests/Rest.antt =====
-- rag/retrieval_policy.py, rag/policy_hooks.py, rag/internal_auth.py and rag/retrieval_signal.py on
-- small inputs.
use aki_rag_middleware.Prelude.{
  ℕ, ◌-◌, ◌*◌, ◌/◌, ◌≤◌, String, ◌≡◌, ◌↔◌, refl, Bool, true, false, not, ◌&&◌, some, List, [], ◌∷◌,
  ◌==◌, contains, strip, strip_idem, is_space, ltb, leb, if◌then◌else◌,
}
use aki_rag_middleware.Python.Ascii.{ascii}
use aki_rag_middleware.Python.Values.{Fields, field, end, str, dict}
use aki_rag_middleware.Policy.{
  RetrievalPolicy, load_retrieval_policy, planner_arms, allowed_arms, required_arms, optional_arms,
  disabled_arms, normal, normal_set,
}
use aki_rag_middleware.Policy.Arms.{offers, planner_arms-allowed}
use aki_rag_middleware.Policy.Load.{load-partition}
use aki_rag_middleware.Hooks.{
  HookDecision, passed, Evaluator, hook_stages, hook_actions, apply_policy_hook,
}
use aki_rag_middleware.Hooks.Gate.{apply-passed}
use aki_rag_middleware.Auth.{
  Env, env_name, chars, key_of, valid, or_blank, min_key_length, is_ascii,
}
use aki_rag_middleware.Python.Errors.{ok}
use aki_rag_middleware.Auth.Keys.{valid_iff}
use aki_rag_middleware.Signal.{Floats, Profile, Tuning, choose_retrieval_strategy}

abbrev policy : RetrievalPolicy
policy = record {
  files = "required";
  vector = "optional";
  graph = "disabled";
  optional_default = "include";
  web = "planner";
}

normal_idem : (s : String) → normal ascii (normal ascii s) ≡ normal ascii s
unfolding normal
normal_idem s = strip_idem s

abbrev wish : List String
wish = " vector " ∷ "graph" ∷ []

abbrev there : List String
there = "files" ∷ "vector" ∷ "graph" ∷ []

wish_granted : contains (planner_arms ascii policy (some wish) true (some there)) "vector" ≡ true
unfolding planner_arms is_space
wish_granted = refl

planner_arms-allowed_example :
    (contains (allowed_arms policy) "vector" ≡ true)
    × (offers (normal_set ascii (some there)) "vector" ≡ true)
planner_arms-allowed_example =
    planner_arms-allowed ascii policy normal_idem (some wish) true (some there) "vector"
      wish_granted

abbrev config : Fields
config =
    field "retrieval_policy"
      (dict (field "internal" (dict (field "files" (str "required") end)) end)) end

abbrev loaded : RetrievalPolicy
loaded = record {
  files = "required";
  vector = "optional";
  graph = "optional";
  optional_default = "include";
  web = "planner";
}

config_loads : load_retrieval_policy ascii config ≡ ok loaded
unfolding load_retrieval_policy is_space
config_loads = refl

load-partition_example :
    (contains (allowed_arms loaded) "graph" ≡ not (contains (disabled_arms loaded) "graph"))
    × ((contains (required_arms loaded) "graph" && contains (optional_arms loaded) "graph") ≡ false)
load-partition_example = load-partition ascii config loaded "graph" config_loads refl

abbrev redact : Evaluator String
redact r = some (record { action = " MODIFY"; content = "redacted"; reason = ""; metadata = end })

redacts : apply_policy_hook ascii (some redact) "pre_persist" "secret" end ≡ passed "redacted"
unfolding apply_policy_hook is_space
redacts = refl

apply-passed_example :
    (contains hook_stages (strip "pre_persist") ≡ true)
    × (d : HookDecision String) × (redact
          (record { stage = strip "pre_persist"; content = "secret"; metadata = end })
        ≡ some d)
    × (contains hook_actions (ascii.upper (strip d.action)) ≡ true)
    × ((ascii.upper (strip d.action) == "BLOCK") ≡ false)
    × ((ascii.upper (strip d.action) == "QUARANTINE") ≡ false)
    × ("redacted" ≡ (if ascii.upper (strip d.action) == "MODIFY" then d.content else "secret"))
apply-passed_example = apply-passed ascii redact "pre_persist" "secret" "redacted" end redacts

abbrev key : String
key = "0123456789abcdef0123456789abcdef"

abbrev machine : Env
machine name = some key

valid_iff_example : (valid machine env_name (some key) ≡ ok true) ↔ (
    (strip (or_blank (some key)) ≡ key_of machine env_name)
    × (min_key_length ≤ chars (key_of machine env_name))
    × (is_ascii (key_of machine env_name) ≡ true))
valid_iff_example = valid_iff machine env_name (some key)

-- Numbers in place of floats.
abbrev whole : Floats
whole = record {
  Float = ℕ;
  zero_f = 0;
  one_f = 1;
  epsilon = 1;
  less = ltb;
  less_eq = leb;
  minus = λ a b. a - b;
  times = λ a b. a * b;
  over = λ a b. a / b;
  of_ℕ = λ n. n;
}

abbrev tuning : Tuning whole
tuning = record {
  unspecific_signal_floor = 2;
  dominance_ratio = 2;
  dominance_margin = 1;
  secondary_weight_floor = 0;
}

abbrev profile : Bool → ℕ → Profile whole
profile there_are signal = record {
  available = there_are;
  signal_strength = signal;
  curve_reliable = true;
  explicit_anchor = false;
}

only_one_signal :
    (choose_retrieval_strategy whole tuning (profile true 9) (profile false 3)).vector_weight ≡ 0
unfolding choose_retrieval_strategy
only_one_signal = refl
