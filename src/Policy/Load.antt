-- ===== src/Policy/Load.antt =====
-- A policy that loads puts each arm into one mode (rag/retrieval_policy.py).
use aki_rag_middleware.Prelude.{
  String, ◌≡◌, refl, Bool, true, false, not, ◌&&◌, ◌||◌, ◌==◌, eq_iff, eq_refl, arith, contains,
  if◌then◌else◌, ◌∙◌, ap, sym, Bool-cases, inl, inr, contains-append, filter,
}
use mathlib.Core.Path.{subst, ap₂}
use aki_rag_middleware.Python.Values.{Runtime, Fields}
use aki_rag_middleware.Python.Errors.{Outcome, Failure, ok, raised, ok-injective, >>=-eq-ok}
use aki_rag_middleware.Policy.{
  RetrievalPolicy, arm_modes, internal_arms, mode_for, check_policy, raw_policy,
  load_retrieval_policy, required_arms, optional_arms, disabled_arms, allowed_arms,
}
use aki_rag_middleware.Policy.Arms.{contains-filter}

record IsValid (p : RetrievalPolicy) : Type 0 where
  pub files_lem : contains arm_modes p.files ≡ true
  pub vector_lem : contains arm_modes p.vector ≡ true
  pub graph_lem : contains arm_modes p.graph ≡ true

require-eq-ok :
    {A : Type 0} (b : Bool) (e : Failure) (x : Outcome A) {y : A}
    → (if b then x else raised e) ≡ ok y
    → (b ≡ true) × (x ≡ ok y)
require-eq-ok true e x h = (refl, h)
require-eq-ok false e x h = cc

all_three : (a b c : Bool) → (a && b && c) ≡ true → (a ≡ true) × (b ≡ true) × (c ≡ true)
all_three a b c h = ground arith

check_policy-IsValid : (py : Runtime) (p q : RetrievalPolicy) → check_policy py p ≡ ok q → IsValid q
unfolding check_policy
check_policy-IsValid py p q h =
    let (arms, h1) = require-eq-ok _ _ _ h in
    let (default, h2) = require-eq-ok _ _ _ h1 in
    let (web, h3) = require-eq-ok _ _ _ h2 in
    let (f, v, g) =
      all_three (contains arm_modes p.files) (contains arm_modes p.vector)
        (contains arm_modes p.graph) arms in
    subst IsValid (ok-injective h3) (record { files_lem = f; vector_lem = v; graph_lem = g })

load-IsValid :
    (py : Runtime) (config : Fields) (p : RetrievalPolicy)
    → load_retrieval_policy py config ≡ ok p
    → IsValid p
unfolding load_retrieval_policy
load-IsValid py config p h =
    let (q, _, checked) = >>=-eq-ok (raw_policy py config) (check_policy py) h in
    check_policy-IsValid py q p checked

-- The mode of an arm is one of the three words.
mode-known :
    (p : RetrievalPolicy) (arm : String) → IsValid p → contains arm_modes (mode_for p arm) ≡ true
unfolding mode_for
mode-known p arm h =
    choice (arm == "files") (arm == "vector") p.files p.vector p.graph h.files_lem h.vector_lem
      h.graph_lem
  where
    choice :
        (a b : Bool) (x y z : String)
        → contains arm_modes x ≡ true
        → contains arm_modes y ≡ true
        → contains arm_modes z ≡ true
        → contains arm_modes (if a then x else if b then y else z) ≡ true
    choice true b x y z f v g = f
    choice false true x y z f v g = v
    choice false false x y z f v g = g

differ : (a b : String) → (a == b) ≡ false → (b == a) ≡ false
differ a b h = elim (Bool-cases (b == a)) [
  | inl e ↦
      let here : (a == a) ≡ false = ap (λ t. a == t) (sym ((eq_iff b a).0 e)) ∙ h in
      let there = eq_refl a in absurd (cc)
  | inr e ↦ e
]

-- A known word is one of the three, and no two of them at once.
one_word :
    (word : String)
    → contains arm_modes word ≡ true
    → (((word == "required") || (word == "optional")) ≡ not (word == "disabled"))
      × (((word == "required") && (word == "optional")) ≡ false)
one_word word h = elim (Bool-cases (word == "required")) [
  | inl e ↦ rw ((eq_iff word "required").0 e) (refl, refl)
  | inr a ↦ elim (Bool-cases (word == "optional")) [
    | inl e ↦ rw ((eq_iff word "optional").0 e) (refl, refl)
    | inr b ↦ elim (Bool-cases (word == "disabled")) [
      | inl e ↦ rw ((eq_iff word "disabled").0 e) (refl, refl)
      | inr c ↦
          let a' = differ word "required" a in
          let b' = differ word "optional" b in
          let c' = differ word "disabled" c in absurd (cc (rw (a', b', c') at h))
    ]
  ]
]

-- The arms of a mode are those whose word is that mode.
contains-in_mode :
    (p : RetrievalPolicy) (mode arm : String)
    → contains internal_arms arm ≡ true
    → contains (filter (λ a. mode_for p a == mode) internal_arms) arm ≡ (mode_for p arm == mode)
contains-in_mode p mode arm known =
    contains-filter (λ a. mode_for p a == mode) internal_arms arm
    ∙ ap (λ b. b && (mode_for p arm == mode)) known

module _ (p : RetrievalPolicy) (arm : String) (known : contains internal_arms arm ≡ true) where
  required_lem : contains (required_arms p) arm ≡ (mode_for p arm == "required")
  unfolding required_arms
  required_lem = contains-in_mode p "required" arm known

  optional_lem : contains (optional_arms p) arm ≡ (mode_for p arm == "optional")
  unfolding optional_arms
  optional_lem = contains-in_mode p "optional" arm known

  disabled_lem : contains (disabled_arms p) arm ≡ (mode_for p arm == "disabled")
  unfolding disabled_arms
  disabled_lem = contains-in_mode p "disabled" arm known

  allowed_lem :
      contains (allowed_arms p) arm
      ≡ ((mode_for p arm == "required") || (mode_for p arm == "optional"))
  unfolding allowed_arms
  allowed_lem =
      contains-append (required_arms p) (optional_arms p) arm ∙ ap₂ ◌||◌ required_lem optional_lem

-- A configuration that is not refused puts each of the three arms into one mode: the arm is allowed
-- exactly if it is not disabled, and it is not both required and optional.
pub load-partition :
    (py : Runtime) (config : Fields) (p : RetrievalPolicy) (arm : String)
    → load_retrieval_policy py config ≡ ok p
    → contains internal_arms arm ≡ true
    → (contains (allowed_arms p) arm ≡ not (contains (disabled_arms p) arm))
      × ((contains (required_arms p) arm && contains (optional_arms p) arm) ≡ false)
load-partition py config p arm loads known =
    let (either, both) =
      one_word (mode_for p arm) (mode-known p arm (load-IsValid py config p loads)) in
    (
      allowed_lem p arm known ∙ either ∙ ap not (sym (disabled_lem p arm known)),
      ap₂ ◌&&◌ (required_lem p arm known) (optional_lem p arm known) ∙ both,
    )
