-- ===== src/Signal.antt =====
-- rag/retrieval_signal.py: `choose_retrieval_strategy` and `overlap_at_k`. The floats of the
-- interpreter are a parameter: a type with the operations that the code applies to it. The
-- text of a choice's `reason` is not modelled.
pub mod Weights
use aki_rag_middleware.Prelude.{
  ℕ, zero, suc, String, Bool, true, false, not, ◌&&◌, Option, none, some, List, [], ◌∷◌, filter,
  contains, length, min, max, take, is_empty, if◌then◌else◌,
}

-- `less_eq` is `<=`, `less` is `<`; `of_ℕ` reads an int. `epsilon` is `_EPSILON`.
pub record Floats : Type 1 where
  pub Float : Type 0
  pub zero_f : Float
  pub one_f : Float
  pub epsilon : Float
  pub less : Float → Float → Bool
  pub less_eq : Float → Float → Bool
  pub minus : Float → Float → Float
  pub times : Float → Float → Float
  pub over : Float → Float → Float
  pub of_ℕ : ℕ → Float

pub data Strategy : Type 0 where
  no_results unspecific es_preferred vector_preferred fusion : Strategy

module _ (F : Floats) where
  open F use {Float, zero_f, one_f, epsilon, less, less_eq, minus, times, over, of_ℕ}

  -- `max(a, b)` and `min(a, b)`: the first, unless the second is greater or smaller.
  abbrev pub max_f : Float → Float → Float
  max_f a b = if less a b then b else a

  abbrev pub min_f : Float → Float → Float
  min_f a b = if less b a then b else a

  -- What the choice reads of a profile.
  pub record Profile : Type 0 where
    pub available : Bool
    pub signal_strength : Float
    pub curve_reliable : Bool
    pub explicit_anchor : Bool

  pub record Tuning : Type 0 where
    pub unspecific_signal_floor : Float
    pub dominance_ratio : Float
    pub dominance_margin : Float
    pub secondary_weight_floor : Float

  pub record Choice : Type 0 where
    pub strategy : Strategy
    pub es_weight : Float
    pub vector_weight : Float

  abbrev pub choice : Strategy → Float → Float → Choice
  choice s e v = record { strategy = s; es_weight = e; vector_weight = v }

  -- Third component of `state`: a broad and flat list that nothing protects.
  unfoldable pub is_weak : Float → Profile → Bool
  is_weak floor p =
      p.available && (p.curve_reliable && not p.explicit_anchor) && less p.signal_strength floor

  unfoldable pub dominates : Tuning → Float → Float → Bool
  dominates t a b =
      let ratio = max_f one_f t.dominance_ratio in
      let margin = max_f zero_f t.dominance_margin in
      less_eq (times b ratio) a && less_eq margin (minus a b)

  unfoldable pub secondary_floor : Tuning → Float
  secondary_floor t = min_f one_f (max_f zero_f t.secondary_weight_floor)

  unfoldable pub secondary_weight : Tuning → Float → Float → Float
  unfolding secondary_floor
  secondary_weight t weaker stronger =
      max_f (secondary_floor t) (min_f one_f (over weaker (max_f stronger epsilon)))

  -- Both arms have results.
  unfoldable pub choose_between : Tuning → Profile → Profile → Choice
  unfolding is_weak dominates secondary_floor secondary_weight
  choose_between t es vector =
      let floor = max_f zero_f t.unspecific_signal_floor in
      let es_weak = is_weak floor es in
      let vector_weak = is_weak floor vector in
      if es_weak && vector_weak
      then choice unspecific zero_f zero_f
      else if es_weak && not vector_weak
      then choice vector_preferred (secondary_floor t) one_f
      else if vector_weak && not es_weak
      then choice es_preferred one_f (secondary_floor t)
      else if dominates t es.signal_strength vector.signal_strength
      then choice es_preferred one_f (secondary_weight t vector.signal_strength es.signal_strength)
      else if dominates t vector.signal_strength es.signal_strength
      then choice vector_preferred (secondary_weight t es.signal_strength vector.signal_strength)
          one_f
      else choice fusion one_f one_f

  unfoldable pub choose_retrieval_strategy : Tuning → Profile → Profile → Choice
  unfolding choose_between is_weak
  choose_retrieval_strategy t es vector =
      let floor = max_f zero_f t.unspecific_signal_floor in
      if not es.available && not vector.available
      then choice no_results zero_f zero_f
      else if es.available && not vector.available
      then (if is_weak floor es
          then choice unspecific zero_f zero_f
          else choice es_preferred one_f zero_f)
      else if vector.available && not es.available
      then (if is_weak floor vector
          then choice unspecific zero_f zero_f
          else choice vector_preferred zero_f one_f)
      else choose_between t es vector

  pub record Overlap : Type 0 where
    pub depth : ℕ
    pub common : ℕ
    pub ratio : Float

  -- `set(left).intersection(right)`, counted
  abbrev pub distinct : List String → List String
  distinct [] = []
  distinct (x ∷ xs) = let rest = distinct xs in if contains xs x then rest else x ∷ rest

  abbrev pub ratio_of : ℕ → ℕ → Float
  ratio_of zero common = zero_f
  ratio_of (suc n) common = over (of_ℕ common) (of_ℕ (suc n))

  unfoldable pub overlap_at_k : List String → List String → ℕ → Overlap
  overlap_at_k left_ids right_ids k =
      let depth = max 1 k in
      let left = take depth (filter (λ s. not (is_empty s)) left_ids) in
      let right = take depth (filter (λ s. not (is_empty s)) right_ids) in
      let common = length (filter (contains right) (distinct left)) in
      let smaller = min (length left) (length right) in
      record { depth = depth; common = common; ratio = ratio_of smaller common }
