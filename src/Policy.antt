-- ===== src/Policy.antt =====
-- rag/retrieval_policy.py: which retrieval arms are mandatory, optional or off, and what a planner
-- may choose. A Python set of texts is a list that is only asked for its members.
pub mod Arms
pub mod Load
use aki_rag_middleware.Prelude.{
  String, Bool, true, false, not, ◌&&◌, Option, none, some, List, [], ◌∷◌, ◌++◌, ◌==◌, map, filter,
  contains, strip, is_empty, if◌then◌else◌,
}
use aki_rag_middleware.Python.{text_of}
use aki_rag_middleware.Python.Values.{
  Runtime, Value, null, bool, int, negative, float, str, list, dict, Values, nil, cons, Fields, end,
  field, truthy, or_else,
}
use aki_rag_middleware.Python.Errors.{
  Outcome, ok, raised, value_error, type_error, attribute_error, ◌>>=◌,
}
use aki_rag_middleware.Python.Fields.{get, put}

abbrev pub internal_arms : List String
internal_arms = "files" ∷ "vector" ∷ "graph" ∷ []

abbrev pub arm_modes : List String
arm_modes = "required" ∷ "optional" ∷ "disabled" ∷ []

abbrev pub web_modes : List String
web_modes = "disabled" ∷ "explicit" ∷ "planner" ∷ []

pub record RetrievalPolicy : Type 0 where
  pub files : String
  pub vector : String
  pub graph : String
  pub optional_default : String
  pub web : String

-- `getattr(self, arm)`, for the three arms
unfoldable pub mode_for : RetrievalPolicy → String → String
mode_for p arm = if arm == "files" then p.files else if arm == "vector" then p.vector else p.graph

abbrev arms_with : String → RetrievalPolicy → List String
arms_with mode p = filter (λ arm. mode_for p arm == mode) internal_arms

unfoldable pub required_arms : RetrievalPolicy → List String
unfolding mode_for
required_arms = arms_with "required"

unfoldable pub optional_arms : RetrievalPolicy → List String
unfolding mode_for
optional_arms = arms_with "optional"

unfoldable pub disabled_arms : RetrievalPolicy → List String
unfolding mode_for
disabled_arms = arms_with "disabled"

unfoldable pub allowed_arms : RetrievalPolicy → List String
unfolding required_arms optional_arms
allowed_arms p = required_arms p ++ optional_arms p

abbrev pub intersect : List String → List String → List String
intersect xs ys = filter (contains ys) xs

-- The narrowing to what is available, where that is given.
abbrev pub narrow : Option (List String) → List String → List String
narrow none xs = xs
narrow (some available) xs = intersect xs available

-- `resolved or self.fallback_arms(…)`
abbrev pub or_fallback : List String → List String → List String
or_fallback [] fallback = fallback
or_fallback (arm ∷ arms) fallback = arm ∷ arms

-- An entry of `dict(pairs)`: a list of a key and a value, or a text of two characters, or a dict of two
-- keys. A key that is no text is never read; one that cannot be hashed, or an entry that is no
-- sequence, raises a TypeError, and a sequence of another length a ValueError.
abbrev pub put_pair : Value → Value → Fields → Outcome Fields
put_pair (str key) value d = ok (put key value d)
put_pair (list vs) value d = raised type_error
put_pair (dict e) value d = raised type_error
put_pair key value d = ok d

abbrev pub put_entry : Value → Fields → Outcome Fields
put_entry (list (cons key (cons value nil))) d = put_pair key value d
put_entry (list vs) d = raised value_error
put_entry (str (String.◌∷◌ a (String.◌∷◌ b String.[]))) d =
    ok (put (String.◌∷◌ a String.[]) (str (String.◌∷◌ b String.[])) d)
put_entry (str text) d = raised value_error
put_entry (dict (field j v (field k w end))) d = ok (put j (str k) d)
put_entry (dict e) d = raised value_error
put_entry v d = raised type_error

unfoldable pub dict_of_pairs : Values → Fields → Outcome Fields
unfolding put
dict_of_pairs nil d = ok d
dict_of_pairs (cons v vs) d = put_entry v d >>= dict_of_pairs vs

-- `dict(value)`, for a value that counts as true
abbrev pub dict_from : Value → Outcome Fields
dict_from (dict d) = ok d
dict_from (list vs) = dict_of_pairs vs end
dict_from (str text) = raised value_error
dict_from v = raised type_error

-- `dict(value or {})`
abbrev pub dict_in : Value → Outcome Fields
dict_in value = if truthy value then dict_from value else ok end

-- `(value or {}).get`
abbrev pub section_from : Value → Outcome Fields
section_from (dict d) = ok d
section_from v = raised attribute_error

abbrev pub section_in : Value → Outcome Fields
section_in value = if truthy value then section_from value else ok end

module _ (py : Runtime) where
  -- `str(value).strip().casefold()`
  unfoldable pub normal : String → String
  unfolding strip
  normal s = py.casefold (strip s)

  abbrev pub normal_set : Option (List String) → Option (List String)
  normal_set none = none
  normal_set (some available) = some (map normal available)

  unfoldable pub available_allowed_arms : RetrievalPolicy → List String → List String
  unfolding allowed_arms normal
  available_allowed_arms p available = intersect (allowed_arms p) (map normal available)

  unfoldable pub fallback_arms : RetrievalPolicy → Option (List String) → List String
  unfolding required_arms optional_arms normal
  fallback_arms p available =
      let required = narrow (normal_set available) (required_arms p) in
      let optional = narrow (normal_set available) (optional_arms p) in
      if p.optional_default == "exclude" then required else required ++ optional

  -- A planner's choice, given and valid: the required arms and the optional ones that it names.
  unfoldable pub resolved_arms : RetrievalPolicy → List String → Option (List String) → List String
  unfolding required_arms optional_arms normal
  resolved_arms p requested available =
      let named = map normal (filter (λ s. not (is_empty (strip s))) requested) in
      narrow available (required_arms p) ++ intersect named (narrow available (optional_arms p))

  unfoldable pub planner_arms :
      RetrievalPolicy → Option (List String) → Bool → Option (List String) → List String
  unfolding resolved_arms fallback_arms
  planner_arms p none valid available = fallback_arms p (normal_set available)
  planner_arms p (some requested) false available = fallback_arms p (normal_set available)
  planner_arms p (some requested) true available =
      or_fallback (resolved_arms p requested (normal_set available))
        (fallback_arms p (normal_set available))

  -- `_mode`
  unfoldable pub mode_text : Value → String → String
  unfolding or_else text_of normal
  mode_text value default = normal (text_of py (or_else value (str default)))

  -- The three tests that raise a ValueError.
  unfoldable pub check_policy : RetrievalPolicy → Outcome RetrievalPolicy
  check_policy p =
      if contains arm_modes p.files && contains arm_modes p.vector && contains arm_modes p.graph
      then (if contains ("include" ∷ "exclude" ∷ []) p.optional_default
          then (if contains web_modes p.web then ok p else raised value_error)
          else raised value_error)
      else raised value_error

  abbrev pub policy_of : Fields → Fields → RetrievalPolicy
  policy_of raw internal = record {
    files = mode_text (get internal "files") "optional";
    vector = mode_text (get internal "vector") "optional";
    graph = mode_text (get internal "graph") "optional";
    optional_default = mode_text (get raw "optional_default") "include";
    web = mode_text (get raw "web") "planner";
  }

  unfoldable pub raw_policy : Fields → Outcome RetrievalPolicy
  unfolding get mode_text truthy dict_of_pairs
  raw_policy config = do
    raw ← dict_in (get config "retrieval_policy")
    internal ← dict_in (get raw "internal")
    ok (policy_of raw internal)

  unfoldable pub load_retrieval_policy : Fields → Outcome RetrievalPolicy
  unfolding raw_policy check_policy
  load_retrieval_policy config = raw_policy config >>= check_policy

-- `_truthy`
abbrev truthy_texts : List String
truthy_texts = "1" ∷ "true" ∷ "yes" ∷ "on" ∷ []

unfoldable pub config_truthy : Runtime → Value → Bool → Bool
unfolding text_of strip normal
config_truthy py null default = default
config_truthy py (bool b) default = b
config_truthy py v default = contains truthy_texts (normal py (text_of py v))

abbrev arm_if : Bool → String → List String
arm_if true arm = arm ∷ []
arm_if false arm = []

-- The test of a section, which is not read where an `and` has decided before.
abbrev pub enabled_in : Runtime → Fields → String → Bool → Outcome Bool
enabled_in py cfg name default = do
  section ← section_in (get cfg name)
  ok (config_truthy py (get section "enabled") default)

abbrev pub and_then : Bool → Outcome Bool → Outcome Bool
and_then b rest = if b then rest else ok false

unfoldable pub configured_internal_arms : Runtime → Fields → Outcome (List String)
unfolding config_truthy get truthy
configured_internal_arms py cfg = do
  files ← enabled_in py cfg "elasticsearch" true
  vector ← enabled_in py cfg "qdrant" true
  neo4j ← enabled_in py cfg "neo4j" false
  graph ← and_then neo4j (enabled_in py cfg "graph_retrieval" true)
  ok (arm_if files "files" ++ (arm_if vector "vector" ++ arm_if graph "graph"))
