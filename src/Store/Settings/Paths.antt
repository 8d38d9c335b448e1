-- ===== src/Store/Settings/Paths.antt =====
-- `normalize_chat_archive_path` of rag/credential_store.py: a relative path without steps upwards.
use Prim.Native.Char.{Char, code}
use aki_rag_middleware.Prelude.{
  ℕ, String, ◌≡◌, ◌≢◌, refl, ap, sym, ◌∙◌, Bool, true, false, not, ◌&&◌, ◌||◌, List, ◌∷◌, [], ◌==◌,
  all, eqb, ltb, map, arith, strip, strip_by, lstrip, rstrip, is_empty, append, all_chars, is_space,
  if◌then◌else◌, Bool-cases, inl, inr,
}
use aki_rag_middleware.Python.Errors.{Outcome, ok, raised, value_error, guard-eq-ok, ok-injective}
use aki_rag_middleware.Auth.{chars}
use aki_rag_middleware.Store.Users.{is_slash}

abbrev pub onto_first : Char → List String → List String
onto_first c [] = String.◌∷◌ c String.[] ∷ []
onto_first c (part ∷ parts) = String.◌∷◌ c part ∷ parts

-- `text.split("/")`
unfoldable pub split_slash : String → List String
split_slash String.[] = "" ∷ []
split_slash (String.◌∷◌ c s) =
    let rest = split_slash s in if is_slash (code c) then "" ∷ rest else onto_first c rest

-- `"/".join(parts)`
unfoldable pub join_slash : List String → String
unfolding append
join_slash [] = ""
join_slash (part ∷ []) = part
join_slash (part ∷ next ∷ parts) = append part (append "/" (join_slash (next ∷ parts)))

abbrev pub is_control : ℕ → Bool
is_control c = ltb c 32 || eqb c 127

-- A part that is neither empty, a step upwards or in place, nor holds a control character.
unfoldable pub good_part : String → Bool
good_part part = not (
    is_empty part
    || (part == "." || (part == ".." || not (all_chars (λ c. not (is_control c)) part))))

abbrev pub no_code : ℕ → String → Bool
no_code k s = all_chars (λ c. not (eqb c k)) s

unfoldable pub normalize_chat_archive_path : String → Outcome String
unfolding strip strip_by chars split_slash join_slash good_part
normalize_chat_archive_path value =
    let given = strip_by is_slash (strip value) in
    let target = if is_empty given then "SunaQ-Chats" else given in
    let parts = map strip (split_slash target) in
    if ltb 240 (chars target) || not (no_code 0 target) || not (no_code b'\\' target)
    then raised value_error
    else if not (all good_part parts)
    then raised value_error
    else ok (join_slash parts)

abbrev no_slash : String → Bool
no_slash s = all_chars (λ c. not (is_slash c)) s

lstrip-all : (p : ℕ → Bool) (s : String) → all_chars p s ≡ true → all_chars p (lstrip s) ≡ true
unfolding lstrip
lstrip-all p String.[] h = refl
lstrip-all p (String.◌∷◌ c s) h = ground (arith, lstrip-all p s)

rstrip-all : (p : ℕ → Bool) (s : String) → all_chars p s ≡ true → all_chars p (rstrip s) ≡ true
unfolding rstrip
rstrip-all p String.[] h = refl
rstrip-all p (String.◌∷◌ c s) h =
    let rest = rstrip-all p s (ground arith) in
    elim (Bool-cases (is_empty (rstrip s) && is_space (code c))) [
      | inl gone ↦ rw gone
      | inr kept ↦ rw kept (ground arith)
    ]

strip-all : (p : ℕ → Bool) (s : String) → all_chars p s ≡ true → all_chars p (strip s) ≡ true
unfolding strip
strip-all p s h = rstrip-all p (lstrip s) (lstrip-all p s h)

onto_first-no_slash :
    (c : Char) (parts : List String)
    → is_slash (code c) ≡ false
    → all no_slash parts ≡ true
    → all no_slash (onto_first c parts) ≡ true
onto_first-no_slash c [] dark h = ground arith
onto_first-no_slash c (p ∷ ps) dark h = ground arith

split_slash-no_slash : (s : String) → all no_slash (split_slash s) ≡ true
unfolding split_slash
split_slash-no_slash String.[] = refl
split_slash-no_slash (String.◌∷◌ c s) = elim (Bool-cases (is_slash (code c))) [
  | inl slash ↦ rw slash (split_slash-no_slash s)
  | inr dark ↦ rw dark (onto_first-no_slash c (split_slash s) dark (split_slash-no_slash s))
]

map-no_slash :
    (parts : List String) → all no_slash parts ≡ true → all no_slash (map strip parts) ≡ true
map-no_slash [] h = refl
map-no_slash (p ∷ ps) h =
    rw (strip-all (λ c. not (is_slash c)) p (ground arith), map-no_slash ps (ground arith))

split_slash-part : (p : String) → no_slash p ≡ true → split_slash p ≡ p ∷ []
unfolding split_slash
split_slash-part String.[] h = refl
split_slash-part (String.◌∷◌ c p) h =
    let dark : is_slash (code c) ≡ false = ground arith in
    rw (dark, split_slash-part p (ground arith))

split_slash-append :
    (p rest : String)
    → no_slash p ≡ true
    → split_slash (append p (append "/" rest)) ≡ p ∷ split_slash rest
unfolding split_slash append
split_slash-append String.[] rest h = refl
split_slash-append (String.◌∷◌ c p) rest h =
    let dark : is_slash (code c) ≡ false = ground arith in
    rw (dark, split_slash-append p rest (ground arith))

split_slash-join_slash :
    (p : String) (ps : List String)
    → all no_slash (p ∷ ps) ≡ true
    → split_slash (join_slash (p ∷ ps)) ≡ p ∷ ps
unfolding join_slash
split_slash-join_slash p [] h = split_slash-part p (ground arith)
split_slash-join_slash p (q ∷ ps) h =
    split_slash-append p (join_slash (q ∷ ps)) (ground arith)
    ∙ ap (λ r. p ∷ r) (split_slash-join_slash q ps (ground arith))

onto_first-ne-nil : (c : Char) (parts : List String) → onto_first c parts ≢ []
onto_first-ne-nil c [] h = cc
onto_first-ne-nil c (p ∷ ps) h = cc

split_slash-ne-nil : (s : String) → split_slash s ≢ []
unfolding split_slash
split_slash-ne-nil String.[] h = cc
split_slash-ne-nil (String.◌∷◌ c s) h = elim (Bool-cases (is_slash (code c))) [
  | inl slash ↦ cc (rw slash at h)
  | inr dark ↦ onto_first-ne-nil c (split_slash s) (rw dark at h)
]

rejoined :
    (parts : List String)
    → parts ≢ []
    → all no_slash parts ≡ true
    → split_slash (join_slash (map strip parts)) ≡ map strip parts
rejoined [] some h = absurd (some refl)
rejoined (p ∷ ps) some h = split_slash-join_slash (strip p) (map strip ps) (map-no_slash (p ∷ ps) h)

-- A path that is accepted is made of parts of which none is empty, one dot or two, or holds a
-- control character.
pub normalize_chat_archive_path_lem :
    (value path : String)
    → normalize_chat_archive_path value ≡ ok path
    → all good_part (split_slash path) ≡ true
unfolding normalize_chat_archive_path
normalize_chat_archive_path_lem value path h =
    let given = strip_by is_slash (strip value) in
    let target = if is_empty given then "SunaQ-Chats" else given in
    let parts = map strip (split_slash target) in
    let checked = if not (all good_part parts) then raised value_error else ok (join_slash parts) in
    let odd = ltb 240 (chars target) || not (no_code 0 target) || not (no_code b'\\' target) in
    let (plain, h2) = guard-eq-ok odd value_error checked h in
    let (good, h3) =
      guard-eq-ok (not (all good_part parts)) value_error (ok (join_slash parts)) h2 in
    let split : split_slash path ≡ parts =
      ap split_slash (sym (ok-injective h3))
      ∙ rejoined (split_slash target) (split_slash-ne-nil target) (split_slash-no_slash target) in
    rw split (ground arith)
