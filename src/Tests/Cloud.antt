-- ===== src/Tests/Cloud.antt =====
-- A small Nextcloud that lists, of the ids asked for, those that the user can see: file 2 alone.
use aki_rag_middleware.Prelude.{
  String, ◌≡◌, refl, sym, ap, ◌∙◌, Bool, true, ◌&&◌, none, some, List, [], ◌∷◌, arith, ◌==◌, eq_iff,
  map, filter, contains, strip, some_chars, is_space, Bool-cases, inl, inr,
}
use mathlib.Core.Path.{subst}
use aki_rag_middleware.Python.Ascii.{ascii, ascii_digit}
use aki_rag_middleware.Acl.Xml.{Element, element, Elements, end, child, texts_of, texts_among}
use aki_rag_middleware.Acl.Search.{parse_authorized_fileids}
use aki_rag_middleware.Acl.Search.Meaning.{asks}
use aki_rag_middleware.Acl.Search.Body.{folder_of}
use aki_rag_middleware.Acl.Authorize.{NextcloudCredential, body, Server}
use aki_rag_middleware.Acl.Authorize.Secure.{IsHonest}
use aki_rag_middleware.Acl.Authorize.Exact.{Answers}

abbrev pub visible : String → Bool
visible n = n == "2"

abbrev listing : List String → Elements
listing [] = end
listing (n ∷ ns) = child (element "{http://owncloud.org/ns}fileid" (some n) end) (listing ns)

abbrev pub answer_to : String → Element → Element
answer_to folder request =
    element "{DAV:}multistatus" none (listing (filter (asks folder request) ("2" ∷ [])))

abbrev pub cloud : Server
cloud credential request = body (some (answer_to (folder_of ascii credential.username) request))

abbrev pub alice : NextcloudCredential
alice = record { username = "alice"; password = "secret" }

texts-listing : (ns : List String) → texts_among "{http://owncloud.org/ns}fileid" (listing ns) ≡ ns
unfolding texts_among
texts-listing [] = refl
texts-listing (n ∷ ns) = ap (λ r. n ∷ r) (texts-listing ns)

abbrev read : List String → List String
read ns = filter (some_chars ascii_digit) (map strip ns)

contains-read :
    (p : String → Bool) (n : String) → contains (read (filter p ("2" ∷ []))) n ≡ (p n && visible n)
unfolding strip is_space
contains-read p n = elim (Bool-cases (n == "2")) [
  | inl own ↦
      let same = (eq_iff n "2").0 own in
      subst (λ m. contains (read (filter p ("2" ∷ []))) m ≡ (p m && visible m)) (sym same)
        (elim (Bool-cases (p "2")) [
          | inl listed ↦ rw listed refl
          | inr unlisted ↦ rw unlisted refl
        ])
  | inr other ↦ elim (Bool-cases (p "2")) [
    | inl listed ↦ rw (listed, other) (ground (arith, eq_iff "2" n, eq_iff n "2"))
    | inr unlisted ↦ rw (unlisted, other) (ground arith)
  ]
]

parse-answer :
    (folder : String) (request : Element) (n : String)
    → contains (parse_authorized_fileids ascii (answer_to folder request)) n
      ≡ (asks folder request n && visible n)
unfolding parse_authorized_fileids texts_of
parse-answer folder request n =
    ap (λ t. contains (read t) n) (texts-listing (filter (asks folder request) ("2" ∷ [])))
    ∙ contains-read (asks folder request) n

pub cloud-Answers : Answers ascii cloud alice visible
cloud-Answers = record {
  answer = λ request m some_file.
      let folder = folder_of ascii "alice" in
      (answer_to folder request, refl, parse-answer folder request);
}

body-injective : {d e : Element} → body (some d) ≡ body (some e) → d ≡ e
body-injective h = cc

both : (a b : Bool) → (a && b) ≡ true → b ≡ true
both a b h = ground arith

pub cloud-IsHonest : IsHonest ascii cloud alice visible
cloud-IsHonest = record {
  lists_visible = λ request doc n replied listed.
      both (asks (folder_of ascii "alice") request n) (visible n) (
        sym (parse-answer (folder_of ascii "alice") request n)
        ∙ ap (λ d. contains (parse_authorized_fileids ascii d) n) (body-injective replied)
        ∙ listed);
}
