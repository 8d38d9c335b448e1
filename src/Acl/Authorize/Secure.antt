-- ===== src/Acl/Authorize/Secure.antt =====
-- The security boundary of rag/acl.py: what leaves it is visible to the user, file by file.
use mathlib.Core.Path.{subst}
use aki_rag_middleware.Prelude.{
  All-append, String, ◌≡◌, refl, sym, ap, ◌∙◌, Bool, true, Option, none, some, List, [], ◌∷◌, arith,
  ◌||◌, eqb, length, is_empty, contains, contains-append, map, all, All, Bool-cases, Option-cases,
  inl, inr,
}
use aki_rag_middleware.Python.Values.{Runtime, IsUnicode, Fields, dicts, dict_items, dicts_in}
use aki_rag_middleware.Python.Fields.{get, lookup-put, pop_all}
use aki_rag_middleware.Python.Errors.{ok, >>=-eq-ok, ok-injective, if-eq-ok, guard-eq-ok}
use aki_rag_middleware.Acl.Xml.{Element}
use aki_rag_middleware.Acl.FileId.{file_id}
use aki_rag_middleware.Acl.Promote.{graph_keys, carried, with_evidence, with_variants, promote}
use aki_rag_middleware.Acl.Promote.Identity.{file_id-with_variants, file_id-promote}
use aki_rag_middleware.Acl.Search.{build_fileid_search, parse_authorized_fileids}
use aki_rag_middleware.Acl.Authorize.{
  NextcloudCredential, AclDecision, Reply, body, status_error, transport_error, Server, Settings,
  id_in, group_of, visible_variants, promote_first, keep, keep_all, read_reply, search_batches,
  Group, is_readable, groups_of, decide_groups, group_ids, asked, decision_for, authorize,
}

dict_items-dicts : (ds : List Fields) → dict_items (dicts ds) ≡ ds
unfolding dict_items dicts
dict_items-dicts [] = refl
dict_items-dicts (d ∷ ds) = ap (λ r. d ∷ r) (dict_items-dicts ds)

module _ (py : Runtime) where
  abbrev pub duplicates : Fields → List Fields
  duplicates d = dicts_in (get d "duplicate_variants")

  pub duplicates-with_variants :
      (vs : List Fields) (d : Fields) → duplicates (with_variants py vs d) ≡ vs
  unfolding with_variants get dicts_in
  duplicates-with_variants vs d = simp (lookup-put, dict_items-dicts)

  duplicates-promote :
      (item v : Fields) (rest : List Fields) → duplicates (promote py item v rest) ≡ rest
  unfolding promote
  duplicates-promote item v rest =
      duplicates-with_variants rest (pop_all graph_keys (with_evidence py v (carried py item v)))

  -- The result and each of its duplicates stand for a file that the test lets through.
  abbrev pub IsShown : (String → Bool) → Fields → Type 0
  IsShown p d =
      (id_in p (file_id py d) ≡ true) × All (λ v. id_in p (file_id py v) ≡ true) (duplicates d)

  -- Nextcloud lists no file that the user of the credential cannot see.
  pub record IsHonest (server : Server) (credential : NextcloudCredential) (visible : String → Bool)
      : Type 0 where
    pub lists_visible :
        (request doc : Element) (n : String)
        → server credential request ≡ body (some doc)
        → contains (parse_authorized_fileids py doc) n ≡ true
        → visible n ≡ true

  pub groups_of-eq-ok :
      (ds : List Fields) (gs : List Group) → groups_of py ds ≡ ok gs → map (group_of py) ds ≡ gs
  unfolding groups_of
  groups_of-eq-ok ds gs h = elim (Bool-cases (all (is_readable py) ds)) [
    | inl readable ↦ ok-injective (rw readable at h)
    | inr other ↦ absurd (cc (rw other at h))
  ]

  module _ (p q : String → Bool) (le : (n : String) → p n ≡ true → q n ≡ true) where
    id_in_mono : (o : Option String) → id_in p o ≡ true → id_in q o ≡ true
    id_in_mono none h = h
    id_in_mono (some n) h = le n h

    visible_variants-shown :
        (vs : List Fields)
        → All
            (λ v. id_in q (file_id py v) ≡ true)
            (visible_variants py p (map (λ v. (v, file_id py v)) vs))
    unfolding visible_variants
    visible_variants-shown [] = tt
    visible_variants-shown (v ∷ vs) = elim (Bool-cases (id_in p (file_id py v))) [
      | inl seen ↦ rw seen (id_in_mono (file_id py v) seen, visible_variants-shown vs)
      | inr hidden ↦ rw hidden (visible_variants-shown vs)
    ]

    module _ (u : IsUnicode py) where
      promote_shown :
          (item v : Fields) (rest : List Fields)
          → id_in q (file_id py v) ≡ true
          → id_in q (file_id py (promote py item v rest)) ≡ true
      promote_shown item v rest seen = elim (Option-cases (file_id py v)) [
        | inl none_there ↦ cc (ap (id_in q) none_there)
        | inr (n, there) ↦
            ap (id_in q) (file_id-promote py item v rest u n there ∙ sym there) ∙ seen
      ]

      promote_first-IsShown :
          (item : Fields) (vs : List Fields)
          → All (λ v. id_in q (file_id py v) ≡ true) vs
          → All (IsShown q) (promote_first py item vs)
      unfolding promote_first
      promote_first-IsShown item [] h = tt
      promote_first-IsShown item (v ∷ rest) (seen, h) =
          ((promote_shown item v rest seen, rw (duplicates-promote item v rest) h), tt)

      keep-IsShown : (d : Fields) → All (IsShown q) (keep py p (group_of py d))
      unfolding keep group_of
      keep-IsShown d =
          let vs = duplicates d in
          let visible = visible_variants py p (map (λ v. (v, file_id py v)) vs) in
          elim (Bool-cases (id_in p (file_id py d))) [
            | inl seen ↦ rw seen (
              (
                rw (file_id-with_variants py visible d) (id_in_mono (file_id py d) seen),
                rw (duplicates-with_variants visible d) (visible_variants-shown vs),
              ),
              tt,
            )
            | inr hidden ↦ rw hidden (promote_first-IsShown d visible (visible_variants-shown vs))
          ]

      keep_all-IsShown : (ds : List Fields) → All (IsShown q) (keep_all py p (map (group_of py) ds))
      unfolding keep_all
      keep_all-IsShown [] = tt
      keep_all-IsShown (d ∷ ds) =
          All-append (IsShown q) (keep py p (group_of py d)) (keep_all py p (map (group_of py) ds))
            (keep-IsShown d) (keep_all-IsShown ds)

  module _ (server : Server) (credential : NextcloudCredential) (visible : String → Bool)
      (honest : IsHonest server credential visible) where
    read_reply-eq-ok :
        (r : Reply) (found : List String)
        → read_reply py server r ≡ ok found
        → (doc : Element) × (r ≡ body (some doc)) × (parse_authorized_fileids py doc ≡ found)
    unfolding read_reply
    read_reply-eq-ok (body none) found h = cc
    read_reply-eq-ok (body (some doc)) found h = (doc, refl, ok-injective h)
    read_reply-eq-ok (status_error code) found h = absurd (ground arith)
    read_reply-eq-ok transport_error found h = cc

    search_batches_honest :
        (bs : List (List String)) (found : List String) (n : String)
        → search_batches py server credential bs ≡ ok found
        → contains found n ≡ true
        → visible n ≡ true
    unfolding search_batches
    search_batches_honest [] found n h m = cc (ap (λ l. contains l n) (ok-injective h))
    search_batches_honest (b ∷ bs) found n h m =
        let (request, built, h1) = >>=-eq-ok (build_fileid_search py credential.username b) _ h in
        let (first, read, h2) = >>=-eq-ok (read_reply py server (server credential request)) _ h1 in
        let (more, rest, h3) = >>=-eq-ok (search_batches py server credential bs) _ h2 in
        let (doc, replied, parsed) = read_reply-eq-ok (server credential request) first read in
        let both : (contains first n || contains more n) ≡ true =
          sym (contains-append first more n) ∙ ap (λ l. contains l n) (ok-injective h3) ∙ m in
        elim (Bool-cases (contains first n)) [
          | inl early ↦
              honest.lists_visible request doc n replied (ap (λ l. contains l n) parsed ∙ early)
          | inr late ↦
              search_batches_honest bs more n rest
                (ap (λ b. b || contains more n) (sym late) ∙ both)
        ]

    decide_groups_secure :
        IsUnicode py
        → (s : Settings) (ds : List Fields) (decision : AclDecision)
        → decide_groups py server s (map (group_of py) ds) credential ≡ ok decision
        → All (IsShown visible) decision.results
    unfolding decide_groups
    decide_groups_secure u s ds decision h =
        elim (if-eq-ok (eqb (length (group_ids py (map (group_of py) ds))) 0) _ _ h) [
          | inl none_given ↦
              subst (λ (r : AclDecision). All (IsShown visible) r.results) none_given tt
          | inr searched ↦
              let batched = asked py s (map (group_of py) ds) in
              let (found, given, kept) =
                >>=-eq-ok (search_batches py server credential batched)
                  (λ l. ok (decision_for py (map (group_of py) ds) l)) searched in
              subst (λ (r : AclDecision). All (IsShown visible) r.results)
                {x = decision_for py (map (group_of py) ds) found} (ok-injective kept)
                (keep_all-IsShown (contains found) visible
                  (λ n. search_batches_honest batched found n given) u ds)
        ]

  -- Where live ACL is on and Nextcloud lists only what the user can see, every result that
  -- `authorize` returns, and every duplicate that it still names, is a file visible to the user.
  pub authorize_secure :
      IsUnicode py
      → (server : Server) (credential : NextcloudCredential) (visible : String → Bool)
      → IsHonest server credential visible
      → (s : Settings) (results : List Fields) (decision : AclDecision) → s.acl_enabled ≡ true
      → authorize py server s results (ok credential) ≡ ok decision
      → All (IsShown visible) decision.results
  unfolding authorize
  authorize_secure u server credential visible honest s results decision on h =
      let asked_on = simp on at h in
      elim (if-eq-ok (eqb (length results) 0) _ _ asked_on) [
        | inl none_given ↦
            subst (λ (r : AclDecision). All (IsShown visible) r.results) none_given tt
        | inr more ↦
            let (there, asked) = guard-eq-ok (is_empty s.webdav_url) _ _ more in
            let (gs, read, decided) =
              >>=-eq-ok (groups_of py results) (λ gs. decide_groups py server s gs credential)
                asked in
            decide_groups_secure server credential visible honest u s results decision (
              ap (λ l. decide_groups py server s l credential) (groups_of-eq-ok results gs read)
              ∙ decided)
      ]
