-- ===== src/Acl/Authorize/Exact.antt =====
-- `authorize` of rag/acl.py against its specification: the batched SEARCH amounts to asking for each
-- file by itself.
use mathlib.Core.Bool.{and-true}
use native.Mathlib.Nat.{le_refl}
use aki_rag_middleware.Prelude.{
  All-append, ℕ, suc, ◌<◌, ◌≤◌, String, ◌≡◌, refl, sym, ap, ◌∙◌, Bool, true, false, some, List, [],
  ◌∷◌, ◌++◌, arith, eq_refl, all, if◌then◌else◌, ◌||◌, ◌&&◌, eqb, length, is_empty, contains,
  contains-append, map, All, Bool-cases, Option-cases, inl, inr,
}
use aki_rag_middleware.Python.Values.{Runtime, IsUnicode, Fields}
use aki_rag_middleware.Python.Errors.{ok, raised, type_error}
use aki_rag_middleware.Acl.Xml.{Element}
use aki_rag_middleware.Acl.FileId.{file_id}
use aki_rag_middleware.Acl.FileId.Laws.{file_id_digits}
use aki_rag_middleware.Acl.Search.{parse_authorized_fileids}
use aki_rag_middleware.Acl.Search.Meaning.{asks}
use aki_rag_middleware.Acl.Search.Body.{IsId, folder_of, build_fileid_search_lem}
use aki_rag_middleware.Acl.Authorize.{
  NextcloudCredential, AclDecision, body, Server, Group, Settings, batch_size, distinct, id_list,
  group_of, is_readable, groups_of, variant_ids, group_ids, keep_all, read_reply, search_batches,
  asked, decide_groups, authorize,
}
use aki_rag_middleware.Acl.Authorize.Batches.{
  batch_size_bounds, concat, concat-batches, batches-IsBounded, contains-distinct, All-distinct,
  All-batches,
}
use aki_rag_middleware.Acl.Authorize.Congruence.{keep_all_congr, keep_all_none}
use aki_rag_middleware.Acl.Authorize.Secure.{duplicates}

split_found :
    (b rest v : Bool) {x y : Bool} → x ≡ (b && v) → y ≡ (rest && v) → (x || y) ≡ ((b || rest) && v)
split_found b rest v h k = ground arith

nonempty :
    (size : ℕ) (bs : List (List String))
    → All (λ b. (0 < length b) × (length b ≤ size)) bs
    → All (λ b. 0 < length b) bs
nonempty size [] h = tt
nonempty size (b ∷ bs) ((p, q), h) = (p, nonempty size bs h)

some_member : (xs : List String) → 0 < length xs → (x : String) × (contains xs x ≡ true)
some_member [] h = absurd (omega arith)
some_member (x ∷ xs) h = (x, rw (eq_refl x) refl)

contains_none : (xs : List String) (n : String) → eqb (length xs) 0 ≡ true → contains xs n ≡ false
contains_none [] n h = refl
contains_none (x ∷ xs) n h = absurd (ground arith)

abbrev pub kept_decision : ℕ → List Fields → AclDecision
kept_decision checked kept = record {
  enabled = true;
  results = kept;
  checked = checked;
  authorized = length kept;
}

module _ (py : Runtime) where
  -- Nextcloud answers a SEARCH in the folder of the user, if it asks for any file at all, with the ids
  -- of the files that it asks for and that the user can see.
  pub record Answers (server : Server) (credential : NextcloudCredential) (visible : String → Bool)
      : Type 0 where
    pub answer :
        (request : Element) (some_file : String)
        → asks (folder_of py credential.username) request some_file ≡ true
        → (doc : Element) × (server credential request ≡ body (some doc))
          × ((n : String)
              → contains (parse_authorized_fileids py doc) n
                ≡ (asks (folder_of py credential.username) request n && visible n))

  -- The specification: each group is kept by what the user can see, with no search and no batch.
  abbrev pub decision_by : (String → Bool) → List Fields → AclDecision
  decision_by visible results =
      kept_decision (length results) (keep_all py visible (map (group_of py) results))

  length-groups : (ds : List Fields) → length (map (group_of py) ds) ≡ length ds
  length-groups [] = refl
  length-groups (d ∷ ds) = ap suc (length-groups ds)

  module _ (u : IsUnicode py) where
    id_list-IsId : (d : Fields) → All (IsId py) (id_list (file_id py d))
    id_list-IsId d = elim (Option-cases (file_id py d)) [
      | inl absent ↦ rw absent tt
      | inr (n, there) ↦ rw there (file_id_digits py u d n there, tt)
    ]

    variant_ids-IsId :
        (vs : List Fields) → All (IsId py) (variant_ids py (map (λ v. (v, file_id py v)) vs))
    unfolding variant_ids
    variant_ids-IsId [] = tt
    variant_ids-IsId (v ∷ vs) =
        All-append (IsId py) (id_list (file_id py v))
          (variant_ids py (map (λ v. (v, file_id py v)) vs)) (id_list-IsId v) (variant_ids-IsId vs)

    group_ids-IsId : (ds : List Fields) → All (IsId py) (group_ids py (map (group_of py) ds))
    unfolding group_ids group_of
    group_ids-IsId [] = tt
    group_ids-IsId (d ∷ ds) =
        let vs = variant_ids py (map (λ v. (v, file_id py v)) (duplicates py d)) in
        All-append (IsId py) (vs ++ id_list (file_id py d)) (group_ids py (map (group_of py) ds))
          (All-append (IsId py) vs (id_list (file_id py d)) (variant_ids-IsId (duplicates py d))
            (id_list-IsId d))
          (group_ids-IsId ds)

    module _ (server : Server) (credential : NextcloudCredential) (visible : String → Bool)
        (answers : Answers server credential visible) where
      search_batches_exact :
          (bs : List (List String))
          → All (λ b. All (IsId py) b) bs
          → All (λ b. 0 < length b) bs
          → (found : List String) × (search_batches py server credential bs ≡ ok found)
            × ((n : String) → contains found n ≡ (contains (concat bs) n && visible n))
      unfolding search_batches read_reply
      search_batches_exact [] ids full = ([], refl, λ n. refl)
      search_batches_exact (b ∷ bs) (id, ids) (some_there, full) =
          let (request, built, same) =
            build_fileid_search_lem py u credential.username b id some_there in
          let (m, there) = some_member b some_there in
          let (doc, replied, listed) = answers.answer request m (same m ∙ there) in
          let (more, rest, right) = search_batches_exact bs ids full in
          let first = parse_authorized_fileids py doc in
          (
            first ++ more,
            rw (built, replied, rest),
            λ n.
                contains-append first more n
                ∙ split_found (contains b n) (contains (concat bs) n) (visible n)
                    (listed n ∙ ap (λ t. t && visible n) (same n)) (right n)
                ∙ ap (λ t. t && visible n) (sym (contains-append b (concat bs) n)),
          )

      asked-found :
          (s : Settings) (gs : List Group)
          → All (IsId py) (group_ids py gs)
          → (found : List String) × (search_batches py server credential (asked py s gs) ≡ ok found)
            × ((n : String) → contains found n ≡ (contains (group_ids py gs) n && visible n))
      asked-found s gs ids =
          let unique = distinct [] (group_ids py gs) in
          let pos = (batch_size_bounds s).0 in
          let (found, searched, right) =
            search_batches_exact (asked py s gs)
              (All-batches (IsId py) (length unique) (batch_size s) unique
                (All-distinct (IsId py) [] (group_ids py gs) ids))
              (nonempty (batch_size s) (asked py s gs)
                (batches-IsBounded (length unique) (batch_size s) unique pos)) in
          (
            found,
            searched,
            λ n.
                right n
                ∙ ap (λ t. t && visible n)
                    (ap (λ l. contains l n)
                        (concat-batches (length unique) (batch_size s) unique pos
                          (le_refl (length unique)))
                      ∙ contains-distinct [] (group_ids py gs) n
                      ∙ and-true (contains (group_ids py gs) n)),
          )

      decide_groups_exact :
          (s : Settings) (gs : List Group)
          → All (IsId py) (group_ids py gs)
          → decide_groups py server s gs credential
            ≡ ok (kept_decision (length gs) (keep_all py visible gs))
      unfolding decide_groups
      decide_groups_exact s gs ids = elim (Bool-cases (eqb (length (group_ids py gs)) 0)) [
        | inl none_given ↦ rw none_given (
            ap (λ k. ok (kept_decision (length gs) k))
              (sym (
                keep_all_congr py visible (λ n. false) gs
                  (λ n m. cc (contains_none (group_ids py gs) n none_given))
                ∙ keep_all_none py gs)))
        | inr given ↦
            let (found, searched, right) = asked-found s gs ids in
            rw (given, searched)
              (ap (λ k. ok (kept_decision (length gs) k))
                (keep_all_congr py (contains found) visible gs
                  (λ n m. right n ∙ ap (λ t. t && visible n) m)))
      ]

      pub authorize_exact :
          (s : Settings) (results : List Fields)
          → s.acl_enabled ≡ true
          → is_empty s.webdav_url ≡ false
          → authorize py server s results (ok credential) ≡ (
              if all (is_readable py) results
              then ok (decision_by visible results)
              else raised type_error)
      unfolding authorize groups_of
      authorize_exact s [] on there = simp on
      authorize_exact s (d ∷ ds) on there =
          let some_given : eqb (suc (length ds)) 0 ≡ false = ground arith in
          elim (Bool-cases (all (is_readable py) (d ∷ ds))) [
            | inr other ↦ rw (on, there, some_given, other) refl
            | inl readable ↦
                simp (on, there, some_given, readable)
                  (decide_groups_exact s (map (group_of py) (d ∷ ds)) (group_ids-IsId (d ∷ ds))
                    ∙ ap
                        (λ k.
                          ok (kept_decision k (keep_all py visible (map (group_of py) (d ∷ ds)))))
                        (length-groups (d ∷ ds)))
          ]
