-- ===== src/Acl/Promote/Identity.antt =====
-- A record keeps the file id of the file that it stands for: when it is kept with its visible
-- variants, and when a variant is promoted (rag/acl.py).
use mathlib.Core.Path.{ap₂}
use aki_rag_middleware.Prelude.{
  String, ◌≡◌, refl, ap, ◌∙◌, true, false, Option, none, some, List, arith, append, some_chars,
  if◌then◌else◌, Bool-cases, inl, inr,
}
use aki_rag_middleware.Python.{text_of}
use aki_rag_middleware.Python.Values.{Runtime, IsUnicode, Fields, str, truthy, or_else}
use aki_rag_middleware.Python.Fields.{lookup, get, lookup-put, lookup-pop_all, pop_all}
use aki_rag_middleware.Acl.FileId.{file_id, prefixed_id, first_digits, raw_id, or_first}
use aki_rag_middleware.Acl.FileId.Laws.{
  openfile_keys, file_id_congr, file_id_digits, prefixed_files, raw_files, first_digits_congr,
  prefixed_id_decimal,
}
use aki_rag_middleware.Acl.Promote.{
  graph_keys, name_by, carried, with_evidence, with_variants, promote,
}
use aki_rag_middleware.Acl.Promote.Laws.{
  merged, lookup-merged, lookup-with_variants, lookup-with_evidence, lookup-promote,
}

module _ (py : Runtime) where
  pub file_id-with_variants :
      (vs : List Fields) (d : Fields) → file_id py (with_variants py vs d) ≡ file_id py d
  file_id-with_variants vs d = file_id_congr py (with_variants py vs d) d (
    lookup-with_variants py vs d "document_id" refl,
    (
      lookup-with_variants py vs d "id" refl,
      (
        lookup-with_variants py vs d "nextcloud_openfile_id" refl,
        (
          lookup-with_variants py vs d "fileid" refl,
          (lookup-with_variants py vs d "file_id" refl, tt),
        ),
      ),
    ),
  )

  keep_id :
      (n : String) (a b : Option String)
      → (a ≡ some n → some_chars py.is_decimal n ≡ true)
      → or_first a b ≡ some n
      → or_first (if some_chars py.is_decimal n then some n else none) b ≡ some n
  keep_id n none b f h = ground arith
  keep_id n (some m) b f h = rw (f h)

  module _ (r variant : Fields) (remaining : List Fields) where
    abbrev promoted : Fields
    promoted = promote py r variant remaining

    promoted_document_id :
        lookup "document_id" promoted
        ≡ lookup "document_id" (name_by py (file_id py variant) (merged py r variant))
    unfolding promote carried
    promoted_document_id =
        lookup-with_variants py remaining
          (pop_all graph_keys (with_evidence py variant (carried py r variant))) "document_id" refl
        ∙ lookup-pop_all graph_keys "document_id" (with_evidence py variant (carried py r variant))
        ∙ lookup-with_evidence py variant (name_by py (file_id py variant) (merged py r variant))
            "document_id" refl

    same_openfile : first_digits py openfile_keys promoted ≡ first_digits py openfile_keys variant
    same_openfile = first_digits_congr py openfile_keys promoted variant (
      lookup-promote py r variant remaining "nextcloud_openfile_id" refl refl refl refl,
      (
        lookup-promote py r variant remaining "fileid" refl refl refl refl,
        (lookup-promote py r variant remaining "file_id" refl refl refl refl, tt),
      ),
    )

    -- Where the variant has a document id it is kept.
    kept_document_id :
        (n : String)
        → file_id py variant ≡ some n
        → truthy (get variant "document_id") ≡ true
        → lookup "document_id" promoted ≡ lookup "document_id" variant
    unfolding name_by get
    kept_document_id n h held =
        promoted_document_id
        ∙ rw h (
            rw (lookup-merged py r variant "document_id")
              (rw held (lookup-merged py r variant "document_id")))

    named_document_id :
        (n : String)
        → file_id py variant ≡ some n
        → truthy (get variant "document_id") ≡ false
        → lookup "document_id" promoted ≡ some (str (append "files:" n))
    unfolding name_by get
    named_document_id n h held =
        promoted_document_id
        ∙ rw h (rw (lookup-merged py r variant "document_id") (rw held (simp lookup-put)))

    module _ (u : IsUnicode py) where
      named_raw_id :
          (n : String)
          → some_chars py.is_digit n ≡ true
          → lookup "document_id" promoted ≡ some (str (append "files:" n))
          → raw_id py promoted ≡ append "files:" n
      unfolding raw_id get or_else truthy append text_of
      named_raw_id n digits e = rw e (raw_files py u n digits)

      named_file_id :
          (n : String)
          → file_id py variant ≡ some n
          → truthy (get variant "document_id") ≡ false
          → file_id py promoted ≡ some n
      unfolding file_id
      named_file_id n h bare =
          let digits = file_id_digits py u variant n h in
          let raw = named_raw_id n digits (named_document_id n h bare) in
          ap₂ or_first (ap (prefixed_id py) raw ∙ prefixed_files py u n) same_openfile
          ∙ keep_id n (prefixed_id py (raw_id py variant)) (first_digits py openfile_keys variant)
              (prefixed_id_decimal py (raw_id py variant) n) h

      -- The promoted record stands for the file of its variant.
      pub file_id-promote :
          (n : String) → file_id py variant ≡ some n → file_id py promoted ≡ some n
      file_id-promote n h = elim (Bool-cases (truthy (get variant "document_id"))) [
        | inl held ↦
            file_id_congr py promoted variant (
              kept_document_id n h held,
              (
                lookup-promote py r variant remaining "id" refl refl refl refl,
                (
                  lookup-promote py r variant remaining "nextcloud_openfile_id" refl refl refl refl,
                  (
                    lookup-promote py r variant remaining "fileid" refl refl refl refl,
                    (lookup-promote py r variant remaining "file_id" refl refl refl refl, tt),
                  ),
                ),
              ),
            )
            ∙ h
        | inr bare ↦ named_file_id n h bare
      ]
