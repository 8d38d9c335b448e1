-- ===== src/Acl/FileId/Laws.antt =====
-- What `_file_id` of rag/acl.py returns, and which keys it reads.
use mathlib.Core.Path.{ap₂}
use aki_rag_middleware.Prelude.{
  ℕ, is_space, String, ◌≡◌, refl, ap, true, false, Option, none, some, List, [], ◌∷◌, arith, All,
  all_chars, all_chars_mono, some_chars, solid, strip, strip-solid, append, if◌then◌else◌,
}
use aki_rag_middleware.Python.{text_of}
use aki_rag_middleware.Python.Values.{Runtime, IsUnicode, Fields, str, or_else}
use aki_rag_middleware.Python.Fields.{lookup, get, or_null}
use aki_rag_middleware.Acl.FileId.{
  after, or_first, decimals, prefixed_id, stripped, first_digits, raw_id, file_id,
}

abbrev pub openfile_keys : List String
openfile_keys = "nextcloud_openfile_id" ∷ "fileid" ∷ "file_id" ∷ []

abbrev pub id_keys : List String
id_keys = "document_id" ∷ "id" ∷ openfile_keys

solid_of : (c : ℕ) → is_space c ≡ false → solid c ≡ true
solid_of c h = rw h

module _ (py : Runtime) where
  pub first_digits_congr :
      (ks : List String) (d e : Fields)
      → All (λ k. lookup k d ≡ lookup k e) ks
      → first_digits py ks d ≡ first_digits py ks e
  unfolding first_digits stripped get
  first_digits_congr [] d e h = refl
  first_digits_congr (k ∷ ks) d e (same, h) = rw (same, first_digits_congr ks d e h)

  -- Only five keys are read.
  pub file_id_congr :
      (d e : Fields) → All (λ k. lookup k d ≡ lookup k e) id_keys → file_id py d ≡ file_id py e
  unfolding file_id raw_id get
  file_id_congr d e (doc, (i, rest)) =
      ap₂ or_first
        (ap (prefixed_id py) (
          ap₂ (λ a b. strip (text_of py (or_else (or_null a) (or_else (or_null b) (str ""))))) doc
            i))
        (first_digits_congr openfile_keys d e rest)

  decimals_decimal :
      (o : Option String) (n : String) → decimals py o ≡ some n → some_chars py.is_decimal n ≡ true
  unfolding decimals
  decimals_decimal none n h = cc
  decimals_decimal (some rest) n h = ground arith

  pub prefixed_id_decimal :
      (raw n : String) → prefixed_id py raw ≡ some n → some_chars py.is_decimal n ≡ true
  unfolding prefixed_id
  prefixed_id_decimal raw n h = decimals_decimal (after "files:" raw) n h

  module _ (u : IsUnicode py) where
    decimals_digits :
        (o : Option String) (n : String) → decimals py o ≡ some n → some_chars py.is_digit n ≡ true
    unfolding decimals
    decimals_digits (some rest) n h =
        ground (arith, all_chars_mono py.is_decimal py.is_digit rest u.decimal-digit)
    decimals_digits none n h = cc

    first_digits_digits :
        (ks : List String) (d : Fields) (n : String)
        → first_digits py ks d ≡ some n
        → some_chars py.is_digit n ≡ true
    unfolding first_digits
    first_digits_digits [] d n h = cc
    first_digits_digits (k ∷ ks) d n h = ground (arith, first_digits_digits ks d n)

    or_first_digits :
        (n : String) (a b : Option String)
        → (a ≡ some n → some_chars py.is_digit n ≡ true)
        → (b ≡ some n → some_chars py.is_digit n ≡ true)
        → or_first a b ≡ some n
        → some_chars py.is_digit n ≡ true
    or_first_digits n none b f g h = g h
    or_first_digits n (some m) b f g h = f h

    -- A file id is a text of digits, never empty.
    pub file_id_digits :
        (d : Fields) (n : String) → file_id py d ≡ some n → some_chars py.is_digit n ≡ true
    unfolding file_id prefixed_id
    file_id_digits d n h =
        or_first_digits n (decimals py (after "files:" (raw_id py d)))
          (first_digits py openfile_keys d) (decimals_digits (after "files:" (raw_id py d)) n)
          (first_digits_digits openfile_keys d n) h

    digits_solid : (n : String) → some_chars py.is_digit n ≡ true → all_chars solid n ≡ true
    digits_solid n h =
        all_chars_mono py.is_digit solid n (λ c d. solid_of c (u.digit-space c d)) (ground arith)

    pub strip_digits : (n : String) → some_chars py.is_digit n ≡ true → strip n ≡ n
    strip_digits n h = strip-solid n (digits_solid n h)

    pub raw_files :
        (n : String)
        → some_chars py.is_digit n ≡ true
        → strip (append "files:" n) ≡ append "files:" n
    raw_files n h = strip-solid (append "files:" n) (unfold is_space append in digits_solid n h)

    pub prefixed_files :
        (n : String)
        → prefixed_id py (append "files:" n) ≡ (if some_chars py.is_decimal n then some n else none)
    unfolding prefixed_id decimals append
    prefixed_files n = refl
