-- ===== src/Python/Ascii.antt =====
-- A runtime whose tables are those of ASCII, for tests.
use aki_rag_middleware.Prelude.{ℕ, Bool, ◌&&◌, leb, is_space, arith}
use aki_rag_middleware.Python.Values.{Runtime, IsUnicode}

abbrev pub ascii_digit : ℕ → Bool
ascii_digit c = leb 48 c && leb c 57

abbrev pub ascii : Runtime
ascii = record {
  repr = λ v. "<container>";
  is_decimal = ascii_digit;
  is_digit = ascii_digit;
  lower = λ s. s;
  casefold = λ s. s;
  upper = λ s. s;
  quote = λ s. s;
}

pub ascii-IsUnicode : IsUnicode ascii
unfolding is_space
ascii-IsUnicode = record { decimal-digit = λ c h. h; digit-space = λ c h. ground arith }
