-- ===== src/Sync/Chunks.antt =====
-- `chunk_text` of rag/sync.py: the pieces of a document that are embedded. Positions are those of the
-- characters; a size or an overlap below 0 is 0 here, as the code takes it.
use Prim.Native.String.{String}
use aki_rag_middleware.Prelude.{
  ℕ, zero, suc, ◌+◌, ◌-◌, ◌/◌, ◌&&◌, Option, none, some, List, [], ◌∷◌, ◌==◌, ltb, leb, eqb, max,
  min, strip, is_empty, if◌then◌else◌,
}
use aki_rag_middleware.Auth.{chars}
use aki_rag_middleware.Store.Scope.{starts}

-- `text[:n]`
unfoldable pub take : ℕ → String → String
take zero s = String.[]
take (suc n) String.[] = String.[]
take (suc n) (String.◌∷◌ c s) = String.◌∷◌ c (take n s)

-- `text[n:]`
unfoldable pub drop : ℕ → String → String
drop zero s = s
drop (suc n) String.[] = String.[]
drop (suc n) (String.◌∷◌ c s) = drop n s

-- `text[start:end]`
unfoldable pub slice : ℕ → ℕ → String → String
unfolding take drop
slice start end text = take (end - start) (drop start text)

abbrev pub or_earlier : Option ℕ → Option ℕ → Option ℕ
or_earlier (some i) o = some i
or_earlier none o = o

-- The last occurrence of `sub` between `lower` and `end` in the rest of a text from position `i` on.
unfoldable pub rfind_from : String → ℕ → ℕ → ℕ → String → Option ℕ
unfolding starts chars
rfind_from sub lower end i String.[] = none
rfind_from sub lower end i (String.◌∷◌ c s) = or_earlier (rfind_from sub lower end (suc i) s) (
    if starts sub (String.◌∷◌ c s) && (leb lower i && leb (i + chars sub) end)
    then some i
    else none)

-- `text.rfind(sub, lower, end)`, where `none` is -1
unfoldable pub rfind : String → ℕ → ℕ → String → Option ℕ
unfolding rfind_from
rfind sub lower end text = rfind_from sub lower end 0 text

abbrev pub later : Option ℕ → Option ℕ → Option ℕ
later none o = o
later (some i) none = some i
later (some i) (some j) = some (max i j)

-- `max(candidates)`
unfoldable pub natural_split : String → ℕ → ℕ → Option ℕ
unfolding rfind
natural_split text lower end = later (rfind "\n\n" lower end text) (
    later (rfind "\n" lower end text)
      (later (rfind ". " lower end text) (rfind " " lower end text)))

abbrev pub cut_at : String → ℕ → ℕ → Option ℕ → ℕ
cut_at text start end none = end
cut_at text start end (some split) =
    if ltb start split
    then (if slice split (split + 2) text == ". " then split + 1 else split)
    else end

-- Where the piece that begins at `start` ends.
unfoldable pub window_end : String → ℕ → ℕ → ℕ
unfolding chars natural_split slice
window_end text size start =
    let end = min (chars text) (start + size) in
    if ltb end (chars text)
    then cut_at text start end (natural_split text (max (start + size / 2) start) end)
    else end

unfoldable pub piece : String → ℕ → ℕ → String
unfolding strip slice window_end
piece text size start = strip (slice start (window_end text size start) text)

unfoldable pub next_start : String → ℕ → ℕ → ℕ → ℕ
unfolding window_end
next_start text size overlap start = max (start + 1) (window_end text size start - overlap)

abbrev pub add_chunk : String → List String → List String
add_chunk chunk rest = if is_empty chunk then rest else chunk ∷ rest

-- The loop from `start` on, for at most `fuel` rounds.
unfoldable pub chunks_from : String → ℕ → ℕ → ℕ → ℕ → List String
unfolding piece next_start chars window_end
chunks_from text size overlap zero start = []
chunks_from text size overlap (suc fuel) start =
    let rest = chunks_from text size overlap fuel (next_start text size overlap start) in
    if ltb start (chars text)
    then add_chunk (piece text size start)
        (if leb (chars text) (window_end text size start) then [] else rest)
    else []

abbrev pub fit_overlap : ℕ → ℕ → ℕ
fit_overlap size overlap = if leb size overlap then size / 5 else overlap

abbrev pub chunk_stripped : String → ℕ → ℕ → List String
chunk_stripped text size overlap =
    if is_empty text
    then []
    else if eqb size 0
    then text ∷ []
    else chunks_from text size (fit_overlap size overlap) (chars text) 0

-- Every round moves `start` on, so that as many rounds as the text has characters are enough.
unfoldable pub chunk_text : String → ℕ → ℕ → List String
unfolding strip chunks_from chars
chunk_text text size overlap = chunk_stripped (strip text) size overlap
