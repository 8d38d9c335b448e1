-- ===== src/Sync/Embed.antt =====
-- `embed_chunks_resilient` of rag/sync.py: the vectors of the chunks of a document, where the service
-- may find an input too long. The service is a parameter, a function of the texts that it is given.
use Prim.Native.String.{String}
use aki_rag_middleware.Prelude.{
  ℕ, zero, suc, ◌+◌, ◌/◌, Bool, ◌||◌, List, [], ◌∷◌, ◌++◌, map, ltb, leb, eqb, max, strip, is_empty,
  append, length, take, drop, if◌then◌else◌,
}
use aki_rag_middleware.Auth.{chars}
use aki_rag_middleware.Acl.Authorize.{batches}
use aki_rag_middleware.Sync.Split.{adaptive_split}

-- What a call of the embedding service gives: vectors, the EmbeddingContextLengthError, or another
-- exception.
pub data Answer (V : Type 0) : Type 0 where
  vectors : List V → Answer V
  too_long : Answer V
  failed : Answer V

-- `out_of_fuel` is of the model alone.
pub data Refusal : Type 0 where
  context_length service_failure count_mismatch out_of_fuel : Refusal

pub data Embedded (V : Type 0) : Type 0 where
  embedded : List (String × V) → Embedded V
  refused : Refusal → Embedded V

-- `embedding_document_input`; `name` stands for `PurePosixPath(title).name`
unfoldable pub embedding_document_input : (String → String) → String → Bool → String → String
unfolding strip append
embedding_document_input name title include_basename text =
    let basename = strip (name title) in
    if include_basename
    then (if is_empty basename
        then text
        else append "Document: " (append basename (append "\n\n" text)))
    else text

pub record Request : Type 0 where
  pub title : String
  pub include_basename : Bool
  pub overlap : ℕ
  pub min_split_chars : ℕ

-- `list(zip(group, vectors))`
abbrev pub zip : {V : Type 0} → List String → List V → List (String × V)
zip [] vs = []
zip (c ∷ cs) [] = []
zip (c ∷ cs) (v ∷ vs) = (c, v) ∷ zip cs vs

-- One group behind the other; the second is not begun where the first raises.
abbrev pub both : {V : Type 0} → Embedded V → Embedded V → Embedded V
both (refused e) more = refused e
both (embedded xs) (refused e) = refused e
both (embedded xs) (embedded ys) = embedded (xs ++ ys)

-- The answer for a group, `retry` where it is too long.
abbrev pub settle : {V : Type 0} → List String → Embedded V → Answer V → Embedded V
settle group retry (vectors vs) =
    if eqb (length vs) (length group) then embedded (zip group vs) else refused count_mismatch
settle group retry too_long = retry
settle group retry failed = refused service_failure

abbrev pub middle : List String → ℕ
middle group = max 1 (length group / 2)

-- What a chunk that is too long becomes, from its parts and what those give.
abbrev pub after_split : {V : Type 0} → Request → String → List String → Embedded V → Embedded V
after_split request chunk parts rest =
    if leb (chars chunk) request.min_split_chars || ltb (length parts) 2
    then refused context_length
    else rest

module _ {V : Type 0} (name : String → String) (client : List String → Answer V) where
  abbrev pub ask : Request → List String → Answer V
  ask request group =
      client (map (embedding_document_input name request.title request.include_basename) group)

  unfoldable pub embed_group : Request → ℕ → List String → Embedded V
  unfolding chars adaptive_split embedding_document_input
  embed_group request zero group = refused out_of_fuel
  embed_group request (suc fuel) [] = embedded []
  embed_group request (suc fuel) (chunk ∷ []) =
      let parts = adaptive_split chunk request.overlap in
      let rest = embed_group request fuel parts in
      settle (chunk ∷ []) (after_split request chunk parts rest) (ask request (chunk ∷ []))
  embed_group request (suc fuel) (chunk ∷ next ∷ more) =
      let group = chunk ∷ next ∷ more in
      let left = embed_group request fuel (take (middle group) group) in
      let right = embed_group request fuel (drop (middle group) group) in
      settle group (both left right) (ask request group)

  unfoldable pub embed_groups : Request → ℕ → List (List String) → Embedded V
  unfolding embed_group
  embed_groups request fuel [] = embedded []
  embed_groups request fuel (group ∷ groups) =
      both (embed_group request fuel group) (embed_groups request fuel groups)

abbrev pub longest : List String → ℕ
longest [] = 0
longest (chunk ∷ chunks) = max (chars chunk) (longest chunks)

-- Rounds that are enough for chunks of at most `n` characters, besides their number.
unfoldable pub rounds : ℕ → ℕ
rounds zero = 0
rounds (suc n) = suc n + rounds n

abbrev pub fuel_for : List String → ℕ
fuel_for chunks = suc (length chunks + rounds (longest chunks))

unfoldable pub embed_chunks_resilient :
    {V : Type 0} (name : String → String)
    → (List String → Answer V)
    → Request
    → ℕ
    → List String
    → Embedded V
unfolding embed_groups batches chars rounds
embed_chunks_resilient name client request batch_size chunks =
    embed_groups name client request (fuel_for chunks)
      (batches (length chunks) (max 1 batch_size) chunks)
