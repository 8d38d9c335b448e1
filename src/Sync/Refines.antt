-- ===== src/Sync/Refines.antt =====
-- What the result of `embed_chunks_resilient` of rag/sync.py consists of.
use mathlib.Core.Path.{subst}
use aki_rag_middleware.Prelude.{
  All-append, ℕ, zero, suc, ◌<◌, String, ◌≡◌, refl, sym, ap, ◌||◌, Option, none, some, List, [],
  ◌∷◌, ◌++◌, max, ltb, leb, eqb, length, take, drop, take-append-drop, All, arith, Bool-cases, inl,
  inr,
}
use aki_rag_middleware.Auth.{chars}
use aki_rag_middleware.Acl.Authorize.{batches}
use aki_rag_middleware.Acl.Authorize.Batches.{concat, concat-batches}
use aki_rag_middleware.Sync.Split.{adaptive_split}
use aki_rag_middleware.Sync.Parts.{IsSplit, adaptive_split-IsSplit}
use aki_rag_middleware.Sync.Embed.{
  Answer, vectors, too_long, failed, Embedded, embedded, refused, Request, zip, settle, both,
  after_split, middle, ask, embed_group, embed_groups, fuel_for, embed_chunks_resilient,
}

-- Texts that come from chunks, in order, each as it is or split, again and again, into two parts or
-- more that leave nothing out.
pub data Refines (request : Request) : List String → List String → Type 0 where
  nothing : Refines request [] []
  kept :
      (chunk : String) (chunks texts : List String)
      → Refines request chunks texts
      → Refines request (chunk ∷ chunks) (chunk ∷ texts)
  split :
      (chunk : String) (chunks halves parts texts : List String)
      → request.min_split_chars < chars chunk
      → IsSplit chunk halves
      → Refines request halves parts
      → Refines request chunks texts
      → Refines request (chunk ∷ chunks) (parts ++ texts)

append_assoc_list : (xs ys zs : List String) → (xs ++ ys) ++ zs ≡ xs ++ (ys ++ zs)
append_assoc_list [] ys zs = refl
append_assoc_list (x ∷ xs) ys zs = ap (λ r. x ∷ r) (append_assoc_list xs ys zs)

append_nil : (xs : List String) → xs ++ [] ≡ xs
append_nil [] = refl
append_nil (x ∷ xs) = ap (λ r. x ∷ r) (append_nil xs)

Refines-append :
    (request : Request) (cs ts ds us : List String)
    → Refines request cs ts
    → Refines request ds us
    → Refines request (cs ++ ds) (ts ++ us)
Refines-append request _ _ ds us nothing k = k
Refines-append request _ _ ds us (kept c cs ts h) k =
    kept c (cs ++ ds) (ts ++ us) (Refines-append request cs ts ds us h k)
Refines-append request _ _ ds us (split c cs hs ps ts l q p h) k =
    subst (Refines request (c ∷ (cs ++ ds))) (sym (append_assoc_list ps ts us))
      (split c (cs ++ ds) hs ps (ts ++ us) l q p (Refines-append request cs ts ds us h k))

Refines-refl : (request : Request) (chunks : List String) → Refines request chunks chunks
Refines-refl request [] = nothing
Refines-refl request (c ∷ cs) = kept c cs cs (Refines-refl request cs)

abbrev pub at : {A : Type 0} → List A → ℕ → Option A
at [] i = none
at (x ∷ xs) zero = some x
at (x ∷ xs) (suc i) = at xs i

abbrev pub texts_of : {V : Type 0} → List (String × V) → List String
texts_of [] = []
texts_of ((c, v) ∷ ps) = c ∷ texts_of ps

texts_of-append :
    {V : Type 0} (ps qs : List (String × V)) → texts_of (ps ++ qs) ≡ texts_of ps ++ texts_of qs
texts_of-append [] qs = refl
texts_of-append ((c, v) ∷ ps) qs = ap (λ r. c ∷ r) (texts_of-append ps qs)

texts_of-zip :
    {V : Type 0} (group : List String) (vs : List V)
    → length vs ≡ length group
    → texts_of (zip group vs) ≡ group
texts_of-zip [] vs h = refl
texts_of-zip (c ∷ cs) [] h = absurd (omega arith)
texts_of-zip (c ∷ cs) (v ∷ vs) h = ap (λ r. c ∷ r) (texts_of-zip cs vs (omega arith))

-- The entry of both lists at one position.
abbrev Paired : {V : Type 0} → List String → List V → String × V → Type 0
Paired group vs pair = (i : ℕ) × (at group i ≡ some pair.0) × (at vs i ≡ some pair.1)

All-mono :
    {A : Type 0} (P Q : A → Type 0) → ((a : A) → P a → Q a) → (xs : List A) → All P xs → All Q xs
All-mono P Q f [] h = tt
All-mono P Q f (x ∷ xs) h = (f x h.0, All-mono P Q f xs h.1)

zip-Paired : {V : Type 0} (group : List String) (vs : List V) → All (Paired group vs) (zip group vs)
zip-Paired [] vs = tt
zip-Paired (c ∷ cs) [] = tt
zip-Paired (c ∷ cs) (v ∷ vs) = (
  (0, refl, refl),
  All-mono (Paired cs vs) (Paired (c ∷ cs) (v ∷ vs)) (λ p h. (suc h.0, h.1, h.2)) (zip cs vs)
      (zip-Paired cs vs),
)

module _ {V : Type 0} (name : String → String) (client : List String → Answer V) where
  -- The vector is the one that the service gave for the text, in some group.
  abbrev pub Drawn : Request → String × V → Type 0
  Drawn request pair =
      (group : List String) × (vs : List V) × (ask name client request group ≡ vectors vs)
      × (length vs ≡ length group)
      × Paired group vs pair

  abbrev pub Sound : Request → List String → Embedded V → Type 0
  Sound request chunks (embedded ps) = Refines request chunks (texts_of ps) × All (Drawn request) ps
  Sound request chunks (refused e) = Unit

  Sound-both :
      (request : Request) (cs ds : List String) (a b : Embedded V)
      → Sound request cs a
      → Sound request ds b
      → Sound request (cs ++ ds) (both a b)
  Sound-both request cs ds (refused e) b h k = tt
  Sound-both request cs ds (embedded ps) (refused e) h k = tt
  Sound-both request cs ds (embedded ps) (embedded qs) h k = (
    subst (Refines request (cs ++ ds)) (sym (texts_of-append ps qs))
        (Refines-append request cs (texts_of ps) ds (texts_of qs) h.0 k.0),
    All-append (Drawn request) ps qs h.1 k.1,
  )

  Sound-settle :
      (request : Request) (group : List String) (retry : Embedded V) (answer : Answer V)
      → ask name client request group ≡ answer
      → Sound request group retry
      → Sound request group (settle group retry answer)
  Sound-settle request group retry (vectors vs) asked h =
      elim (Bool-cases (eqb (length vs) (length group))) [
        | inl e ↦
            let same : length vs ≡ length group = ground arith in
            rw e (
              subst (Refines request group) (sym (texts_of-zip group vs same))
                  (Refines-refl request group),
              All-mono (Paired group vs) (Drawn request) (λ p q. (group, vs, asked, same, q))
                  (zip group vs) (zip-Paired group vs),
            )
        | inr e ↦ rw e tt
      ]
  Sound-settle request group retry too_long asked h = h
  Sound-settle request group retry failed asked h = tt

  Sound-split :
      (request : Request) (chunk : String) (rest : Embedded V)
      → Sound request (adaptive_split chunk request.overlap) rest
      → Sound request
          (chunk ∷ [])
          (after_split request chunk (adaptive_split chunk request.overlap) rest)
  Sound-split request chunk rest h =
      let parts = adaptive_split chunk request.overlap in
      elim (Bool-cases (leb (chars chunk) request.min_split_chars || ltb (length parts) 2)) [
        | inl e ↦ rw e tt
        | inr e ↦ rw e (
            divided rest h (ground arith)
              (adaptive_split-IsSplit chunk request.overlap (ground arith)))
      ]
    where
      divided :
          (rest : Embedded V)
          → Sound request (adaptive_split chunk request.overlap) rest
          → request.min_split_chars < chars chunk
          → IsSplit chunk (adaptive_split chunk request.overlap)
          → Sound request (chunk ∷ []) rest
      divided (refused e) h l q = tt
      divided (embedded ps) h l q = (
        subst (Refines request (chunk ∷ [])) (append_nil (texts_of ps)) (
            split chunk [] (adaptive_split chunk request.overlap) (texts_of ps) [] l q h.0 nothing),
        h.1,
      )

  embed_group-Sound :
      (request : Request) (fuel : ℕ) (group : List String)
      → Sound request group (embed_group name client request fuel group)
  unfolding embed_group
  embed_group-Sound request zero group = tt
  embed_group-Sound request (suc fuel) [] = (nothing, tt)
  embed_group-Sound request (suc fuel) (chunk ∷ []) = Sound-settle request (chunk ∷ []) _ _ refl (
      Sound-split request chunk _
        (embed_group-Sound request fuel (adaptive_split chunk request.overlap)))
  embed_group-Sound request (suc fuel) (chunk ∷ next ∷ more) =
      let group = chunk ∷ next ∷ more in
      let halves =
        Sound-both request (take (middle group) group) (drop (middle group) group) _ _
          (embed_group-Sound request fuel (take (middle group) group))
          (embed_group-Sound request fuel (drop (middle group) group)) in
      Sound-settle request group _ _ refl (
        subst
          (λ cs. Sound request cs (
            both (embed_group name client request fuel (take (middle group) group))
              (embed_group name client request fuel (drop (middle group) group))))
          (take-append-drop (middle group) group) halves)

  embed_groups-Sound :
      (request : Request) (fuel : ℕ) (groups : List (List String))
      → Sound request (concat groups) (embed_groups name client request fuel groups)
  unfolding embed_groups
  embed_groups-Sound request fuel [] = (nothing, tt)
  embed_groups-Sound request fuel (group ∷ groups) =
      Sound-both request group (concat groups) _ _ (embed_group-Sound request fuel group)
        (embed_groups-Sound request fuel groups)

  -- The texts of a result come from the chunks, in order: each chunk is there as it is, or, where
  -- it is longer than the minimum, split again and again into two parts or more that hold, white
  -- space at their ends aside, every position of it; and each text has the vector that the service
  -- gave for it.
  pub embed_chunks_resilient-Refines :
      (request : Request) (batch_size : ℕ) (chunks : List String) (pairs : List (String × V))
      → embed_chunks_resilient name client request batch_size chunks ≡ embedded pairs
      → Refines request chunks (texts_of pairs) × All (Drawn request) pairs
  unfolding embed_chunks_resilient
  embed_chunks_resilient-Refines request batch_size chunks pairs h =
      let groups = batches (length chunks) (max 1 batch_size) chunks in
      let whole : concat groups ≡ chunks =
        concat-batches (length chunks) (max 1 batch_size) chunks (omega arith) (omega arith) in
      let found = embed_groups-Sound request (fuel_for chunks) groups in
      subst (Sound request chunks) h (
        subst (λ cs. Sound request cs (embed_groups name client request (fuel_for chunks) groups))
          whole found)
