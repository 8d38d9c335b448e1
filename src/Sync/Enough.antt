-- ===== src/Sync/Enough.antt =====
-- `embed_chunks_resilient` of rag/sync.py ends: enough rounds are given.
use aki_rag_middleware.Prelude.{
  ℕ, zero, suc, ◌+◌, ◌≤◌, ◌<◌, String, ◌≡◌, refl, Bool, true, false, ◌||◌, List, [], ◌∷◌, max, ltb,
  leb, eqb, length, take, drop, length-take-le, length-drop, All, arith, Bool-cases, inl, inr,
}
use aki_rag_middleware.Auth.{chars}
use aki_rag_middleware.Acl.Authorize.{batches}
use aki_rag_middleware.Sync.Split.{
  adaptive_split, adaptive_split-Shorter, length-adaptive_split, Shorter,
}
use aki_rag_middleware.Sync.Embed.{
  Answer, vectors, too_long, failed, Embedded, embedded, refused, out_of_fuel, Request, settle,
  both, after_split, middle, ask, embed_group, embed_groups, rounds, longest, fuel_for,
  embed_chunks_resilient,
}

abbrev pub ended : {V : Type 0} → Embedded V → Bool
ended (embedded xs) = true
ended (refused out_of_fuel) = false
ended (refused e) = true

ended-both :
    {V : Type 0} (a b : Embedded V) → ended a ≡ true → ended b ≡ true → ended (both a b) ≡ true
ended-both (embedded xs) (embedded ys) h k = refl
ended-both (embedded xs) (refused e) h k = k
ended-both (refused e) b h k = h

ended-settle :
    {V : Type 0} (group : List String) (retry : Embedded V) (answer : Answer V)
    → ended retry ≡ true
    → ended (settle group retry answer) ≡ true
ended-settle group retry (vectors vs) h = elim (Bool-cases (eqb (length vs) (length group))) [
  | inl e ↦ rw e refl
  | inr e ↦ rw e refl
]
ended-settle group retry too_long h = h
ended-settle group retry failed h = refl

abbrev Bounded : ℕ → List String → Type 0
Bounded n chunks = All (λ chunk. chars chunk ≤ n) chunks

Bounded-take : (n k : ℕ) (chunks : List String) → Bounded n chunks → Bounded n (take k chunks)
Bounded-take n zero chunks h = tt
Bounded-take n (suc k) [] h = tt
Bounded-take n (suc k) (c ∷ cs) h = (h.0, Bounded-take n k cs h.1)

Bounded-drop : (n k : ℕ) (chunks : List String) → Bounded n chunks → Bounded n (drop k chunks)
Bounded-drop n zero chunks h = h
Bounded-drop n (suc k) [] h = tt
Bounded-drop n (suc k) (c ∷ cs) h = Bounded-drop n k cs h.1

Bounded-Shorter :
    (n m : ℕ) (chunks : List String) → m ≤ suc n → All (Shorter m) chunks → Bounded n chunks
Bounded-Shorter n m [] h k = tt
Bounded-Shorter n m (c ∷ cs) h k = (omega (arith, k.0), Bounded-Shorter n m cs h k.1)

module _ {V : Type 0} (name : String → String) (client : List String → Answer V) where
  ended-embed_group :
      (request : Request) (fuel n : ℕ) (group : List String)
      → 256 ≤ request.min_split_chars
      → Bounded n group
      → length group + rounds n < fuel
      → ended (embed_group name client request fuel group) ≡ true
  unfolding embed_group rounds
  ended-embed_group request zero n group h b k = absurd (omega arith)
  ended-embed_group request (suc fuel) n [] h b k = refl
  ended-embed_group request (suc fuel) zero (chunk ∷ []) h b k =
      let short : leb (chars chunk) request.min_split_chars ≡ true = ground (arith, b.0) in
      ended-settle (chunk ∷ []) _ (ask name client request (chunk ∷ [])) (rw short refl)
  ended-embed_group request (suc fuel) (suc n) (chunk ∷ []) h b k =
      let parts = adaptive_split chunk request.overlap in
      let rest = embed_group name client request fuel parts in
      let enough : ended (after_split request chunk parts rest) ≡ true =
        elim (Bool-cases (leb (chars chunk) request.min_split_chars || ltb (length parts) 2)) [
          | inl e ↦ rw e refl
          | inr e ↦
              let long : 256 < chars chunk = ground arith in
              let shorter =
                Bounded-Shorter n (chars chunk) parts b.0
                  (adaptive_split-Shorter chunk request.overlap long) in
              let few = length-adaptive_split chunk request.overlap in
              rw e (ended-embed_group request fuel n parts h shorter (omega (arith, b.0)))
        ] in
      ended-settle (chunk ∷ []) _ (ask name client request (chunk ∷ [])) enough
  ended-embed_group request (suc fuel) n (chunk ∷ next ∷ more) h b k =
      let group = chunk ∷ next ∷ more in
      let l = length-take-le (middle group) group in
      let r = length-drop (middle group) group in
      ended-settle group _ (ask name client request group) (
        ended-both _ _
          (ended-embed_group request fuel n (take (middle group) group) h
            (Bounded-take n (middle group) group b) (omega arith))
          (ended-embed_group request fuel n (drop (middle group) group) h
            (Bounded-drop n (middle group) group b) (omega arith)))

Bounded-mono : (n m : ℕ) (chunks : List String) → n ≤ m → Bounded n chunks → Bounded m chunks
Bounded-mono n m [] h k = tt
Bounded-mono n m (c ∷ cs) h k = (omega (arith, k.0), Bounded-mono n m cs h k.1)

Bounded-longest : (chunks : List String) → Bounded (longest chunks) chunks
Bounded-longest [] = tt
Bounded-longest (c ∷ cs) = (
  omega arith,
  Bounded-mono (longest cs) (longest (c ∷ cs)) cs (omega arith) (Bounded-longest cs),
)

length-take_short : (n : ℕ) (chunks : List String) → length (take n chunks) ≤ length chunks
length-take_short zero chunks = omega arith
length-take_short (suc n) [] = omega arith
length-take_short (suc n) (c ∷ cs) = omega (arith, length-take_short n cs)

abbrev Small : ℕ → ℕ → List String → Type 0
Small n k group = Bounded n group × (length group ≤ k)

batches-Small :
    (n k fuel size : ℕ) (chunks : List String)
    → Small n k chunks
    → All (Small n k) (batches fuel size chunks)
unfolding batches
batches-Small n k fuel size [] h = tt
batches-Small n k zero size (c ∷ cs) h = tt
batches-Small n k (suc fuel) size (c ∷ cs) h =
    let chunks = c ∷ cs in
    let l = length-take_short size chunks in
    let r = length-drop size chunks in
    (
      (Bounded-take n size chunks h.0, omega arith),
      batches-Small n k fuel size (drop size chunks)
          (Bounded-drop n size chunks h.0, omega (arith, h.1)),
    )

module _ {V : Type 0} (name : String → String) (client : List String → Answer V) where
  ended-embed_groups :
      (request : Request) (fuel n k : ℕ) (groups : List (List String))
      → 256 ≤ request.min_split_chars
      → k + rounds n < fuel
      → All (Small n k) groups
      → ended (embed_groups name client request fuel groups) ≡ true
  unfolding embed_groups
  ended-embed_groups request fuel n k [] h l s = refl
  ended-embed_groups request fuel n k (group ∷ groups) h l s =
      ended-both _ _
        (ended-embed_group name client request fuel n group h s.0.0 (omega (arith, s.0.1)))
        (ended-embed_groups request fuel n k groups h l s.1)

  -- Where chunks of 256 characters and less are not split further, as is the default, the recursion
  -- on groups and on parts ends, whatever the service answers: the fuel that is chosen is enough.
  pub embed_chunks_resilient-ended :
      (request : Request) (batch_size : ℕ) (chunks : List String)
      → 256 ≤ request.min_split_chars
      → ended (embed_chunks_resilient name client request batch_size chunks) ≡ true
  unfolding embed_chunks_resilient
  embed_chunks_resilient-ended request batch_size chunks h =
      let n = longest chunks in
      ended-embed_groups request (fuel_for chunks) n (length chunks) _ h (omega arith) (
        batches-Small n (length chunks) (length chunks) (max 1 batch_size) chunks
          (Bounded-longest chunks, omega arith))
