-- ===== src/Python/Fields.antt =====
-- A Python `dict` with text keys, in insertion order, and the laws that its clients use.
use aki_rag_middleware.Prelude.{
  String, ◌≡◌, refl, Bool, false, Option, none, some, List, [], ◌∷◌, arith, ◌==◌, eq_iff, contains,
  if◌then◌else◌, ◌||◌, inl, inr, Option-cases,
}
use aki_rag_middleware.Python.Values.{Value, null, Fields, end, field}

-- `d[k]` where there is one
unfoldable pub lookup : String → Fields → Option Value
lookup k end = none
lookup k (field j v d) = if j == k then some v else lookup k d

abbrev pub or_null : Option Value → Value
or_null none = null
or_null (some v) = v

-- `d.get(k)`
unfoldable pub get : Fields → String → Value
unfolding lookup
get d k = or_null (lookup k d)

-- `k in d`
unfoldable pub has : Fields → String → Bool
has end k = false
has (field j v d) k = j == k || has d k

-- `d[k] = v`
unfoldable pub put : String → Value → Fields → Fields
put k v end = field k v end
put k v (field j w d) = if j == k then field j v d else field j w (put k v d)

-- `d.pop(k, None)`
unfoldable pub pop : String → Fields → Fields
pop k end = end
pop k (field j w d) = let rest = pop k d in if j == k then rest else field j w rest

-- `for key in keys: d.pop(key, None)`
unfoldable pub pop_all : List String → Fields → Fields
unfolding pop
pop_all [] d = d
pop_all (k ∷ ks) d = pop_all ks (pop k d)

abbrev pub field_if : String → Option Value → Fields → Fields
field_if k none d = d
field_if k (some v) d = field k v d

-- `{key: source.get(key) for key in keys if key in source}`, for keys without repetition
unfoldable pub restrict : List String → Fields → Fields
unfolding lookup
restrict [] d = end
restrict (k ∷ ks) d = field_if k (lookup k d) (restrict ks d)

abbrev pub put_if : String → Option Value → Fields → Fields
put_if k none d = d
put_if k (some v) d = put k v d

-- `for key in keys: if key in source: target[key] = source.get(key)`
unfoldable pub copy_keys : List String → Fields → Fields → Fields
unfolding put lookup
copy_keys [] source target = target
copy_keys (k ∷ ks) source target = copy_keys ks source (put_if k (lookup k source) target)

pub lookup-put :
    (k j : String) (v : Value) (d : Fields)
    → lookup j (put k v d) ≡ (if k == j then some v else lookup j d)
unfolding lookup put
lookup-put k j v end = refl
lookup-put k j v (field i w d) =
    ground (arith, eq_iff k j, eq_iff i k, eq_iff i j, lookup-put k j v d)

pub lookup-pop :
    (k j : String) (d : Fields) → lookup j (pop k d) ≡ (if k == j then none else lookup j d)
unfolding lookup pop
lookup-pop k j end = ground arith
lookup-pop k j (field i w d) = ground (arith, eq_iff k j, eq_iff i k, eq_iff i j, lookup-pop k j d)

pub lookup-pop_all :
    (ks : List String) (j : String) (d : Fields)
    → lookup j (pop_all ks d) ≡ (if contains ks j then none else lookup j d)
unfolding pop_all
lookup-pop_all [] j d = refl
lookup-pop_all (k ∷ ks) j d = ground (arith, lookup-pop_all ks j (pop k d), lookup-pop k j d)

pub lookup-restrict :
    (ks : List String) (j : String) (d : Fields)
    → lookup j (restrict ks d) ≡ (if contains ks j then lookup j d else none)
unfolding restrict lookup
lookup-restrict [] j d = refl
lookup-restrict (k ∷ ks) j d = ground (arith, eq_iff k j, lookup-restrict ks j d)

-- Over keys of the source the copy wins, over any other key the target stays.
abbrev pub either : Option Value → Option Value → Option Value
either none w = w
either (some v) w = some v

pub lookup-copy_keys :
    (ks : List String) (j : String) (source target : Fields)
    → lookup j (copy_keys ks source target)
      ≡ (if contains ks j then either (lookup j source) (lookup j target) else lookup j target)
unfolding copy_keys
lookup-copy_keys [] j source target = refl
lookup-copy_keys (k ∷ ks) j source target = elim (Option-cases (lookup k source)) [
  | inl absent ↦ rw absent (ground (arith, eq_iff k j, lookup-copy_keys ks j source target))
  | inr (v, held) ↦ rw held (
      ground
        (arith, eq_iff k j, lookup-copy_keys ks j source (put k v target), lookup-put k j v target))
]
