-- ===== src/Python/Errors.antt =====
-- Exceptions by class, without their messages: those of rag/acl.py, and the built-in ones and sqlite3's
-- that rag/credential_store.py and rag/search.py raise.
use aki_rag_middleware.Prelude.{◌≡◌, refl, ◌⊎◌, inl, inr, Bool, true, false, if◌then◌else◌}

pub data Failure : Type 0 where
  configuration_error identity_error backend_error value_error : Failure
  runtime_error permission_error integrity_error assertion_error key_error type_error
        attribute_error :
      Failure

pub data Outcome {ℓ} (A : Type ℓ) : Type ℓ where
  ok : A → Outcome A
  raised : Failure → Outcome A

infixl 5 ◌>>=◌
abbrev pub ◌>>=◌ {ℓ κ} : {A : Type ℓ} {B : Type κ} → Outcome A → (A → Outcome B) → Outcome B
ok value >>= next = next value
raised failure >>= next = raised failure

-- A chain that succeeds has succeeded at each step.
pub >>=-eq-ok {ℓ κ} :
    {First : Type ℓ} {Second : Type κ} (call : Outcome First) (next : First → Outcome Second)
    {result : Second}
    → (call >>= next) ≡ ok result
    → (value : First) × (call ≡ ok value) × (next value ≡ ok result)
>>=-eq-ok (raised failure) next returns = cc
>>=-eq-ok (ok value) next returns = (value, refl, returns)

pub ok-injective {ℓ} : {A : Type ℓ} {a b : A} → ok a ≡ ok b → a ≡ b
ok-injective h = cc

-- An early return, or the rest.
pub if-eq-ok {ℓ} :
    {A : Type ℓ} (b : Bool) (x : A) (m : Outcome A) {y : A}
    → (if b then ok x else m) ≡ ok y
    → (x ≡ y) ⊎ (m ≡ ok y)
if-eq-ok true x m h = inl (ok-injective h)
if-eq-ok false x m h = inr h

-- A guard that did not raise.
pub guard-eq-ok {ℓ} :
    {A : Type ℓ} (b : Bool) (e : Failure) (m : Outcome A) {y : A}
    → (if b then raised e else m) ≡ ok y
    → (b ≡ false) × (m ≡ ok y)
guard-eq-ok true e m h = cc
guard-eq-ok false e m h = (refl, h)
