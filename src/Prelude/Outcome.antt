-- ===== src/Prelude/Outcome.antt =====
-- The end of a call of kernel code: a value, a panic, or a fault, which stands for the undefined
-- behaviour of a null dereference or a division by zero.
use Prim.Native.Nat.{ℕ, zero, suc, ◌+◌, ◌<◌}
use native.Mathlib.Omega.{arith}
use mathlib.Core.Path.{◌≡◌, ap, refl}
use mathlib.Core.Bool.{Bool, true, false}
use mathlib.Core.Option.{Option, none, some}

pub data Outcome {ℓ} (A : Type ℓ) : Type ℓ where
  ok : A → Outcome A
  panic : Outcome A
  fault : Outcome A

infixl 5 ◌>>=◌ ◌>>◌
abbrev pub ◌>>=◌ {ℓ κ} : {A : Type ℓ} {B : Type κ} → Outcome A → (A → Outcome B) → Outcome B
ok a >>= f = f a
panic >>= f = panic
fault >>= f = fault

abbrev pub ◌>>◌ {ℓ} : {B : Type ℓ} → Outcome (Unit {0}) → Outcome B → Outcome B
m >> k = m >>= λ _. k

-- if(b) panic(...)
abbrev pub panic_if : Bool → Outcome (Unit {0})
panic_if true = panic
panic_if false = ok tt

-- a pointer that is dereferenced
abbrev pub deref {ℓ} : {A : Type ℓ} → Option A → Outcome A
deref none = fault
deref (some a) = ok a

-- A step that succeeds hands its value on.
pub >>=-ok {ℓ κ} :
    {A : Type ℓ} {B : Type κ} {m : Outcome A} (f : A → Outcome B) {a : A}
    → m ≡ ok a
    → (m >>= f) ≡ f a
>>=-ok f e = ap (λ m. m >>= f) e

-- Inversion of a successful bind.
pub >>=-eq-ok {ℓ κ} :
    {A : Type ℓ} {B : Type κ} (call : Outcome A) (next : A → Outcome B) {result : B}
    → (call >>= next) ≡ ok result
    → (value : A) × (call ≡ ok value) × (next value ≡ ok result)
>>=-eq-ok panic next e = cc
>>=-eq-ok fault next e = cc
>>=-eq-ok (ok value) next e = (value, refl, e)

pub ok-injective {ℓ} : {A : Type ℓ} {a b : A} → ok a ≡ ok b → a ≡ b
ok-injective e = cc

pub deref-eq-ok {ℓ} : {A : Type ℓ} (p : Option A) {a : A} → deref p ≡ ok a → p ≡ some a
deref-eq-ok none e = cc
deref-eq-ok (some b) e = ap some (ok-injective e)

pub ok-pair {ℓ κ} :
    {A : Type ℓ} {B : Type κ} {a c : A} {b d : B}
    → ◌≡◌ {A = Outcome (A × B)} (ok (a, b)) (ok (c, d))
    → (a ≡ c) × (b ≡ d)
ok-pair e = (ap (λ p. p.0) (ok-injective e), ap (λ p. p.1) (ok-injective e))

-- for(k = first; k < first + count; k++), where a round may panic or fault
unfoldable pub for_each {ℓ} : {A : Type ℓ} → (ℕ → A → Outcome A) → ℕ → ℕ → A → Outcome A
for_each round zero first a = ok a
for_each round (suc count) first a = round first a >>= for_each round count (first + 1)

-- What every round that goes well keeps holds where the loop ends well.
pub for_each_inv {ℓ κ} :
    {A : Type ℓ} (Inv : ℕ → A → Type κ) (round : ℕ → A → Outcome A) (count first end : ℕ) (a z : A)
    → first + count ≡ end
    → ((k : ℕ) (b c : A) → k < end → Inv k b → round k b ≡ ok c → Inv (k + 1) c)
    → Inv first a
    → for_each round count first a ≡ ok z
    → Inv end z
unfolding for_each
for_each_inv Inv round zero first end a z e kept h done =
    let over : first ≡ end = omega arith in rw (← ok-injective done, ← over) h
for_each_inv Inv round (suc count) first end a z e kept h done =
    let (b, went, rest) = >>=-eq-ok (round first a) (for_each round count (first + 1)) done in
    for_each_inv Inv round count (first + 1) end b z (omega arith) kept
      (kept first a b (omega arith) h went) rest
