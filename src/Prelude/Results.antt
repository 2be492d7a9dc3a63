-- ===== src/Prelude/Results.antt =====
-- The result of fallible code: Go's `(T, error)`, with a type of errors for each component.
use mathlib.Core.Path.{◌≡◌, refl}
use mathlib.Core.Bool.{Bool, true, false}

pub data Result {ℓ κ} (E : Type ℓ) (A : Type κ) : Type (ℓ ⊔ κ) where
  ok : A → Result E A
  err : E → Result E A

-- The `error` of a check.
abbrev pub Check {ℓ} : Type ℓ → Type ℓ
Check E = Result E (Unit {0})

infixl 5 ◌>>=◌ ◌>>◌
abbrev pub ◌>>=◌ {ℓ κ μ} :
    {E : Type ℓ} {A : Type κ} {B : Type μ} → Result E A → (A → Result E B) → Result E B
ok a >>= f = f a
err e >>= f = err e

abbrev pub ◌>>◌ {ℓ μ} : {E : Type ℓ} {B : Type μ} → Check E → Result E B → Result E B
m >> k = m >>= λ _. k

-- `if cond { return err }`
abbrev pub reject_if {ℓ} : {E : Type ℓ} → Bool → E → Check E
reject_if true e = err e
reject_if false e = ok tt

-- Inversion of a sequence of checks that passes.
pub >>-ok {ℓ} : {E : Type ℓ} (m k : Check E) → (m >> k) ≡ ok tt → (m ≡ ok tt) × (k ≡ ok tt)
>>-ok (ok tt) k h = (refl, h)
>>-ok (err e) k h = cc

pub ok->> {ℓ} : {E : Type ℓ} (m k : Check E) → m ≡ ok tt → k ≡ ok tt → (m >> k) ≡ ok tt
ok->> (ok tt) k h q = q
ok->> (err e) k h q = cc

pub reject_if-ok {ℓ} : {E : Type ℓ} (b : Bool) (e : E) → reject_if b e ≡ ok tt → b ≡ false
reject_if-ok true e h = cc
reject_if-ok false e h = refl

pub ok-reject_if {ℓ} : {E : Type ℓ} (b : Bool) (e : E) → b ≡ false → reject_if b e ≡ ok tt
ok-reject_if true e h = cc
ok-reject_if false e h = refl

-- Inversion of a step that is followed by another.
pub >>=-ok {ℓ κ μ} :
    {E : Type ℓ} {A : Type κ} {B : Type μ} (first : Result E A) (next : A → Result E B) {last : B}
    → (first >>= next) ≡ ok last
    → (mid : A) × (first ≡ ok mid) × (next mid ≡ ok last)
>>=-ok (ok a) f h = (a, refl, h)
>>=-ok (err e) f h = cc
