-- ===== src/Results.antt =====
-- Exceptions as values, and what a call ensures where it returns.
use mathlib.Core.Path.{subst}
use factoryfleet.Base.{String, Bool, true, ◌≡◌, refl, sym, ap, arith, ◌⊎◌, inl, inr, if◌then◌else◌}

-- An exception: the name of its type, `str` of it, and whether it is an `Exception` and not only a
-- `BaseException` such as `KeyboardInterrupt`.
pub record Error : Type 0 where
  pub type_name : String
  pub message : String
  pub is_exception : Bool

pub data Result {ℓ} (A : Type ℓ) : Type ℓ where
  ok : A → Result A
  raised : Error → Result A

infixl 5 ◌>>=◌
abbrev pub ◌>>=◌ {ℓ κ} : {A : Type ℓ} {B : Type κ} → Result A → (A → Result B) → Result B
ok x >>= f = f x
raised e >>= f = raised e

-- Where the call returns, its result has the property.
pub data Ensures {ℓ κ} {A : Type ℓ} (P : A → Type κ) : Result A → Type (ℓ ⊔ κ) where
  returns : {x : A} → P x → Ensures P (ok x)
  raises : {e : Error} → Ensures P (raised e)

pub Ensures-bind {ℓ κ μ ν} :
    {A : Type ℓ} {B : Type κ} {P : A → Type μ} {Q : B → Type ν} {r : Result A} {f : A → Result B}
    → Ensures P r
    → ((x : A) → P x → Ensures Q (f x))
    → Ensures Q (r >>= f)
Ensures-bind (returns h) k = k _ h
Ensures-bind raises k = raises

pub Ensures-if {ℓ κ} :
    {A : Type ℓ} {P : A → Type κ} (b : Bool) {x y : Result A}
    → Ensures P x
    → Ensures P y
    → Ensures P (if b then x else y)
Ensures-if true p q = p
Ensures-if Bool.false p q = q

pub Result-cases {ℓ} :
    {A : Type ℓ} (r : Result A) → ((x : A) × (r ≡ ok x)) ⊎ ((e : Error) × (r ≡ raised e))
Result-cases (ok x) = inl (x, refl)
Result-cases (raised e) = inr (e, refl)

-- By the equation that the call gives.
pub Ensures-each {ℓ κ} :
    {A : Type ℓ} {P : A → Type κ} (r : Result A) → ((x : A) → r ≡ ok x → P x) → Ensures P r
Ensures-each (ok x) h = returns (h x refl)
Ensures-each (raised e) h = raises

value_or {ℓ} : {A : Type ℓ} → A → Result A → A
value_or d (ok x) = x
value_or d (raised e) = d

pub ok-injective {ℓ} : {A : Type ℓ} {x y : A} → ok x ≡ ok y → x ≡ y
unfolding value_or
ok-injective {x} h = ap (value_or x) h

pub raised-ne-ok {ℓ} : {A : Type ℓ} {e : Error} {x : A} → raised e ≡ ok x → ⊥
raised-ne-ok h = cc

-- What a call ensures holds of the value that it returns.
pub Ensures-ok {ℓ κ} :
    {A : Type ℓ} {P : A → Type κ} {r : Result A} {x : A} → Ensures P r → r ≡ ok x → P x
Ensures-ok {P} (returns h) e = subst P (ok-injective e) h
Ensures-ok raises e = absurd (raised-ne-ok e)

pub Ensures-any {ℓ} : {A : Type ℓ} (r : Result A) → Ensures (λ x. Unit {0}) r
Ensures-any (ok x) = returns tt
Ensures-any (raised e) = raises

pub Ensures-intro {ℓ κ} :
    {A : Type ℓ} {P : A → Type κ} (r : Result A) → ((x : A) → r ≡ ok x → P x) → Ensures P r
Ensures-intro (ok x) h = returns (h x refl)
Ensures-intro (raised e) h = raises

-- A call that raises, raises an `Exception`.
abbrev pub Tame {ℓ} : {A : Type ℓ} → Result A → Type ℓ
Tame r = (e : Error) → r ≡ raised e → e.is_exception ≡ true

pub Tame-ok {ℓ} : {A : Type ℓ} (x : A) → Tame (ok x)
Tame-ok x e h = absurd (raised-ne-ok (sym h))

pub Tame-raised {ℓ κ} :
    {A : Type ℓ} {B : Type κ} (d : Error) → Tame {A = A} (raised d) → Tame {A = B} (raised d)
Tame-raised d h e q = ground (arith, q, h d refl)

pub Tame-bind {ℓ κ} :
    {A : Type ℓ} {B : Type κ} (r : Result A) (f : A → Result B)
    → Tame r
    → ((x : A) → Tame (f x))
    → Tame (r >>= f)
Tame-bind (ok x) f h k e q = k x e q
Tame-bind (raised d) f h k e q = ground (arith, q, h d refl)

-- What the call raises, if it raises.
pub data OnlyRaises {ℓ κ} {A : Type ℓ} (Q : Error → Type κ) : Result A → Type (ℓ ⊔ κ) where
  fine : {x : A} → OnlyRaises Q (ok x)
  refused : {e : Error} → Q e → OnlyRaises Q (raised e)

pub OnlyRaises-intro {ℓ κ} :
    {A : Type ℓ} {Q : Error → Type κ} (r : Result A)
    → ((e : Error) → r ≡ raised e → Q e)
    → OnlyRaises Q r
OnlyRaises-intro (ok x) h = fine
OnlyRaises-intro (raised e) h = refused (h e refl)

pub OnlyRaises-if {ℓ κ} :
    {A : Type ℓ} {Q : Error → Type κ} (b : Bool) {x y : Result A}
    → OnlyRaises Q x
    → OnlyRaises Q y
    → OnlyRaises Q (if b then x else y)
OnlyRaises-if true p q = p
OnlyRaises-if Bool.false p q = q

pub OnlyRaises-bind {ℓ κ μ} :
    {A : Type ℓ} {B : Type κ} {Q : Error → Type μ} {r : Result A} {f : A → Result B}
    → OnlyRaises Q r
    → ((x : A) → OnlyRaises Q (f x))
    → OnlyRaises Q (r >>= f)
OnlyRaises-bind fine k = k _
OnlyRaises-bind (refused h) k = refused h

error_or {ℓ} : {A : Type ℓ} → Error → Result A → Error
error_or e (ok x) = e
error_or e (raised f) = f

pub raised-injective {ℓ} :
    {A : Type ℓ} {e f : Error} → Path (Result A) (raised e) (raised f) → e ≡ f
unfolding error_or
raised-injective {e} h = ap (error_or e) h

pub OnlyRaises-raised {ℓ κ} :
    {A : Type ℓ} {Q : Error → Type κ} {r : Result A} {e : Error}
    → OnlyRaises Q r
    → r ≡ raised e
    → Q e
unfolding error_or
OnlyRaises-raised fine h = absurd (raised-ne-ok (sym h))
OnlyRaises-raised {Q} {e} (refused q) h = subst Q (ap (error_or e) h) q
