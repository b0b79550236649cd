-- ===== src/Store/SensorOrder.antt =====
-- The order of texts by their characters: comparing the other way round.
use Prim.Native.Char.{code}
use Prim.Native.Nat.compare as compare_ℕ
use Prim.Native.Nat.{zero, suc, Ordering, compare as compare_ℕ}
use Prim.Native.String.compare
use Prim.Native.String.{String, [], ◌∷◌, compare, then}
use mathlib.Core.Path.{ap₂}
use factoryfleet.Base.{◌≡◌, refl, sym, ap, ◌∙◌, ℕ, ◌⊎◌, inl, inr}

abbrev pub flip : Ordering → Ordering
flip Ordering.lt = Ordering.gt
flip Ordering.eq = Ordering.eq
flip Ordering.gt = Ordering.lt

compare_ℕ-flip : (m n : ℕ) → compare_ℕ n m ≡ flip (compare_ℕ m n)
compare_ℕ-flip zero zero = compare_ℕ.zero-zero ∙ ap flip (sym compare_ℕ.zero-zero)
compare_ℕ-flip zero (suc n) = compare_ℕ.suc-zero n ∙ ap flip (sym (compare_ℕ.zero-suc n))
compare_ℕ-flip (suc m) zero = compare_ℕ.zero-suc m ∙ ap flip (sym (compare_ℕ.suc-zero m))
compare_ℕ-flip (suc m) (suc n) =
    compare_ℕ.suc-suc n m ∙ compare_ℕ-flip m n ∙ ap flip (sym (compare_ℕ.suc-suc m n))

then-flip : (o p : Ordering) → then (flip o) (flip p) ≡ flip (then o p)
then-flip Ordering.lt p = refl
then-flip Ordering.eq p = refl
then-flip Ordering.gt p = refl

pub compare-flip : (s t : String) → compare t s ≡ flip (compare s t)
compare-flip [] [] = compare.nil-nil ∙ ap flip (sym compare.nil-nil)
compare-flip [] (d ∷ t) = compare.cons-nil d t ∙ ap flip (sym (compare.nil-cons d t))
compare-flip (c ∷ s) [] = compare.nil-cons c s ∙ ap flip (sym (compare.cons-nil c s))
compare-flip (c ∷ s) (d ∷ t) =
    compare.cons-cons d c t s
    ∙ ap₂ then (compare_ℕ-flip (code c) (code d)) (compare-flip s t)
    ∙ then-flip (compare_ℕ (code c) (code d)) (compare s t)
    ∙ ap flip (sym (compare.cons-cons c d s t))

pub Ordering-cases : (o : Ordering) → (o ≡ Ordering.lt) ⊎ ((o ≡ Ordering.eq) ⊎ (o ≡ Ordering.gt))
Ordering-cases Ordering.lt = inl refl
Ordering-cases Ordering.eq = inr (inl refl)
Ordering-cases Ordering.gt = inr (inr refl)
