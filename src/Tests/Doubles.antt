-- ===== src/Tests/Doubles.antt =====
-- An arithmetic on whole numbers and NaN that has the laws of doubles, and sensors over it.
use mathlib.Core.Path.{subst}
use factoryfleet.Base.{
  ◌∙◌, ℕ, ◌+◌, ◌*◌, ◌≡◌, refl, sym, ap, Bool, true, false, String, Option, none, some, arith, ltb,
  leb, if◌then◌else◌, ◌==◌,
}
use factoryfleet.Json.{ℤ, Float}
use factoryfleet.Json.Int.{pos_part, neg_part, sub_ℕ}
use factoryfleet.Results.{Error, Result, ok, raised, ok-injective, raised-ne-ok}
use factoryfleet.Sensors.Options.{Floats, AreDoubles, literal}

abbrev python_error : String → Error
python_error name = record { type_name = name; message = ""; is_exception = true }

-- The numerator, where there is one.
abbrev number_of : Float → Option ℤ
number_of (Float.finite m e) = some m
number_of Float.nan = none
number_of Float.infinity = none
number_of Float.minus_infinity = none

abbrev gt_of : Option ℤ → Option ℤ → Bool
gt_of (some a) (some b) = ltb (pos_part b + neg_part a) (pos_part a + neg_part b)
gt_of (some a) none = false
gt_of none b = false

abbrev ge_of : Option ℤ → Option ℤ → Bool
ge_of (some a) (some b) = leb (pos_part b + neg_part a) (pos_part a + neg_part b)
ge_of (some a) none = false
ge_of none b = false

abbrev float_of : Option ℤ → Float
float_of (some i) = Float.finite i (ℤ.pos 0)
float_of none = Float.nan

abbrev add_of : Option ℤ → Option ℤ → Option ℤ
add_of (some a) (some b) = some (sub_ℕ (pos_part a + pos_part b) (neg_part a + neg_part b))
add_of (some a) none = none
add_of none b = none

abbrev mul_of : Option ℤ → Option ℤ → Option ℤ
mul_of (some (ℤ.pos a)) (some (ℤ.pos b)) = some (ℤ.pos (a * b))
mul_of a b = none

-- The quotient is not computed: what is divided stays as it is.
abbrev div_of : Float → Option ℤ → Result Float
div_of x (some (ℤ.pos n)) = if n == 0 then raised (python_error "ZeroDivisionError") else ok x
div_of x (some (ℤ.negsuc n)) = ok Float.nan
div_of x none = ok Float.nan

abbrev round_of : Option ℤ → Result ℤ
round_of (some i) = ok i
round_of none = raised (python_error "ValueError")

abbrev pub whole : Floats
whole = record {
  add = λ x y. float_of (add_of (number_of x) (number_of y));
  mul = λ x y. float_of (mul_of (number_of x) (number_of y));
  div = λ x y. div_of x (number_of y);
  sqrt = λ x. x;
  gt = λ x y. gt_of (number_of x) (number_of y);
  ge = λ x y. ge_of (number_of x) (number_of y);
  int_gt = λ i x. gt_of (some i) (number_of x);
  round = λ x n. x;
  int_round = λ x. round_of (number_of x);
  of_int = λ i. ok (Float.finite i (ℤ.pos 0));
  to_float = λ v. raised (python_error "TypeError");
  seconds = λ i. Float.finite i (ℤ.pos 0);
  Random = Unit {0};
  gauss = λ mean deviation r. (literal 1, r);
}

irrefl : (a : Option ℤ) → gt_of a a ≡ false
irrefl (some a) = ground arith
irrefl none = refl

asym : (a b : Option ℤ) → gt_of a b ≡ true → gt_of b a ≡ false
asym (some a) (some b) h = ground arith
asym (some a) none h = refl
asym none (some b) h = refl
asym none none h = refl

ge-gt : (a b c : Option ℤ) → ge_of a b ≡ true → gt_of b c ≡ true → gt_of a c ≡ true
ge-gt (some a) (some b) (some c) h k = ground arith
ge-gt (some a) (some b) none h k = k
ge-gt (some a) none c h k = cc
ge-gt none b c h k = cc

round_up :
    (a : Option ℤ) (i : ℤ)
    → gt_of (some (ℤ.pos 0)) a ≡ false
    → round_of a ≡ ok i
    → (n : ℕ) × (i ≡ ℤ.pos n)
round_up (some (ℤ.pos n)) i h e = (n, sym (ok-injective e))
round_up (some (ℤ.negsuc n)) i h e = absurd (ground (arith, h))
round_up none i h e = absurd (raised-ne-ok e)

-- The test of the divisor, by its outcome.
divided :
    (by_zero : Bool) (x q : Float)
    → gt_of (some (ℤ.pos 0)) (number_of x) ≡ false
    → (if by_zero then raised (python_error "ZeroDivisionError") else ok x) ≡ ok q
    → gt_of (some (ℤ.pos 0)) (number_of q) ≡ false
divided true x q h e = absurd (raised-ne-ok e)
divided false x q h e = subst (λ y. gt_of (some (ℤ.pos 0)) (number_of y) ≡ false) (ok-injective e) h

div_up :
    (x : Float) (b : Option ℤ) (q : Float)
    → gt_of (some (ℤ.pos 0)) (number_of x) ≡ false
    → div_of x b ≡ ok q
    → gt_of (some (ℤ.pos 0)) (number_of q) ≡ false
div_up x (some (ℤ.pos n)) q h e = divided (n == 0) x q h e
div_up x (some (ℤ.negsuc n)) q h e =
    ap (λ y. gt_of (some (ℤ.pos 0)) (number_of y)) (sym (ok-injective e))
div_up x none q h e = ap (λ y. gt_of (some (ℤ.pos 0)) (number_of y)) (sym (ok-injective e))

round_error : (a : Option ℤ) (e : Error) → round_of a ≡ raised e → e.is_exception ≡ true
round_error (some i) e h = absurd (raised-ne-ok (sym h))
round_error none e h = ground (arith, h)

div_error : (x : Float) (b : Option ℤ) (e : Error) → div_of x b ≡ raised e → e.is_exception ≡ true
div_error x (some (ℤ.pos n)) e h = ground (arith, h)
div_error x (some (ℤ.negsuc n)) e h = absurd (raised-ne-ok (sym h))
div_error x none e h = absurd (raised-ne-ok (sym h))

pub AreDoubles-whole : AreDoubles whole
AreDoubles-whole = record {
  gt_irrefl = λ x. irrefl (number_of x);
  gt_asym = λ x y. asym (number_of x) (number_of y);
  round-keeps = λ x n h. h;
  int_round-keeps = λ x i h e. round_up (number_of x) i h e;
  gt_nought = λ m e. ground arith;
  ge_gt_trans = λ x y z. ge-gt (number_of x) (number_of y) (number_of z);
  div-keeps = λ x y q h k e. div_up x (number_of y) q h e;
  of_int-keeps =
      λ n x e. ap (λ y. gt_of (some (ℤ.pos 0)) (number_of y)) (sym (ok-injective e)) ∙ ground arith;
  int_round_errors = λ x e h. round_error (number_of x) e h;
  div_errors = λ x y e h. div_error x (number_of y) e h;
  of_int_errors = λ i e h. absurd (raised-ne-ok (sym h));
}
