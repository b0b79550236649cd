-- ===== src/Timeutil/Digits.antt =====
-- Fixed-width decimal numbers, as `isoformat` writes them and `fromisoformat` reads them.
use Prim.Native.Char.{Char, code}
use factoryfleet.Base.{
  ℕ, zero, suc, ◌+◌, ◌-◌, ◌*◌, ◌/◌, ◌%◌, ◌≤◌, ◌≡◌, refl, String, ◌&&◌, Option, none, some, arith,
  leb, if◌then◌else◌, ◌>>=◌,
}

-- The last digit stands for every larger number, so that the function is total.
unfoldable pub digit_char : ℕ → Char
digit_char zero = "0"
digit_char (suc zero) = "1"
digit_char (suc (suc zero)) = "2"
digit_char (suc (suc (suc zero))) = "3"
digit_char (suc (suc (suc (suc zero)))) = "4"
digit_char (suc (suc (suc (suc (suc zero))))) = "5"
digit_char (suc (suc (suc (suc (suc (suc zero)))))) = "6"
digit_char (suc (suc (suc (suc (suc (suc (suc zero))))))) = "7"
digit_char (suc (suc (suc (suc (suc (suc (suc (suc zero)))))))) = "8"
digit_char (suc (suc (suc (suc (suc (suc (suc (suc (suc n))))))))) = "9"

infixr 67 ◌∷◌
abbrev pub ◌∷◌ : Char → String → String
c ∷ s = String.◌∷◌ c s

unfoldable pub pad2 : ℕ → String → String
pad2 n rest = digit_char (n / 10) ∷ digit_char (n % 10) ∷ rest

unfoldable pub pad3 : ℕ → String → String
unfolding pad2
pad3 n rest = digit_char (n / 100) ∷ pad2 (n % 100) rest

unfoldable pub pad4 : ℕ → String → String
unfolding pad2
pad4 n rest = pad2 (n / 100) (pad2 (n % 100) rest)

unfoldable pub digit? : Char → Option ℕ
digit? c = let n = code c in if leb 48 n && leb n 57 then some (n - 48) else none

-- A digit, and the text behind it.
unfoldable pub read1 : String → Option (ℕ × String)
unfolding digit?
read1 String.[] = none
read1 (String.◌∷◌ c s) = do n ← digit? c; some (n, s)

unfoldable pub read2 : String → Option (ℕ × String)
unfolding read1
read2 s = do (a, s') ← read1 s; (b, s'') ← read1 s'; some (a * 10 + b, s'')

unfoldable pub read3 : String → Option (ℕ × String)
unfolding read1 read2
read3 s = do (a, s') ← read1 s; (b, s'') ← read2 s'; some (a * 100 + b, s'')

unfoldable pub read4 : String → Option (ℕ × String)
unfolding read2
read4 s = do (a, s') ← read2 s; (b, s'') ← read2 s'; some (a * 100 + b, s'')

pub read1-digit_char : (n : ℕ) (s : String) → n ≤ 9 → read1 (digit_char n ∷ s) ≡ some (n, s)
unfolding read1 digit_char
read1-digit_char zero s h = refl
read1-digit_char (suc zero) s h = refl
read1-digit_char (suc (suc zero)) s h = refl
read1-digit_char (suc (suc (suc zero))) s h = refl
read1-digit_char (suc (suc (suc (suc zero)))) s h = refl
read1-digit_char (suc (suc (suc (suc (suc zero))))) s h = refl
read1-digit_char (suc (suc (suc (suc (suc (suc zero)))))) s h = refl
read1-digit_char (suc (suc (suc (suc (suc (suc (suc zero))))))) s h = refl
read1-digit_char (suc (suc (suc (suc (suc (suc (suc (suc zero)))))))) s h = refl
read1-digit_char (suc (suc (suc (suc (suc (suc (suc (suc (suc zero))))))))) s h = refl
read1-digit_char (suc (suc (suc (suc (suc (suc (suc (suc (suc (suc n)))))))))) s h =
    absurd (omega arith)

some_read :
    (a b : ℕ) (s : String) → a ≡ b → ◌≡◌ {A = Option (ℕ × String)} (some (a, s)) (some (b, s))
some_read a b s e = λ i. some (e i, s)

pub read2-pad2 : (n : ℕ) (s : String) → n ≤ 99 → read2 (pad2 n s) ≡ some (n, s)
unfolding read2 pad2
read2-pad2 n s h =
    rw
      (
        read1-digit_char (n / 10) (digit_char (n % 10) ∷ s) (omega arith),
        read1-digit_char (n % 10) s (omega arith),
      )
      (some_read _ n s (omega arith))

pub read3-pad3 : (n : ℕ) (s : String) → n ≤ 999 → read3 (pad3 n s) ≡ some (n, s)
unfolding read3 pad3
read3-pad3 n s h =
    rw
      (
        read1-digit_char (n / 100) (pad2 (n % 100) s) (omega arith),
        read2-pad2 (n % 100) s (omega arith),
      )
      (some_read _ n s (omega arith))

pub read4-pad4 : (n : ℕ) (s : String) → n ≤ 9999 → read4 (pad4 n s) ≡ some (n, s)
unfolding read4 pad4
read4-pad4 n s h =
    rw (read2-pad2 (n / 100) (pad2 (n % 100) s) (omega arith), read2-pad2 (n % 100) s (omega arith))
      (some_read _ n s (omega arith))
