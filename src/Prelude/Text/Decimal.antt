-- ===== src/Prelude/Text/Decimal.antt =====
-- A number is read back from its decimal text.
use Prim.Native.Nat.{ℕ, zero, suc, ◌+◌, ◌-◌, ◌*◌, ◌/◌, ◌%◌, ◌<◌}
use Prim.Native.Char.{Char, code}
use Prim.Native.String.{String, ◌++◌}
use mathlib.Core.Path.{◌≡◌, sym, ap, ◌∙◌}
use mathlib.Core.Logic.{inl, inr}
use text.Mathlib.TextLemmas.{nil-append, cons-append}
use native.Mathlib.Omega.{arith}
use peeps.Prelude.Tests.{ltb, Bool-cases}
use peeps.Prelude.Text.{decimal, digits_text, digit_text}

-- The number that digits after others stand for.
abbrev pub read_digits : ℕ → String → ℕ
read_digits acc String.[] = acc
read_digits acc (String.◌∷◌ c s) = read_digits (acc * 10 + (code c - 48)) s

read_digits-cons :
    (c : Char) (acc : ℕ) (rest : String)
    → read_digits acc ((String.◌∷◌ c String.[]) ++ rest)
      ≡ read_digits (acc * 10 + (code c - 48)) rest
read_digits-cons c acc rest =
    ap (read_digits acc) (cons-append c String.[] rest ∙ ap (String.◌∷◌ c) (nil-append rest))

read_digits-digit_text :
    (acc d : ℕ) (rest : String)
    → d < 10
    → read_digits acc (digit_text d ++ rest) ≡ read_digits (acc * 10 + d) rest
read_digits-digit_text acc zero rest h = read_digits-cons "0" acc rest
read_digits-digit_text acc (suc zero) rest h = read_digits-cons "1" acc rest
read_digits-digit_text acc (suc (suc zero)) rest h = read_digits-cons "2" acc rest
read_digits-digit_text acc (suc (suc (suc zero))) rest h = read_digits-cons "3" acc rest
read_digits-digit_text acc (suc (suc (suc (suc zero)))) rest h = read_digits-cons "4" acc rest
read_digits-digit_text acc (suc (suc (suc (suc (suc zero))))) rest h = read_digits-cons "5" acc rest
read_digits-digit_text acc (suc (suc (suc (suc (suc (suc zero)))))) rest h =
    read_digits-cons "6" acc rest
read_digits-digit_text acc (suc (suc (suc (suc (suc (suc (suc zero))))))) rest h =
    read_digits-cons "7" acc rest
read_digits-digit_text acc (suc (suc (suc (suc (suc (suc (suc (suc zero)))))))) rest h =
    read_digits-cons "8" acc rest
read_digits-digit_text acc (suc (suc (suc (suc (suc (suc (suc (suc (suc zero))))))))) rest h =
    read_digits-cons "9" acc rest
read_digits-digit_text acc (suc (suc (suc (suc (suc (suc (suc (suc (suc (suc d)))))))))) rest h =
    absurd (omega (arith, h))

read_digits-digits_text :
    (fuel n : ℕ) (rest : String)
    → n < fuel
    → read_digits 0 (digits_text fuel 10 n rest) ≡ read_digits n rest
unfolding digits_text
read_digits-digits_text zero n rest h = absurd (omega (arith, h))
read_digits-digits_text (suc fuel) n rest h = elim (Bool-cases (ltb n 10)) [
  | inl small ↦
      rw (small, digits_text)
        (read_digits-digit_text 0 n rest (ground arith)
          ∙ ap (λ m. read_digits m rest) (omega arith))
  | inr large ↦
      rw (large, digits_text)
        (read_digits-digits_text fuel (n / 10) (digit_text (n % 10) ++ rest) (ground arith)
          ∙ read_digits-digit_text (n / 10) (n % 10) rest (omega arith)
          ∙ ap (λ m. read_digits m rest) (omega arith))
]

pub read_digits-decimal : (n : ℕ) → read_digits 0 (decimal n) ≡ n
unfolding decimal
read_digits-decimal n = read_digits-digits_text (suc n) n "" (omega arith)

pub decimal-injective : (m n : ℕ) → decimal m ≡ decimal n → m ≡ n
decimal-injective m n e = sym (read_digits-decimal m) ∙ ap (read_digits 0) e ∙ read_digits-decimal n
