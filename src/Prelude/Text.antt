-- ===== src/Prelude/Text.antt =====
-- What the source does with texts through the standard library: formatting of numbers and the test
-- `trim().is_empty()`.
pub mod Decimal
use Prim.Native.Nat.{ℕ, zero, suc, ◌+◌, ◌/◌, ◌%◌}
use Prim.Native.Char.{Char, code}
use Prim.Native.String.{String, ◌++◌, slice}
use mathlib.Core.Bool.{Bool, true, false, ◌&&◌, ◌||◌}
use peeps.Prelude.Tests.{ltb, leb, ◌==◌, if◌then◌else◌}

-- One digit, of 16.
abbrev digit_text : ℕ → String
digit_text d = slice "0123456789abcdef" d (d + 1)

-- The digits of `n` before `rest`, on fuel: one more than `n` is enough.
digits_text : ℕ → ℕ → ℕ → String → String
digits_text zero radix n rest = rest
digits_text (suc fuel) radix n rest =
    let more = digits_text fuel radix (n / radix) (digit_text (n % radix) ++ rest) in
    if ltb n radix then digit_text n ++ rest else more

-- `format!("{n}")`.
unfoldable pub decimal : ℕ → String
unfolding digits_text
decimal n = digits_text (suc n) 10 n ""

-- `format!("{n:x}")`.
unfoldable pub hexadecimal : ℕ → String
unfolding digits_text
hexadecimal n = digits_text (suc n) 16 n ""

abbrev pub concat : String → String → String
concat s t = s ++ t

-- `char::is_whitespace`: the Unicode property `White_Space`.
abbrev is_whitespace : ℕ → Bool
is_whitespace c =
    (leb 0x9 c && leb c 0xD)
    || c == 0x20
    || c == 0x85
    || c == 0xA0
    || c == 0x1680
    || (leb 0x2000 c && leb c 0x200A)
    || c == 0x2028
    || c == 0x2029
    || c == 0x202F
    || c == 0x205F
    || c == 0x3000

-- `trim().is_empty()`.
unfoldable pub is_blank : String → Bool
is_blank String.[] = true
is_blank (String.◌∷◌ c s) = is_whitespace (code c) && is_blank s

-- `trim_start`, `trim_end` and `trim`.
unfoldable pub trim_start : String → String
trim_start String.[] = String.[]
trim_start (String.◌∷◌ c s) =
    let rest = trim_start s in if is_whitespace (code c) then rest else String.◌∷◌ c s

abbrev cons_unless_blank : Char → String → String
cons_unless_blank c String.[] = if is_whitespace (code c) then String.[] else String.◌∷◌ c String.[]
cons_unless_blank c (String.◌∷◌ d s) = String.◌∷◌ c (String.◌∷◌ d s)

unfoldable pub trim_end : String → String
trim_end String.[] = String.[]
trim_end (String.◌∷◌ c s) = cons_unless_blank c (trim_end s)

unfoldable pub trim : String → String
unfolding trim_start trim_end
trim s = trim_end (trim_start s)

-- `is_empty` of a text.
abbrev pub is_empty : String → Bool
is_empty String.[] = true
is_empty (String.◌∷◌ c s) = false

-- `is_ascii_alphabetic` and `is_ascii_alphanumeric`.
abbrev pub is_ascii_alphabetic : ℕ → Bool
is_ascii_alphabetic c = (leb b'a' c && leb c b'z') || (leb b'A' c && leb c b'Z')

abbrev pub is_ascii_alphanumeric : ℕ → Bool
is_ascii_alphanumeric c = is_ascii_alphabetic c || (leb b'0' c && leb c b'9')

-- `Path::is_absolute` on Unix.
unfoldable pub is_absolute : String → Bool
is_absolute String.[] = false
is_absolute (String.◌∷◌ c s) = code c == b'/'
