-- ===== src/Types/OpaqueId.antt =====
-- crates/moire-types/src/primitives.rs: the textual identifiers, 16 digits in the `moire-hex`
-- alphabet. A text is the list of its bytes here.
use mathlib.Core.Path.{ap₂}
use native.Mathlib.Nat.{pow-suc, mod-lt, mod-eq_of_lt, mul-add-mod_self_right, div-add-mod'}
use peeps.Prelude.{
  ℕ, zero, suc, ◌+◌, ◌*◌, ◌/◌, ◌%◌, ◌^◌, ◌≤◌, ◌<◌, ◌≡◌, ap, sym, ◌∙◌, pow-pos, List, [], ◌∷◌, arith,
  ◌==◌, bit_or, bit_and, bit_or-eq-add, bit_and_mask, if◌then◌else◌, ltb,
}

-- `DIGITS[n]`, "0123456789pesPES".
abbrev pub digit : ℕ → ℕ
digit n =
    if ltb n 10
    then b'0' + n
    else if n == 10
    then b'p'
    else if n == 11
    then b'e'
    else if n == 12
    then b's'
    else if n == 13
    then b'P'
    else if n == 14
    then b'E'
    else b'S'

-- `MoireHex::fmt`: `remaining` more digits, from the shift `4 * (remaining - 1)` down to 0.
unfoldable pub moire_hex_from : ℕ → ℕ → List ℕ
moire_hex_from zero raw = []
moire_hex_from (suc remaining) raw =
    digit (raw / 2 ^ (4 * remaining) % 16) ∷ moire_hex_from remaining raw

unfoldable pub moire_hex : ℕ → List ℕ
moire_hex raw = moire_hex_from 16 raw

-- `next_opaque_id`, with the process prefix and the value that `fetch_add` returned; the second
-- component is the counter that it leaves.
unfoldable pub next_opaque_id : ℕ → ℕ → List ℕ × ℕ
unfolding moire_hex moire_hex_from
next_opaque_id prefix counter = (
  moire_hex (bit_or (prefix * 2 ^ 48) (bit_and counter 0x0000_FFFF_FFFF_FFFF)),
  (counter + 1) % 2 ^ 64,
)

digit-injective : (m n : ℕ) → m < 16 → n < 16 → digit m ≡ digit n → m ≡ n
digit-injective m n hm hn e = ground arith

mod_split : (a p : ℕ) → 0 < p → a % (p * 16) ≡ a / p % 16 * p + a % p
mod_split a p h =
    let q = a / p in
    let digits : q ≡ q / 16 * 16 + q % 16 = omega arith in
    let whole : q / 16 * (p * 16) + (q % 16 * p + a % p) ≡ a =
      omega (arith, div-add-mod' a p, ap (λ (t : ℕ). t * p) digits) in
    let low : a % p < p = mod-lt a h in
    let high : q % 16 * p ≤ 15 * p = grind arith in
    ap (λ (t : ℕ). t % (p * 16)) (sym whole)
    ∙ mul-add-mod_self_right (q / 16) (p * 16) (q % 16 * p + a % p)
    ∙ mod-eq_of_lt (omega arith)

-- One more digit is a factor 16.
pow_digit : (k : ℕ) → 2 ^ (4 * suc k) ≡ 2 ^ (4 * k) * 16
pow_digit k =
    let n = 4 * k in
    ap (λ (t : ℕ). 2 ^ t) (shift k)
    ∙ omega (
      arith,
      pow-suc 2 (suc (suc (suc n))),
      pow-suc 2 (suc (suc n)),
      pow-suc 2 (suc n),
      pow-suc 2 n,
    )
  where
    shift : (j : ℕ) → 4 * suc j ≡ suc (suc (suc (suc (4 * j))))
    shift j = omega arith

-- Equal texts of `k` digits have equal low `4 * k` bits.
digits_low :
    (k a b : ℕ) → moire_hex_from k a ≡ moire_hex_from k b → a % 2 ^ (4 * k) ≡ b % 2 ^ (4 * k)
unfolding moire_hex_from
digits_low zero a b e = omega arith
digits_low (suc k) a b e =
    let p = 2 ^ (4 * k) in
    let rest = digits_low k a b (cc) in
    let top : a / p % 16 ≡ b / p % 16 = digit-injective _ _ (omega arith) (omega arith) (cc) in
    rw pow_digit (
      mod_split a p (pow-pos (4 * k))
      ∙ ap₂ (λ (s t : ℕ). s * p + t) top rest
      ∙ sym (mod_split b p (pow-pos (4 * k))))

-- Distinct 64-bit numbers have distinct texts.
moire_hex-injective : (a b : ℕ) → a < 2 ^ 64 → b < 2 ^ 64 → moire_hex a ≡ moire_hex b → a ≡ b
unfolding moire_hex
moire_hex-injective a b ha hb e = omega (arith, digits_low 16 a b e)

-- Within one process, identifiers drawn at different counters below 2^48 have different texts,
-- whatever the 16-bit prefix.
pub next_opaque_id-injective :
    (prefix c d : ℕ)
    → prefix < 2 ^ 16
    → c < 2 ^ 48
    → d < 2 ^ 48
    → (next_opaque_id prefix c).0 ≡ (next_opaque_id prefix d).0
    → c ≡ d
unfolding next_opaque_id
next_opaque_id-injective prefix c d hp hc hd e =
    let hex =
      moire_hex-injective (prefix * 2 ^ 48 + c) (prefix * 2 ^ 48 + d) (omega arith) (omega arith) in
    let same : moire_hex (prefix * 2 ^ 48 + c) ≡ moire_hex (prefix * 2 ^ 48 + d) =
      rw (← raw c hc, ← raw d hd) e in
    omega (arith, hex same)
  where
    raw :
        (n : ℕ)
        → n < 2 ^ 48
        → bit_or (prefix * 2 ^ 48) (bit_and n 0x0000_FFFF_FFFF_FFFF) ≡ prefix * 2 ^ 48 + n
    raw n h =
        let low : bit_and n 0x0000_FFFF_FFFF_FFFF ≡ n = omega (arith, bit_and_mask 48 n) in
        rw low (bit_or-eq-add 48 prefix n h)
