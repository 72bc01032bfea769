-- ===== src/Prelude/Decimal.antt =====
-- Decimal numbers: `%d` of fmt.Sprintf and of fmt.Sscanf, at the type int of 64 bits.
use mountain_king.Prelude.{
  ℕ, zero, suc, ◌+◌, ◌-◌, ◌*◌, ◌/◌, ◌%◌, ◌^◌, ◌≤◌, ◌<◌, ◌≡◌, ◌≢◌, ◌∙◌, refl, Bool, true, false, not,
  ◌||◌, Option, none, some, [], ◌∷◌, arith, Bytes, ltb, leb, ◌==◌, if◌then◌else◌, all, is_digit,
}
use mountain_king.Prelude.Int.{ℤ, pos, negsuc}

-- The digits of `n` in front of `out`; as many rounds as `n` are enough.
unfoldable pub digits_from : ℕ → ℕ → Bytes → Bytes
digits_from zero n out = (b'0' + n % 10) ∷ out
digits_from (suc fuel) n out =
    let rest = digits_from fuel (n / 10) ((b'0' + n % 10) ∷ out) in
    if ltb n 10 then (b'0' + n) ∷ out else rest

unfoldable pub format_nat : ℕ → Bytes
unfolding digits_from
format_nat n = digits_from n n []

-- `fmt.Sprintf("%d", z)`.
unfoldable pub format_int : ℤ → Bytes
unfolding format_nat
format_int (pos n) = format_nat n
format_int (negsuc n) = b'-' ∷ format_nat (suc n)

-- `SkipSpace`, on ASCII text; a newline is an error.
unfoldable pub skip_space : Bytes → Option Bytes
skip_space [] = some []
skip_space (c ∷ s) =
    let rest = skip_space s in
    if c == 10
    then none
    else if c == b' ' || (c == 9 || (c == 11 || (c == 12 || c == 13)))
    then rest
    else some (c ∷ s)

-- The number that the leading digits spell behind `acc`.
unfoldable pub digits_value : ℕ → Bytes → ℕ
digits_value acc [] = acc
digits_value acc (c ∷ s) =
    let rest = digits_value (acc * 10 + (c - b'0')) s in if is_digit c then rest else acc

-- `scanNumber` and `ParseInt`; `negative` tells whether a minus stood in front.
scan_number : Bool → Bytes → Option ℤ
unfolding digits_value
scan_number negative [] = none
scan_number negative (c ∷ s) =
    let n = digits_value 0 (c ∷ s) in
    if not (is_digit c)
    then none
    else if negative
    then (if leb n (2 ^ 63) then some (if n == 0 then pos 0 else negsuc (n - 1)) else none)
    else if ltb n (2 ^ 63)
    then some (pos n)
    else none

scan_sign : Bytes → Option ℤ
unfolding scan_number
scan_sign [] = none
scan_sign (c ∷ s) =
    if c == b'-'
    then scan_number true s
    else if c == b'+'
    then scan_number false s
    else scan_number false (c ∷ s)

-- `fmt.Sscanf(s, "%d", &n)`: the number, or `none` for an error. What follows it is not read.
unfoldable pub sscanf_int : Bytes → Option ℤ
unfolding skip_space scan_sign
sscanf_int s = elim (skip_space s) [ none ↦ none | some rest ↦ scan_sign rest ]

digits_from-digits :
    (fuel n : ℕ) (out : Bytes)
    → all is_digit out ≡ true
    → all is_digit (digits_from fuel n out) ≡ true
unfolding digits_from
digits_from-digits zero n out h = ground arith
digits_from-digits (suc fuel) n out h =
    ground (arith, digits_from-digits fuel (n / 10) ((b'0' + n % 10) ∷ out))

pub format_nat-digits : (n : ℕ) → all is_digit (format_nat n) ≡ true
unfolding format_nat
format_nat-digits n = digits_from-digits n n [] refl

digits_value-digits_from :
    (fuel n : ℕ) (out : Bytes)
    → n ≤ fuel
    → digits_value 0 (digits_from fuel n out) ≡ digits_value n out
unfolding digits_from digits_value
digits_value-digits_from zero n out h = ground arith
digits_value-digits_from (suc fuel) n out h =
    ground (arith, digits_value-digits_from fuel (n / 10) ((b'0' + n % 10) ∷ out))

sscanf_int-digits :
    (s : Bytes) (n : ℕ)
    → s ≢ []
    → all is_digit s ≡ true
    → digits_value 0 s ≡ n
    → n < 2 ^ 63
    → sscanf_int s ≡ some (pos n)
unfolding sscanf_int
sscanf_int-digits [] n e h v b = absurd (e refl)
sscanf_int-digits (c ∷ s) n e h v b = ground arith

digits_from-ne-nil : (fuel n : ℕ) (out : Bytes) → digits_from fuel n out ≢ []
unfolding digits_from
digits_from-ne-nil zero n out = ground arith
digits_from-ne-nil (suc fuel) n out =
    ground (arith, digits_from-ne-nil fuel (n / 10) ((b'0' + n % 10) ∷ out))

-- A number that fits in an int is read back from its print.
pub sscanf_int-format_nat : (n : ℕ) → n < 2 ^ 63 → sscanf_int (format_nat n) ≡ some (pos n)
unfolding format_nat
sscanf_int-format_nat n b =
    sscanf_int-digits (digits_from n n []) n (digits_from-ne-nil n n [])
      (digits_from-digits n n [] refl)
      (digits_value-digits_from n n [] (omega arith) ∙ unfold digits_value in refl) b
