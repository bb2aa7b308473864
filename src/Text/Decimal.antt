-- ===== src/Text/Decimal.antt =====
-- `strconv.FormatInt(n, 10)` of a number, and `strconv.Atoi`.
use postgreslet.Prelude.{
  ℕ, zero, suc, ◌+◌, ◌-◌, ◌*◌, ◌/◌, ◌%◌, ◌^◌, ◌<◌, ◌≡◌, Option, none, some, [], ◌∷◌, arith, ltb,
  ◌==◌, if◌then◌else◌,
}
use postgreslet.Prelude.Int.{ℤ, pos, negsuc}
use postgreslet.Text.{Text, is_digit}

-- The digits of `n` in front of `acc`. A number below the fuel has its digits printed.
pub digits_onto : ℕ → ℕ → Text → Text
digits_onto zero n acc = acc
digits_onto (suc fuel) n acc =
    let more = digits_onto fuel (n / 10) ((b'0' + n % 10) ∷ acc) in
    if ltb n 10 then (b'0' + n) ∷ acc else more

unfoldable pub format_int : ℕ → Text
unfolding digits_onto
format_int n = digits_onto (suc n) n []

unfoldable pub parse_digits : ℕ → Text → Option ℕ
parse_digits n [] = some n
parse_digits n (c ∷ s) =
    let more = parse_digits (n * 10 + (c - b'0')) s in if is_digit c then more else none

-- An `int` has 64 bits; what is out of its range is an error.
abbrev negated : ℕ → Option ℤ
negated zero = some (pos 0)
negated (suc n) = if ltb n (2 ^ 63) then some (negsuc n) else none

abbrev in_range : ℕ → Option ℤ
in_range n = if ltb n (2 ^ 63) then some (pos n) else none

-- At least one digit.
abbrev parse_nonempty : Text → Option ℕ
parse_nonempty [] = none
parse_nonempty (c ∷ s) = parse_digits 0 (c ∷ s)

-- A sign, then digits.
unfoldable pub atoi : Text → Option ℤ
unfolding parse_digits
atoi [] = none
atoi (c ∷ s) =
    if c == b'-'
    then elim (parse_nonempty s) [ none ↦ none | some n ↦ negated n ]
    else if c == b'+'
    then elim (parse_nonempty s) [ none ↦ none | some n ↦ in_range n ]
    else elim (parse_digits 0 (c ∷ s)) [ none ↦ none | some n ↦ in_range n ]

parse-digits_onto :
    (fuel n : ℕ) (acc : Text)
    → n < fuel
    → parse_digits 0 (digits_onto fuel n acc) ≡ parse_digits n acc
unfolding digits_onto parse_digits
parse-digits_onto zero n acc h = elim h [ ]
parse-digits_onto (suc fuel) n acc h =
    ground (arith, parse-digits_onto fuel (n / 10) ((b'0' + n % 10) ∷ acc))

-- Reading the digits of a number gives the number.
pub parse_digits-format_int : (n : ℕ) → parse_digits 0 (format_int n) ≡ some n
unfolding format_int parse_digits
parse_digits-format_int n = parse-digits_onto (suc n) n [] (omega arith)
