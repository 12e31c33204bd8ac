-- ===== src/Stellar/Amount.antt =====
-- Decimal amounts: the regular expressions of the program, and `stroops` of
-- backend/src/stellar/payment-validation.ts.
pub mod Digits
pub mod Decimal
pub mod Value
use afri_pay.Base.{
  ℕ, zero, suc, ◌+◌, ◌-◌, ◌*◌, Bool, true, ◌&&◌, List, [], ◌∷◌, Text, Result, ok, err, bad_request,
  leb, ◌==◌, if◌then◌else◌, length, all, split,
}

-- `\d`.
unfoldable pub is_digit : ℕ → Bool
is_digit c = leb b'0' c && leb c b'9'

-- The longest run of digits at the front, and the rest.
unfoldable pub span_digits : Text → Text × Text
unfolding is_digit
span_digits [] = ([], [])
span_digits (c ∷ s) =
    let (run, rest) = span_digits s in if is_digit c then (c ∷ run, rest) else ([], c ∷ s)

-- `(\.\d{1,most})?$`.
unfoldable pub is_fraction : ℕ → Text → Bool
unfolding is_digit
is_fraction most [] = true
is_fraction most (c ∷ f) = c == b'.' && leb 1 (length f) && leb (length f) most && all is_digit f

-- `/^\d{1,whole}(\.\d{1,most})?$/`. No digit is a dot, so the run of digits is read whole.
unfoldable pub is_decimal : ℕ → ℕ → Text → Bool
unfolding span_digits is_fraction
is_decimal whole most s =
    let (run, rest) = span_digits s in
    leb 1 (length run) && leb (length run) whole && is_fraction most rest

-- `BigInt(s)` for a string of digits.
pub big_int_from : ℕ → Text → ℕ
big_int_from acc [] = acc
big_int_from acc (c ∷ s) = big_int_from (acc * 10 + (c - b'0')) s

unfoldable pub big_int : Text → ℕ
unfolding big_int_from
big_int s = big_int_from 0 s

-- `s.padEnd(n, '0')`.
unfoldable pub pad_end : ℕ → Text → Text
pad_end zero s = s
pad_end (suc n) [] = b'0' ∷ pad_end n []
pad_end (suc n) (c ∷ s) = c ∷ pad_end n s

-- `const [whole, fraction = ''] = value.split('.')`.
abbrev pub whole_part : List Text → Text
whole_part [] = []
whole_part (whole ∷ parts) = whole

abbrev pub fraction_part : List Text → Text
fraction_part [] = []
fraction_part (whole ∷ []) = []
fraction_part (whole ∷ fraction ∷ parts) = fraction

-- `BigInt(whole) * BigInt(10000000) + BigInt(fraction.padEnd(7, '0'))`.
unfoldable pub units : Text → ℕ
unfolding split big_int pad_end
units value =
    let parts = split b'.' value in
    big_int (whole_part parts) * 10000000 + big_int (pad_end 7 (fraction_part parts))

unfoldable pub stroops : Text → Result ℕ
stroops value =
    if is_decimal 12 7 value then ok (units value) else err (bad_request "Invalid XLM amount")
