-- ===== src/Browser/Format.antt =====
-- `formatAmount`, `stroopsToXlm` and `totalWithFee` of frontend/src/lib/format.ts.
pub mod Shown
pub mod Value
use afri_pay.Base.{
  ℕ, ◌+◌, ◌%◌, Bool, true, false, not, ◌&&◌, List, [], ◌∷◌, ◌++◌, Option, none, some, Text, codes,
  is_empty, leb, ◌==◌, if◌then◌else◌, length, all, split,
}
use afri_pay.Stellar.Amount.{
  is_digit, span_digits, is_decimal, big_int, pad_end, units, whole_part, fraction_part,
}
use afri_pay.Stellar.Amount.Decimal.{drop_zeros}
use afri_pay.Browser.Print.{units_to_decimal}

-- `(\.\d+)?$`
abbrev pub is_any_fraction : Text → Bool
is_any_fraction [] = true
is_any_fraction (c ∷ f) = c == b'.' && leb 1 (length f) && all is_digit f

abbrev pub starts_negative : Text → Bool
starts_negative [] = false
starts_negative (c ∷ s) = c == b'-'

-- `value.replace('-', '')`, where a sign stands in front only.
abbrev pub unsigned : Text → Text
unsigned [] = []
unsigned (c ∷ s) = if c == b'-' then s else c ∷ s

-- `/^-?\d+(\.\d+)?$/`
unfoldable pub is_number : Text → Bool
unfolding span_digits is_digit
is_number value =
    let (run, rest) = span_digits (unsigned value) in leb 1 (length run) && is_any_fraction rest

-- `whole.replace(/^0+(?=\d)/, '')` of digits.
unfoldable pub strip_zeros : Text → Text
strip_zeros [] = []
strip_zeros (c ∷ []) = c ∷ []
strip_zeros (c ∷ d ∷ s) = let rest = strip_zeros (d ∷ s) in if c == b'0' then rest else c ∷ d ∷ s

-- A comma comes before each group of three digits, but not in front.
abbrev pub before_comma : Text → Bool
before_comma s = not (is_empty s) && length s % 3 == 0

-- `.replace(/\B(?=(\d{3})+(?!\d))/g, ',')` of digits.
unfoldable pub group : Text → Text
group [] = []
group (c ∷ s) = let rest = group s in if before_comma s then c ∷ b',' ∷ rest else c ∷ rest

abbrev pub sign_of : Text → Text
sign_of value = if starts_negative value then b'-' ∷ [] else []

-- The text of a value that is a number.
unfoldable pub format_number : Text → Text
unfolding split strip_zeros group drop_zeros pad_end
format_number value =
    let parts = split b'.' (unsigned value) in
    sign_of value
    ++ group (strip_zeros (whole_part parts))
    ++ b'.' ∷ pad_end 2 (drop_zeros (fraction_part parts))

unfoldable pub format_amount : Option Text → Text
unfolding is_number format_number
format_amount none = codes "0.00"
format_amount (some value) =
    if is_empty value
    then codes "0.00"
    else if is_number value
    then format_number value
    else codes "0.00"

-- `/^\d+$/`
abbrev pub is_natural : Text → Bool
is_natural s = leb 1 (length s) && all is_digit s

unfoldable pub stroops_to_xlm : Text → Text
unfolding format_amount units_to_decimal
stroops_to_xlm stroops =
    if is_natural stroops
    then format_amount (some (units_to_decimal (big_int stroops)))
    else stroops

unfoldable pub total_with_fee : Text → Text → Option Text
unfolding format_amount units_to_decimal
total_with_fee amount fee =
    if is_decimal 12 7 amount && is_natural fee
    then some (format_amount (some (units_to_decimal (units amount + big_int fee))))
    else none
