-- ===== src/Browser/Format/Value.antt =====
-- Reading back what `formatAmount` and `totalWithFee` of frontend/src/lib/format.ts show.
use mathlib.Core.List.{append-nil}
use afri_pay.Base.{
  ℕ, ◌+◌, ◌^◌, ◌≤◌, ◌<◌, ◌≡◌, refl, ap, ◌∙◌, subst, true, [], ◌∷◌, ◌++◌, some, arith, Text, length,
  all, ok, split-lacks, split-append,
}
use afri_pay.Stellar.Amount.{is_digit, span_digits, pad_end, stroops, is_decimal, units, big_int}
use afri_pay.Stellar.Amount.Digits.{value, span_digits-append}
use afri_pay.Stellar.Amount.Decimal.{drop_zeros}
use afri_pay.Stellar.Amount.Value.{Denotes, stroops_iff, digits-lacks}
use afri_pay.Browser.Print.{units_to_decimal, stroops-units_to_decimal}
use afri_pay.Browser.Format.{
  is_number, strip_zeros, group, format_number, format_amount, is_natural, total_with_fee,
}
use afri_pay.Browser.Format.Shown.{
  without_commas, shown, shown-Denotes, unsigned-digit, sign_of-digit,
}

is_number-plain : (c : ℕ) (w : Text) → all is_digit (c ∷ w) ≡ true → is_number (c ∷ w) ≡ true
unfolding is_number
is_number-plain c w h =
    let run : span_digits (c ∷ w) ≡ (c ∷ w, []) =
      subst (λ t. span_digits t ≡ (c ∷ w, [])) (append-nil (c ∷ w))
        (span_digits-append (c ∷ w) [] h refl) in
    rw (unsigned-digit c w (ground (arith, h))) (rw run (ground arith))

is_number-pointed :
    (c : ℕ) (w f : Text)
    → all is_digit (c ∷ w) ≡ true
    → all is_digit f ≡ true
    → 1 ≤ length f
    → is_number (c ∷ w ++ b'.' ∷ f) ≡ true
unfolding is_number
is_number-pointed c w f h k one =
    rw (unsigned-digit c (w ++ b'.' ∷ f) (ground (arith, h)))
      (rw (span_digits-append (c ∷ w) (b'.' ∷ f) h refl) (ground (arith, k)))

format_number-plain :
    (c : ℕ) (w : Text)
    → all is_digit (c ∷ w) ≡ true
    → format_number (c ∷ w) ≡ group (strip_zeros (c ∷ w)) ++ b'.' ∷ pad_end 2 (drop_zeros [])
unfolding format_number
format_number-plain c w h =
    let digit : is_digit c ≡ true = ground (arith, h) in
    rw
      (
        unsigned-digit c w digit,
        sign_of-digit c w digit,
        split-lacks b'.' (c ∷ w) (digits-lacks (c ∷ w) h),
      )
      refl

format_number-pointed :
    (c : ℕ) (w f : Text)
    → all is_digit (c ∷ w) ≡ true
    → all is_digit f ≡ true
    → format_number (c ∷ w ++ b'.' ∷ f)
      ≡ group (strip_zeros (c ∷ w)) ++ b'.' ∷ pad_end 2 (drop_zeros f)
unfolding format_number
format_number-pointed c w f h k =
    let digit : is_digit c ≡ true = ground (arith, h) in
    rw
      (
        unsigned-digit c (w ++ b'.' ∷ f) digit,
        sign_of-digit c (w ++ b'.' ∷ f) digit,
        split-append b'.' (c ∷ w) f (digits-lacks (c ∷ w) h),
        split-lacks b'.' f (digits-lacks f k),
      )
      refl

format_amount-number :
    (c : ℕ) (s : Text)
    → is_number (c ∷ s) ≡ true
    → format_amount (some (c ∷ s)) ≡ format_number (c ∷ s)
unfolding format_amount
format_amount-number c s h = rw h refl

value-nil : value [] ≡ 0
unfolding value
value-nil = refl

reads_back :
    (s : Text) (v : ℕ) → Denotes s v → stroops (without_commas (format_amount (some s))) ≡ ok v
reads_back s v (Denotes.plain [] h one short e counted) = absurd (omega (arith, one))
reads_back s v (Denotes.plain (c ∷ w) h one short e counted) =
    ap (λ x. stroops (without_commas (format_amount (some x)))) e
    ∙ ap (λ x. stroops (without_commas x))
        (format_amount-number c w (is_number-plain c w h) ∙ format_number-plain c w h)
    ∙ ap stroops (shown c w [] h refl)
    ∙ shown-Denotes c w [] v h short refl (omega arith) (counted ∙ rw value-nil (omega arith))
reads_back s v (Denotes.pointed [] f h one short k few most e counted) = absurd (omega (arith, one))
reads_back s v (Denotes.pointed (c ∷ w) f h one short k few most e counted) =
    ap (λ x. stroops (without_commas (format_amount (some x)))) e
    ∙ ap (λ x. stroops (without_commas x))
        (format_amount-number c (w ++ b'.' ∷ f) (is_number-pointed c w f h k few)
          ∙ format_number-pointed c w f h k)
    ∙ ap stroops (shown c w f h k)
    ∙ shown-Denotes c w f v h short k most counted

-- An amount that `stroops` reads as a number of units is shown by `formatAmount` as a text that,
-- without its commas, `stroops` reads as the same number.
pub stroops-format_amount :
    (s : Text) (v : ℕ) → stroops s ≡ ok v → stroops (without_commas (format_amount (some s))) ≡ ok v
stroops-format_amount s v h = reads_back s v ((stroops_iff s v).0 h)

stroops_parts :
    (amount : Text) (u : ℕ)
    → stroops amount ≡ ok u
    → (is_decimal 12 7 amount ≡ true) × (units amount ≡ u)
unfolding stroops
stroops_parts amount u h = (ground (arith, h), ground (arith, h))

total_with_fee-some :
    (amount fee : Text) (u : ℕ)
    → is_decimal 12 7 amount ≡ true
    → is_natural fee ≡ true
    → units amount ≡ u
    → total_with_fee amount fee ≡ some (format_amount (some (units_to_decimal (u + big_int fee))))
unfolding total_with_fee
total_with_fee-some amount fee u d n e =
    rw (d, n) (ap (λ x. some (format_amount (some (units_to_decimal (x + big_int fee))))) e)

-- For an amount that `stroops` reads and a fee in digits, if their sum in units is below 10^19,
-- `totalWithFee` shows a text that, without its commas, `stroops` reads as that sum.
pub total_with_fee-value :
    (amount fee : Text) (u : ℕ)
    → stroops amount ≡ ok u
    → is_natural fee ≡ true
    → u + big_int fee < 10 ^ 19
    → (shown : Text) × (total_with_fee amount fee ≡ some shown)
      × (stroops (without_commas shown) ≡ ok (u + big_int fee))
total_with_fee-value amount fee u h natural small =
    let parts = stroops_parts amount u h in
    let sum = units_to_decimal (u + big_int fee) in
    (
      format_amount (some sum),
      total_with_fee-some amount fee u parts.0 natural parts.1,
      stroops-format_amount sum (u + big_int fee)
          (stroops-units_to_decimal (u + big_int fee) small),
    )
