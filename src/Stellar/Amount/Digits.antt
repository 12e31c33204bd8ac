-- ===== src/Stellar/Amount/Digits.antt =====
-- Runs of digits: the number that they stand for, and how the scans of `stroops` meet them.
use native.Mathlib.Nat.{pow-suc, add-zero, add-suc, one-le-pow}
use afri_pay.Base.{
  ℕ, zero, suc, ◌+◌, ◌-◌, ◌*◌, ◌^◌, ◌≤◌, ◌<◌, ◌≡◌, refl, ap, ◌∙◌, true, [], ◌∷◌, ◌++◌, arith, Text,
  length, all,
}
use afri_pay.Stellar.Amount.{is_digit, span_digits, big_int_from, big_int, pad_end}

-- The number that digits stand for, the first one the most significant.
unfoldable pub value : Text → ℕ
value [] = 0
value (c ∷ s) = (c - b'0') * 10 ^ length s + value s

big_int_from_lem : (acc : ℕ) (s : Text) → big_int_from acc s ≡ acc * 10 ^ length s + value s
unfolding big_int_from value
big_int_from_lem acc [] = omega arith
big_int_from_lem acc (c ∷ s) =
    rw (big_int_from_lem (acc * 10 + (c - b'0')) s, pow-suc) (grind arith)

pub big_int-eq-value : (s : Text) → big_int s ≡ value s
unfolding big_int
big_int-eq-value s = rw (big_int_from_lem 0 s) (omega arith)

lead_lt : (d v p : ℕ) → d ≤ 9 → v < p → d * p + v < p * 10
lead_lt d v p h k = grind arith

-- A run of digits stands for less than the power of ten of its length.
pub value-lt : (s : Text) → all is_digit s ≡ true → value s < 10 ^ length s
unfolding value is_digit
value-lt [] h = omega arith
value-lt (c ∷ s) h =
    let digit : c - b'0' ≤ 9 = ground arith in
    rw pow-suc (lead_lt (c - b'0') (value s) (10 ^ length s) digit (value-lt s (ground arith)))

pub pow_add : (a b : ℕ) → 10 ^ (a + b) ≡ 10 ^ a * 10 ^ b
pow_add a zero = rw add-zero (omega arith)
pow_add a (suc b) = rw (add-suc, pow-suc) (rw (pow_add a b) (rw pow-suc (grind arith)))

length-pad_end : (n : ℕ) (s : Text) → length s ≤ n → length (pad_end n s) ≡ n
unfolding pad_end
length-pad_end zero [] h = refl
length-pad_end zero (c ∷ s) h = absurd (omega arith)
length-pad_end (suc n) [] h = omega (arith, length-pad_end n [])
length-pad_end (suc n) (c ∷ s) h = omega (arith, length-pad_end n s)

-- Padding on the right multiplies by a power of ten.
pub value-pad_end :
    (n : ℕ) (s : Text) → length s ≤ n → value (pad_end n s) ≡ value s * 10 ^ (n - length s)
unfolding value pad_end
value-pad_end zero [] h = omega arith
value-pad_end zero (c ∷ s) h = absurd (omega arith)
value-pad_end (suc n) [] h = omega (arith, value-pad_end n [] (omega arith))
value-pad_end (suc n) (c ∷ s) h =
    let short : length s ≤ n = omega arith in
    let shift : suc n - suc (length s) ≡ n - length s = omega arith in
    let whole : 10 ^ n ≡ 10 ^ length s * 10 ^ (n - length s) =
      ap (λ k. 10 ^ k) (omega arith) ∙ pow_add (length s) (n - length s) in
    rw (length-pad_end n s short, value-pad_end n s short, shift, whole) (omega arith)

scale_lt : (v p q : ℕ) → v < p → 1 ≤ q → v * q < p * q
scale_lt v p q h k = grind arith

-- Digits after the dot, counted in units of 10^-n, make less than one whole.
pub scaled-lt :
    (n : ℕ) (f : Text)
    → all is_digit f ≡ true
    → length f ≤ n
    → value f * 10 ^ (n - length f) < 10 ^ n
scaled-lt n f h short =
    let whole : 10 ^ n ≡ 10 ^ length f * 10 ^ (n - length f) =
      ap (λ k. 10 ^ k) (omega arith) ∙ pow_add (length f) (n - length f) in
    rw whole (
      scale_lt (value f) (10 ^ length f) (10 ^ (n - length f)) (value-lt f h)
        (one-le-pow (n - length f) 10 (omega arith)))

pub span_digits-append :
    (w r : Text) → all is_digit w ≡ true → span_digits r ≡ ([], r) → span_digits (w ++ r) ≡ (w, r)
unfolding span_digits
span_digits-append [] r h e = e
span_digits-append (c ∷ w) r h e = ground (arith, span_digits-append w r)

pub span_digits_parts :
    (s : Text)
    → (s ≡ (span_digits s).0 ++ (span_digits s).1) × (all is_digit (span_digits s).0 ≡ true)
unfolding span_digits
span_digits_parts [] = (refl, refl)
span_digits_parts (c ∷ s) = ground (arith, span_digits_parts s)
