-- ===== src/Browser/Print.antt =====
-- `unitsToDecimal` of frontend/src/lib/format.ts.
use afri_pay.Base.{
  ℕ, zero, suc, ◌+◌, ◌-◌, ◌*◌, ◌^◌, ◌≤◌, ◌<◌, ◌≡◌, refl, sym, ap, ◌∙◌, true, [], ◌∷◌, ◌++◌, arith,
  Text, length, all, ok,
}
use afri_pay.Stellar.Amount.{is_digit, stroops}
use afri_pay.Stellar.Amount.Digits.{value}
use afri_pay.Stellar.Amount.Decimal.{
  decimal, decimal_from, decimal_from-value, decimal_from-digits, decimal_from-length, all-append,
  length-append, value-append,
}
use afri_pay.Stellar.Amount.Value.{Denotes, stroops_iff}

-- `s.padStart(n, '0')`.
pub zeros : ℕ → Text
zeros zero = []
zeros (suc n) = b'0' ∷ zeros n

unfoldable pub pad_start : ℕ → Text → Text
unfolding zeros
pad_start n s = zeros (n - length s) ++ s

-- `s.slice(0, k)` and `s.slice(k)`.
unfoldable pub front : ℕ → Text → Text
front zero s = []
front (suc k) [] = []
front (suc k) (c ∷ s) = c ∷ front k s

unfoldable pub back : ℕ → Text → Text
back zero s = s
back (suc k) [] = []
back (suc k) (c ∷ s) = back k s

-- `unitsToDecimal`: an index from the end is one from the front, since 8 characters are there.
unfoldable pub units_to_decimal : ℕ → Text
unfolding decimal pad_start front back
units_to_decimal units =
    let padded = pad_start 8 (decimal units) in
    front (length padded - 7) padded ++ b'.' ∷ back (length padded - 7) padded

front-back : (k : ℕ) (s : Text) → front k s ++ back k s ≡ s
unfolding front back
front-back zero s = refl
front-back (suc k) [] = refl
front-back (suc k) (c ∷ s) = ap (λ t. c ∷ t) (front-back k s)

length-front : (k : ℕ) (s : Text) → k ≤ length s → length (front k s) ≡ k
unfolding front
length-front zero s h = refl
length-front (suc k) [] h = absurd (omega arith)
length-front (suc k) (c ∷ s) h = omega (arith, length-front k s)

digits-front : (k : ℕ) (s : Text) → all is_digit s ≡ true → all is_digit (front k s) ≡ true
unfolding front
digits-front zero s h = refl
digits-front (suc k) [] h = refl
digits-front (suc k) (c ∷ s) h = ground (arith, digits-front k s)

digits-back : (k : ℕ) (s : Text) → all is_digit s ≡ true → all is_digit (back k s) ≡ true
unfolding back
digits-back zero s h = h
digits-back (suc k) [] h = refl
digits-back (suc k) (c ∷ s) h = ground (arith, digits-back k s)

digits-zeros : (n : ℕ) → all is_digit (zeros n) ≡ true
unfolding zeros is_digit
digits-zeros zero = refl
digits-zeros (suc n) = digits-zeros n

length-zeros : (n : ℕ) → length (zeros n) ≡ n
unfolding zeros
length-zeros zero = refl
length-zeros (suc n) = omega (arith, length-zeros n)

value-zeros : (n : ℕ) → value (zeros n) ≡ 0
unfolding zeros value
value-zeros zero = refl
value-zeros (suc n) = omega (arith, value-zeros n)

-- What a padded number is: its digits, 8 of them at least, and at most as many as any bound has.
padded_lem :
    (u k : ℕ)
    → u < 10 ^ k
    → 8 ≤ k
    → let s = pad_start 8 (decimal u) in
      (value s ≡ u) × (all is_digit s ≡ true) × (8 ≤ length s) × (length s ≤ k)
unfolding pad_start decimal
padded_lem u k h big =
    let d = decimal_from (suc u) u in
    let z = zeros (8 - length d) in
    let digits =
      all-append z d (digits-zeros (8 - length d)) (decimal_from-digits (suc u) u (omega arith)) in
    let number : value (z ++ d) ≡ u =
      rw (value-append z d, value-zeros (8 - length d), decimal_from-value (suc u) u (omega arith))
        (omega arith) in
    let size : length (z ++ d) ≡ (8 - length d) + length d =
      rw (length-append z d, length-zeros (8 - length d)) refl in
    let short = decimal_from-length (suc u) u k h (omega arith) in
    (number, digits, omega (arith, size), omega (arith, size, short))

-- The decimal text that `unitsToDecimal` prints for a number of units below 10^19 reads back as
-- that number by `stroops`.
pub stroops-units_to_decimal : (u : ℕ) → u < 10 ^ 19 → stroops (units_to_decimal u) ≡ ok u
unfolding units_to_decimal
stroops-units_to_decimal u h =
    let s = pad_start 8 (decimal u) in
    let (number, digits, least, most) = padded_lem u 19 h (omega arith) in
    let k = length s - 7 in
    let w = front k s in
    let f = back k s in
    let whole = length-front k s (omega arith) in
    let parts : w ++ f ≡ s = front-back k s in
    let total : length w + length f ≡ length s = sym (length-append w f) ∙ ap length parts in
    let seven : length f ≡ 7 = omega (arith, total, whole) in
    let v : u ≡ value w * 10 ^ 7 + value f * 10 ^ (7 - length f) =
      sym number ∙ ap value (sym parts) ∙ value-append w f ∙ rw seven (omega arith) in
    (stroops_iff (w ++ b'.' ∷ f) u).1 (
      Denotes.pointed w f (digits-front k s digits) (omega (arith, whole)) (omega (arith, whole))
        (digits-back k s digits) (omega (arith, seven)) (omega (arith, seven)) refl v)
