-- ===== src/Stellar/Amount/Decimal.antt =====
-- `String(n)` of a natural number.
use native.Mathlib.Nat.{pow-suc}
use afri_pay.Base.{
  ℕ, zero, suc, ◌+◌, ◌-◌, ◌*◌, ◌/◌, ◌%◌, ◌^◌, ◌≤◌, ◌<◌, ◌≡◌, sym, ap, ◌∙◌, true, false, [], ◌∷◌,
  ◌++◌, arith, Text, length, all, ltb, ◌==◌, if◌then◌else◌, Bool-cases, inl, inr,
}
use afri_pay.Stellar.Amount.{is_digit}
use afri_pay.Stellar.Amount.Digits.{value, pow_add}

-- The decimal digits of a number, on fuel; a number has fewer digits than its successor counts.
pub decimal_from : ℕ → ℕ → Text
decimal_from zero n = []
decimal_from (suc fuel) n = elim (ltb n 10) [
  | true ↦ (b'0' + n) ∷ []
  | false ↦ decimal_from fuel (n / 10) ++ (b'0' + n % 10) ∷ []
]

-- `n.toString()`.
unfoldable pub decimal : ℕ → Text
unfolding decimal_from
decimal n = decimal_from (suc n) n

pub all-append :
    (s t : Text) → all is_digit s ≡ true → all is_digit t ≡ true → all is_digit (s ++ t) ≡ true
all-append [] t hs ht = ht
all-append (c ∷ s) t hs ht = ground (arith, all-append s t)

pub length-append : (s t : Text) → length (s ++ t) ≡ length s + length t
length-append [] t = omega arith
length-append (c ∷ s) t = omega (arith, length-append s t)

append_scale : (d n m p q v w : ℕ) → (d * p + v) * q + w ≡ d * (p * q) + (v * q + w)
append_scale d n m p q v w = grind arith

pub value-append : (s t : Text) → value (s ++ t) ≡ value s * 10 ^ length t + value t
unfolding value
value-append [] t = omega arith
value-append (c ∷ s) t =
    rw (value-append s t, length-append s t, pow_add (length s) (length t))
      (sym (append_scale (c - b'0') 0 0 (10 ^ length s) (10 ^ length t) (value s) (value t)))

digit-value : (d : ℕ) → value ((b'0' + d) ∷ []) ≡ d
unfolding value
digit-value d = omega arith

pub decimal_from-value : (fuel n : ℕ) → n < fuel → value (decimal_from fuel n) ≡ n
unfolding decimal_from
decimal_from-value zero n h = absurd (omega arith)
decimal_from-value (suc fuel) n h = elim (Bool-cases (ltb n 10)) [
  | inl small ↦ rw (small, decimal_from) (digit-value n)
  | inr big ↦
      rw (big, decimal_from)
        (rw
          (
            value-append (decimal_from fuel (n / 10)) ((b'0' + n % 10) ∷ []),
            digit-value (n % 10),
            decimal_from-value fuel (n / 10) (ground arith),
          )
          (omega arith))
]

pub decimal_from-digits : (fuel n : ℕ) → n < fuel → all is_digit (decimal_from fuel n) ≡ true
unfolding decimal_from is_digit
decimal_from-digits zero n h = absurd (omega arith)
decimal_from-digits (suc fuel) n h = elim (Bool-cases (ltb n 10)) [
  | inl small ↦ rw (small, decimal_from) (ground arith)
  | inr big ↦
      rw (big, decimal_from)
        (all-append (decimal_from fuel (n / 10)) ((b'0' + n % 10) ∷ [])
          (decimal_from-digits fuel (n / 10) (ground arith)) (ground arith))
]

-- A number below a power of ten has at most as many digits as the exponent.
pub decimal_from-length : (fuel n k : ℕ) → n < 10 ^ k → 1 ≤ k → length (decimal_from fuel n) ≤ k
unfolding decimal_from
decimal_from-length zero n k h one = omega arith
decimal_from-length (suc fuel) n zero h one = absurd (omega arith)
decimal_from-length (suc fuel) n (suc zero) h one = elim (Bool-cases (ltb n 10)) [
  | inl small ↦ rw (small, decimal_from) (omega arith)
  | inr big ↦ absurd (ground arith)
]
decimal_from-length (suc fuel) n (suc (suc k)) h one = elim (Bool-cases (ltb n 10)) [
  | inl small ↦ rw (small, decimal_from) (omega arith)
  | inr big ↦
      let shift : 10 ^ suc (suc k) ≡ 10 ^ suc k * 10 = rw pow-suc (omega arith) in
      let less : n / 10 < 10 ^ suc k = omega (arith, shift) in
      rw (big, decimal_from)
        (omega (
          arith,
          length-append (decimal_from fuel (n / 10)) ((b'0' + n % 10) ∷ []),
          decimal_from-length fuel (n / 10) (suc k) less (omega arith),
        ))
]

-- A number is read back from its digits.
pub decimal-injective : (m n : ℕ) → decimal m ≡ decimal n → m ≡ n
unfolding decimal
decimal-injective m n e =
    sym (decimal_from-value (suc m) m (omega arith))
    ∙ ap value e
    ∙ decimal_from-value (suc n) n (omega arith)

abbrev pub drop_onto : ℕ → Text → Text
drop_onto c [] = if c == b'0' then [] else c ∷ []
drop_onto c (d ∷ s) = c ∷ d ∷ s

-- Without the zeros at the end.
unfoldable pub drop_zeros : Text → Text
drop_zeros [] = []
drop_zeros (c ∷ s) = drop_onto c (drop_zeros s)
