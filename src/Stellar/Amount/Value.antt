-- ===== src/Stellar/Amount/Value.antt =====
-- `stroops` against an independent reading of decimal amounts.
use native.Mathlib.Nat.{pow-le-pow_right}
use mathlib.Core.List.{append-nil}
use afri_pay.Base.{
  ℕ, ◌+◌, ◌-◌, ◌*◌, ◌^◌, ◌≤◌, ◌<◌, ◌≡◌, refl, sym, ap, subst, ◌∙◌, ◌↔◌, true, [], ◌∷◌, ◌++◌, arith,
  Text, ok, length, all, lacks, split-lacks, split-append, Bool-cases, inl, inr,
}
use afri_pay.Stellar.Amount.{
  is_digit, span_digits, is_fraction, is_decimal, pad_end, units, stroops,
}
use afri_pay.Stellar.Amount.Digits.{
  value, big_int-eq-value, value-lt, value-pad_end, scaled-lt, span_digits-append,
  span_digits_parts,
}

-- The text is the decimal notation of `v` units of 10^-7, in one of the two forms of an amount.
pub data Denotes (s : Text) (v : ℕ) : Type 0 where
  plain :
      (w : Text)
      → all is_digit w ≡ true
      → 1 ≤ length w
      → length w ≤ 12
      → s ≡ w
      → v ≡ value w * 10 ^ 7
      → Denotes s v
  pointed :
      (w f : Text)
      → all is_digit w ≡ true
      → 1 ≤ length w
      → length w ≤ 12
      → all is_digit f ≡ true
      → 1 ≤ length f
      → length f ≤ 7
      → s ≡ w ++ b'.' ∷ f
      → v ≡ value w * 10 ^ 7 + value f * 10 ^ (7 - length f)
      → Denotes s v

pub digits-lacks : (w : Text) → all is_digit w ≡ true → lacks b'.' w ≡ true
unfolding is_digit
digits-lacks [] h = refl
digits-lacks (c ∷ w) h = ground (arith, digits-lacks w)

units-plain : (w : Text) → all is_digit w ≡ true → units w ≡ value w * 10 ^ 7
unfolding units
units-plain w h = rw (split-lacks b'.' w (digits-lacks w h), big_int-eq-value) (omega arith)

units-pointed :
    (w f : Text)
    → all is_digit w ≡ true
    → all is_digit f ≡ true
    → length f ≤ 7
    → units (w ++ b'.' ∷ f) ≡ value w * 10 ^ 7 + value f * 10 ^ (7 - length f)
unfolding units
units-pointed w f h k short = rw (
  split-append b'.' w f (digits-lacks w h),
  split-lacks b'.' f (digits-lacks f k),
  big_int-eq-value w,
  big_int-eq-value (pad_end 7 f),
  value-pad_end 7 f short,
)

is_decimal-plain :
    (most w_most : ℕ) (w : Text)
    → all is_digit w ≡ true
    → 1 ≤ length w
    → length w ≤ w_most
    → is_decimal w_most most w ≡ true
unfolding is_decimal is_fraction span_digits
is_decimal-plain most w_most w h lo hi =
    let run : span_digits w ≡ (w, []) =
      subst (λ t. span_digits t ≡ (w, [])) (append-nil w) (span_digits-append w [] h refl) in
    rw (run, is_decimal) (ground arith)

is_decimal-pointed :
    (most w_most : ℕ) (w f : Text)
    → all is_digit w ≡ true
    → 1 ≤ length w
    → length w ≤ w_most
    → all is_digit f ≡ true
    → 1 ≤ length f
    → length f ≤ most
    → is_decimal w_most most (w ++ b'.' ∷ f) ≡ true
unfolding is_decimal is_fraction span_digits
is_decimal-pointed most w_most w f h lo hi k flo fhi =
    rw (span_digits-append w (b'.' ∷ f) h refl, is_decimal) (ground arith)

-- A text in one of the two forms that the regular expressions of amounts accept.
pub data IsAmount (whole most : ℕ) (s : Text) : Type 0 where
  plain :
      (w : Text)
      → all is_digit w ≡ true
      → 1 ≤ length w
      → length w ≤ whole
      → s ≡ w
      → IsAmount whole most s
  pointed :
      (w f : Text)
      → all is_digit w ≡ true
      → 1 ≤ length w
      → length w ≤ whole
      → all is_digit f ≡ true
      → 1 ≤ length f
      → length f ≤ most
      → s ≡ w ++ b'.' ∷ f
      → IsAmount whole most s

is_decimal_sound :
    (whole most : ℕ) (s : Text) → is_decimal whole most s ≡ true → IsAmount whole most s
unfolding is_decimal
is_decimal_sound whole most s h =
    let (same, digits) = span_digits_parts s in
    go (span_digits s).0 (span_digits s).1 same digits (ground arith) (ground arith) (ground arith)
  where
    go :
        (w r : Text)
        → s ≡ w ++ r
        → all is_digit w ≡ true
        → 1 ≤ length w
        → length w ≤ whole
        → is_fraction most r ≡ true
        → IsAmount whole most s
    go w [] e d lo hi k = IsAmount.plain w d lo hi (e ∙ append-nil w)
    go w (c ∷ f) e d lo hi k =
        IsAmount.pointed w f d lo hi (ground arith) (ground arith) (ground arith)
          (e ∙ ap (λ x. w ++ x ∷ f) (ground arith))

stroops_complete : (s : Text) (v : ℕ) → Denotes s v → stroops s ≡ ok v
unfolding stroops
stroops_complete s v (Denotes.plain w h lo hi es ev) =
    rw (es, ev, is_decimal-plain 7 12 w h lo hi, units-plain w h)
stroops_complete s v (Denotes.pointed w f h lo hi k flo fhi es ev) =
    rw (es, ev, is_decimal-pointed 7 12 w f h lo hi k flo fhi, units-pointed w f h k fhi)

-- The test for the regular expression of digits with a bounded fraction holds exactly of 1 to
-- `whole` digits, alone or with a dot and 1 to `most` digits after them.
pub is_decimal_iff :
    (whole most : ℕ) (s : Text) → (is_decimal whole most s ≡ true) ↔ IsAmount whole most s
is_decimal_iff whole most s = (is_decimal_sound whole most s, complete)
  where
    complete : IsAmount whole most s → is_decimal whole most s ≡ true
    complete (IsAmount.plain w h lo hi e) = rw e (is_decimal-plain most whole w h lo hi)
    complete (IsAmount.pointed w f h lo hi k flo fhi e) =
        rw e (is_decimal-pointed most whole w f h lo hi k flo fhi)

stroops_sound : (s : Text) (v : ℕ) → stroops s ≡ ok v → Denotes s v
unfolding stroops
stroops_sound s v e = elim (Bool-cases (is_decimal 12 7 s)) [
  | inl good ↦ go (ground arith) (is_decimal_sound 12 7 s good)
  | inr bad ↦ absurd (ground arith)
]
  where
    go : units s ≡ v → IsAmount 12 7 s → Denotes s v
    go same (IsAmount.plain w h lo hi es) =
        Denotes.plain w h lo hi es (sym same ∙ ap units es ∙ units-plain w h)
    go same (IsAmount.pointed w f h lo hi k flo fhi es) =
        Denotes.pointed w f h lo hi k flo fhi es
          (sym same ∙ ap units es ∙ units-pointed w f h k fhi)

-- `stroops` returns a number exactly if the text is 1 to 12 digits, alone or with a dot and 1 to 7
-- digits after them, and the number is 10000000 times the value that this decimal notation
-- denotes.
pub stroops_iff : (s : Text) (v : ℕ) → (stroops s ≡ ok v) ↔ Denotes s v
stroops_iff s v = (stroops_sound s v, stroops_complete s v)

pow_le : (n m : ℕ) → n ≤ m → 10 ^ n ≤ 10 ^ m
pow_le n m h = pow-le-pow_right (omega arith) h

-- A number that `stroops` returns is below 10^19.
pub stroops-lt : (s : Text) (v : ℕ) → stroops s ≡ ok v → v < 10 ^ 19
stroops-lt s v e = go (stroops_sound s v e)
  where
    go : Denotes s v → v < 10 ^ 19
    go (Denotes.plain w h lo hi es ev) = omega (arith, value-lt w h, pow_le (length w) 12 hi)
    go (Denotes.pointed w f h lo hi k flo fhi es ev) =
        omega (arith, value-lt w h, pow_le (length w) 12 hi, scaled-lt 7 f k fhi)
