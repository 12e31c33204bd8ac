-- ===== src/Browser/Format/Shown.antt =====
-- The parts of an amount that is shown: its whole part without zeros and in groups, and its
-- fraction, of `formatAmount` of frontend/src/lib/format.ts.
use afri_pay.Base.{
  ℕ, zero, suc, ◌+◌, ◌-◌, ◌*◌, ◌^◌, ◌≤◌, ◌≡◌, refl, sym, ap, ◌∙◌, true, [], ◌∷◌, ◌++◌, arith, Text,
  ◌==◌, length, all, Bool-cases, inl, inr, ok, if◌then◌else◌,
}
use afri_pay.Stellar.Amount.{is_digit, pad_end, stroops}
use afri_pay.Stellar.Amount.Digits.{value, value-pad_end}
use afri_pay.Stellar.Amount.Decimal.{drop_zeros, drop_onto}
use afri_pay.Stellar.Amount.Value.{Denotes, stroops_iff}
use afri_pay.Browser.Format.{unsigned, strip_zeros, before_comma, group, sign_of}

-- The text without its commas.
unfoldable pub without_commas : Text → Text
without_commas [] = []
without_commas (c ∷ s) = let rest = without_commas s in if c == b',' then rest else c ∷ rest

without_commas-append :
    (s t : Text) → without_commas (s ++ t) ≡ without_commas s ++ without_commas t
unfolding without_commas
without_commas-append [] t = refl
without_commas-append (c ∷ s) t = ground (arith, without_commas-append s t)

without_commas-digits : (s : Text) → all is_digit s ≡ true → without_commas s ≡ s
unfolding without_commas is_digit
without_commas-digits [] h = refl
without_commas-digits (c ∷ s) h = ground (arith, without_commas-digits s)

without_commas-group : (s : Text) → all is_digit s ≡ true → without_commas (group s) ≡ s
unfolding without_commas group is_digit
without_commas-group [] h = refl
without_commas-group (c ∷ s) h = elim (Bool-cases (before_comma s)) [
  | inl e ↦ rw e (ground (arith, without_commas-group s))
  | inr e ↦ rw e (ground (arith, without_commas-group s))
]

-- Without the zeros in front, digits have the same value.
strip_lem :
    (c : ℕ) (w : Text)
    → all is_digit (c ∷ w) ≡ true
    → let s = strip_zeros (c ∷ w) in
      (value s ≡ value (c ∷ w))
      × (all is_digit s ≡ true)
      × (1 ≤ length s)
      × (length s ≤ suc (length w))
unfolding strip_zeros value is_digit
strip_lem c [] h = (refl, h, omega arith, omega arith)
strip_lem c (d ∷ w) h =
    let (same, digits, least, most) = strip_lem d w (ground arith) in
    elim (Bool-cases (c == b'0')) [
      | inl e ↦
          let none_left : c - b'0' ≡ 0 = ground arith in
          rw e (same ∙ rw none_left (omega arith), digits, least, omega (arith, most))
      | inr e ↦ rw e (refl, h, omega arith, omega arith)
    ]

-- Zeros at the end do not matter once digits are padded.
pad_end-drop_onto :
    (n c : ℕ) (s t : Text)
    → pad_end n s ≡ pad_end n t
    → pad_end (suc n) (drop_onto c s) ≡ c ∷ pad_end n t
unfolding pad_end
pad_end-drop_onto n c [] t h = elim (Bool-cases (c == b'0')) [
  | inl e ↦ rw e (ground (arith, h))
  | inr e ↦ rw e (ap (λ x. c ∷ x) h)
]
pad_end-drop_onto n c (d ∷ s) t h = ap (λ x. c ∷ x) h

pad_end-drop_zeros : (n : ℕ) (f : Text) → length f ≤ n → pad_end n (drop_zeros f) ≡ pad_end n f
unfolding drop_zeros pad_end
pad_end-drop_zeros n [] h = refl
pad_end-drop_zeros zero (c ∷ f) h = absurd (omega arith)
pad_end-drop_zeros (suc n) (c ∷ f) h =
    pad_end-drop_onto n c (drop_zeros f) f (pad_end-drop_zeros n f (omega arith))

pad_end-pad_end : (k n : ℕ) (s : Text) → k ≤ n → pad_end n (pad_end k s) ≡ pad_end n s
unfolding pad_end
pad_end-pad_end zero n s h = refl
pad_end-pad_end (suc k) zero s h = absurd (omega arith)
pad_end-pad_end (suc k) (suc n) [] h = ap (λ x. b'0' ∷ x) (pad_end-pad_end k n [] (omega arith))
pad_end-pad_end (suc k) (suc n) (c ∷ s) h = ap (λ x. c ∷ x) (pad_end-pad_end k n s (omega arith))

digits-drop_onto :
    (c : ℕ) (s : Text)
    → is_digit c ≡ true
    → all is_digit s ≡ true
    → all is_digit (drop_onto c s) ≡ true
digits-drop_onto c [] h k = ground (arith, h)
digits-drop_onto c (d ∷ s) h k = ground (arith, h, k)

length-drop_onto : (c : ℕ) (s : Text) → length (drop_onto c s) ≤ suc (length s)
length-drop_onto c [] = elim (Bool-cases (c == b'0')) [
  | inl e ↦ rw e (omega arith)
  | inr e ↦ rw e (omega arith)
]
length-drop_onto c (d ∷ s) = omega arith

drop_zeros_lem :
    (f : Text)
    → all is_digit f ≡ true
    → (all is_digit (drop_zeros f) ≡ true) × (length (drop_zeros f) ≤ length f)
unfolding drop_zeros
drop_zeros_lem [] h = (refl, omega arith)
drop_zeros_lem (c ∷ f) h =
    let (digits, shorter) = drop_zeros_lem f (ground (arith, h)) in
    (
      digits-drop_onto c (drop_zeros f) (ground (arith, h)) digits,
      omega (arith, length-drop_onto c (drop_zeros f), shorter),
    )

digits-pad_end : (k : ℕ) (s : Text) → all is_digit s ≡ true → all is_digit (pad_end k s) ≡ true
unfolding pad_end is_digit
digits-pad_end zero s h = h
digits-pad_end (suc k) [] h = ground (arith, digits-pad_end k [])
digits-pad_end (suc k) (c ∷ s) h = ground (arith, digits-pad_end k s)

length-pad_end_lem :
    (k n : ℕ) (s : Text)
    → length s ≤ n
    → k ≤ n
    → (length (pad_end k s) ≤ n) × (k ≤ length (pad_end k s))
unfolding pad_end
length-pad_end_lem zero n s h l = (h, omega arith)
length-pad_end_lem (suc k) zero s h l = absurd (omega arith)
length-pad_end_lem (suc k) (suc n) [] h l =
    let (most, least) = length-pad_end_lem k n [] (omega arith) (omega arith) in
    (omega (arith, most), omega (arith, least))
length-pad_end_lem (suc k) (suc n) (c ∷ s) h l =
    let (most, least) = length-pad_end_lem k n s (omega arith) (omega arith) in
    (omega (arith, most), omega (arith, least))

-- The fraction that is shown counts the same units.
shown_fraction :
    (f : Text)
    → all is_digit f ≡ true
    → length f ≤ 7
    → let g = pad_end 2 (drop_zeros f) in
      (all is_digit g ≡ true)
      × (1 ≤ length g)
      × (length g ≤ 7)
      × (value g * 10 ^ (7 - length g) ≡ value f * 10 ^ (7 - length f))
shown_fraction f h short =
    let (digits, shorter) = drop_zeros_lem f h in
    let g = pad_end 2 (drop_zeros f) in
    let (most, least) =
      length-pad_end_lem 2 7 (drop_zeros f) (omega (arith, shorter)) (omega arith) in
    (
      digits-pad_end 2 (drop_zeros f) digits,
      omega (arith, least),
      most,
      sym (value-pad_end 7 g most)
          ∙ ap value
              (pad_end-pad_end 2 7 (drop_zeros f) (omega arith) ∙ pad_end-drop_zeros 7 f short)
          ∙ value-pad_end 7 f short,
    )

-- A text that begins with a digit has no sign.
pub unsigned-digit : (c : ℕ) (s : Text) → is_digit c ≡ true → unsigned (c ∷ s) ≡ c ∷ s
unfolding is_digit
unsigned-digit c s h = ground (arith, h)

pub sign_of-digit : (c : ℕ) (s : Text) → is_digit c ≡ true → sign_of (c ∷ s) ≡ []
unfolding is_digit
sign_of-digit c s h = ground (arith, h)

-- What is shown for a whole part and a fraction, without its commas.
pub shown :
    (c : ℕ) (w f : Text)
    → all is_digit (c ∷ w) ≡ true
    → all is_digit f ≡ true
    → without_commas (group (strip_zeros (c ∷ w)) ++ b'.' ∷ pad_end 2 (drop_zeros f))
      ≡ strip_zeros (c ∷ w) ++ b'.' ∷ pad_end 2 (drop_zeros f)
unfolding without_commas
shown c w f h k =
    let (same, digits, least, most) = strip_lem c w h in
    let rest = digits-pad_end 2 (drop_zeros f) (drop_zeros_lem f k).0 in
    without_commas-append (group (strip_zeros (c ∷ w))) (b'.' ∷ pad_end 2 (drop_zeros f))
    ∙ ap (λ x. x ++ b'.' ∷ without_commas (pad_end 2 (drop_zeros f)))
        (without_commas-group (strip_zeros (c ∷ w)) digits)
    ∙ ap (λ x. strip_zeros (c ∷ w) ++ b'.' ∷ x)
        (without_commas-digits (pad_end 2 (drop_zeros f)) rest)

-- Such a text denotes the same units.
pub shown-Denotes :
    (c : ℕ) (w f : Text) (v : ℕ)
    → all is_digit (c ∷ w) ≡ true
    → suc (length w) ≤ 12
    → all is_digit f ≡ true
    → length f ≤ 7
    → v ≡ value (c ∷ w) * 10 ^ 7 + value f * 10 ^ (7 - length f)
    → stroops (strip_zeros (c ∷ w) ++ b'.' ∷ pad_end 2 (drop_zeros f)) ≡ ok v
shown-Denotes c w f v h short k shorter counted =
    let s = strip_zeros (c ∷ w) in
    let g = pad_end 2 (drop_zeros f) in
    let (same, digits, least, most) = strip_lem c w h in
    let (digits', least', most', same') = shown_fraction f k shorter in
    (stroops_iff (s ++ b'.' ∷ g) v).1 (
      Denotes.pointed s g digits least (omega (arith, most)) digits' least' most' refl
        (counted ∙ omega (arith, same, same')))
