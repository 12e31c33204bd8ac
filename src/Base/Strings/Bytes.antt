-- ===== src/Base/Strings/Bytes.antt =====
-- `trim` on the UTF-8 bytes of a text.
use Prim.Native.Nat.{ℕ, ◌+◌, ◌-◌, ◌*◌, ◌≤◌}
use mathlib.Core.Path.{◌≡◌, ap}
use mathlib.Core.Logic.{inl, inr}
use mathlib.Core.Bool.{Bool, true, false}
use mathlib.Core.Option.{Option, none, some}
use mathlib.Core.List.{List, [], ◌∷◌, ◌++◌, reverse, reverse-cons, reverse-reverse}
use native.Mathlib.Omega.{arith}
use afri_pay.Base.Tests.{if◌then◌else◌, Bool-cases, length}
use afri_pay.Base.Strings.{
  Text, is_space, is_high, is_low, encode_point, utf8_from, utf8, trim_start, trim, byte_length,
}

longer : (xs ys zs : List ℕ) → length ys ≤ length zs → length (xs ++ ys) ≤ length (xs ++ zs)
longer [] ys zs h = h
longer (x ∷ xs) ys zs h = omega (arith, longer xs ys zs h)

shorter : (xs ys : List ℕ) → length ys ≤ length (xs ++ ys)
shorter [] ys = omega arith
shorter (x ∷ xs) ys = omega (arith, shorter xs ys)

first-shorter : (xs ys : List ℕ) → length xs ≤ length (xs ++ ys)
first-shorter [] ys = omega arith
first-shorter (x ∷ xs) ys = omega (arith, first-shorter xs ys)

if-length :
    (b : Bool) (x x' y y' : List ℕ)
    → length x ≤ length x'
    → length y ≤ length y'
    → length (if b then x else y) ≤ length (if b then x' else y')
if-length true x x' y y' h k = h
if-length false x x' y y' h k = k

space-unpaired : (c : ℕ) → is_space c ≡ true → (is_high c ≡ false) × (is_low c ≡ false)
unfolding is_space
space-unpaired c h = ground arith

drop-front : (c : ℕ) (s : Text) → is_space c ≡ true → byte_length s ≤ byte_length (c ∷ s)
unfolding utf8 utf8_from
drop-front c s h =
    let (high, low) = space-unpaired c h in rw (high, low) (shorter (encode_point c) (utf8 s))

drop-back :
    (waiting : Option ℕ) (s : Text) (c : ℕ)
    → is_space c ≡ true
    → length (utf8_from waiting s) ≤ length (utf8_from waiting (s ++ c ∷ []))
unfolding utf8_from
drop-back none [] c h = omega arith
drop-back (some w) [] c h =
    let (high, low) = space-unpaired c h in
    rw (high, low) (first-shorter (encode_point 0xfffd) (encode_point c ++ []))
drop-back none (d ∷ s) c h =
    let rest = drop-back none s c h in
    let wait = drop-back (some d) s c h in
    if-length (is_high d) _ _ _ _ wait (
      if-length (is_low d) _ _ _ _ (longer (encode_point 0xfffd) _ _ rest)
        (longer (encode_point d) _ _ rest))
drop-back (some w) (d ∷ s) c h =
    let rest = drop-back none s c h in
    let wait = drop-back (some d) s c h in
    if-length (is_low d) _ _ _ _
      (longer (encode_point (0x10000 + (w - 0xd800) * 0x400 + (d - 0xdc00))) _ _ rest)
      (if-length (is_high d) _ _ _ _ (longer (encode_point 0xfffd) _ _ wait)
        (longer (encode_point 0xfffd) _ _ (longer (encode_point d) _ _ rest)))

byte_length-trim_start : (s : Text) → byte_length (trim_start s) ≤ byte_length s
unfolding trim_start
byte_length-trim_start [] = omega arith
byte_length-trim_start (c ∷ s) = elim (Bool-cases (is_space c)) [
  | inl space ↦ rw space (omega (arith, drop-front c s space, byte_length-trim_start s))
  | inr other ↦ rw other (omega arith)
]

byte_length-trim_end : (r : Text) → byte_length (reverse (trim_start r)) ≤ byte_length (reverse r)
unfolding trim_start utf8
byte_length-trim_end [] = omega arith
byte_length-trim_end (c ∷ r) = elim (Bool-cases (is_space c)) [
  | inl space ↦
      rw (space, reverse-cons c r)
        (omega (arith, drop-back none (reverse r) c space, byte_length-trim_end r))
  | inr other ↦ rw other (omega arith)
]

-- A trimmed text has no more bytes.
pub byte_length-trim : (s : Text) → byte_length (trim s) ≤ byte_length s
unfolding trim
byte_length-trim s =
    let t = trim_start s in
    omega (
      arith,
      byte_length-trim_end (reverse t),
      ap byte_length (reverse-reverse t),
      byte_length-trim_start s,
    )
