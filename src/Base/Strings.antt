-- ===== src/Base/Strings.antt =====
-- JavaScript strings: sequences of UTF-16 code units, which `length`, `===`, `trim`, `split` and the
-- regular expressions of the program read, and their UTF-8 bytes, which `Buffer.from` gives.
pub mod Split
pub mod Bytes
use Prim.Native.Nat.{ℕ, ◌+◌, ◌-◌, ◌*◌, ◌/◌, ◌%◌}
use Prim.Native.Char.{code}
use Prim.Native.String.{String}
use mathlib.Core.Path.{◌≡◌, refl}
use mathlib.Core.Logic.{◌↔◌}
use mathlib.Core.Bool.{Bool, true, false, ◌&&◌, ◌||◌}
use mathlib.Core.Option.{Option, none, some}
use mathlib.Core.List.{List, [], ◌∷◌, ◌++◌, reverse}
use native.Mathlib.Omega.{arith}
use afri_pay.Base.Tests.{leb, ◌==◌, if◌then◌else◌, length}

abbrev pub Text : Type 0
Text = List ℕ

-- The code units of a literal of the source, all of which are ASCII or in the basic plane.
abbrev pub codes : String → Text
codes String.[] = []
codes (String.◌∷◌ c s) = code c ∷ codes s

-- `===` on strings.
unfoldable pub text_eq : Text → Text → Bool
text_eq [] [] = true
text_eq [] (d ∷ t) = false
text_eq (c ∷ s) [] = false
text_eq (c ∷ s) (d ∷ t) = c == d && text_eq s t

pub text_eq_sound : (s t : Text) → text_eq s t ≡ true → s ≡ t
unfolding text_eq
text_eq_sound [] [] h = refl
text_eq_sound [] (d ∷ t) h = ground arith
text_eq_sound (c ∷ s) [] h = ground arith
text_eq_sound (c ∷ s) (d ∷ t) h = ground (arith, text_eq_sound s t)

pub text_eq_refl : (s : Text) → text_eq s s ≡ true
unfolding text_eq
text_eq_refl [] = refl
text_eq_refl (c ∷ s) = ground (arith, text_eq_refl s)

pub text_eq_iff : (s t : Text) → (text_eq s t ≡ true) ↔ (s ≡ t)
text_eq_iff s t = (text_eq_sound s t, λ e. rw e (text_eq_refl t))

-- Truthiness of a string.
abbrev pub is_empty : Text → Bool
is_empty [] = true
is_empty (c ∷ s) = false

-- WhiteSpace and LineTerminator of ECMAScript, which `trim` removes.
unfoldable pub is_space : ℕ → Bool
is_space c =
    leb 9 c && leb c 13
    || c == 0x20
    || c == 0xa0
    || c == 0x1680
    || leb 0x2000 c && leb c 0x200a
    || c == 0x2028
    || c == 0x2029
    || c == 0x202f
    || c == 0x205f
    || c == 0x3000
    || c == 0xfeff

unfoldable pub trim_start : Text → Text
unfolding is_space
trim_start [] = []
trim_start (c ∷ s) = if is_space c then trim_start s else c ∷ s

-- `String.prototype.trim`.
unfoldable pub trim : Text → Text
unfolding trim_start
trim s = reverse (trim_start (reverse (trim_start s)))

split_from : ℕ → Text → Text → List Text
split_from sep cur [] = reverse cur ∷ []
split_from sep cur (c ∷ s) = elim (c == sep) [
  | true ↦ reverse cur ∷ split_from sep [] s
  | false ↦ split_from sep (c ∷ cur) s
]

-- `s.split(sep)` for a separator of one code unit.
unfoldable pub split : ℕ → Text → List Text
unfolding split_from
split sep s = split_from sep [] s

abbrev continuation : ℕ → ℕ
continuation n = 0x80 + n % 0x40

-- The bytes of one code point.
encode_point : ℕ → List ℕ
encode_point n =
    if leb n 0x7f
    then n ∷ []
    else if leb n 0x7ff
    then (0xc0 + n / 0x40) ∷ continuation n ∷ []
    else if leb n 0xffff
    then (0xe0 + n / 0x1000) ∷ continuation (n / 0x40) ∷ continuation n ∷ []
    else (0xf0 + n / 0x40000)
      ∷ continuation (n / 0x1000)
      ∷ continuation (n / 0x40)
      ∷ continuation n
      ∷ []

abbrev is_high : ℕ → Bool
is_high c = leb 0xd800 c && leb c 0xdbff

abbrev is_low : ℕ → Bool
is_low c = leb 0xdc00 c && leb c 0xdfff

-- The unit before the rest is a high surrogate that waits for its low one, or there is none.
utf8_from : Option ℕ → Text → List ℕ
unfolding encode_point
utf8_from none [] = []
utf8_from (some h) [] = encode_point 0xfffd
utf8_from none (c ∷ s) =
    let rest = utf8_from none s in
    let wait = utf8_from (some c) s in
    if is_high c
    then wait
    else if is_low c
    then encode_point 0xfffd ++ rest
    else encode_point c ++ rest
utf8_from (some h) (c ∷ s) =
    let rest = utf8_from none s in
    let wait = utf8_from (some c) s in
    if is_low c
    then encode_point (0x10000 + (h - 0xd800) * 0x400 + (c - 0xdc00)) ++ rest
    else if is_high c
    then encode_point 0xfffd ++ wait
    else encode_point 0xfffd ++ (encode_point c ++ rest)

-- `Buffer.from(s)`: UTF-8, with U+FFFD for an unpaired surrogate.
unfoldable pub utf8 : Text → List ℕ
unfolding utf8_from
utf8 s = utf8_from none s

-- `Buffer.byteLength(s)`.
abbrev pub byte_length : Text → ℕ
byte_length s = length (utf8 s)

utf8_pair : utf8 (0xd83d ∷ 0xde00 ∷ b'a' ∷ []) ≡ 0xf0 ∷ 0x9f ∷ 0x98 ∷ 0x80 ∷ b'a' ∷ []
unfolding utf8
utf8_pair = refl

split_menu : split b'*' (codes "1*23*") ≡ codes "1" ∷ codes "23" ∷ [] ∷ []
unfolding split
split_menu = refl
