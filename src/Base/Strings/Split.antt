-- ===== src/Base/Strings/Split.antt =====
-- `split` on text with and without the separator.
use mathlib.Core.Path.{◌≡◌, refl, ◌∙◌}
use mathlib.Core.Logic.{inl, inr}
use mathlib.Core.Bool.{Bool, true, not}
use mathlib.Core.List.{[], ◌∷◌, ◌++◌, reverse, reverse-cons, append_assoc, append-nil}
use Prim.Native.Nat.{ℕ}
use native.Mathlib.Omega.{arith}
use afri_pay.Base.Tests.{◌==◌, ==_iff, all, Bool-cases}
use afri_pay.Base.Strings.{Text, split_from, split}

abbrev pub lacks : ℕ → Text → Bool
lacks sep = all (λ c. not (c == sep))

split_from-lacks :
    (sep : ℕ) (cur w : Text) → lacks sep w ≡ true → split_from sep cur w ≡ (reverse cur ++ w) ∷ []
unfolding split_from
split_from-lacks sep cur [] h = rw append-nil
split_from-lacks sep cur (c ∷ w) h = elim (Bool-cases (c == sep)) [
  | inl same ↦ absurd (ground arith)
  | inr other ↦
      rw (other, split_from)
        (split_from-lacks sep (c ∷ cur) w (ground arith) ∙ (simp (reverse-cons, append_assoc)))
]

split_from-append :
    (sep : ℕ) (cur w t : Text)
    → lacks sep w ≡ true
    → split_from sep cur (w ++ sep ∷ t) ≡ (reverse cur ++ w) ∷ split sep t
unfolding split_from split
split_from-append sep cur [] t h = rw ((==_iff sep sep).1 refl, split_from) (rw append-nil)
split_from-append sep cur (c ∷ w) t h = elim (Bool-cases (c == sep)) [
  | inl same ↦ absurd (ground arith)
  | inr other ↦
      rw (other, split_from)
        (split_from-append sep (c ∷ cur) w t (ground arith) ∙ (simp (reverse-cons, append_assoc)))
]

-- Text without the separator is one part.
pub split-lacks : (sep : ℕ) (w : Text) → lacks sep w ≡ true → split sep w ≡ w ∷ []
unfolding split
split-lacks sep w h = split_from-lacks sep [] w h

-- The text before the first separator is the first part.
pub split-append :
    (sep : ℕ) (w t : Text) → lacks sep w ≡ true → split sep (w ++ sep ∷ t) ≡ w ∷ split sep t
unfolding split
split-append sep w t h = split_from-append sep [] w t h ∙ (refl)
