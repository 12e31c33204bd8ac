-- ===== src/Base/Results.antt =====
-- `do` blocks of calls that may throw and change no state.
use mathlib.Core.Path.{◌≡◌, refl}
use mathlib.Core.Bool.{Bool, true, false}
use afri_pay.Base.Outcome.{Result, ok, err, Error, throw_if}

module _ {ℓ κ} {V : Type ℓ} {W : Type κ} where
  -- A throw ends the block.
  infixl 5 ◌>>=◌
  abbrev pub ◌>>=◌ : Result V → (V → Result W) → Result W
  err thrown >>= rest = err thrown
  ok v >>= rest = rest v

  -- What a block that ends well has gone through.
  pub >>=-eq-ok :
      (first : Result V) (rest : V → Result W) {w : W}
      → (first >>= rest) ≡ ok w
      → (v : V) × (first ≡ ok v) × (rest v ≡ ok w)
  >>=-eq-ok (err thrown) rest ended = cc
  >>=-eq-ok (ok v) rest ended = (v, refl, ended)

module _ {ℓ} {W : Type ℓ} where
  infixl 5 ◌>>◌
  abbrev pub ◌>>◌ : Result (Unit {0}) → Result W → Result W
  first >> rest = first >>= λ _. rest

  -- A block goes past a check exactly if nothing is wrong.
  pub guard-eq-ok :
      (wrong : Bool) (thrown : Error) (rest : Result W) {w : W}
      → (throw_if wrong thrown >> rest) ≡ ok w
      → (wrong ≡ false) × (rest ≡ ok w)
  guard-eq-ok false thrown rest ended = (refl, ended)
  guard-eq-ok true thrown rest ended = absurd (cc)
