-- ===== src/Base/Actions.antt =====
-- Methods over a state `S`: what was written before a throw stays written. The operations are shut;
-- `unfolding ◌>>=◌` opens them all.
use mathlib.Core.Path.{◌≡◌, refl, sym, ap, subst}
use mathlib.Core.Bool.{Bool, true, false}
use afri_pay.Base.Tests.{if◌then◌else◌}
use afri_pay.Base.Outcome.{Result, ok, err}

abbrev pub Action : Type 0 → Type 0 → Type 0
Action S A = S → Result A × S

module _ {S A : Type 0} where
  pub pure : A → Action S A
  pure a s = (ok a, s)

  pub lift : Result A → Action S A
  lift r s = (r, s)

pub modify : {S : Type 0} → (S → S) → Action S (Unit {0})
modify f s = (ok tt, f s)

-- A method of a part of the state, which `get` reads and `set` writes.
pub focus : {S T A : Type 0} → (T → S) → (S → T → T) → Action S A → Action T A
focus get set m t = let (r, s) = m (get t) in (r, set s t)

infixl 5 ◌>>=◌ ◌>>◌
unfoldable pub ◌>>=◌ : {S A B : Type 0} → Action S A → (A → Action S B) → Action S B
unfolding pure lift modify focus
◌>>=◌ m f s = let (r, s') = m s in elim r [ ok a ↦ f a s' | err e ↦ (err e, s') ]

abbrev pub ◌>>◌ : {S A B : Type 0} → Action S A → Action S B → Action S B
m >> k = m >>= λ _. k

-- A step that ends well hands on its value and its state.
pub then-ok :
    {S A B : Type 0} (step : Action S A) (rest : A → Action S B) (s s' : S) (a : A)
    → step s ≡ (ok a, s')
    → (step >>= rest) s ≡ rest a s'
unfolding ◌>>=◌
then-ok {S} {A} {B} step rest s s' a e =
    ap (λ x. elim x.0 as (λ _. Result B × S) [ ok b ↦ rest b x.1 | err z ↦ (err z, x.1) ]) e

-- `P` holds of the state that the method leaves, however it ends.
pub record Ends {S A : Type 0} (P : S → Type 0) (m : Action S A) (s : S) : Type 0 where
  pub at : P (m s).1

module _ {S : Type 0} {P : S → Type 0} where
  pub Ends-pure : {A : Type 0} (a : A) (s : S) → P s → Ends P (pure a) s
  unfolding pure
  Ends-pure a s h = record { at = h }

  pub Ends-lift : {A : Type 0} (r : Result A) (s : S) → P s → Ends P (lift r) s
  unfolding lift
  Ends-lift r s h = record { at = h }

  -- The rest of a block may use the value that was lifted.
  pub Ends-bind_lift :
      {A B : Type 0} (r : Result A) (f : A → Action S B) (s : S)
      → P s
      → ((a : A) → r ≡ ok a → Ends P (f a) s)
      → Ends P (lift r >>= f) s
  unfolding ◌>>=◌
  Ends-bind_lift (ok a) f s h k = record { at = (k a refl).at }
  Ends-bind_lift (err e) f s h k = record { at = h }

  pub Ends-modify :
      {B : Type 0} (g : S → S) (f : Unit {0} → Action S B) (s : S)
      → Ends P (f tt) (g s)
      → Ends P (modify g >>= f) s
  unfolding ◌>>=◌
  Ends-modify g f s h = record { at = h.at }

  pub Ends-if :
      {A : Type 0} (b : Bool) (m n : Action S A) (s : S)
      → (b ≡ true → Ends P m s)
      → (b ≡ false → Ends P n s)
      → Ends P (if b then m else n) s
  Ends-if true m n s h k = h refl
  Ends-if false m n s h k = k refl

  -- What a method leaves, and what the rest leaves from there.
  pub Ends-bind :
      {A B : Type 0} (m : Action S A) (f : A → Action S B) (s : S)
      → Ends P m s
      → ((a : A) → (m s).0 ≡ ok a → Ends P (f a) (m s).1)
      → Ends P (m >>= f) s
  unfolding ◌>>=◌
  Ends-bind {A} {B} m f s h k = record { at = go (m s).0 (m s).1 h.at k }
    where
      go :
          (x : Result A) (t : S)
          → P t
          → ((a : A) → x ≡ ok a → Ends P (f a) t)
          → P (elim x as (λ _. Result B × S) [ ok a ↦ f a t | err e ↦ (err e, t) ]).1
      go (ok a) t r k = (k a refl).at
      go (err e) t r k = r

  -- The same, with the state in between written as `t`.
  pub Ends-bind_to :
      {A B : Type 0} (m : Action S A) (f : A → Action S B) (s t : S)
      → (m s).1 ≡ t
      → P t
      → ((a : A) → (m s).0 ≡ ok a → Ends P (f a) t)
      → Ends P (m >>= f) s
  Ends-bind_to {A} {B} m f s t e h k =
      Ends-bind m f s (record { at = subst P (sym e) h })
        (λ a got. subst (λ x. Ends P (f a) x) (sym e) (k a got))
