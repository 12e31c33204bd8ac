-- ===== src/Base/MapValues.antt =====
-- Maps whose values are stored in another form, and optional values.
use mathlib.Core.Path.{◌≡◌, refl, ap}
use mathlib.Core.Logic.{inl, inr}
use mathlib.Core.Bool.{Bool}
use mathlib.Core.Option.{Option, none, some}
use mathlib.Core.List.{[], ◌∷◌}
use afri_pay.Base.Tests.{if◌then◌else◌, Bool-cases, is_some}
use afri_pay.Base.Strings.{Text, text_eq, is_empty}
use afri_pay.Base.Maps.{Map, get, set, find_value}

abbrev pub map_given {ℓ} : {A : Type ℓ} → (A → A) → Option A → Option A
map_given f none = none
map_given f (some a) = some (f a)

-- `value ? String(value) : undefined`
abbrev pub given : Option Text → Option Text
given none = none
given (some s) = if is_empty s then none else some s

module _ {V : Type 0} (f : V → V) where
  pub map_values : Map V → Map V
  map_values [] = []
  map_values ((k, v) ∷ m) = (k, f v) ∷ map_values m

  pub get-map_values : (k : Text) (m : Map V) → get k (map_values m) ≡ map_given f (get k m)
  unfolding get map_values
  get-map_values k [] = refl
  get-map_values k ((j, v) ∷ m) = elim (Bool-cases (text_eq j k)) [
    | inl e ↦ rw e refl
    | inr e ↦ rw e (get-map_values k m)
  ]

  pub set-map_values :
      (k : Text) (v : V) (m : Map V) → set k (f v) (map_values m) ≡ map_values (set k v m)
  unfolding set map_values
  set-map_values k v [] = refl
  set-map_values k v ((j, w) ∷ m) = elim (Bool-cases (text_eq j k)) [
    | inl e ↦ rw e refl
    | inr e ↦ rw e (ap (λ r. (j, f w) ∷ r) (set-map_values k v m))
  ]

  -- A test that the values pass alike.
  pub find_value-map_values :
      (p : V → Bool) (m : Map V)
      → ((v : V) → p (f v) ≡ p v)
      → find_value p (map_values m) ≡ map_given f (find_value p m)
  unfolding find_value map_values
  find_value-map_values p [] h = refl
  find_value-map_values p ((j, w) ∷ m) h = elim (Bool-cases (p w)) [
    | inl e ↦ rw (h w, e) refl
    | inr e ↦ rw (h w, e) (find_value-map_values p m h)
  ]

pub is_some-map_given :
    {A : Type 0} (f : A → A) (o : Option A) → is_some (map_given f o) ≡ is_some o
is_some-map_given f none = refl
is_some-map_given f (some a) = refl
