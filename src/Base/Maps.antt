-- ===== src/Base/Maps.antt =====
-- `Map<string, V>` of JavaScript: entries in insertion order; writing a present key keeps its place.
use mathlib.Core.Path.{◌≡◌, refl}
use mathlib.Core.Logic.{inl, inr}
use mathlib.Core.Bool.{Bool, true, false}
use mathlib.Core.Option.{Option, none, some}
use mathlib.Core.List.{List, [], ◌∷◌}
use native.Mathlib.Omega.{arith}
use afri_pay.Base.Tests.{if◌then◌else◌, Bool-cases, is_some}
use afri_pay.Base.Strings.{Text, text_eq, text_eq_iff, text_eq_refl}

abbrev pub Map {ℓ} : Type ℓ → Type ℓ
Map V = List (Text × V)

module _ {ℓ} {V : Type ℓ} where
  -- `m.get(k)`.
  unfoldable pub get : Text → Map V → Option V
  get k [] = none
  get k ((j, v) ∷ m) = if text_eq j k then some v else get k m

  -- `m.set(k, v)`.
  unfoldable pub set : Text → V → Map V → Map V
  set k v [] = (k, v) ∷ []
  set k v ((j, w) ∷ m) = if text_eq j k then (k, v) ∷ m else (j, w) ∷ set k v m

  -- `m.delete(k)`.
  unfoldable pub delete : Text → Map V → Map V
  delete k [] = []
  delete k ((j, w) ∷ m) = if text_eq j k then m else (j, w) ∷ delete k m

  -- `[...m.values()].find(p)`.
  unfoldable pub find_value : (V → Bool) → Map V → Option V
  find_value p [] = none
  find_value p ((j, v) ∷ m) = if p v then some v else find_value p m

  -- `[...m.values()].filter(p)`.
  unfoldable pub filter_values : (V → Bool) → Map V → List V
  filter_values p [] = []
  filter_values p ((j, v) ∷ m) = let rest = filter_values p m in if p v then v ∷ rest else rest

  -- Each key stands once.
  abbrev pub Distinct : Map V → Type ℓ
  Distinct [] = Unit
  Distinct ((k, v) ∷ m) = (get k m ≡ none) × Distinct m

  pub get-set :
      (k j : Text) (v : V) (m : Map V)
      → get j (set k v m) ≡ (if text_eq k j then some v else get j m)
  unfolding get set
  get-set k j v [] = refl
  get-set k j v ((i, w) ∷ m) =
      ground (arith, text_eq_iff i k, text_eq_iff k j, text_eq_iff i j, get-set k j v m)

  pub get-set_self : (k : Text) (v : V) (m : Map V) → get k (set k v m) ≡ some v
  get-set_self k v m = rw get-set (rw (text_eq_refl k) refl)

  pub set-Distinct : (k : Text) (v : V) (m : Map V) → Distinct m → Distinct (set k v m)
  unfolding get set
  set-Distinct k v [] d = (refl, tt)
  set-Distinct k v ((i, w) ∷ m) (fresh, d) =
      ground (arith, text_eq_iff i k, text_eq_iff k i, get-set k i v m, set-Distinct k v m d)

  -- What a search over the values finds stands under some key.
  pub find_value-get :
      (p : V → Bool) (m : Map V) {v : V}
      → Distinct m
      → find_value p m ≡ some v
      → (k : Text) × (get k m ≡ some v) × (p v ≡ true)
  unfolding get find_value
  find_value-get p [] d h = ground arith
  find_value-get p ((i, w) ∷ m) {v} (fresh, d) h = elim (Bool-cases (p w)) [
    | inl hit ↦ (i, ground (arith, text_eq_refl i), ground arith)
    | inr miss ↦
        let (k, found, good) = find_value-get p m {v = v} d (ground arith) in
        (k, ground (arith, text_eq_iff i k), good)
  ]

  pub find_value-none :
      (p : V → Bool) (m : Map V) (k : Text) {v : V}
      → find_value p m ≡ none
      → get k m ≡ some v
      → p v ≡ false
  unfolding get find_value
  find_value-none p [] k h g = ground arith
  find_value-none p ((i, w) ∷ m) k {v} h g =
      ground (arith, text_eq_iff i k, find_value-none p m k {v = v})

  -- A value that is written is found by a test that no other value passes.
  pub find_value-set :
      (p : V → Bool) (k : Text) (v : V) (m : Map V)
      → find_value p m ≡ none
      → p v ≡ true
      → find_value p (set k v m) ≡ some v
  unfolding find_value set
  find_value-set p k v [] h e = ground arith
  find_value-set p k v ((i, w) ∷ m) h e = ground (arith, find_value-set p k v m)

  -- What a search finds once a value stands under a fresh key.
  pub find_value-set_fresh :
      (p : V → Bool) (k : Text) (v : V) (m : Map V)
      → get k m ≡ none
      → is_some (find_value p m) ≡ true
      → is_some (find_value p (set k v m)) ≡ true
  unfolding get find_value set
  find_value-set_fresh p k v [] fresh h = ground arith
  find_value-set_fresh p k v ((i, w) ∷ m) fresh h =
      ground (arith, text_eq_iff i k, find_value-set_fresh p k v m)

  -- Writing over a value that passes the test alike loses no hit.
  pub find_value-set_same :
      (p : V → Bool) (k : Text) (v old : V) (m : Map V)
      → get k m ≡ some old
      → p v ≡ p old
      → is_some (find_value p (set k v m)) ≡ is_some (find_value p m)
  unfolding get find_value set
  find_value-set_same p k v old [] held e = ground arith
  find_value-set_same p k v old ((i, w) ∷ m) held e =
      ground (arith, find_value-set_same p k v old m)

  pub find_value-some :
      (p : V → Bool) (m : Map V) (k : Text) (v : V)
      → get k m ≡ some v
      → p v ≡ true
      → is_some (find_value p m) ≡ true
  unfolding get find_value
  find_value-some p [] k v held e = ground arith
  find_value-some p ((i, w) ∷ m) k v held e = ground (arith, find_value-some p m k v)
