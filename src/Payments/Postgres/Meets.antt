-- ===== src/Payments/Postgres/Meets.antt =====
-- Two runs beside each other: how their answers and their states are related.
use Prim.Native.String.{String}
use afri_pay.Base.{Result, ok, err, Error, conflict}
use afri_pay.Base.Actions.{Action, ◌>>=◌}

-- Both end well, or both with a conflict, or both with the same error.
pub data Meets {S S' A A' : Type 0} (J : A → S → A' → S' → Type 0) (Q : S → S' → Type 0)
    : Result A × S → Result A' × S' → Type 0 where
  end_well : (a : A) (s : S) (a' : A') (s' : S') → J a s a' s' → Meets J Q (ok a, s) (ok a', s')
  conflict_both :
      (x y : String) (s : S) (s' : S')
      → Q s s'
      → Meets J Q (err (conflict x), s) (err (conflict y), s')
  fail_alike : (e : Error) (s : S) (s' : S') → Q s s' → Meets J Q (err e, s) (err e, s')

module _ {S S' A A' B B' : Type 0} {J : A → S → A' → S' → Type 0} {K : B → S → B' → S' → Type 0}
    {Q : S → S' → Type 0} where
  go_on :
      {x : Result A × S} {x' : Result A' × S'} (f : A → Action S B) (f' : A' → Action S' B')
      → Meets J Q x x'
      → ((a : A) (s : S) (a' : A') (s' : S') → J a s a' s' → Meets K Q (f a s) (f' a' s'))
      → Meets K Q
          (elim x.0 as (λ _. Result B × S) [ ok a ↦ f a x.1 | err e ↦ (err e, x.1) ])
          (elim x'.0 as (λ _. Result B' × S') [ ok a ↦ f' a x'.1 | err e ↦ (err e, x'.1) ])
  go_on f f' (end_well a s a' s' j) k = k a s a' s' j
  go_on f f' (conflict_both x y s s' q) k = conflict_both x y s s' q
  go_on f f' (fail_alike e s s' q) k = fail_alike e s s' q

  -- Steps that meet, with rests that meet from wherever they end, meet as a whole.
  pub Meets-bind :
      (m : Action S A) (m' : Action S' A') (f : A → Action S B) (f' : A' → Action S' B') (s : S)
      (s' : S')
      → Meets J Q (m s) (m' s')
      → ((a : A) (t : S) (a' : A') (t' : S') → J a t a' t' → Meets K Q (f a t) (f' a' t'))
      → Meets K Q ((m >>= f) s) ((m' >>= f') s')
  unfolding ◌>>=◌
  Meets-bind m m' f f' s s' h k = go_on f f' h k
