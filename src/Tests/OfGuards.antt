-- ===== src/Tests/OfGuards.antt =====
-- The guards of the routes.
use afri_pay.Base.{
  ℕ, ◌-◌, ◌≤◌, ◌≡◌, refl, ◌↔◌, true, [], ◌∷◌, none, some, arith, Text, codes, get, ok, text_eq,
}
use afri_pay.Guards.ApiKey.{Header, single, Admits, can_activate_iff}
use afri_pay.Guards.RateLimit.{Client, Request, accepted, passes_in_window}

can_activate_iff_example :
    (afri_pay.Guards.ApiKey.can_activate (some (codes " key ")) none (single (codes "key"))
      ≡ ok true)
    ↔ Admits (some (codes " key ")) none (single (codes "key"))
can_activate_iff_example = can_activate_iff (some (codes " key ")) none (single (codes "key"))

-- A client with one request left, which asks three times while another one asks once.
abbrev client : Client
client = record { count = 59; reset = 70000 }

abbrev ask : Text → ℕ → Request
ask ip now = record { ip = ip; now = now }

passes_in_window_example :
    accepted 60
      (codes "a")
      (ask (codes "a") 60001
        ∷ ask (codes "b") 60002
        ∷ ask (codes "a") 60003
        ∷ ask (codes "a") 69999
        ∷ [])
      ((codes "a", client) ∷ [])
    ≤ 60 - client.count
unfolding get text_eq
passes_in_window_example =
    passes_in_window 60 (codes "a")
      (ask (codes "a") 60001
        ∷ ask (codes "b") 60002
        ∷ ask (codes "a") 60003
        ∷ ask (codes "a") 69999
        ∷ [])
      ((codes "a", client) ∷ []) {c = client} refl
      (omega arith, (omega arith, (omega arith, (omega arith, tt))))
