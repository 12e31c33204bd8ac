-- ===== src/Guards/RateLimit.antt =====
-- `RateLimitGuard` of backend/src/auth/rate-limit.guard.ts. The clients are counted in one process.
use afri_pay.Base.{
  ◌&&◌, ℕ, ◌+◌, ◌-◌, ◌≤◌, ◌<◌, ◌≡◌, ◌∙◌, Bool, true, false, List, [], ◌∷◌, Option, none, some,
  arith, Text, text_eq, text_eq_iff, Map, get, set, get-set, get-set_self, All, length, ltb, leb,
  if◌then◌else◌, Result, ok, err, is_ok, Option-cases, Bool-cases, inl, inr, too_many_requests,
}
use afri_pay.Base.Actions.{Action}

pub record Client : Type 0 where
  pub count : ℕ
  pub reset : ℕ

abbrev pub window_ms : ℕ
window_ms = 60000

abbrev pub most_clients : ℕ
most_clients = 10000

-- `for (const [key, value] of this.clients) if (value.reset <= now) this.clients.delete(key);`
unfoldable pub sweep : ℕ → Map Client → Map Client
sweep now [] = []
sweep now ((ip, client) ∷ clients) =
    let rest = sweep now clients in if leb client.reset now then rest else (ip, client) ∷ rest

-- `Number.isInteger(configured) && configured > 0 ? configured : 60`; `number` reads an integer that
-- is not negative, and is none for any other text.
abbrev pub limit_of : (Text → Option ℕ) → Option Text → ℕ
limit_of number none = 60
limit_of number (some text) = positive_or_60 (number text)
  where
    positive_or_60 : Option ℕ → ℕ
    positive_or_60 none = 60
    positive_or_60 (some n) = if ltb 0 n then n else 60

-- `if (++client.count > limit) throw …`: the client is counted whether or not it passes.
unfoldable pub admit : ℕ → Text → Client → Action (Map Client) Bool
admit limit ip client clients =
    let counted : Client = record client { count = client.count + 1 } in
    if ltb limit counted.count
    then (err (too_many_requests "Too many requests; retry later"), set ip counted clients)
    else (ok true, set ip counted clients)

unfoldable pub can_activate : ℕ → Text → ℕ → Action (Map Client) Bool
unfolding admit sweep
can_activate limit ip now clients =
    let live = sweep now clients in
    elim (get ip live) [
      | some client ↦ admit limit ip client live
      | none ↦
          if leb most_clients (length live)
          then (err (too_many_requests "Request capacity exceeded"), live)
          else admit limit ip (record { count = 0; reset = now + window_ms }) live
    ]

-- The calls of the guard for a sequence of requests, each with the ip and the reading of the clock;
-- how many requests of one ip pass.
pub record Request : Type 0 where
  pub ip : Text
  pub now : ℕ

abbrev pub passed : Bool → Result Bool → ℕ
passed mine result = if mine && is_ok result then 1 else 0

pub accepted : ℕ → Text → List Request → Map Client → ℕ
accepted limit ip [] clients = 0
accepted limit ip (r ∷ rs) clients =
    passed (text_eq r.ip ip) (can_activate limit r.ip r.now clients).0
    + accepted limit ip rs (can_activate limit r.ip r.now clients).1

sweep-get :
    (now : ℕ) (ip : Text) (m : Map Client) {c : Client}
    → get ip m ≡ some c
    → now < c.reset
    → get ip (sweep now m) ≡ some c
unfolding sweep get
sweep-get now ip [] h alive = absurd (ground arith)
sweep-get now ip ((j, d) ∷ m) {c} h alive = elim (Bool-cases (leb d.reset now)) [
  | inl over ↦ ground (arith, sweep-get now ip m {c = c})
  | inr live ↦ rw live (ground (arith, sweep-get now ip m {c = c}))
]

admit_other :
    (limit : ℕ) (j ip : Text) (d : Client) (m : Map Client)
    → text_eq j ip ≡ false
    → get ip (admit limit j d m).1 ≡ get ip m
unfolding admit
admit_other limit j ip d m other = ground (arith, get-set j ip (record d { count = d.count + 1 }) m)

-- A request of another client leaves the count of a client as it is.
can_activate_other :
    (limit : ℕ) (j ip : Text) (now : ℕ) (m : Map Client) {c : Client}
    → get ip m ≡ some c
    → now < c.reset
    → text_eq j ip ≡ false
    → get ip (can_activate limit j now m).1 ≡ some c
unfolding can_activate
can_activate_other limit j ip now m {c} h alive other =
    let kept = sweep-get now ip m {c = c} h alive in
    elim (Option-cases (get j (sweep now m))) [
      | inr (d, e) ↦ rw (e, can_activate) (admit_other limit j ip d (sweep now m) other ∙ kept)
      | inl e ↦
          rw (e, can_activate)
            (elim (Bool-cases (leb most_clients (length (sweep now m)))) [
              | inl full ↦ rw full kept
              | inr room ↦ rw room (
                  admit_other limit j ip (record { count = 0; reset = now + window_ms })
                    (sweep now m) other
                  ∙ kept)
            ])
    ]

-- A request of the client counts, and passes if the limit is not reached.
can_activate_own :
    (limit : ℕ) (ip : Text) (now : ℕ) (m : Map Client) {c : Client}
    → get ip m ≡ some c
    → now < c.reset
    → (get ip (can_activate limit ip now m).1 ≡ some (record c { count = c.count + 1 }))
      × (is_ok (can_activate limit ip now m).0 ≡ leb (c.count + 1) limit)
unfolding can_activate admit
can_activate_own limit ip now m {c} h alive = ground (
  arith,
  sweep-get now ip m {c = c} h alive,
  get-set_self ip (record c { count = c.count + 1 }) (sweep now m),
)

-- Of any sequence of requests of any clients, all before the end of the window of one client that
-- the map holds, no more requests of this client pass than the limit less its count.
pub passes_in_window :
    (limit : ℕ) (ip : Text) (rs : List Request) (m : Map Client) {c : Client}
    → get ip m ≡ some c
    → All (λ r. r.now < c.reset) rs
    → accepted limit ip rs m ≤ limit - c.count
unfolding accepted
passes_in_window limit ip [] m {c} h alive = omega arith
passes_in_window limit ip (r ∷ rs) m {c} h (now, later) = elim (Bool-cases (text_eq r.ip ip)) [
  | inr other ↦
      let kept = can_activate_other limit r.ip ip r.now m {c = c} h now other in
      rw other (
        omega (
          arith,
          passes_in_window limit ip rs (can_activate limit r.ip r.now m).1 {c = c} kept later,
        ))
  | inl mine ↦
      let c' : Client = record c { count = c.count + 1 } in
      let same : r.ip ≡ ip = (text_eq_iff r.ip ip).0 mine in
      let (counted, passes) = can_activate_own limit ip r.now m {c = c} h now in
      let rest =
        passes_in_window limit ip rs (can_activate limit ip r.now m).1 {c = c'} counted later in
      rw (mine, same) (ground arith)
]
