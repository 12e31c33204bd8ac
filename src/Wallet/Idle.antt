-- ===== src/Wallet/Idle.antt =====
-- The timer that locks a wallet that nobody uses: the effect on `secret` of the hook
-- frontend/src/hooks/useNativeWallet.ts. Time is in milliseconds, and a timer fires when it is due.
use afri_pay.Base.{
  ℕ, zero, suc, ◌+◌, ◌≤◌, ◌<◌, ◌≡◌, refl, sym, ap, ◌∙◌, subst, Bool, true, false, Option, none,
  some, arith, Text, text_eq, text_eq_sound, leb, ltb, Bool-cases, inl, inr, if◌then◌else◌,
}
use afri_pay.Stellar.Validation.{is_given}
use afri_pay.Wallet.{Wallet, lock}

abbrev pub idle_ms : ℕ
idle_ms = 900000

-- The wallet, the time, when the timer is due, and when it was last set.
pub record Idle : Type 0 where
  pub wallet : Wallet
  pub now : ℕ
  pub due : Option ℕ
  pub since : ℕ

unfoldable pub same_secret : Option Text → Option Text → Bool
same_secret none none = true
same_secret none (some b) = false
same_secret (some a) none = false
same_secret (some a) (some b) = text_eq a b

abbrev pub timer_for : Option Text → ℕ → Option ℕ
timer_for secret now = if is_given secret then some (now + idle_ms) else none

-- What an operation leaves; the effect runs again where the secret is another.
unfoldable pub set_wallet : Wallet → Idle → Idle
unfolding same_secret
set_wallet w s =
    if same_secret s.wallet.secret w.secret
    then record s { wallet = w }
    else record s { wallet = w; due = timer_for w.secret s.now; since = s.now }

-- `reset`, on a pointer, a key or a touch; without a secret nothing listens.
abbrev reset_due : Option ℕ → Idle → Idle
reset_due none s = s
reset_due (some d) s = record s { due = some (s.now + idle_ms); since = s.now }

unfoldable pub reset_timer : Idle → Idle
reset_timer s = reset_due s.due s

abbrev fire : Option ℕ → Idle → Idle
unfolding lock
fire none s = s
fire (some d) s = if leb d s.now then record s { wallet = lock s.wallet; due = none } else s

-- A millisecond passes.
unfoldable pub elapse : Idle → Idle
unfolding lock
elapse s = fire s.due (record s { now = s.now + 1 })

-- Nothing but time passes.
unfoldable pub wait : ℕ → Idle → Idle
unfolding elapse
wait zero s = s
wait (suc n) s = elapse (wait n s)

-- Whatever operations leave, uses of the page, and time.
pub data Reach : Idle → Type 0 where
  mounts :
      (w : Wallet) (now : ℕ)
      → w.secret ≡ none
      → Reach (record { wallet = w; now = now; due = none; since = now })
  sets : (w : Wallet) {s : Idle} → Reach s → Reach (set_wallet w s)
  resets : {s : Idle} → Reach s → Reach (reset_timer s)
  elapses : {s : Idle} → Reach s → Reach (elapse s)

-- A timer runs for a secret in memory, is due 900000 milliseconds after it was set, and not yet.
record IsTimed (s : Idle) : Type 0 where
  pub running :
      is_given s.wallet.secret ≡ true
      → (s.due ≡ some (s.since + idle_ms)) × (s.now < s.since + idle_ms)
  pub stopped : is_given s.wallet.secret ≡ false → s.due ≡ none

same_secret_sound : (a b : Option Text) → same_secret a b ≡ true → a ≡ b
unfolding same_secret
same_secret_sound none none e = refl
same_secret_sound none (some b) e = absurd (cc)
same_secret_sound (some a) none e = absurd (cc)
same_secret_sound (some a) (some b) e = ap (λ t. some t) (text_eq_sound a b e)

timer_for-IsTimed :
    (w : Wallet) (now : ℕ)
    → IsTimed (record { wallet = w; now = now; due = timer_for w.secret now; since = now })
timer_for-IsTimed w now = record {
  running = λ e. (rw e refl, omega arith);
  stopped = λ e. rw e refl;
}

set_wallet-IsTimed : (w : Wallet) {s : Idle} → IsTimed s → IsTimed (set_wallet w s)
unfolding set_wallet
set_wallet-IsTimed w {s} t = elim (Bool-cases (same_secret s.wallet.secret w.secret)) [
  | inl same ↦
      let e = ap (λ x. is_given x) (same_secret_sound s.wallet.secret w.secret same) in
      rw same record { running = λ h. t.running (e ∙ h); stopped = λ h. t.stopped (e ∙ h) }
  | inr other ↦ rw other (timer_for-IsTimed w s.now)
]

reset_timer-IsTimed : {s : Idle} → IsTimed s → IsTimed (reset_timer s)
unfolding reset_timer
reset_timer-IsTimed {s} t = elim (Bool-cases (is_given s.wallet.secret)) [
  | inl unlocked ↦
      rw (t.running unlocked).0
        record { running = λ e. (refl, omega arith); stopped = λ e. absurd (cc) }
  | inr shut ↦ rw (t.stopped shut) record { running = λ e. absurd (cc); stopped = λ e. refl }
]

leb_early : (now d : ℕ) → now + 1 < d → leb d (now + 1) ≡ false
leb_early now d early = ground arith

leb_due : (now d : ℕ) → d ≤ now + 1 → leb d (now + 1) ≡ true
leb_due now d late = ground arith

-- A timer that is due in a while lets the time pass; one that is due now locks.
elapse_soon :
    (s : Idle) {d : ℕ} → s.due ≡ some d → s.now + 1 < d → elapse s ≡ record s { now = s.now + 1 }
unfolding elapse
elapse_soon s {d} e early = rw (e, leb_early s.now d early) refl

elapse_due :
    (s : Idle) {d : ℕ}
    → s.due ≡ some d
    → d ≤ s.now + 1
    → elapse s ≡ record s { wallet = lock s.wallet; now = s.now + 1; due = none }
unfolding elapse
elapse_due s {d} e late = rw (e, leb_due s.now d late) refl

elapse-none : (s : Idle) → s.due ≡ none → elapse s ≡ record s { now = s.now + 1 }
unfolding elapse
elapse-none s e = rw e refl

elapse-IsTimed : {s : Idle} → IsTimed s → IsTimed (elapse s)
unfolding lock
elapse-IsTimed {s} t = elim (Bool-cases (is_given s.wallet.secret)) [
  | inl unlocked ↦ elim (Bool-cases (ltb (s.now + 1) (s.since + idle_ms))) [
    | inl early ↦
        subst IsTimed (sym (elapse_soon s (t.running unlocked).0 (ground arith))) (record {
          running = λ e. ((t.running unlocked).0, ground arith);
          stopped = λ e. absurd (cc);
        })
    | inr late ↦
        subst IsTimed (sym (elapse_due s (t.running unlocked).0 (ground arith)))
          (record { running = λ e. absurd (cc); stopped = λ e. refl })
  ]
  | inr shut ↦
      subst IsTimed (sym (elapse-none s (t.stopped shut)))
        (record { running = λ e. absurd (cc); stopped = λ e. t.stopped shut })
]

Reach-IsTimed : {s : Idle} → Reach s → IsTimed s
Reach-IsTimed (mounts w now e) = record { running = λ h. absurd (cc); stopped = λ h. refl }
Reach-IsTimed (sets w r) = set_wallet-IsTimed w (Reach-IsTimed r)
Reach-IsTimed (resets r) = reset_timer-IsTimed (Reach-IsTimed r)
Reach-IsTimed (elapses r) = elapse-IsTimed (Reach-IsTimed r)

wait_early :
    (n : ℕ) (s : Idle) {d : ℕ}
    → s.due ≡ some d
    → s.now + n < d
    → wait n s ≡ record s { now = s.now + n }
unfolding wait
wait_early zero s e early = ap (λ t. record s { now = t }) (omega arith)
wait_early (suc n) s {d} e early =
    ap (λ x. elapse x) (wait_early n s e (omega (arith, early)))
    ∙ elapse_soon (record s { now = s.now + n }) e (omega (arith, early))
    ∙ ap (λ t. record s { now = t }) (omega arith)

wait_due :
    (n : ℕ) (s : Idle) {d : ℕ}
    → s.due ≡ some d
    → s.now < d
    → d ≤ s.now + n
    → wait n s ≡ record s { wallet = lock s.wallet; now = s.now + n; due = none }
unfolding wait
wait_due zero s e before late = absurd (omega (arith, before, late))
wait_due (suc n) s {d} e before late = elim (Bool-cases (ltb (s.now + n) d)) [
  | inl early ↦
      ap (λ x. elapse x) (wait_early n s e (ground arith))
      ∙ elapse_due (record s { now = s.now + n }) e (omega (arith, late))
      ∙ ap (λ t. record s { wallet = lock s.wallet; now = t; due = none }) (omega arith)
  | inr passed ↦
      ap (λ x. elapse x) (wait_due n s e before (ground arith))
      ∙ elapse-none (record s { wallet = lock s.wallet; now = s.now + n; due = none }) refl
      ∙ ap (λ t. record s { wallet = lock s.wallet; now = t; due = none }) (omega arith)
]

-- In every state that operations of the wallet, uses of the page and time have led to, if a secret
-- is in memory: once nothing but time passes, the wallet stays as it is for as long as less than
-- 900000 milliseconds have gone by since its timer was last set, and is locked from then on.
pub idle_locks :
    {s : Idle}
    → Reach s
    → is_given s.wallet.secret ≡ true
    → (n : ℕ)
    → (wait n s).wallet ≡ (if ltb (s.now + n) (s.since + idle_ms) then s.wallet else lock s.wallet)
idle_locks {s} r unlocked n =
    let timed = (Reach-IsTimed r).running unlocked in
    elim (Bool-cases (ltb (s.now + n) (s.since + idle_ms))) [
      | inl early ↦ rw early (ap (λ x. x.wallet) (wait_early n s timed.0 (ground arith)))
      | inr late ↦ rw late (ap (λ x. x.wallet) (wait_due n s timed.0 timed.1 (ground arith)))
    ]
