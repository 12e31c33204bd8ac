-- ===== src/Browser/Access/Owned.antt =====
-- Whose secret is in memory, on the pages behind the gate.
use afri_pay.Base.{
  ◌≡◌, ◌≢◌, refl, inl, inr, Bool, true, false, List, ◌∷◌, ◌++◌, Option, none, some, arith, Text,
  trim, text_eq, Bool-cases, All, if◌then◌else◌,
}
use afri_pay.Stellar.Validation.{is_given}
use afri_pay.Wallet.{
  EncryptedWallet, Stored, readable, unreadable, Crypto, Wallet, read_encrypted_wallet,
  validate_secret, create_wallet, import_wallet, unlock_with, lock, remove, mount,
}
use afri_pay.Wallet.Secrets.{IsOpenFor}
use afri_pay.Browser.Access.{Provider, begin_setup, no_setup, is_unlocked, change, children, gate}
use afri_pay.Browser.Access.Forms.{
  Onboarding, Unlock, start_call, OnboardingStep, creation, import, welcome, Flight, creating,
  importing, unlocking, submit_form, create_finished, import_finished, submit_unlock,
  unlock_finished, acknowledge, remove_acknowledged,
}
use afri_pay.Browser.Access.Runs.{
  App, start, page, submitted, unlock_submitted, removed, unlocked, Event, turns, types, submits,
  creates, imports, types_password, submits_unlock, unlocks, reveals, ticks, acknowledges, locks,
  removes, Reach, opens, next,
}
use afri_pay.Browser.Access.Kept.{
  beside-IsKept, held-IsCurrent, no_unlock-IsCurrent, change-wallet, IsCurrent, IsKept, IsKeptBy,
  landed-IsCurrent, create_wallet-Fresh, import_as-Fresh, cleared-IsKept,
}
use afri_pay.Browser.Access.Kept.Answers.{
  create_wallet_secret, create_answered-IsKept, import_answered-IsKept, unlock_with-Opens,
  unlock_answered-IsKept,
}

module _ (crypto : Crypto) where
  abbrev KeepsStart : List Flight → Bool → (Onboarding × Provider) × Option Flight → Type 0
  KeepsStart flights overtaken x =
      IsKept crypto x.0.1.wallet x.0.1.setup (start x.1 flights) overtaken

  start_call-IsKept :
      (step : OnboardingStep) (f : Onboarding) (p : Provider) (flights : List Flight)
      {overtaken : Bool}
      → IsKept crypto p.wallet p.setup flights overtaken
      → KeepsStart flights overtaken (start_call step f p)
  start_call-IsKept welcome f p flights k =
      beside-IsKept crypto p.setup (importing f.secret f.password ∷ flights) k k.clean
        (λ h. (tt, h))
  start_call-IsKept creation f p flights k =
      beside-IsKept crypto (begin_setup p).setup (creating f.password ∷ flights) k (λ h. refl)
        (λ h. (tt, h))
  start_call-IsKept import f p flights k =
      beside-IsKept crypto p.setup (importing f.secret f.password ∷ flights) k k.clean
        (λ h. (tt, h))

  if-KeepsStart :
      (b : Bool) (x y : (Onboarding × Provider) × Option Flight) (flights : List Flight)
      {overtaken : Bool}
      → KeepsStart flights overtaken x
      → KeepsStart flights overtaken y
      → KeepsStart flights overtaken (if b then x else y)
  if-KeepsStart true x y flights h k = h
  if-KeepsStart false x y flights h k = k

  submitted-IsKept : (a : App) → IsKeptBy crypto a → IsKeptBy crypto (submitted crypto a)
  unfolding submit_form
  submitted-IsKept a k =
      let asked = record a.form { submitted = true; error = none } in
      let working = record asked { busy = true } in
      if-KeepsStart (text_eq a.form.password a.form.confirm)
        (start_call a.form.step working a.provider) ((asked, a.provider), none) a.flights
        (start_call-IsKept a.form.step working a.provider a.flights k) k

  submit_unlock-IsCurrent :
      (f : Unlock) (w : Wallet) (o : Option EncryptedWallet) (flights : List Flight)
      → w.encrypted ≡ o
      → All (IsCurrent w) flights
      → All (IsCurrent w) (start (submit_unlock f o).1 flights)
  unfolding submit_unlock
  submit_unlock-IsCurrent f w none flights e h = h
  submit_unlock-IsCurrent f w (some wallet) flights e h = (e, h)

  unlock_submitted-IsKept :
      (a : App) → IsKeptBy crypto a → IsKeptBy crypto (unlock_submitted crypto a)
  unlock_submitted-IsKept a k =
      let w = a.provider.wallet in
      beside-IsKept crypto a.provider.setup (start (submit_unlock a.unlock w.encrypted).1 a.flights)
        k k.clean (submit_unlock-IsCurrent a.unlock w w.encrypted a.flights refl)

  acknowledged-IsKept :
      (a : App)
      → IsKeptBy crypto a
      → IsKeptBy crypto (record a { provider = acknowledge a.backup a.provider })
  unfolding acknowledge
  acknowledged-IsKept a k = elim (Bool-cases a.backup.confirmed) [
    | inl ticked ↦ rw ticked (beside-IsKept crypto no_setup a.flights k (λ h. refl) (λ h. h))
    | inr blank ↦ rw blank k
  ]

  removed-IsKept : (a : App) → IsKeptBy crypto a → IsKeptBy crypto (removed crypto a)
  unfolding remove_acknowledged remove
  removed-IsKept a k =
      let w = remove a.provider.wallet in
      rw (change-wallet w a.provider) (
        cleared-IsKept crypto a.provider w a.flights refl refl k (λ x h. absurd (cc))
          (λ h. no_unlock-IsCurrent w a.flights (ground arith)))

  locked-IsKept :
      (a : App)
      → IsKeptBy crypto a
      → IsKeptBy crypto (record a { provider = change (lock a.provider.wallet) a.provider })
  unfolding lock
  locked-IsKept a k =
      let w = lock a.provider.wallet in
      rw (change-wallet w a.provider) (
        cleared-IsKept crypto a.provider w a.flights refl refl k k.saved
          (λ h. held-IsCurrent a.provider.wallet w a.flights refl (k.current h)))

  Event-IsKept : {a b : App} → Event crypto a b → IsKeptBy crypto a → IsKeptBy crypto b
  unfolding create_finished import_finished unlock_finished import_wallet
  Event-IsKept (turns step h) k = k
  Event-IsKept (types password confirm secret h) k = k
  Event-IsKept {a} (submits h form idle) k = submitted-IsKept a k
  Event-IsKept {a} (creates pair draws password before after e) k =
      create_answered-IsKept crypto a.provider a.form
        (create_wallet crypto pair draws password a.provider.wallet) (before ++ after)
        (create_wallet-Fresh crypto pair draws password a.provider.wallet)
        (λ made. create_wallet_secret crypto pair draws password a.provider.wallet) k
        (λ h. (landed-IsCurrent crypto a.provider.wallet before (creating password) after e h).1)
  Event-IsKept {a} (imports draws secret password before after e) k =
      import_answered-IsKept crypto a.provider a.form
        (import_wallet crypto draws secret password a.provider.wallet) (before ++ after)
        (import_as-Fresh crypto draws secret password (validate_secret crypto secret)
          a.provider.wallet)
        k
        (λ h.
          (landed-IsCurrent crypto a.provider.wallet before (importing secret password) after e
            h).1)
  Event-IsKept (types_password password forgot removing h) k = k
  Event-IsKept {a} (submits_unlock h idle) k = unlock_submitted-IsKept a k
  Event-IsKept {a} (unlocks wallet password before after e) k =
      unlock_answered-IsKept crypto a.provider a.unlock
        (unlock_with crypto password (some wallet) a.provider.wallet) wallet (before ++ after)
        (unlock_with-Opens crypto password wallet a.provider.wallet) k
        (λ h.
          landed-IsCurrent crypto a.provider.wallet before (unlocking wallet password) after e h)
  Event-IsKept (reveals h) k = k
  Event-IsKept (ticks checked h) k = k
  Event-IsKept {a} (acknowledges h) k = acknowledged-IsKept a k
  Event-IsKept {a} (locks h) k = locked-IsKept a k
  Event-IsKept {a} (removes h) k = removed-IsKept a k

  mount-saved :
      (stored : Option Stored) (x : EncryptedWallet)
      → read_encrypted_wallet stored ≡ some x
      → stored ≡ some (readable x)
  unfolding read_encrypted_wallet
  mount-saved none x h = absurd (cc)
  mount-saved (some unreadable) x h = absurd (cc)
  mount-saved (some (readable wallet)) x h = ground arith

  page-IsKept : (stored : Option Stored) → IsKeptBy crypto (page stored)
  unfolding mount
  page-IsKept stored = record {
    owned = λ s h. absurd (cc);
    cleared = λ h. refl;
    clean = λ h. refl;
    saved = mount-saved stored;
    current = λ h. tt;
    sound = λ h s e. absurd (cc);
  }

  Reach-IsKept : {stored : Option Stored} {a : App} → Reach crypto stored a → IsKeptBy crypto a
  Reach-IsKept {stored} opens = page-IsKept stored
  Reach-IsKept (next r event) = Event-IsKept event (Reach-IsKept r)

  gate_children :
      (p : Provider)
      → gate p ≡ children
      → (is_unlocked p.wallet ≡ true)
        × (is_given p.setup.backup_secret ≡ false)
        × (p.setup.active ≡ false)
  unfolding gate
  gate_children p h = ground arith

  given_secret : (o : Option Text) → is_given o ≡ true → (s : Text) × (o ≡ some s)
  given_secret none h = absurd (cc)
  given_secret (some s) h = (s, refl)

  -- Whenever the events on the pages behind the gate, in which the answers of the wallet's calls
  -- may come after other events, have led to the gate showing its children, and no wallet was
  -- removed or replaced while it was being unlocked: a secret is in memory, the address shown, the
  -- encrypted wallet and the wallet in storage are those of its public key, and no backup is
  -- waiting to be acknowledged.
  pub children_open :
      {stored : Option Stored} {a : App}
      → Reach crypto stored a
      → a.overtaken ≡ false
      → gate a.provider ≡ children
      → let w = a.provider.wallet in
        (secret : Text) × (w.secret ≡ some secret)
        × (o : IsOpenFor crypto secret w) × (w.stored ≡ some (readable o.wallet))
        × (is_given a.provider.setup.backup_secret ≡ false)
  children_open {stored} {a} r current shown =
      let k = Reach-IsKept r in
      let (unlocked, clean, active) = gate_children a.provider shown in
      let (secret, held) = given_secret a.provider.wallet.secret unlocked in
      let o = k.sound current secret held in (secret, held, o, k.saved o.wallet o.encrypted, clean)

  -- On every page that these events lead to, also where a wallet is removed while it is being
  -- unlocked: a secret in memory is one of the address shown, and where no secret is in memory, no
  -- address is shown, no secret waits on screen for its backup, and the gate does not show its
  -- children.
  pub secret_shown :
      {stored : Option Stored} {a : App}
      → Reach crypto stored a
      → let w = a.provider.wallet in
        ((secret : Text)
          → w.secret ≡ some secret
          → (key : Text) × (w.address ≡ some key) × (crypto.public_key_of (trim secret) ≡ some key))
        × (w.secret ≡ none
            → (w.address ≡ none)
              × (is_given a.provider.setup.backup_secret ≡ false)
              × (gate a.provider ≢ children))
  secret_shown {stored} {a} r =
      let k = Reach-IsKept r in
      (
        k.owned,
        λ e.
            let locked : is_unlocked a.provider.wallet ≡ false = rw e refl in
            (
              k.cleared e,
              k.clean locked,
              λ h. let (unlocked, clean, active) = gate_children a.provider h in absurd (cc),
            ),
      )
