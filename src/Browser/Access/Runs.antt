-- ===== src/Browser/Access/Runs.antt =====
-- The pages behind `WalletGate` of frontend/src/components/wallet/WalletGate.tsx: what the user, the
-- timer and the answers of the wallet's calls lead to. A call runs while the page goes on, so its
-- answer may come after other events.
use afri_pay.Base.{
  ◌≡◌, ◌⊎◌, Bool, true, false, ◌&&◌, ◌||◌, List, [], ◌∷◌, ◌++◌, Option, none, some, Text, any,
  is_ok,
}
use afri_pay.Wallet.{
  EncryptedWallet, Stored, Crypto, Draws, Keypair, create_wallet, import_wallet, lock, mount,
}
use afri_pay.Browser.Access.{
  Provider, no_setup, is_unlocked, change, GateScreen, backup, onboarding, locked, children, gate,
}
use afri_pay.Browser.Access.Forms.{
  OnboardingStep, Onboarding, welcome, blank_onboarding, go, Flight, creating, importing, unlocking,
  submit_form, create_finished, import_finished, Unlock, blank_unlock, submit_unlock,
  unlock_finished, Backup, hidden, reveal, tick, acknowledge, remove_acknowledged,
}

-- The provider, the forms, the calls of the wallet that have not ended, and whether the encrypted
-- wallet was removed or replaced while it was being unlocked.
pub record App : Type 0 where
  pub provider : Provider
  pub form : Onboarding
  pub unlock : Unlock
  pub backup : Backup
  pub flights : List Flight
  pub overtaken : Bool

abbrev pub is_unlocking : Flight → Bool
is_unlocking (creating password) = false
is_unlocking (importing secret password) = false
is_unlocking (unlocking wallet password) = true

abbrev pub start : Option Flight → List Flight → List Flight
start none flights = flights
start (some f) flights = f ∷ flights

abbrev pub has_form : OnboardingStep → Bool
has_form welcome = false
has_form _ = true

abbrev is_backup : GateScreen → Bool
is_backup backup = true
is_backup _ = false

abbrev is_onboarding : GateScreen → Bool
is_onboarding onboarding = true
is_onboarding _ = false

abbrev is_locked : GateScreen → Bool
is_locked locked = true
is_locked _ = false

abbrev renew : {A : Type 0} → Bool → Bool → A → A → A
renew false true blank old = blank
renew false false blank old = old
renew true after blank old = old

-- A form that comes on screen is a new one.
abbrev pub shown_from : App → App → App
shown_from before a =
    let old = gate before.provider in
    let new = gate a.provider in
    record a {
      form = renew (is_onboarding old) (is_onboarding new) blank_onboarding a.form;
      unlock = renew (is_locked old) (is_locked new) blank_unlock a.unlock;
      backup = renew (is_backup old) (is_backup new) hidden a.backup;
    }

-- The page of a browser with this storage.
abbrev pub page : Option Stored → App
page stored = record {
  provider = record {
    wallet = mount (record {
      stored = stored;
      encrypted = none;
      address = none;
      secret = none;
      ready = false;
    });
    setup = no_setup;
  };
  form = blank_onboarding;
  unlock = blank_unlock;
  backup = hidden;
  flights = [];
  overtaken = false;
}

module _ (crypto : Crypto) where
  abbrev pub submitted : App → App
  submitted a =
      let ((f, p), started) = submit_form a.form a.provider in
      record a { form = f; provider = p; flights = start started a.flights }

  abbrev pub created : List Flight → Text → Keypair → Draws → App → App
  created flights password pair draws a =
      let (f, p) = create_finished crypto pair draws password (a.form, a.provider) in
      record a {
        form = f;
        provider = p;
        flights = flights;
        overtaken =
            a.overtaken
            || is_ok (create_wallet crypto pair draws password a.provider.wallet).0
              && any is_unlocking flights;
      }

  abbrev pub imported : List Flight → Text → Text → Draws → App → App
  imported flights secret password draws a =
      let (f, p) = import_finished crypto draws secret password (a.form, a.provider) in
      record a {
        form = f;
        provider = p;
        flights = flights;
        overtaken =
            a.overtaken
            || is_ok (import_wallet crypto draws secret password a.provider.wallet).0
              && any is_unlocking flights;
      }

  abbrev pub unlock_submitted : App → App
  unlock_submitted a =
      let (f, started) = submit_unlock a.unlock a.provider.wallet.encrypted in
      record a { unlock = f; flights = start started a.flights }

  abbrev pub unlocked : List Flight → EncryptedWallet → Text → App → App
  unlocked flights wallet password a =
      let (f, p) = unlock_finished crypto wallet password (a.unlock, a.provider) in
      record a { unlock = f; provider = p; flights = flights }

  abbrev pub removed : App → App
  removed a = record a {
    provider = remove_acknowledged true a.provider;
    overtaken = a.overtaken || any is_unlocking a.flights;
  }

  pub data Event (a : App) : App → Type 0 where
    turns :
        (next : OnboardingStep)
        → gate a.provider ≡ onboarding
        → Event a (record a { form = go next a.form })
    types :
        (password confirm secret : Text)
        → gate a.provider ≡ onboarding
        → Event a (record a {
          form = record a.form { password = password; confirm = confirm; secret = secret };
        })
    submits :
        gate a.provider ≡ onboarding
        → has_form a.form.step ≡ true
        → a.form.busy ≡ false
        → Event a (submitted a)
    creates :
        (pair : Keypair) (draws : Draws) (password : Text) (before after : List Flight)
        → a.flights ≡ before ++ creating password ∷ after
        → Event a (created (before ++ after) password pair draws a)
    imports :
        (draws : Draws) (secret password : Text) (before after : List Flight)
        → a.flights ≡ before ++ importing secret password ∷ after
        → Event a (imported (before ++ after) secret password draws a)
    types_password :
        (password : Text) (forgot removing : Bool)
        → gate a.provider ≡ locked
        → Event a (record a {
          unlock = record a.unlock { password = password; forgot = forgot; removing = removing };
        })
    submits_unlock : gate a.provider ≡ locked → a.unlock.busy ≡ false → Event a (unlock_submitted a)
    unlocks :
        (wallet : EncryptedWallet) (password : Text) (before after : List Flight)
        → a.flights ≡ before ++ unlocking wallet password ∷ after
        → Event a (unlocked (before ++ after) wallet password a)
    reveals : gate a.provider ≡ backup → Event a (record a { backup = reveal a.backup })
    ticks :
        (checked : Bool)
        → gate a.provider ≡ backup
        → Event a (record a { backup = tick checked a.backup })
    acknowledges :
        gate a.provider ≡ backup → Event a (record a { provider = acknowledge a.backup a.provider })
    locks :
        is_unlocked a.provider.wallet ≡ true
        → Event a (record a { provider = change (lock a.provider.wallet) a.provider })
    removes : (gate a.provider ≡ locked) ⊎ (gate a.provider ≡ children) → Event a (removed a)

  pub data Reach (stored : Option Stored) : App → Type 0 where
    opens : Reach stored (page stored)
    next : {a b : App} → Reach stored a → Event a b → Reach stored (shown_from a b)
