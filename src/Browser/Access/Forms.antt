-- ===== src/Browser/Access/Forms.antt =====
-- The forms behind the gate: `Onboarding` and `BackupSecret` of
-- frontend/src/components/onboarding/Onboarding.tsx, `Unlock` of Unlock.tsx beside it, and
-- `RemoveWalletDialog` of frontend/src/components/wallet/RemoveWalletDialog.tsx. A method that awaits
-- is two functions: up to its call of the wallet, and from there on.
use Prim.Native.String.{String}
use afri_pay.Base.{
  Bool, true, false, not, ◌&&◌, leb, Option, none, some, [], Text, length, text_eq, Result, ok, err,
  if◌then◌else◌,
}
use afri_pay.Wallet.{
  EncryptedWallet, Crypto, Draws, Keypair, Wallet, create_wallet, import_wallet, unlock_with,
  remove,
}
use afri_pay.Browser.Send.{message_of}
use afri_pay.Browser.Access.{Provider, begin_setup, show_backup, end_setup, change}

pub data OnboardingStep : Type 0 where
  welcome : OnboardingStep
  creation : OnboardingStep
  import : OnboardingStep

pub record Onboarding : Type 0 where
  pub step : OnboardingStep
  pub password : Text
  pub confirm : Text
  pub secret : Text
  pub submitted : Bool
  pub busy : Bool
  pub error : Option String

abbrev pub blank_onboarding : Onboarding
blank_onboarding = record {
  step = welcome;
  password = [];
  confirm = [];
  secret = [];
  submitted = false;
  busy = false;
  error = none;
}

unfoldable pub has_mismatch : Onboarding → Bool
has_mismatch f = f.submitted && leb 1 (length f.confirm) && not (text_eq f.password f.confirm)

unfoldable pub go : OnboardingStep → Onboarding → Onboarding
go next f = record f {
  step = next;
  password = [];
  confirm = [];
  secret = [];
  submitted = false;
  error = none;
}

-- The call of the wallet that a form awaits, with what its closure holds.
pub data Flight : Type 0 where
  creating : Text → Flight
  importing : Text → Text → Flight
  unlocking : EncryptedWallet → Text → Flight

abbrev pub start_call :
    OnboardingStep → Onboarding → Provider → (Onboarding × Provider) × Option Flight
start_call creation f p = ((f, begin_setup p), some (creating f.password))
start_call welcome f p = ((f, p), some (importing f.secret f.password))
start_call import f p = ((f, p), some (importing f.secret f.password))

-- `submit` of `Onboarding` up to its call.
unfoldable pub submit_form : Onboarding → Provider → (Onboarding × Provider) × Option Flight
submit_form f p =
    let asked = record f { submitted = true; error = none } in
    if text_eq f.password f.confirm
    then start_call f.step (record asked { busy = true }) p
    else ((asked, p), none)

abbrev pub form_done : Onboarding → Onboarding
form_done f = record f { password = []; confirm = []; secret = []; busy = false }

abbrev pub form_failed : String → Onboarding → Onboarding
form_failed message f = record f { error = some message; busy = false }

abbrev pub create_answered : Result Keypair × Wallet → Onboarding × Provider → Onboarding × Provider
create_answered (ok created, w) (f, p) = (form_done f, show_backup created.secret (change w p))
create_answered (err e, w) (f, p) = (form_failed (message_of e) f, end_setup (change w p))

abbrev pub import_answered : Result Text × Wallet → Onboarding × Provider → Onboarding × Provider
import_answered (ok address, w) (f, p) = (form_done f, change w p)
import_answered (err e, w) (f, p) = (form_failed (message_of e) f, end_setup (change w p))

module _ (crypto : Crypto) where
  -- `submit` of `Onboarding` from the wallet's answer on, for a creation.
  unfoldable pub create_finished :
      Keypair → Draws → Text → Onboarding × Provider → Onboarding × Provider
  create_finished pair draws password s =
      create_answered (create_wallet crypto pair draws password s.1.wallet) s

  -- The same for an import.
  unfoldable pub import_finished :
      Draws → Text → Text → Onboarding × Provider → Onboarding × Provider
  import_finished draws secret password s =
      import_answered (import_wallet crypto draws secret password s.1.wallet) s

pub record Unlock : Type 0 where
  pub password : Text
  pub busy : Bool
  pub error : Option String
  pub forgot : Bool
  pub removing : Bool

abbrev pub blank_unlock : Unlock
blank_unlock = record {
  password = [];
  busy = false;
  error = none;
  forgot = false;
  removing = false;
}

abbrev pub unlock_failed : Unlock → Unlock
unlock_failed f = record f {
  busy = false;
  error = some "That password didn’t work. Check it and try again.";
}

-- `unlock` of `Unlock` up to its call; without an encrypted wallet the call throws at once.
unfoldable pub submit_unlock : Unlock → Option EncryptedWallet → Unlock × Option Flight
submit_unlock f none = (unlock_failed f, none)
submit_unlock f (some wallet) =
    (record f { busy = true; error = none }, some (unlocking wallet f.password))

abbrev pub unlock_answered : Result Text × Wallet → Unlock × Provider → Unlock × Provider
unlock_answered (ok address, w) (f, p) = (record f { password = []; busy = false }, change w p)
unlock_answered (err e, w) (f, p) = (unlock_failed f, change w p)

-- The same from the wallet's answer on.
unfoldable pub unlock_finished :
    Crypto → EncryptedWallet → Text → Unlock × Provider → Unlock × Provider
unlock_finished crypto wallet password s =
    unlock_answered (unlock_with crypto password (some wallet) s.1.wallet) s

-- `BackupSecret`: the box can be ticked once the secret has been shown, and the button leads on once
-- the box is ticked.
pub record Backup : Type 0 where
  pub revealed : Bool
  pub confirmed : Bool

abbrev pub hidden : Backup
hidden = record { revealed = false; confirmed = false }

abbrev pub reveal : Backup → Backup
reveal b = record b { revealed = true }

unfoldable pub tick : Bool → Backup → Backup
tick checked b = if b.revealed then record b { confirmed = checked } else b

unfoldable pub acknowledge : Backup → Provider → Provider
acknowledge b p = if b.confirmed then end_setup p else p

-- `RemoveWalletDialog`: the button removes once the box is ticked.
unfoldable pub remove_acknowledged : Bool → Provider → Provider
remove_acknowledged acknowledged p = if acknowledged then change (remove p.wallet) p else p
