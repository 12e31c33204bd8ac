-- ===== src/Browser/Access.antt =====
-- Which wallet is open: `WalletProvider` of frontend/src/components/wallet/WalletProvider.tsx, with
-- the hook of Wallet, and `WalletGate` of frontend/src/components/wallet/WalletGate.tsx.
pub mod Forms
pub mod Runs
pub mod Kept
pub mod Owned
use afri_pay.Base.{Bool, true, false, not, ◌||◌, ◌&&◌, Option, none, some, Text, if◌then◌else◌}
use afri_pay.Stellar.Validation.{is_given}
use afri_pay.Wallet.{Wallet}

-- `setup`: whether a wallet is being created, and the secret whose backup is not acknowledged yet.
pub record Setup : Type 0 where
  pub active : Bool
  pub backup_secret : Option Text

pub record Provider : Type 0 where
  pub wallet : Wallet
  pub setup : Setup

abbrev pub no_setup : Setup
no_setup = record { active = false; backup_secret = none }

-- `isUnlocked: Boolean(secret)`
abbrev pub is_unlocked : Wallet → Bool
is_unlocked w = is_given w.secret

abbrev pub is_held {ℓ} : {A : Type ℓ} → Option A → Bool
is_held none = false
is_held (some a) = true

abbrev pub begin_setup : Provider → Provider
begin_setup p = record p { setup = record { active = true; backup_secret = none } }

abbrev pub show_backup : Text → Provider → Provider
show_backup secret p = record p { setup = record { active = true; backup_secret = some secret } }

abbrev pub end_setup : Provider → Provider
end_setup p = record p { setup = no_setup }

-- The effect on `isUnlocked`: a locked wallet drops the secret that is still on screen.
unfoldable pub drop_backup : Provider → Provider
drop_backup p =
    if is_unlocked p.wallet then p else if is_given p.setup.backup_secret then end_setup p else p

-- A change of the wallet, with the effect where `isUnlocked` is another one than before.
unfoldable pub change : Wallet → Provider → Provider
unfolding drop_backup
change w p =
    let p' = record p { wallet = w } in
    if is_unlocked w && is_unlocked p.wallet
    then p'
    else if is_unlocked w || is_unlocked p.wallet
    then drop_backup p'
    else p'

-- What the gate shows.
pub data GateScreen : Type 0 where
  loading : GateScreen
  backup : GateScreen
  onboarding : GateScreen
  locked : GateScreen
  children : GateScreen

unfoldable pub gate : Provider → GateScreen
gate p =
    if not p.wallet.ready
    then loading
    else if is_given p.setup.backup_secret
    then backup
    else if p.setup.active || not (is_held p.wallet.encrypted)
    then onboarding
    else if not (is_unlocked p.wallet)
    then locked
    else children
