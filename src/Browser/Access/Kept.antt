-- ===== src/Browser/Access/Kept.antt =====
-- What holds on the pages behind the gate, and what of it a change of the wallet keeps.
pub mod Answers
use afri_pay.Base.{
  ◌≡◌, refl, sym, subst, ap, ◌∙◌, inl, inr, Bool, true, false, ◌&&◌, ◌||◌, List, [], ◌∷◌, ◌++◌,
  Option, none, some, arith, Text, trim, any, All, Result, ok, err, is_ok, Result-cases, Bool-cases,
}
use afri_pay.Stellar.Validation.{is_given}
use afri_pay.Wallet.{
  EncryptedWallet, readable, Crypto, Draws, Keypair, Wallet, opened, encrypt_wallet, decrypt_wallet,
  create_wallet, import_as, unlock_with,
}
use afri_pay.Wallet.Secrets.{IsSound, encrypt_wallet_owner, decrypt_wallet_owner, opened-IsSound}
use afri_pay.Browser.Access.{Setup, Provider, no_setup, is_unlocked, drop_backup, change}
use afri_pay.Browser.Access.Forms.{
  Onboarding, Unlock, create_answered, import_answered, unlock_answered, Flight, creating,
  importing, unlocking,
}
use afri_pay.Browser.Access.Runs.{App, is_unlocking, unlocked}

-- An unlock in flight is of the wallet that is held.
abbrev pub IsCurrent : Wallet → Flight → Type 0
IsCurrent w (creating password) = Unit
IsCurrent w (importing secret password) = Unit
IsCurrent w (unlocking wallet password) = w.encrypted ≡ some wallet

pub held-IsCurrent :
    (w v : Wallet) (flights : List Flight)
    → w.encrypted ≡ v.encrypted
    → All (IsCurrent w) flights
    → All (IsCurrent v) flights
held-IsCurrent w v [] e h = tt
held-IsCurrent w v (creating password ∷ flights) e h = (tt, held-IsCurrent w v flights e h.1)
held-IsCurrent w v (importing secret password ∷ flights) e h =
    (tt, held-IsCurrent w v flights e h.1)
held-IsCurrent w v (unlocking wallet password ∷ flights) e h =
    (sym e ∙ h.0, held-IsCurrent w v flights e h.1)

pub no_unlock-IsCurrent :
    (w : Wallet) (flights : List Flight)
    → any is_unlocking flights ≡ false
    → All (IsCurrent w) flights
no_unlock-IsCurrent w [] h = tt
no_unlock-IsCurrent w (creating password ∷ flights) h = (tt, no_unlock-IsCurrent w flights h)
no_unlock-IsCurrent w (importing secret password ∷ flights) h =
    (tt, no_unlock-IsCurrent w flights h)
no_unlock-IsCurrent w (unlocking wallet password ∷ flights) h = absurd (cc)

IsCurrent-middle :
    (w : Wallet) (before : List Flight) (f : Flight) (after : List Flight)
    → All (IsCurrent w) (before ++ f ∷ after)
    → IsCurrent w f × All (IsCurrent w) (before ++ after)
IsCurrent-middle w [] f after h = (h.0, h.1)
IsCurrent-middle w (g ∷ before) f after h =
    let (here, rest) = IsCurrent-middle w before f after h.1 in (here, (h.0, rest))

pub change-wallet : (w : Wallet) (p : Provider) → (change w p).wallet ≡ w
unfolding change drop_backup
change-wallet w p = ground arith

-- A change that leaves the wallet unlocked keeps the backup on screen.
change-kept : (w : Wallet) (p : Provider) → is_unlocked w ≡ true → (change w p).setup ≡ p.setup
unfolding change drop_backup
change-kept w p h = ground arith

-- A locked wallet shows no backup, if it showed none before where it was locked before.
pub change-clean :
    (w : Wallet) (p : Provider)
    → is_unlocked w ≡ false
    → (is_unlocked p.wallet ≡ false → is_given p.setup.backup_secret ≡ false)
    → is_given (change w p).setup.backup_secret ≡ false
unfolding change drop_backup
change-clean w p h k = elim (Bool-cases (is_unlocked p.wallet)) [
  | inl unlocked ↦ ground arith
  | inr locked ↦ let clean = k locked in ground arith
]

module _ (crypto : Crypto) where
  -- What a call of the wallet for a new secret leaves.
  pub data Fresh (w : Wallet) : Bool → Wallet → Type 0 where
    refused : Fresh w false w
    accepted :
        (wallet : EncryptedWallet) (key secret : Text)
        → wallet.public_key ≡ key
        → crypto.public_key_of (trim secret) ≡ some key
        → Fresh w true (opened wallet key secret w)

  pub create_wallet-Fresh :
      (pair : Keypair) (draws : Draws) (password : Text) (w : Wallet)
      → let r = create_wallet crypto pair draws password w in Fresh w (is_ok r.0) r.1
  unfolding create_wallet
  create_wallet-Fresh pair draws password w =
      elim (Result-cases (encrypt_wallet crypto draws pair.secret pair.public_key password)) [
        | inr (x, e) ↦ rw (e, create_wallet) refused
        | inl (wallet, e) ↦
            let (same, owner) =
              encrypt_wallet_owner crypto draws pair.secret pair.public_key password e in
            rw (e, create_wallet) (accepted wallet pair.public_key pair.secret same owner)
      ]

  pub import_as-Fresh :
      (draws : Draws) (raw_secret password : Text) (o : Option Text) (w : Wallet)
      → let r = import_as crypto draws raw_secret password o w in Fresh w (is_ok r.0) r.1
  import_as-Fresh draws raw_secret password none w = refused
  import_as-Fresh draws raw_secret password (some key) w =
      elim (Result-cases (encrypt_wallet crypto draws (trim raw_secret) key password)) [
        | inr (x, e) ↦ rw (e, import_as) refused
        | inl (wallet, e) ↦
            let (same, owner) =
              encrypt_wallet_owner crypto draws (trim raw_secret) key password e in
            rw (e, import_as) (accepted wallet key (trim raw_secret) same owner)
      ]

  pub record IsKept (w : Wallet) (setup : Setup) (flights : List Flight) (overtaken : Bool)
      : Type 0 where
    pub owned :
        (secret : Text)
        → w.secret ≡ some secret
        → (key : Text) × (w.address ≡ some key) × (crypto.public_key_of (trim secret) ≡ some key)
    pub cleared : w.secret ≡ none → w.address ≡ none
    pub clean : is_unlocked w ≡ false → is_given setup.backup_secret ≡ false
    pub saved : (x : EncryptedWallet) → w.encrypted ≡ some x → w.stored ≡ some (readable x)
    pub current : overtaken ≡ false → All (IsCurrent w) flights
    pub sound : overtaken ≡ false → IsSound crypto w

  -- Another setup and other flights of the same wallet.
  pub beside-IsKept :
      {w : Wallet} {setup : Setup} (setup' : Setup) {flights : List Flight} (left : List Flight)
      {overtaken : Bool}
      → IsKept w setup flights overtaken
      → (is_unlocked w ≡ false → is_given setup'.backup_secret ≡ false)
      → (All (IsCurrent w) flights → All (IsCurrent w) left)
      → IsKept w setup' left overtaken
  beside-IsKept setup' left k clean lands = record {
    owned = k.owned;
    cleared = k.cleared;
    clean = clean;
    saved = k.saved;
    current = λ h. lands (k.current h);
    sound = k.sound;
  }

  abbrev pub IsKeptBy : App → Type 0
  IsKeptBy a = IsKept a.provider.wallet a.provider.setup a.flights a.overtaken

  -- What is left of the flights after one of them.
  pub landed-IsCurrent :
      (w : Wallet) {flights : List Flight} (before : List Flight) (f : Flight) (after : List Flight)
      → flights ≡ before ++ f ∷ after
      → All (IsCurrent w) flights
      → IsCurrent w f × All (IsCurrent w) (before ++ after)
  landed-IsCurrent w before f after e h =
      IsCurrent-middle w before f after (subst (All (IsCurrent w)) e h)

  pub Fresh-IsKept :
      {w v : Wallet} {accepts : Bool} {setup : Setup} (setup' : Setup) {flights : List Flight}
      (left : List Flight) {overtaken : Bool}
      → Fresh w accepts v
      → IsKept w setup flights overtaken
      → (is_unlocked v ≡ false → is_given setup'.backup_secret ≡ false)
      → (All (IsCurrent w) flights → All (IsCurrent w) left)
      → IsKept v setup' left (overtaken || accepts && any is_unlocking left)
  Fresh-IsKept setup' left {overtaken} refused k clean lands = record {
    owned = k.owned;
    cleared = k.cleared;
    clean = clean;
    saved = k.saved;
    current = λ h. lands (k.current (ground arith));
    sound = λ h. k.sound (ground arith);
  }
  Fresh-IsKept {w} setup' left {overtaken} (accepted wallet key secret same owner) k clean lands =
      record {
        owned = λ s h. (key, refl, ap (λ t. crypto.public_key_of (trim t)) (ground arith) ∙ owner);
        cleared = λ h. absurd (cc);
        clean = clean;
        saved = λ x h. ground arith;
        current = λ h. no_unlock-IsCurrent (opened wallet key secret w) left (ground arith);
        sound = λ h. opened-IsSound crypto wallet key secret w same owner;
      }

  -- A change of the secret alone.
  pub cleared-IsKept :
      (p : Provider) (v : Wallet) {flights : List Flight} (left : List Flight) {overtaken : Bool}
      → v.secret ≡ none
      → v.address ≡ none
      → IsKept p.wallet p.setup flights overtaken
      → ((x : EncryptedWallet) → v.encrypted ≡ some x → v.stored ≡ some (readable x))
      → {overtaken' : Bool} → (overtaken' ≡ false → All (IsCurrent v) left)
      → IsKept v (change v p).setup left overtaken'
  cleared-IsKept p v left no_secret no_address k saved current = record {
    owned = λ s h. absurd (cc);
    cleared = λ h. no_address;
    clean = λ h. change-clean v p h k.clean;
    saved = saved;
    current = current;
    sound = λ h s e. absurd (cc);
  }
