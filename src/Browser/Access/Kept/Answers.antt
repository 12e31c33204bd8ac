-- ===== src/Browser/Access/Kept/Answers.antt =====
-- What the answers of the wallet's calls keep, on the pages behind the gate.
use afri_pay.Base.{
  ◌≡◌, refl, ap, ◌∙◌, inl, inr, Bool, true, ◌&&◌, ◌||◌, List, some, arith, Text, trim, any, All,
  Result, ok, err, is_ok, Result-cases,
}
use afri_pay.Wallet.{
  EncryptedWallet, Crypto, Draws, Keypair, Wallet, opened, decrypt_wallet, create_wallet,
  unlock_with,
}
use afri_pay.Wallet.Secrets.{decrypt_wallet_owner}
use afri_pay.Browser.Access.{Provider, no_setup, change}
use afri_pay.Browser.Access.Forms.{
  Onboarding, Unlock, create_answered, import_answered, unlock_answered, Flight,
}
use afri_pay.Browser.Access.Runs.{is_unlocking}
use afri_pay.Browser.Access.Kept.{
  IsCurrent, change-clean, change-wallet, Fresh, IsKept, Fresh-IsKept,
}

module _ (crypto : Crypto) where
  pub create_wallet_secret :
      (pair : Keypair) (draws : Draws) (password : Text) (w : Wallet) {created : Keypair}
      → (create_wallet crypto pair draws password w).0 ≡ ok created
      → (create_wallet crypto pair draws password w).1.secret ≡ some created.secret
  unfolding create_wallet
  create_wallet_secret pair draws password w h = ground arith

  pub create_answered-IsKept :
      (p : Provider) (f : Onboarding) (x : Result Keypair × Wallet) {flights : List Flight}
      (left : List Flight) {overtaken : Bool}
      → Fresh crypto p.wallet (is_ok x.0) x.1
      → ((made : Keypair) → x.0 ≡ ok made → x.1.secret ≡ some made.secret)
      → IsKept crypto p.wallet p.setup flights overtaken
      → (All (IsCurrent p.wallet) flights → All (IsCurrent p.wallet) left)
      → let p' = (create_answered x (f, p)).1 in
        IsKept crypto p'.wallet p'.setup left (overtaken || is_ok x.0 && any is_unlocking left)
  create_answered-IsKept p f (ok made, v) left fresh holds k lands =
      let secret = holds made refl in
      rw (change-wallet v p) (
        Fresh-IsKept crypto (record { active = true; backup_secret = some made.secret }) left fresh
          k (λ h. ground arith) lands)
  create_answered-IsKept p f (err e, v) left fresh holds k lands =
      rw (change-wallet v p) (Fresh-IsKept crypto no_setup left fresh k (λ h. refl) lands)

  pub import_answered-IsKept :
      (p : Provider) (f : Onboarding) (x : Result Text × Wallet) {flights : List Flight}
      (left : List Flight) {overtaken : Bool}
      → Fresh crypto p.wallet (is_ok x.0) x.1
      → IsKept crypto p.wallet p.setup flights overtaken
      → (All (IsCurrent p.wallet) flights → All (IsCurrent p.wallet) left)
      → let p' = (import_answered x (f, p)).1 in
        IsKept crypto p'.wallet p'.setup left (overtaken || is_ok x.0 && any is_unlocking left)
  import_answered-IsKept p f (ok address, v) left fresh k lands =
      rw (change-wallet v p) (
        Fresh-IsKept crypto (change v p).setup left fresh k (λ h. change-clean v p h k.clean) lands)
  import_answered-IsKept p f (err e, v) left fresh k lands =
      rw (change-wallet v p) (Fresh-IsKept crypto no_setup left fresh k (λ h. refl) lands)

  -- What an unlock of a wallet leaves.
  pub data Opens (wallet : EncryptedWallet) (w : Wallet) : Wallet → Type 0 where
    fails : Opens wallet w w
    opens_with :
        (secret : Text)
        → crypto.public_key_of (trim secret) ≡ some wallet.public_key
        → Opens wallet w (record w { secret = some secret; address = some wallet.public_key })

  pub unlock_with-Opens :
      (password : Text) (wallet : EncryptedWallet) (w : Wallet)
      → Opens wallet w (unlock_with crypto password (some wallet) w).1
  unlock_with-Opens password wallet w =
      elim (Result-cases (decrypt_wallet crypto wallet password)) [
        | inr (x, e) ↦ rw (e, unlock_with) fails
        | inl (secret, e) ↦
            rw (e, unlock_with) (opens_with secret (decrypt_wallet_owner crypto wallet password e))
      ]

  Opens-IsKept :
      (p : Provider) {v : Wallet} (wallet : EncryptedWallet) {flights : List Flight}
      (left : List Flight) {overtaken : Bool}
      → Opens wallet p.wallet v
      → IsKept crypto p.wallet p.setup flights overtaken
      → (All (IsCurrent p.wallet) flights
          → (p.wallet.encrypted ≡ some wallet) × All (IsCurrent p.wallet) left)
      → IsKept crypto v (change v p).setup left overtaken
  Opens-IsKept p wallet left fails k lands = record {
    owned = k.owned;
    cleared = k.cleared;
    clean = λ h. change-clean p.wallet p h k.clean;
    saved = k.saved;
    current = λ h. (lands (k.current h)).1;
    sound = k.sound;
  }
  Opens-IsKept p wallet left (opens_with secret owner) k lands = record {
    owned = λ s h.
        (wallet.public_key, refl, ap (λ t. crypto.public_key_of (trim t)) (ground arith) ∙ owner);
    cleared = λ h. absurd (cc);
    clean = λ h.
        change-clean (record p.wallet { secret = some secret; address = some wallet.public_key }) p
          h k.clean;
    saved = k.saved;
    current = λ h. (lands (k.current h)).1;
    sound = λ h s e. record {
      wallet = wallet;
      encrypted = (lands (k.current h)).0;
      address = refl;
      owns = ap (λ t. crypto.public_key_of (trim t)) (ground arith) ∙ owner;
    };
  }

  pub unlock_answered-IsKept :
      (p : Provider) (f : Unlock) (x : Result Text × Wallet) (wallet : EncryptedWallet)
      {flights : List Flight} (left : List Flight) {overtaken : Bool}
      → Opens wallet p.wallet x.1
      → IsKept crypto p.wallet p.setup flights overtaken
      → (All (IsCurrent p.wallet) flights
          → (p.wallet.encrypted ≡ some wallet) × All (IsCurrent p.wallet) left)
      → let p' = (unlock_answered x (f, p)).1 in IsKept crypto p'.wallet p'.setup left overtaken
  unlock_answered-IsKept p f (ok address, v) wallet left opened k lands =
      rw (change-wallet v p) (Opens-IsKept p wallet left opened k lands)
  unlock_answered-IsKept p f (err e, v) wallet left opened k lands =
      rw (change-wallet v p) (Opens-IsKept p wallet left opened k lands)
