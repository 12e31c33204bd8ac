-- ===== src/Wallet/Secrets.antt =====
-- Which secret an open wallet holds.
use mathlib.Core.Path.{subst}
use afri_pay.Base.{
  ◌≡◌, refl, sym, ap, ◌∙◌, inl, inr, Bool, Option, none, some, arith, Text, text_eq_iff, trim, ok,
  Result-cases,
}
use afri_pay.Wallet.{
  EncryptedWallet, Crypto, Draws, Keypair, Wallet, validate_secret, encrypt_wallet, decrypt_wallet,
  other_key, opened, import_as, unlock_with, create_wallet, import_wallet, unlock, lock, remove,
}

module _ (crypto : Crypto) where
  -- A secret in memory belongs to the address that is shown and to the encrypted wallet.
  pub record IsOpenFor (secret : Text) (w : Wallet) : Type 0 where
    pub wallet : EncryptedWallet
    pub encrypted : w.encrypted ≡ some wallet
    pub address : w.address ≡ some wallet.public_key
    pub owns : crypto.public_key_of (trim secret) ≡ some wallet.public_key

  abbrev pub IsSound : Wallet → Type 0
  IsSound w = (secret : Text) → w.secret ≡ some secret → IsOpenFor secret w

  -- What a user, or the timer, may do once the hook is mounted.
  pub data Step (w : Wallet) : Wallet → Type 0 where
    creates :
        (pair : Keypair) (draws : Draws) (password : Text)
        → Step w (create_wallet crypto pair draws password w).1
    imports :
        (draws : Draws) (raw_secret password : Text)
        → Step w (import_wallet crypto draws raw_secret password w).1
    unlocks : (password : Text) → Step w (unlock crypto password w).1
    locks : Step w (lock w)
    removes : Step w (remove w)

  pub data Reach (w : Wallet) : Wallet → Type 0 where
    here : Reach w w
    next : {u v : Wallet} → Reach w u → Step u v → Reach w v

  other_key-false : (o : Option Text) (key : Text) → other_key o key ≡ Bool.false → o ≡ some key
  other_key-false none key h = absurd (cc)
  other_key-false (some k) key h = ground (arith, text_eq_iff k key)

  pub encrypt_wallet_owner :
      (draws : Draws) (secret key password : Text) {wallet : EncryptedWallet}
      → encrypt_wallet crypto draws secret key password ≡ ok wallet
      → (wallet.public_key ≡ key) × (crypto.public_key_of (trim secret) ≡ some key)
  unfolding encrypt_wallet validate_secret
  encrypt_wallet_owner draws secret key password e =
      ground (arith, other_key-false (crypto.public_key_of (trim secret)) key)

  pub decrypt_wallet_owner :
      (wallet : EncryptedWallet) (password : Text) {secret : Text}
      → decrypt_wallet crypto wallet password ≡ ok secret
      → crypto.public_key_of (trim secret) ≡ some wallet.public_key
  unfolding decrypt_wallet validate_secret
  decrypt_wallet_owner wallet password {secret} e =
      ground (arith, other_key-false (crypto.public_key_of (trim secret)) wallet.public_key)

  pub opened-IsSound :
      (wallet : EncryptedWallet) (key secret : Text) (w : Wallet)
      → wallet.public_key ≡ key
      → crypto.public_key_of (trim secret) ≡ some key
      → IsSound (opened wallet key secret w)
  opened-IsSound wallet key secret w same owner secret' h =
      let e : secret ≡ secret' = ground arith in
      subst (λ t. IsOpenFor t (opened wallet key secret w)) e
        (record {
          wallet = wallet;
          encrypted = refl;
          address = ap some (sym same);
          owns = owner ∙ ap some (sym same);
        })

  create_wallet-IsSound :
      (pair : Keypair) (draws : Draws) (password : Text) (w : Wallet)
      → IsSound w
      → IsSound (create_wallet crypto pair draws password w).1
  unfolding create_wallet
  create_wallet-IsSound pair draws password w s =
      elim (Result-cases (encrypt_wallet crypto draws pair.secret pair.public_key password)) [
        | inr (x, e) ↦ rw (e, create_wallet) s
        | inl (wallet, e) ↦
            let (same, owner) = encrypt_wallet_owner draws pair.secret pair.public_key password e in
            rw (e, create_wallet) (opened-IsSound wallet pair.public_key pair.secret w same owner)
      ]

  import_as-IsSound :
      (draws : Draws) (raw_secret password : Text) (o : Option Text) (w : Wallet)
      → IsSound w
      → IsSound (import_as crypto draws raw_secret password o w).1
  import_as-IsSound draws raw_secret password none w s = s
  import_as-IsSound draws raw_secret password (some key) w s =
      elim (Result-cases (encrypt_wallet crypto draws (trim raw_secret) key password)) [
        | inr (x, e) ↦ rw (e, import_as) s
        | inl (wallet, e) ↦
            let (same, owner) = encrypt_wallet_owner draws (trim raw_secret) key password e in
            rw (e, import_as) (opened-IsSound wallet key (trim raw_secret) w same owner)
      ]

  pub unlock_with-IsSound :
      (password : Text) (o : Option EncryptedWallet) (w : Wallet)
      → w.encrypted ≡ o
      → IsSound w
      → IsSound (unlock_with crypto password o w).1
  unlock_with-IsSound password none w held s = s
  unlock_with-IsSound password (some wallet) w held s =
      elim (Result-cases (decrypt_wallet crypto wallet password)) [
        | inr (x, e) ↦ rw (e, unlock_with) s
        | inl (secret, e) ↦
            rw (e, unlock_with)
              λ secret' h.
                let same : secret ≡ secret' = ground arith in
                record {
                  wallet = wallet;
                  encrypted = held;
                  address = refl;
                  owns =
                      ap (λ t. crypto.public_key_of (trim t)) (sym same)
                      ∙ decrypt_wallet_owner wallet password e;
                }
      ]

  Step-IsSound : {w v : Wallet} → Step w v → IsSound w → IsSound v
  unfolding lock remove import_wallet unlock
  Step-IsSound {w} (creates pair draws password) s = create_wallet-IsSound pair draws password w s
  Step-IsSound {w} (imports draws raw_secret password) s =
      import_as-IsSound draws raw_secret password (validate_secret crypto raw_secret) w s
  Step-IsSound {w} (unlocks password) s = unlock_with-IsSound password w.encrypted w refl s
  Step-IsSound locks s = λ secret h. absurd (cc)
  Step-IsSound removes s = λ secret h. absurd (cc)

  -- If it holds at first, then after any sequence of creating, importing, unlocking, locking and
  -- removing a wallet: whenever a secret is in memory, an encrypted wallet is held, the address
  -- shown is its public key, and this is the public key of the trimmed secret.
  pub secret_owned : {w v : Wallet} → Reach w v → IsSound w → IsSound v
  secret_owned here s = s
  secret_owned (next r step) s = Step-IsSound step (secret_owned r s)
