-- ===== src/Wallet.antt =====
-- The wallet in the browser: frontend/src/lib/wallet.ts and frontend/src/hooks/useNativeWallet.ts.
pub mod Idle
pub mod Secrets
use afri_pay.Base.{
  ℕ, Bool, true, false, not, ◌||◌, List, [], ◌∷◌, Option, none, some, Text, codes, text_eq,
  is_empty, trim, length, ltb, ◌==◌, Result, ok, err, plain, throw_if, if◌then◌else◌,
}
use afri_pay.Base.Results.{◌>>=◌, ◌>>◌}
use afri_pay.Base.Actions.{Action, lift, pure, modify}

pub record EncryptedWallet : Type 0 where
  pub version : ℕ
  pub public_key : Text
  pub ciphertext : Text
  pub salt : Text
  pub iv : Text
  pub kdf : Text
  pub iterations : ℕ
  pub created_at : Text
  pub network : Text

abbrev pub kdf_iterations : ℕ
kdf_iterations = 310000

-- The libraries: the public key of a secret (none is a throw), AES-GCM under a key derived from a
-- password, a salt and an iv, all in base64 (none is a throw), and the length of what a base64 text
-- decodes to.
pub record Crypto : Type 0 where
  pub public_key_of : Text → Option Text
  pub encrypt : Text → Text → Text → Text → Text
  pub decrypt : Text → Text → Text → Text → Option Text
  pub decoded_length : Text → Option ℕ

-- What is drawn at random for an encryption, and the time.
pub record Draws : Type 0 where
  pub salt : Text
  pub iv : Text
  pub created_at : Text

pub record Keypair : Type 0 where
  pub public_key : Text
  pub secret : Text

-- What stands under the key in the browser's storage: a text that is not JSON, or a wallet.
pub data Stored : Type 0 where
  unreadable : Stored
  readable : EncryptedWallet → Stored

-- The storage and the state of the hook.
pub record Wallet : Type 0 where
  pub stored : Option Stored
  pub encrypted : Option EncryptedWallet
  pub address : Option Text
  pub secret : Option Text
  pub ready : Bool

-- `base64ToBytes(s).length !== n`; a throw of `atob` is an error as well.
abbrev pub length_differs : Option ℕ → ℕ → Result Bool
length_differs none n = err (plain "InvalidCharacterError")
length_differs (some k) n = ok (not (k == n))

-- `a || b` where `b` may throw.
abbrev pub or_else_check : Bool → Result Bool → Result Bool
or_else_check true later = ok true
or_else_check false later = later

abbrev pub other_key : Option Text → Text → Bool
other_key none public_key = true
other_key (some key) public_key = not (text_eq key public_key)

abbrev pub expect_secret : Option Text → Result Text
expect_secret none = err (plain "OperationError")
expect_secret (some secret) = ok secret

-- `readEncryptedWallet`, in a browser.
unfoldable pub read_encrypted_wallet : Option Stored → Option EncryptedWallet
read_encrypted_wallet none = none
read_encrypted_wallet (some unreadable) = none
read_encrypted_wallet (some (readable wallet)) =
    if not (wallet.version == 1)
      || not (text_eq wallet.network (codes "testnet"))
      || is_empty wallet.public_key
      || is_empty wallet.ciphertext
    then none
    else some wallet

-- What `create` and `importWallet` write once the wallet is encrypted.
abbrev pub opened : EncryptedWallet → Text → Text → Wallet → Wallet
opened wallet public_key secret w = record w {
  stored = some (readable wallet);
  encrypted = some wallet;
  address = some public_key;
  secret = some secret;
}

module _ (crypto : Crypto) where
  -- `validateSecret`: the public key, or none where the secret is not valid.
  unfoldable pub validate_secret : Text → Option Text
  validate_secret secret = crypto.public_key_of (trim secret)

  unfoldable pub encrypt_wallet : Draws → Text → Text → Text → Result EncryptedWallet
  encrypt_wallet draws secret public_key password = do
    throw_if (ltb (length password) 8) (plain "Wallet password must be at least 8 characters")
    throw_if (other_key (validate_secret secret) public_key) (plain "Wallet key mismatch")
    ok (record {
      version = 1;
      public_key = public_key;
      ciphertext = crypto.encrypt password draws.salt draws.iv secret;
      salt = draws.salt;
      iv = draws.iv;
      kdf = codes "PBKDF2-SHA-256";
      iterations = kdf_iterations;
      created_at = draws.created_at;
      network = codes "testnet";
    })

  unfoldable pub has_bad_metadata : EncryptedWallet → Result Bool
  has_bad_metadata wallet =
      or_else_check
        (not (wallet.version == 1)
          || not (text_eq wallet.network (codes "testnet"))
          || not (text_eq wallet.kdf (codes "PBKDF2-SHA-256"))
          || not (wallet.iterations == kdf_iterations))
        (do
          bad_salt ← length_differs (crypto.decoded_length wallet.salt) 16
          or_else_check bad_salt (length_differs (crypto.decoded_length wallet.iv) 12))

  unfoldable pub decrypt_wallet : EncryptedWallet → Text → Result Text
  unfolding has_bad_metadata
  decrypt_wallet wallet password = do
    bad ← has_bad_metadata wallet
    throw_if bad (plain "Invalid wallet metadata")
    secret ← expect_secret (crypto.decrypt password wallet.salt wallet.iv wallet.ciphertext)
    throw_if (other_key (validate_secret secret) wallet.public_key) (plain "Wallet key mismatch")
    ok secret

  -- A new pair is drawn for the call.
  unfoldable pub create_wallet : Keypair → Draws → Text → Action Wallet Keypair
  unfolding encrypt_wallet validate_secret
  create_wallet pair draws password w =
      elim (encrypt_wallet draws pair.secret pair.public_key password) [
        | err e ↦ (err e, w)
        | ok wallet ↦ (ok pair, opened wallet pair.public_key pair.secret w)
      ]

  abbrev pub import_as : Draws → Text → Text → Option Text → Action Wallet Text
  import_as draws raw_secret password none w = (err (plain "Invalid Stellar secret key"), w)
  import_as draws raw_secret password (some public_key) w =
      elim (encrypt_wallet draws (trim raw_secret) public_key password) [
        | err e ↦ (err e, w)
        | ok wallet ↦ (ok public_key, opened wallet public_key (trim raw_secret) w)
      ]

  unfoldable pub import_wallet : Draws → Text → Text → Action Wallet Text
  unfolding validate_secret
  import_wallet draws raw_secret password w =
      import_as draws raw_secret password (validate_secret raw_secret) w

  abbrev pub unlock_with : Text → Option EncryptedWallet → Action Wallet Text
  unlock_with password none w = (err (plain "No encrypted wallet found"), w)
  unlock_with password (some wallet) w = elim (decrypt_wallet wallet password) [
    | err e ↦ (err e, w)
    | ok secret ↦
        (ok wallet.public_key, record w { secret = some secret; address = some wallet.public_key })
  ]

  unfoldable pub unlock : Text → Action Wallet Text
  unfolding decrypt_wallet
  unlock password w = unlock_with password w.encrypted w

-- `lock`, and what the timer of fifteen minutes does.
unfoldable pub lock : Wallet → Wallet
lock w = record w { secret = none; address = none }

unfoldable pub remove : Wallet → Wallet
remove w = record w { stored = none; encrypted = none; secret = none; address = none }

-- The hook's first effect.
unfoldable pub mount : Wallet → Wallet
mount w = record w { encrypted = read_encrypted_wallet w.stored; ready = true }
