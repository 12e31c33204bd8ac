-- ===== src/Tests/OfWallet.antt =====
-- The wallet in the browser.
use afri_pay.Base.{◌+◌, ◌≡◌, refl, true, none, some, codes, ltb, if◌then◌else◌}
use afri_pay.Wallet.{Crypto, Draws, Keypair, Wallet, lock}
use afri_pay.Wallet.Idle.{
  Idle, idle_ms, set_wallet, same_secret, reset_timer, elapse, wait, Reach, mounts, sets, resets,
  elapses, idle_locks,
}

-- A cipher that leaves the secret as it is.
abbrev pub crypto : Crypto
crypto = record {
  public_key_of = λ secret. some (codes "GA");
  encrypt = λ password salt iv secret. secret;
  decrypt = λ password salt iv ciphertext. some ciphertext;
  decoded_length = λ s. some 16;
}

abbrev pub pair : Keypair
pair = record { public_key = codes "GA"; secret = codes "SA" }

abbrev pub draws : Draws
draws = record { salt = codes "s"; iv = codes "i"; created_at = codes "t0" }

abbrev blank : Wallet
blank = record { stored = none; encrypted = none; address = none; secret = none; ready = true }

abbrev unlocked : Wallet
unlocked = record blank { address = some (codes "GA"); secret = some (codes "SA") }

abbrev mounted : Idle
mounted = record { wallet = blank; now = 0; due = none; since = 0 }

-- Unlocked at once, and used a millisecond later.
abbrev used : Idle
used = elapse (reset_timer (elapse (set_wallet unlocked mounted)))

uses : Reach used
uses = elapses (resets (elapses (sets unlocked (mounts blank 0 refl))))

still_unlocked : used.wallet ≡ unlocked
unfolding set_wallet same_secret reset_timer elapse
still_unlocked = refl

idle_locks_example :
    (wait 899999 used).wallet
    ≡ (if ltb (used.now + 899999) (used.since + idle_ms) then used.wallet else lock used.wallet)
unfolding set_wallet same_secret reset_timer elapse
idle_locks_example = idle_locks uses refl 899999
