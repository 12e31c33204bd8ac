-- ===== src/Tests/OfAccess.antt =====
-- The pages behind the gate.
use afri_pay.Base.{
  ◌≡◌, ◌≢◌, refl, true, false, [], none, some, Text, codes, trim, text_eq, is_space, if◌then◌else◌,
}
use afri_pay.Stellar.Validation.{is_given}
use afri_pay.Wallet.{
  Crypto, readable, create_wallet, encrypt_wallet, validate_secret, mount, read_encrypted_wallet,
  decrypt_wallet, remove, EncryptedWallet,
}
use afri_pay.Wallet.Secrets.{IsOpenFor}
use afri_pay.Browser.Access.{change, drop_backup, gate, children, onboarding}
use afri_pay.Browser.Access.Forms.{
  creation, go, submit_form, create_finished, tick, acknowledge, submit_unlock, unlock_finished,
  remove_acknowledged,
}
use afri_pay.Browser.Access.Runs.{
  App, page, submitted, created, unlock_submitted, unlocked, removed, shown_from, Reach, opens,
  next, turns, types, submits, creates, reveals, ticks, acknowledges,
}
use afri_pay.Browser.Access.Owned.{children_open, secret_shown}
use afri_pay.Tests.OfWallet.{crypto, pair, draws}

abbrev first : App
first = page none

abbrev asked : App
asked = shown_from first (record first { form = go creation first.form })

abbrev typed : App
typed = shown_from asked (record asked {
  form = record asked.form { password = codes "password"; confirm = codes "password" };
})

abbrev sent : App
sent = shown_from typed (submitted crypto typed)

abbrev made : App
made = shown_from sent (created crypto [] (codes "password") pair draws sent)

abbrev revealed : App
revealed = shown_from made (record made { backup = record made.backup { revealed = true } })

abbrev ticked : App
ticked = shown_from revealed (record revealed { backup = tick true revealed.backup })

abbrev kept : App
kept = shown_from ticked (record ticked { provider = acknowledge ticked.backup ticked.provider })

runs : Reach crypto none kept
unfolding gate mount go submit_form create_finished create_wallet encrypt_wallet validate_secret
    change drop_backup tick acknowledge text_eq trim is_space read_encrypted_wallet
runs =
    next
      (next
        (next
          (next
            (next
              (next (next opens (turns creation refl))
                (types (codes "password") (codes "password") [] refl))
              (submits refl refl refl))
            (creates pair draws (codes "password") [] [] refl))
          (reveals refl))
        (ticks true refl))
      (acknowledges refl)

is_open : (gate kept.provider ≡ children) × (kept.overtaken ≡ false)
unfolding gate mount go submit_form create_finished create_wallet encrypt_wallet validate_secret
    change drop_backup tick acknowledge text_eq trim is_space read_encrypted_wallet
is_open = (refl, refl)

children_open_example :
    let w = kept.provider.wallet in
    (secret : Text) × (w.secret ≡ some secret)
    × (o : IsOpenFor crypto secret w) × (w.stored ≡ some (readable o.wallet))
    × (is_given kept.provider.setup.backup_secret ≡ false)
children_open_example = children_open crypto runs is_open.1 is_open.0

secret_shown_example :
    let w = kept.provider.wallet in
    ((secret : Text)
      → w.secret ≡ some secret
      → (key : Text) × (w.address ≡ some key) × (crypto.public_key_of (trim secret) ≡ some key))
    × (w.secret ≡ none
        → (w.address ≡ none)
          × (is_given kept.provider.setup.backup_secret ≡ false)
          × (gate kept.provider ≢ children))
secret_shown_example = secret_shown crypto runs

abbrev stored_wallet : EncryptedWallet
stored_wallet = record {
  version = 1;
  public_key = codes "GA";
  ciphertext = codes "SA";
  salt = codes "s";
  iv = codes "i";
  kdf = codes "PBKDF2-SHA-256";
  iterations = 310000;
  created_at = codes "t0";
  network = codes "testnet";
}

-- A cipher whose salt and iv decode to the lengths that are asked for.
abbrev cipher : Crypto
cipher = record crypto { decoded_length = λ s. if text_eq s (codes "s") then some 16 else some 12 }

-- A locked wallet is removed while it is being unlocked.
abbrev closed : App
closed = page (some (readable stored_wallet))

abbrev late : App
late = unlocked cipher [] stored_wallet [] (removed cipher (unlock_submitted cipher closed))

removed_while_unlocking :
    (late.provider.wallet.secret ≡ some (codes "SA"))
    × (late.provider.wallet.stored ≡ none)
    × (gate late.provider ≡ onboarding)
    × (late.overtaken ≡ true)
unfolding gate mount submit_unlock unlock_finished decrypt_wallet validate_secret remove
    remove_acknowledged change drop_backup text_eq trim is_space read_encrypted_wallet
removed_while_unlocking = (refl, refl, refl, refl)
