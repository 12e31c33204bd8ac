-- ===== src/Browser/Account.antt =====
-- The loading of the account that is open: the second effect of `WalletProvider` in
-- frontend/src/components/wallet/WalletProvider.tsx. An effect ends before the next one starts, and
-- an answer to an effect that has ended is dropped.
pub mod Own
use Prim.Native.String.{String}
use afri_pay.Base.{
  ℕ, ◌+◌, ◌≡◌, Bool, true, false, not, List, [], ◌∷◌, ◌++◌, Option, none, some, Text, codes,
  text_eq, is_empty, ◌==◌, if◌then◌else◌,
}
use afri_pay.Browser.Send.{Answer, answer, thrown, message_or}
use afri_pay.Browser.Activity.{HistoryItem}

pub record AssetBalance : Type 0 where
  pub asset : Text
  pub balance : Text

pub record AccountState : Type 0 where
  pub loading : Bool
  pub activated : Option Bool
  pub xlm : Option Text
  pub assets : List AssetBalance
  pub history : Option (List HistoryItem)
  pub error : Option String

abbrev pub empty_account : AccountState
empty_account = record {
  loading = false;
  activated = none;
  xlm = none;
  assets = [];
  history = none;
  error = none;
}

-- The answer of `/stellar/accounts/…`; missing balances are none.
pub record Summary : Type 0 where
  pub activated : Bool
  pub balances : List AssetBalance

abbrev pub is_xlm : AssetBalance → Bool
is_xlm item = text_eq item.asset (codes "XLM")

-- `balances.find((item) => item.asset === 'XLM')?.balance ?? '0'`
unfoldable pub xlm_balance : List AssetBalance → Text
xlm_balance [] = codes "0"
xlm_balance (item ∷ balances) = if is_xlm item then item.balance else xlm_balance balances

unfoldable pub other_assets : List AssetBalance → List AssetBalance
other_assets [] = []
other_assets (item ∷ balances) =
    let rest = other_assets balances in if is_xlm item then rest else item ∷ rest

abbrev pub start_loading : AccountState → AccountState
start_loading account = record account { loading = true; error = none }

unfoldable pub summary_answered : Answer Summary → AccountState → AccountState
unfolding xlm_balance other_assets
summary_answered (answer summary) account = record account {
  loading = false;
  activated = some summary.activated;
  xlm = some (xlm_balance summary.balances);
  assets = other_assets summary.balances;
}
summary_answered (thrown message) account = record account {
  loading = false;
  activated = some false;
  error = some (message_or "Unable to load Testnet balance." message);
}

unfoldable pub history_answered : Answer (List HistoryItem) → AccountState → AccountState
history_answered (answer records) account = record account { history = some records }
history_answered (thrown message) account = record account { history = some [] }

-- The provider's state, the number of the effect that is active, the effects that asked the server
-- with the address that they asked for, and for which address the balance and the history that are
-- shown were given.
pub record Loader : Type 0 where
  pub address : Option Text
  pub run : ℕ
  pub account : AccountState
  pub asked : List (ℕ × Text)
  pub balance_of : Option Text
  pub history_of : Option Text

abbrev pub first_loader : Loader
first_loader = record {
  address = none;
  run = 0;
  account = empty_account;
  asked = [];
  balance_of = none;
  history_of = none;
}

-- The effect for an address, after one is opened or a refresh.
abbrev pub ask_for : Text → Loader → Loader
ask_for a l = record l {
  address = some a;
  run = l.run + 1;
  account = start_loading l.account;
  asked = (l.run + 1, a) ∷ l.asked;
}

-- The effect where no address is open.
abbrev pub close_account : Loader → Loader
close_account l = record l {
  address = none;
  run = l.run + 1;
  account = empty_account;
  balance_of = none;
  history_of = none;
}

-- For whom the balance is after an answer: a failure leaves it as it was.
unfoldable pub balance_after : Answer Summary → Text → Option Text → Option Text
balance_after (answer summary) a before = some a
balance_after (thrown message) a before = before

-- `active` of the effect that asked.
unfoldable pub summary_arrived : ℕ → Text → Answer Summary → Loader → Loader
unfolding summary_answered balance_after
summary_arrived run a reply l =
    if run == l.run
    then record l {
      account = summary_answered reply l.account;
      balance_of = balance_after reply a l.balance_of;
    }
    else l

unfoldable pub history_arrived : ℕ → Text → Answer (List HistoryItem) → Loader → Loader
unfolding history_answered
history_arrived run a reply l =
    if run == l.run
    then record l { account = history_answered reply l.account; history_of = some a }
    else l

-- An address is opened where none was open; answers come in any order, and late.
pub data Reach : Loader → Type 0 where
  starts : Reach first_loader
  opens :
      (l : Loader) (a : Text)
      → is_empty a ≡ false
      → l.address ≡ none
      → Reach l
      → Reach (ask_for a l)
  refreshes : (l : Loader) (a : Text) → l.address ≡ some a → Reach l → Reach (ask_for a l)
  closes : (l : Loader) → Reach l → Reach (close_account l)
  summarises :
      (l : Loader) (run : ℕ) (a : Text) (reply : Answer Summary) (before after : List (ℕ × Text))
      → l.asked ≡ before ++ (run, a) ∷ after
      → Reach l
      → Reach (summary_arrived run a reply l)
  tells :
      (l : Loader) (run : ℕ) (a : Text) (reply : Answer (List HistoryItem))
      (before after : List (ℕ × Text))
      → l.asked ≡ before ++ (run, a) ∷ after
      → Reach l
      → Reach (history_arrived run a reply l)
