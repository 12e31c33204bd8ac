-- ===== src/Browser/Account/Own.antt =====
-- Whose balance and history are shown: frontend/src/components/wallet/WalletProvider.tsx.
use afri_pay.Base.{
  ℕ, ◌+◌, ◌≤◌, ◌≡◌, refl, sym, ap, subst, true, List, [], ◌∷◌, ◌++◌, Option, none, some, arith,
  Text, All, ◌==◌, ==_iff, Bool-cases, inl, inr,
}
use afri_pay.Browser.Send.{Answer, answer, thrown}
use afri_pay.Browser.Activity.{HistoryItem}
use afri_pay.Browser.Account.{
  Loader, Summary, empty_account, ask_for, close_account, summary_answered, history_answered,
  summary_arrived, history_arrived, balance_after, Reach, starts, opens, refreshes, closes,
  summarises, tells,
}

-- An effect asked no later than now, and the active one for the address that is open.
abbrev IsAsked : ℕ → Option Text → ℕ × Text → Type 0
IsAsked run address (r, a) = (r ≤ run) × (r ≡ run → address ≡ some a)

older-IsAsked :
    (run : ℕ) (address address' : Option Text) (asked : List (ℕ × Text))
    → All (IsAsked run address) asked
    → All (IsAsked (run + 1) address') asked
older-IsAsked run address address' [] h = tt
older-IsAsked run address address' ((r, a) ∷ asked) h =
    let early = h.0.0 in
    (
      (omega (arith, early), λ e. absurd (omega (arith, e, early))),
      older-IsAsked run address address' asked h.1,
    )

asked-IsAsked :
    (run : ℕ) (address : Option Text) (before : List (ℕ × Text)) (r : ℕ) (a : Text)
    (after : List (ℕ × Text))
    → All (IsAsked run address) (before ++ (r, a) ∷ after)
    → r ≡ run
    → address ≡ some a
asked-IsAsked run address [] r a after h e = h.0.1 e
asked-IsAsked run address ((q, b) ∷ before) r a after h e =
    asked-IsAsked run address before r a after h.1 e

record IsOwn (l : Loader) : Type 0 where
  pub asked : All (IsAsked l.run l.address) l.asked
  pub balance :
      (x : Text)
      → l.account.xlm ≡ some x
      → (a : Text) × (l.balance_of ≡ some a) × (l.address ≡ some a)
  pub history :
      (x : List HistoryItem)
      → l.account.history ≡ some x
      → (a : Text) × (l.history_of ≡ some a) × (l.address ≡ some a)
  pub closed : l.address ≡ none → l.account ≡ empty_account

ask_for-IsOwn :
    (l : Loader) (a : Text)
    → IsOwn l
    → ((b : Text) → l.address ≡ some b → b ≡ a)
    → IsOwn (ask_for a l)
ask_for-IsOwn l a o same = record {
  asked = ((omega arith, λ e. refl), older-IsAsked l.run l.address (some a) l.asked o.asked);
  balance = λ x h.
      let (b, given, shown) = o.balance x h in (b, given, ap (λ t. some t) (sym (same b shown)));
  history = λ x h.
      let (b, given, shown) = o.history x h in (b, given, ap (λ t. some t) (sym (same b shown)));
  closed = λ e. absurd (cc);
}

close_account-IsOwn : (l : Loader) → IsOwn l → IsOwn (close_account l)
close_account-IsOwn l o = record {
  asked = older-IsAsked l.run l.address none l.asked o.asked;
  balance = λ x h. absurd (cc);
  history = λ x h. absurd (cc);
  closed = λ e. refl;
}

-- What the active effect was answered is shown for the address that is open.
summary_active-IsOwn :
    (l : Loader) (a : Text) (reply : Answer Summary)
    → IsOwn l
    → l.address ≡ some a
    → IsOwn (record l {
      account = summary_answered reply l.account;
      balance_of = balance_after reply a l.balance_of;
    })
unfolding summary_answered balance_after
summary_active-IsOwn l a (answer summary) o open_now = record {
  asked = o.asked;
  balance = λ x h. (a, refl, open_now);
  history = o.history;
  closed = λ e. absurd (cc);
}
summary_active-IsOwn l a (thrown message) o open_now = record {
  asked = o.asked;
  balance = o.balance;
  history = o.history;
  closed = λ e. absurd (cc);
}

history_active-IsOwn :
    (l : Loader) (a : Text) (reply : Answer (List HistoryItem))
    → IsOwn l
    → l.address ≡ some a
    → IsOwn (record l { account = history_answered reply l.account; history_of = some a })
unfolding history_answered
history_active-IsOwn l a (answer records) o open_now = record {
  asked = o.asked;
  balance = o.balance;
  history = λ x h. (a, refl, open_now);
  closed = λ e. absurd (cc);
}
history_active-IsOwn l a (thrown message) o open_now = record {
  asked = o.asked;
  balance = o.balance;
  history = λ x h. (a, refl, open_now);
  closed = λ e. absurd (cc);
}

active_address :
    (l : Loader) (run : ℕ) (a : Text) (before after : List (ℕ × Text))
    → IsOwn l
    → l.asked ≡ before ++ (run, a) ∷ after
    → (run == l.run) ≡ true
    → l.address ≡ some a
active_address l run a before after o e same =
    asked-IsAsked l.run l.address before run a after
      (subst (λ t. All (IsAsked l.run l.address) t) e o.asked) ((==_iff run l.run).0 same)

summary_arrived-IsOwn :
    (l : Loader) (run : ℕ) (a : Text) (reply : Answer Summary) (before after : List (ℕ × Text))
    → l.asked ≡ before ++ (run, a) ∷ after
    → IsOwn l
    → IsOwn (summary_arrived run a reply l)
unfolding summary_arrived
summary_arrived-IsOwn l run a reply before after e o = elim (Bool-cases (run == l.run)) [
  | inl same ↦
      rw same (summary_active-IsOwn l a reply o (active_address l run a before after o e same))
  | inr other ↦ rw other o
]

history_arrived-IsOwn :
    (l : Loader) (run : ℕ) (a : Text) (reply : Answer (List HistoryItem))
    (before after : List (ℕ × Text))
    → l.asked ≡ before ++ (run, a) ∷ after
    → IsOwn l
    → IsOwn (history_arrived run a reply l)
unfolding history_arrived
history_arrived-IsOwn l run a reply before after e o = elim (Bool-cases (run == l.run)) [
  | inl same ↦
      rw same (history_active-IsOwn l a reply o (active_address l run a before after o e same))
  | inr other ↦ rw other o
]

Reach-IsOwn : {l : Loader} → Reach l → IsOwn l
Reach-IsOwn starts = record {
  asked = tt;
  balance = λ x h. absurd (cc);
  history = λ x h. absurd (cc);
  closed = λ e. refl;
}
Reach-IsOwn (opens l a given none_open r) = ask_for-IsOwn l a (Reach-IsOwn r) (λ b e. absurd (cc))
Reach-IsOwn (refreshes l a still r) = ask_for-IsOwn l a (Reach-IsOwn r) (λ b e. cc)
Reach-IsOwn (closes l r) = close_account-IsOwn l (Reach-IsOwn r)
Reach-IsOwn (summarises l run a reply before after e r) =
    summary_arrived-IsOwn l run a reply before after e (Reach-IsOwn r)
Reach-IsOwn (tells l run a reply before after e r) =
    history_arrived-IsOwn l run a reply before after e (Reach-IsOwn r)

-- When an address is only opened where none is, and is refreshed and closed in any order with
-- answers that come in any order or late: a balance that is shown was given for the address that
-- is open, so was a history that is shown, and where no address is open nothing of an account is.
pub account_own :
    {l : Loader}
    → Reach l
    → ((x : Text)
        → l.account.xlm ≡ some x
        → (a : Text) × (l.balance_of ≡ some a) × (l.address ≡ some a))
      × ((x : List HistoryItem)
          → l.account.history ≡ some x
          → (a : Text) × (l.history_of ≡ some a) × (l.address ≡ some a))
      × (l.address ≡ none → l.account ≡ empty_account)
account_own r = let o = Reach-IsOwn r in (o.balance, o.history, o.closed)
