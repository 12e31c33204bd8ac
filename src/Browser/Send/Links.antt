-- ===== src/Browser/Send/Links.antt =====
-- A payment link from the database on its page: backend/src/payments/payment-intent.store.ts and the
-- form of frontend/src/components/wallet/SendFlow.tsx, which takes the amount of the link.
use afri_pay.Base.{
  ◌<◌, ◌≡◌, refl, ap, ◌∙◌, true, false, [], ◌∷◌, ◌++◌, none, some, arith, Text, length, all,
  is_empty, get, set, get-set_self, ok,
}
use afri_pay.Stellar.Amount.{is_digit, is_decimal, is_fraction, span_digits}
use afri_pay.Stellar.Amount.Digits.{span_digits-append}
use afri_pay.Payments.{PaymentLink}
use afri_pay.Base.MapValues.{map_given, given}
use afri_pay.Payments.Postgres.{Postgres, Tables, store_link, select_link, read_link, link_row}
use afri_pay.Browser.Send.{WalletView}
use afri_pay.Browser.Send.Form.{Exceeds, amount_error}

too_long :
    (w f : Text) → all is_digit w ≡ true → 7 < length f → is_decimal 12 7 (w ++ b'.' ∷ f) ≡ false
unfolding is_decimal is_fraction span_digits
too_long w f digits long =
    let run : span_digits (w ++ b'.' ∷ f) ≡ (w, b'.' ∷ f) =
      span_digits-append w (b'.' ∷ f) digits refl in
    rw (run, is_decimal) (ground arith)

nonempty : (w f : Text) → is_empty (w ++ b'.' ∷ f) ≡ false
nonempty [] f = refl
nonempty (c ∷ w) f = refl

given-pointed : (w f : Text) → given (some (w ++ b'.' ∷ f)) ≡ some (w ++ b'.' ∷ f)
given-pointed w f = rw (nonempty w f) refl

stored :
    (db : Postgres) (t : Tables) (link : PaymentLink)
    → db.is_up ≡ true
    → get link.id t.links ≡ none
    → (store_link db link t).1 ≡ record t { links = set link.id (link_row db link) t.links }
unfolding store_link
stored db t link up fresh = ground (arith, up, fresh)

selected :
    (db : Postgres) (t : Tables) (id : Text) (row : PaymentLink)
    → db.is_up ≡ true
    → get id t.links ≡ some row
    → (select_link db id t).0 ≡ ok (some (read_link db row))
unfolding select_link
selected db t id row up found = ground (arith, up, found)

-- A payment link with an amount that is stored in the database under a new identifier, where the
-- column prints digits, a dot and more than 7 further characters, is found with that text as its
-- amount, and the form of the page refuses it.
pub link_refused :
    (db : Postgres) (t : Tables) (link : PaymentLink) (amount w f : Text) (exceeds : Exceeds)
    (wallet : WalletView)
    → db.is_up ≡ true
    → get link.id t.links ≡ none
    → link.amount ≡ some amount
    → all is_digit w ≡ true
    → 7 < length f
    → db.numeric amount ≡ w ++ b'.' ∷ f
    → (found : PaymentLink) × (shown : Text) × ((select_link db link.id (store_link db link t).1).0
        ≡ ok (some found))
      × (found.amount ≡ some shown)
      × (amount_error exceeds wallet shown ≡ true)
unfolding amount_error
link_refused db t link amount w f exceeds wallet up fresh has digits long print =
    let row = link_row db link in
    let after = record t { links = set link.id row t.links } in
    let there : (select_link db link.id (store_link db link t).1).0 ≡ ok (some (read_link db row)) =
      ap (λ x. (select_link db link.id x).0) (stored db t link up fresh)
      ∙ selected db after link.id row up (get-set_self link.id row t.links) in
    let shown : (read_link db row).amount ≡ some (w ++ b'.' ∷ f) =
      ap (λ a. given (map_given db.numeric a)) has
      ∙ ap (λ s. given (some s)) print
      ∙ given-pointed w f in
    (read_link db row, w ++ b'.' ∷ f, there, shown, ground (arith, too_long w f digits long))
