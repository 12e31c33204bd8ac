-- ===== src/Browser/Request/Paid.antt =====
-- A link from the form of frontend/src/components/wallet/ReceivePanel.tsx through `createLink` and
-- `getLink` of backend/src/payments/payment-intent.service.ts to the form of the payer.
use afri_pay.Base.{
  ℕ, ◌∷◌, ◌++◌, ◌+◌, ◌*◌, ◌<◌, ◌≡◌, refl, true, false, Option, some, [], arith, Text, codes,
  is_empty, trim, byte_length-trim, ok, Bool-cases, inl, inr, text_eq, get, set, get-set_self,
}
use afri_pay.Base.Actions.{◌>>=◌}
use afri_pay.Stellar.Amount.{stroops}
use afri_pay.Stellar.Sdk.{Sdk}
use afri_pay.Stellar.Accounts.{text_or}
use afri_pay.Payments.{PaymentLink}
use afri_pay.Payments.Memory.{Memory, memory, save_link, find_link}
use afri_pay.Payments.Input.{LinkInput, Dates, is_not_positive, is_bad_link, has_expired}
use afri_pay.Payments.Service.{create_link, get_link}
use afri_pay.Payments.Requests.{handle_create_link}
use afri_pay.Browser.Send.{reload_pending, PaymentRequest, WalletView, Storage}
use afri_pay.Browser.Send.Form.{Exceeds, exceeds_balance, amount_error, memo_error}
use afri_pay.Browser.Send.Screen.{opened}
use afri_pay.Browser.Request.{
  RequestForm, or_undefined, link_amount_error, reference_error, link_body, request_link,
}

-- What the page of a link reads of it.
abbrev pub payment_request : PaymentLink → PaymentRequest
payment_request link = record {
  creator = link.creator;
  amount = link.amount;
  reference = link.reference;
}

or_undefined-text : (s : Text) → text_or [] (or_undefined s) ≡ s
or_undefined-text [] = refl
or_undefined-text (c ∷ s) = refl

requested :
    (address : Text) (f f' : RequestForm) (body : LinkInput)
    → request_link (some address) f ≡ (f', some body)
    → (is_empty address ≡ false)
      × (link_amount_error f.amount ≡ false)
      × (reference_error f.reference ≡ false)
      × (link_body address f ≡ body)
unfolding request_link
requested address f f' body h = ground arith

positive :
    (amount : Text)
    → link_amount_error amount ≡ false
    → is_not_positive (or_undefined amount) ≡ ok false
unfolding link_amount_error stroops
positive [] h = refl
positive (c ∷ s) h = ground arith

acceptable :
    (sdk : Sdk) (address : Text) (f : RequestForm)
    → sdk.is_valid_public_key address ≡ true
    → link_amount_error f.amount ≡ false
    → reference_error f.reference ≡ false
    → is_bad_link sdk (link_body address f) ≡ ok false
unfolding is_bad_link text_eq reference_error
acceptable sdk address f valid amount short =
    let fits = byte_length-trim f.reference in
    elim (Bool-cases (is_empty (trim f.reference))) [
      | inl bare ↦ rw (valid, positive f.amount amount, bare) refl
      | inr named ↦ rw (valid, positive f.amount amount, named) (ground arith)
    ]

open_link :
    (dates : Dates) (id : Text) (link : PaymentLink) (m : Memory)
    → get id m.links ≡ some link
    → has_expired dates link.expires_at ≡ false
    → get_link memory dates id m ≡ (ok link, m)
unfolding get_link ◌>>=◌ find_link
open_link dates id link m found ahead = rw found (rw ahead refl)

not_expired :
    (dates : Dates) (s : Text) (t : ℕ)
    → dates.parse s ≡ some t
    → is_empty s ≡ false
    → dates.now < t
    → has_expired dates (some s) ≡ false
not_expired dates s t parsed given early = rw (parsed, given) (ground arith)

payable :
    (exceeds : Exceeds) (wallet : WalletView) (f : RequestForm)
    → link_amount_error f.amount ≡ false
    → is_empty f.amount ≡ false
    → exceeds_balance exceeds f.amount wallet.xlm ≡ false
    → amount_error exceeds wallet f.amount ≡ false
unfolding amount_error link_amount_error
payable exceeds wallet f amount given within = ground arith

sendable :
    (reference : Text) → reference_error reference ≡ false → memo_error (trim reference) ≡ false
unfolding reference_error memo_error
sendable reference short = let fits = byte_length-trim reference in ground arith

-- Without a database, what the form for a request asks for at a valid address is created as a link
-- by the server, the link is found again until its day is over, and the payer's form then starts
-- with that address, the amount and the trimmed reference, refuses neither the reference nor the
-- amount, if there is one within the balance; dates are assumed to be read back as they are
-- written.
pub link_paid :
    (sdk : Sdk) (dates later : Dates) (app_url id created address : Text) (f f' : RequestForm)
    (body : LinkInput) (m : Memory)
    → request_link (some address) f ≡ (f', some body)
    → sdk.is_valid_public_key address ≡ true
    → ((t : ℕ) → (later.parse (dates.to_iso t) ≡ some t) × (is_empty (dates.to_iso t) ≡ false))
    → later.now < dates.now + 24 * 60 * 60 * 1000
    → (link : PaymentLink) × (m' : Memory) × (handle_create_link memory sdk dates app_url id created
          body m
        ≡ (ok link, m'))
      × (get_link memory later id m' ≡ (ok link, m'))
      × ((payer : Option Text) (storage : Storage)
          → let s = opened (some (payment_request link)) payer storage in
            (s.recipient ≡ address) × (s.amount ≡ f.amount) × (s.memo ≡ trim f.reference))
      × (memo_error (trim f.reference) ≡ false)
      × ((exceeds : Exceeds) (wallet : WalletView)
          → is_empty f.amount ≡ false
          → exceeds_balance exceeds f.amount wallet.xlm ≡ false
          → amount_error exceeds wallet f.amount ≡ false)
unfolding handle_create_link create_link ◌>>=◌ save_link reload_pending
link_paid sdk dates later app_url id created address f f' body m asked valid iso early =
    let (given, amount, short, same) = requested address f f' body asked in
    let tomorrow : ℕ = dates.now + 24 * 60 * 60 * 1000 in
    let link : PaymentLink = record {
      id = id;
      creator = address;
      amount = or_undefined f.amount;
      asset = codes "XLM";
      reference = or_undefined (trim f.reference);
      expires_at = some (dates.to_iso (dates.now + 24 * 60 * 60 * 1000));
      url = app_url ++ codes "/pay/" ++ id;
      created_at = created;
    } in
    let m' = record m { links = set id link m.links } in
    (
      link,
      m',
      rw (← same) (rw (given, acceptable sdk address f valid amount short) refl),
      open_link later id link m' (get-set_self id link m.links) (
          not_expired later (dates.to_iso tomorrow) tomorrow (iso tomorrow).0 (iso tomorrow).1
            early),
      λ payer storage. (refl, or_undefined-text f.amount, or_undefined-text (trim f.reference)),
      sendable f.reference short,
      λ exceeds wallet filled within. payable exceeds wallet f amount filled within,
    )
