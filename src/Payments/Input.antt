-- ===== src/Payments/Input.antt =====
-- The inputs of backend/src/payments/payment-intent.service.ts and the tests that it makes on them.
use afri_pay.Base.{
  ℕ, ◌+◌, ◌*◌, Bool, true, false, not, ◌&&◌, ◌||◌, Option, none, some, [], Text, codes, text_eq,
  is_empty, leb, ◌==◌, Result, ok,
}
use afri_pay.Base.Results.{◌>>=◌}
use afri_pay.Stellar.Amount.{stroops}
use afri_pay.Stellar.Sdk.{Sdk}
use afri_pay.Stellar.Validation.{NativePayment, first_true, memo_too_long}
use afri_pay.Stellar.Service.{pending}
use afri_pay.Payments.{PaymentIntent}

-- The fields of `create`'s input.
pub record CreateInput : Type 0 where
  pub idempotency_key : Text
  pub sender : Text
  pub recipient : Text
  pub amount : Text
  pub asset : Text
  pub memo : Option Text

abbrev pub requested : CreateInput → NativePayment
requested input = record {
  sender = input.sender;
  recipient = input.recipient;
  amount = input.amount;
  asset = input.asset;
  memo = input.memo;
}

-- `memo ?? ''`
abbrev pub memo_or_empty : Option Text → Text
memo_or_empty none = []
memo_or_empty (some memo) = memo

abbrev pub new_intent : Text → Text → CreateInput → PaymentIntent
new_intent id now input = record {
  id = id;
  idempotency_key = input.idempotency_key;
  sender = input.sender;
  recipient = input.recipient;
  amount = input.amount;
  asset = input.asset;
  memo = input.memo;
  status = pending;
  transaction_hash = none;
  created_at = now;
  updated_at = now;
}

-- Whether a saved intent has other details than the input; reading an amount may throw.
unfoldable pub has_other_details : PaymentIntent → CreateInput → Result Bool
has_other_details saved input =
    first_true
      (not (text_eq saved.sender input.sender)
        || not (text_eq saved.recipient input.recipient)
        || not (text_eq saved.asset input.asset))
      (do
        a ← stroops saved.amount
        b ← stroops input.amount
        ok (not (a == b) || not (text_eq (memo_or_empty saved.memo) (memo_or_empty input.memo))))

-- The fields of `createLink`'s input.
pub record LinkInput : Type 0 where
  pub creator : Text
  pub amount : Option Text
  pub asset : Text
  pub reference : Option Text
  pub expires_at : Option Text

-- `amount !== undefined && stroops(amount) <= 0`
abbrev pub is_not_positive : Option Text → Result Bool
is_not_positive none = ok false
is_not_positive (some amount) = do v ← stroops amount; ok (leb v 0)

-- The test of `createLink` on everything but the expiry.
unfoldable pub is_bad_link : Sdk → LinkInput → Result Bool
is_bad_link sdk input =
    first_true
      (not (sdk.is_valid_public_key input.creator) || not (text_eq input.asset (codes "XLM")))
      (do bad ← is_not_positive input.amount; ok (bad || memo_too_long input.reference))

-- `Date`: `Date.now()` in milliseconds, `Date.parse` (`none` is NaN) and `toISOString`.
pub record Dates : Type 0 where
  pub now : ℕ
  pub parse : Text → Option ℕ
  pub to_iso : ℕ → Text

-- `!Number.isFinite(Date.parse(s)) || Date.parse(s) <= Date.now()`
abbrev pub is_not_ahead : Dates → Option ℕ → Bool
is_not_ahead dates none = true
is_not_ahead dates (some t) = leb t dates.now

abbrev pub has_bad_expiry : Dates → Option Text → Bool
has_bad_expiry dates none = false
has_bad_expiry dates (some s) = is_not_ahead dates (dates.parse s)

-- `input.expiresAt ?? new Date(Date.now() + 24 * 60 * 60 * 1000).toISOString()`
abbrev pub expiry_or_tomorrow : Dates → Option Text → Text
expiry_or_tomorrow dates none = dates.to_iso (dates.now + 24 * 60 * 60 * 1000)
expiry_or_tomorrow dates (some s) = s

-- `Date.parse(s) <= Date.now()`, false on NaN.
abbrev pub is_past : Dates → Option ℕ → Bool
is_past dates none = false
is_past dates (some t) = leb t dates.now

-- `link.expiresAt && Date.parse(link.expiresAt) <= Date.now()`
abbrev pub has_expired : Dates → Option Text → Bool
has_expired dates none = false
has_expired dates (some s) = not (is_empty s) && is_past dates (dates.parse s)
