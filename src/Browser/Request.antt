-- ===== src/Browser/Request.antt =====
-- The request for a payment: `PaymentRequestPanel` of
-- frontend/src/components/wallet/ReceivePanel.tsx. `create` is two functions, up to its request and
-- from the answer on.
pub mod Paid
use Prim.Native.String.{String}
use afri_pay.Base.{
  Bool, true, false, not, ◌&&◌, ◌||◌, Option, none, some, [], Text, codes, is_empty, trim,
  byte_length, ltb, ◌==◌, if◌then◌else◌,
}
use afri_pay.Stellar.Amount.{is_decimal, units}
use afri_pay.Payments.Input.{LinkInput}
use afri_pay.Browser.Send.{Answer, answer, thrown, message_or}

pub record CreatedLink : Type 0 where
  pub url : Text
  pub expires_at : Option Text

pub record RequestForm : Type 0 where
  pub amount : Text
  pub reference : Text
  pub link : Option CreatedLink
  pub busy : Bool
  pub error : Option String

-- `amountError` and `referenceError`, as whether there is one. A text of the pattern is zero as a
-- number exactly if its units are.
unfoldable pub link_amount_error : Text → Bool
link_amount_error amount =
    not (is_empty amount) && (not (is_decimal 12 7 amount) || units amount == 0)

unfoldable pub reference_error : Text → Bool
reference_error reference = ltb 28 (byte_length reference)

-- `s || undefined`
abbrev pub or_undefined : Text → Option Text
or_undefined s = if is_empty s then none else some s

-- The body of the request.
abbrev pub link_body : Text → RequestForm → LinkInput
link_body address f = record {
  creator = address;
  amount = or_undefined f.amount;
  asset = codes "XLM";
  reference = or_undefined (trim f.reference);
  expires_at = none;
}

abbrev pub request_for : Option Text → RequestForm → RequestForm × Option LinkInput
request_for none f = (f, none)
request_for (some address) f =
    if is_empty address || link_amount_error f.amount || reference_error f.reference
    then (f, none)
    else (record f { busy = true; error = none }, some (link_body address f))

-- `create` up to its request.
unfoldable pub request_link : Option Text → RequestForm → RequestForm × Option LinkInput
unfolding link_amount_error reference_error
request_link address f = request_for address f

-- `create` from the answer on.
unfoldable pub link_answered : Answer CreatedLink → RequestForm → RequestForm
link_answered (answer link) f = record f { link = some link; busy = false }
link_answered (thrown message) f = record f {
  error = some (message_or "Unable to create a payment link." message);
  busy = false;
}

-- `Create another link`.
unfoldable pub another : RequestForm → RequestForm
another f = record f { link = none; amount = []; reference = [] }
