-- ===== src/Tests/OfRoutes.antt =====
-- The routes: USSD, rates, and the bodies of requests.
use afri_pay.Base.{
  ◌≤◌, ◌≡◌, refl, false, [], ◌∷◌, none, some, arith, Text, codes, length, text_eq, trim, ok,
  find_value,
}
use afri_pay.Base.Actions.{◌>>=◌}
use afri_pay.Stellar.Amount.{stroops, is_decimal, units}
use afri_pay.Stellar.Validation.{validate_payment}
use afri_pay.Payments.Memory.{memory, create_intent}
use afri_pay.Payments.Input.{has_other_details}
use afri_pay.Payments.Service.{create}
use afri_pay.Payments.Requests.{CreatePaymentBody, check_create, handle_create}
use afri_pay.Ussd.{UssdRequestBody, UssdSession, Readings, handle_ussd}
use afri_pay.Ussd.Sessions.{handle_ussd-bound}
use afri_pay.Rates.{RateResult, CacheReply, RateReply, Outside}
use afri_pay.Momo.{PaymentDto}
use afri_pay.Tests.Samples.{sdk, intent, empty}

abbrev session : UssdSession
session = record {
  session_id = codes "s1";
  phone_number = none;
  updated_at = 1000;
  completed = false;
}

abbrev clock : Readings
clock = record { at_sweep = λ id. 2000; at_check = 400000; at_write = 400000 }

abbrev dialled : UssdRequestBody
dialled = record {
  session_id = some (codes "s1");
  service_code = none;
  phone_number = none;
  text = some (codes "1*2");
}

handle_ussd-bound_example :
    length (handle_ussd clock (some dialled) ((codes "s1", session) ∷ [])).1 ≤ 10000
handle_ussd-bound_example =
    handle_ussd-bound clock (some dialled) ((codes "s1", session) ∷ []) (omega arith)

-- A rate as its digits.
abbrev euro : RateResult Text
euro = record {
  from = codes "USD";
  to = codes "EUR";
  rate = codes "0.9";
  source = codes "openexchangerates.org";
  timestamp = codes "t0";
}

abbrev warm : Outside Text
warm = record {
  to_upper = λ s. s;
  read = λ key. CacheReply.hit euro;
  provider = λ from to. RateReply.unreachable;
  now = codes "t0";
}

abbrev cold : Outside Text
cold = record {
  to_upper = λ s. s;
  read = λ key. CacheReply.failed;
  provider = λ from to. RateReply.rates (some (codes "0.9"));
  now = codes "t0";
}

abbrev small_payment : PaymentDto
small_payment = record {
  amount = codes "5.50";
  currency = codes "EUR";
  external_id = codes "x1";
  msisdn = codes "2348000";
  payer_message = none;
  payee_note = none;
}

abbrev body : CreatePaymentBody
body = record {
  sender = codes "GA";
  recipient = codes "GB";
  amount = codes "1.5";
  asset = codes "XLM";
  memo = none;
}

posted :
    (handle_create memory sdk (codes "p1") (codes "t0") body (some (codes "order-0001")) empty).0
    ≡ ok intent
unfolding handle_create check_create create ◌>>=◌ validate_payment stroops is_decimal units text_eq
    create_intent find_value has_other_details trim
posted = refl
