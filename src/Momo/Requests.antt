-- ===== src/Momo/Requests.antt =====
-- `MomoController` of backend/src/momo/momo.controller.ts: what it checks before the service runs.
use afri_pay.Base.{
  ◌≤◌, ◌≡◌, refl, ap, ◌↔◌, Bool, true, false, not, ◌&&◌, ◌||◌, List, [], ◌∷◌, arith, Text, codes,
  text_eq, text_eq_iff, is_empty, trim, length, all, ltb, leb, ◌==◌, Result, ok, err, bad_request,
  throw_if,
}
use afri_pay.Base.Results.{◌>>◌}
use afri_pay.Base.Actions.{Action, lift}
use afri_pay.Stellar.Amount.{is_digit, is_decimal}
use afri_pay.Stellar.Amount.Value.{IsAmount, is_decimal_iff}
use afri_pay.Momo.{MomoTransactionRecord, PaymentDto, MomoStore}
use afri_pay.Momo.Config.{Env}
use afri_pay.Momo.Wire.{Provider, Times, World}
use afri_pay.Momo.Service.{
  request_to_pay, transfer, get_collection_status, get_disbursement_status, reconcile_pending,
}

-- `Number(amount) <= 0` for a decimal text: no digit but 0.
abbrev pub is_zero : Text → Bool
is_zero amount = all (λ c. c == b'0' || c == b'.') amount

-- `/^\d{7,15}$/`
abbrev pub is_msisdn : Text → Bool
is_msisdn party = all is_digit party && leb 7 (length party) && leb (length party) 15

unfoldable pub validate_sandbox_payment : Text → Text → Text → Text → Result (Unit {0})
validate_sandbox_payment amount currency external_id party =
    throw_if
      (not (is_decimal 12 2 amount)
        || is_zero amount
        || not (text_eq currency (codes "EUR"))
        || is_empty (trim external_id)
        || ltb 128 (length external_id)
        || not (is_msisdn party))
      (bad_request "Invalid sandbox payment: positive EUR amount, reference and MSISDN required")

-- `validateRequestToPay` and `validateTransfer`, which differ in the name of a field.
unfoldable pub validate_dto : PaymentDto → Result (Unit {0})
unfolding validate_sandbox_payment
validate_dto dto = do
  throw_if
      (is_empty dto.amount
        || is_empty dto.currency
        || is_empty dto.external_id
        || is_empty dto.msisdn)
      (bad_request "amount, currency, externalId and MSISDN are required")
  validate_sandbox_payment dto.amount dto.currency dto.external_id dto.msisdn

-- A handler that runs the service once its body is accepted.
abbrev pub after_check : {S A : Type 0} → Result (Unit {0}) → Action S A → Action S A
after_check (ok _) service = service
after_check (err e) service = lift (err e)

module _ {S : Type 0} (store : MomoStore S) (env : Env) (provider : Provider)
    (same_number : Text → Text → Bool) where
  unfoldable pub handle_request_to_pay :
      Times → Text → PaymentDto → Action (World S) MomoTransactionRecord
  unfolding validate_dto
  handle_request_to_pay times reference_id dto =
      after_check (validate_dto dto)
        (request_to_pay store env provider same_number times reference_id dto)

  unfoldable pub handle_transfer :
      Times → Text → PaymentDto → Action (World S) MomoTransactionRecord
  unfolding validate_dto
  handle_transfer times reference_id dto =
      after_check (validate_dto dto)
        (transfer store env provider same_number times reference_id dto)

  -- The service throws where it finds no record, so the controllers' own test never holds.
  abbrev pub handle_get_collection_status : Times → Text → Action (World S) MomoTransactionRecord
  handle_get_collection_status = get_collection_status store env provider same_number

  abbrev pub handle_get_disbursement_status : Times → Text → Action (World S) MomoTransactionRecord
  handle_get_disbursement_status = get_disbursement_status store env provider same_number

  abbrev pub handle_reconcile : (Text → Times) → Action (World S) (List MomoTransactionRecord)
  handle_reconcile = reconcile_pending store env provider same_number

-- What the sandbox takes.
pub record IsSandboxPayment (dto : PaymentDto) : Type 0 where
  pub amount : IsAmount 12 2 dto.amount
  pub positive : is_zero dto.amount ≡ false
  pub currency : dto.currency ≡ codes "EUR"
  pub reference : is_empty (trim dto.external_id) ≡ false
  pub reference_length : length dto.external_id ≤ 128
  pub digits : all is_digit dto.msisdn ≡ true
  pub least : 7 ≤ length dto.msisdn
  pub most : length dto.msisdn ≤ 15

validate_dto_sound : (dto : PaymentDto) → validate_dto dto ≡ ok tt → IsSandboxPayment dto
unfolding validate_dto
validate_dto_sound dto e = record {
  amount = (is_decimal_iff 12 2 dto.amount).0 (ground arith);
  positive = ground arith;
  currency = ground (arith, text_eq_iff dto.currency (codes "EUR"));
  reference = ground arith;
  reference_length = ground arith;
  digits = ground arith;
  least = ground arith;
  most = ground arith;
}

trim-filled : (s : Text) → is_empty (trim s) ≡ false → is_empty s ≡ false
unfolding trim
trim-filled [] h = absurd (cc)
trim-filled (c ∷ s) h = refl

positive-filled : (s : Text) → is_zero s ≡ false → is_empty s ≡ false
positive-filled [] h = absurd (cc)
positive-filled (c ∷ s) h = refl

long-filled : (s : Text) → 7 ≤ length s → is_empty s ≡ false
long-filled [] h = absurd (omega arith)
long-filled (c ∷ s) h = refl

validate_dto_complete : (dto : PaymentDto) → IsSandboxPayment dto → validate_dto dto ≡ ok tt
unfolding validate_dto
validate_dto_complete dto p = ground (
  arith,
  positive-filled dto.amount p.positive,
  trim-filled dto.external_id p.reference,
  long-filled dto.msisdn p.least,
  text_eq_iff dto.currency (codes "EUR"),
  ap is_empty p.currency,
  (is_decimal_iff 12 2 dto.amount).1 p.amount,
)

-- The checks of the MoMo controller accept exactly the payments in EUR with 1 to 12 digits and at
-- most 2 decimals, not all of them 0, an external id that is not blank and has at most 128 UTF-16
-- units, and a number of 7 to 15 digits.
pub validate_dto_iff : (dto : PaymentDto) → (validate_dto dto ≡ ok tt) ↔ IsSandboxPayment dto
validate_dto_iff dto = (validate_dto_sound dto, validate_dto_complete dto)
