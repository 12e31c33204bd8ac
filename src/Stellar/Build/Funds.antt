-- ===== src/Stellar/Build/Funds.antt =====
-- When `buildNativePayment` of backend/src/stellar/stellar.service.ts returns a transaction.
use afri_pay.Base.{
  ℕ, ◌+◌, ◌*◌, ◌≤◌, ◌≡◌, refl, ap, ◌∙◌, ◌↔◌, false, Option, none, some, arith, Text, codes, text_eq,
  text_eq_iff, Result, ok, err, bad_request, not_found, unauthorized, conflict, too_many_requests,
  unavailable, plain, momo_api,
}
use afri_pay.Base.Results.{>>=-eq-ok, guard-eq-ok}
use afri_pay.Stellar.Amount.{stroops}
use afri_pay.Stellar.Amount.Decimal.{decimal}
use afri_pay.Stellar.Validation.{validate_payment}
use afri_pay.Stellar.Validation.Accepts.{IsPayment, validate_payment_iff}
use afri_pay.Stellar.Service.{StellarService, assert_testnet}
use afri_pay.Stellar.Accounts.{Reply, reply, failed, Balance}
use afri_pay.Stellar.Build.{
  Snapshot, Prepared, Builder, network_fee, or_zero, base_reserve, find_native, liabilities,
  is_insufficient, draft, expect_built, prepare_payment, caught, requested_payment, prepare_from,
  build_native_payment,
}

-- The account holds the amount, the fee, its reserve and what it owes, and the transaction is the
-- builder's for exactly this payment and fee.
pub record IsFunded (builder : Builder) (s : Snapshot) (recipient amount : Text)
    (memo : Option Text) (prepared : Prepared) : Type 0 where
  pub fee : ℕ
  pub fee_known : network_fee s.p95 ≡ ok fee
  pub at_least : 100 ≤ fee
  pub at_most : fee ≤ 1000000
  pub native : Balance
  pub has_native : find_native s.account.balances ≡ some native
  pub base : ℕ
  pub has_base : base_reserve s.base_reserves ≡ ok base
  pub balance : ℕ
  pub balance_units : stroops native.balance ≡ ok balance
  pub held : ℕ
  pub held_units : stroops (liabilities native.selling_liabilities) ≡ ok held
  pub paid : ℕ
  pub paid_units : stroops amount ≡ ok paid
  pub enough :
      paid + fee + base * (2 + s.account.subentry_count + or_zero s.num_sponsoring) + held
      ≤ balance + base * or_zero s.num_sponsored
  pub built : builder.build (draft s fee recipient amount memo) ≡ some prepared.xdr
  pub on_testnet : prepared.network ≡ codes "testnet"
  pub shown_fee : prepared.fee ≡ decimal fee

read_built : (o : Option Text) {xdr : Text} → expect_built o ≡ ok xdr → o ≡ some xdr
read_built none h = absurd (cc)
read_built (some x) h = cc

fee_bounds : (p : Option ℕ) {fee : ℕ} → network_fee p ≡ ok fee → (100 ≤ fee) × (fee ≤ 1000000)
unfolding network_fee
fee_bounds none h = absurd (cc)
fee_bounds (some p) h = (ground arith, ground arith)

affords :
    (s : Snapshot) (base fee : ℕ) (amount : Text) (o : Option Balance)
    → is_insufficient s base fee amount o ≡ ok false
    → (native : Balance) × (o ≡ some native)
      × (balance : ℕ) × (stroops native.balance ≡ ok balance)
      × (held : ℕ) × (stroops (liabilities native.selling_liabilities) ≡ ok held)
      × (paid : ℕ) × (stroops amount ≡ ok paid)
      × (paid + fee + base * (2 + s.account.subentry_count + or_zero s.num_sponsoring) + held
          ≤ balance + base * or_zero s.num_sponsored)
unfolding is_insufficient
affords s base fee amount none h = absurd (cc)
affords s base fee amount (some native) h =
    let (balance, eb, h₁) = >>=-eq-ok (stroops native.balance) _ h in
    let (held, eh, h₂) = >>=-eq-ok (stroops (liabilities native.selling_liabilities)) _ h₁ in
    let (paid, ep, h₃) = >>=-eq-ok (stroops amount) _ h₂ in
    (native, refl, balance, eb, held, eh, paid, ep, ground arith)

module _ (builder : Builder) (s : Snapshot) (recipient amount : Text) (memo : Option Text) where
  prepare_sound :
      (prepared : Prepared)
      → prepare_payment builder s recipient amount memo ≡ ok prepared
      → IsFunded builder s recipient amount memo prepared
  unfolding prepare_payment
  prepare_sound prepared h =
      let (fee, fee_known, h₁) = >>=-eq-ok (network_fee s.p95) _ h in
      let (base, has_base, h₂) = >>=-eq-ok (base_reserve s.base_reserves) _ h₁ in
      let (short, judged, h₃) =
        >>=-eq-ok (is_insufficient s base fee amount (find_native s.account.balances)) _ h₂ in
      let (enough, h₄) = guard-eq-ok short _ _ h₃ in
      let is_enough : short ≡ false = enough in
      let (xdr, built, h₅) =
        >>=-eq-ok (expect_built (builder.build (draft s fee recipient amount memo))) _ h₄ in
      let (native, has_native, balance, eb, held, eh, paid, ep, covered) =
        affords s base fee amount (find_native s.account.balances) (judged ∙ ap ok is_enough) in
      let (least, most) = fee_bounds s.p95 fee_known in
      record {
        fee = fee;
        fee_known = fee_known;
        at_least = least;
        at_most = most;
        native = native;
        has_native = has_native;
        base = base;
        has_base = has_base;
        balance = balance;
        balance_units = eb;
        held = held;
        held_units = eh;
        paid = paid;
        paid_units = ep;
        enough = covered;
        built = read_built _ built ∙ ground arith;
        on_testnet = ground arith;
        shown_fee = ground arith;
      }

  prepare_complete :
      (prepared : Prepared)
      → IsFunded builder s recipient amount memo prepared
      → prepare_payment builder s recipient amount memo ≡ ok prepared
  unfolding prepare_payment is_insufficient
  prepare_complete prepared f =
      rw (f.fee_known, f.has_base, f.has_native, f.balance_units, f.held_units, f.paid_units)
        (ground (arith, f.built, f.enough, f.on_testnet, f.shown_fee))

caught-ok :
    (r : Result Prepared) {prepared : Prepared} → (caught r ≡ ok prepared) ↔ (r ≡ ok prepared)
unfolding caught
caught-ok (ok p) = (λ h. h, λ h. h)
caught-ok (err (bad_request m)) = (λ h. absurd (cc), λ h. absurd (cc))
caught-ok (err (unauthorized m)) = (λ h. absurd (cc), λ h. absurd (cc))
caught-ok (err (not_found m)) = (λ h. absurd (cc), λ h. absurd (cc))
caught-ok (err (conflict m)) = (λ h. absurd (cc), λ h. absurd (cc))
caught-ok (err (too_many_requests m)) = (λ h. absurd (cc), λ h. absurd (cc))
caught-ok (err (unavailable m)) = (λ h. absurd (cc), λ h. absurd (cc))
caught-ok (err (plain m)) = (λ h. absurd (cc), λ h. absurd (cc))
caught-ok (err (momo_api m st)) = (λ h. absurd (cc), λ h. absurd (cc))

module _ (service : StellarService) (builder : Builder) (sender recipient amount : Text)
    (memo : Option Text) where
  build_sound :
      (prepared : Prepared)
      → build_native_payment service builder sender recipient amount memo ≡ ok prepared
      → (service.network ≡ codes "testnet")
        × IsPayment service.sdk (requested_payment sender recipient amount memo)
        × (s : Snapshot) × (builder.gather sender recipient ≡ reply s)
        × IsFunded builder s recipient amount memo prepared
  unfolding build_native_payment assert_testnet prepare_from text_eq
  build_sound prepared h =
      let (u, tested, h₁) = >>=-eq-ok (assert_testnet service) _ h in
      let (v, valid, h₂) =
        >>=-eq-ok (validate_payment service.sdk (requested_payment sender recipient amount memo)) _
          h₁ in
      let (s, gathered, funded) = from_reply (builder.gather sender recipient) h₂ in
      (
        ground (arith, tested, text_eq_iff service.network (codes "testnet")),
        (validate_payment_iff service.sdk (requested_payment sender recipient amount memo)).0 valid,
        s,
        gathered,
        funded,
      )
    where
      from_reply :
          (r : Reply Snapshot)
          → prepare_from builder recipient amount memo r ≡ ok prepared
          → (s : Snapshot) × (r ≡ reply s) × IsFunded builder s recipient amount memo prepared
      from_reply (failed f) k = absurd (cc)
      from_reply (reply s) k = (
        s,
        refl,
        prepare_sound builder s recipient amount memo prepared
            ((caught-ok (prepare_payment builder s recipient amount memo)).0 k),
      )

  -- `buildNativePayment` returns a transaction exactly if the service is on Testnet, the payment
  -- is valid, the requests succeed, the fee is from 100 to 1000000, the native balance covers the
  -- amount, the fee, the reserve and the selling liabilities, and the library builds the payment;
  -- it returns what was built with the fee in print.
  pub build_native_payment_iff :
      (prepared : Prepared)
      → (build_native_payment service builder sender recipient amount memo ≡ ok prepared) ↔ (
          (service.network ≡ codes "testnet")
          × IsPayment service.sdk (requested_payment sender recipient amount memo)
          × (s : Snapshot) × (builder.gather sender recipient ≡ reply s)
          × IsFunded builder s recipient amount memo prepared)
  unfolding build_native_payment assert_testnet prepare_from text_eq
  build_native_payment_iff prepared = (
    build_sound prepared,
    λ (testnet, valid, s, gathered, funded).
        rw
          (
            testnet,
            gathered,
            (validate_payment_iff service.sdk (requested_payment sender recipient amount memo)).1
                valid,
          )
          ((caught-ok (prepare_payment builder s recipient amount memo)).1
            (prepare_complete builder s recipient amount memo prepared funded)),
  )
