-- ===== src/Tests/OfStellar.antt =====
-- Amounts, payments and transactions.
use afri_pay.Base.{◌≡◌, ◌↔◌, some, codes, ok}
use afri_pay.Stellar.Amount.{stroops}
use afri_pay.Stellar.Amount.Value.{Denotes, stroops_iff}
use afri_pay.Stellar.Sdk.{transaction}
use afri_pay.Stellar.Validation.{parse_payment}
use afri_pay.Stellar.Validation.Accepts.{Authorises, parse_payment_iff}
use afri_pay.Tests.Samples.{sdk, tx, payment}

stroops_iff_example : (stroops (codes "1.5") ≡ ok 15000000) ↔ Denotes (codes "1.5") 15000000
stroops_iff_example = stroops_iff (codes "1.5") 15000000

parse_payment_iff_example :
    (parse_payment sdk (codes "AAAA") (some payment) ≡ ok tx)
    ↔ ((sdk.from_xdr (codes "AAAA") ≡ some (transaction tx)) × Authorises sdk payment tx)
parse_payment_iff_example = parse_payment_iff sdk (codes "AAAA") payment tx
