-- ===== src/Tests/OfTables.antt =====
-- The store with a database beside the store in memory, and a link from it on the page.
use afri_pay.Base.{
  not, ◌∷◌, List, [], refl, subst, ◌≢◌, ◌≡◌, true, false, none, some, codes, ok, arith, Text, get,
  text_eq, find_value,
}
use afri_pay.Stellar.Amount.{is_digit}
use afri_pay.Payments.{PaymentLink, PaymentIntent}
use afri_pay.Payments.Memory.{create_intent}
use afri_pay.Payments.Postgres.{row_of as db_row_of, read_intent, postgres}
use afri_pay.Payments.Postgres.Worlds.{WorldsMeet, shadow}
use afri_pay.Payments.Postgres.Submit.{submit_simulates}
use afri_pay.Payments.Postgres.Stores.{StoresMeet}
use afri_pay.Payments.Postgres.Methods.{service_create_simulates, reconcile_simulates}
use afri_pay.Payments.Input.{new_intent}
use afri_pay.Payments.Service.{submit, create, reconcile}
use afri_pay.Payments.Memory.{memory}
use afri_pay.Stellar.Amount.{stroops, is_decimal, units}
use afri_pay.Payments.Postgres.{Postgres, Tables, select_link, store_link}
use afri_pay.Payments.Postgres.Simulates.{tables_of}
use afri_pay.Momo.{MomoTransactionType, MomoTransactionStatus, MomoTransactionRecord, StatusPatch}
use afri_pay.Momo.Memory.{save}
use afri_pay.Momo.Postgres
use afri_pay.Momo.Postgres.{row_of, save_row}
use afri_pay.Momo.Postgres.Simulates.{SaveSimulated, rows_of, save_simulates}
use afri_pay.Browser.Send.Form.{amount_error}
use afri_pay.Browser.Send.Links.{link_refused}
use afri_pay.Tests.Samples.{
  request, sdk, in_flight, intent, empty, waiting, at_rest, service, horizon,
}
use afri_pay.Tests.OfSending.{wallet}

-- A column that prints twelve decimals of 1.5.
abbrev db : Postgres
db = record {
  is_up = true;
  numeric = λ amount. codes "1.500000000000";
  newest_first = λ rows. rows;
  app_url = codes "http://localhost:3000";
}

stored :
    (i : PaymentIntent)
    → get (codes "p1") (at_rest waiting).store.intents ≡ some i
    → (i.transaction_hash ≢ some [])
      × (stroops (read_intent (db_row_of db i)).amount ≡ stroops i.amount)
unfolding get text_eq read_intent stroops is_decimal units
stored i h =
    let same : intent ≡ i = cc in
    subst
      (λ (x : PaymentIntent).
        (x.transaction_hash ≢ some [])
        × (stroops (read_intent (db_row_of db x)).amount ≡ stroops x.amount))
      same (λ e. cc, refl)

submit_simulates_example :
    WorldsMeet db []
      (submit memory service horizon
        (codes "t1")
        (codes "t2")
        (codes "p1")
        (codes "AAAA")
        (at_rest waiting))
      (submit
        (postgres db)
        service
        horizon
        (codes "t1")
        (codes "t2")
        (codes "p1")
        (codes "AAAA")
        (shadow db [] (at_rest waiting)))
submit_simulates_example =
    submit_simulates db [] refl service horizon (codes "t2") (codes "p1") (codes "AAAA")
      (codes "t1") (at_rest waiting) stored

abbrev new : PaymentIntent
new = new_intent (codes "p1") (codes "t0") request

saved :
    (i : PaymentIntent)
    → (create_intent new empty).0 ≡ ok i
    → stroops (read_intent (db_row_of db i)).amount ≡ stroops i.amount
unfolding create_intent find_value get read_intent stroops is_decimal units
saved i h =
    let same : new ≡ i = cc in
    subst (λ (x : PaymentIntent). stroops (read_intent (db_row_of db x)).amount ≡ stroops x.amount)
      same refl

service_create_simulates_example :
    StoresMeet db []
      (create memory sdk (codes "p1") (codes "t0") request empty)
      (create (postgres db) sdk (codes "p1") (codes "t0") request (tables_of db [] empty))
unfolding get
service_create_simulates_example =
    service_create_simulates db [] refl sdk (codes "p1") (codes "t0") request empty refl saved

reconcile_simulates_example :
    StoresMeet db [] (reconcile memory service horizon (codes "t2") (codes "p1") in_flight) (
      reconcile (postgres db) service horizon (codes "t2") (codes "p1") (tables_of db [] in_flight))
reconcile_simulates_example =
    reconcile_simulates db [] refl service horizon (codes "t2") (codes "p1") in_flight

abbrev link : PaymentLink
link = record {
  id = codes "l1";
  creator = codes "GB";
  amount = some (codes "1.5");
  asset = codes "XLM";
  reference = none;
  expires_at = none;
  url = codes "http://localhost:3000/pay/l1";
  created_at = codes "t0";
}

abbrev tables : Tables
tables = record { intents = []; links = [] }

link_refused_example :
    (found : PaymentLink) × (shown : Text) × ((select_link db
        (codes "l1")
        (store_link db link tables).1).0
      ≡ ok (some found))
    × (found.amount ≡ some shown)
    × (amount_error (λ x y. false) wallet shown ≡ true)
unfolding get is_digit
link_refused_example =
    link_refused db tables link (codes "1.5") (codes "1") (codes "500000000000") (λ x y. false)
      wallet refl refl refl refl (omega arith) refl

abbrev charge : MomoTransactionRecord
charge = record {
  reference_id = codes "r1";
  tx_type = MomoTransactionType.collection;
  status = MomoTransactionStatus.pending;
  amount = codes "1.5";
  currency = codes "EUR";
  external_id = codes "order-1";
  party_id = codes "46733123450";
  reason = none;
  created_at = codes "t0";
  updated_at = codes "t0";
}

abbrev momo_db : Postgres.Postgres
momo_db = record {
  is_up = true;
  numeric = λ amount. codes "1.500000000000";
  char3 = λ currency. currency;
  takes = λ reference amount currency. not (text_eq amount (codes "0"));
}

save_simulates_example :
    SaveSimulated momo_db (save charge []) (save_row momo_db charge (rows_of momo_db []))
unfolding get text_eq
save_simulates_example = save_simulates momo_db [] charge refl refl refl

abbrev success : StatusPatch
success = record { status = MomoTransactionStatus.successful; reason = none }

abbrev charges : List (Text × MomoTransactionRecord)
charges = (codes "r1", charge) ∷ []
