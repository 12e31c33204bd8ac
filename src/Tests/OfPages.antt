-- ===== src/Tests/OfPages.antt =====
-- The pages: addresses, requests for payments, the list of payments, and the requests of the pages.
use afri_pay.Base.{
  ℕ, ◌≡◌, refl, true, false, [], ◌∷◌, ◌++◌, Option, none, some, Text, codes, trim, is_space, List,
  text_eq, is_empty, arith, ok, utf8, if◌then◌else◌,
}
use afri_pay.Stellar.Amount.{is_decimal, units}
use afri_pay.Payments.{PaymentLink}
use afri_pay.Payments.Memory.{Memory, memory}
use afri_pay.Payments.Input.{Dates}
use afri_pay.Payments.Service.{get_link}
use afri_pay.Payments.Requests.{handle_create_link}
use afri_pay.Browser.Send.{WalletView, Storage}
use afri_pay.Browser.Send.Form.{Exceeds, exceeds_balance, amount_error, memo_error}
use afri_pay.Browser.Send.Screen.{opened}
use afri_pay.Browser.Request.{RequestForm, link_body, request_link}
use afri_pay.Browser.Request.Paid.{payment_request, link_paid}
use afri_pay.Browser.Address.{address_groups, short_address}
use afri_pay.Browser.Activity.{HistoryItem, group_days}
use afri_pay.Browser.Activity.Days.{AreGrouped, group_days_lem}
use afri_pay.Browser.Api.{
  Parse, Response, get_api_url, base_url, misconfigured, api_fetch, without_slash,
}
use afri_pay.Browser.Api.Reached.{IsReached, api_fetch_iff}
use afri_pay.Tests.OfBuilding.{signer}

abbrev request_form : RequestForm
request_form = record {
  amount = codes "2.5";
  reference = codes " rent ";
  link = none;
  busy = false;
  error = none;
}

abbrev asked : RequestForm
asked = record request_form { busy = true }

abbrev head : Text → Option ℕ
head [] = none
head (t ∷ s) = some t

-- Dates that are written as one code unit.
abbrev dates : Dates
dates = record { now = 1000; parse = head; to_iso = λ t. t ∷ [] }

abbrev later : Dates
later = record dates { now = 2000 }

abbrev no_links : Memory
no_links = record { intents = []; links = [] }

asks :
    request_link (some (codes "GA")) request_form
    ≡ (asked, some (link_body (codes "GA") request_form))
unfolding request_link is_decimal units utf8 text_eq
asks = refl

link_paid_example :
    (link : PaymentLink) × (m' : Memory) × (handle_create_link memory signer.sdk dates
        (codes "https://a")
        (codes "l")
        (codes "t0")
        (link_body (codes "GA") request_form)
        no_links
      ≡ (ok link, m'))
    × (get_link memory later (codes "l") m' ≡ (ok link, m'))
    × ((payer : Option Text) (storage : Storage)
        → let s = opened (some (payment_request link)) payer storage in
          (s.recipient ≡ codes "GA") × (s.amount ≡ codes "2.5") × (s.memo ≡ trim (codes " rent ")))
    × (memo_error (trim (codes " rent ")) ≡ false)
    × ((exceeds : Exceeds) (wallet : WalletView)
        → is_empty (codes "2.5") ≡ false
        → exceeds_balance exceeds (codes "2.5") wallet.xlm ≡ false
        → amount_error exceeds wallet (codes "2.5") ≡ false)
link_paid_example =
    link_paid signer.sdk dates later (codes "https://a") (codes "l") (codes "t0") (codes "GA")
      request_form asked (link_body (codes "GA") request_form) no_links asks refl
      (λ t. (refl, refl)) (omega arith)

shortened : short_address (codes "GABCDEFGHIJKLMNOPQ") ≡ codes "GABCD" ++ 0x2026 ∷ codes "MNOPQ"
unfolding short_address
shortened = refl

grouped : address_groups (codes "GABCDEFGH") ≡ codes "GABC" ∷ codes "DEFG" ∷ codes "H" ∷ []
unfolding address_groups
grouped = refl

abbrev item : Text → HistoryItem
item created_at = record {
  id = created_at;
  item_type = codes "payment";
  amount = some (codes "1.0");
  asset = codes "XLM";
  transaction_hash = [];
  created_at = created_at;
  from = none;
  to = none;
}

-- The day of a time is its first letter.
abbrev day_of : Text → Text
day_of [] = []
day_of (c ∷ s) = c ∷ []

abbrev items : List HistoryItem
items = item (codes "b2") ∷ item (codes "b1") ∷ item (codes "a9") ∷ []

two_days :
    group_days day_of items []
    ≡ record { day = codes "b"; items = item (codes "b2") ∷ item (codes "b1") ∷ [] }
      ∷ record { day = codes "a"; items = item (codes "a9") ∷ [] }
      ∷ []
unfolding group_days text_eq
two_days = refl

group_days_lem_example : AreGrouped day_of items (group_days day_of items [])
group_days_lem_example = group_days_lem day_of items

-- A parser that takes every address for one of this server.
abbrev parse : Parse
parse s = some (record {
  protocol = codes "https:";
  origin = codes "https://api.example";
  text = s ++ b'/' ∷ [];
})

abbrev fine : Response
fine = record { status = 200; message = none }

abbrev answers : Text → Option Response
answers url = if text_eq url (codes "https://api.example/health") then some fine else none

api_fetch_iff_example :
    IsReached parse
      (some (codes " https://api.example// "))
      (some (codes "production"))
      (some (codes "https://app.example"))
      (codes "health")
      answers
      fine
unfolding api_fetch text_eq trim is_space without_slash
api_fetch_iff_example =
    (api_fetch_iff parse (some (codes " https://api.example// ")) (some (codes "production"))
        (some (codes "https://app.example")) (codes "health") answers fine).0
      refl

local_refused :
    get_api_url parse (some (codes "HTTP://localhost:3101/")) (some (codes "production"))
    ≡ misconfigured (codes "Production API URL cannot point to localhost.")
unfolding get_api_url text_eq trim is_space
local_refused = refl

-- With a path, the same host is taken.
local_taken :
    get_api_url parse (some (codes "http://localhost:3101/api")) (some (codes "production"))
    ≡ base_url (codes "http://localhost:3101/api")
unfolding get_api_url text_eq trim is_space without_slash
local_taken = refl
