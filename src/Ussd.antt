-- ===== src/Ussd.antt =====
-- `UssdController` of backend/src/ussd/ussd.controller.ts: the menu, and the sessions that it keeps.
pub mod Sessions
use afri_pay.Base.{
  ℕ, ◌+◌, ◌-◌, Bool, true, false, not, ◌&&◌, ◌||◌, List, [], ◌∷◌, Option, none, some, Text, codes,
  text_eq, is_empty, trim, split, Map, get, set, delete, length, all, ltb, leb, ◌==◌, if◌then◌else◌,
  is_some,
}
use afri_pay.Stellar.Amount.{is_digit, is_decimal}

pub record UssdRequestBody : Type 0 where
  pub session_id : Option Text
  pub service_code : Option Text
  pub phone_number : Option Text
  pub text : Option Text

pub record UssdSession : Type 0 where
  pub session_id : Text
  pub phone_number : Option Text
  pub updated_at : ℕ
  pub completed : Bool

-- The readings of the clock during a call: one for each session that the sweep passes, then those of
-- the check and of the write.
pub record Readings : Type 0 where
  pub at_sweep : Text → ℕ
  pub at_check : ℕ
  pub at_write : ℕ

-- `5 * 60 * 1000`
abbrev pub session_ms : ℕ
session_ms = 300000

abbrev pub most_sessions : ℕ
most_sessions = 10000

-- `Date.now() - session.updatedAt > 5 * 60 * 1000`
abbrev pub has_lapsed : ℕ → UssdSession → Bool
has_lapsed now session = ltb session_ms (now - session.updated_at)

unfoldable pub sweep : (Text → ℕ) → Map UssdSession → Map UssdSession
sweep now [] = []
sweep now ((id, session) ∷ sessions) =
    let rest = sweep now sessions in
    if has_lapsed (now id) session then rest else (id, session) ∷ rest

-- `/^\+?[0-9]{7,15}$/`
abbrev pub is_seven_to_fifteen : Text → Bool
is_seven_to_fifteen s = all is_digit s && leb 7 (length s) && leb (length s) 15

abbrev pub is_recipient : Text → Bool
is_recipient [] = false
is_recipient (c ∷ s) = if c == b'+' then is_seven_to_fifteen s else is_seven_to_fifteen (c ∷ s)

-- `/^\d+(\.\d{1,2})?$/`, and `Number(s) <= 0` for such a text: no digit but 0.
abbrev pub is_positive_amount : Text → Bool
is_positive_amount s = is_decimal (length s) 2 s && not (all (λ c. c == b'0' || c == b'.') s)

unfoldable pub handle_send_money : List Text → Text
handle_send_money (option ∷ []) = codes "CON Enter recipient number:"
handle_send_money (option ∷ recipient ∷ []) =
    if is_recipient recipient
    then codes "CON Enter amount:"
    else codes "END Invalid recipient number. Please start again."
handle_send_money (option ∷ recipient ∷ amount ∷ []) =
    if is_positive_amount amount
    then codes
        "END USSD payments are not connected. No transfer was initiated. Never enter a mobile-money PIN here."
    else codes "END Invalid amount. Please start again."
handle_send_money (option ∷ recipient ∷ amount ∷ pin ∷ []) =
    codes "END USSD payments are not connected. No transfer was initiated."
handle_send_money (option ∷ recipient ∷ amount ∷ pin ∷ more ∷ rest) =
    codes "END Invalid input. Please start again."
handle_send_money [] = codes "END Invalid input. Please start again."

abbrev pub welcome : Text
welcome =
    codes "CON Welcome to AfriPay\n1. Send Money\n2. Check Balance\n3. Transaction History\n4. Help"

abbrev pub help : Text
help =
    codes
      "END AfriPay Help\nDial *123# to send money, check balance, or view history.\nSupport: support@afripay.io"

-- The `switch` on `input[0]`.
unfoldable pub choose : Text → List Text → Text
unfolding handle_send_money
choose option input =
    if text_eq option (codes "1")
    then handle_send_money input
    else if text_eq option (codes "2")
    then codes
        "END Balance: NGN 0.00 (demo — connect a wallet or MoMo account to view live balance)"
    else if text_eq option (codes "3")
    then codes "END Transaction history is unavailable until a verified account is connected."
    else if text_eq option (codes "4")
    then help
    else codes "END Invalid option. Dial again and choose 1-4."

-- `text ? text.split('*') : []`
abbrev pub input_of : Option Text → List Text
input_of none = []
input_of (some []) = []
input_of (some (c ∷ text)) = split b'*' (c ∷ text)

unfoldable pub answer : List Text → Text
unfolding choose
answer [] = welcome
answer (option ∷ input) = choose option (option ∷ input)

-- `body.text !== undefined && body.text.length > 256`
abbrev pub is_too_long : Option Text → Bool
is_too_long none = false
is_too_long (some text) = ltb 256 (length text)

-- `body.sessionId?.trim() || 'anonymous'`
abbrev pub session_key : Option Text → Text
session_key none = codes "anonymous"
session_key (some id) = if is_empty (trim id) then codes "anonymous" else trim id

-- `previous && Date.now() - previous.updatedAt > …`
abbrev pub was_lapsed : ℕ → Option UssdSession → Bool
was_lapsed now none = false
was_lapsed now (some session) = has_lapsed now session

-- The handler once the body is accepted.
unfoldable pub continue_session :
    Readings → Text → UssdRequestBody → Map UssdSession → Text × Map UssdSession
unfolding sweep answer
continue_session clock id body sessions =
    let previous = get id sessions in
    let live = sweep clock.at_sweep sessions in
    if leb most_sessions (length live) && not (is_some previous)
    then (codes "END Service busy. Please try later.", live)
    else if was_lapsed clock.at_check previous
    then (codes "END Session expired. Please dial again.", delete id live)
    else (
      answer (input_of body.text),
      set id
          (record {
            session_id = id;
            phone_number = body.phone_number;
            updated_at = clock.at_write;
            completed = leb 4 (length (input_of body.text));
          })
          live,
    )

unfoldable pub handle_ussd :
    Readings → Option UssdRequestBody → Map UssdSession → Text × Map UssdSession
unfolding continue_session
handle_ussd clock none sessions = (codes "END Invalid input. Please start again.", sessions)
handle_ussd clock (some body) sessions =
    if is_too_long body.text
    then (codes "END Invalid input. Please start again.", sessions)
    else continue_session clock (session_key body.session_id) body sessions
