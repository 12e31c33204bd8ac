-- ===== src/Stellar/Sdk.antt =====
-- What the backend uses of `@stellar/stellar-sdk` and of Node: the parts of a parsed transaction, and
-- the library's functions as a parameter.
use afri_pay.Base.{ℕ, ◌+◌, ◌-◌, ◌/◌, ◌%◌, Bool, List, [], ◌∷◌, Option, Text, ltb, if◌then◌else◌}

-- `Memo.value`: null, a string, or bytes.
pub data MemoValue : Type 0 where
  null : MemoValue
  string : Text → MemoValue
  bytes : List ℕ → MemoValue

-- The fields of a decoded operation that the code reads; those after `source` are a payment's.
pub record Operation : Type 0 where
  pub op_type : Text
  pub source : Option Text
  pub is_native : Bool
  pub destination : Text
  pub amount : Text

pub record Transaction : Type 0 where
  pub source : Text
  pub operations : List Operation
  pub memo_type : Text
  pub memo_value : MemoValue
  pub max_time : Option ℕ
  pub fee : ℕ
  pub signatures : List (List ℕ)
  pub hash : List ℕ

-- What `TransactionBuilder.fromXDR` returns.
pub data Envelope : Type 0 where
  transaction : Transaction → Envelope
  fee_bump : Envelope

-- The functions of the SDK and of `Buffer` that the code calls; `none` is a throw.
pub record Sdk : Type 0 where
  pub is_valid_public_key : Text → Bool
  pub from_xdr : Text → Option Envelope
  pub from_public_key : Text → Option Text
  pub verify : Text → List ℕ → List ℕ → Option Bool
  pub decode_utf8 : List ℕ → Text

abbrev hex_digit : ℕ → ℕ
hex_digit n = if ltb n 10 then b'0' + n else b'a' + n - 10

-- `Buffer.from(bytes).toString('hex')`.
unfoldable pub to_hex : List ℕ → Text
to_hex [] = []
to_hex (b ∷ bs) = hex_digit (b / 16) ∷ hex_digit (b % 16) ∷ to_hex bs
