-- ===== src/Browser/Api.antt =====
-- The requests of the pages: frontend/src/lib/api.ts.
pub mod Reached
use afri_pay.Base.{
  ℕ, ◌+◌, Bool, true, false, not, ◌&&◌, ◌||◌, List, [], ◌∷◌, ◌++◌, Option, none, some, Text, codes,
  text_eq, is_empty, trim, leb, ◌==◌, length, all, if◌then◌else◌,
}
use mathlib.Core.List.{reverse}
use afri_pay.Stellar.Amount.{is_digit}

abbrev pub local_api_url : Text
local_api_url = codes "http://localhost:3101"

-- `URL` of the browser.
pub record Url : Type 0 where
  pub protocol : Text
  pub origin : Text
  pub text : Text

-- `new URL(s)`; none is a throw.
abbrev pub Parse : Type 0
Parse = Text → Option Url

pub data ErrorKind : Type 0 where
  configuration : ErrorKind
  unreachable : ErrorKind
  authentication : ErrorKind
  missing_route : ErrorKind
  cross_origin : ErrorKind
  server : ErrorKind

-- A value, or the message of a plain `Error`.
pub data Configured : Type 0 where
  base_url : Text → Configured
  misconfigured : Text → Configured

-- A letter of ASCII without its case.
abbrev pub lower : ℕ → ℕ
lower c = if leb b'A' c && leb c b'Z' then c + 32 else c

-- What follows a prefix in small letters, whatever the case.
unfoldable pub after_prefix : Text → Text → Option Text
after_prefix [] s = some s
after_prefix (c ∷ p) [] = none
after_prefix (c ∷ p) (d ∷ s) = let rest = after_prefix p s in if c == lower d then rest else none

-- `s?`
abbrev pub skip_s : Text → Text
skip_s [] = []
skip_s (c ∷ s) = if lower c == b's' then s else c ∷ s

-- `(?::\d+)?$`
abbrev pub is_port_end : Text → Bool
is_port_end [] = true
is_port_end (c ∷ s) = c == b':' && leb 1 (length s) && all is_digit s

abbrev pub is_local_host : Option Text → Bool
is_local_host none = false
is_local_host (some s) = is_port_end s

abbrev pub is_local_after : Option Text → Bool
is_local_after none = false
is_local_after (some s) = is_local_host (after_prefix (codes "://localhost") (skip_s s))

-- `/^https?:\/\/localhost(?::\d+)?$/i`
unfoldable pub is_local : Text → Bool
unfolding after_prefix is_digit
is_local s = is_local_after (after_prefix (codes "http") s)

unfoldable pub drop_slashes : Text → Text
drop_slashes [] = []
drop_slashes (c ∷ s) = if c == b'/' then drop_slashes s else c ∷ s

abbrev pub drop_slash : Text → Text
drop_slash [] = []
drop_slash (c ∷ s) = if c == b'/' then s else c ∷ s

-- `.replace(/\/+$/, '')` and `.replace(/\/$/, '')`
unfoldable pub without_slashes : Text → Text
unfolding drop_slashes
without_slashes s = reverse (drop_slashes (reverse s))

unfoldable pub without_slash : Text → Text
without_slash s = reverse (drop_slash (reverse s))

abbrev pub trimmed_value : Option Text → Text
trimmed_value none = []
trimmed_value (some value) = trim value

-- `(value?.trim() || LOCAL_API_URL).replace(/\/+$/, '')`
unfoldable pub candidate : Option Text → Text
unfolding without_slashes
candidate value =
    without_slashes (if is_empty (trimmed_value value) then local_api_url else trimmed_value value)

abbrev pub is_production_build : Option Text → Bool
is_production_build none = false
is_production_build (some environment) = text_eq environment (codes "production")

abbrev pub has_http : Url → Bool
has_http url = text_eq url.protocol (codes "http:") || text_eq url.protocol (codes "https:")

-- The `try` at the end of `getApiUrl`.
abbrev pub checked_url : Option Url → Configured
checked_url none = misconfigured (codes "Invalid NEXT_PUBLIC_API_URL. Use an absolute http(s) URL.")
checked_url (some url) =
    if has_http url
    then base_url (without_slash url.text)
    else misconfigured (codes "Invalid NEXT_PUBLIC_API_URL. Use an absolute http(s) URL.")

unfoldable pub get_api_url : Parse → Option Text → Option Text → Configured
unfolding candidate is_local
get_api_url parse value environment =
    if is_empty (trimmed_value value) && is_production_build environment
    then misconfigured
        (codes "Production API URL is not configured. Set NEXT_PUBLIC_API_URL in Vercel.")
    else if is_production_build environment && is_local (candidate value)
    then misconfigured (codes "Production API URL cannot point to localhost.")
    else checked_url (parse (candidate value))

-- What `fetch` gives: the status, and the `message` of the body if the body is JSON.
pub record Response : Type 0 where
  pub status : ℕ
  pub message : Option Text

-- A response, an `ApiError`, or the `TypeError` of `new URL`.
pub data Fetched : Type 0 where
  response : Response → Fetched
  api_error : Text → ErrorKind → Option ℕ → Fetched
  type_error : Fetched

abbrev pub is_success : Response → Bool
is_success r = leb 200 r.status && leb r.status 299

abbrev pub detail : Option Text → Text
detail none = codes "AfriPay backend request failed."
detail (some message) =
    if is_empty message then codes "AfriPay backend request failed." else message

abbrev pub unreachable_error : Bool → Fetched
unreachable_error true =
    api_error
      (codes
        "Backend unavailable or CORS is blocking the production API. Verify NEXT_PUBLIC_API_URL and FRONTEND_ORIGIN.")
      cross_origin none
unreachable_error false =
    api_error (codes "Backend unavailable. Start the AfriPay backend on port 3101.") unreachable
      none

-- The end of `apiFetch`, from the response on.
unfoldable pub classify : Response → Fetched
classify r =
    if is_success r
    then response r
    else if r.status == 401 || r.status == 403
    then api_error (codes "API authentication failed. Check the configured API key.") authentication
        (some r.status)
    else if r.status == 404
    then api_error (codes "The requested AfriPay API route was not found.") missing_route
        (some r.status)
    else api_error (detail r.message) server (some r.status)

abbrev pub settle_fetch : Bool → Option Response → Fetched
settle_fetch crossing none = unreachable_error crossing
settle_fetch crossing (some r) = classify r

abbrev pub starts_with_slash : Text → Bool
starts_with_slash [] = false
starts_with_slash (c ∷ s) = c == b'/'

-- `${baseUrl}${path.startsWith('/') ? path : `/${path}`}`
abbrev pub target : Text → Text → Text
target base path = base ++ (if starts_with_slash path then path else b'/' ∷ path)

-- `crossOrigin`; none is a throw. There is no `window` where no origin is given.
abbrev pub crosses_to : Option Url → Text → Option Bool
crosses_to none origin = none
crosses_to (some url) origin = some (not (text_eq url.origin origin))

abbrev pub crosses : Parse → Text → Option Text → Option Bool
crosses parse base none = some false
crosses parse base (some origin) = crosses_to (parse base) origin

abbrev pub fetch_as : Option Bool → Option Response → Fetched
fetch_as none reply = type_error
fetch_as (some crossing) reply = settle_fetch crossing reply

abbrev pub fetch_from : Parse → Option Text → Configured → Text → (Text → Option Response) → Fetched
fetch_from parse origin (misconfigured message) path reply = api_error message configuration none
fetch_from parse origin (base_url base) path reply =
    fetch_as (crosses parse base origin) (reply (target base path))

-- `apiFetch` on a page of this origin, with the build's variables and the answers of `fetch`.
unfoldable pub api_fetch :
    Parse → Option Text → Option Text → Option Text → Text → (Text → Option Response) → Fetched
unfolding get_api_url classify
api_fetch parse value environment origin path reply =
    fetch_from parse origin (get_api_url parse value environment) path reply
