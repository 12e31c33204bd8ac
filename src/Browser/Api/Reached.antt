-- ===== src/Browser/Api/Reached.antt =====
-- When a request of frontend/src/lib/api.ts gets its response.
use afri_pay.Base.{
  ◌≡◌, ◌≢◌, refl, subst, ap, ◌↔◌, Bool, true, false, Option, none, some, arith, Text, is_empty,
  Option-cases, Bool-cases, inl, inr,
}
use afri_pay.Browser.Api.{
  Url, Parse, Configured, base_url, misconfigured, is_local, candidate, trimmed_value,
  is_production_build, has_http, without_slash, get_api_url, Response, response, is_success,
  classify, target, crosses, fetch_as, fetch_from, settle_fetch, api_fetch,
}

-- What the build's variables must be for the pages to have an address of the server.
pub record IsConfigured (parse : Parse) (value environment : Option Text) (url : Url) : Type 0 where
  pub parsed : parse (candidate value) ≡ some url
  pub over_http : has_http url ≡ true
  pub in_production :
      is_production_build environment ≡ true
      → (is_empty (trimmed_value value) ≡ false) × (is_local (candidate value) ≡ false)

get_api_url_sound :
    (parse : Parse) (value environment : Option Text) {base : Text}
    → get_api_url parse value environment ≡ base_url base
    → (url : Url) × IsConfigured parse value environment url × (without_slash url.text ≡ base)
unfolding get_api_url
get_api_url_sound parse value environment h = elim (Option-cases (parse (candidate value))) [
  | inl failed ↦ absurd (ground arith)
  | inr (url, parsed) ↦ (
    url,
    record { parsed = parsed; over_http = ground arith; in_production = λ p. ground arith },
    ground arith,
  )
]

get_api_url_complete :
    (parse : Parse) (value environment : Option Text) (url : Url)
    → IsConfigured parse value environment url
    → get_api_url parse value environment ≡ base_url (without_slash url.text)
unfolding get_api_url
get_api_url_complete parse value environment url c =
    let parsed = c.parsed in
    let http = c.over_http in
    elim (Bool-cases (is_production_build environment)) [
      | inl production ↦
          let (given, remote) = c.in_production production in
          ground (arith, production, given, remote, parsed, http)
      | inr other ↦ ground (arith, other, parsed, http)
    ]

classify-response :
    (q : Response) {r : Response} → classify q ≡ response r → (q ≡ r) × (is_success r ≡ true)
unfolding classify
classify-response q {r} h = elim (Bool-cases (is_success q)) [
  | inl good ↦ let same : q ≡ r = ground arith in (same, subst (λ x. is_success x ≡ true) same good)
  | inr bad ↦ absurd (ground arith)
]

settled-response :
    (crossing : Bool) (reply : Option Response) {r : Response}
    → settle_fetch crossing reply ≡ response r
    → (reply ≡ some r) × (is_success r ≡ true)
settled-response true none h = absurd (cc)
settled-response false none h = absurd (cc)
settled-response crossing (some q) h =
    let (same, good) = classify-response q h in (ap (λ x. some x) same, good)

fetched-response :
    (crossing : Option Bool) (reply : Option Response) {r : Response}
    → fetch_as crossing reply ≡ response r
    → (crossing ≢ none) × (reply ≡ some r) × (is_success r ≡ true)
fetched-response none reply h = absurd (cc)
fetched-response (some b) reply h =
    let (got, good) = settled-response b reply h in (λ e. cc, got, good)

answered :
    (crossing : Option Bool) (r : Response)
    → crossing ≢ none
    → is_success r ≡ true
    → fetch_as crossing (some r) ≡ response r
unfolding classify
answered none r h good = absurd (h refl)
answered (some b) r h good = rw good refl

module _ (parse : Parse) (value environment origin : Option Text) (path : Text)
    (reply : Text → Option Response) (r : Response) where
  -- The server was reached under its address and answered well.
  pub record IsReached : Type 0 where
    pub url : Url
    pub configured : IsConfigured parse value environment url
    pub compared : crosses parse (without_slash url.text) origin ≢ none
    pub replied : reply (target (without_slash url.text) path) ≡ some r
    pub good : is_success r ≡ true

  reached :
      (c : Configured)
      → get_api_url parse value environment ≡ c
      → fetch_from parse origin c path reply ≡ response r
      → IsReached
  reached (misconfigured message) e h = absurd (cc)
  reached (base_url base) e h =
      let (url, configured, same) = get_api_url_sound parse value environment e in
      let (compared, replied, good) =
        fetched-response (crosses parse base origin) (reply (target base path)) h in
      record {
        url = url;
        configured = configured;
        compared = rw same compared;
        replied = rw same replied;
        good = good;
      }

  -- `apiFetch` gives a response exactly if the configured address, or the local one, is a URL over
  -- http or https, is set and is not a bare local host in production, can be compared with the
  -- page's origin, and the request to the path under it is answered with that response and a
  -- status from 200 to 299.
  pub api_fetch_iff : (api_fetch parse value environment origin path reply ≡ response r) ↔ IsReached
  unfolding api_fetch
  api_fetch_iff = (
    reached (get_api_url parse value environment) refl,
    λ s.
        let base = without_slash s.url.text in
        let url = get_api_url_complete parse value environment s.url s.configured in
        rw (url, s.replied) (answered (crosses parse base origin) r s.compared s.good),
  )
