-- ===== src/Guards/ApiKey.antt =====
-- `ApiKeyGuard` of backend/src/auth/api-key.guard.ts.
use afri_pay.Base.{
  ◌≡◌, refl, ◌⊎◌, inl, inr, ◌↔◌, Bool, true, false, List, [], ◌∷◌, Option, none, some, arith, Text,
  codes, text_eq, text_eq_iff, is_empty, trim, utf8, Result, ok, err, unauthorized, if◌then◌else◌,
}

-- The header `x-api-key`: absent, one value, or several.
pub data Header : Type 0 where
  missing : Header
  single : Text → Header
  several : List Text → Header

-- `Array.isArray(supplied) ? supplied[0] : supplied`
abbrev pub header_value : Header → Option Text
header_value missing = none
header_value (single value) = some value
header_value (several []) = none
header_value (several (value ∷ values)) = some value

-- `process.env.NODE_ENV === 'production'`
abbrev pub is_production : Option Text → Bool
is_production none = false
is_production (some name) = text_eq name (codes "production")

abbrev pub compare_key : Text → Option Text → Result Bool
compare_key configured none = err (unauthorized "Missing API key")
compare_key configured (some []) = err (unauthorized "Missing API key")
compare_key configured (some (c ∷ value)) =
    if text_eq (utf8 configured) (utf8 (c ∷ value))
    then ok true
    else err (unauthorized "Invalid API key")

-- The guard with a key that is trimmed.
abbrev pub check_key : Text → Option Text → Header → Result Bool
check_key [] node_env supplied =
    if is_production node_env
    then err (unauthorized "API authentication is not configured")
    else ok true
check_key (c ∷ configured) node_env supplied = compare_key (c ∷ configured) (header_value supplied)

-- `process.env.API_KEY?.trim()`
abbrev pub trimmed : Option Text → Text
trimmed none = []
trimmed (some key) = trim key

unfoldable pub can_activate : Option Text → Option Text → Header → Result Bool
can_activate api_key node_env supplied = check_key (trimmed api_key) node_env supplied

-- What the guard asks of a request.
abbrev pub Admits : Option Text → Option Text → Header → Type 0
Admits api_key node_env supplied =
    ((trimmed api_key ≡ []) × (is_production node_env ≡ false))
    ⊎ ((is_empty (trimmed api_key) ≡ false)
        × ((value : Text) × (header_value supplied ≡ some value)
            × (is_empty value ≡ false)
            × (utf8 (trimmed api_key) ≡ utf8 value)))

compare_key_iff :
    (key : Text) (supplied : Option Text)
    → (compare_key key supplied ≡ ok true) ↔ (
        (value : Text) × (supplied ≡ some value)
        × (is_empty value ≡ false)
        × (utf8 key ≡ utf8 value))
compare_key_iff key none = (λ h. absurd (cc), λ h. absurd (ground arith))
compare_key_iff key (some []) = (λ h. absurd (cc), λ h. absurd (ground arith))
compare_key_iff key (some (c ∷ value)) = (
  λ h. (c ∷ value, refl, refl, ground (arith, text_eq_iff (utf8 key) (utf8 (c ∷ value)))),
  λ h. ground (arith, text_eq_iff (utf8 key) (utf8 (c ∷ value))),
)

-- `ApiKeyGuard` lets a request pass exactly if the trimmed key is empty and NODE_ENV is not
-- production, or if the key is not empty and the first value of the header is given, not empty,
-- and has the same UTF-8 bytes as the trimmed key.
pub can_activate_iff :
    (api_key node_env : Option Text) (supplied : Header)
    → (can_activate api_key node_env supplied ≡ ok true) ↔ Admits api_key node_env supplied
unfolding can_activate
can_activate_iff api_key node_env supplied = go (trimmed api_key)
  where
    go :
        (key : Text)
        → (check_key key node_env supplied ≡ ok true) ↔ (
            ((key ≡ []) × (is_production node_env ≡ false))
            ⊎ ((is_empty key ≡ false)
                × ((value : Text) × (header_value supplied ≡ some value)
                    × (is_empty value ≡ false)
                    × (utf8 key ≡ utf8 value))))
    go [] = (λ h. inl (refl, ground arith), λ h. ground arith)
    go (c ∷ key) = (
      λ h. inr (refl, (compare_key_iff (c ∷ key) (header_value supplied)).0 h),
      λ h.
          (compare_key_iff (c ∷ key) (header_value supplied)).1
            (elim h [ inl bare ↦ absurd (ground arith) | inr found ↦ found.1 ]),
    )
