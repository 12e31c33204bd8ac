-- ===== src/Browser/Dates.antt =====
-- The days of the list of payments: `formatDay` of frontend/src/lib/format.ts. The calendar of the
-- browser and its printing of a date are parameters.
use afri_pay.Base.{
  ℕ, ◌+◌, ◌-◌, ◌*◌, ◌/◌, ◌≤◌, ◌<◌, ◌==◌, ◌≡◌, inl, inr, refl, sym, ap, subst, ◌∙◌, Option, none,
  some, arith, Text, codes, leb, Bool-cases, if◌then◌else◌,
}

-- A date: the day that it falls on in the local calendar, counted from some first day, its year,
-- and its print without and with the year.
pub record Date : Type 0 where
  pub day : ℕ
  pub year : ℕ
  pub short : Text
  pub long : Text

-- `Math.round((a - b) / 86_400_000)`: a half is rounded up; none is a negative number.
unfoldable pub round_days : ℕ → ℕ → Option ℕ
round_days a b =
    if leb b a
    then some ((a - b + 43200000) / 86400000)
    else if leb (b - a) 43200000
    then some 0
    else none

abbrev pub name_of : Text → Option ℕ → Text
name_of printed none = printed
name_of printed (some days) =
    if days == 0 then codes "Today" else if days == 1 then codes "Yesterday" else printed

-- `midnight` is the time at which a day starts.
unfoldable pub format_day : (ℕ → ℕ) → Date → Date → Text
unfolding round_days
format_day midnight date now =
    name_of (if date.year == now.year then date.short else date.long)
      (round_days (midnight now.day) (midnight date.day))

-- From one midnight to a later one, the clock is set by less than twelve hours in all.
abbrev pub IsCalendar : (ℕ → ℕ) → Type 0
IsCalendar midnight =
    (d n : ℕ)
    → (n * 86400000 + midnight d < midnight (d + n) + 43200000)
      × (midnight (d + n) < n * 86400000 + midnight d + 43200000)

quotient : (n x : ℕ) → n * 86400000 ≤ x → x < n * 86400000 + 86400000 → x / 86400000 ≡ n
quotient n x low high = omega (arith, low, high)

round_later :
    (n a b : ℕ)
    → n * 86400000 + b < a + 43200000
    → a < n * 86400000 + b + 43200000
    → round_days a b ≡ some n
unfolding round_days
round_later n a b low high = elim (Bool-cases (leb b a)) [
  | inl later ↦
      rw later (ap (λ t. some t) (quotient n (a - b + 43200000) (ground arith) (ground arith)))
  | inr earlier ↦ elim (Bool-cases (leb (b - a) 43200000)) [
    | inl near ↦ rw (earlier, near) (ap (λ t. some t) (ground arith))
    | inr far ↦ absurd (ground arith)
  ]
]

round_earlier : (n a b : ℕ) → (n + 1) * 86400000 + a < b + 43200000 → round_days a b ≡ none
unfolding round_days
round_earlier n a b low = elim (Bool-cases (leb b a)) [
  | inl later ↦ absurd (ground arith)
  | inr earlier ↦ elim (Bool-cases (leb (b - a) 43200000)) [
    | inl near ↦ absurd (ground arith)
    | inr far ↦ rw (earlier, far) refl
  ]
]

abbrev day_name : Text → ℕ → ℕ → Text
day_name printed d e =
    if e == d then codes "Today" else if e == d + 1 then codes "Yesterday" else printed

name_of-later : (printed : Text) (d n : ℕ) → name_of printed (some n) ≡ day_name printed d (d + n)
name_of-later printed d n = ground arith

name_of-earlier : (printed : Text) (d n : ℕ) → day_name printed (d + (n + 1)) d ≡ printed
name_of-earlier printed d n = ground arith

named :
    (midnight : ℕ → ℕ) (printed : Text) (d e : ℕ)
    → IsCalendar midnight
    → name_of printed (round_days (midnight e) (midnight d)) ≡ day_name printed d e
named midnight printed d e calendar = elim (Bool-cases (leb d e)) [
  | inl later ↦
      let n = e - d in
      let same : d + n ≡ e = ground arith in
      let (low, high) = calendar d n in
      subst (λ x. name_of printed (round_days (midnight x) (midnight d)) ≡ day_name printed d x)
        same
        (ap (λ r. name_of printed r) (round_later n (midnight (d + n)) (midnight d) low high)
          ∙ name_of-later printed d n)
  | inr earlier ↦
      let n = d - e - 1 in
      let same : e + (n + 1) ≡ d = ground arith in
      subst (λ x. name_of printed (round_days (midnight e) (midnight x)) ≡ day_name printed x e)
        same
        (ap (λ r. name_of printed r)
            (round_earlier n (midnight e) (midnight (e + (n + 1))) (calendar e (n + 1)).0)
          ∙ sym (name_of-earlier printed e n))
]

-- If from any midnight to a later one the clock is set by less than twelve hours in all:
-- `formatDay` says Today exactly for a date on the day of now, Yesterday exactly for one on the
-- day before, and else, also for a later date, prints the date, with its year where that is not
-- the year of now.
pub format_day_lem :
    (midnight : ℕ → ℕ) (date now : Date)
    → IsCalendar midnight
    → format_day midnight date now ≡ (
        if now.day == date.day
        then codes "Today"
        else if now.day == date.day + 1
        then codes "Yesterday"
        else if date.year == now.year
        then date.short
        else date.long)
unfolding format_day
format_day_lem midnight date now calendar =
    named midnight (if date.year == now.year then date.short else date.long) date.day now.day
      calendar
