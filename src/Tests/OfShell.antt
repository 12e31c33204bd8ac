-- ===== src/Tests/OfShell.antt =====
-- The account that is loaded, and the theme of the pages.
use afri_pay.Base.{
  ℕ, ◌+◌, ◌*◌, ◌==◌, ◌≡◌, refl, true, false, [], ◌∷◌, List, none, some, arith, Text, codes, text_eq,
  ltb, if◌then◌else◌,
}
use afri_pay.Browser.Send.{answer, thrown}
use afri_pay.Browser.Activity.{HistoryItem}
use afri_pay.Browser.Account.{
  Loader, Summary, empty_account, first_loader, ask_for, close_account, summary_arrived,
  history_arrived, summary_answered, history_answered, xlm_balance, other_assets, Reach, starts,
  opens, closes, summarises, tells,
}
use afri_pay.Browser.Account.Own.{account_own}
use afri_pay.Browser.Dates.{Date, IsCalendar, format_day, format_day_lem}
use afri_pay.Browser.Theme.{
  light, dark, system, Media, Page, load, set_theme, follow, boot, boot_for, read_theme,
  apply_theme, stored_after, same_theme, set_at, theme_at, any_system, Reach as ThemeReach, loads,
  chooses, follows,
}
use afri_pay.Browser.Theme.Runs.{theme_shown}

-- One address is opened and closed, another is opened; an answer for the first comes late.
abbrev reopened : Loader
reopened = ask_for (codes "GB") (close_account (ask_for (codes "GA") first_loader))

abbrev rich : Summary
rich = record {
  activated = true;
  balances = record { asset = codes "XLM"; balance = codes "9" } ∷ [];
}

abbrev poor : Summary
poor = record { activated = true; balances = [] }

abbrev late : Loader
late = summary_arrived 1 (codes "GA") (answer rich) reopened

abbrev loaded : Loader
loaded =
    history_arrived 3 (codes "GB") (thrown none) (summary_arrived 3 (codes "GB") (answer poor) late)

reopens : Reach loaded
unfolding summary_arrived history_arrived
reopens = tells _ 3 (codes "GB") (thrown none) [] _ refl (
    summarises _ 3 (codes "GB") (answer poor) [] _ refl (
      summarises _ 1 (codes "GA") (answer rich) ((3, codes "GB") ∷ []) _ refl
        (opens _ (codes "GB") refl refl (closes _ (opens _ (codes "GA") refl refl starts)))))

shows_second : (loaded.account.xlm ≡ some (codes "0")) × (loaded.account.history ≡ some [])
unfolding summary_arrived history_arrived summary_answered history_answered xlm_balance other_assets
shows_second = (refl, refl)

account_own_example :
    ((x : Text)
      → loaded.account.xlm ≡ some x
      → (a : Text) × (loaded.balance_of ≡ some a) × (loaded.address ≡ some a))
    × ((x : List HistoryItem)
        → loaded.account.history ≡ some x
        → (a : Text) × (loaded.history_of ≡ some a) × (loaded.address ≡ some a))
    × (loaded.address ≡ none → loaded.account ≡ empty_account)
account_own_example = account_own reopens

abbrev bright : Media
bright = record { dark_scheme = false; listens = true }

abbrev chosen : Page
chosen = follow true bright (set_theme 0 system light true (load 0 (answer none) (some bright)))

themed : ThemeReach 0 chosen
unfolding load set_theme follow theme_at read_theme
themed =
    follows true bright refl refl
      (chooses 0 system light true refl (loads (answer none) (some bright)))

theme_shown_example :
    (chosen.dark_class ≡ apply_theme (read_theme chosen.stored) chosen.media)
    × (boot chosen.stored chosen.media false ≡ chosen.dark_class)
    × ((load 0 chosen.stored chosen.media).themes ≡ chosen.themes)
unfolding load set_theme follow stored_after
theme_shown_example = theme_shown themed refl refl refl false

-- Two components: the theme `dark` is chosen in one, and the preference changes twice.
abbrev shaded : Media
shaded = record { dark_scheme = true; listens = true }

abbrev crossed : Page
crossed =
    follow false shaded
      (follow true bright (set_theme 1 system dark true (load 1 (answer none) (some bright))))

crossed_themes :
    (crossed.themes ≡ system ∷ dark ∷ [])
    × (crossed.dark_class ≡ false)
    × (boot crossed.stored crossed.media false ≡ true)
unfolding load set_theme follow set_at same_theme any_system apply_theme read_theme stored_after
    boot boot_for text_eq
crossed_themes = (refl, refl, refl)

-- Summer time begins on day 10, which is an hour shorter.
abbrev midnight : ℕ → ℕ
midnight d = if ltb 10 d then d * 86400000 else d * 86400000 + 3600000

spring : IsCalendar midnight
spring d n = (ground arith, ground arith)

abbrev dated : Date
dated = record { day = 10; year = 1; short = codes "10"; long = codes "10 1" }

abbrev next_day : Date
next_day = record { day = 11; year = 1; short = codes "11"; long = codes "11 1" }

format_day_lem_example : format_day midnight dated next_day ≡ (
    if next_day.day == dated.day
    then codes "Today"
    else if next_day.day == dated.day + 1
    then codes "Yesterday"
    else if dated.year == next_day.year
    then dated.short
    else dated.long)
format_day_lem_example = format_day_lem midnight dated next_day spring
