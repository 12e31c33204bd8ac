-- ===== src/Browser/Theme/Runs.antt =====
-- What the document shows: frontend/src/lib/theme.ts.
use afri_pay.Base.{
  ℕ, zero, suc, ◌≡◌, refl, sym, ap, ◌∙◌, Bool, true, false, [], ◌∷◌, Option, none, some, Text,
  codes, text_eq, text_eq_sound, Bool-cases, inl, inr, if◌then◌else◌,
}
use afri_pay.Browser.Send.{answer, thrown}
use afri_pay.Browser.Theme.{
  Theme, light, dark, system, StoredTheme, Media, Page, boot, boot_for, read_theme, apply_theme,
  stored_after, theme_text, same_theme, theme_at, set_at, reapplied, any_system, load, set_theme,
  follow, takes, Reach, loads, chooses, follows,
}

record IsShown (page : Page) : Type 0 where
  pub theme : Theme
  pub only : page.themes ≡ theme ∷ []
  pub shown : page.dark_class ≡ apply_theme theme page.media
  pub kept : page.saved ≡ true → read_theme page.stored ≡ theme

light_dark :
    (saved : Text) → text_eq saved (codes "light") ≡ true → text_eq saved (codes "dark") ≡ false
unfolding text_eq
light_dark saved e = ap (λ t. text_eq t (codes "dark")) (text_eq_sound saved (codes "light") e)

-- Before the hook starts, the script has chosen as the hook will.
boot_lem :
    (saved : Option Text) (media : Media) (before : Bool)
    → boot (answer saved) (some media) before ≡ apply_theme (read_theme (answer saved)) (some media)
unfolding boot boot_for read_theme apply_theme
boot_lem none media before = refl
boot_lem (some saved) media before = elim (Bool-cases (text_eq saved (codes "light"))) [
  | inl is_light ↦ rw (light_dark saved is_light, is_light) refl
  | inr other ↦ elim (Bool-cases (text_eq saved (codes "dark"))) [
    | inl is_dark ↦ rw (other, is_dark) refl
    | inr neither ↦ rw (other, neither) refl
  ]
]

booted :
    (stored : StoredTheme) (given : Option Media) (saved : Option Text) (media : Media)
    → stored ≡ answer saved
    → given ≡ some media
    → (before : Bool) → boot stored given before ≡ apply_theme (read_theme stored) given
booted stored given saved media e f before = rw (e, f) (boot_lem saved media before)

read_theme_text : (theme : Theme) → read_theme (answer (some (theme_text theme))) ≡ theme
unfolding read_theme text_eq
read_theme_text light = refl
read_theme_text dark = refl
read_theme_text system = refl

same_theme_sound : (a b : Theme) → same_theme a b ≡ true → a ≡ b
unfolding same_theme
same_theme_sound light light e = refl
same_theme_sound dark dark e = refl
same_theme_sound system system e = refl
same_theme_sound light dark e = absurd (cc)
same_theme_sound light system e = absurd (cc)
same_theme_sound dark light e = absurd (cc)
same_theme_sound dark system e = absurd (cc)
same_theme_sound system light e = absurd (cc)
same_theme_sound system dark e = absurd (cc)

reapplied_lem :
    (theme next : Theme) (media : Option Media) (before : Bool)
    → before ≡ apply_theme theme media
    → reapplied theme next media before ≡ apply_theme next media
reapplied_lem theme next media before e = elim (Bool-cases (same_theme theme next)) [
  | inl same ↦ rw same (e ∙ ap (λ t. apply_theme t media) (same_theme_sound theme next same))
  | inr other ↦ rw other refl
]

load-IsShown : (stored : StoredTheme) (media : Option Media) → IsShown (load 0 stored media)
unfolding load
load-IsShown stored media = record {
  theme = read_theme stored;
  only = refl;
  shown = refl;
  kept = λ e. refl;
}

-- A write that storage takes is read as the theme that was chosen.
kept_theme :
    (kept : Bool) (next : Theme) (stored : StoredTheme)
    → takes kept stored ≡ true
    → read_theme (stored_after kept next stored) ≡ next
unfolding stored_after
kept_theme true next (answer saved) e = read_theme_text next
kept_theme false next (answer saved) e = absurd (cc)
kept_theme kept next (thrown message) e = absurd (cc)

set_theme-IsShown :
    (i : ℕ) (theme next : Theme) (kept : Bool) {page : Page}
    → theme_at i page.themes ≡ some theme
    → IsShown page
    → IsShown (set_theme i theme next kept page)
unfolding set_theme theme_at set_at
set_theme-IsShown (suc i) theme next kept {page} e o =
    let f = sym (ap (λ t. theme_at (suc i) t) o.only) ∙ e in absurd (cc)
set_theme-IsShown zero theme next kept {page} e o =
    let first = sym (ap (λ t. theme_at zero t) o.only) ∙ e in
    let same : o.theme ≡ theme = cc in
    record {
      theme = next;
      only = ap (λ t. set_at zero next t) o.only;
      shown =
          reapplied_lem theme next page.media page.dark_class
            (o.shown ∙ ap (λ t. apply_theme t page.media) same);
      kept = kept_theme kept next page.stored;
    }

followed :
    (theme : Theme) (media changed : Media) (listens before : Bool)
    → listens ≡ true
    → before ≡ apply_theme theme (some media)
    → (if listens
        then (if any_system (theme ∷ []) then apply_theme system (some changed) else before)
        else before)
      ≡ apply_theme theme (some changed)
unfolding any_system same_theme apply_theme
followed light media changed listens before h e = rw h e
followed dark media changed listens before h e = rw h e
followed system media changed listens before h e = rw h refl

follow-IsShown :
    (scheme : Bool) (media : Media) {page : Page}
    → page.media ≡ some media
    → media.listens ≡ true
    → IsShown page
    → IsShown (follow scheme media page)
unfolding follow
follow-IsShown scheme media {page} given listens o = record {
  theme = o.theme;
  only = o.only;
  shown =
      let changed = record media { dark_scheme = scheme } in
      rw o.only (
        followed o.theme media changed media.listens page.dark_class listens
          (o.shown ∙ ap (λ m. apply_theme o.theme m) given));
  kept = o.kept;
}

Reach-IsShown : {page : Page} → Reach 0 page → IsShown page
Reach-IsShown (loads stored media) = load-IsShown stored media
Reach-IsShown (chooses i theme next kept e r) =
    set_theme-IsShown i theme next kept e (Reach-IsShown r)
Reach-IsShown (follows scheme media given listens r) =
    follow-IsShown scheme media given listens (Reach-IsShown r)

-- On a page with one component that uses the theme, after any choices and any changes of the
-- preference that the browser can listen to: if storage can be read, took the last choice, and the
-- browser has media, the document is as the stored theme and the preference say, and on a reload
-- the script that runs first shows the same, and the hook then reads the same theme.
pub theme_shown :
    {page : Page}
    → Reach 0 page
    → page.saved ≡ true
    → {saved : Option Text} → page.stored ≡ answer saved
    → {media : Media} → page.media ≡ some media
    → (before : Bool)
    → (page.dark_class ≡ apply_theme (read_theme page.stored) page.media)
      × (boot page.stored page.media before ≡ page.dark_class)
      × ((load 0 page.stored page.media).themes ≡ page.themes)
unfolding load
theme_shown {page} r took {saved} stored {media} given before =
    let o = Reach-IsShown r in
    let shown = o.shown ∙ ap (λ t. apply_theme t page.media) (sym (o.kept took)) in
    (
      shown,
      booted page.stored page.media saved media stored given before ∙ sym shown,
      ap (λ t. t ∷ []) (o.kept took) ∙ sym o.only,
    )
