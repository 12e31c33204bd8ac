-- ===== src/Browser/Theme.antt =====
-- The theme of the pages: frontend/src/lib/theme.ts. Several components of a page may use the hook,
-- each with a theme of its own; storage that refuses to be read is an answer that was thrown, and a
-- browser without `matchMedia` has no media.
pub mod Runs
use Prim.Native.String.{String}
use afri_pay.Base.{
  ℕ, zero, suc, ◌≡◌, Bool, true, false, List, [], ◌∷◌, Option, none, some, Text, codes, text_eq,
  if◌then◌else◌,
}
use afri_pay.Browser.Send.{Answer, answer, thrown}

pub data Theme : Type 0 where
  light : Theme
  dark : Theme
  system : Theme

abbrev pub StoredTheme : Type 0
StoredTheme = Answer (Option Text)

-- The preference of the system, and whether a change of it can be listened to.
pub record Media : Type 0 where
  pub dark_scheme : Bool
  pub listens : Bool

-- `themeBootScript`: an error leaves the document as it is.
unfoldable pub boot_for : Text → Option Media → Bool → Bool
boot_for saved none before =
    if text_eq saved (codes "dark")
    then true
    else if text_eq saved (codes "light")
    then false
    else before
boot_for saved (some media) before =
    if text_eq saved (codes "dark")
    then true
    else if text_eq saved (codes "light")
    then false
    else media.dark_scheme

unfoldable pub boot : StoredTheme → Option Media → Bool → Bool
unfolding boot_for
boot (thrown message) media before = before
boot (answer none) none before = before
boot (answer none) (some media) before = media.dark_scheme
boot (answer (some saved)) media before = boot_for saved media before

unfoldable pub read_theme : StoredTheme → Theme
read_theme (thrown message) = system
read_theme (answer none) = system
read_theme (answer (some saved)) =
    if text_eq saved (codes "light")
    then light
    else if text_eq saved (codes "dark")
    then dark
    else system

abbrev pub prefers_dark : Option Media → Bool
prefers_dark none = false
prefers_dark (some media) = media.dark_scheme

-- `applyTheme`: whether the document has the class `dark`.
unfoldable pub apply_theme : Theme → Option Media → Bool
apply_theme light media = false
apply_theme dark media = true
apply_theme system media = prefers_dark media

abbrev pub theme_text : Theme → Text
theme_text light = codes "light"
theme_text dark = codes "dark"
theme_text system = codes "system"

-- What a write leaves in storage.
unfoldable pub stored_after : Bool → Theme → StoredTheme → StoredTheme
stored_after kept next (thrown message) = thrown message
stored_after true next (answer saved) = answer (some (theme_text next))
stored_after false next (answer saved) = answer saved

unfoldable pub same_theme : Theme → Theme → Bool
same_theme light light = true
same_theme light dark = false
same_theme light system = false
same_theme dark light = false
same_theme dark dark = true
same_theme dark system = false
same_theme system light = false
same_theme system dark = false
same_theme system system = true

-- A page: the themes of the components that use the hook, the class of the document, and whether
-- storage has taken the last theme that was chosen.
pub record Page : Type 0 where
  pub themes : List Theme
  pub dark_class : Bool
  pub stored : StoredTheme
  pub media : Option Media
  pub saved : Bool

abbrev copies : ℕ → Theme → List Theme
copies zero theme = []
copies (suc n) theme = theme ∷ copies n theme

-- The boot script, then the effects of one component that uses the hook, and of others.
unfoldable pub load : ℕ → StoredTheme → Option Media → Page
unfolding read_theme apply_theme
load others stored media = record {
  themes = read_theme stored ∷ copies others (read_theme stored);
  dark_class = apply_theme (read_theme stored) media;
  stored = stored;
  media = media;
  saved = true;
}

abbrev pub takes : Bool → StoredTheme → Bool
takes kept (thrown message) = false
takes kept (answer saved) = kept

unfoldable pub theme_at : ℕ → List Theme → Option Theme
theme_at i [] = none
theme_at zero (theme ∷ themes) = some theme
theme_at (suc i) (theme ∷ themes) = theme_at i themes

unfoldable pub set_at : ℕ → Theme → List Theme → List Theme
set_at i next [] = []
set_at zero next (theme ∷ themes) = next ∷ themes
set_at (suc i) next (theme ∷ themes) = theme ∷ set_at i next themes

-- Its effect runs again only where the theme differs.
abbrev pub reapplied : Theme → Theme → Option Media → Bool → Bool
reapplied theme next media before = if same_theme theme next then before else apply_theme next media

-- `setTheme` of the component at a position, whose theme is given.
unfoldable pub set_theme : ℕ → Theme → Theme → Bool → Page → Page
unfolding apply_theme stored_after same_theme set_at
set_theme i theme next kept page = record page {
  themes = set_at i next page.themes;
  dark_class = reapplied theme next page.media page.dark_class;
  stored = stored_after kept next page.stored;
  saved = takes kept page.stored;
}

unfoldable pub any_system : List Theme → Bool
unfolding same_theme
any_system [] = false
any_system (theme ∷ themes) =
    let rest = any_system themes in if same_theme theme system then true else rest

-- The system changes its preference: every component whose theme is `system` listens.
unfoldable pub follow : Bool → Media → Page → Page
unfolding any_system apply_theme
follow scheme media page =
    let changed = record media { dark_scheme = scheme } in
    record page {
      media = some changed;
      dark_class =
          if media.listens
          then (if any_system page.themes
              then apply_theme system (some changed)
              else page.dark_class)
          else page.dark_class;
    }

-- The pages that choices and changes of the preference lead to, in a browser that can listen.
pub data Reach (others : ℕ) : Page → Type 0 where
  loads : (stored : StoredTheme) (media : Option Media) → Reach others (load others stored media)
  chooses :
      (i : ℕ) (theme next : Theme) (kept : Bool) {page : Page}
      → theme_at i page.themes ≡ some theme
      → Reach others page
      → Reach others (set_theme i theme next kept page)
  follows :
      (scheme : Bool) (media : Media) {page : Page}
      → page.media ≡ some media
      → media.listens ≡ true
      → Reach others page
      → Reach others (follow scheme media page)
