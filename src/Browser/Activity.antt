-- ===== src/Browser/Activity.antt =====
-- The list of payments: frontend/src/components/wallet/ActivityList.tsx.
pub mod Days
use Prim.Native.String.{String}
use afri_pay.Base.{
  ℕ, zero, suc, ◌≡◌, refl, ap, ◌∙◌, Bool, true, false, not, ◌&&◌, List, [], ◌∷◌, ◌++◌, Option, none,
  some, arith, Text, codes, text_eq, is_empty, All, if◌then◌else◌,
}
use afri_pay.Stellar.Validation.{is_given}
use afri_pay.Stellar.Accounts.{is_text}

pub record HistoryItem : Type 0 where
  pub id : Text
  pub item_type : Text
  pub amount : Option Text
  pub asset : Text
  pub transaction_hash : Text
  pub created_at : Text
  pub from : Option Text
  pub to : Option Text

pub data Direction : Type 0 where
  sent : Direction
  received : Direction
  other : Direction

-- What `describe` says of an item; the icons are left out.
pub record Description : Type 0 where
  pub direction : Direction
  pub title : String
  pub counterparty : Option Text

abbrev pub plainly : String → Description
plainly title = record { direction = other; title = title; counterparty = none }

-- `a && a === address`
abbrev pub is_own : Option Text → Option Text → Bool
is_own none address = false
is_own (some a) address = not (is_empty a) && is_text a address

unfoldable pub describe : HistoryItem → Option Text → Description
describe item address =
    if text_eq item.item_type (codes "create_account")
    then plainly "Account created"
    else if text_eq item.item_type (codes "account_merge")
    then plainly "Account merged"
    else if is_own item.from address
    then record { direction = sent; title = "Sent"; counterparty = item.to }
    else if is_own item.to address
    then record { direction = received; title = "Received"; counterparty = item.from }
    else plainly "Payment"

pub record DayGroup : Type 0 where
  pub day : Text
  pub items : List HistoryItem

abbrev pub alone : Text → HistoryItem → DayGroup
alone day item = record { day = day; items = item ∷ [] }

-- `if (last?.day === day) last.items.push(item); else groups.push({ day, items: [item] })`
unfoldable pub place : Text → HistoryItem → List DayGroup → List DayGroup
place day item [] = alone day item ∷ []
place day item (g ∷ []) =
    if text_eq g.day day
    then record g { items = g.items ++ item ∷ [] } ∷ []
    else g ∷ alone day item ∷ []
place day item (g ∷ h ∷ groups) = g ∷ place day item (h ∷ groups)

-- The loop over the items, with `formatDay(new Date(item.createdAt))` as `day_of`.
unfoldable pub group_days : (Text → Text) → List HistoryItem → List DayGroup → List DayGroup
unfolding place
group_days day_of [] groups = groups
group_days day_of (item ∷ items) groups =
    group_days day_of items (place (day_of item.created_at) item groups)

abbrev pub take {ℓ} : {A : Type ℓ} → ℕ → List A → List A
take zero xs = []
take (suc n) [] = []
take (suc n) (x ∷ xs) = x ∷ take n xs

-- `limit ? items.slice(0, limit) : items`
abbrev pub visible : Option ℕ → List HistoryItem → List HistoryItem
visible none items = items
visible (some zero) items = items
visible (some (suc n)) items = take (suc n) items

-- The groups that the list shows; nothing while the history is loading.
unfoldable pub shown_groups :
    (Text → Text) → Option ℕ → Option (List HistoryItem) → Option (List DayGroup)
unfolding group_days
shown_groups day_of limit none = none
shown_groups day_of limit (some items) = some (group_days day_of (visible limit items) [])
