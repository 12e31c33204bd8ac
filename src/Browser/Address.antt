-- ===== src/Browser/Address.antt =====
-- `shortAddress`, `addressGroups` and `formatDay` of frontend/src/lib/format.ts.
pub mod Groups
use Prim.Native.String.{String}
use afri_pay.Base.{
  ℕ, zero, suc, ◌+◌, ◌-◌, ◌*◌, ◌/◌, ◌≤◌, ◌<◌, ◌≡◌, refl, ap, Bool, true, false, not, ◌||◌, ◌&&◌,
  List, [], ◌∷◌, ◌++◌, Option, none, some, arith, Text, codes, ltb, leb, ◌==◌, length, all, All,
  if◌then◌else◌, Bool-cases, inl, inr,
}
use afri_pay.Browser.Print.{front, back}

unfoldable pub short_address : Text → Text
unfolding front back
short_address address =
    if ltb 12 (length address)
    then front 5 address ++ 0x2026 ∷ back (length address - 5) address
    else address

-- The characters that `.` does not match.
abbrev pub is_line_end : ℕ → Bool
is_line_end c = c == 0x0a || c == 0x0d || c == 0x2028 || c == 0x2029

abbrev pub close_group : Text → List Text → List Text
close_group [] groups = groups
close_group (c ∷ run) groups = (c ∷ run) ∷ groups

-- The matches of `/.{1,4}/g` after a run that may take `room` more characters.
unfoldable pub groups_from : Text → ℕ → Text → List Text
groups_from run room [] = close_group run []
groups_from run zero (c ∷ s) =
    let rest = groups_from (c ∷ []) 3 s in
    let skipped = groups_from [] 4 s in
    if is_line_end c then close_group run skipped else close_group run rest
groups_from run (suc room) (c ∷ s) =
    let longer = groups_from (run ++ c ∷ []) room s in
    let skipped = groups_from [] 4 s in if is_line_end c then close_group run skipped else longer

unfoldable pub address_groups : Text → List Text
unfolding groups_from
address_groups address = groups_from [] 4 address

abbrev pub join : List Text → Text
join [] = []
join (g ∷ groups) = g ++ join groups

abbrev pub without_line_ends : Text → Text
without_line_ends [] = []
without_line_ends (c ∷ s) = if is_line_end c then without_line_ends s else c ∷ without_line_ends s
