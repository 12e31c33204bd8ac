-- ===== src/Browser/Address/Groups.antt =====
-- What `addressGroups` of frontend/src/lib/format.ts shows of an address.
use mathlib.Core.List.{append_assoc}
use afri_pay.Base.{
  ℕ, zero, suc, ◌+◌, ◌≤◌, ◌<◌, ◌≡◌, refl, ap, ◌∙◌, Bool, true, false, not, List, [], ◌∷◌, ◌++◌,
  arith, Text, length, all,
}
use afri_pay.Stellar.Amount.Decimal.{length-append}
use afri_pay.Browser.Address.{is_line_end, close_group, groups_from, address_groups, join}

-- Groups of four characters, the last of one to four.
abbrev pub AreFours : List Text → Type 0
AreFours [] = Unit
AreFours (g ∷ []) = (0 < length g) × (length g ≤ 4)
AreFours (g ∷ h ∷ groups) = (length g ≡ 4) × AreFours (h ∷ groups)

abbrev pub has_no_line_end : Text → Bool
has_no_line_end s = all (λ c. not (is_line_end c)) s

four-AreFours :
    (g : Text) (groups : List Text) → length g ≡ 4 → AreFours groups → AreFours (g ∷ groups)
four-AreFours g [] e h = (omega (arith, e), omega (arith, e))
four-AreFours g (k ∷ groups) e h = (e, h)

last-AreFours :
    (run : Text)
    → length run ≤ 4
    → (join (close_group run []) ≡ run ++ []) × AreFours (close_group run [])
last-AreFours [] h = (refl, tt)
last-AreFours (c ∷ run) h = (refl, (omega arith, h))

closed-AreFours :
    (run : Text) (groups : List Text) (s : Text)
    → length run ≡ 4
    → (join groups ≡ s) × AreFours groups
    → (join (close_group run groups) ≡ run ++ s) × AreFours (close_group run groups)
closed-AreFours [] groups s e h = absurd (omega arith)
closed-AreFours (c ∷ run) groups s e h =
    (ap (λ t. c ∷ run ++ t) h.0, four-AreFours (c ∷ run) groups e h.1)

groups_from_lem :
    (run : Text) (room : ℕ) (s : Text)
    → length run + room ≡ 4
    → has_no_line_end s ≡ true
    → (join (groups_from run room s) ≡ run ++ s) × AreFours (groups_from run room s)
unfolding groups_from
groups_from_lem run room [] e h = last-AreFours run (omega (arith, e))
groups_from_lem run zero (c ∷ s) e h =
    let ordinary : is_line_end c ≡ false = ground arith in
    rw ordinary (
      closed-AreFours run (groups_from (c ∷ []) 3 s) (c ∷ s) (omega (arith, e))
        (groups_from_lem (c ∷ []) 3 s refl (ground arith)))
groups_from_lem run (suc room) (c ∷ s) e h =
    let ordinary : is_line_end c ≡ false = ground arith in
    let longer =
      groups_from_lem (run ++ c ∷ []) room s (omega (arith, e, length-append run (c ∷ [])))
        (ground arith) in
    rw ordinary (longer.0 ∙ append_assoc run (c ∷ []) s, longer.1)

-- The groups of an address without line ends are the whole address in order, in fours but for the
-- last group.
pub address_groups_lem :
    (address : Text)
    → has_no_line_end address ≡ true
    → (join (address_groups address) ≡ address) × AreFours (address_groups address)
unfolding address_groups
address_groups_lem address h = groups_from_lem [] 4 address refl h
