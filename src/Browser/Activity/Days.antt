-- ===== src/Browser/Activity/Days.antt =====
-- What the groups of frontend/src/components/wallet/ActivityList.tsx hold.
use mathlib.Core.List.{append_assoc, append-nil}
use afri_pay.Base.{
  ◌≡◌, ◌≢◌, refl, sym, ap, ◌∙◌, List, [], ◌∷◌, ◌++◌, arith, Text, text_eq, text_eq_iff, All,
  Bool-cases, inl, inr,
}
use afri_pay.Browser.Activity.{HistoryItem, DayGroup, alone, place, group_days}

abbrev pub flatten : List DayGroup → List HistoryItem
flatten [] = []
flatten (g ∷ groups) = g.items ++ flatten groups

-- Every group has a day that is not the next one's.
abbrev pub AreApart : List DayGroup → Type 0
AreApart [] = Unit
AreApart (g ∷ []) = Unit
AreApart (g ∷ h ∷ groups) = (g.day ≢ h.day) × AreApart (h ∷ groups)

module _ (day_of : Text → Text) where
  -- A group has items, all of its day.
  pub record IsOfDay (g : DayGroup) : Type 0 where
    pub first : HistoryItem
    pub rest : List HistoryItem
    pub items : g.items ≡ first ∷ rest
    pub same : All (λ i. day_of i.created_at ≡ g.day) g.items

  pub record AreGrouped (items : List HistoryItem) (groups : List DayGroup) : Type 0 where
    pub flat : flatten groups ≡ items
    pub of_day : All IsOfDay groups
    pub apart : AreApart groups

  alone-IsOfDay : (item : HistoryItem) → IsOfDay (alone (day_of item.created_at) item)
  alone-IsOfDay item = record { first = item; rest = []; items = refl; same = (refl, tt) }

  All-snoc :
      (day : Text) (items : List HistoryItem) (item : HistoryItem)
      → All (λ i. day_of i.created_at ≡ day) items
      → day_of item.created_at ≡ day
      → All (λ i. day_of i.created_at ≡ day) (items ++ item ∷ [])
  All-snoc day [] item h e = (e, tt)
  All-snoc day (i ∷ items) item h e = (h.0, All-snoc day items item h.1 e)

  joined-IsOfDay :
      (g : DayGroup) (item : HistoryItem)
      → IsOfDay g
      → day_of item.created_at ≡ g.day
      → IsOfDay (record g { items = g.items ++ item ∷ [] })
  joined-IsOfDay g item o e = record {
    first = o.first;
    rest = o.rest ++ item ∷ [];
    items = ap (λ xs. xs ++ item ∷ []) o.items;
    same = All-snoc g.day g.items item o.same e;
  }

  -- The days of the groups before the last one stay, and the first group keeps its day.
  place-AreApart :
      (item : HistoryItem) (groups : List DayGroup)
      → AreApart groups
      → AreApart (place (day_of item.created_at) item groups)
  unfolding place
  place-AreApart item [] h = tt
  place-AreApart item (g ∷ []) h = elim (Bool-cases (text_eq g.day (day_of item.created_at))) [
    | inl same ↦ rw same tt
    | inr other ↦
        rw other (λ e. absurd (ground (arith, text_eq_iff g.day (day_of item.created_at))), tt)
  ]
  place-AreApart item (g ∷ h ∷ []) a = elim (Bool-cases (text_eq h.day (day_of item.created_at))) [
    | inl same ↦ rw same (a.0, tt)
    | inr other ↦
        rw other
          (a.0, (λ e. absurd (ground (arith, text_eq_iff h.day (day_of item.created_at))), tt))
  ]
  place-AreApart item (g ∷ h ∷ k ∷ groups) a = (a.0, place-AreApart item (h ∷ k ∷ groups) a.1)

  place-IsOfDay :
      (item : HistoryItem) (groups : List DayGroup)
      → All IsOfDay groups
      → All IsOfDay (place (day_of item.created_at) item groups)
  unfolding place
  place-IsOfDay item [] h = (alone-IsOfDay item, tt)
  place-IsOfDay item (g ∷ []) h = elim (Bool-cases (text_eq g.day (day_of item.created_at))) [
    | inl same ↦
        let e : g.day ≡ day_of item.created_at = (text_eq_iff _ _).0 same in
        rw same (joined-IsOfDay g item h.0 (sym e), tt)
    | inr other ↦ rw other (h.0, (alone-IsOfDay item, tt))
  ]
  place-IsOfDay item (g ∷ k ∷ groups) h = (h.0, place-IsOfDay item (k ∷ groups) h.1)

  flatten-place :
      (item : HistoryItem) (groups : List DayGroup)
      → flatten (place (day_of item.created_at) item groups) ≡ flatten groups ++ item ∷ []
  unfolding place
  flatten-place item [] = refl
  flatten-place item (g ∷ []) = elim (Bool-cases (text_eq g.day (day_of item.created_at))) [
    | inl same ↦ rw same (simp (append-nil))
    | inr other ↦ rw other (simp (append-nil))
  ]
  flatten-place item (g ∷ k ∷ groups) =
      rw (flatten-place item (k ∷ groups)) (sym (append_assoc g.items _ _))

  group_days-from :
      (items done : List HistoryItem) (groups : List DayGroup)
      → AreGrouped done groups
      → AreGrouped (done ++ items) (group_days day_of items groups)
  unfolding group_days
  group_days-from [] done groups a = rw append-nil a
  group_days-from (item ∷ items) done groups a = rw (← append_assoc done (item ∷ []) items) (
      group_days-from items (done ++ item ∷ []) (place (day_of item.created_at) item groups)
        (record {
          flat = flatten-place item groups ∙ ap (λ xs. xs ++ item ∷ []) a.flat;
          of_day = place-IsOfDay item groups a.of_day;
          apart = place-AreApart item groups a.apart;
        }))

  -- The groups of the list of payments hold the payments in their order, none left out or doubled;
  -- every group has at least one, all of the group's day, and the next group is of another day.
  pub group_days_lem : (items : List HistoryItem) → AreGrouped items (group_days day_of items [])
  group_days_lem items =
      group_days-from items [] [] (record { flat = refl; of_day = tt; apart = tt })
