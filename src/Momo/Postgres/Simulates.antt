-- ===== src/Momo/Postgres/Simulates.antt =====
-- The two branches of backend/src/momo/momo-transaction.store.ts beside each other.
use afri_pay.Base.{
  ◌≡◌, refl, sym, ap, ◌∙◌, inl, inr, subst, true, Option, none, arith, get, set, find_value,
  is_some, Bool-cases, Result-cases, Result, ok, err, conflict, if◌then◌else◌, unavailable,
}
use afri_pay.Base.MapValues.{
  map_given, map_values, get-map_values, set-map_values, find_value-map_values, is_some-map_given,
}
use afri_pay.Base.Actions.{Action, ◌>>=◌, pure}
use afri_pay.Momo.{MomoTransactionRecord}
use afri_pay.Momo.Memory.{Memory, save, collides}
use afri_pay.Momo.Postgres.{
  Rows, Postgres, query, row_of, insert_or_update, insert_row, insert_checked, is_storable, persist,
  save_row,
}

module _ (db : Postgres) where
  -- The rows that hold what a store in memory holds.
  abbrev pub rows_of : Memory → Rows
  rows_of m = map_values (row_of db) m

  query-up :
      {A : Type 0} (statement : Action Rows A) (t : Rows)
      → db.is_up ≡ true
      → query db statement t ≡ statement t
  query-up statement t up = rw up refl

  -- The same record, or both a conflict.
  abbrev pub SaveAgrees : Result MomoTransactionRecord → Result MomoTransactionRecord → Type 0
  SaveAgrees (ok r) (ok s) = s ≡ r
  SaveAgrees (err (conflict a)) (err (conflict b)) = Unit
  SaveAgrees r s = ⊥

  abbrev pub SaveSimulated :
      Result MomoTransactionRecord × Memory → Result MomoTransactionRecord × Rows → Type 0
  SaveSimulated out out' = SaveAgrees out.0 out'.0 × (out'.1 ≡ rows_of out.1)

  save_related :
      (out : Result MomoTransactionRecord × Memory) (out' : Result MomoTransactionRecord × Rows)
      (x y : Result MomoTransactionRecord) (m : Memory)
      → out ≡ (x, m)
      → out' ≡ (y, rows_of m)
      → SaveAgrees x y
      → SaveSimulated out out'
  save_related out out' x y m e e' h =
      subst (λ o. SaveSimulated o out') (sym e)
        (subst (λ o. SaveSimulated (x, m) o) (sym e') (h, refl))

  -- What is returned once the row is stored, or is not.
  abbrev after_save :
      MomoTransactionRecord → Result (Unit {0}) × Rows → Result MomoTransactionRecord × Rows
  after_save r (ok u, t) = (ok r, t)
  after_save r (err e, t) = (err e, t)

  run_pure :
      (r : MomoTransactionRecord) (step : Action Rows (Unit {0})) (t : Rows)
      → (step >>= λ _. pure r) t ≡ after_save r (step t)
  unfolding ◌>>=◌
  run_pure r step t = elim (Result-cases (step t).0) [
    | inl (u, e) ↦ ground (arith, e)
    | inr (x, e) ↦ ground (arith, e)
  ]

  saved : (r : MomoTransactionRecord) (t : Rows) → save_row db r t ≡ after_save r (persist db r t)
  unfolding save_row
  saved r t = run_pure r (persist db r) t

  persisted :
      (r : MomoTransactionRecord) (t : Rows) (o : Option MomoTransactionRecord)
      → db.is_up ≡ true
      → get r.reference_id t ≡ o
      → is_storable db r o ≡ true
      → persist db r t ≡ insert_row (row_of db r) o t
  unfolding persist
  persisted r t o up e taken =
      query-up (insert_or_update db r) t up
      ∙ ap (λ x. insert_checked db r x t) e
      ∙ ap
          (λ b.
            if b
            then insert_row (row_of db r) o t
            else (err (unavailable "MoMo storage unavailable"), t))
          taken

  -- On rows that hold what the MoMo store in memory holds, if the database answers, the columns of
  -- the table take the record, and the reference is not stored, `save` leaves rows that hold what
  -- the store in memory then holds, and both return the record or both end in a conflict.
  pub save_simulates :
      (m : Memory) (r : MomoTransactionRecord)
      → db.is_up ≡ true
      → db.takes r.reference_id r.amount r.currency ≡ true
      → get r.reference_id m ≡ none
      → SaveSimulated (save r m) (save_row db r (rows_of m))
  unfolding save
  save_simulates m r up taken fresh =
      let out = save r m in
      let t = rows_of m in
      let row = get-map_values (row_of db) r.reference_id m ∙ ap (map_given (row_of db)) fresh in
      let search = find_value-map_values (row_of db) (collides r) m (λ v. refl) in
      let hit = ap is_some search ∙ is_some-map_given (row_of db) (find_value (collides r) m) in
      let stored = saved r t ∙ ap (after_save r) (persisted r t none up row taken) in
      elim (Bool-cases (is_some (find_value (collides r) m))) [
        | inl clash ↦
            let refused : insert_row (row_of db r) none t
                ≡ (err (conflict "Provider reference already exists; retrieve its status"), t) =
              ground (arith, hit, clash) in
            save_related out (save_row db r t) (err (conflict "Provider reference already exists"))
              (err (conflict "Provider reference already exists; retrieve its status")) m
              (ground (arith, clash)) (stored ∙ ap (after_save r) refused) tt
        | inr clear ↦
            let added : insert_row (row_of db r) none t
                ≡ (ok tt, set r.reference_id (row_of db r) t) =
              ground (arith, hit, clear) in
            save_related out (save_row db r t) (ok r) (ok r) (set r.reference_id r m)
              (ground (arith, clear))
              (stored
                ∙ ap (after_save r) added
                ∙ ap (λ x. (ok r, x)) (set-map_values (row_of db) r.reference_id r m))
              refl
      ]
