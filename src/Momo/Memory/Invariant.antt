-- ===== src/Momo/Memory/Invariant.antt =====
-- What the in-memory store of transactions keeps, and how its records may change.
use afri_pay.Base.{
  ◌≡◌, refl, ◌≢◌, ◌∙◌, sym, subst, ◌⊎◌, inl, inr, true, false, none, some, arith, Text, text_eq,
  text_eq_iff, get, set, get-set, set-Distinct, Distinct, find_value, find_value-none, Option-cases,
  Bool-cases, ok,
}
use afri_pay.Momo.{MomoTransactionType, pending, MomoTransactionRecord, StatusPatch, same_type}
use afri_pay.Momo.Memory.{Memory, collides, save, upsert_status, patched, is_refused}

-- Every record stands under its own reference, and no two have the same type and external id.
pub record IsValid (m : Memory) : Type 0 where
  pub distinct : Distinct m
  pub keyed : (k : Text) (r : MomoTransactionRecord) → get k m ≡ some r → r.reference_id ≡ k
  pub unique :
      (j k : Text) (x y : MomoTransactionRecord)
      → get j m ≡ some x
      → get k m ≡ some y
      → x.tx_type ≡ y.tx_type
      → x.external_id ≡ y.external_id
      → j ≡ k

set-IsValid :
    (m : Memory) (id : Text) (new : MomoTransactionRecord)
    → IsValid m
    → new.reference_id ≡ id
    → ((k : Text) (y : MomoTransactionRecord)
        → get k m ≡ some y
        → k ≢ id
        → y.tx_type ≡ new.tx_type
        → y.external_id ≢ new.external_id)
    → IsValid (set id new m)
set-IsValid m id new v same fresh = record {
  distinct = set-Distinct id new m v.distinct;
  keyed = λ k r g. ground (arith, get-set id k new m, text_eq_iff id k, v.keyed k r);
  unique = λ j k x y gx gy et ex. ground (
    arith,
    get-set id j new m,
    get-set id k new m,
    text_eq_iff id j,
    text_eq_iff id k,
    v.unique j k x y,
    fresh j x,
    fresh k y,
  );
}

pub same_type_refl : (t : MomoTransactionType) → same_type t t ≡ true
same_type_refl MomoTransactionType.collection = refl
same_type_refl MomoTransactionType.disbursement = refl

-- A save leaves the records alone, or writes one that collides with no other.
pub save_cases :
    (r : MomoTransactionRecord) (m : Memory)
    → ((save r m).1 ≡ m)
      ⊎ ((find_value (collides r) m ≡ none)
          × ((save r m).1 ≡ set r.reference_id r m)
          × ((save r m).0 ≡ ok r))
unfolding save
save_cases r m = elim (Option-cases (find_value (collides r) m)) [
  | inl unused ↦ inr (unused, rw (unused, save), rw (unused, save))
  | inr (other, used) ↦ inl (rw (used, save))
]

-- On both branches of `save`, the store stays valid: keys and references agree, and no two records
-- have the same type and external id.
pub save-IsValid : (r : MomoTransactionRecord) (m : Memory) → IsValid m → IsValid (save r m).1
save-IsValid r m v = elim (save_cases r m) [
  | inl kept ↦ rw kept v
  | inr (unused, written, _) ↦ rw written (
      set-IsValid m r.reference_id r v refl (λ k y held other et ex.
        let missed = find_value-none (collides r) m k unused held in
        ground (
          arith,
          v.keyed k y held,
          text_eq_iff y.reference_id r.reference_id,
          text_eq_iff y.external_id r.external_id,
          same_type_refl y.tx_type,
        )))
]

-- A status update leaves the records alone, or patches one that is PENDING or keeps its status.
pub upsert_cases :
    (now id : Text) (patch : StatusPatch) (m : Memory)
    → ((upsert_status now id patch m).1 ≡ m)
      ⊎ ((r : MomoTransactionRecord) × (get id m ≡ some r)
          × (is_refused r patch ≡ false)
          × ((upsert_status now id patch m).1 ≡ set id (patched now patch r) m))
unfolding upsert_status
upsert_cases now id patch m = elim (Option-cases (get id m)) [
  | inl missing ↦ inl (rw (missing, upsert_status))
  | inr (r, found) ↦ elim (Bool-cases (is_refused r patch)) [
    | inl refused ↦ inl (rw (found, upsert_status) (rw refused))
    | inr allowed ↦ inr (r, found, allowed, rw (found, upsert_status) (rw allowed))
  ]
]

-- On every branch of `upsertStatus`, the store stays valid: keys and references agree, and no two
-- records have the same type and external id.
pub upsert_status-IsValid :
    (now id : Text) (patch : StatusPatch) (m : Memory)
    → IsValid m
    → IsValid (upsert_status now id patch m).1
upsert_status-IsValid now id patch m v = elim (upsert_cases now id patch m) [
  | inl kept ↦ rw kept v
  | inr (r, found, allowed, written) ↦ rw written (
      set-IsValid m id (patched now patch r) v (v.keyed id r found)
        (λ k y held other et ex. other (v.unique k id y r held found et ex)))
]

-- `b` is a later version of the record `a`.
pub record Extends (a b : MomoTransactionRecord) : Type 0 where
  pub reference_id : b.reference_id ≡ a.reference_id
  pub tx_type : b.tx_type ≡ a.tx_type
  pub amount : b.amount ≡ a.amount
  pub currency : b.currency ≡ a.currency
  pub external_id : b.external_id ≡ a.external_id
  pub party_id : b.party_id ≡ a.party_id
  pub created_at : b.created_at ≡ a.created_at
  pub final : a.status ≢ pending → b.status ≡ a.status

pub Extends-refl : (a : MomoTransactionRecord) → Extends a a
Extends-refl a = record {
  reference_id = refl;
  tx_type = refl;
  amount = refl;
  currency = refl;
  external_id = refl;
  party_id = refl;
  created_at = refl;
  final = λ _. refl;
}

pub Extends-trans : {a b c : MomoTransactionRecord} → Extends a b → Extends b c → Extends a c
Extends-trans p q = record {
  reference_id = q.reference_id ∙ p.reference_id;
  tx_type = q.tx_type ∙ p.tx_type;
  amount = q.amount ∙ p.amount;
  currency = q.currency ∙ p.currency;
  external_id = q.external_id ∙ p.external_id;
  party_id = q.party_id ∙ p.party_id;
  created_at = q.created_at ∙ p.created_at;
  final = λ left. ground (arith, p.final left, q.final);
}

-- Every record of the first map is in the second one, in this or a later version.
abbrev pub Grows : Memory → Memory → Type 0
Grows m n =
    (k : Text) (r : MomoTransactionRecord)
    → get k m ≡ some r
    → (s : MomoTransactionRecord) × (get k n ≡ some s) × Extends r s

pub Grows-refl : (m : Memory) → Grows m m
Grows-refl m k r g = (r, g, Extends-refl r)

pub Grows-trans : (l m n : Memory) → Grows l m → Grows m n → Grows l n
Grows-trans l m n p q k r g =
    let (s, g', e) = p k r g in let (t, g'', e') = q k s g' in (t, g'', Extends-trans e e')

set-Grows :
    (m : Memory) (id : Text) (new : MomoTransactionRecord)
    → ((old : MomoTransactionRecord) → get id m ≡ some old → Extends old new)
    → Grows m (set id new m)
set-Grows m id new later k r g = elim (Bool-cases (text_eq id k)) [
  | inl same ↦
      let e : id ≡ k = (text_eq_iff id k).0 same in
      (new, get-set id k new m ∙ (rw same), later r (subst (λ t. get t m ≡ some r) (sym e) g))
  | inr other ↦ (r, get-set id k new m ∙ (rw other g), Extends-refl r)
]

-- Saving a record under a fresh reference changes no other one.
pub save-Grows :
    (r : MomoTransactionRecord) (m : Memory) → get r.reference_id m ≡ none → Grows m (save r m).1
save-Grows r m fresh = elim (save_cases r m) [
  | inl kept ↦ rw kept (Grows-refl m)
  | inr (unused, written, _) ↦
      rw written (set-Grows m r.reference_id r (λ old g. absurd (ground arith)))
]

patched-Extends :
    (now : Text) (patch : StatusPatch) (r : MomoTransactionRecord)
    → is_refused r patch ≡ false
    → Extends r (patched now patch r)
patched-Extends now patch r allowed = record {
  reference_id = refl;
  tx_type = refl;
  amount = refl;
  currency = refl;
  external_id = refl;
  party_id = refl;
  created_at = refl;
  final = λ left. ground arith;
}

-- On every branch of `upsertStatus`, no record goes away or changes its reference, type, amount,
-- currency, external id, party or time of creation, and a status other than PENDING stays.
pub upsert_status-Grows :
    (now id : Text) (patch : StatusPatch) (m : Memory) → Grows m (upsert_status now id patch m).1
upsert_status-Grows now id patch m = elim (upsert_cases now id patch m) [
  | inl kept ↦ rw kept (Grows-refl m)
  | inr (r, found, allowed, written) ↦ rw written (
      set-Grows m id (patched now patch r) (λ old g.
        subst (λ o. Extends o (patched now patch r)) (ground arith)
          (patched-Extends now patch r allowed)))
]
