-- ===== src/Momo/Service/Charges.antt =====
-- No payment is asked for twice: what the store holds bounds the requests to move money.
use mathlib.Core.Path.{ap₂}
use afri_pay.Base.{
  ℕ, ◌+◌, ◌≤◌, ◌≡◌, refl, sym, ap, ◌∙◌, Bool, true, false, ◌&&◌, List, [], ◌∷◌, none, arith, Text,
  text_eq, text_eq_iff, get, find_value, find_value-set_fresh, find_value-set_same, is_some,
  if◌then◌else◌, Bool-cases, inl, inr,
}
use afri_pay.Momo.{MomoTransactionType, MomoTransactionRecord, StatusPatch}
use afri_pay.Momo.Memory.{Memory, save, has_external_id, upsert_status, patched}
use afri_pay.Momo.Memory.Invariant.{
  IsValid, save_cases, save-IsValid, upsert_cases, upsert_status-IsValid,
}
use afri_pay.Momo.Wire.{Role, payer, payee, Post, World}

abbrev pub same_role : Role → Role → Bool
same_role payer payer = true
same_role payee payee = true
same_role payer payee = false
same_role payee payer = false

same_role_eq : (r s : Role) → same_role r s ≡ true → r ≡ s
same_role_eq payer payer h = refl
same_role_eq payee payee h = refl
same_role_eq payer payee h = absurd (cc)
same_role_eq payee payer h = absurd (cc)

abbrev pub role_type : Role → MomoTransactionType
role_type payer = MomoTransactionType.collection
role_type payee = MomoTransactionType.disbursement

abbrev pub asks : Role → Text → Post → Bool
asks role external_id post =
    same_role post.body.role role && text_eq post.body.external_id external_id

-- The requests to move money in one direction under one external id.
unfoldable pub count : Role → Text → List Post → ℕ
count role external_id [] = 0
count role external_id (post ∷ posts) =
    (if asks role external_id post then 1 else 0) + count role external_id posts

abbrev pub held : Role → Text → Memory → ℕ
held role external_id m =
    if is_some (find_value (has_external_id external_id (role_type role)) m) then 1 else 0

-- The store is valid, and holds a record for what was asked of the provider, once at most.
pub record IsCharged (m : Memory) (posts : List Post) : Type 0 where
  pub valid : IsValid m
  pub charged :
      (role : Role) (external_id : Text) → count role external_id posts ≤ held role external_id m

abbrev pub IsSound : World Memory → Type 0
IsSound w = IsCharged w.store w.posts

upsert-held :
    (role : Role) (external_id now id : Text) (patch : StatusPatch) (m : Memory)
    → held role external_id (upsert_status now id patch m).1 ≡ held role external_id m
upsert-held role external_id now id patch m = elim (upsert_cases now id patch m) [
  | inl kept ↦ ap (held role external_id) kept
  | inr (r, found, allowed, written) ↦
      ap (held role external_id) written
      ∙ ap (λ b. if b then 1 else 0)
          (find_value-set_same (has_external_id external_id (role_type role)) id
            (patched now patch r) r m found refl)
]

save-held :
    (role : Role) (external_id : Text) (r : MomoTransactionRecord) (m : Memory)
    → get r.reference_id m ≡ none
    → held role external_id m ≤ held role external_id (save r m).1
save-held role external_id r m fresh = elim (save_cases r m) [
  | inl kept ↦ rw kept (omega arith)
  | inr (unused, written, _) ↦
      rw written
        (elim (Bool-cases (is_some (find_value (has_external_id external_id (role_type role)) m))) [
          | inl here ↦
              rw
                (
                  here,
                  find_value-set_fresh (has_external_id external_id (role_type role)) r.reference_id
                      r m fresh here,
                )
                (omega arith)
          | inr absent ↦ rw absent (omega arith)
        ])
]

-- A save under a fresh reference keeps the bound.
pub save-IsCharged :
    (r : MomoTransactionRecord) (m : Memory) (posts : List Post)
    → IsCharged m posts
    → get r.reference_id m ≡ none
    → IsCharged (save r m).1 posts
save-IsCharged r m posts s fresh = record {
  valid = save-IsValid r m s.valid;
  charged = λ role x. omega (arith, s.charged role x, save-held role x r m fresh);
}

pub upsert-IsCharged :
    (now id : Text) (patch : StatusPatch) (m : Memory) (posts : List Post)
    → IsCharged m posts
    → IsCharged (upsert_status now id patch m).1 posts
upsert-IsCharged now id patch m posts s = record {
  valid = upsert_status-IsValid now id patch m s.valid;
  charged = λ role x. omega (arith, s.charged role x, upsert-held role x now id patch m);
}

-- One request for what was saved and not asked for yet keeps the bound.
pub send-IsCharged :
    (m : Memory) (posts : List Post) (post : Post)
    → IsCharged m posts
    → count post.body.role post.body.external_id posts ≡ 0
    → held post.body.role post.body.external_id m ≡ 1
    → IsCharged m (post ∷ posts)
unfolding count
send-IsCharged m posts post s unasked saved = record {
  valid = s.valid;
  charged = λ role x. elim (Bool-cases (asks role x post)) [
    | inr other ↦ rw other (omega (arith, s.charged role x))
    | inl this ↦
        let same_x : post.body.external_id ≡ x =
          ground (arith, text_eq_iff post.body.external_id x) in
        let same_r : post.body.role ≡ role = same_role_eq post.body.role role (ground arith) in
        let none_yet : count role x posts ≡ 0 =
          ap₂ (λ r t. count r t posts) (sym same_r) (sym same_x) ∙ unasked in
        let one : held role x m ≡ 1 = ap₂ (λ r t. held r t m) (sym same_r) (sym same_x) ∙ saved in
        rw this (omega arith)
  ];
}
