-- ===== src/Ussd/Sessions.antt =====
-- What a call leaves of the sessions, and what it answers.
use afri_pay.Base.{
  ℕ, ◌+◌, ◌≤◌, ◌<◌, ◌≡◌, false, [], ◌∷◌, Option, none, some, arith, Text, codes, text_eq, Map, get,
  set, delete, length, leb, Bool-cases, Option-cases, inl, inr,
}
use afri_pay.Ussd.{
  UssdRequestBody, UssdSession, Readings, most_sessions, has_lapsed, sweep, input_of, is_too_long,
  session_key, continue_session, handle_ussd,
}

sweep-length : (now : Text → ℕ) (m : Map UssdSession) → length (sweep now m) ≤ length m
unfolding sweep
sweep-length now [] = omega arith
sweep-length now ((j, s) ∷ m) = elim (Bool-cases (has_lapsed (now j) s)) [
  | inl over ↦ rw over (omega (arith, sweep-length now m))
  | inr live ↦ rw live (omega (arith, sweep-length now m))
]

-- A session that the sweep has removed leaves a place.
sweep-removed :
    (now : Text → ℕ) (id : Text) (m : Map UssdSession) {s : UssdSession}
    → get id m ≡ some s
    → get id (sweep now m) ≡ none
    → length (sweep now m) < length m
unfolding sweep get
sweep-removed now id [] h g = absurd (ground arith)
sweep-removed now id ((j, d) ∷ m) {s} h g = elim (Bool-cases (has_lapsed (now j) d)) [
  | inl over ↦ rw over (omega (arith, sweep-length now m))
  | inr live ↦ rw live (ground (arith, sweep-removed now id m {s = s}))
]

set-length :
    (id : Text) (s : UssdSession) (m : Map UssdSession) → length (set id s m) ≤ length m + 1
unfolding set
set-length id s [] = omega arith
set-length id s ((j, d) ∷ m) = elim (Bool-cases (text_eq j id)) [
  | inl same ↦ rw same (omega arith)
  | inr other ↦ rw other (omega (arith, set-length id s m))
]

set-length_held :
    (id : Text) (s d : UssdSession) (m : Map UssdSession)
    → get id m ≡ some d
    → length (set id s m) ≤ length m
unfolding set get
set-length_held id s d [] h = absurd (ground arith)
set-length_held id s d ((j, e) ∷ m) h = elim (Bool-cases (text_eq j id)) [
  | inl same ↦ rw same (omega arith)
  | inr other ↦ rw other (ground (arith, set-length_held id s d m))
]

delete-length : (id : Text) (m : Map UssdSession) → length (delete id m) ≤ length m
unfolding delete
delete-length id [] = omega arith
delete-length id ((j, d) ∷ m) = elim (Bool-cases (text_eq j id)) [
  | inl same ↦ rw same (omega (arith, delete-length id m))
  | inr other ↦ rw other (omega (arith, delete-length id m))
]

-- A session that was held is written where it was, or where the sweep has made room.
write-length :
    (now : Text → ℕ) (id : Text) (new : UssdSession) (m : Map UssdSession) {s : UssdSession}
    → get id m ≡ some s
    → length (set id new (sweep now m)) ≤ length m
write-length now id new m {s} held = elim (Option-cases (get id (sweep now m))) [
  | inl gone ↦
      omega (arith, set-length id new (sweep now m), sweep-removed now id m {s = s} held gone)
  | inr (d, kept) ↦ omega (arith, set-length_held id new d (sweep now m) kept, sweep-length now m)
]

continue_session-bound :
    (clock : Readings) (id : Text) (body : UssdRequestBody) (m : Map UssdSession)
    → length m ≤ 10000
    → length (continue_session clock id body m).1 ≤ 10000
unfolding continue_session
continue_session-bound clock id body m small =
    let live = sweep clock.at_sweep m in
    let kept = sweep-length clock.at_sweep m in
    let new : UssdSession = record {
      session_id = id;
      phone_number = body.phone_number;
      updated_at = clock.at_write;
      completed = leb 4 (length (input_of body.text));
    } in
    elim (Option-cases (get id m)) [
      | inl e ↦ rw e (elim (Bool-cases (leb most_sessions (length live))) [
        | inl full ↦ rw full (omega (arith, kept))
        | inr room ↦ rw room (ground (arith, set-length id new live))
      ])
      | inr (s, e) ↦
          let written = write-length clock.at_sweep id new m {s = s} e in
          rw e (elim (Bool-cases (leb most_sessions (length live))) [
            | inl full ↦ rw full (ground (arith, delete-length id live))
            | inr room ↦ rw room (ground (arith, delete-length id live))
          ])
    ]

-- Whatever the request and the readings of the clock, from at most 10000 sessions the USSD handler
-- leaves at most 10000.
pub handle_ussd-bound :
    (clock : Readings) (body : Option UssdRequestBody) (m : Map UssdSession)
    → length m ≤ 10000
    → length (handle_ussd clock body m).1 ≤ 10000
unfolding handle_ussd
handle_ussd-bound clock none m small = small
handle_ussd-bound clock (some body) m small = elim (Bool-cases (is_too_long body.text)) [
  | inl long ↦ rw (long, handle_ussd) small
  | inr short ↦
      rw (short, handle_ussd)
        (continue_session-bound clock (session_key body.session_id) body m small)
]

-- A request with a text that is not too long, for a session that was written more than 300000
-- milliseconds before the check, is answered with the notice that the session has expired, and the
-- session is gone from those that the sweep leaves.
pub handle_ussd_lapsed :
    (clock : Readings) (body : UssdRequestBody) (m : Map UssdSession) {s : UssdSession}
    → get (session_key body.session_id) m ≡ some s
    → is_too_long body.text ≡ false
    → s.updated_at + 300000 < clock.at_check
    → handle_ussd clock (some body) m ≡ (
      codes "END Session expired. Please dial again.",
      delete (session_key body.session_id) (sweep clock.at_sweep m),
    )
unfolding handle_ussd continue_session
handle_ussd_lapsed clock body m {s} held short late = ground arith
