-- ===== src/EnrollmentTokens/Consume.antt =====
-- When `validate_and_consume` of src/enrollment_tokens.rs succeeds, and what it changes.
use microtak_server.Prelude.{
  String, Bool, true, false, not, ◌&&◌, Option, none, some, ok, ◌≡◌, ◌≢◌, ◌⊎◌, inl, inr, ◌↔◌, ◌==◌,
  string_eq, arith, if◌then◌else◌,
}
use microtak_server.Prelude.Int.{ℤ}
use microtak_server.Map.{map_option, get}
use microtak_server.Map.Laws.{get-modify}
use microtak_server.EventLog.{JsonLine, Write, Store, logged}
use microtak_server.EventLog.Checked.{record_checked_state, record_checked_answer}
use microtak_server.EnrollmentTokens.{
  EnrollmentToken, event_log, TokenEvent, consumed, Tokens, is_expired_at, is_usable_at,
  check_bound, check_token, apply_event, validate_and_consume,
}

-- Whether a binding lets an identity through.
abbrev pub allows : Option String → String → Bool
allows none common_name = true
allows (some bound) common_name = bound == common_name

-- What makes a token usable by an identity at an instant.
abbrev pub usable_by : EnrollmentToken → String → ℤ → Bool
usable_by t common_name now =
    not t.revoked
    && (not t.used
        && (not (is_expired_at t.expires_at_unix now) && allows t.common_name common_name))

abbrev pub usable : Option EnrollmentToken → String → ℤ → Bool
usable none common_name now = false
usable (some t) common_name now = usable_by t common_name now

check_bound_iff :
    (o : Option String) (common_name : String)
    → (check_bound o common_name ≡ ok tt) ↔ (allows o common_name ≡ true)
unfolding check_bound
check_bound_iff none common_name = ground arith
check_bound_iff (some bound) common_name = ground arith

check_token_iff :
    (o : Option EnrollmentToken) (common_name : String) (now : ℤ)
    → (check_token o common_name now ≡ ok tt) ↔ (usable o common_name now ≡ true)
unfolding check_token is_usable_at
check_token_iff none common_name now = ground arith
check_token_iff (some t) common_name now = ground (arith, check_bound_iff t.common_name common_name)

-- The token as `validate_and_consume` leaves it.
abbrev pub spent_by : String → ℤ → EnrollmentToken → EnrollmentToken
spent_by common_name now t = record t {
  used = true;
  used_by_common_name = some common_name;
  used_at_unix = some now;
}

module _ {L : Type 0} (json : JsonLine L TokenEvent) (w : Write) (s : Store L Tokens)
    (token common_name : String) (now : ℤ) where
  -- Enrolling with a token succeeds exactly where the token is there, is not revoked, used or
  -- expired, is bound to nobody or to this identity, and the log takes the event.
  pub consume_iff :
      ((validate_and_consume json w s token common_name now).1 ≡ ok tt)
      ↔ (usable (get token s.state) common_name now ≡ true) × (logged event_log w s.log ≡ ok tt)
  unfolding validate_and_consume
  consume_iff = ground (
    arith,
    check_token_iff (get token s.state) common_name now,
    record_checked_answer json apply_event event_log
        (check_token (get token s.state) common_name now) w s (consumed token common_name now),
  )

  get-consumed :
      (other : String)
      → get other (apply_event s.state (consumed token common_name now)) ≡ (
          if token == other
          then map_option (spent_by common_name now) (get other s.state)
          else get other s.state)
  unfolding apply_event
  get-consumed other = get-modify token other (spent_by common_name now) s.state

  -- A success marks that token as used by the identity and leaves every other as it was; a refusal
  -- leaves all the tokens as they were.
  pub consume_effect :
      ((validate_and_consume json w s token common_name now).1 ≡ ok tt)
        × ((other : String)
            → get other (validate_and_consume json w s token common_name now).0.state ≡ (
                if token == other
                then map_option (spent_by common_name now) (get other s.state)
                else get other s.state))
      ⊎ ((validate_and_consume json w s token common_name now).1 ≢ ok tt)
        × ((validate_and_consume json w s token common_name now).0.state ≡ s.state)
  unfolding validate_and_consume
  consume_effect =
      elim (record_checked_state json apply_event event_log
        (check_token (get token s.state) common_name now) w s (consumed token common_name now)) [
          | inl (answer, checked, state) ↦ inl (answer, λ other. rw state (get-consumed other))
          | inr refused ↦ inr refused
        ]
