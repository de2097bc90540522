-- ===== src/EnrollmentTokens/Spent.antt =====
-- A token of src/enrollment_tokens.rs that is used or revoked stays so.
use mathlib.Core.Path.{subst}
use microtak_server.Prelude.{
  sym, is_some, String, Bool, true, false, not, ◌||◌, List, Option, none, some, Result, ok, err,
  ◌≡◌, ◌≢◌, inl, inr, refl, ◌==◌, string_eq, arith, if◌then◌else◌,
}
use microtak_server.Prelude.Int.{ℤ}
use microtak_server.Map.{map_option, get, contains_key}
use microtak_server.Map.Laws.{get-modify, get-insert}
use microtak_server.Groups.{GroupGrant}
use microtak_server.EventLog.{JsonLine, Write, Store, record_checked}
use microtak_server.EventLog.Calls.{Every, run_all, run_all-keeps}
use microtak_server.EventLog.Checked.{record_checked_state}
use microtak_server.EnrollmentTokens.{
  EnrollmentToken, EnrollmentTokenError, event_log, not_found, TokenEvent, minted, consumed, Tokens,
  check_token, apply_event, mint_with, validate_and_consume, revoke,
}
use microtak_server.EnrollmentTokens.Consume.{consume_iff, consume_effect, usable, spent_by}

-- A call of the store's interface; `mint` and `mint_bound` are `mint_with` with less.
pub data Call : Type 0 where
  mint_call :
      (token : String)
      → (expires_in_secs : Option ℤ) → (note common_name : Option String) → List GroupGrant
      → (now_unix : ℤ) → Call
  consume_call : (token common_name : String) → (now_unix : ℤ) → Call
  revoke_call : (token : String) → Call

module _ {L : Type 0} (json : JsonLine L TokenEvent) where
  unfoldable pub run : Call → Write → Store L Tokens → Store L Tokens
  run (mint_call token secs remark common_name groups now) w s =
      (mint_with json w s token secs remark common_name groups now).0
  run (consume_call token common_name now) w s =
      (validate_and_consume json w s token common_name now).0
  run (revoke_call token) w s = (revoke json w s token).0

-- A `mint` that draws this token.
abbrev pub mints : Call → String → Bool
mints (mint_call drawn secs remark common_name groups now) token = drawn == token
mints (consume_call other common_name now) token = false
mints (revoke_call other) token = false

-- No `mint` of the list draws this token again.
abbrev pub NotDrawn : String → List (Call × Write) → Type 0
NotDrawn token calls = Every (λ c w. mints c token ≡ false) calls

abbrev is_spent : Option EnrollmentToken → Bool
is_spent none = false
is_spent (some t) = t.used || t.revoked

pub record Spent (token : String) (tokens : Tokens) : Type 0 where
  pub spent : is_spent (get token tokens) ≡ true

is_spent-used :
    (common_name : String) (now : ℤ) (o : Option EnrollmentToken)
    → is_spent o ≡ true
    → is_spent (map_option (spent_by common_name now) o) ≡ true
is_spent-used common_name now none h = h
is_spent-used common_name now (some t) h = refl

abbrev revoked_of : EnrollmentToken → EnrollmentToken
revoked_of t = record t { revoked = true }

is_spent-revoked :
    (o : Option EnrollmentToken) → is_spent o ≡ true → is_spent (map_option revoked_of o) ≡ true
is_spent-revoked none h = h
is_spent-revoked (some t) h = ground arith

-- An event keeps a token spent unless it mints that token.
abbrev redraws : TokenEvent → String → Bool
redraws (minted drawn created expires remark common_name groups) token = drawn == token
redraws (consumed other common_name now) token = false
redraws (TokenEvent.revoked other) token = false

apply_event-Spent :
    (token : String) (tokens : Tokens) (e : TokenEvent)
    → redraws e token ≡ false
    → Spent token tokens
    → Spent token (apply_event tokens e)
unfolding apply_event
apply_event-Spent token tokens (minted drawn created expires remark common_name groups) h s =
    record { spent = rw (get-insert drawn token _ tokens, h) s.spent }
apply_event-Spent token tokens (consumed other common_name now) h s = record {
  spent = ground (
    arith,
    get-modify other token (spent_by common_name now) tokens,
    is_spent-used common_name now (get token tokens),
  );
}
apply_event-Spent token tokens (TokenEvent.revoked other) h s = record {
  spent =
      ground (arith, get-modify other token revoked_of tokens, is_spent-revoked (get token tokens));
}

map_revoked :
    (o : Option EnrollmentToken) → is_some o ≡ true → is_spent (map_option revoked_of o) ≡ true
map_revoked none h = h
map_revoked (some t) h = ground arith

revoked_now :
    (token : String) (tokens : Tokens)
    → contains_key token tokens ≡ true
    → is_spent (get token (apply_event tokens (TokenEvent.revoked token))) ≡ true
unfolding apply_event
revoked_now token tokens h = ground (
  arith,
  get-modify token token revoked_of tokens,
  string_eq.beq_iff token token,
  map_revoked (get token tokens),
)

module _ {L : Type 0} (json : JsonLine L TokenEvent) where
  record_checked-Spent :
      (checks : Result EnrollmentTokenError (Unit {0})) (w : Write) (s : Store L Tokens)
      (e : TokenEvent) (token : String)
      → redraws e token ≡ false
      → Spent token s.state
      → Spent token (record_checked json apply_event event_log checks w s e).0.state
  record_checked-Spent checks w s e token h spent =
      elim (record_checked_state json apply_event event_log checks w s e) [
        | inl (answer, checked, state) ↦
            subst (Spent token) (sym state) (apply_event-Spent token s.state e h spent)
        | inr (answer, state) ↦ subst (Spent token) (sym state) spent
      ]

  run-Spent :
      (c : Call) (w : Write) (s : Store L Tokens) (token : String)
      → mints c token ≡ false
      → Spent token s.state
      → Spent token (run json c w s).state
  unfolding run mint_with validate_and_consume revoke
  run-Spent (mint_call drawn secs remark common_name groups now) w s token h spent =
      record_checked-Spent (ok tt) w s _ token h spent
  run-Spent (consume_call other common_name now) w s token h spent =
      record_checked-Spent (check_token (get other s.state) common_name now) w s _ token h spent
  run-Spent (revoke_call other) w s token h spent = record_checked-Spent _ w s _ token h spent

  run_all-Spent :
      (calls : List (Call × Write)) (s : Store L Tokens) (token : String)
      → NotDrawn token calls
      → Spent token s.state
      → Spent token (run_all (run json) calls s).state
  run_all-Spent calls s token h spent =
      run_all-keeps (run json) (λ s. Spent token s.state) (λ c w. mints c token ≡ false)
        (λ c w s. run-Spent c w s token) calls s h spent

  usable-spent :
      (o : Option EnrollmentToken) (common_name : String) (now : ℤ)
      → is_spent o ≡ true
      → usable o common_name now ≡ false
  usable-spent none common_name now h = refl
  usable-spent (some t) common_name now h = ground arith

  refused :
      (s : Store L Tokens) (token : String)
      → Spent token s.state
      → (w : Write) (common_name : String) (now : ℤ)
      → (validate_and_consume json w s token common_name now).1 ≢ ok tt
  refused s token spent w common_name now = ground (
    arith,
    consume_iff json w s token common_name now,
    usable-spent (get token s.state) common_name now spent.spent,
  )

  spent_now :
      (o : Option EnrollmentToken) (common_name : String) (now : ℤ)
      → usable o common_name now ≡ true
      → is_spent (map_option (spent_by common_name now) o) ≡ true
  spent_now none common_name now h = cc
  spent_now (some t) common_name now h = refl

  consumed-Spent :
      (w : Write) (s : Store L Tokens) (token common_name : String) (now : ℤ)
      → (validate_and_consume json w s token common_name now).1 ≡ ok tt
      → Spent token (validate_and_consume json w s token common_name now).0.state
  consumed-Spent w s token common_name now h =
      let usable_now = ((consume_iff json w s token common_name now).0 h).0 in
      elim (consume_effect json w s token common_name now) [
        | inr (refusal, same) ↦ absurd (refusal h)
        | inl (answer, after) ↦ record {
          spent = ground (
            arith,
            after token,
            string_eq.beq_iff token token,
            spent_now (get token s.state) common_name now usable_now,
          );
        }
      ]

  -- A token enrolls once: after a success with it, and any later calls whose random draws do not
  -- give that token again, it is refused to every identity at every time.
  pub consume_once :
      (w : Write) (s : Store L Tokens) (token common_name : String) (now : ℤ)
      → (validate_and_consume json w s token common_name now).1 ≡ ok tt
      → (calls : List (Call × Write)) → NotDrawn token calls
      → (w' : Write) (other : String) (later : ℤ)
      → (validate_and_consume json w'
          (run_all (run json) calls (validate_and_consume json w s token common_name now).0)
          token
          other
          later).1
        ≢ ok tt
  consume_once w s token common_name now h calls drawn w' other later =
      let s' = (validate_and_consume json w s token common_name now).0 in
      refused (run_all (run json) calls s') token
        (run_all-Spent calls s' token drawn (consumed-Spent w s token common_name now h)) w' other
        later

  revoked-Spent :
      (w : Write) (s : Store L Tokens) (token : String)
      → (revoke json w s token).1 ≡ ok tt
      → Spent token (revoke json w s token).0.state
  unfolding revoke
  revoked-Spent w s token h =
      elim (record_checked_state json apply_event event_log
        (if not (contains_key token s.state) then err not_found else ok tt) w s
        (TokenEvent.revoked token)) [
          | inr (refusal, same) ↦ absurd (refusal h)
          | inl (answer, known, state) ↦
              subst (Spent token) (sym state)
                (record { spent = revoked_now token s.state (ground arith) })
        ]

  -- A token that is revoked is refused ever after, unless a later random draw gives it again.
  pub revoke_for_good :
      (w : Write) (s : Store L Tokens) (token : String)
      → (revoke json w s token).1 ≡ ok tt
      → (calls : List (Call × Write)) → NotDrawn token calls
      → (w' : Write) (other : String) (later : ℤ)
      → (validate_and_consume json w'
          (run_all (run json) calls (revoke json w s token).0)
          token
          other
          later).1
        ≢ ok tt
  revoke_for_good w s token h calls drawn w' other later =
      let s' = (revoke json w s token).0 in
      refused (run_all (run json) calls s') token
        (run_all-Spent calls s' token drawn (revoked-Spent w s token h)) w' other later
