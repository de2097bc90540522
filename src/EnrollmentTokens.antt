-- ===== src/EnrollmentTokens.antt =====
-- Single-use enrollment tokens, src/enrollment_tokens.rs: what the lock guards is a map of tokens.
-- The random token of `mint` is an argument of the model.
pub mod Spent
pub mod Consume
pub mod Durable
mod Tests
use microtak_server.Prelude.{
  String, Bool, true, false, not, List, [], Option, none, some, Result, ok, err, ◌>>◌, ◌==◌,
  string_eq, if◌then◌else◌,
}
use microtak_server.Prelude.Int.{ℤ, leb_ℤ, add_i64}
use microtak_server.Prelude.Sort.{sort_by_key}
use microtak_server.Map.{Map, map_option, get, insert, modify, contains_key, values}
use microtak_server.EventLog.{JsonLine, EventLogError, Write, Store, record_checked}
use microtak_server.Groups.{GroupGrant}

pub data EnrollmentTokenError : Type 0 where
  not_found already_used revoked expired : EnrollmentTokenError
  wrong_identity : (bound requested : String) → EnrollmentTokenError
  event_log : EventLogError → EnrollmentTokenError

pub record EnrollmentToken : Type 0 where
  pub token : String
  pub created_at_unix : ℤ
  pub expires_at_unix : Option ℤ
  pub note : Option String
  pub common_name : Option String
  pub groups : List GroupGrant
  pub used : Bool
  pub used_by_common_name : Option String
  pub used_at_unix : Option ℤ
  pub revoked : Bool

pub data TokenEvent : Type 0 where
  minted :
      (token : String)
      → (created_at_unix : ℤ) → (expires_at_unix : Option ℤ) → (note common_name : Option String)
      → (groups : List GroupGrant) → TokenEvent
  consumed : (token common_name : String) → (at_unix : ℤ) → TokenEvent
  revoked : (token : String) → TokenEvent

abbrev pub Tokens : Type 0
Tokens = Map String EnrollmentToken

pub is_expired_at : Option ℤ → ℤ → Bool
is_expired_at none now_unix = false
is_expired_at (some expires_at) now_unix = leb_ℤ expires_at now_unix

pub is_usable_at : EnrollmentToken → ℤ → Result EnrollmentTokenError (Unit {0})
unfolding is_expired_at
is_usable_at t now_unix =
    if t.revoked
    then err EnrollmentTokenError.revoked
    else if t.used
    then err already_used
    else if is_expired_at t.expires_at_unix now_unix
    then err expired
    else ok tt

unfoldable pub apply_event : Tokens → TokenEvent → Tokens
apply_event tokens (minted token created_at_unix expires_at_unix remark common_name groups) =
    insert token
      (record {
        token = token;
        created_at_unix = created_at_unix;
        expires_at_unix = expires_at_unix;
        note = remark;
        common_name = common_name;
        groups = groups;
        used = false;
        used_by_common_name = none;
        used_at_unix = none;
        revoked = false;
      })
      tokens
apply_event tokens (consumed token common_name at_unix) =
    modify token
      (λ t. record t {
        used = true;
        used_by_common_name = some common_name;
        used_at_unix = some at_unix;
      })
      tokens
apply_event tokens (TokenEvent.revoked token) =
    modify token (λ t. record t { revoked = true }) tokens

-- The binding of a token to one identity.
pub check_bound : Option String → String → Result EnrollmentTokenError (Unit {0})
check_bound none common_name = ok tt
check_bound (some bound) common_name =
    if bound == common_name then ok tt else err (wrong_identity bound common_name)

-- What `validate_and_consume` checks of the token that it finds.
pub check_token : Option EnrollmentToken → String → ℤ → Result EnrollmentTokenError (Unit {0})
unfolding is_usable_at check_bound
check_token none common_name now_unix = err not_found
check_token (some existing) common_name now_unix =
    is_usable_at existing now_unix >> check_bound existing.common_name common_name

module _ {L : Type 0} (json : JsonLine L TokenEvent) where
  -- `token` is what `random_token()` returns.
  pub mint_with :
      Write
      → Store L Tokens
      → (token : String) → (expires_in_secs : Option ℤ) → (note common_name : Option String)
      → List GroupGrant
      → (now_unix : ℤ) → Store L Tokens × Result EnrollmentTokenError String
  mint_with w s token expires_in_secs remark common_name groups now_unix =
      let (s', r) = record_checked json apply_event event_log (ok tt) w s (
        minted token now_unix (map_option (add_i64 now_unix) expires_in_secs) remark common_name
          groups) in
      (s', r >> ok token)

  pub mint_bound :
      Write
      → Store L Tokens
      → (token : String) → (expires_in_secs : Option ℤ) → (note common_name : Option String)
      → (now_unix : ℤ) → Store L Tokens × Result EnrollmentTokenError String
  mint_bound w s token expires_in_secs remark common_name now_unix =
      mint_with w s token expires_in_secs remark common_name [] now_unix

  pub mint :
      Write
      → Store L Tokens
      → (token : String) → (expires_in_secs : Option ℤ) → (note : Option String) → (now_unix : ℤ)
      → Store L Tokens × Result EnrollmentTokenError String
  mint w s token expires_in_secs remark now_unix =
      mint_bound w s token expires_in_secs remark none now_unix

  pub validate_and_consume :
      Write
      → Store L Tokens
      → (token common_name : String) → (now_unix : ℤ)
      → Store L Tokens × Result EnrollmentTokenError (Unit {0})
  validate_and_consume w s token common_name now_unix =
      record_checked json apply_event event_log
        (check_token (get token s.state) common_name now_unix) w s
        (consumed token common_name now_unix)

  pub revoke :
      Write
      → Store L Tokens
      → (token : String) → Store L Tokens × Result EnrollmentTokenError (Unit {0})
  revoke w s token =
      record_checked json apply_event event_log
        (if not (contains_key token s.state) then err not_found else ok tt) w s
        (TokenEvent.revoked token)

pub list : Tokens → List EnrollmentToken
list tokens = sort_by_key (λ t. t.created_at_unix) (values tokens)
