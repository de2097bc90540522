-- ===== src/Users/Accounts.antt =====
-- What an account of src/users.rs may do over its life.
use mathlib.Core.Path.{subst}
use microtak_server.Prelude.{
  ℕ, sym, String, Bool, true, false, not, ◌||◌, List, some, ok, err, ◌≡◌, inl, inr, refl, ◌==◌,
  string_eq, arith, if◌then◌else◌, Bool-cases, Option-cases, ◌∙◌,
}
use microtak_server.Prelude.Int.{ℤ}
use microtak_server.Map.{get, contains_key}
use microtak_server.Map.Laws.{get-modify, get-insert}
use microtak_server.Groups.{GroupGrant}
use microtak_server.EventLog.{JsonLine, Write, Store}
use microtak_server.EventLog.Calls.{Every, always, run_all, run_all-keeps}
use microtak_server.EventLog.Checked.{record_checked_state}
use microtak_server.Users.{
  Argon2, UserRecord, event_log, not_found, already_exists, UserEvent, created, Users, apply_event,
  verify_password, mint_with_groups, revoke, authenticate, authenticate_record,
}

-- A call of the store's interface; `mint` is `mint_with_groups` with no groups.
pub data Call : Type 0 where
  mint_call : (salt : ℕ) → (username password : String) → List GroupGrant → (now_unix : ℤ) → Call
  revoke_call : (username : String) → Call

module _ {L : Type 0} (json : JsonLine L UserEvent) (argon : Argon2) where
  unfoldable pub run : Call → Write → Store L Users → Store L Users
  run (mint_call salt username password groups now) w s =
      (mint_with_groups json argon salt w s username password groups now).0
  run (revoke_call username) w s = (revoke json w s username).0

-- A call that revokes the account.
abbrev pub revokes : Call → String → Bool
revokes (mint_call salt other password groups now) username = false
revokes (revoke_call other) username = other == username

-- No call of the list revokes the account.
abbrev pub NotRevoked : String → List (Call × Write) → Type 0
NotRevoked username calls = Every (λ c w. revokes c username ≡ false) calls

-- The account is there with this hash and, if `off`, revoked.
pub record HasAccount (username hash : String) (off : Bool) (users : Users) : Type 0 where
  pub account : UserRecord
  pub there : get username users ≡ some account
  pub password_hash : account.password_hash ≡ hash
  pub revoked : account.revoked ≡ off

abbrev revoked_of : UserRecord → UserRecord
revoked_of r = record r { revoked = true }

-- The effect of `mint` on a name that is not there, and of `revoke`, on an account.
created-HasAccount :
    (users : Users) (other password : String) (now : ℤ) (groups : List GroupGrant)
    (username hash : String) (off : Bool)
    → (other == username) ≡ false
    → HasAccount username hash off users
    → HasAccount username hash off (apply_event users (created other password now groups))
unfolding apply_event
created-HasAccount users other password now groups username hash off h a = record {
  account = a.account;
  there = rw (get-insert other username _ users, h) a.there;
  password_hash = a.password_hash;
  revoked = a.revoked;
}

revoked-HasAccount :
    (users : Users) (other username hash : String) (off : Bool)
    → HasAccount username hash off users
    → HasAccount username hash
        (off || other == username)
        (apply_event users (UserEvent.revoked other))
unfolding apply_event
revoked-HasAccount users other username hash off a = elim (Bool-cases (other == username)) [
  | inl same ↦ record {
    account = revoked_of a.account;
    there = ground (arith, get-modify other username revoked_of users, a.there);
    password_hash = a.password_hash;
    revoked = ground arith;
  }
  | inr differs ↦ record {
    account = a.account;
    there = ground (arith, get-modify other username revoked_of users, a.there);
    password_hash = a.password_hash;
    revoked = ground (arith, a.revoked);
  }
]

-- A call leaves the account as it is: it does not revoke it, or it was revoked already.
abbrev spares : Bool → Call → String → Bool
spares off c username = off || not (revokes c username)

module _ {L : Type 0} (json : JsonLine L UserEvent) (argon : Argon2) where
  mint-HasAccount :
      (salt : ℕ) (w : Write) (s : Store L Users) (other password : String)
      (groups : List GroupGrant) (now : ℤ) (username hash : String) (off : Bool)
      → HasAccount username hash off s.state
      → HasAccount username hash off
          (mint_with_groups json argon salt w s other password groups now).0.state
  unfolding mint_with_groups
  mint-HasAccount salt w s other password groups now username hash off a =
      let e = created other (argon.hash_password salt password) now groups in
      elim (record_checked_state json apply_event event_log
        (if contains_key other s.state then err already_exists else ok tt) w s e) [
          | inr (refusal, same) ↦ subst (HasAccount username hash off) (sym same) a
          | inl (answer, free, state) ↦ subst (HasAccount username hash off) (sym state) (
              created-HasAccount s.state other (argon.hash_password salt password) now groups
                username hash off (ground (arith, a.there, string_eq.beq_iff other username)) a)
        ]

  revoke-HasAccount :
      (w : Write) (s : Store L Users) (other username hash : String) (off : Bool)
      → off || not (other == username) ≡ true
      → HasAccount username hash off s.state
      → HasAccount username hash off (revoke json w s other).0.state
  unfolding revoke
  revoke-HasAccount w s other username hash off h a =
      elim (record_checked_state json apply_event event_log
        (if not (contains_key other s.state) then err not_found else ok tt) w s
        (UserEvent.revoked other)) [
          | inr (refusal, same) ↦ subst (HasAccount username hash off) (sym same) a
          | inl (answer, known, state) ↦ subst (HasAccount username hash off) (sym state) (
              subst
                (λ b. HasAccount username hash b (apply_event s.state (UserEvent.revoked other)))
                (ground arith) (revoked-HasAccount s.state other username hash off a))
        ]

  run-HasAccount :
      (c : Call) (w : Write) (s : Store L Users) (username hash : String) (off : Bool)
      → spares off c username ≡ true
      → HasAccount username hash off s.state
      → HasAccount username hash off (run json argon c w s).state
  unfolding run
  run-HasAccount (mint_call salt other password groups now) w s username hash off h a =
      mint-HasAccount salt w s other password groups now username hash off a
  run-HasAccount (revoke_call other) w s username hash off h a =
      revoke-HasAccount w s other username hash off h a

  kept_active :
      (calls : List (Call × Write)) (s : Store L Users) (username hash : String)
      → NotRevoked username calls
      → HasAccount username hash false s.state
      → HasAccount username hash false (run_all (run json argon) calls s).state
  kept_active calls s username hash h a =
      run_all-keeps (run json argon) (λ s. HasAccount username hash false s.state)
        (λ c w. revokes c username ≡ false)
        (λ c w s h. run-HasAccount c w s username hash false (ground arith)) calls s h a

  kept_revoked :
      (calls : List (Call × Write)) (s : Store L Users) (username hash : String)
      → HasAccount username hash true s.state
      → HasAccount username hash true (run_all (run json argon) calls s).state
  kept_revoked calls s username hash a =
      run_all-keeps (run json argon) (λ s. HasAccount username hash true s.state) (λ c w. Unit {0})
        (λ c w s h. run-HasAccount c w s username hash true refl) calls s (always calls) a

  minted-HasAccount :
      (salt : ℕ) (w : Write) (s : Store L Users) (username password : String)
      (groups : List GroupGrant) (now : ℤ)
      → (mint_with_groups json argon salt w s username password groups now).1 ≡ ok tt
      → HasAccount username
          (argon.hash_password salt password)
          false
          (mint_with_groups json argon salt w s username password groups now).0.state
  unfolding mint_with_groups
  minted-HasAccount salt w s username password groups now h =
      let hash = argon.hash_password salt password in
      elim (record_checked_state json apply_event event_log
        (if contains_key username s.state then err already_exists else ok tt) w s
        (created username hash now groups)) [
          | inr (refusal, same) ↦ absurd (refusal h)
          | inl (answer, free, state) ↦ subst (HasAccount username hash false) (sym state) (
              unfold apply_event in
              record {
                account = record {
                  password_hash = hash;
                  created_at_unix = now;
                  revoked = false;
                  groups = groups;
                };
                there = ground (
                  arith,
                  get-insert username username
                      (record {
                        password_hash = hash;
                        created_at_unix = now;
                        revoked = false;
                        groups = groups;
                      })
                      s.state,
                  string_eq.beq_iff username username,
                );
                password_hash = refl;
                revoked = refl;
              })
        ]

  authenticate_active :
      (users : Users) (username hash password : String) (off : Bool)
      → HasAccount username hash off users
      → authenticate argon users username password
        ≡ (if off then false else verify_password argon password hash)
  unfolding authenticate authenticate_record
  authenticate_active users username hash password off a =
      rw (a.there, a.revoked, a.password_hash) refl

  verify_password-hash_password :
      (salt : ℕ) (password : String)
      → verify_password argon password (argon.hash_password salt password) ≡ true
  unfolding verify_password
  verify_password-hash_password salt password =
      rw (argon.new-hash_password salt password, verify_password)
        (argon.verify-parsed salt password)

  -- An account that was created logs in with its password from then on: no later call changes the
  -- password, a `mint` of the same name included, or shuts the account out unless it revokes it.
  pub minted_authenticates :
      (salt : ℕ) (w : Write) (s : Store L Users) (username password : String)
      (groups : List GroupGrant) (now : ℤ)
      → (mint_with_groups json argon salt w s username password groups now).1 ≡ ok tt
      → (calls : List (Call × Write)) → NotRevoked username calls
      → authenticate argon
          (run_all
            (run json argon)
            calls
            (mint_with_groups json argon salt w s username password groups now).0).state
          username
          password
        ≡ true
  minted_authenticates salt w s username password groups now h calls spared =
      let s' = (mint_with_groups json argon salt w s username password groups now).0 in
      let hash = argon.hash_password salt password in
      authenticate_active (run_all (run json argon) calls s').state username hash password false (
        kept_active calls s' username hash spared
          (minted-HasAccount salt w s username password groups now h))
      ∙ verify_password-hash_password salt password

  revoked_now :
      (w : Write) (s : Store L Users) (username : String)
      → (revoke json w s username).1 ≡ ok tt
      → (hash : String) × HasAccount username hash true (revoke json w s username).0.state
  unfolding revoke
  revoked_now w s username h =
      elim (record_checked_state json apply_event event_log
        (if not (contains_key username s.state) then err not_found else ok tt) w s
        (UserEvent.revoked username)) [
          | inr (refusal, same) ↦ absurd (refusal h)
          | inl (answer, known, state) ↦ elim (Option-cases (get username s.state)) [
            | inl missing ↦ absurd (ground arith)
            | inr (r, there) ↦ (
              r.password_hash,
              subst (HasAccount username r.password_hash true) (sym state) (
                  unfold apply_event in
                  record {
                    account = revoked_of r;
                    there = ground (
                      arith,
                      get-modify username username revoked_of s.state,
                      string_eq.beq_iff username username,
                    );
                    password_hash = refl;
                    revoked = refl;
                  }),
            )
          ]
        ]

  -- A revoked account never logs in again, with any password, whatever calls come later.
  pub revoked_never_authenticates :
      (w : Write) (s : Store L Users) (username : String)
      → (revoke json w s username).1 ≡ ok tt
      → (calls : List (Call × Write)) (password : String)
      → authenticate argon
          (run_all (run json argon) calls (revoke json w s username).0).state
          username
          password
        ≡ false
  revoked_never_authenticates w s username h calls password =
      let s' = (revoke json w s username).0 in
      let (hash, a) = revoked_now w s username h in
      authenticate_active (run_all (run json argon) calls s').state username hash password true
        (kept_revoked calls s' username hash a)
