-- ===== src/Users/Tests.antt =====
-- The properties of src/users.rs at concrete accounts.
use microtak_server.Prelude.{
  err, String, true, false, List, [], ◌∷◌, Option, some, ok, ◌≡◌, refl, ◌==◌, string_eq, eq_refl,
}
use microtak_server.Prelude.Int.{pos}
use microtak_server.Map.{get}
use microtak_server.Users.{
  mint, groups_of, exists, already_exists, Argon2, UserEvent, Users, mint_with_groups, revoke,
  authenticate, authenticate_record, verify_password,
}
use microtak_server.EventLog.{
  JsonLine, Write, synced, unwritten, Store, record_checked, answer, commit, commit_log, append,
  applied,
}
use microtak_server.EventLog.Calls.{run_all}
use microtak_server.EventLog.Sample.{plain_lines}
use microtak_server.Users.Accounts.{Call, mint_call, revoke_call, run, revoked_never_authenticates}

abbrev json : JsonLine (Option UserEvent) UserEvent
json = plain_lines UserEvent

-- A hash that is the password itself.
abbrev plain : Argon2
plain = record {
  PasswordHash = String;
  hash_password = λ salt password. password;
  new = λ hash. some hash;
  verify = λ password hash. password == hash;
  parsed = λ salt password. password;
  new-hash_password = λ salt password. refl;
  verify-parsed = λ salt password. eq_refl password;
}

abbrev store : Store (Option UserEvent) Users
store = record { state = []; log = some [] }

mint_jz : (mint_with_groups json plain 7 synced store "jz" "secret" [] (pos 1)).1 ≡ ok tt
unfolding mint_with_groups record_checked answer commit commit_log append applied get
mint_jz = refl

abbrev with_jz : Store (Option UserEvent) Users
with_jz = record {
  state =
      (
        "jz",
        record { password_hash = "secret"; created_at_unix = pos 1; revoked = false; groups = [] },
      )
      ∷ [];
  log = some [];
}

authenticate_jz :
    (authenticate plain with_jz.state "jz" "secret" ≡ true)
    × (authenticate plain with_jz.state "jz" "guess" ≡ false)
unfolding authenticate authenticate_record verify_password get
authenticate_jz = (refl, refl)

revoke_jz : (revoke json synced with_jz "jz").1 ≡ ok tt
unfolding revoke record_checked answer commit commit_log append applied get
revoke_jz = refl

abbrev later : List (Call × Write)
later = (mint_call 8 "jz" "other" [] (pos 2), synced) ∷ (revoke_call "bob", unwritten) ∷ []

revoked_never_authenticates_example :
    authenticate plain
      (run_all (run json plain) later (revoke json synced with_jz "jz").0).state
      "jz"
      "secret"
    ≡ false
revoked_never_authenticates_example =
    revoked_never_authenticates json plain synced with_jz "jz" revoke_jz later "secret"

mint_again :
    ((mint json plain 9 synced with_jz "jz" "other" (pos 3)).1 ≡ err already_exists)
    × (exists with_jz.state "jz" ≡ true)
    × (groups_of with_jz.state "bob" ≡ [])
unfolding mint mint_with_groups record_checked get exists groups_of
mint_again = (refl, refl, refl)
