-- ===== src/Users.antt =====
-- Accounts with a password, src/users.rs. Argon2, a third-party crate, is an argument of the model:
-- it hashes with a salt that it draws, and accepts the password that a hash was made from.
pub mod Accounts
pub mod Durable
mod Tests
use microtak_server.Prelude.{
  ℕ, String, Bool, true, false, not, List, [], ◌∷◌, Option, none, some, Result, ok, err, ◌≡◌, ◌==◌,
  string_eq, if◌then◌else◌,
}
use microtak_server.Prelude.Int.{ℤ}
use microtak_server.Prelude.Sort.{sort_by_key}
use microtak_server.Map.{Map, map_option, get, insert, modify, contains_key}
use microtak_server.EventLog.{JsonLine, EventLogError, Write, Store, record_checked}
use microtak_server.Groups.{GroupGrant}

-- `PasswordHash::new` parses a PHC string, and `verify_password` checks a password against it.
pub record Argon2 : Type 1 where
  pub PasswordHash : Type 0
  pub hash_password : (salt : ℕ) → (password : String) → String
  pub new : String → Option PasswordHash
  pub verify : String → PasswordHash → Bool
  pub parsed : ℕ → String → PasswordHash
  pub new-hash_password :
      (salt : ℕ) (password : String)
      → new (hash_password salt password) ≡ some (parsed salt password)
  pub verify-parsed : (salt : ℕ) (password : String) → verify password (parsed salt password) ≡ true

pub data UserError : Type 0 where
  not_found already_exists : UserError
  event_log : EventLogError → UserError

pub record UserInfo : Type 0 where
  pub username : String
  pub created_at_unix : ℤ
  pub revoked : Bool
  pub groups : List GroupGrant

pub record UserRecord : Type 0 where
  pub password_hash : String
  pub created_at_unix : ℤ
  pub revoked : Bool
  pub groups : List GroupGrant

pub data UserEvent : Type 0 where
  created :
      (username password_hash : String)
      → (created_at_unix : ℤ) → (groups : List GroupGrant) → UserEvent
  revoked : (username : String) → UserEvent

abbrev pub Users : Type 0
Users = Map String UserRecord

unfoldable pub apply_event : Users → UserEvent → Users
apply_event users (created username password_hash created_at_unix groups) =
    insert username
      (record {
        password_hash = password_hash;
        created_at_unix = created_at_unix;
        revoked = false;
        groups = groups;
      })
      users
apply_event users (revoked username) = modify username (λ r. record r { revoked = true }) users

-- `PasswordHash::new`, then the check.
pub verify_password : Argon2 → String → String → Bool
verify_password argon password hash = elim (argon.new hash) [
  | none ↦ false
  | some parsed ↦ argon.verify password parsed
]

module _ {L : Type 0} (json : JsonLine L UserEvent) where
  pub mint_with_groups :
      Argon2
      → (salt : ℕ) → Write
      → Store L Users
      → (username password : String) → List GroupGrant
      → (now_unix : ℤ) → Store L Users × Result UserError (Unit {0})
  mint_with_groups argon salt w s username password groups now_unix =
      record_checked json apply_event event_log
        (if contains_key username s.state then err already_exists else ok tt) w s
        (created username (argon.hash_password salt password) now_unix groups)

  pub mint :
      Argon2
      → (salt : ℕ) → Write
      → Store L Users
      → (username password : String) → (now_unix : ℤ) → Store L Users × Result UserError (Unit {0})
  mint argon salt w s username password now_unix =
      mint_with_groups argon salt w s username password [] now_unix

  pub revoke :
      Write → Store L Users → (username : String) → Store L Users × Result UserError (Unit {0})
  revoke w s username =
      record_checked json apply_event event_log
        (if not (contains_key username s.state) then err not_found else ok tt) w s
        (revoked username)

user_infos : Users → List UserInfo
user_infos [] = []
user_infos ((username, r) ∷ rest) =
    record {
      username = username;
      created_at_unix = r.created_at_unix;
      revoked = r.revoked;
      groups = r.groups;
    }
    ∷ user_infos rest

pub list : Users → List UserInfo
unfolding user_infos
list users = sort_by_key (λ u. u.created_at_unix) (user_infos users)

pub groups_of : Users → String → List GroupGrant
groups_of users username = elim (get username users) [ none ↦ [] | some r ↦ r.groups ]

pub exists : Users → String → Bool
exists users username = contains_key username users

-- What `authenticate` answers for the record that it finds.
pub authenticate_record : Argon2 → Option UserRecord → String → Bool
authenticate_record argon none password = false
authenticate_record argon (some r) password =
    if r.revoked then false else verify_password argon password r.password_hash

pub authenticate : Argon2 → Users → String → String → Bool
unfolding authenticate_record
authenticate argon users username password = authenticate_record argon (get username users) password
