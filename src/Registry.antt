-- ===== src/Registry.antt =====
-- Enrolled devices and issued certificates, src/registry.rs, with the fingerprints of src/pki.rs. A
-- fingerprint is the list of its code points; SHA-256 and the PEM parser are arguments of the model.
pub mod Fingerprints
pub mod Digests
pub mod Operations
pub mod Keeps
pub mod Recorded
pub mod Blocking
pub mod Revocation
pub mod Enrollment
pub mod Durable
mod Tests
use microtak_server.Prelude.{
  ℕ, ◌+◌, String, Bool, true, false, not, ◌&&◌, List, [], ◌∷◌, ◌++◌, Option, none, some, Result, ok,
  err, ◌==◌, string_eq, list_eq, option_eq, nat_eq, any, filter, find, length, if◌then◌else◌,
  is_some,
}
use microtak_server.Prelude.Bytes.{Bytes}
use microtak_server.Prelude.Int.{ℤ, pos, add_i64, int_eq}
use microtak_server.Map.{Map, get, insert, modify, contains_key, values}
use microtak_server.EventLog.{EventLogError}
use Fingerprints.{
  Pki, fingerprint_sha256_colon_hex_der, fingerprint_sha256_colon_hex, normalize_fingerprint,
}

pub data RegistryError : Type 0 where
  not_found already_enrolled : String → RegistryError
  invalid_fingerprint : Bytes → RegistryError
  no_certificate : String → RegistryError
  event_log : EventLogError → RegistryError

pub record DeviceRecord : Type 0 where
  pub common_name : String
  pub cert_pem : String
  pub enrolled_at_unix : ℤ
  pub revoked : Bool

pub data RegistryEvent : Type 0 where
  enrolled :
      (common_name cert_pem : String) → (at_unix : ℤ) → (client_uid : Option String) → RegistryEvent
  revoked : (common_name : String) → RegistryEvent
  uid_bound : (common_name uid : String) → RegistryEvent
  cert_revoked : (fingerprint : Bytes) → (at_unix : ℤ) → RegistryEvent
  cert_deleted : (id : ℤ) → RegistryEvent
  unblocked : (common_name : String) → RegistryEvent

pub data Access : Type 0 where
  allowed blocked cert_revoked : Access

pub record CertRecord : Type 0 where
  pub id : ℤ
  pub common_name : String
  pub cert_pem : String
  pub client_uid : Option String
  pub issued_at_unix : ℤ

pub record RegistryState : Type 0 where
  pub devices : Map String DeviceRecord
  pub revoked_certs : Map Bytes ℤ
  pub certificates : List CertRecord
  pub next_cert_id : ℤ

abbrev pub empty_state : RegistryState
empty_state = record { devices = []; revoked_certs = []; certificates = []; next_cert_id = pos 0 }

-- `devices.get(common_name).is_some_and(|d| d.revoked)`
abbrev pub is_blocked : Option DeviceRecord → Bool
is_blocked none = false
is_blocked (some d) = d.revoked

abbrev pub set_revoked : Bool → DeviceRecord → DeviceRecord
set_revoked b d = record d { revoked = b }

-- `entry(fingerprint).or_insert(at_unix)`
abbrev pub or_insert : Bytes → ℤ → Map Bytes ℤ → Map Bytes ℤ
or_insert fingerprint at_unix certs =
    if contains_key fingerprint certs then certs else insert fingerprint at_unix certs

unfoldable pub apply_event : RegistryState → RegistryEvent → RegistryState
apply_event state (enrolled common_name cert_pem at_unix client_uid) =
    let id = add_i64 state.next_cert_id (pos 1) in
    let was_revoked = is_blocked (get common_name state.devices) in
    record state {
      next_cert_id = id;
      certificates =
          state.certificates
          ++ record {
            id = id;
            common_name = common_name;
            cert_pem = cert_pem;
            client_uid = client_uid;
            issued_at_unix = at_unix;
          }
            ∷ [];
      devices =
          insert common_name
            (record {
              common_name = common_name;
              cert_pem = cert_pem;
              enrolled_at_unix = at_unix;
              revoked = was_revoked;
            })
            state.devices;
    }
apply_event state (RegistryEvent.revoked common_name) = record state {
  devices = modify common_name (set_revoked true) state.devices;
}
apply_event state (uid_bound common_name uid) = state
apply_event state (RegistryEvent.cert_revoked fingerprint at_unix) = record state {
  revoked_certs = or_insert fingerprint at_unix state.revoked_certs;
}
apply_event state (cert_deleted id) = record state {
  certificates = filter (λ c. not (c.id == id)) state.certificates;
}
apply_event state (unblocked common_name) = record state {
  devices = modify common_name (set_revoked false) state.devices;
}

pub is_revoked : RegistryState → String → Bool
is_revoked state common_name = is_blocked (get common_name state.devices)

pub find_device : RegistryState → String → Option DeviceRecord
find_device state common_name = get common_name state.devices

pub all_devices : RegistryState → List DeviceRecord
all_devices state = values state.devices

-- Whether a certificate, in DER, may be used by the identity that presents it.
unfoldable pub access : Pki → RegistryState → String → Bytes → Access
access pki state common_name cert_der =
    if is_blocked (get common_name state.devices)
    then blocked
    else if contains_key (fingerprint_sha256_colon_hex_der pki cert_der) state.revoked_certs
    then Access.cert_revoked
    else allowed

pub is_cert_revoked : RegistryState → Bytes → Bool
is_cert_revoked state fingerprint = elim (normalize_fingerprint fingerprint) [
  | none ↦ false
  | some fp ↦ contains_key fp state.revoked_certs
]

pub cert_revoked_at : RegistryState → Bytes → Option ℤ
cert_revoked_at state fingerprint = elim (normalize_fingerprint fingerprint) [
  | none ↦ none
  | some fp ↦ get fp state.revoked_certs
]

pub revoked_cert_count : RegistryState → ℕ
revoked_cert_count state = length state.revoked_certs

-- `iter().rev().find(..)`: the last that passes.
abbrev pub rfind : {A : Type 0} → (A → Bool) → List A → Option A
rfind p [] = none
rfind p (x ∷ xs) =
    let later = rfind p xs in elim later [ some y ↦ some y | none ↦ if p x then some x else none ]

pub enrolled_client_uid : Pki → RegistryState → Bytes → Option (Option String)
enrolled_client_uid pki state cert_der =
    elim (rfind
      (λ c.
        fingerprint_sha256_colon_hex pki c.cert_pem
        == some (fingerprint_sha256_colon_hex_der pki cert_der))
      state.certificates) [ none ↦ none | some c ↦ some c.client_uid ]

unfoldable pub other_owner_of_enrolled_uid : RegistryState → String → Option String → Option String
other_owner_of_enrolled_uid state uid mine =
    if mine == some uid
    then none
    else elim (find
        (λ c. c.client_uid == some uid && not (is_blocked (get c.common_name state.devices)))
        state.certificates) [ none ↦ none | some c ↦ some c.common_name ]
