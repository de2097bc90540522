-- ===== src/Registry/Tests.antt =====
-- The properties of src/registry.rs and src/pki.rs at concrete devices.
use microtak_server.Prelude.{
  true, err, ℕ, ◌+◌, ◌%◌, ◌<◌, false, List, [], ◌∷◌, Option, none, some, ok, ◌≡◌, ◌≢◌, refl, arith,
  All, string_eq, list_eq, nat_eq,
}
use microtak_server.Prelude.Int.{add_i64, ◌+ℤ◌, pos}
use microtak_server.Prelude.Bytes.{Bytes, codes}
use microtak_server.Map.{insert, get}
use microtak_server.Registry.Operations.{
  enrolled_record, enroll, enroll_new, DeviceRegistry, revoke, revoke_cert, revoke_fingerprint,
  revoke_current_cert, signalled, enroll_with_client_uid, enroll_new_with_client_uid, Call,
  enroll_call, delete_certs_call, run,
}
use microtak_server.Registry.{
  RegistryState, already_enrolled, enrolled_client_uid, other_owner_of_enrolled_uid,
  cert_revoked_at, revoked_cert_count, is_cert_revoked, find_device, all_devices, is_revoked,
  DeviceRecord, RegistryEvent, empty_state, apply_event, allowed, blocked, access,
}
use microtak_server.EventLog.{
  JsonLine, Write, synced, record_checked, answer, commit, commit_log, append, applied,
}
use microtak_server.EventLog.Calls.{run_all}
use microtak_server.EventLog.Sample.{plain_lines}
use microtak_server.Registry.Fingerprints.{
  Pki, fingerprint_sha256_colon_hex_der, fingerprint_sha256_colon_hex, normalize_fingerprint, join,
  hex_pairs, hex_pair, hex_digit, is_ascii_hexdigit, to_ascii_uppercase, upper, chunks2,
}
use microtak_server.Registry.Digests.{normalize-fingerprint}
use microtak_server.Registry.Blocking.{revoke_blocks}
use microtak_server.Registry.Revocation.{
  OnlyRevokes, revoke_cert_for_good, revoke_current_cert_for_good,
}
use microtak_server.Registry.Enrollment.{enroll_new_never_replaces}

abbrev json : JsonLine (Option RegistryEvent) RegistryEvent
json = plain_lines RegistryEvent

abbrev sum : Bytes → ℕ
sum [] = 0
sum (b ∷ bytes) = b + sum bytes

digest_bytes :
    (der : Bytes)
    → All
        (λ b. b < 256)
        (sum der % 256
          ∷ 0
          ∷ 1
          ∷ 2
          ∷ 3
          ∷ 4
          ∷ 5
          ∷ 6
          ∷ 7
          ∷ 8
          ∷ 9
          ∷ 10
          ∷ 11
          ∷ 12
          ∷ 13
          ∷ 14
          ∷ 15
          ∷ 16
          ∷ 17
          ∷ 18
          ∷ 19
          ∷ 20
          ∷ 21
          ∷ 22
          ∷ 23
          ∷ 24
          ∷ 25
          ∷ 26
          ∷ 27
          ∷ 28
          ∷ 29
          ∷ 255
          ∷ [])
digest_bytes der = ground arith

-- A digest that is a check sum, and a certificate whose PEM is its DER.
abbrev toy : Pki
toy = record {
  cert_pem_to_der = λ pem. some (codes pem);
  sha256 = λ der.
      sum der % 256
      ∷ 0
      ∷ 1
      ∷ 2
      ∷ 3
      ∷ 4
      ∷ 5
      ∷ 6
      ∷ 7
      ∷ 8
      ∷ 9
      ∷ 10
      ∷ 11
      ∷ 12
      ∷ 13
      ∷ 14
      ∷ 15
      ∷ 16
      ∷ 17
      ∷ 18
      ∷ 19
      ∷ 20
      ∷ 21
      ∷ 22
      ∷ 23
      ∷ 24
      ∷ 25
      ∷ 26
      ∷ 27
      ∷ 28
      ∷ 29
      ∷ 255
      ∷ [];
  length-sha256 = λ der. refl;
  sha256_bytes = digest_bytes;
}

abbrev device : DeviceRecord
device = record { common_name = "a"; cert_pem = "cert"; enrolled_at_unix = pos 1; revoked = false }

abbrev registry : DeviceRegistry (Option RegistryEvent)
registry = record {
  store = record { state = record empty_state { devices = ("a", device) ∷ [] }; log = some [] };
  revocations = 0;
}

revoke_a : (revoke json synced registry "a").1 ≡ ok tt
unfolding revoke signalled record_checked answer commit commit_log append applied get
revoke_a = refl

abbrev printed : Bytes
printed = fingerprint_sha256_colon_hex_der toy (codes "cert")

revoke_printed : (revoke_cert json synced registry printed (pos 2)).1 ≡ ok tt
unfolding revoke_cert revoke_fingerprint signalled record_checked answer commit commit_log append
    applied get normalize_fingerprint fingerprint_sha256_colon_hex_der join hex_pairs hex_pair
    hex_digit is_ascii_hexdigit to_ascii_uppercase upper chunks2
revoke_printed = refl

revoke_current : (revoke_current_cert json toy synced registry "a" (pos 2)).1 ≡ ok printed
unfolding revoke_current_cert revoke_cert revoke_fingerprint signalled record_checked answer commit
    commit_log append applied get normalize_fingerprint fingerprint_sha256_colon_hex
    fingerprint_sha256_colon_hex_der join hex_pairs hex_pair hex_digit is_ascii_hexdigit
    to_ascii_uppercase upper chunks2
revoke_current = refl

abbrev ready : ℕ → Write
ready n = synced

abbrev later : List (Call × (ℕ → Write))
later = (enroll_call "a" "new" (pos 3) none, ready) ∷ (delete_certs_call (pos 1 ∷ []), ready) ∷ []

revoke_blocks_example :
    access toy
      (run_all (run json toy) later (revoke json synced registry "a").0).state
      "a"
      (codes "new")
    ≡ blocked
revoke_blocks_example =
    revoke_blocks json toy synced registry "a" revoke_a later (refl, (refl, tt)) (codes "new")

revoke_cert_for_good_example :
    access toy
      (run_all (run json toy) later (revoke_cert json synced registry printed (pos 2)).0).state
      "a"
      (codes "cert")
    ≢ allowed
revoke_cert_for_good_example =
    revoke_cert_for_good json toy synced registry (codes "cert") printed (pos 2)
      (normalize-fingerprint toy (codes "cert")) revoke_printed later "a"

revoke_current_cert_for_good_example :
    (printed ≡ printed)
    × (access toy
          (run_all
            (run json toy)
            later
            (revoke_current_cert json toy synced registry "a" (pos 2)).0).state
          "b"
          (codes "cert")
        ≢ allowed)
    × OnlyRevokes printed registry.state
        (revoke_current_cert json toy synced registry "a" (pos 2)).0.state
unfolding get
revoke_current_cert_for_good_example =
    revoke_current_cert_for_good json toy synced registry "a" printed (pos 2) device refl
      (codes "cert") refl revoke_current later "b"

enroll_new_never_replaces_example :
    get "a" (enroll_new_with_client_uid json synced registry "a" "new" (pos 3) none).0.state.devices
    ≡ some device
unfolding get
enroll_new_never_replaces_example =
    enroll_new_never_replaces json synced registry "a" "new" (pos 3) none "a" device refl

enroll_again :
    ((enroll_new json synced registry "a" "new" (pos 3)).1 ≡ err (already_enrolled "a"))
    × ((enroll json synced registry "a" "new" (pos 3)).1
        ≡ ok (
            some (record {
              common_name = "a";
              cert_pem = "new";
              enrolled_at_unix = pos 3;
              revoked = false;
            })))
unfolding enroll_new enroll_new_with_client_uid enroll enroll_with_client_uid enrolled_record
    record_checked answer commit commit_log append applied apply_event insert get add_i64 ◌+ℤ◌
enroll_again = (refl, refl)

-- A registry with a certificate that was enrolled for a uid, and that is revoked.
abbrev with_cert : RegistryState
with_cert = record registry.state {
  certificates =
      record {
        id = pos 1;
        common_name = "a";
        cert_pem = "cert";
        client_uid = some "ANDROID-1";
        issued_at_unix = pos 1;
      }
      ∷ [];
  revoked_certs = (printed, pos 7) ∷ [];
}

cert_queries :
    (enrolled_client_uid toy with_cert (codes "cert") ≡ some (some "ANDROID-1"))
    × (enrolled_client_uid toy with_cert (codes "other") ≡ none)
    × (other_owner_of_enrolled_uid with_cert "ANDROID-1" none ≡ some "a")
    × (other_owner_of_enrolled_uid with_cert "ANDROID-1" (some "ANDROID-1") ≡ none)
unfolding enrolled_client_uid other_owner_of_enrolled_uid fingerprint_sha256_colon_hex
    fingerprint_sha256_colon_hex_der join hex_pairs hex_pair hex_digit get
cert_queries = (refl, refl, refl, refl)

revocation_queries :
    (is_cert_revoked with_cert printed ≡ true)
    × (cert_revoked_at with_cert printed ≡ some (pos 7))
    × (revoked_cert_count with_cert ≡ 1)
    × (is_revoked with_cert "a" ≡ false)
    × (find_device with_cert "a" ≡ some device)
    × (all_devices with_cert ≡ device ∷ [])
unfolding is_cert_revoked cert_revoked_at revoked_cert_count is_revoked find_device all_devices
    normalize_fingerprint fingerprint_sha256_colon_hex_der join hex_pairs hex_pair hex_digit
    is_ascii_hexdigit to_ascii_uppercase upper chunks2 get
revocation_queries = (refl, refl, refl, refl, refl, refl)
