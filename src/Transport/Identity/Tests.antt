-- ===== src/Transport/Identity/Tests.antt =====
-- The properties of src/transport/identity.rs at concrete events.
use microtak_server.Prelude.{false, [], ◌∷◌, none, some, ◌≡◌, ◌↔◌, refl, any, string_eq}
use microtak_server.Prelude.Int.{pos}
use microtak_server.Map.{get}
use microtak_server.Registry.{RegistryState, empty_state, other_owner_of_enrolled_uid}
use microtak_server.Cot.{Event, producer_uids, is_situational_awareness}
use microtak_server.Transport.Identity.{
  validate_client_uid, impersonation, is_anothers, impersonation_exact, no_client_uid,
  other_client_uid, belongs_to, relay, drop, disconnect,
}

-- The certificate of `alpha` is enrolled for `ANDROID-1`.
abbrev registry : RegistryState
registry = record empty_state {
  devices =
      (
        "alpha",
        record {
          common_name = "alpha";
          cert_pem = "c1";
          enrolled_at_unix = pos 1;
          revoked = false;
        },
      )
      ∷ [];
  certificates =
      record {
        id = pos 1;
        common_name = "alpha";
        cert_pem = "c1";
        client_uid = some "ANDROID-1";
        issued_at_unix = pos 1;
      }
      ∷ [];
}

abbrev sa : Event
sa = record {
  version = "2.0";
  uid = "ANDROID-1";
  cot_type = "a-f-G-U-C";
  how = "m-g";
  time = "";
  start = "";
  stale = "";
  detail = some (record {
    contact = some (record { callsign = some "alpha"; endpoint = some "*:-1:stcp" });
    chat = none;
    marti = none;
    remarks = none;
    links = [];
  });
}

impersonation_exact_example :
    (impersonation registry (some "ANDROID-2") sa ≡ relay)
    ↔ (any (is_anothers registry (some "ANDROID-2")) (sa.uid ∷ producer_uids sa) ≡ false)
impersonation_exact_example = impersonation_exact registry (some "ANDROID-2") sa

verdicts :
    (impersonation registry (some "ANDROID-2") sa ≡ drop (belongs_to "ANDROID-1" "alpha"))
    × (impersonation registry (some "ANDROID-1") sa ≡ relay)
    × (impersonation registry none (record sa { uid = "marker" }) ≡ relay)
    × (validate_client_uid (some (some "ANDROID-2")) sa
        ≡ disconnect (other_client_uid "ANDROID-1" "ANDROID-2"))
    × (validate_client_uid (some none) sa ≡ drop no_client_uid)
    × (validate_client_uid none sa ≡ relay)
unfolding impersonation other_owner_of_enrolled_uid producer_uids get validate_client_uid
    is_situational_awareness
verdicts = (refl, refl, refl, refl, refl, refl)
