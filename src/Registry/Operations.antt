-- ===== src/Registry/Operations.antt =====
-- The operations of `DeviceRegistry`, src/registry.rs, and calls of them.
use microtak_server.Prelude.{
  ℕ, suc, ◌+◌, ◌%◌, ◌^◌, String, not, List, [], ◌∷◌, ◌++◌, Option, none, some, Result, ok, err, ◌≡◌,
  refl, ◌==◌, string_eq, list_eq, nat_eq, any, if◌then◌else◌,
}
use microtak_server.Prelude.Bytes.{Bytes}
use microtak_server.Prelude.Int.{ℤ, int_eq}
use microtak_server.Map.{get, contains_key}
use microtak_server.EventLog.{Piece, JsonLine, Write, Store, record_checked}
use microtak_server.Registry.{
  RegistryError, not_found, already_enrolled, invalid_fingerprint, no_certificate, event_log,
  DeviceRecord, RegistryEvent, enrolled, cert_deleted, unblocked, RegistryState, empty_state,
  apply_event,
}
use microtak_server.Registry.Fingerprints.{Pki, fingerprint_sha256_colon_hex, normalize_fingerprint}

-- `revocations` is the `u64` that connections watch.
pub record DeviceRegistry (L : Type 0) : Type 0 where
  pub store : Store L RegistryState
  pub open store use *
  pub revocations : ℕ

abbrev pub empty_registry : {L : Type 0} → Option (List (Piece L)) → DeviceRegistry L
empty_registry log = record { store = record { state = empty_state; log = log }; revocations = 0 }

module _ {L : Type 0} where
  abbrev pub signal_revocation : DeviceRegistry L → DeviceRegistry L
  signal_revocation r = record r { revocations = (r.revocations + 1) % 2 ^ 64 }

  abbrev pub with_store : DeviceRegistry L → Store L RegistryState → DeviceRegistry L
  with_store r store = record { store = store; revocations = r.revocations }

  -- A store's answer, with the signal after a success.
  unfoldable pub signalled :
      DeviceRegistry L
      → Store L RegistryState × Result RegistryError (Unit {0})
      → DeviceRegistry L × Result RegistryError (Unit {0})
  signalled r (store, ok u) = (signal_revocation (with_store r store), ok u)
  signalled r (store, err e) = (with_store r store, err e)

  -- The record that enrolling returns; `none` inside is the panic of `unwrap`.
  unfoldable pub enrolled_record :
      DeviceRegistry L
      → String
      → Store L RegistryState × Result RegistryError (Unit {0})
      → DeviceRegistry L × Result RegistryError (Option DeviceRecord)
  enrolled_record r common_name (store, ok u) =
      (with_store r store, ok (get common_name store.state.devices))
  enrolled_record r common_name (store, err e) = (with_store r store, err e)

  pub signalled_store :
      (r : DeviceRegistry L) (x : Store L RegistryState × Result RegistryError (Unit {0}))
      → (signalled r x).0.store ≡ x.0
  unfolding signalled
  signalled_store r (store, ok u) = refl
  signalled_store r (store, err e) = refl

  pub signalled_answer :
      (r : DeviceRegistry L) (x : Store L RegistryState × Result RegistryError (Unit {0}))
      → (signalled r x).1 ≡ x.1
  unfolding signalled
  signalled_answer r (store, ok u) = refl
  signalled_answer r (store, err e) = refl

  -- The check of `revoke` and `unblock`.
  abbrev pub known : DeviceRegistry L → String → Result RegistryError (Unit {0})
  known r common_name =
      if not (contains_key common_name r.state.devices) then err (not_found common_name) else ok tt

module _ {L : Type 0} (json : JsonLine L RegistryEvent) where
  unfoldable pub enroll_with_client_uid :
      Write
      → DeviceRegistry L
      → (common_name cert_pem : String) → (now_unix : ℤ) → (client_uid : Option String)
      → DeviceRegistry L × Result RegistryError (Option DeviceRecord)
  unfolding enrolled_record
  enroll_with_client_uid w r common_name cert_pem now_unix client_uid =
      enrolled_record r common_name (
        record_checked json apply_event event_log (ok tt) w r.store
          (enrolled common_name cert_pem now_unix client_uid))

  unfoldable pub enroll :
      Write
      → DeviceRegistry L
      → (common_name cert_pem : String) → (now_unix : ℤ)
      → DeviceRegistry L × Result RegistryError (Option DeviceRecord)
  enroll w r common_name cert_pem now_unix =
      enroll_with_client_uid w r common_name cert_pem now_unix none

  unfoldable pub enroll_new_with_client_uid :
      Write
      → DeviceRegistry L
      → (common_name cert_pem : String) → (now_unix : ℤ) → (client_uid : Option String)
      → DeviceRegistry L × Result RegistryError (Option DeviceRecord)
  unfolding enrolled_record
  enroll_new_with_client_uid w r common_name cert_pem now_unix client_uid =
      enrolled_record r common_name (
        record_checked json apply_event event_log
          (if contains_key common_name r.state.devices
            then err (already_enrolled common_name)
            else ok tt)
          w r.store (enrolled common_name cert_pem now_unix client_uid))

  unfoldable pub enroll_new :
      Write
      → DeviceRegistry L
      → (common_name cert_pem : String) → (now_unix : ℤ)
      → DeviceRegistry L × Result RegistryError (Option DeviceRecord)
  enroll_new w r common_name cert_pem now_unix =
      enroll_new_with_client_uid w r common_name cert_pem now_unix none

  unfoldable pub revoke :
      Write → DeviceRegistry L → String → DeviceRegistry L × Result RegistryError (Unit {0})
  unfolding signalled
  revoke w r common_name = signalled r (
      record_checked json apply_event event_log (known r common_name) w r.store
        (RegistryEvent.revoked common_name))

  unfoldable pub unblock :
      Write → DeviceRegistry L → String → DeviceRegistry L × Result RegistryError (Unit {0})
  unfolding signalled
  unblock w r common_name = signalled r (
      record_checked json apply_event event_log (known r common_name) w r.store
        (unblocked common_name))

  -- The loop of `delete_certs`; each append has its own outcome, and the first failure ends it.
  unfoldable pub delete_loop :
      (ℕ → Write)
      → Store L RegistryState
      → List ℤ
      → List ℤ
      → Store L RegistryState × Result RegistryError (List ℤ)
  delete_loop ws s [] deleted = (s, ok deleted)
  delete_loop ws s (id ∷ ids) deleted =
      let skipped = delete_loop ws s ids deleted in
      let (s', r) = record_checked json apply_event event_log (ok tt) (ws 0) s (cert_deleted id) in
      let rest = delete_loop (λ n. ws (suc n)) s' ids (deleted ++ id ∷ []) in
      if any (λ c. c.id == id) s.state.certificates
      then elim r [ ok u ↦ rest | err e ↦ (s', err e) ]
      else skipped

  unfoldable pub delete_certs :
      (ℕ → Write) → DeviceRegistry L → List ℤ → DeviceRegistry L × Result RegistryError (List ℤ)
  delete_certs ws r ids =
      let (s, answer) = delete_loop ws r.store ids [] in (with_store r s, answer)

  -- `at_unix` is the clock's.
  unfoldable pub revoke_fingerprint :
      Write → DeviceRegistry L → Bytes → ℤ → DeviceRegistry L × Result RegistryError (Unit {0})
  unfolding signalled
  revoke_fingerprint w r fingerprint at_unix =
      if not (contains_key fingerprint r.state.revoked_certs)
      then signalled r (
          record_checked json apply_event event_log (ok tt) w r.store
            (RegistryEvent.cert_revoked fingerprint at_unix))
      else (signal_revocation r, ok tt)

  unfoldable pub revoke_cert :
      Write → DeviceRegistry L → Bytes → ℤ → DeviceRegistry L × Result RegistryError (Unit {0})
  revoke_cert w r fingerprint at_unix = elim (normalize_fingerprint fingerprint) [
    | none ↦ (r, err (invalid_fingerprint fingerprint))
    | some fp ↦ revoke_fingerprint w r fp at_unix
  ]

  unfoldable pub revoke_current_cert :
      Pki → Write → DeviceRegistry L → String → ℤ → DeviceRegistry L × Result RegistryError Bytes
  revoke_current_cert pki w r common_name at_unix = elim (get common_name r.state.devices) [
    | none ↦ (r, err (not_found common_name))
    | some d ↦ elim (fingerprint_sha256_colon_hex pki d.cert_pem) [
      | none ↦ (r, err (no_certificate common_name))
      | some fingerprint ↦
          let (r', answer) = revoke_cert w r fingerprint at_unix in
          (r', elim answer [ ok u ↦ ok fingerprint | err e ↦ err e ])
    ]
  ]

-- A call of the registry's interface.
pub data Call : Type 0 where
  enroll_call :
      (common_name cert_pem : String) → (now_unix : ℤ) → (client_uid : Option String) → Call
  enroll_new_call :
      (common_name cert_pem : String) → (now_unix : ℤ) → (client_uid : Option String) → Call
  revoke_call : (common_name : String) → Call
  unblock_call : (common_name : String) → Call
  delete_certs_call : (ids : List ℤ) → Call
  revoke_cert_call : (fingerprint : Bytes) → (at_unix : ℤ) → Call
  revoke_current_cert_call : (common_name : String) → (at_unix : ℤ) → Call

-- What the file system answers to the appends of the call is `ws`.
unfoldable pub run :
    {L : Type 0}
    → JsonLine L RegistryEvent
    → Pki
    → Call
    → (ℕ → Write)
    → DeviceRegistry L
    → DeviceRegistry L
run json pki (enroll_call common_name cert_pem now client_uid) ws r =
    (enroll_with_client_uid json (ws 0) r common_name cert_pem now client_uid).0
run json pki (enroll_new_call common_name cert_pem now client_uid) ws r =
    (enroll_new_with_client_uid json (ws 0) r common_name cert_pem now client_uid).0
run json pki (revoke_call common_name) ws r = (revoke json (ws 0) r common_name).0
run json pki (unblock_call common_name) ws r = (unblock json (ws 0) r common_name).0
run json pki (delete_certs_call ids) ws r = (delete_certs json ws r ids).0
run json pki (revoke_cert_call fingerprint at_unix) ws r =
    (revoke_cert json (ws 0) r fingerprint at_unix).0
run json pki (revoke_current_cert_call common_name at_unix) ws r =
    (revoke_current_cert json pki (ws 0) r common_name at_unix).0
