-- ===== src/Registry/Keeps.antt =====
-- What every event keeps, every call of src/registry.rs keeps.
use microtak_server.Prelude.{
  ℕ, suc, String, List, [], ◌∷◌, ◌++◌, Result, ok, err, ◌==◌, string_eq, nat_eq, list_eq, any,
  Bool-cases, Option-cases, inl, inr,
}
use microtak_server.Prelude.Bytes.{Bytes}
use microtak_server.Prelude.Int.{ℤ, int_eq}
use microtak_server.Map.{get, contains_key}
use microtak_server.EventLog.{JsonLine, Write, Store, record_checked}
use microtak_server.Registry.{
  RegistryError, event_log, RegistryEvent, enrolled, cert_deleted, unblocked, RegistryState,
  apply_event,
}
use microtak_server.Registry.Fingerprints.{Pki, normalize_fingerprint, fingerprint_sha256_colon_hex}
use microtak_server.Registry.Operations.{
  DeviceRegistry, signalled, enrolled_record, enroll_with_client_uid, enroll_new_with_client_uid,
  known, revoke, unblock, delete_loop, delete_certs, revoke_fingerprint, revoke_cert,
  revoke_current_cert, Call, enroll_call, enroll_new_call, revoke_call, unblock_call,
  delete_certs_call, revoke_cert_call, revoke_current_cert_call, run,
}

-- What is asked of the events that a call may record.
abbrev pub Records : (RegistryEvent → Type 0) → Call → Type 0
Records Q (enroll_call common_name cert_pem now uid) = Q (enrolled common_name cert_pem now uid)
Records Q (enroll_new_call common_name cert_pem now uid) = Q (enrolled common_name cert_pem now uid)
Records Q (revoke_call common_name) = Q (RegistryEvent.revoked common_name)
Records Q (unblock_call common_name) = Q (unblocked common_name)
Records Q (delete_certs_call ids) = (id : ℤ) → Q (cert_deleted id)
Records Q (revoke_cert_call fingerprint at_unix) =
    (fp : Bytes) → Q (RegistryEvent.cert_revoked fp at_unix)
Records Q (revoke_current_cert_call common_name at_unix) =
    (fp : Bytes) → Q (RegistryEvent.cert_revoked fp at_unix)

module _ {L : Type 0} (json : JsonLine L RegistryEvent) (pki : Pki)
    (P : Store L RegistryState → Type 0) (Q : RegistryEvent → Type 0) (W : Write → Type 0)
    (step : (checks : Result RegistryError (Unit {0})) (w : Write) (s : Store L RegistryState)
        (e : RegistryEvent)
      → W w
      → Q e
      → P s
      → P (record_checked json apply_event event_log checks w s e).0) where
  keeps-signalled :
      (r : DeviceRegistry L) (x : Store L RegistryState × Result RegistryError (Unit {0}))
      → P x.0
      → P (signalled r x).0.store
  unfolding signalled
  keeps-signalled r (s, ok u) p = p
  keeps-signalled r (s, err e) p = p

  keeps-enrolled_record :
      (r : DeviceRegistry L) (common_name : String)
      (x : Store L RegistryState × Result RegistryError (Unit {0}))
      → P x.0
      → P (enrolled_record r common_name x).0.store
  unfolding enrolled_record
  keeps-enrolled_record r common_name (s, ok u) p = p
  keeps-enrolled_record r common_name (s, err e) p = p

  either :
      (r : Result RegistryError (Unit {0})) (s : Store L RegistryState)
      (y : Store L RegistryState × Result RegistryError (List ℤ))
      → P s
      → P y.0
      → P
          (elim r as (λ _. Store L RegistryState × Result RegistryError (List ℤ)) [
            | ok u ↦ y
            | err e ↦ (s, err e)
          ]).0
  either (ok u) s y p q = q
  either (err e) s y p q = p

  keeps-delete_loop :
      (ws : ℕ → Write) (s : Store L RegistryState) (ids deleted : List ℤ)
      → ((n : ℕ) → W (ws n))
      → ((id : ℤ) → Q (cert_deleted id))
      → P s
      → P (delete_loop json ws s ids deleted).0
  unfolding delete_loop
  keeps-delete_loop ws s [] deleted wok qok p = p
  keeps-delete_loop ws s (id ∷ ids) deleted wok qok p =
      let (s', r) = record_checked json apply_event event_log (ok tt) (ws 0) s (cert_deleted id) in
      let p' = step (ok tt) (ws 0) s (cert_deleted id) (wok 0) (qok id) p in
      elim (Bool-cases (any (λ c. c.id == id) s.state.certificates)) [
        | inl there ↦ rw there (
            either r s' (delete_loop json (λ n. ws (suc n)) s' ids (deleted ++ id ∷ [])) p' (
              keeps-delete_loop (λ n. ws (suc n)) s' ids (deleted ++ id ∷ []) (λ n. wok (suc n)) qok
                p'))
        | inr absent ↦ rw absent (keeps-delete_loop ws s ids deleted wok qok p)
      ]

  keeps-revoke_fingerprint :
      (w : Write) (r : DeviceRegistry L) (fp : Bytes) (at_unix : ℤ)
      → W w
      → Q (RegistryEvent.cert_revoked fp at_unix)
      → P r.store
      → P (revoke_fingerprint json w r fp at_unix).0.store
  unfolding revoke_fingerprint
  keeps-revoke_fingerprint w r fp at_unix wok q p =
      elim (Bool-cases (contains_key fp r.state.revoked_certs)) [
        | inl there ↦ rw there p
        | inr absent ↦ rw absent (
            keeps-signalled r _
              (step (ok tt) w r.store (RegistryEvent.cert_revoked fp at_unix) wok q p))
      ]

  keeps-revoke_cert :
      (w : Write) (r : DeviceRegistry L) (fingerprint : Bytes) (at_unix : ℤ)
      → W w
      → ((fp : Bytes) → Q (RegistryEvent.cert_revoked fp at_unix))
      → P r.store
      → P (revoke_cert json w r fingerprint at_unix).0.store
  unfolding revoke_cert
  keeps-revoke_cert w r fingerprint at_unix wok qok p =
      elim (Option-cases (normalize_fingerprint fingerprint)) [
        | inl bad ↦ rw (bad, revoke_cert) p
        | inr (fp, good) ↦
            rw (good, revoke_cert) (keeps-revoke_fingerprint w r fp at_unix wok (qok fp) p)
      ]

  keeps-revoke_current_cert :
      (w : Write) (r : DeviceRegistry L) (common_name : String) (at_unix : ℤ)
      → W w
      → ((fp : Bytes) → Q (RegistryEvent.cert_revoked fp at_unix))
      → P r.store
      → P (revoke_current_cert json pki w r common_name at_unix).0.store
  unfolding revoke_current_cert
  keeps-revoke_current_cert w r common_name at_unix wok qok p =
      elim (Option-cases (get common_name r.state.devices)) [
        | inl missing ↦ rw (missing, revoke_current_cert) p
        | inr (d, there) ↦ elim (Option-cases (fingerprint_sha256_colon_hex pki d.cert_pem)) [
          | inl bad ↦ rw (there, bad, revoke_current_cert) p
          | inr (fp, good) ↦
              rw (there, good, revoke_current_cert) (keeps-revoke_cert w r fp at_unix wok qok p)
        ]
      ]

  -- One call keeps what its events keep.
  pub run-keeps :
      (c : Call) (ws : ℕ → Write) (r : DeviceRegistry L)
      → ((n : ℕ) → W (ws n))
      → Records Q c
      → P r.store
      → P (run json pki c ws r).store
  unfolding run enroll_with_client_uid enroll_new_with_client_uid revoke unblock delete_certs
  run-keeps (enroll_call common_name cert_pem now uid) ws r wok q p =
      keeps-enrolled_record r common_name _ (step (ok tt) (ws 0) r.store _ (wok 0) q p)
  run-keeps (enroll_new_call common_name cert_pem now uid) ws r wok q p =
      keeps-enrolled_record r common_name _ (step _ (ws 0) r.store _ (wok 0) q p)
  run-keeps (revoke_call common_name) ws r wok q p =
      keeps-signalled r _ (step (known r common_name) (ws 0) r.store _ (wok 0) q p)
  run-keeps (unblock_call common_name) ws r wok q p =
      keeps-signalled r _ (step (known r common_name) (ws 0) r.store _ (wok 0) q p)
  run-keeps (delete_certs_call ids) ws r wok q p = keeps-delete_loop ws r.store ids [] wok q p
  run-keeps (revoke_cert_call fingerprint at_unix) ws r wok q p =
      keeps-revoke_cert (ws 0) r fingerprint at_unix (wok 0) q p
  run-keeps (revoke_current_cert_call common_name at_unix) ws r wok q p =
      keeps-revoke_current_cert (ws 0) r common_name at_unix (wok 0) q p
