-- ===== src/Registry/Revocation.antt =====
-- Revoked certificates of src/registry.rs stay shut out.
use mathlib.Core.Path.{subst}
use microtak_server.Prelude.{
  ℕ, sym, ap, eq_refl, ◌∙◌, String, Bool, true, false, not, List, some, Result, ok, err, ◌≡◌, ◌≢◌,
  ◌==◌, string_eq, list_eq, nat_eq, inl, inr, refl, string_eq, arith, if◌then◌else◌, Bool-cases,
  list_eq, nat_eq,
}
use microtak_server.Prelude.Bytes.{Bytes}
use microtak_server.Prelude.Int.{ℤ}
use microtak_server.Map.{get, contains_key}
use microtak_server.Map.Laws.{get-insert}
use microtak_server.EventLog.{JsonLine, Write, record_checked}
use microtak_server.EventLog.Calls.{always, run_all, run_all-keeps}
use microtak_server.EventLog.Checked.{record_checked_state}
use microtak_server.Registry.{
  RegistryError, event_log, DeviceRecord, RegistryEvent, enrolled, uid_bound, cert_deleted,
  unblocked, RegistryState, apply_event, allowed, access,
}
use microtak_server.Registry.Fingerprints.{
  Pki, normalize_fingerprint, fingerprint_sha256_colon_hex, fingerprint_sha256_colon_hex_der,
}
use microtak_server.Registry.Digests.{normalize-fingerprint}
use microtak_server.Registry.Keeps.{Records, run-keeps}
use microtak_server.Registry.Operations.{
  DeviceRegistry, signalled, signalled_store, signalled_answer, signal_revocation,
  revoke_current_cert, revoke_cert, revoke_fingerprint, Call, enroll_call, enroll_new_call,
  revoke_call, unblock_call, delete_certs_call, revoke_cert_call, revoke_current_cert_call, run,
}
use microtak_server.Registry.Recorded.{recorded_keeps}

apply_event-revoked_cert :
    (fp : Bytes) (s : RegistryState) (e : RegistryEvent)
    → contains_key fp s.revoked_certs ≡ true
    → contains_key fp (apply_event s e).revoked_certs ≡ true
unfolding apply_event
apply_event-revoked_cert fp s (enrolled other cert_pem now uid) b = b
apply_event-revoked_cert fp s (RegistryEvent.revoked other) b = b
apply_event-revoked_cert fp s (uid_bound other uid) b = b
apply_event-revoked_cert fp s (RegistryEvent.cert_revoked other at_unix) b =
    ground (arith, get-insert other fp at_unix s.revoked_certs)
apply_event-revoked_cert fp s (cert_deleted id) b = b
apply_event-revoked_cert fp s (unblocked other) b = b

revoked_cert_now :
    (fp : Bytes) (at_unix : ℤ) (s : RegistryState)
    → contains_key fp (apply_event s (RegistryEvent.cert_revoked fp at_unix)).revoked_certs ≡ true
unfolding apply_event
revoked_cert_now fp at_unix s = ground (arith, get-insert fp fp at_unix s.revoked_certs, eq_refl fp)

-- What the revocation of one certificate leaves as it was: every other revocation, the devices with
-- their blocks, and the certificates.
abbrev pub OnlyRevokes : Bytes → RegistryState → RegistryState → Type 0
OnlyRevokes fp before after =
    ((f : Bytes) → (fp == f) ≡ false → get f after.revoked_certs ≡ get f before.revoked_certs)
    × (after.devices ≡ before.devices)
    × (after.certificates ≡ before.certificates)

OnlyRevokes-cert_revoked :
    (fp : Bytes) (at_unix : ℤ) (s : RegistryState)
    → OnlyRevokes fp s (apply_event s (RegistryEvent.cert_revoked fp at_unix))
unfolding apply_event
OnlyRevokes-cert_revoked fp at_unix s =
    (λ f other. ground (arith, get-insert fp f at_unix s.revoked_certs), refl, refl)

module _ {L : Type 0} (json : JsonLine L RegistryEvent) (pki : Pki) where
  run-revoked_cert :
      (fp : Bytes) (c : Call) (ws : ℕ → Write) (r : DeviceRegistry L)
      → contains_key fp r.state.revoked_certs ≡ true
      → contains_key fp (run json pki c ws r).state.revoked_certs ≡ true
  run-revoked_cert fp c ws r b =
      run-keeps json pki (λ s. contains_key fp s.state.revoked_certs ≡ true) (λ e. Unit {0})
        (λ w. Unit {0})
        (recorded_keeps json (λ s. contains_key fp s.revoked_certs ≡ true) (λ e. Unit {0})
          (λ s e u. apply_event-revoked_cert fp s e))
        c ws r (λ n. tt) (records c) b
    where
      records : (c : Call) → Records (λ e. Unit {0}) c
      records (enroll_call other cert_pem now uid) = tt
      records (enroll_new_call other cert_pem now uid) = tt
      records (revoke_call other) = tt
      records (unblock_call other) = tt
      records (delete_certs_call ids) = λ id. tt
      records (revoke_cert_call fp at_unix) = λ fp. tt
      records (revoke_current_cert_call other at_unix) = λ fp. tt

  kept_cert :
      (fp : Bytes) (calls : List (Call × (ℕ → Write))) (r : DeviceRegistry L)
      → contains_key fp r.state.revoked_certs ≡ true
      → contains_key fp (run_all (run json pki) calls r).state.revoked_certs ≡ true
  kept_cert fp calls r b =
      run_all-keeps (run json pki) (λ r. contains_key fp r.state.revoked_certs ≡ true)
        (λ c ws. Unit {0}) (λ c ws r u. run-revoked_cert fp c ws r) calls r (always calls) b

  access_refused :
      (s : RegistryState) (common_name : String) (cert_der : Bytes)
      → contains_key (fingerprint_sha256_colon_hex_der pki cert_der) s.revoked_certs ≡ true
      → access pki s common_name cert_der ≢ allowed
  unfolding access
  access_refused s common_name cert_der h = ground arith

  recorded_cert :
      (w : Write) (r : DeviceRegistry L) (fp : Bytes) (at_unix : ℤ)
      → (signalled r (
          record_checked json apply_event event_log
            (ok tt)
            w
            r.store
            (RegistryEvent.cert_revoked fp at_unix))).1
        ≡ ok tt
      → contains_key fp
          (signalled r (
            record_checked json apply_event event_log
              (ok tt)
              w
              r.store
              (RegistryEvent.cert_revoked fp at_unix))).0.state.revoked_certs
        ≡ true
  recorded_cert w r fp at_unix h =
      let e = RegistryEvent.cert_revoked fp at_unix in
      let x = record_checked json apply_event event_log (ok tt) w r.store e in
      elim (record_checked_state json apply_event event_log (ok tt) w r.store e) [
        | inl (answer, checked, state) ↦
            rw (signalled_store r x, state) (revoked_cert_now fp at_unix r.state)
        | inr (refusal, state) ↦ absurd (refusal (sym (signalled_answer r x) ∙ h))
      ]

  revoke_fingerprint_ok :
      (w : Write) (r : DeviceRegistry L) (fp : Bytes) (at_unix : ℤ)
      → (revoke_fingerprint json w r fp at_unix).1 ≡ ok tt
      → contains_key fp (revoke_fingerprint json w r fp at_unix).0.state.revoked_certs ≡ true
  unfolding revoke_fingerprint
  revoke_fingerprint_ok w r fp at_unix h =
      elim (Bool-cases (contains_key fp r.state.revoked_certs)) [
        | inl there ↦ rw there there
        | inr absent ↦ rw absent (recorded_cert w r fp at_unix (subst answers absent h))
      ]
    where
      answers : Bool → Type 0
      answers b =
          (if not b
            then signalled r (
                record_checked json apply_event event_log (ok tt) w r.store
                  (RegistryEvent.cert_revoked fp at_unix))
            else (signal_revocation r, ok tt)).1
          ≡ ok tt

  revoke_cert_ok :
      (w : Write) (r : DeviceRegistry L) (fingerprint fp : Bytes) (at_unix : ℤ)
      → normalize_fingerprint fingerprint ≡ some fp
      → (revoke_cert json w r fingerprint at_unix).1 ≡ ok tt
      → contains_key fp (revoke_cert json w r fingerprint at_unix).0.state.revoked_certs ≡ true
  revoke_cert_ok w r fingerprint fp at_unix good h =
      let same : revoke_cert json w r fingerprint at_unix ≡ revoke_fingerprint json w r fp at_unix =
        unfold revoke_cert in rw (good, revoke_cert) refl in
      rw same (revoke_fingerprint_ok w r fp at_unix (sym (ap (λ x. x.1) same) ∙ h))

  OnlyRevokes-recorded :
      (w : Write) (r : DeviceRegistry L) (fp : Bytes) (at_unix : ℤ)
      → OnlyRevokes fp r.state
          (signalled r (
            record_checked json apply_event event_log
              (ok tt)
              w
              r.store
              (RegistryEvent.cert_revoked fp at_unix))).0.state
  OnlyRevokes-recorded w r fp at_unix =
      let e = RegistryEvent.cert_revoked fp at_unix in
      let x = record_checked json apply_event event_log (ok tt) w r.store e in
      rw (signalled_store r x)
        (elim (record_checked_state json apply_event event_log (ok tt) w r.store e) [
          | inl (answer, checked, state) ↦ rw state (OnlyRevokes-cert_revoked fp at_unix r.state)
          | inr (refusal, state) ↦ rw state (λ f other. refl, refl, refl)
        ])

  OnlyRevokes-revoke_fingerprint :
      (w : Write) (r : DeviceRegistry L) (fp : Bytes) (at_unix : ℤ)
      → OnlyRevokes fp r.state (revoke_fingerprint json w r fp at_unix).0.state
  unfolding revoke_fingerprint
  OnlyRevokes-revoke_fingerprint w r fp at_unix =
      elim (Bool-cases (contains_key fp r.state.revoked_certs)) [
        | inl there ↦ rw there (λ f other. refl, refl, refl)
        | inr absent ↦ rw absent (OnlyRevokes-recorded w r fp at_unix)
      ]

  OnlyRevokes-revoke_cert :
      (w : Write) (r : DeviceRegistry L) (fingerprint fp : Bytes) (at_unix : ℤ)
      → normalize_fingerprint fingerprint ≡ some fp
      → OnlyRevokes fp r.state (revoke_cert json w r fingerprint at_unix).0.state
  OnlyRevokes-revoke_cert w r fingerprint fp at_unix good =
      let same : revoke_cert json w r fingerprint at_unix ≡ revoke_fingerprint json w r fp at_unix =
        unfold revoke_cert in rw (good, revoke_cert) refl in
      rw same (OnlyRevokes-revoke_fingerprint w r fp at_unix)

  -- A certificate that is revoked is refused for good, to every identity that presents it: no later
  -- call lets it in again, neither an unblock nor the deletion of its row.
  pub revoke_cert_for_good :
      (w : Write) (r : DeviceRegistry L) (cert_der : Bytes) (fingerprint : Bytes) (at_unix : ℤ)
      → normalize_fingerprint fingerprint ≡ some (fingerprint_sha256_colon_hex_der pki cert_der)
      → (revoke_cert json w r fingerprint at_unix).1 ≡ ok tt
      → (calls : List (Call × (ℕ → Write))) (common_name : String)
      → access pki
          (run_all (run json pki) calls (revoke_cert json w r fingerprint at_unix).0).state
          common_name
          cert_der
        ≢ allowed
  revoke_cert_for_good w r cert_der fingerprint at_unix good h calls common_name =
      let fp = fingerprint_sha256_colon_hex_der pki cert_der in
      access_refused
        (run_all (run json pki) calls (revoke_cert json w r fingerprint at_unix).0).state
        common_name cert_der
        (kept_cert fp calls (revoke_cert json w r fingerprint at_unix).0
          (revoke_cert_ok w r fingerprint fp at_unix good h))

  -- The answer of `revoke_current_cert` from that of `revoke_cert`.
  abbrev named : Bytes → Result RegistryError (Unit {0}) → Result RegistryError Bytes
  named fingerprint answer = elim answer [ ok u ↦ ok fingerprint | err e ↦ err e ]

  named_ok :
      (fingerprint fp : Bytes) (answer : Result RegistryError (Unit {0}))
      → named fingerprint answer ≡ ok fp
      → (answer ≡ ok tt) × (fingerprint ≡ fp)
  named_ok fingerprint fp (ok u) h = ground arith
  named_ok fingerprint fp (err e) h = cc

  printed_fingerprint :
      (cert_pem : String) (cert_der : Bytes)
      → pki.cert_pem_to_der cert_pem ≡ some cert_der
      → fingerprint_sha256_colon_hex pki cert_pem
        ≡ some (fingerprint_sha256_colon_hex_der pki cert_der)
  unfolding fingerprint_sha256_colon_hex
  printed_fingerprint cert_pem cert_der readable = rw (readable, fingerprint_sha256_colon_hex) refl

  current_revoked :
      (w : Write) (r : DeviceRegistry L) (common_name : String) (fp : Bytes) (at_unix : ℤ)
      → (d : DeviceRecord) → get common_name r.state.devices ≡ some d
      → (cert_der : Bytes) → pki.cert_pem_to_der d.cert_pem ≡ some cert_der
      → (revoke_current_cert json pki w r common_name at_unix).1 ≡ ok fp
      → (fp ≡ fingerprint_sha256_colon_hex_der pki cert_der)
        × (contains_key fp
              (revoke_current_cert json pki w r common_name at_unix).0.state.revoked_certs
            ≡ true)
        × OnlyRevokes fp r.state (revoke_current_cert json pki w r common_name at_unix).0.state
  current_revoked w r common_name fp at_unix d there cert_der readable h =
      let printed = fingerprint_sha256_colon_hex_der pki cert_der in
      let x = revoke_cert json w r printed at_unix in
      let same : revoke_current_cert json pki w r common_name at_unix ≡ (x.0, named printed x.1) =
        unfold revoke_current_cert in
        rw (there, printed_fingerprint d.cert_pem cert_der readable, revoke_current_cert) refl in
      let (done, is_fp) = named_ok printed fp x.1 (sym (ap (λ y. y.1) same) ∙ h) in
      (
        sym is_fp,
        rw (same, ← is_fp)
            (revoke_cert_ok w r printed printed at_unix (normalize-fingerprint pki cert_der) done),
        rw (same, ← is_fp)
            (OnlyRevokes-revoke_cert w r printed printed at_unix
              (normalize-fingerprint pki cert_der)),
      )

  -- Revoking the certificate that an identity holds revokes exactly that one: its fingerprint is the
  -- answer, and from then on it is refused, whoever presents it and whatever calls come later. The
  -- revocation of every other certificate, every device with its block and the list of the
  -- certificates are as they were before the call.
  pub revoke_current_cert_for_good :
      (w : Write) (r : DeviceRegistry L) (common_name : String) (fp : Bytes) (at_unix : ℤ)
      → (d : DeviceRecord) → get common_name r.state.devices ≡ some d
      → (cert_der : Bytes) → pki.cert_pem_to_der d.cert_pem ≡ some cert_der
      → (revoke_current_cert json pki w r common_name at_unix).1 ≡ ok fp
      → (calls : List (Call × (ℕ → Write))) (other : String)
      → (fp ≡ fingerprint_sha256_colon_hex_der pki cert_der)
        × (access pki
              (run_all
                (run json pki)
                calls
                (revoke_current_cert json pki w r common_name at_unix).0).state
              other
              cert_der
            ≢ allowed)
        × OnlyRevokes fp r.state (revoke_current_cert json pki w r common_name at_unix).0.state
  revoke_current_cert_for_good w r common_name fp at_unix d there cert_der readable h calls other =
      let (same, revoked, only) =
        current_revoked w r common_name fp at_unix d there cert_der readable h in
      let r' = (revoke_current_cert json pki w r common_name at_unix).0 in
      (
        same,
        access_refused (run_all (run json pki) calls r').state other cert_der (
            subst (λ f. contains_key f (run_all (run json pki) calls r').state.revoked_certs ≡ true)
              same (kept_cert fp calls r' revoked)),
        only,
      )
