-- ===== src/Registry/Durable.antt =====
-- A restart rebuilds the registry of src/registry.rs from its log.
use microtak_server.Prelude.{ℕ, List, [], some, refl, true, ◌≡◌}
use microtak_server.EventLog.{JsonLine, Write, open_and_replay}
use microtak_server.EventLog.Replay.{IsClean, IsDurable}
use microtak_server.EventLog.Calls.{Every, run_all, run_all-keeps}
use microtak_server.EventLog.Checked.{record_checked-IsDurable}
use microtak_server.Registry.{RegistryEvent, event_log, empty_state, apply_event}
use microtak_server.Registry.Fingerprints.{Pki}
use microtak_server.Registry.Keeps.{Records, run-keeps}
use microtak_server.Registry.Operations.{
  empty_registry, Call, enroll_call, enroll_new_call, revoke_call, unblock_call, delete_certs_call,
  revoke_cert_call, revoke_current_cert_call, run,
}

any_event : (c : Call) → Records (λ e. Unit {0}) c
any_event (enroll_call other cert_pem now uid) = tt
any_event (enroll_new_call other cert_pem now uid) = tt
any_event (revoke_call other) = tt
any_event (unblock_call other) = tt
any_event (delete_certs_call ids) = λ id. tt
any_event (revoke_cert_call fp at_unix) = λ fp. tt
any_event (revoke_current_cert_call other at_unix) = λ fp. tt

module _ {L : Type 0} (json : JsonLine L RegistryEvent) (pki : Pki)
    (lossless : (e : RegistryEvent) → json.exact e ≡ true) where
  -- After any calls on a new registry with a log, appends that fail and write nothing included,
  -- opening the log again rebuilds the devices, the certificates with their ids, and the
  -- revocations exactly. JSON is to read every event back, and no append may be cut short in the
  -- middle of its line or leave its line and fail to sync it.
  pub registry_survives :
      (calls : List (Call × (ℕ → Write)))
      → Every (λ c ws. (n : ℕ) → IsClean (ws n)) calls
      → IsDurable json apply_event empty_state
          (run_all (run json pki) calls (empty_registry (some []))).store
  unfolding open_and_replay
  registry_survives calls h =
      run_all-keeps (run json pki) (λ r. IsDurable json apply_event empty_state r.store)
        (λ c ws. (n : ℕ) → IsClean (ws n))
        (λ c ws r. λ synced.
          run-keeps json pki (IsDurable json apply_event empty_state) (λ e. Unit {0})
            (λ w. IsClean w)
            (λ checks w s e synced u d.
              record_checked-IsDurable json apply_event event_log checks w e synced (lossless e) d)
            c ws r synced (any_event c))
        calls (empty_registry (some [])) h (record { rebuilds = (tt, refl) })
