-- ===== src/Registry/Blocking.antt =====
-- Blocked identities of src/registry.rs stay shut out.
use microtak_server.Prelude.{
  ℕ, sym, ◌∙◌, is_some, String, Bool, true, false, List, Option, none, some, ok, ◌≡◌, inl, inr,
  refl, ◌==◌, string_eq, arith, list_eq, nat_eq,
}
use microtak_server.Prelude.Bytes.{Bytes}
use microtak_server.Map.{map_option, get, contains_key}
use microtak_server.Map.Laws.{get-modify, get-insert}
use microtak_server.EventLog.{JsonLine, Write, record_checked}
use microtak_server.EventLog.Calls.{Every, run_all, run_all-keeps}
use microtak_server.EventLog.Checked.{record_checked_state}
use microtak_server.Registry.{
  event_log, DeviceRecord, RegistryEvent, enrolled, uid_bound, cert_deleted, unblocked,
  RegistryState, apply_event, is_blocked, set_revoked, blocked, access,
}
use microtak_server.Registry.Fingerprints.{Pki}
use microtak_server.Registry.Keeps.{Records, run-keeps}
use microtak_server.Registry.Operations.{
  DeviceRegistry, known, signalled_store, signalled_answer, revoke, Call, enroll_call,
  enroll_new_call, revoke_call, unblock_call, delete_certs_call, revoke_cert_call,
  revoke_current_cert_call, run,
}
use microtak_server.Registry.Recorded.{recorded_keeps}

-- An event that lifts the block of an identity.
abbrev pub lifts : RegistryEvent → String → Bool
lifts (unblocked other) common_name = other == common_name
lifts _ common_name = false

-- A call that does.
abbrev pub unblocks : Call → String → Bool
unblocks (unblock_call other) common_name = other == common_name
unblocks _ common_name = false

is_blocked-set :
    (o : Option DeviceRecord)
    → is_blocked o ≡ true
    → is_blocked (map_option (set_revoked true) o) ≡ true
is_blocked-set none h = h
is_blocked-set (some d) h = refl

apply_event-blocked :
    (common_name : String) (s : RegistryState) (e : RegistryEvent)
    → lifts e common_name ≡ false
    → is_blocked (get common_name s.devices) ≡ true
    → is_blocked (get common_name (apply_event s e).devices) ≡ true
unfolding apply_event
apply_event-blocked common_name s (enrolled other cert_pem now uid) h b =
    let new : DeviceRecord = record {
      common_name = other;
      cert_pem = cert_pem;
      enrolled_at_unix = now;
      revoked = is_blocked (get other s.devices);
    } in
    ground (arith, get-insert other common_name new s.devices, string_eq.beq_iff other common_name)
apply_event-blocked common_name s (RegistryEvent.revoked other) h b = ground (
  arith,
  get-modify other common_name (set_revoked true) s.devices,
  is_blocked-set (get common_name s.devices),
)
apply_event-blocked common_name s (uid_bound other uid) h b = b
apply_event-blocked common_name s (RegistryEvent.cert_revoked fp at_unix) h b = b
apply_event-blocked common_name s (cert_deleted id) h b = b
apply_event-blocked common_name s (unblocked other) h b =
    ground (arith, get-modify other common_name (set_revoked false) s.devices)

map_set_revoked :
    (o : Option DeviceRecord)
    → is_some o ≡ true
    → is_blocked (map_option (set_revoked true) o) ≡ true
map_set_revoked none h = cc
map_set_revoked (some d) h = refl

blocked_now :
    (common_name : String) (s : RegistryState)
    → contains_key common_name s.devices ≡ true
    → is_blocked (get common_name (apply_event s (RegistryEvent.revoked common_name)).devices)
      ≡ true
unfolding apply_event
blocked_now common_name s h = ground (
  arith,
  get-modify common_name common_name (set_revoked true) s.devices,
  string_eq.beq_iff common_name common_name,
  map_set_revoked (get common_name s.devices),
)

module _ {L : Type 0} (json : JsonLine L RegistryEvent) (pki : Pki) where
  run-blocked :
      (common_name : String) (c : Call) (ws : ℕ → Write) (r : DeviceRegistry L)
      → unblocks c common_name ≡ false
      → is_blocked (get common_name r.state.devices) ≡ true
      → is_blocked (get common_name (run json pki c ws r).state.devices) ≡ true
  run-blocked common_name c ws r h b =
      run-keeps json pki (λ s. is_blocked (get common_name s.state.devices) ≡ true)
        (λ e. lifts e common_name ≡ false) (λ w. Unit {0})
        (recorded_keeps json (λ s. is_blocked (get common_name s.devices) ≡ true)
          (λ e. lifts e common_name ≡ false) (apply_event-blocked common_name))
        c ws r (λ n. tt) (records c h) b
    where
      records :
          (c : Call) → unblocks c common_name ≡ false → Records (λ e. lifts e common_name ≡ false) c
      records (enroll_call other cert_pem now uid) h = refl
      records (enroll_new_call other cert_pem now uid) h = refl
      records (revoke_call other) h = refl
      records (unblock_call other) h = h
      records (delete_certs_call ids) h = λ id. refl
      records (revoke_cert_call fp at_unix) h = λ fp. refl
      records (revoke_current_cert_call other at_unix) h = λ fp. refl

  known_there :
      (r : DeviceRegistry L) (common_name : String)
      → known r common_name ≡ ok tt
      → contains_key common_name r.state.devices ≡ true
  known_there r common_name h = ground arith

  revoke_ok :
      (w : Write) (r : DeviceRegistry L) (common_name : String)
      → (revoke json w r common_name).1 ≡ ok tt
      → is_blocked (get common_name (revoke json w r common_name).0.state.devices) ≡ true
  unfolding revoke
  revoke_ok w r common_name h =
      let x =
        record_checked json apply_event event_log (known r common_name) w r.store
          (RegistryEvent.revoked common_name) in
      elim (record_checked_state json apply_event event_log (known r common_name) w r.store
        (RegistryEvent.revoked common_name)) [
          | inl (answer, checked, state) ↦
              rw (signalled_store r x, state)
                (blocked_now common_name r.state (known_there r common_name checked))
          | inr (refusal, state) ↦ absurd (refusal (sym (signalled_answer r x) ∙ h))
        ]

  -- Once an identity is blocked, every certificate of it is refused until someone unblocks it: not
  -- enrolling again, nor deleting its certificates, nor any other call lets it in.
  pub revoke_blocks :
      (w : Write) (r : DeviceRegistry L) (common_name : String)
      → (revoke json w r common_name).1 ≡ ok tt
      → (calls : List (Call × (ℕ → Write))) → Every (λ c ws. unblocks c common_name ≡ false) calls
      → (cert_der : Bytes)
      → access pki
          (run_all (run json pki) calls (revoke json w r common_name).0).state
          common_name
          cert_der
        ≡ blocked
  unfolding access
  revoke_blocks w r common_name h calls spared cert_der =
      rw
        (run_all-keeps (run json pki) (λ r. is_blocked (get common_name r.state.devices) ≡ true)
          (λ c ws. unblocks c common_name ≡ false) (run-blocked common_name) calls
          (revoke json w r common_name).0 spared (revoke_ok w r common_name h))
        refl
