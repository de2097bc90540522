-- ===== src/Registry/Enrollment.antt =====
-- What enrolling with src/registry.rs records and answers.
use microtak_server.Prelude.{
  ap, eq_refl, ◌∙◌, String, Option, some, Result, ok, err, ◌≡◌, ◌≢◌, ◌⊎◌, inl, inr, refl, ◌==◌,
  string_eq, arith, if◌then◌else◌,
}
use microtak_server.Prelude.Int.{ℤ}
use microtak_server.Map.{get, contains_key}
use microtak_server.Map.Laws.{get-insert}
use microtak_server.EventLog.{JsonLine, Write, Store, record_checked}
use microtak_server.EventLog.Checked.{record_checked_state}
use microtak_server.Registry.{
  RegistryError, event_log, already_enrolled, DeviceRecord, RegistryEvent, enrolled, RegistryState,
  apply_event, is_revoked,
}
use microtak_server.Registry.Operations.{
  DeviceRegistry, enrolled_record, enroll_with_client_uid, enroll_new_with_client_uid,
}

-- The record that enrolling writes.
abbrev pub new_record : RegistryState → String → String → ℤ → DeviceRecord
new_record s common_name cert_pem now = record {
  common_name = common_name;
  cert_pem = cert_pem;
  enrolled_at_unix = now;
  revoked = is_revoked s common_name;
}

devices-enrolled :
    (s : RegistryState) (common_name cert_pem : String) (now : ℤ) (uid : Option String)
    (other : String)
    → get other (apply_event s (enrolled common_name cert_pem now uid)).devices ≡ (
        if common_name == other
        then some (new_record s common_name cert_pem now)
        else get other s.devices)
unfolding apply_event is_revoked
devices-enrolled s common_name cert_pem now uid other =
    get-insert common_name other (new_record s common_name cert_pem now) s.devices

enrolled_record_cases :
    {L : Type 0} (r : DeviceRegistry L) (common_name : String)
    (x : Store L RegistryState × Result RegistryError (Unit {0}))
    → ((enrolled_record r common_name x).0.store ≡ x.0)
      × ((x.1 ≡ ok tt)
            × ((enrolled_record r common_name x).1 ≡ ok (get common_name x.0.state.devices))
          ⊎ (x.1 ≢ ok tt) × ((e : RegistryError) × ((enrolled_record r common_name x).1 ≡ err e)))
unfolding enrolled_record
enrolled_record_cases r common_name (s, ok tt) = (refl, inl (refl, refl))
enrolled_record_cases r common_name (s, err e) = (refl, inr (λ h. cc, (e, refl)))

-- What an operation that enrolls may do, by its answer and the registry that it leaves.
abbrev pub Enrolls :
    {L : Type 0}
    → DeviceRegistry L
    → String
    → DeviceRecord
    → DeviceRegistry L × Result RegistryError (Option DeviceRecord)
    → Type 0
Enrolls r common_name new y =
    (y.1 ≡ ok (some new))
      × ((other : String)
          → get other y.0.state.devices
            ≡ (if common_name == other then some new else get other r.state.devices))
    ⊎ ((e : RegistryError) × (y.1 ≡ err e)) × (y.0.state ≡ r.state)

module _ {L : Type 0} (json : JsonLine L RegistryEvent) (w : Write) (r : DeviceRegistry L)
    (common_name cert_pem : String) (now : ℤ) (uid : Option String) where
  abbrev new : DeviceRecord
  new = new_record r.state common_name cert_pem now

  checked_enroll :
      (checks : Result RegistryError (Unit {0}))
      → (checks ≡ ok tt)
          × ((enrolled_record r common_name (
                record_checked json apply_event event_log checks w r.store
                  (enrolled common_name cert_pem now uid))).1
              ≡ ok (some new))
          × ((other : String)
              → get other
                  (enrolled_record r common_name (
                    record_checked json apply_event event_log checks w r.store
                      (enrolled common_name cert_pem now uid))).0.state.devices
                ≡ (if common_name == other then some new else get other r.state.devices))
        ⊎ ((e : RegistryError) × ((enrolled_record r common_name (
                record_checked json apply_event event_log checks w r.store
                  (enrolled common_name cert_pem now uid))).1
              ≡ err e))
          × ((enrolled_record r common_name (
                record_checked json apply_event event_log checks w r.store
                  (enrolled common_name cert_pem now uid))).0.state
              ≡ r.state)
  checked_enroll checks =
      let e = enrolled common_name cert_pem now uid in
      let x = record_checked json apply_event event_log checks w r.store e in
      let (store, answers) = enrolled_record_cases r common_name x in
      elim (record_checked_state json apply_event event_log checks w r.store e) [
        | inl (answer, checked, state) ↦ elim answers [
          | inl (done, given) ↦ inl (
            checked,
            given
                ∙ ap (λ s. ok (get common_name s.devices)) state
                ∙ ap ok (
                    devices-enrolled r.state common_name cert_pem now uid common_name
                    ∙ rw (eq_refl common_name) refl),
            λ other.
                rw (store, state) (devices-enrolled r.state common_name cert_pem now uid other),
          )
          | inr (failed, why) ↦ absurd (failed answer)
        ]
        | inr (refusal, state) ↦ elim answers [
          | inl (done, given) ↦ absurd (refusal done)
          | inr (failed, why) ↦ inr (why, rw store state)
        ]
      ]

  -- Enrolling returns a record and never panics, unless the log fails; it holds the new certificate
  -- and the block that the identity had, so a blocked identity is not let in by enrolling again.
  -- Every other device keeps its record, and a failure changes nothing.
  pub enroll_effect :
      Enrolls r common_name new (enroll_with_client_uid json w r common_name cert_pem now uid)
  unfolding enroll_with_client_uid
  enroll_effect = elim (checked_enroll (ok tt)) [
    | inl (checked, answer, devices) ↦ inl (answer, devices)
    | inr refused ↦ inr refused
  ]

  -- Enrolling a new identity never replaces one: whatever it answers, each device that was there
  -- has the record that it had.
  pub enroll_new_never_replaces :
      (other : String) (d : DeviceRecord)
      → get other r.state.devices ≡ some d
      → get other (enroll_new_with_client_uid json w r common_name cert_pem now uid).0.state.devices
        ≡ some d
  unfolding enroll_new_with_client_uid
  enroll_new_never_replaces other d there =
      elim (checked_enroll (
        if contains_key common_name r.state.devices
        then err (already_enrolled common_name)
        else ok tt)) [
          | inl (checked, answer, devices) ↦
              devices other ∙ ground (arith, string_eq.beq_iff common_name other)
          | inr (why, state) ↦ rw state there
        ]
