-- ===== src/Transport/Hub/Cache.antt =====
-- The receiver's OUT groups that the delivery loop of src/transport/tls.rs keeps with the version of
-- the group store that they were looked up at.
use microtak_server.Prelude.{
  ℕ, ◌^◌, ◌<◌, String, List, Option, none, some, ◌≡◌, refl, ap, sym, arith, nat_eqb, if◌then◌else◌,
  Bool-cases, inl, inr,
}
use microtak_server.EventLog.{JsonLine, Write}
use microtak_server.Groups.{GroupStore, GroupEvent, out, active_groups}
use microtak_server.Groups.Operations.{Call, run_all}
use microtak_server.Groups.Versions.{all_events, same_version_same_state}

-- `out_groups` after the check that comes before a delivery.
abbrev pub refreshed :
    {L : Type 0} → Option (ℕ × List String) → GroupStore L → String → ℕ × List String
refreshed none s cn = (s.version, active_groups s.state (some cn) out)
refreshed (some (v, groups)) s cn =
    if nat_eqb v s.version then (v, groups) else (s.version, active_groups s.state (some cn) out)

-- A message is checked against the receiver's active OUT groups as they are when it is delivered:
-- what the loop kept since an earlier message is used only where nothing has changed, if fewer than
-- 2^64 changes were made in between.
pub refreshed_is_current :
    {L : Type 0} (json : JsonLine L GroupEvent) (s : GroupStore L)
    (calls : List (Call × (ℕ → Write))) (cn : String)
    → s.version < 2 ^ 64
    → all_events calls < 2 ^ 64
    → (refreshed (some (refreshed none s cn)) (run_all json calls s) cn).1
      ≡ active_groups (run_all json calls s).state (some cn) out
refreshed_is_current json s calls cn word few =
    elim (Bool-cases (nat_eqb s.version (run_all json calls s).version)) [
      | inl same ↦
          let unchanged = same_version_same_state json calls s word few (ground arith) in
          rw same (ap (λ st. active_groups st (some cn) out) (sym unchanged))
      | inr changed ↦ rw changed refl
    ]
