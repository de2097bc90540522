-- ===== src/Registry/Recorded.antt =====
-- A part of a call of src/registry.rs that records one event.
use mathlib.Core.Path.{subst}
use microtak_server.Prelude.{sym, Result, inl, inr, string_eq, list_eq, nat_eq}
use microtak_server.EventLog.{JsonLine, Write, Store, record_checked}
use microtak_server.EventLog.Checked.{record_checked_state}
use microtak_server.Registry.{RegistryError, event_log, RegistryEvent, RegistryState, apply_event}

module _ {L : Type 0} (json : JsonLine L RegistryEvent) where
  -- What every event of a kind keeps of the state, an operation that may record it keeps.
  pub recorded_keeps :
      (P : RegistryState → Type 0) (Q : RegistryEvent → Type 0)
      → ((s : RegistryState) (e : RegistryEvent) → Q e → P s → P (apply_event s e))
      → (checks : Result RegistryError (Unit {0})) (w : Write) (s : Store L RegistryState)
        (e : RegistryEvent)
      → Unit {0}
      → Q e
      → P s.state
      → P (record_checked json apply_event event_log checks w s e).0.state
  recorded_keeps P Q keeps checks w s e u q p =
      elim (record_checked_state json apply_event event_log checks w s e) [
        | inl (answer, checked, state) ↦ subst P (sym state) (keeps s.state e q p)
        | inr (answer, state) ↦ subst P (sym state) p
      ]
