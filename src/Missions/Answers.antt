-- ===== src/Missions/Answers.antt =====
-- What an answer of a method of src/missions.rs says about the store that it leaves.
use microtak_server.Prelude.{Result, ok, err, ◌≡◌, inl, inr, refl, string_eq}
use microtak_server.EventLog.{JsonLine, Write}
use microtak_server.EventLog.Checked.{record_checked_state}
use microtak_server.Missions.{
  permission_eq, role_eq, content_eq, change_type_eq, MissionError, event_log, MissionRecord,
}
use microtak_server.Missions.Events.{Event, State}
use microtak_server.Missions.Reducer.{apply}
use microtak_server.Missions.Store.{MissionStore, and_then, checked, record_event}
use microtak_server.Missions.Attachments.{if_existing}

module _ {L : Type 0} (json : JsonLine L Event) where
  pub recorded_ok :
      (w : Write) (s : MissionStore L) (event : Event)
      → (record_event json w s event).1 ≡ ok tt
      → (record_event json w s event).0.state ≡ apply s.state event
  unfolding record_event checked
  recorded_ok w s event h = elim (record_checked_state json apply event_log (ok tt) w s event) [
    | inl (answer, passed, e) ↦ e
    | inr (answer, e) ↦ absurd (answer h)
  ]

  pub and_then-ok {ℓ} :
      {A : Type ℓ} (r : MissionStore L × Result MissionError (Unit {0})) (f : State → A) (y : A)
      → (and_then r f).1 ≡ ok y
      → (r.1 ≡ ok tt) × (y ≡ f r.0.state) × ((and_then r f).0 ≡ r.0)
  unfolding and_then
  and_then-ok (s, ok u) f y h = (refl, cc, refl)
  and_then-ok (s, err e) f y h = cc

  pub if_existing-ok {ℓ} :
      {A : Type ℓ} (there : Result MissionError MissionRecord) (s : MissionStore L)
      (rest : MissionStore L × Result MissionError A) (y : A)
      → (if_existing json there s rest).1 ≡ ok y
      → if_existing json there s rest ≡ rest
  unfolding if_existing
  if_existing-ok (ok m) s rest y h = refl
  if_existing-ok (err e) s rest y h = cc
