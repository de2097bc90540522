-- ===== src/Missions/Steps.antt =====
-- The operations of the mission store, src/missions.rs, as steps: each records events one after the
-- other, and each event is legal where it is recorded.
use Prim.Native.Nat.{max}
use mathlib.Core.Path.{subst}
use microtak_server.Prelude.{
  ℕ, suc, String, Bool, true, false, List, [], ◌∷◌, none, some, Result, ok, err, ◌≡◌, ◌⊎◌, refl,
  sym, string_eq, inl, inr, Option-cases, All,
}
use microtak_server.Map.{Map, get}
use microtak_server.Missions.Json.{Value}
use microtak_server.EventLog.{JsonLine, Write}
use microtak_server.EventLog.Checked.{record_checked_state}
use microtak_server.Missions.{MissionError, event_log, MissionRecord}
use microtak_server.Missions.Events.{
  Event, created, deleted, subscribed, mission_feed_added, mission_feed_removed, map_layer_saved,
  external_data_set, external_data_changed, content_added, content_removed, State,
}
use microtak_server.Missions.Reducer.{apply}
use microtak_server.Missions.Store.{
  MissionStore, existing, check_existing, and_then, checked, record_event, on_existing,
}
use microtak_server.Missions.Attachments.{if_existing, recorded_if}
use microtak_server.Missions.Subscriptions.{find_subscription, record_each}
use microtak_server.Missions.Layers.{and_record, record_when}

-- What every operation has made sure of when it records an event: the number of a change is the next
-- one, a mission that is changed exists, and a subscriber is new.
abbrev pub Existing : State → String → Type 0
Existing s guid = (m : MissionRecord) × (get guid s.missions ≡ some m)

abbrev pub IsLegal : State → Event → Type 0
IsLegal s (mission_feed_added guid feed creator n at) = n ≡ s.next_change_id
IsLegal s (mission_feed_removed guid uid creator n at) = n ≡ s.next_change_id
IsLegal s (map_layer_saved guid layer creator none) = Unit
IsLegal s (map_layer_saved guid layer creator (some n)) = n ≡ s.next_change_id
IsLegal s (external_data_set guid r creator at n) = n ≡ s.next_change_id
IsLegal s (external_data_changed guid change removes creator at n) = n ≡ s.next_change_id
IsLegal s (created m n) =
    (n ≡ s.next_change_id) × (m.id ≡ max s.next_mission_id 1) × (m.contents ≡ [])
IsLegal s (deleted guid creator at n) = (n ≡ s.next_change_id) × Existing s guid
IsLegal s (content_added guid content creator at n server) =
    (n ≡ s.next_change_id) × Existing s guid
IsLegal s (content_removed guid content creator at n server) =
    (n ≡ s.next_change_id) × Existing s guid
IsLegal s (subscribed guid x) = find_subscription s guid x.client_uid x.username ≡ none
IsLegal s event = Unit

-- The same, with a condition on the properties of each map layer that is saved.
abbrev pub IsLegalFor : (Map String Value → Type 0) → State → Event → Type 0
IsLegalFor Props s (map_layer_saved guid layer creator n) =
    Props layer.props × IsLegal s (map_layer_saved guid layer creator n)
IsLegalFor Props s event = IsLegal s event

IsLegalFor-IsLegal :
    (Props : Map String Value → Type 0) (s : State) (event : Event)
    → IsLegalFor Props s event
    → IsLegal s event
IsLegalFor-IsLegal Props s (map_layer_saved guid layer creator n) (p, legal) = legal
IsLegalFor-IsLegal Props s event legal = legal

recorded :
    {L : Type 0} (json : JsonLine L Event) (t : MissionStore L) (w : Write) (event : Event)
    → ((record_event json w t event).0.state ≡ apply t.state event)
      ⊎ ((record_event json w t event).0.state ≡ t.state)
unfolding record_event checked
recorded json t w event = elim (record_checked_state json apply event_log (ok tt) w t event) [
  | inl (answer, passed, e) ↦ inl e
  | inr (answer, e) ↦ inr e
]

store-and_then {ℓ} :
    {L : Type 0} {A : Type ℓ} (r : MissionStore L × Result MissionError (Unit {0})) (f : State → A)
    → (and_then r f).0 ≡ r.0
unfolding and_then
store-and_then (s, ok u) f = refl
store-and_then (s, err e) f = refl

pub Existing-get : (s : State) (guid : String) → check_existing s guid ≡ ok tt → Existing s guid
unfolding check_existing existing
Existing-get s guid h = elim (Option-cases (get guid s.missions)) [
  | inl e ↦ cc (rw (e, existing) at h)
  | inr (m, e) ↦ (m, e)
]

module _ {L : Type 0} (json : JsonLine L Event) (Allowed : Write → Type 0)
    (Props : Map String Value → Type 0) where
  -- Any number of legal events, each with an outcome that is allowed.
  pub data Steps (s : MissionStore L) : MissionStore L → Type 0 where
    here : Steps s s
    step :
        {t : MissionStore L}
        → Steps s t
        → (w : Write) → (event : Event) → Allowed w
        → IsLegalFor Props t.state event
        → Steps s (record_event json w t event).0

  pub Steps-trans : {s t u : MissionStore L} → Steps s t → Steps t u → Steps s u
  Steps-trans r here = r
  Steps-trans r (step r' w event a legal) = step (Steps-trans r r') w event a legal

  pub Steps-keeps :
      (P : MissionStore L → Type 0)
      → ((t : MissionStore L) (w : Write) (event : Event)
          → Allowed w
          → IsLegalFor Props t.state event
          → P t
          → P (record_event json w t event).0)
      → {s t : MissionStore L} → Steps s t
      → P s
      → P t
  Steps-keeps P keep here p = p
  Steps-keeps P keep (step {t = t} r w event a legal) p =
      keep t w event a legal (Steps-keeps P keep r p)

  -- What every legal event keeps of the state is kept by steps, whatever the log answers.
  pub Steps-keeps_state :
      (P : State → Type 0)
      → ((s : State) (event : Event) → IsLegal s event → P s → P (apply s event))
      → {s t : MissionStore L} → Steps s t
      → P s.state
      → P t.state
  Steps-keeps_state P keep r p =
      Steps-keeps (λ t. P t.state)
        (λ t w event a legal p'. elim (recorded json t w event) [
          | inl e ↦
              subst P (sym e) (keep t.state event (IsLegalFor-IsLegal Props t.state event legal) p')
          | inr e ↦ subst P (sym e) p'
        ])
        r p

  module _ {s : MissionStore L} where
    pub record_event-Steps :
        {w : Write} (event : Event)
        → Allowed w
        → IsLegalFor Props s.state event
        → Steps s (record_event json w s event).0
    record_event-Steps {w} event a legal = step here w event a legal

    pub and_then-Steps {ℓ} :
        {A : Type ℓ} (r : MissionStore L × Result MissionError (Unit {0})) (f : State → A)
        → Steps s r.0
        → Steps s (and_then r f).0
    and_then-Steps r f h = rw (store-and_then r f) h

    -- `f` is what is recorded where the mission exists.
    pub if_existing-Steps {ℓ} :
        {A : Type ℓ} (guid : String) (rest : MissionStore L × Result MissionError A)
        → (Existing s.state guid → Steps s rest.0)
        → Steps s (if_existing json (existing s.state guid) s rest).0
    unfolding if_existing existing
    if_existing-Steps guid rest h = elim (Option-cases (get guid s.state.missions)) [
      | inl e ↦ rw (e, if_existing) here
      | inr (m, e) ↦ rw (e, if_existing) (h (m, e))
    ]

    checked-Steps :
        {w : Write} (checks : Result MissionError (Unit {0})) (event : Event)
        → Allowed w
        → (checks ≡ ok tt → IsLegalFor Props s.state event)
        → Steps s (checked json checks w s event).0
    unfolding checked record_event
    checked-Steps (ok u) event a h = record_event-Steps event a (h refl)
    checked-Steps (err e) event a h = here

    pub on_existing-Steps :
        {w : Write} (guid : String) (event : Event)
        → Allowed w
        → (Existing s.state guid → IsLegalFor Props s.state event)
        → Steps s (on_existing json guid w s event).0
    unfolding on_existing
    on_existing-Steps guid event a h =
        checked-Steps (check_existing s.state guid) event a (λ e. h (Existing-get s.state guid e))

    pub recorded_if-Steps :
        {w : Write} (there : Bool) (event : Event)
        → Allowed w
        → IsLegalFor Props s.state event
        → Steps s (recorded_if json there w s event).0
    unfolding recorded_if
    recorded_if-Steps true event a legal = and_then-Steps _ _ (record_event-Steps event a legal)
    recorded_if-Steps false event a legal = here

    pub record_when-Steps :
        {w : Write} (test : Bool) (event : Event)
        → Allowed w
        → IsLegalFor Props s.state event
        → Steps s (record_when json test w s event).0
    unfolding record_when
    record_when-Steps true event a legal = record_event-Steps event a legal
    record_when-Steps false event a legal = here

    pub and_record-Steps :
        (r : MissionStore L × Result MissionError (Unit {0}))
        (next : MissionStore L → MissionStore L × Result MissionError (Unit {0}))
        → Steps s r.0
        → ((t : MissionStore L) → Steps t (next t).0)
        → Steps s (and_record json r next).0
    unfolding and_record
    and_record-Steps (t, ok u) next h k = Steps-trans h (k t)
    and_record-Steps (t, err e) next h k = h

  -- Events that are legal whatever was recorded before them.
  pub record_each-Steps :
      (ws : ℕ → Write) (s : MissionStore L) (events : List Event)
      → ((n : ℕ) → Allowed (ws n))
      → All (λ event. (t : State) → IsLegalFor Props t event) events
      → Steps s (record_each json ws s events).0
  unfolding record_each
  record_each-Steps ws s [] a legal = here
  record_each-Steps ws s (event ∷ events) a (h, hs) =
      go (record_event json (ws 0) s event) (record_event-Steps event (a 0) (h s.state))
        (λ t. record_each-Steps (λ n. ws (suc n)) t events (λ n. a (suc n)) hs)
    where
      go :
          (r : MissionStore L × Result MissionError (Unit {0}))
          → Steps s r.0
          → ((t : MissionStore L) → Steps t (record_each json (λ n. ws (suc n)) t events).0)
          → Steps s
              (elim r.1 as (λ _. MissionStore L × Result MissionError (Unit {0})) [
                | ok u ↦ record_each json (λ n. ws (suc n)) r.0 events
                | err e ↦ (r.0, err e)
              ]).0
      go (t, ok u) h' k = Steps-trans h' (k t)
      go (t, err e) h' k = h'
