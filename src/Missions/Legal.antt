-- ===== src/Missions/Legal.antt =====
-- Every call of the mission store, src/missions.rs, is steps of legal events.
use microtak_server.Prelude.{String, ℕ, List, [], ◌∷◌, refl, string_eq, option_eq}
use microtak_server.Map.{Map, get}
use microtak_server.Missions.Json.{Value}
use microtak_server.EventLog.{JsonLine, Write}
use microtak_server.EventLog.Calls.{run_all, Every}
use microtak_server.Missions.{permission_eq, role_eq, content_eq, change_type_eq}
use microtak_server.Missions.Records.{invitation_type_eq}
use microtak_server.Missions.Events.{
  Event, fields_set, password_set, default_role_set, groups_set, keywords_set, content_keywords_set,
  deleted, uninvited, log_entry_saved, log_entry_deleted, layer_named, content_added,
  content_removed, State,
}
use microtak_server.Missions.Reducer.{apply}
use microtak_server.Missions.Store.{
  delete, MissionStore, unique_of, set_fields, set_password, set_default_role, set_groups,
  set_keywords, set_content_keywords, add_content_at, remove_content_at,
}
use microtak_server.Missions.Attachments.{
  action_parts, add_mission_feed, remove_mission_feed, add_map_layer, set_external_data,
  external_data_change, update_map_layer,
}
use microtak_server.Missions.Invitations.{uninvite, save_log_entry, delete_log_entry}
use microtak_server.Missions.Layers.{rename_layer}
use microtak_server.Missions.Steps.{
  IsLegal, Steps-trans, Steps-keeps_state, record_event-Steps, and_then-Steps, if_existing-Steps,
  on_existing-Steps, recorded_if-Steps, Steps, here,
}
use microtak_server.Missions.Calls.{
  Writes, run, Call, create_call, set_fields_call, set_password_call, set_default_role_call,
  set_groups_call, set_keywords_call, set_content_keywords_call, delete_call,
  remove_mission_feed_call, add_map_layer_call, update_map_layer_call, set_subscription_role_call,
  unsubscribe_call, invite_call, uninvite_call, save_log_entry_call, delete_log_entry_call,
  add_layer_call, rename_layer_call, move_layer_call, delete_layer_call, add_content_call,
  remove_content_call, add_mission_feed_call, set_external_data_call, external_data_change_call,
  subscribe_call,
}
use microtak_server.Missions.Parts.{
  create-Steps, subscribe-Steps, set_subscription_role-Steps, unsubscribe-Steps, invite-Steps,
  record_external_change-Steps, add_layer-Steps, delete_layer-Steps, move_layer-Steps,
}

-- What is asked of the properties of the map layer that a call saves.
abbrev pub CallSaves : (Map String Value → Type 0) → Call → Type 0
CallSaves Props (add_map_layer_call guid l creator) = Props l.props
CallSaves Props (update_map_layer_call l) = Props l.props
CallSaves Props c = Unit

saves_any : (c : Call) → CallSaves (λ props. Unit {0}) c
saves_any (add_map_layer_call guid l creator) = tt
saves_any (update_map_layer_call l) = tt
saves_any c = tt

module _ {L : Type 0} (json : JsonLine L Event) (Allowed : Write → Type 0)
    (Props : Map String Value → Type 0) (ws : Writes) (a : (i n : ℕ) → Allowed (ws i n))
    (s : MissionStore L) where
  -- The steps of one call.
  pub run-Steps : (c : Call) → CallSaves Props c → Steps json Allowed Props s (run json c ws s)
  unfolding run set_fields set_password set_default_role set_groups set_keywords
      set_content_keywords delete add_content_at remove_content_at add_mission_feed
      remove_mission_feed add_map_layer update_map_layer set_external_data external_data_change
      uninvite save_log_entry delete_log_entry rename_layer
  run-Steps (create_call new now) p = create-Steps json Allowed Props ws a s new now
  run-Steps (set_fields_call guid fields now) p =
      on_existing-Steps json Allowed Props guid (fields_set guid fields now) (a 0 0) (λ m. tt)
  run-Steps (set_password_call guid hash now) p =
      on_existing-Steps json Allowed Props guid (password_set guid hash now) (a 0 0) (λ m. tt)
  run-Steps (set_default_role_call guid role now) p =
      on_existing-Steps json Allowed Props guid (default_role_set guid role now) (a 0 0) (λ m. tt)
  run-Steps (set_groups_call guid groups now) p =
      on_existing-Steps json Allowed Props guid (groups_set guid groups now) (a 0 0) (λ m. tt)
  run-Steps (set_keywords_call guid keywords now) p =
      on_existing-Steps json Allowed Props guid (keywords_set guid keywords now) (a 0 0) (λ m. tt)
  run-Steps (set_content_keywords_call guid content keywords) p =
      on_existing-Steps json Allowed Props guid
        (content_keywords_set guid content (unique_of [] keywords)) (a 0 0) (λ m. tt)
  run-Steps (delete_call guid creator now) p = and_then-Steps json Allowed Props _ _ (
      on_existing-Steps json Allowed Props guid (deleted guid creator now s.state.next_change_id)
        (a 0 0) (λ m. (refl, m)))
  run-Steps (add_content_call guid content creator at server) p =
      on_existing-Steps json Allowed Props guid
        (content_added guid content creator at s.state.next_change_id server) (a 0 0)
        (λ m. (refl, m))
  run-Steps (remove_content_call guid content creator at server) p =
      on_existing-Steps json Allowed Props guid
        (content_removed guid content creator at s.state.next_change_id server) (a 0 0)
        (λ m. (refl, m))
  run-Steps (add_mission_feed_call guid feed creator now) p =
      if_existing-Steps json Allowed Props guid _
        λ m. recorded_if-Steps json Allowed Props _ _ (a 0 0) refl
  run-Steps (remove_mission_feed_call guid uid creator now) p =
      if_existing-Steps json Allowed Props guid _
        λ m. recorded_if-Steps json Allowed Props _ _ (a 0 0) refl
  run-Steps (add_map_layer_call guid l creator) p =
      and_then-Steps json Allowed Props _ _
        (on_existing-Steps json Allowed Props guid _ (a 0 0) (λ m. (p, refl)))
  run-Steps (update_map_layer_call l) p = record_event-Steps json Allowed Props _ (a 0 0) (p, tt)
  run-Steps (set_external_data_call guid r creator now) p =
      and_then-Steps json Allowed Props _ _
        (on_existing-Steps json Allowed Props guid _ (a 0 0) (λ m. refl))
  run-Steps (external_data_change_call guid id action notes creator now) p =
      if_existing-Steps json Allowed Props guid _ λ m.
        record_external_change-Steps json Allowed Props ws a s guid (get id s.state.external_data)
          (action_parts action) notes creator now
  run-Steps (subscribe_call guid client username role now make_token id) p =
      subscribe-Steps json Allowed Props ws a s guid client username role now make_token id
  run-Steps (set_subscription_role_call guid client username role) p =
      set_subscription_role-Steps json Allowed Props ws a s guid client username role
  run-Steps (unsubscribe_call guid client username) p =
      unsubscribe-Steps json Allowed Props ws a s guid client username
  run-Steps (invite_call i) p = invite-Steps json Allowed Props ws a s i
  run-Steps (uninvite_call guid invitee kind) p =
      record_event-Steps json Allowed Props (uninvited guid invitee kind) (a 0 0) tt
  run-Steps (save_log_entry_call entry) p =
      and_then-Steps json Allowed Props _ _
        (record_event-Steps json Allowed Props (log_entry_saved entry) (a 0 0) tt)
  run-Steps (delete_log_entry_call id) p =
      record_event-Steps json Allowed Props (log_entry_deleted id) (a 0 0) tt
  run-Steps (add_layer_call guid l) p = add_layer-Steps json Allowed Props ws a s guid l
  run-Steps (rename_layer_call guid uid name) p =
      record_event-Steps json Allowed Props (layer_named guid uid name) (a 0 0) tt
  run-Steps (move_layer_call guid uid parent after) p =
      move_layer-Steps json Allowed Props ws a s guid uid parent after
  run-Steps (delete_layer_call guid uid) p = delete_layer-Steps json Allowed Props ws a s guid uid

module _ {L : Type 0} (json : JsonLine L Event) (Allowed : Write → Type 0)
    (Props : Map String Value → Type 0) where
  -- The steps of calls one after the other.
  pub run_all-Steps :
      (calls : List (Call × Writes)) (s : MissionStore L)
      → Every (λ c ws. ((i n : ℕ) → Allowed (ws i n)) × CallSaves Props c) calls
      → Steps json Allowed Props s (run_all (run json) calls s)
  unfolding run_all
  run_all-Steps [] s h = here
  run_all-Steps ((c, ws) ∷ rest) s ((h, p), hs) =
      Steps-trans json Allowed Props (run-Steps json Allowed Props ws h s c p)
        (run_all-Steps rest (run json c ws s) hs)

module _ {L : Type 0} (json : JsonLine L Event) where
  unconditional :
      (calls : List (Call × Writes))
      → Every (λ c ws. ((i n : ℕ) → Unit {0}) × CallSaves (λ props. Unit {0}) c) calls
  unconditional [] = tt
  unconditional ((c, ws) ∷ rest) = ((λ i n. tt, saves_any c), unconditional rest)

  -- What every legal event keeps is kept by any calls, whatever the log answers to them.
  pub calls-keep :
      (P : State → Type 0)
      → ((s : State) (event : Event) → IsLegal s event → P s → P (apply s event))
      → (calls : List (Call × Writes)) (s : MissionStore L) → P s.state
      → P (run_all (run json) calls s).state
  calls-keep P keep calls s =
      Steps-keeps_state json (λ w. Unit) (λ props. Unit) P keep
        (run_all-Steps json (λ w. Unit) (λ props. Unit) calls s (unconditional calls))
