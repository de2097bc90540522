-- ===== src/Missions/Calls.antt =====
-- The interface of `MissionStore` (src/missions.rs) as calls, and that every call is steps of legal
-- events.
use microtak_server.Prelude.{ℕ, String, List, Option, string_eq, option_eq}
use microtak_server.Prelude.Int.{ℤ}
use microtak_server.EventLog.{JsonLine, Write}
use microtak_server.Missions.{
  permission_eq, role_eq, content_eq, change_type_eq, Role, Content, MissionFields,
  ExternalDataRecord, MissionFeedRecord, MapLayerRecord, ExternalDataAction,
}
use microtak_server.Missions.Records.{
  invitation_type_eq, InvitationType, InvitationRecord, LogEntryRecord, LayerRecord,
}
use microtak_server.Missions.Events.{Event}
use microtak_server.Missions.Store.{
  delete, MissionStore, create, set_fields, set_password, set_default_role, set_groups,
  set_keywords, set_content_keywords, add_content_at, remove_content_at, NewMission,
}
use microtak_server.Missions.Attachments.{
  add_mission_feed, remove_mission_feed, add_map_layer, set_external_data, external_data_change,
  update_map_layer,
}
use microtak_server.Missions.Subscriptions.{subscribe, set_subscription_role, unsubscribe}
use microtak_server.Missions.Invitations.{invite, uninvite, save_log_entry, delete_log_entry}
use microtak_server.Missions.Layers.{add_layer, rename_layer, delete_layer, move_layer}

pub data Call : Type 0 where
  create_call : NewMission → (now_ms : ℤ) → Call
  set_fields_call : (guid : String) → MissionFields → (now_ms : ℤ) → Call
  set_password_call : (guid : String) → Option String → (now_ms : ℤ) → Call
  set_default_role_call : (guid : String) → Option Role → (now_ms : ℤ) → Call
  set_groups_call : (guid : String) → List String → (now_ms : ℤ) → Call
  set_keywords_call : (guid : String) → List String → (now_ms : ℤ) → Call
  set_content_keywords_call : (guid : String) → Content → List String → Call
  delete_call : (guid creator_uid : String) → (now_ms : ℤ) → Call
  add_content_call :
      (guid : String) → Content → (creator_uid : String) → (at_ms : ℤ) → Option ℤ → Call
  remove_content_call :
      (guid : String) → Content → (creator_uid : String) → (at_ms : ℤ) → Option ℤ → Call
  add_mission_feed_call :
      (guid : String) → MissionFeedRecord → (creator_uid : String) → (now_ms : ℤ) → Call
  remove_mission_feed_call : (guid uid creator_uid : String) → (now_ms : ℤ) → Call
  add_map_layer_call : (guid : String) → MapLayerRecord → (creator_uid : String) → Call
  update_map_layer_call : MapLayerRecord → Call
  set_external_data_call :
      (guid : String) → ExternalDataRecord → (creator_uid : String) → (now_ms : ℤ) → Call
  external_data_change_call :
      (guid id : String) → ExternalDataAction → (notes creator_uid : String) → (now_ms : ℤ) → Call
  subscribe_call :
      (guid client_uid username : String)
      → Role
      → (now_ms : ℤ) → (make_token : String → String) → (random_id : String) → Call
  set_subscription_role_call : (guid client_uid username : String) → Role → Call
  unsubscribe_call : (guid client_uid : String) → (username : Option String) → Call
  invite_call : InvitationRecord → Call
  uninvite_call : (guid invitee : String) → InvitationType → Call
  save_log_entry_call : LogEntryRecord → Call
  delete_log_entry_call : String → Call
  add_layer_call : (guid : String) → LayerRecord → Call
  rename_layer_call : (guid uid name : String) → Call
  move_layer_call : (guid uid : String) → (parent after : Option String) → Call
  delete_layer_call : (guid uid : String) → Call

-- What the file system answers to the appends of one call: those of its parts, each in order.
abbrev pub Writes : Type 0
Writes = ℕ → ℕ → Write

module _ {L : Type 0} (json : JsonLine L Event) where
  unfoldable pub run : Call → Writes → MissionStore L → MissionStore L
  run (create_call new now) ws s = (create json (ws 0 0) s new now).0
  run (set_fields_call guid fields now) ws s = (set_fields json (ws 0 0) s guid fields now).0
  run (set_password_call guid hash now) ws s = (set_password json (ws 0 0) s guid hash now).0
  run (set_default_role_call guid role now) ws s =
      (set_default_role json (ws 0 0) s guid role now).0
  run (set_groups_call guid groups now) ws s = (set_groups json (ws 0 0) s guid groups now).0
  run (set_keywords_call guid keywords now) ws s =
      (set_keywords json (ws 0 0) s guid keywords now).0
  run (set_content_keywords_call guid content keywords) ws s =
      (set_content_keywords json (ws 0 0) s guid content keywords).0
  run (delete_call guid creator now) ws s = (delete json (ws 0 0) s guid creator now).0
  run (add_content_call guid content creator at server) ws s =
      (add_content_at json (ws 0 0) s guid content creator at server).0
  run (remove_content_call guid content creator at server) ws s =
      (remove_content_at json (ws 0 0) s guid content creator at server).0
  run (add_mission_feed_call guid feed creator now) ws s =
      (add_mission_feed json (ws 0 0) s guid feed creator now).0
  run (remove_mission_feed_call guid uid creator now) ws s =
      (remove_mission_feed json (ws 0 0) s guid uid creator now).0
  run (add_map_layer_call guid l creator) ws s = (add_map_layer json (ws 0 0) s guid l creator).0
  run (update_map_layer_call l) ws s = (update_map_layer json (ws 0 0) s l).0
  run (set_external_data_call guid r creator now) ws s =
      (set_external_data json (ws 0 0) s guid r creator now).0
  run (external_data_change_call guid id action notes creator now) ws s =
      (external_data_change json (ws 0 0) s guid id action notes creator now).0
  run (subscribe_call guid client username role now make_token id) ws s =
      (subscribe json s guid (ws 0 0) client username role now make_token id).0
  run (set_subscription_role_call guid client username role) ws s =
      (set_subscription_role json s guid (ws 0) client username role).0
  run (unsubscribe_call guid client username) ws s =
      (unsubscribe json s guid (ws 0) client username).0
  run (invite_call i) ws s = (invite json (ws 0 0) s i).0
  run (uninvite_call guid invitee kind) ws s = (uninvite json (ws 0 0) s guid invitee kind).0
  run (save_log_entry_call entry) ws s = (save_log_entry json (ws 0 0) s entry).0
  run (delete_log_entry_call id) ws s = (delete_log_entry json (ws 0 0) s id).0
  run (add_layer_call guid l) ws s = (add_layer json (ws 0) s guid l).0
  run (rename_layer_call guid uid name) ws s = (rename_layer json (ws 0) s guid uid name).0
  run (move_layer_call guid uid parent after) ws s = (move_layer json guid uid parent after ws s).0
  run (delete_layer_call guid uid) ws s = (delete_layer json (ws 0) s guid uid).0
