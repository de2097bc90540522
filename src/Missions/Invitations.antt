-- ===== src/Missions/Invitations.antt =====
-- Invitations to missions and the entries of their logs, src/missions.rs.
use microtak_server.Prelude.{
  String, Bool, true, false, not, ◌&&◌, List, Option, none, some, Result, ok, ◌==◌, string_eq,
  option_eq, if◌then◌else◌, filter, find, any,
}
use microtak_server.Prelude.Int.{int_eq}
use microtak_server.Prelude.Sort.{insert_sorted, sort_by_key}
use microtak_server.Map.{get, values}
use microtak_server.EventLog.{JsonLine, Write}
use microtak_server.Missions.{
  permission_eq, role_eq, content_eq, change_type_eq, MissionError, MissionRecord,
}
use microtak_server.Missions.Records.{
  invitation_type_eq, eq_ignore_ascii_case, window_contains, InvitationType, InvitationRecord,
  LogEntryRecord, Window,
}
use microtak_server.Missions.Events.{
  Event, invited, uninvited, log_entry_saved, log_entry_deleted, State,
}
use microtak_server.Missions.Store.{MissionStore, existing, and_then, record_event}
use microtak_server.Missions.Attachments.{if_existing}

unfoldable pub invitations : State → String → List InvitationRecord
invitations s guid = filter (λ i. i.mission_guid == guid) s.invitations

abbrev pub not_deleted : Option MissionRecord → Bool
not_deleted none = false
not_deleted (some m) = not m.deleted

unfoldable pub invitations_for : State → (invitee : String) → InvitationType → List InvitationRecord
unfolding eq_ignore_ascii_case
invitations_for s invitee kind =
    filter
      (λ i.
        i.invitation_type == kind
        && eq_ignore_ascii_case i.invitee invitee
        && not_deleted (get i.mission_guid s.missions))
      s.invitations

unfoldable pub invitation_by_token : State → (token : String) → Option InvitationRecord
invitation_by_token s token = find (λ i. i.token == token) s.invitations

-- The duplicate that `invite` looks for; the invitee is compared as it is written.
abbrev pub duplicates : InvitationRecord → InvitationRecord → Bool
duplicates new i =
    i.mission_guid == new.mission_guid
    && i.invitation_type == new.invitation_type
    && i.invitee == new.invitee

unfoldable pub log_entry : State → String → Option LogEntryRecord
log_entry s id = get id s.logs

unfoldable pub all_log_entries : State → List LogEntryRecord
all_log_entries s = values s.logs

unfoldable pub log_entries_for : State → (mission_name : String) → Window → List LogEntryRecord
unfolding window_contains sort_by_key insert_sorted
log_entries_for s name window =
    sort_by_key (λ e. e.server_time_ms)
      (filter (λ e. any (λ n. n == name) e.mission_names && window_contains window e.server_time_ms)
        (values s.logs))

module _ {L : Type 0} (json : JsonLine L Event) (w : Write) (s : MissionStore L) where
  unfoldable pub invite : InvitationRecord → MissionStore L × Result MissionError Bool
  unfolding if_existing and_then record_event
  invite i = if_existing json (existing s.state i.mission_guid) s (
      if any (duplicates i) s.state.invitations
      then (s, ok false)
      else and_then (record_event json w s (invited i)) (λ s'. true))

  unfoldable pub uninvite :
      (guid invitee : String) → InvitationType → MissionStore L × Result MissionError (Unit {0})
  unfolding record_event
  uninvite guid invitee kind = record_event json w s (uninvited guid invitee kind)

  unfoldable pub save_log_entry :
      LogEntryRecord → MissionStore L × Result MissionError LogEntryRecord
  unfolding and_then record_event
  save_log_entry entry = and_then (record_event json w s (log_entry_saved entry)) (λ s'. entry)

  unfoldable pub delete_log_entry : String → MissionStore L × Result MissionError (Unit {0})
  unfolding record_event
  delete_log_entry id = record_event json w s (log_entry_deleted id)
