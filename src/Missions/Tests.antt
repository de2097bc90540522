-- ===== src/Missions/Tests.antt =====
-- The properties of src/missions.rs at concrete missions.
use microtak_server.Prelude.{
  not, if◌then◌else◌, ℕ, ◌≤◌, true, false, List, [], ◌∷◌, Option, none, some, ◌≡◌, refl, arith,
  string_eq, length, any, filter, mem,
}
use microtak_server.Prelude.Int.{pos, ◌≤ℤ◌}
use microtak_server.Prelude.Apart.{Apart}
use microtak_server.Prelude.Text.{trim}
use microtak_server.Prelude.Among.{Among}
use microtak_server.Map.{get, insert, modify, values}
use microtak_server.EventLog.{commit, JsonLine, synced, unwritten}
use microtak_server.EventLog.Replay.{IsDurable}
use microtak_server.EventLog.Calls.{run_all}
use microtak_server.EventLog.Sample.{plain_lines}
use microtak_server.Missions.{
  Permission-discrete, Role-discrete, permission_eq, role_eq, has_all, content_eq, has,
  change_type_eq, ChangeRecord, Content, ChangeType-discrete, create_mission, delete_mission,
  add_content, remove_content, owner, subscriber, hash_content, uid_content, MissionFields,
  MissionRecord, MapLayerRecord,
}
use microtak_server.Missions.Json.{has_float, props_float, bool, string, integer}
use microtak_server.Missions.Records.{all_time, invitation_type_eq, SubscriptionRecord}
use microtak_server.Missions.Events.{mission_change, fresh_state, Event}
use microtak_server.Missions.Reducer.{apply}
use microtak_server.Missions.Store.{
  delete, MissionStore, existing, new_record, by_name, is_deleted_name, list, create,
  add_content_at, remove_content_at, NewMission,
}
use microtak_server.Missions.Subscriptions.{
  subscriptions, subscription_by_id, find_subscription, ids, leaves, subscribe, unsubscribe,
}
use microtak_server.Missions.Changes.{
  changes, squashed_changes, squash, kind_of, mine, Key, external_eq, key_eq,
}
use microtak_server.Missions.Calls.{
  Writes, run, Call, add_map_layer_call, update_map_layer_call, create_call, delete_call,
  add_content_call, remove_content_call, subscribe_call,
}
use microtak_server.Missions.Durable.{new_store, missions_survive}
use microtak_server.Missions.History.{Numbered, Extends, changes-Numbered, history_kept}
use microtak_server.Missions.Contents.{attached, contents_agree}
use microtak_server.Missions.Subscribers.{Unique, subscribers-Unique}
use microtak_server.Missions.Subscribing.{subscribe_raises}
use microtak_server.Missions.Unsubscribing.{unsubscribe_exact}
use microtak_server.Missions.Squashed.{Descending, squashed_exact}
use microtak_server.Missions.Squashed.Groups.{key_of}
use microtak_server.Missions.Squashed.Separate.{same_item}
use microtak_server.Missions.Names.{NoneNewer, candidate, by_name_newest}

abbrev json : JsonLine (Option Event) Event
json = plain_lines Event

abbrev all_synced : Writes
all_synced = λ i n. synced

abbrev blank_fields : MissionFields
blank_fields = record {
  description = "";
  chat_room = "";
  base_layer = "";
  bbox = "";
  bounding_polygon = "";
  path = "";
  classification = "";
  expiration = pos 0;
}

abbrev new_mission : NewMission
new_mission = record {
  guid = "g1";
  name = " op ";
  fields = blank_fields;
  tool = "public";
  creator_uid = "ANDROID-1";
  groups = "__ANON__" ∷ [];
  password_hash = none;
  default_role = none;
  invite_only = false;
}

abbrev calls : List (Call × Writes)
calls =
    (create_call new_mission (pos 1), all_synced)
    ∷ (add_content_call "g1" (hash_content "h1") "ANDROID-1" (pos 2) none, all_synced)
    ∷ (add_content_call "g1" (uid_content "u1") "ANDROID-1" (pos 3) none, λ i n. unwritten)
    ∷ (add_content_call "g1" (uid_content "u2") "ANDROID-1" (pos 4) none, all_synced)
    ∷ (remove_content_call "g1" (hash_content "h1") "ANDROID-2" (pos 5) none, all_synced)
    ∷ (subscribe_call "g1" "ANDROID-1" "alice" subscriber (pos 6) (λ id. id) "s1", all_synced)
    ∷ (subscribe_call "g1" "ANDROID-1" "alice" owner (pos 7) (λ id. id) "s2", all_synced)
    ∷ (delete_call "g1" "ANDROID-1" (pos 8), all_synced)
    ∷ []

abbrev store : MissionStore (Option Event)
store = new_store json

abbrev layer : MapLayerRecord
layer = record {
  uid = "l1";
  mission_guid = "g1";
  create_time_ms = pos 9;
  modified_time_ms = pos 9;
  props = ("defaultLayer", bool true) ∷ ("name", string "map") ∷ ("minZoom", integer (pos 3)) ∷ [];
}

-- The layer is stored, and its update is not written.
abbrev layer_calls : List (Call × Writes)
layer_calls =
    (create_call new_mission (pos 1), all_synced)
    ∷ (add_map_layer_call "g1" layer "ANDROID-1", all_synced)
    ∷ (update_map_layer_call layer, λ i n. unwritten)
    ∷ []

missions_survive_example : IsDurable json apply fresh_state (run_all (run json) layer_calls store)
unfolding props_float has_float
missions_survive_example =
    missions_survive json (λ e h. refl) layer_calls
      ((λ i n. tt, tt), ((λ i n. tt, refl), ((λ i n. tt, refl), tt)))

-- Five changes are in the log: the mission, two items, one removal, and the deletion. The append of
-- one item failed.
abbrev after : MissionStore (Option Event)
after = run_all (run json) calls store

after_log : length after.state.changes ≡ 5
unfolding run_all run create add_content_at remove_content_at subscribe delete commit apply get
    insert modify find_subscription subscriptions has_all Role-discrete Permission-discrete
after_log = refl

changes-Numbered_example : Numbered 0 (run_all (run json) calls store).state.changes
changes-Numbered_example = changes-Numbered json calls (omega (arith, after_log))

history_kept_example : Extends store.state (run_all (run json) calls store).state
history_kept_example = history_kept json calls store

-- What is stored of the mission in the end.
abbrev final : MissionRecord
final = record (new_record fresh_state new_mission (pos 1)) {
  contents =
      record { content = uid_content "u2"; timestamp_ms = pos 4; creator_uid = "ANDROID-1" } ∷ [];
  deleted = true;
}

final_stored : get "g1" after.state.missions ≡ some final
unfolding run_all run create add_content_at remove_content_at subscribe delete commit apply get
    insert modify find_subscription subscriptions has_all Role-discrete Permission-discrete
    new_record
final_stored = refl

contents_agree_example :
    has final (uid_content "u2") ≡ attached "g1" (uid_content "u2") after.state.changes
contents_agree_example = contents_agree json calls "g1" (uid_content "u2") final final_stored

subscribers-Unique_example : Unique (subscriptions after.state "g1")
subscribers-Unique_example = subscribers-Unique json calls "g1"

abbrev alice : SubscriptionRecord
alice = record {
  id = "s1";
  token = "s1";
  client_uid = "ANDROID-1";
  username = "alice";
  create_time_ms = pos 6;
  role = subscriber;
}

abbrev bob : SubscriptionRecord
bob = record alice { id = "s3"; client_uid = "ANDROID-2"; username = "bob" }

abbrev with_subs : MissionStore (Option Event)
with_subs = record {
  state = record fresh_state {
    missions = ("g1", record final { deleted = false }) ∷ [];
    subscriptions = ("g1", alice ∷ bob ∷ []) ∷ [];
  };
  log = some [];
}

unsubscribe_exact_example :
    (◌≡◌ {A = ℕ} 1
      (length (ids (filter (leaves "ANDROID-1" none) (subscriptions with_subs.state "g1")))))
    × (any (leaves "ANDROID-1" none) (
          subscriptions
            (unsubscribe json with_subs "g1" (λ n. synced) "ANDROID-1" none).0.state
            "g1")
        ≡ false)
    × (subscriptions (unsubscribe json with_subs "g1" (λ n. synced) "ANDROID-1" none).0.state "g1"
        ≡ filter
            (λ x. not (
              mem x.id
                (ids (filter (leaves "ANDROID-1" none) (subscriptions with_subs.state "g1")))))
            (subscriptions with_subs.state "g1"))
unfolding unsubscribe commit apply get insert modify subscriptions
unsubscribe_exact_example =
    unsubscribe_exact json (λ n. synced) with_subs "g1" "ANDROID-1" none 1 refl

subscribe_raises_example :
    (record alice { role = owner }
      ≡ record alice { role = if has_all owner subscriber then owner else subscriber })
    × (has_all owner subscriber ≡ true)
    × (find_subscription
          (subscribe json with_subs "g1" synced "ANDROID-1" "alice" owner
            (pos 9)
            (λ id. id)
            "s9").0.state
          "g1"
          "ANDROID-1"
          "alice"
        ≡ some (record alice { role = owner }))
unfolding subscribe existing commit apply get insert modify find_subscription subscription_by_id
    has_all Role-discrete Permission-discrete
subscribe_raises_example =
    subscribe_raises json synced with_subs "g1" "ANDROID-1" "alice" owner (pos 9) (λ id. id) "s9"
      alice (record alice { role = owner }) refl refl refl

by_name_newest_example :
    ((m : MissionRecord)
      → by_name with_subs.state "op" (λ m. true) ≡ some m
      → (candidate "op" (λ m. true) m ≡ true)
        × Among m (values with_subs.state.missions)
        × NoneNewer m (filter (candidate "op" (λ m. true)) (values with_subs.state.missions)))
    × (by_name with_subs.state "op" (λ m. true) ≡ none
        → any (candidate "op" (λ m. true)) (values with_subs.state.missions) ≡ false)
by_name_newest_example = by_name_newest with_subs.state "op" (λ m. true)

-- The name is compared without the white space around it, and a deleted mission is not found.
names :
    (by_name with_subs.state " op " (λ m. true) ≡ some (record final { deleted = false }))
    × (by_name after.state "op" (λ m. true) ≡ none)
    × (is_deleted_name after.state "op" ≡ true)
    × (list with_subs.state ≡ record final { deleted = false } ∷ [])
unfolding by_name is_deleted_name list trim new_record run_all run create add_content_at
    remove_content_at subscribe delete commit apply get insert modify find_subscription
    subscriptions has_all Role-discrete Permission-discrete
names = (refl, refl, refl, refl)

-- The squashed view leaves out the item that was added and then removed.
abbrev view : List ChangeRecord
view =
    mission_change 4 delete_mission "g1" "op" none "ANDROID-1" (pos 8) (pos 8)
    ∷ mission_change 3 remove_content "g1" "op" (some (hash_content "h1")) "ANDROID-2" (pos 5)
        (pos 5)
    ∷ mission_change 2 add_content "g1" "op" (some (uid_content "u2")) "ANDROID-1" (pos 4) (pos 4)
    ∷ mission_change 0 create_mission "g1" "op" none "ANDROID-1" (pos 1) (pos 1)
    ∷ []

squashed_exact_example :
    Descending view
    × Apart same_item view
    × ((c : ChangeRecord) (k : Key Content)
        → Among c view
        → key_of c ≡ some k
        → k.is_add ≡ has final k.about)
    × ((c : ChangeRecord) (k : Key Content)
        → Among c (mine after.state "g1" all_time)
        → key_of c ≡ some k
        → k.is_add ≡ has final k.about
        → pos 1 ≤ℤ c.timestamp_ms
        → (d : ChangeRecord) × Among d view × (key_of d ≡ some k) × (c.id ≤ d.id))
unfolding existing changes squashed_changes squash kind_of has run_all run create add_content_at
    remove_content_at subscribe delete commit apply get insert modify find_subscription
    subscriptions has_all Role-discrete Permission-discrete ChangeType-discrete new_record
squashed_exact_example = squashed_exact after.state "g1" all_time final view refl refl
