-- ===== src/Missions/Store.antt =====
-- The mission store of src/missions.rs: missions, their fields and their contents. The clock, the
-- new guid and what the file system answers to an append are arguments.
use Prim.Native.Nat.{max}
use microtak_server.Prelude.{
  String, Bool, true, false, not, ◌&&◌, List, [], ◌∷◌, ◌++◌, Option, none, some, Result, ok, err,
  ◌>>=◌, ◌==◌, string_eq, if◌then◌else◌, filter, all, any, mem,
}
use microtak_server.Prelude.Int.{leb_ℤ, int_eq, ℤ}
use microtak_server.Prelude.Bytes.{codes, bytes_leb}
use microtak_server.Prelude.Sort.{insert_by, sort_by}
use microtak_server.Map.{get, values}
use microtak_server.EventLog.{record_checked, JsonLine, Write, Store}
use microtak_server.Prelude.Text.{trim}
use microtak_server.Missions.{
  permission_eq, role_eq, content_eq, change_type_eq, MissionError, not_found, event_log, Role,
  Content, MissionFields, MissionRecord,
}
use microtak_server.Missions.Records.{invitation_type_eq}
use microtak_server.Missions.Events.{
  Event, created, fields_set, password_set, default_role_set, groups_set, keywords_set,
  content_keywords_set, deleted, content_added, content_removed, State,
}
use microtak_server.Missions.Reducer.{apply}

abbrev pub MissionStore : Type 0 → Type 0
MissionStore L = Store L State

-- `missions.get(guid).ok_or_else(..)`
unfoldable pub existing : State → String → Result MissionError MissionRecord
existing s guid = elim (get guid s.missions) [ none ↦ err (not_found guid) | some m ↦ ok m ]

unfoldable pub check_existing : State → String → Result MissionError (Unit {0})
unfolding existing
check_existing s guid = existing s guid >>= λ m. ok tt

pub record NewMission : Type 0 where
  pub guid : String
  pub name : String
  pub fields : MissionFields
  pub tool : String
  pub creator_uid : String
  pub groups : List String
  pub password_hash : Option String
  pub default_role : Option Role
  pub invite_only : Bool

unfoldable pub new_record : State → NewMission → (now_ms : ℤ) → MissionRecord
unfolding trim
new_record s new now = record {
  id = max s.next_mission_id 1;
  guid = new.guid;
  name = trim new.name;
  fields = new.fields;
  tool = new.tool;
  creator_uid = new.creator_uid;
  create_time_ms = now;
  last_edited_ms = now;
  groups = new.groups;
  password_hash = new.password_hash;
  default_role = new.default_role;
  invite_only = new.invite_only;
  keywords = [];
  content_keywords = [];
  contents = [];
  deleted = false;
}

-- `?` on the answer of `record`, then a value read off the state.
unfoldable pub and_then {ℓ} :
    {L : Type 0} {A : Type ℓ}
    → MissionStore L × Result MissionError (Unit {0})
    → (State → A)
    → MissionStore L × Result MissionError A
and_then (s, ok u) f = (s, ok (f s.state))
and_then (s, err e) f = (s, err e)

unfoldable pub by_guid : State → String → Option MissionRecord
by_guid s guid = get guid s.missions

-- `max_by_key(|m| m.create_time_ms)`: the last of the greatest.
unfoldable pub newest : Option MissionRecord → List MissionRecord → Option MissionRecord
newest best [] = best
newest none (m ∷ ms) = newest (some m) ms
newest (some b) (m ∷ ms) =
    newest (some (if leb_ℤ b.create_time_ms m.create_time_ms then m else b)) ms

unfoldable pub by_name : State → String → (visible : MissionRecord → Bool) → Option MissionRecord
unfolding trim newest
by_name s name visible =
    newest none
      (filter (λ m. not m.deleted && (m.name == trim name && visible m)) (values s.missions))

unfoldable pub is_deleted_name : State → String → Bool
unfolding trim
is_deleted_name s name =
    let same = filter (λ m. m.name == trim name) (values s.missions) in
    any (λ m. true) same && all (λ m. m.deleted) same

-- By name, then by the time of creation.
abbrev listed_before : MissionRecord → MissionRecord → Bool
listed_before a b =
    if a.name == b.name
    then leb_ℤ a.create_time_ms b.create_time_ms
    else bytes_leb (codes a.name) (codes b.name)

unfoldable pub list : State → List MissionRecord
unfolding sort_by insert_by
list s = sort_by listed_before (filter (λ m. not m.deleted) (values s.missions))

-- `if !unique.contains(&k) { unique.push(k) }`
unfoldable pub unique_of : (unique : List String) → List String → List String
unique_of unique [] = unique
unique_of unique (k ∷ ks) = unique_of (if mem k unique then unique else unique ++ k ∷ []) ks

module _ {L : Type 0} (json : JsonLine L Event) where
  -- `record`, after checks that leave early.
  unfoldable pub checked :
      Result MissionError (Unit {0})
      → Write
      → MissionStore L
      → Event
      → MissionStore L × Result MissionError (Unit {0})
  unfolding record_checked
  checked = record_checked json apply event_log

  -- `record`
  unfoldable pub record_event :
      Write → MissionStore L → Event → MissionStore L × Result MissionError (Unit {0})
  unfolding checked
  record_event = checked (ok tt)

  unfoldable pub create :
      Write
      → MissionStore L
      → NewMission
      → (now_ms : ℤ) → MissionStore L × Result MissionError MissionRecord
  unfolding record_event and_then new_record
  create w s new now =
      and_then (record_event w s (created (new_record s.state new now) s.state.next_change_id))
        (λ s'. new_record s.state new now)

  -- A change of one existing mission.
  unfoldable pub on_existing :
      String → Write → MissionStore L → Event → MissionStore L × Result MissionError (Unit {0})
  unfolding checked check_existing
  on_existing guid w s event = checked (check_existing s.state guid) w s event

  module _ (w : Write) (s : MissionStore L) (guid : String) where
    unfoldable pub set_fields :
        MissionFields → (now_ms : ℤ) → MissionStore L × Result MissionError (Unit {0})
    unfolding on_existing
    set_fields fields now = on_existing guid w s (fields_set guid fields now)

    unfoldable pub set_password :
        Option String → (now_ms : ℤ) → MissionStore L × Result MissionError (Unit {0})
    unfolding on_existing
    set_password hash now = on_existing guid w s (password_set guid hash now)

    unfoldable pub set_default_role :
        Option Role → (now_ms : ℤ) → MissionStore L × Result MissionError (Unit {0})
    unfolding on_existing
    set_default_role role now = on_existing guid w s (default_role_set guid role now)

    unfoldable pub set_groups :
        List String → (now_ms : ℤ) → MissionStore L × Result MissionError (Unit {0})
    unfolding on_existing
    set_groups groups now = on_existing guid w s (groups_set guid groups now)

    unfoldable pub set_keywords :
        List String → (now_ms : ℤ) → MissionStore L × Result MissionError (Unit {0})
    unfolding on_existing
    set_keywords keywords now = on_existing guid w s (keywords_set guid keywords now)

    unfoldable pub set_content_keywords :
        Content → List String → MissionStore L × Result MissionError (Unit {0})
    unfolding on_existing unique_of
    set_content_keywords content keywords =
        on_existing guid w s (content_keywords_set guid content (unique_of [] keywords))

    -- `state.missions[guid]`: the mission is there, since deletion keeps it.
    unfoldable pub delete :
        (creator_uid : String)
        → (now_ms : ℤ) → MissionStore L × Result MissionError (Option MissionRecord)
    unfolding on_existing and_then
    delete creator now =
        and_then (on_existing guid w s (deleted guid creator now s.state.next_change_id))
          (λ s'. get guid s'.missions)

    unfoldable pub add_content_at :
        Content
        → (creator_uid : String) → (at_ms : ℤ) → (server_ms : Option ℤ)
        → MissionStore L × Result MissionError (Unit {0})
    unfolding on_existing
    add_content_at content creator at server =
        on_existing guid w s (content_added guid content creator at s.state.next_change_id server)

    unfoldable pub remove_content_at :
        Content
        → (creator_uid : String) → (at_ms : ℤ) → (server_ms : Option ℤ)
        → MissionStore L × Result MissionError (Unit {0})
    unfolding on_existing
    remove_content_at content creator at server =
        on_existing guid w s (content_removed guid content creator at s.state.next_change_id server)

    unfoldable pub add_content :
        Content
        → (creator_uid : String) → (now_ms : ℤ) → MissionStore L × Result MissionError (Unit {0})
    unfolding add_content_at
    add_content content creator now = add_content_at content creator now none

    unfoldable pub remove_content :
        Content
        → (creator_uid : String) → (now_ms : ℤ) → MissionStore L × Result MissionError (Unit {0})
    unfolding remove_content_at
    remove_content content creator now = remove_content_at content creator now none
