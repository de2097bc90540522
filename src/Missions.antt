-- ===== src/Missions.antt =====
-- The data of missions, src/missions.rs: roles, contents, and the records that the store keeps.
pub mod Json
pub mod Records
pub mod Events
pub mod Reducer
pub mod Store
pub mod Attachments
pub mod Subscriptions
pub mod Invitations
pub mod Changes
pub mod Layers
pub mod Steps
pub mod Calls
pub mod Parts
pub mod Legal
pub mod Durable
pub mod History
pub mod Contents
pub mod Subscribers
pub mod Answers
pub mod Subscribing
pub mod Unsubscribing
pub mod Names
pub mod Squashed
mod Tests
use microtak_server.Prelude.{
  ℕ, String, Bool, true, false, List, [], ◌∷◌, Option, none, some, ◌≡◌, ◌↔◌, arith, Eq, ◌==◌,
  string_eq, discrete_eq, any, all, mem, if◌then◌else◌, is_some, unwrap_or, ◌&&◌,
}
use microtak_server.Prelude.Int.{ℤ, pos, negsuc, leb_ℤ}
use microtak_server.Missions.Json.{Value}
use microtak_server.Map.{Map}
use microtak_server.EventLog.{EventLogError}

pub data MissionError : Type 0 where
  not_found : (guid : String) → MissionError
  event_log : EventLogError → MissionError

pub data Permission : Type 0 where
  mission_read mission_write mission_delete mission_set_role mission_set_password
        mission_update_groups mission_manage_feeds mission_manage_layers :
      Permission

pub data Role : Type 0 where
  owner subscriber read_only_subscriber : Role

unfoldable pub Permission-discrete : Discrete Permission
Permission-discrete = hlevel

unfoldable pub Role-discrete : Discrete Role
Role-discrete = hlevel

instance abbrev pub permission_eq : Eq Permission
permission_eq = discrete_eq Permission-discrete

instance abbrev pub role_eq : Eq Role
role_eq = discrete_eq Role-discrete

unfoldable pub role_name : Role → String
role_name owner = "MISSION_OWNER"
role_name subscriber = "MISSION_SUBSCRIBER"
role_name read_only_subscriber = "MISSION_READONLY_SUBSCRIBER"

unfoldable pub parse_role : String → Option Role
parse_role s =
    if s == "MISSION_OWNER"
    then some owner
    else if s == "MISSION_SUBSCRIBER"
    then some subscriber
    else if s == "MISSION_READONLY_SUBSCRIBER"
    then some read_only_subscriber
    else none

unfoldable pub permissions : Role → List Permission
permissions owner =
    mission_read ∷ mission_write ∷ mission_delete ∷ mission_set_role ∷ mission_set_password
    ∷ mission_update_groups ∷ mission_manage_feeds ∷ mission_manage_layers ∷ []
permissions subscriber = mission_read ∷ mission_write ∷ []
permissions read_only_subscriber = mission_read ∷ []

-- `Role::has` and `Role::has_all`.
unfoldable pub role_has : Role → Permission → Bool
unfolding permissions
role_has r p = mem p (permissions r)

unfoldable pub has_all : Role → Role → Bool
unfolding permissions role_has
has_all r other = all (role_has r) (permissions other)

-- An attached item: an uploaded file or a CoT event.
pub data Content : Type 0 where
  hash_content uid_content : String → Content

abbrev pub content_eqb : Content → Content → Bool
content_eqb (hash_content a) (hash_content b) = a == b
content_eqb (uid_content a) (uid_content b) = a == b
content_eqb _ _ = false

pub content_eqb_iff : (a b : Content) → (content_eqb a b ≡ true) ↔ (a ≡ b)
content_eqb_iff (hash_content a) (hash_content b) = ground (arith, string_eq.beq_iff a b)
content_eqb_iff (uid_content a) (uid_content b) = ground (arith, string_eq.beq_iff a b)
content_eqb_iff (hash_content a) (uid_content b) = ground arith
content_eqb_iff (uid_content a) (hash_content b) = ground arith

instance abbrev pub content_eq : Eq Content
content_eq = record { beq = content_eqb; beq_iff = content_eqb_iff }

pub record ContentAdd : Type 0 where
  pub content : Content
  pub timestamp_ms : ℤ
  pub creator_uid : String

pub record MissionFields : Type 0 where
  pub description : String
  pub chat_room : String
  pub base_layer : String
  pub bbox : String
  pub bounding_polygon : String
  pub path : String
  pub classification : String
  pub expiration : ℤ

pub record MissionRecord : Type 0 where
  pub id : ℕ
  pub guid : String
  pub name : String
  pub fields : MissionFields
  pub tool : String
  pub creator_uid : String
  pub create_time_ms : ℤ
  pub last_edited_ms : ℤ
  pub groups : List String
  pub password_hash : Option String
  pub default_role : Option Role
  pub invite_only : Bool
  pub keywords : List String
  pub content_keywords : Map Content (List String)
  pub contents : List ContentAdd
  pub deleted : Bool

unfoldable pub password_protected : MissionRecord → Bool
password_protected m = is_some m.password_hash

-- `Role::DEFAULT` is the subscriber.
unfoldable pub effective_default_role : MissionRecord → Role
effective_default_role m = unwrap_or m.default_role subscriber

abbrev pub holds : Content → List ContentAdd → Bool
holds content contents = any (λ c. c.content == content) contents

-- `MissionRecord::has`
unfoldable pub has : MissionRecord → Content → Bool
has m content = holds content m.contents

pub data ChangeType : Type 0 where
  create_mission delete_mission add_content remove_content create_data_feed delete_data_feed :
      ChangeType

unfoldable pub ChangeType-discrete : Discrete ChangeType
ChangeType-discrete = hlevel

instance abbrev pub change_type_eq : Eq ChangeType
change_type_eq = discrete_eq ChangeType-discrete

pub record ExternalDataRecord : Type 0 where
  pub id : String
  pub name : String
  pub tool : String
  pub url_data : String
  pub url_display : String
  pub notes : String
  pub mission_guid : String

pub record MissionFeedRecord : Type 0 where
  pub uid : String
  pub mission_guid : String
  pub data_feed_uid : String
  pub filter_polygon : Option String
  pub filter_cot_types_serialized : Option String
  pub filter_callsign : Option String

pub record MapLayerRecord : Type 0 where
  pub uid : String
  pub mission_guid : String
  pub create_time_ms : ℤ
  pub modified_time_ms : ℤ
  pub props : Map String Value

pub data ExternalDataAction : Type 0 where
  delete : ExternalDataAction
  changed : (token : String) → ExternalDataAction

pub record ExternalDataChange : Type 0 where
  pub uid : String
  pub name : String
  pub tool : String
  pub token : Option String
  pub notes : Option String

pub record ChangeRecord : Type 0 where
  pub id : ℕ
  pub change_type : ChangeType
  pub mission_guid : String
  pub mission_name : String
  pub content : Option Content
  pub creator_uid : String
  pub timestamp_ms : ℤ
  pub server_time_ms : ℤ
  pub external_data : Option ExternalDataChange
  pub map_layer_uid : Option String
  pub mission_feed_uid : Option String
