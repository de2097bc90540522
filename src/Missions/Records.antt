-- ===== src/Missions/Records.antt =====
-- Subscriptions, invitations, log entries and layers of missions, src/missions.rs.
use microtak_server.Prelude.{
  ℕ, ◌+◌, ◌-◌, ◌^◌, String, Bool, ◌&&◌, leb, List, Option, none, some, Eq, ◌==◌, string_eq,
  discrete_eq, map, if◌then◌else◌,
}
use microtak_server.Prelude.Bytes.{codes, bytes_eqb}
use microtak_server.Prelude.Int.{ℤ, pos, negsuc, leb_ℤ}
use microtak_server.Missions.{Role}

pub record SubscriptionRecord : Type 0 where
  pub id : String
  pub token : String
  pub client_uid : String
  pub username : String
  pub create_time_ms : ℤ
  pub role : Role

pub data InvitationType : Type 0 where
  client_uid callsign user_name group team : InvitationType

unfoldable pub InvitationType-discrete : Discrete InvitationType
InvitationType-discrete = hlevel

instance abbrev pub invitation_type_eq : Eq InvitationType
invitation_type_eq = discrete_eq InvitationType-discrete

unfoldable pub parse_invitation_type : String → Option InvitationType
parse_invitation_type s =
    if s == "clientUid"
    then some client_uid
    else if s == "callsign"
    then some callsign
    else if s == "userName"
    then some user_name
    else if s == "group"
    then some group
    else if s == "team"
    then some team
    else none

unfoldable pub invitation_type_name : InvitationType → String
invitation_type_name client_uid = "clientUid"
invitation_type_name callsign = "callsign"
invitation_type_name user_name = "userName"
invitation_type_name group = "group"
invitation_type_name team = "team"

pub record InvitationRecord : Type 0 where
  pub mission_guid : String
  pub mission_name : String
  pub invitee : String
  pub invitation_type : InvitationType
  pub creator_uid : String
  pub create_time_ms : ℤ
  pub token : String
  pub role : Role

to_ascii_lowercase : ℕ → ℕ
to_ascii_lowercase c = if leb b'A' c && leb c b'Z' then c + 32 else c

unfoldable pub eq_ignore_ascii_case : String → String → Bool
unfolding to_ascii_lowercase
eq_ignore_ascii_case a b =
    bytes_eqb (map to_ascii_lowercase (codes a)) (map to_ascii_lowercase (codes b))

-- The same invitee is invited in the same way to the same mission.
unfoldable pub same_invitation :
    (guid : String) → InvitationType → (invitee : String) → InvitationRecord → Bool
same_invitation guid kind invitee i =
    i.mission_guid == guid && i.invitation_type == kind && eq_ignore_ascii_case i.invitee invitee

pub record LogEntryRecord : Type 0 where
  pub id : String
  pub content : String
  pub creator_uid : String
  pub entry_uid : String
  pub mission_names : List String
  pub server_time_ms : ℤ
  pub dtg_ms : Option ℤ
  pub created_ms : Option ℤ
  pub content_hashes : List String
  pub keywords : List String

pub data LayerType : Type 0 where
  group_layer uid_layer contents_layer maplayer_layer item_layer : LayerType

unfoldable pub parse_layer_type : String → Option LayerType
parse_layer_type s =
    if s == "GROUP"
    then some group_layer
    else if s == "UID"
    then some uid_layer
    else if s == "CONTENTS"
    then some contents_layer
    else if s == "MAPLAYER"
    then some maplayer_layer
    else if s == "ITEM"
    then some item_layer
    else none

unfoldable pub layer_type_name : LayerType → String
layer_type_name group_layer = "GROUP"
layer_type_name uid_layer = "UID"
layer_type_name contents_layer = "CONTENTS"
layer_type_name maplayer_layer = "MAPLAYER"
layer_type_name item_layer = "ITEM"

pub record LayerRecord : Type 0 where
  pub uid : String
  pub name : Option String
  pub layer_type : LayerType
  pub parent : Option String
  pub after : Option String

-- A range of instants, both ends included.
pub record Window : Type 0 where
  pub start_ms : ℤ
  pub end_ms : ℤ

-- `Window::ALL`
abbrev pub all_time : Window
all_time = record { start_ms = negsuc (2 ^ 63 - 1); end_ms = pos (2 ^ 63 - 1) }

unfoldable pub window_contains : Window → ℤ → Bool
window_contains w t = leb_ℤ w.start_ms t && leb_ℤ t w.end_ms
