-- ===== src/Transport/Hub.antt =====
-- Who a message is delivered to, src/transport/hub.rs. The cached protobuf frame of a message has no
-- part in it.
pub mod Reach
pub mod Cache
mod Tests
use microtak_server.Prelude.{
  ℕ, String, Bool, true, false, not, ◌&&◌, List, [], ◌∷◌, Option, none, some, ◌==◌, string_eq,
  option_eq, mem, any, is_some, if◌then◌else◌,
}
use microtak_server.Net.{IpAddr, v4, SocketAddr}
use microtak_server.Groups.{anon_group}

pub data Origin : Type 0 where
  client : Origin
  server : (skip_uid : Option String) → Origin

pub record Outbound : Type 0 where
  pub sender : SocketAddr
  pub xml : String
  pub dest_uids : Option (List String)
  pub groups : List String
  pub origin : Origin

abbrev pub server_addr : SocketAddr
server_addr = record { ip = v4 0; port = 0 }

abbrev pub server_to : (uids : List String) → (xml : String) → Outbound
server_to uids xml = record {
  sender = server_addr;
  xml = xml;
  dest_uids = some uids;
  groups = [];
  origin = server none;
}

abbrev pub server_broadcast :
    (groups : List String) → (skip_uid : Option String) → (xml : String) → Outbound
server_broadcast groups skip_uid xml = record {
  sender = server_addr;
  xml = xml;
  dest_uids = none;
  groups = groups;
  origin = server skip_uid;
}

-- The arms of the match on the origin, in their order.
abbrev pub always_reaches : Origin → (addressed : Bool) → (groups : List String) → Bool
always_reaches (server skip_uid) true groups = true
always_reaches (server skip_uid) false groups = mem anon_group groups
always_reaches client addressed groups = false

unfoldable pub reaches : Outbound → (receiver_out_groups : List String) → Bool
reaches m receiver_out_groups =
    if always_reaches m.origin (is_some m.dest_uids) m.groups
    then true
    else any (λ group. mem group receiver_out_groups) m.groups

-- `if let Origin::Server { skip_uid: Some(skip) } = &self.origin && my_uid == Some(skip)`
abbrev pub is_skipped : Origin → Option String → Bool
is_skipped (server (some skip)) my_uid = my_uid == some skip
is_skipped _ my_uid = false

abbrev pub is_addressed : Option (List String) → Option String → Bool
is_addressed none my_uid = true
is_addressed (some uids) none = false
is_addressed (some uids) (some uid) = any (λ u. u == uid) uids

unfoldable pub is_deliverable_to : Outbound → Option String → Bool
is_deliverable_to m my_uid =
    if is_skipped m.origin my_uid then false else is_addressed m.dest_uids my_uid
