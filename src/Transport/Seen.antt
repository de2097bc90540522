-- ===== src/Transport/Seen.antt =====
-- When an identity was last there, src/transport/seen.rs. The file of the store is not in the model,
-- only what `load` makes of its records.
use microtak_server.Prelude.{
  String, Bool, true, false, not, List, Option, none, some, ◌==◌, string_eq, option_eq,
  if◌then◌else◌,
}
use microtak_server.Prelude.Int.{ℤ}
use microtak_server.Map.{Map, get, insert, modify, map_values, values}

pub data Transport : Type 0 where
  tcp tls : Transport

pub record SeenRecord : Type 0 where
  pub common_name : String
  pub uid : Option String
  pub transport : Transport
  pub last_seen_unix : ℤ
  pub connected : Bool

abbrev pub Seen : Type 0
Seen = Map String SeenRecord

unfoldable pub load : Seen → Seen
load records = map_values (λ r. record r { connected = false }) records

abbrev pub or_uid : Option String → Option String → Option String
or_uid (some uid) old = some uid
or_uid none old = old

-- `entry(..).or_insert_with(..)`, then the changes to the entry.
abbrev pub connected_record :
    String → Option String → Transport → ℤ → Option SeenRecord → SeenRecord
connected_record common_name uid transport now none = record {
  common_name = common_name;
  uid = uid;
  transport = transport;
  last_seen_unix = now;
  connected = true;
}
connected_record common_name uid transport now (some r) = record {
  common_name = r.common_name;
  uid = or_uid uid r.uid;
  transport = transport;
  last_seen_unix = now;
  connected = true;
}

unfoldable pub mark_connected :
    Seen → (common_name : String) → (uid : Option String) → Transport → (now_unix : ℤ) → Seen
mark_connected records common_name uid transport now =
    insert common_name (connected_record common_name uid transport now (get common_name records))
      records

-- The record is written only if the uid is another one; the records are the same either way.
unfoldable pub set_seen_uid : Seen → (common_name uid : String) → Seen
set_seen_uid records common_name uid =
    modify common_name (λ r. if not (r.uid == some uid) then record r { uid = some uid } else r)
      records

unfoldable pub mark_disconnected : Seen → (common_name : String) → (now_unix : ℤ) → Seen
mark_disconnected records common_name now =
    modify common_name (λ r. record r { connected = false; last_seen_unix = now }) records

abbrev pub all_seen : Seen → List SeenRecord
all_seen records = values records
