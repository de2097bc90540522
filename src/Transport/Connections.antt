-- ===== src/Transport/Connections.antt =====
-- Who is connected now, src/transport/connections.rs. The clock is an argument of the operations.
pub mod Registered
pub mod Endpoints
mod Tests
use microtak_server.Prelude.{
  ℕ, suc, ◌+◌, ◌%◌, ◌^◌, String, Bool, true, false, not, ◌&&◌, List, [], ◌∷◌, ◌++◌, Option, none,
  some, ◌==◌, string_eq, option_eq, mem, is_some, unwrap_or, if◌then◌else◌, map, filter,
}
use microtak_server.Prelude.Int.{ℤ, pos}
use microtak_server.Prelude.Sort.{sort_by_key}
use microtak_server.Map.{Map, map_option, get, insert, remove, modify, contains_key, values}
use microtak_server.Net.{SocketAddr, socket_eq}
use microtak_server.Transport.Seen.{
  Transport, tcp, tls, SeenRecord, Seen, mark_connected, set_seen_uid, mark_disconnected, all_seen,
}

pub record ClientEndpoint : Type 0 where
  pub remote_addr : SocketAddr
  pub transport : Transport
  pub common_name : Option String
  pub uid : Option String
  pub connected_at_unix : ℤ

pub data LastStatus : Type 0 where
  connected disconnected : LastStatus

pub record EndpointView : Type 0 where
  pub remote_addr : Option SocketAddr
  pub transport : Option Transport
  pub common_name : Option String
  pub uid : Option String
  pub connected_at_unix : Option ℤ
  pub last_status : LastStatus
  pub last_seen_unix : ℤ

-- `next_number` is an `AtomicU64`.
pub record ConnectedClients : Type 0 where
  pub clients : Map SocketAddr ClientEndpoint
  pub numbers : Map SocketAddr ℕ
  pub next_number : ℕ
  pub latest_sa : Map SocketAddr String
  pub seen : Seen

abbrev pub with_seen : Seen → ConnectedClients
with_seen seen = record { clients = []; numbers = []; next_number = 0; latest_sa = []; seen = seen }

abbrev pub seen_connected : Seen → Option String → ClientEndpoint → ℤ → Seen
seen_connected seen none endpoint now = seen
seen_connected seen (some cn) endpoint now =
    mark_connected seen cn endpoint.uid endpoint.transport now

unfoldable pub register : ConnectedClients → ClientEndpoint → (now_unix : ℤ) → ConnectedClients
register c endpoint now = record {
  clients = insert endpoint.remote_addr endpoint c.clients;
  numbers = insert endpoint.remote_addr ((c.next_number + 1) % 2 ^ 64) c.numbers;
  next_number = (c.next_number + 1) % 2 ^ 64;
  latest_sa = c.latest_sa;
  seen = seen_connected c.seen endpoint.common_name endpoint now;
}

-- `removed.and_then(|endpoint| endpoint.common_name)`
abbrev pub name_of : Option ClientEndpoint → Option String
name_of none = none
name_of (some endpoint) = endpoint.common_name

abbrev pub seen_disconnected : Seen → Option String → ℤ → Seen
seen_disconnected seen none now = seen
seen_disconnected seen (some cn) now = mark_disconnected seen cn now

unfoldable pub unregister : ConnectedClients → SocketAddr → (now_unix : ℤ) → ConnectedClients
unregister c remote_addr now = record c {
  clients = remove remote_addr c.clients;
  numbers = remove remote_addr c.numbers;
  latest_sa = remove remote_addr c.latest_sa;
  seen = seen_disconnected c.seen (name_of (get remote_addr c.clients)) now;
}

-- Its test and its insert are under two locks: one step here, since the calls of a connection come one
-- after the other.
unfoldable pub set_latest_sa : ConnectedClients → SocketAddr → (xml : String) → ConnectedClients
set_latest_sa c remote_addr xml =
    if contains_key remote_addr c.clients
    then record c { latest_sa = insert remote_addr xml c.latest_sa }
    else c

abbrev pub seen_uid : Seen → Option String → String → Seen
seen_uid seen none uid = seen
seen_uid seen (some cn) uid = set_seen_uid seen cn uid

unfoldable pub set_uid : ConnectedClients → SocketAddr → (uid : String) → ConnectedClients
set_uid c remote_addr uid = record c {
  clients = modify remote_addr (λ endpoint. record endpoint { uid = some uid }) c.clients;
  seen = seen_uid c.seen (name_of (get remote_addr c.clients)) uid;
}

abbrev pub sa_row :
    ConnectedClients
    → SocketAddr
    → String
    → Option ClientEndpoint
    → List (ℕ × (ClientEndpoint × String))
sa_row c addr xml none = []
sa_row c addr xml (some endpoint) = (unwrap_or (get addr c.numbers) 0, (endpoint, xml)) ∷ []

abbrev pub sa_rows :
    ConnectedClients → SocketAddr → Map SocketAddr String → List (ℕ × (ClientEndpoint × String))
sa_rows c remote_addr [] = []
sa_rows c remote_addr ((addr, xml) ∷ rest) =
    let others = sa_rows c remote_addr rest in
    if not (addr == remote_addr) then sa_row c addr xml (get addr c.clients) ++ others else others

pub latest_sas_except : ConnectedClients → SocketAddr → List (ClientEndpoint × String)
latest_sas_except c remote_addr =
    map (λ r. r.1) (sort_by_key (λ r. pos r.0) (sa_rows c remote_addr c.latest_sa))

abbrev pub live_view : ℤ → ClientEndpoint → EndpointView
live_view now e = record {
  remote_addr = some e.remote_addr;
  transport = some e.transport;
  common_name = e.common_name;
  uid = e.uid;
  connected_at_unix = some e.connected_at_unix;
  last_status = connected;
  last_seen_unix = now;
}

abbrev pub offline_view : SeenRecord → EndpointView
offline_view r = record {
  remote_addr = none;
  transport = some r.transport;
  common_name = some r.common_name;
  uid = r.uid;
  connected_at_unix = none;
  last_status = disconnected;
  last_seen_unix = r.last_seen_unix;
}

-- The names that live connections carry.
abbrev pub connected_cns : List ClientEndpoint → List String
connected_cns [] = []
connected_cns (e ∷ es) =
    let rest = connected_cns es in elim e.common_name [ none ↦ rest | some cn ↦ cn ∷ rest ]

abbrev pub offline_views : List String → List SeenRecord → List EndpointView
offline_views cns [] = []
offline_views cns (r ∷ rest) =
    if mem r.common_name cns
    then offline_views cns rest
    else offline_view r ∷ offline_views cns rest

unfoldable pub endpoint_views : ConnectedClients → (now_unix : ℤ) → List EndpointView
endpoint_views c now =
    map (live_view now) (values c.clients)
    ++ offline_views (connected_cns (values c.clients)) (all_seen c.seen)

abbrev pub list : ConnectedClients → List ClientEndpoint
list c = values c.clients
