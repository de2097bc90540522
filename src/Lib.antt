-- ===== src/Lib.antt =====
-- MicroTAK server: a verification library of its stores and of its transports.
--
-- MicroTAK relays CoT events, XML documents on a TCP or TLS stream, between devices, and keeps the
-- state that decides who may connect and who sees what. A connection is admitted
-- (src/transport/admission.rs, with the client's address from src/transport/proxy_protocol.rs or
-- src/clientip.rs), its bytes are cut into events (src/transport/codec.rs), an event goes to the hub
-- (src/transport/hub.rs) and from there to the connections whose groups (src/groups.rs) reach it.
-- Devices enroll with a token (src/enrollment_tokens.rs) or an account (src/users.rs) and are then in
-- the registry (src/registry.rs), which every connection is checked against; the events a device
-- sends are held to the uid it enrolled for (src/transport/identity.rs). Missions (src/missions.rs) are
-- shared collections of content with subscribers and a change log, and data feeds (src/datafeeds.rs)
-- are named streams of events. Each of these stores appends an event to its log (src/eventlog.rs) and
-- then applies it to its state.
--
-- Files:
--   EventLog              src/eventlog.rs. A file is the list of its lines, with what was left of one
--                         where a write was cut short, and `Write` says how the file system answers
--                         an append. `commit` is the append-then-apply that each
--                         store writes out; `record_checked` has the store's early returns before it.
--                         Replay, Checked and Calls hold what all stores use.
--   Groups                src/groups.rs. The state is the struct `State`, `apply_event` the reducer,
--                         and one function stands for each method. Views are the answers to other
--                         modules; Versions is the counter that the delivery loop caches by.
--   EnrollmentTokens      src/enrollment_tokens.rs, with the same shape.
--   Users                 src/users.rs, with the same shape.
--   Registry              src/registry.rs: types, reducer and queries, with the methods in
--                         Registry/Operations, and the fingerprints of src/pki.rs in
--                         Registry/Fingerprints.
--   Missions              src/missions.rs. Missions and Records hold its types and roles, Json
--                         the values in a map layer, Events the
--                         event and the state, Reducer `apply`. Store has the methods on a mission
--                         itself, Attachments those on feeds, map layers and external data,
--                         Subscriptions, Invitations (with log entries) and Layers those they are
--                         named for, and Changes the view of the change log. Squashed has the
--                         proofs of the squashed view. Steps, Calls, Parts and Legal hold what the
--                         invariants share: a call, whichever it is, takes steps of `apply` with
--                         events that are numbered from the state's counter.
--   DataFeeds             src/datafeeds.rs, with the shape of Groups.
--   Cot                   src/cot.rs, the fields that the code reads off an event and what it reads
--                         from them; Cot/Latest is the store of src/latest_cot.rs.
--   RateLimit             src/ratelimit.rs, the table of failed attempts.
--   ClientIp              src/clientip.rs, trusted proxies and X-Forwarded-For.
--   Transport/Codec       src/transport/codec.rs. `feed` is the method, `turn` one round of its loop.
--   Transport/Admission   src/transport/admission.rs, the counters and the permits.
--   Transport/ProxyProtocol  src/transport/proxy_protocol.rs on a stream of bytes.
--   Transport/Hub         src/transport/hub.rs, the rules of delivery, and the cached groups of
--                         src/transport/tls.rs.
--   Transport/Identity    src/transport/identity.rs, the checks of an event against the registry.
--   Transport/Seen, Transport/Connections  src/transport/seen.rs and src/transport/connections.rs.
--   Net, Map, Prelude     addresses, association lists for HashMap and BTreeMap, and shared helpers.
--
-- Conventions. A lock that is held for a whole method makes the method one step; a method is a
-- function from the state to the state and an answer, and a Result is a value. Numbers are natural
-- numbers with the wrap-around of their width written out; an i64 is an integer. A set or a map is a
-- list of its entries, and nothing that is stated depends on their order. The clock, random tokens,
-- uids and salts are arguments, and so is what the file system answers to each append: a whole line,
-- with its sync or without, a part of it, or nothing. A call that appends several events has an answer
-- for each.
--
-- Fuel. Only the loop of `feed` has fuel: one round for each byte of the buffer and one more. A round
-- that goes on removes two bytes or more, so this is always enough.
--
-- Taken as arguments, with the laws that the code relies on: the JSON of an event (a line of
-- UTF-8 that is not blank and is read back, in missions where it has no float: serde_json without
-- float_roundtrip may read a float as a neighbour of it), Argon2 (a hash accepts its password), SHA-256 (32 bytes) and the PEM parser, the
-- XML parser of an event, and the standard library's parsers of addresses and small numbers.
--
-- Not in the library: the order and the trees of a mission's layers (sort_layers, has_cycle,
-- layer_trees and layer_tree in src/missions.rs), the HTTP handlers of src/marti, content, profiles,
-- the TAK protocol conversion and the process set-up. The handlers call third-party code at every step
-- or wait for the stores they stand on; sockets, TLS, tasks and the parsing of XML are input and output
-- or third-party code.
pub mod Prelude
pub mod Net
pub mod Map
pub mod EventLog
pub mod Groups
pub mod Cot
pub mod DataFeeds
pub mod Missions
pub mod EnrollmentTokens
pub mod Users
pub mod Registry
pub mod RateLimit
pub mod ClientIp
pub mod Transport
