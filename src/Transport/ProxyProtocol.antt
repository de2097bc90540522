-- ===== src/Transport/ProxyProtocol.antt =====
-- PROXY protocol headers, src/transport/proxy_protocol.rs. A stream is the list of the bytes that the
-- peer sends; a read answers with the bytes that it leaves.
pub mod BigEndian
pub mod RoundTrip
pub mod Consumes
mod Tests
use microtak_server.Prelude.{
  ℕ, suc, ◌+◌, ◌*◌, ◌-◌, ◌/◌, ◌%◌, ◌^◌, Bool, true, false, not, ◌&&◌, ◌||◌, List, [], ◌∷◌, ◌++◌,
  Option, none, some, Result, ok, err, nat_eqb, ltb, leb, length, take, drop, if◌then◌else◌,
}
use microtak_server.Prelude.Bytes.{Bytes, codes, bytes_eqb}
use microtak_server.Net.{IpAddr, v4, v6, SocketAddr}
use BigEndian.{be_bytes, from_be}

-- `str::from_utf8`, and the parsers of `IpAddr` and `u16`, of the standard library.
pub record FromStr : Type 0 where
  pub is_utf8 : Bytes → Bool
  pub parse_ip : Bytes → Option IpAddr
  pub parse_u16 : Bytes → Option ℕ

-- The texts of `Malformed`, and the errors of the socket: `io` is a stream that ends too early.
pub data ProxyHeaderError : Type 0 where
  not_ascii without_crlf without_proxy source_address source_port v1_protocol v1_too_long :
      ProxyHeaderError
  v2_version v2_command v2_family_or_length : ProxyHeaderError
  timeout io : ProxyHeaderError

abbrev pub v2_signature : Bytes
v2_signature = codes "\r\n\r\n" ++ (0 ∷ codes "\r\nQUIT\n")

abbrev pub v1_prefix : Bytes
v1_prefix = codes "PROXY "

abbrev pub v1_max : ℕ
v1_max = 107

-- `pattern.starts_with(bytes)`
abbrev pub starts_with : Bytes → Bytes → Bool
starts_with pattern [] = true
starts_with [] (b ∷ bytes) = false
starts_with (a ∷ pattern) (b ∷ bytes) = nat_eqb a b && starts_with pattern bytes

-- `text.split(' ')`: the parts, in the order they stand; `part` is what is read of the first.
abbrev pub split_spaces : (part : Bytes) → Bytes → List Bytes
split_spaces part [] = part ∷ []
split_spaces part (b ∷ bytes) =
    let same = split_spaces (part ++ b ∷ []) bytes in
    let next = split_spaces [] bytes in if nat_eqb b 0x20 then part ∷ next else same

-- `strip_suffix("\r\n")`
abbrev pub strip_crlf : Bytes → Option Bytes
strip_crlf bytes =
    let n = length bytes - 2 in
    if bytes_eqb (drop n bytes) (codes "\r\n") && leb 2 (length bytes)
    then some (take n bytes)
    else none

abbrev pub address_of : Option IpAddr → Option ℕ → Result ProxyHeaderError (Option SocketAddr)
address_of none port = err source_address
address_of (some source) none = err source_port
address_of (some source) (some port) = ok (some (record { ip = source; port = port }))

abbrev pub bind {ℓ κ} : {A : Type ℓ} {B : Type κ} → Option A → (A → Option B) → Option B
bind none f = none
bind (some a) f = f a

abbrev pub next : List Bytes → Option Bytes
next [] = none
next (part ∷ parts) = some part

abbrev pub rest_of : List Bytes → List Bytes
rest_of [] = []
rest_of (part ∷ parts) = parts

-- From the parts after `PROXY`.
unfoldable pub parse_v1_parts : FromStr → List Bytes → Result ProxyHeaderError (Option SocketAddr)
parse_v1_parts std [] = err v1_protocol
parse_v1_parts std (protocol ∷ parts) =
    if bytes_eqb protocol (codes "UNKNOWN")
    then ok none
    else if bytes_eqb protocol (codes "TCP4") || bytes_eqb protocol (codes "TCP6")
    then address_of (bind (next parts) std.parse_ip)
        (bind (next (rest_of (rest_of parts))) std.parse_u16)
    else err v1_protocol

unfoldable pub parse_v1_text : FromStr → Option Bytes → Result ProxyHeaderError (Option SocketAddr)
unfolding parse_v1_parts
parse_v1_text std none = err without_crlf
parse_v1_text std (some text) =
    let parts = split_spaces [] text in
    if bytes_eqb (next_or_empty parts) (codes "PROXY")
    then parse_v1_parts std (rest_of parts)
    else err without_proxy
  where
    next_or_empty : List Bytes → Bytes
    next_or_empty [] = []
    next_or_empty (part ∷ parts) = part

unfoldable pub parse_v1 : FromStr → Bytes → Result ProxyHeaderError (Option SocketAddr)
unfolding parse_v1_text
parse_v1 std line = if std.is_utf8 line then parse_v1_text std (strip_crlf line) else err not_ascii

-- The family in the high half of the byte after the command.
unfoldable pub parse_v2_address :
    (family : ℕ) → (payload : Bytes) → Result ProxyHeaderError (Option SocketAddr)
parse_v2_address family payload =
    if nat_eqb family 1 && leb 12 (length payload)
    then ok (
        some (record {
          ip = v4 (from_be 0 (take 4 payload));
          port = from_be 0 (take 2 (drop 8 payload));
        }))
    else if nat_eqb family 2 && leb 36 (length payload)
    then ok (
        some (record {
          ip = v6 (from_be 0 (take 16 payload));
          port = from_be 0 (take 2 (drop 32 payload));
        }))
    else if nat_eqb family 0
    then ok none
    else err v2_family_or_length

-- `header[12]` and `header[13]`.
unfoldable pub parse_v2 :
    (version_command family : ℕ) → (payload : Bytes) → Result ProxyHeaderError (Option SocketAddr)
parse_v2 version_command family payload =
    if not (nat_eqb (version_command / 16) 2)
    then err v2_version
    else if nat_eqb (version_command % 16) 0
    then ok none
    else if nat_eqb (version_command % 16) 1
    then parse_v2_address (family / 16) payload
    else err v2_command

-- `to_ipv6_mapped` of an IPv4 address.
abbrev pub mapped : IpAddr → ℕ
mapped (v4 a) = 0xffff * 2 ^ 32 + a
mapped (v6 a) = a

abbrev pub encode_v2_addresses : IpAddr → IpAddr → (client_port server_port : ℕ) → Bytes
encode_v2_addresses (v4 c) (v4 s) p q =
    0x11 ∷ be_bytes 2 12 ++ (be_bytes 4 c ++ (be_bytes 4 s ++ (be_bytes 2 p ++ be_bytes 2 q)))
encode_v2_addresses c s p q =
    0x21 ∷ be_bytes 2 36
    ++ (be_bytes 16 (mapped c) ++ (be_bytes 16 (mapped s) ++ (be_bytes 2 p ++ be_bytes 2 q)))

unfoldable pub encode_v2 : (client server : SocketAddr) → Bytes
encode_v2 client server =
    v2_signature ++ (0x21 ∷ encode_v2_addresses client.ip server.ip client.port server.port)

-- A v2 header is the signature, two bytes, the payload's length and the payload.
abbrev pub read_v2 : Bytes → Result ProxyHeaderError (Option SocketAddr) × Bytes
read_v2 (version_command ∷ family ∷ a ∷ b ∷ stream) =
    let len = a * 256 + b in
    if leb len (length stream)
    then (parse_v2 version_command family (take len stream), drop len stream)
    else (err io, [])
read_v2 stream = (err io, [])

-- The loop over `read_u8`: `line` is what it has read.
unfoldable pub read_line : (line : Bytes) → Bytes → Result ProxyHeaderError Bytes × Bytes
read_line line [] = (err io, [])
read_line line (byte ∷ stream) =
    let line' = line ++ byte ∷ [] in
    let more = read_line line' stream in
    if ends_crlf line'
    then (ok line', stream)
    else if leb v1_max (length line')
    then (err v1_too_long, stream)
    else more
  where
    ends_crlf : Bytes → Bool
    ends_crlf bytes = bytes_eqb (drop (length bytes - 2) bytes) (codes "\r\n")

abbrev pub parsed_line :
    FromStr
    → Result ProxyHeaderError Bytes × Bytes
    → Result ProxyHeaderError (Option SocketAddr) × Bytes
parsed_line std (ok line, stream) = (parse_v1 std line, stream)
parsed_line std (err e, stream) = (err e, stream)

-- A header that has begun and does not go on is waited for until the time is up.
unfoldable pub read_header : FromStr → Bytes → Result ProxyHeaderError (Option SocketAddr) × Bytes
unfolding read_line
read_header std stream =
    let n = length (take 16 stream) in
    let looks_v2 = starts_with v2_signature (take 12 stream) in
    let looks_v1 = starts_with v1_prefix (take 6 stream) in
    if nat_eqb n 0 || not (looks_v2 || looks_v1)
    then (ok none, stream)
    else if not (leb 16 n || looks_v1 && leb 6 n)
    then (err timeout, stream)
    else if leb 16 n && looks_v2
    then read_v2 (drop 12 stream)
    else parsed_line std (read_line [] stream)
