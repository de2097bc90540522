-- ===== src/Transport/ProxyProtocol/RoundTrip.antt =====
-- A header that `encode_v2` of src/transport/proxy_protocol.rs writes is read back.
use microtak_server.Prelude.{
  ℕ, ◌+◌, ◌<◌, ◌^◌, ◌∷◌, ◌++◌, some, ok, ◌≡◌, refl, sym, ap, ◌∙◌, arith, append_assoc, length,
  length-append, take, drop, take-length-append, drop-length-append,
}
use microtak_server.Prelude.Bytes.{Bytes}
use microtak_server.Net.{IpAddr, v4, v6, SocketAddr}
use microtak_server.Transport.ProxyProtocol.{
  FromStr, parse_v2_address, parse_v2, mapped, encode_v2_addresses, encode_v2, read_v2, read_header,
}
use microtak_server.Transport.ProxyProtocol.BigEndian.{
  be_bytes, from_be, length-be_bytes, word, from_be-be_bytes,
}

-- An address of 32 or 128 bits.
abbrev pub IsIp : IpAddr → Type 0
IsIp (v4 a) = a < 2 ^ 32
IsIp (v6 a) = a < 2 ^ 128

pub record IsSocketAddr (a : SocketAddr) : Type 0 where
  pub ip : IsIp a.ip
  pub port : a.port < 2 ^ 16

-- The address that a header names: as it is where both ends are IPv4, else as IPv6.
abbrev pub named : (client server : IpAddr) → IpAddr
named (v4 c) (v4 s) = v4 c
named c s = v6 (mapped c)

take_front : (n : ℕ) (xs ys : Bytes) → length xs ≡ n → take n (xs ++ ys) ≡ xs
take_front n xs ys h = rw (← h) (take-length-append xs ys)

drop_front : (n : ℕ) (xs ys : Bytes) → length xs ≡ n → drop n (xs ++ ys) ≡ ys
drop_front n xs ys h = rw (← h) (drop-length-append xs ys)

-- The payload of a header whose addresses take `n` bytes each.
abbrev payload : (n c s p q : ℕ) → Bytes
payload n c s p q = be_bytes n c ++ (be_bytes n s ++ (be_bytes 2 p ++ be_bytes 2 q))

length-payload : (n c s p q : ℕ) → length (payload n c s p q) ≡ n + n + 4
length-payload n c s p q = omega (
  arith,
  length-append (be_bytes n c) (be_bytes n s ++ (be_bytes 2 p ++ be_bytes 2 q)),
  length-append (be_bytes n s) (be_bytes 2 p ++ be_bytes 2 q),
  length-append (be_bytes 2 p) (be_bytes 2 q),
  length-be_bytes n c,
  length-be_bytes n s,
  length-be_bytes 2 p,
  length-be_bytes 2 q,
)

client_bytes : (n c s p q : ℕ) → c < word n → from_be 0 (take n (payload n c s p q)) ≡ c
client_bytes n c s p q h =
    ap (from_be 0) (
      take_front n (be_bytes n c) (be_bytes n s ++ (be_bytes 2 p ++ be_bytes 2 q))
        (length-be_bytes n c))
    ∙ from_be-be_bytes n c h

port_bytes :
    (n c s p q : ℕ) → p < 2 ^ 16 → from_be 0 (take 2 (drop (n + n) (payload n c s p q))) ≡ p
port_bytes n c s p q h =
    let cs = be_bytes n c ++ be_bytes n s in
    let ps = be_bytes 2 p ++ be_bytes 2 q in
    let split : payload n c s p q ≡ cs ++ ps =
      sym (append_assoc (be_bytes n c) (be_bytes n s) ps) in
    let size : length cs ≡ n + n = omega (
      arith,
      length-append (be_bytes n c) (be_bytes n s),
      length-be_bytes n c,
      length-be_bytes n s,
    ) in
    ap (λ l. from_be 0 (take 2 (drop (n + n) l))) split
    ∙ ap (λ l. from_be 0 (take 2 l)) (drop_front (n + n) cs ps size)
    ∙ ap (from_be 0) (take_front 2 (be_bytes 2 p) (be_bytes 2 q) (length-be_bytes 2 p))
    ∙ from_be-be_bytes 2 p h

-- The payload is read whole, and what follows it is left.
read_payload :
    (n c s p q : ℕ) (rest : Bytes)
    → (take (n + n + 4) (payload n c s p q ++ rest) ≡ payload n c s p q)
      × (drop (n + n + 4) (payload n c s p q ++ rest) ≡ rest)
read_payload n c s p q rest = (
  take_front (n + n + 4) (payload n c s p q) rest (length-payload n c s p q),
  drop_front (n + n + 4) (payload n c s p q) rest (length-payload n c s p q),
)

read_v4 :
    (c s p q : ℕ) (rest : Bytes)
    → c < 2 ^ 32
    → p < 2 ^ 16
    → read_v2 (0x21 ∷ 0x11 ∷ 0 ∷ 12 ∷ (payload 4 c s p q ++ rest))
      ≡ (ok (some (record { ip = v4 c; port = p })), rest)
unfolding parse_v2 parse_v2_address
read_v4 c s p q rest hc hp = ground (arith, client_bytes 4 c s p q hc, port_bytes 4 c s p q hp)

read_v6 :
    (c s p q : ℕ) (rest : Bytes)
    → c < 2 ^ 128
    → p < 2 ^ 16
    → read_v2 (0x21 ∷ 0x21 ∷ 0 ∷ 36 ∷ (payload 16 c s p q ++ rest))
      ≡ (ok (some (record { ip = v6 c; port = p })), rest)
unfolding parse_v2 parse_v2_address
read_v6 c s p q rest hc hp = ground (arith, client_bytes 16 c s p q hc, port_bytes 16 c s p q hp)

-- What is written for two addresses is read back from behind the signature.
read_encoded :
    (c s : IpAddr) (p q : ℕ) (rest : Bytes)
    → IsIp c
    → p < 2 ^ 16
    → read_v2 (0x21 ∷ (encode_v2_addresses c s p q ++ rest))
      ≡ (ok (some (record { ip = named c s; port = p })), rest)
read_encoded (v4 c) (v4 s) p q rest hc hp = read_v4 c s p q rest hc hp
read_encoded (v4 c) (v6 s) p q rest hc hp = read_v6 (mapped (v4 c)) s p q rest (omega arith) hp
read_encoded (v6 c) (v4 s) p q rest hc hp = read_v6 c (mapped (v4 s)) p q rest hc hp
read_encoded (v6 c) (v6 s) p q rest hc hp = read_v6 c s p q rest hc hp

read_header_v2 :
    (std : FromStr) (c s : IpAddr) (p q : ℕ) (rest : Bytes)
    → read_header std
        (encode_v2 (record { ip = c; port = p }) (record { ip = s; port = q }) ++ rest)
      ≡ read_v2 (0x21 ∷ (encode_v2_addresses c s p q ++ rest))
unfolding read_header encode_v2
read_header_v2 std (v4 c) (v4 s) p q rest = refl
read_header_v2 std (v4 c) (v6 s) p q rest = refl
read_header_v2 std (v6 c) (v4 s) p q rest = refl
read_header_v2 std (v6 c) (v6 s) p q rest = refl

-- A header as a proxy sends it, followed by any bytes, gives the client's address and port, with an
-- IPv4 client as IPv4-mapped where the server's address is IPv6, and leaves exactly those bytes.
pub read_header-encode_v2 :
    (std : FromStr) (client server : SocketAddr) (rest : Bytes)
    → IsSocketAddr client
    → read_header std (encode_v2 client server ++ rest)
      ≡ (ok (some (record { ip = named client.ip server.ip; port = client.port })), rest)
read_header-encode_v2 std client server rest valid =
    read_header_v2 std client.ip server.ip client.port server.port rest
    ∙ read_encoded client.ip server.ip client.port server.port rest valid.ip valid.port
