-- ===== src/Transport/ProxyProtocol/Tests.antt =====
-- Headers of src/transport/proxy_protocol.rs.
use microtak_server.Prelude.{true, ◌++◌, some, ok, err, ◌≡◌, refl, arith}
use microtak_server.Prelude.Bytes.{codes}
use microtak_server.Net.{v4, v6, SocketAddr}
use microtak_server.Transport.ProxyProtocol.{
  FromStr, timeout, encode_v2, read_header, read_line, parse_v1, parse_v1_text, parse_v1_parts,
}
use microtak_server.Transport.ProxyProtocol.RoundTrip.{read_header-encode_v2}

-- A parser of addresses that knows one.
abbrev std : FromStr
std = record {
  is_utf8 = λ text. true;
  parse_ip = λ text. some (v4 5);
  parse_u16 = λ text. some 40000;
}

abbrev client : SocketAddr
client = record { ip = v4 3405803783; port = 51234 }

abbrev server : SocketAddr
server = record { ip = v6 1; port = 8089 }

read_header_v1 :
    read_header std (codes "PROXY TCP4 198.51.100.9 10.0.0.1 40000 8089\r\nrest")
    ≡ (ok (some (record { ip = v4 5; port = 40000 })), codes "rest")
unfolding read_header read_line parse_v1 parse_v1_text parse_v1_parts
read_header_v1 = refl

-- A header that does not go on.
read_header_partial : read_header std (codes "PROX") ≡ (err timeout, codes "PROX")
unfolding read_header
read_header_partial = refl

read_header-encode_v2_example :
    read_header std (encode_v2 client server ++ codes "TLS")
    ≡ (ok (some (record { ip = v6 281474087547143; port = 51234 })), codes "TLS")
read_header-encode_v2_example =
    read_header-encode_v2 std client server (codes "TLS")
      (record { ip = omega arith; port = omega arith })
