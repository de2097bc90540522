-- ===== src/Transport/ProxyProtocol/Consumes.antt =====
-- What `read_header` of src/transport/proxy_protocol.rs takes off a stream.
use microtak_server.Prelude.{ℕ, ◌∷◌, none, ok, ◌≡◌, ◌≢◌, arith}
use microtak_server.Prelude.Bytes.{Bytes}
use microtak_server.Transport.ProxyProtocol.{FromStr, read_header}

-- A connection whose first byte is neither a carriage return nor a `P`, such as a TLS handshake,
-- has no header: it keeps the proxy's own address and every byte.
pub read_header-none :
    (std : FromStr) (byte : ℕ) (stream : Bytes)
    → byte ≢ 0x0d
    → byte ≢ 0x50
    → read_header std (byte ∷ stream) ≡ (ok none, byte ∷ stream)
unfolding read_header
read_header-none std byte stream not_cr not_p = ground arith
