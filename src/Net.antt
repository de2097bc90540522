-- ===== src/Net.antt =====
-- Internet addresses of Rust's standard library: an IPv4 address is its 32-bit number, an IPv6
-- address its 128-bit number.
use microtak_server.Prelude.{ℕ, Bool, true, false, ◌≡◌, ◌↔◌, arith, Eq, nat_eqb, ◌&&◌}

pub data IpAddr : Type 0 where
  v4 v6 : ℕ → IpAddr

abbrev pub ip_eqb : IpAddr → IpAddr → Bool
ip_eqb (v4 a) (v4 b) = nat_eqb a b
ip_eqb (v6 a) (v6 b) = nat_eqb a b
ip_eqb _ _ = false

pub ip_eqb_iff : (a b : IpAddr) → (ip_eqb a b ≡ true) ↔ (a ≡ b)
ip_eqb_iff (v4 a) (v4 b) = ground arith
ip_eqb_iff (v6 a) (v6 b) = ground arith
ip_eqb_iff (v4 a) (v6 b) = ground arith
ip_eqb_iff (v6 a) (v4 b) = ground arith

instance abbrev pub ip_eq : Eq IpAddr
ip_eq = record { beq = ip_eqb; beq_iff = ip_eqb_iff }

pub record SocketAddr : Type 0 where
  pub ip : IpAddr
  pub port : ℕ

abbrev pub socket_eqb : SocketAddr → SocketAddr → Bool
socket_eqb a b = ip_eqb a.ip b.ip && nat_eqb a.port b.port

pub socket_eqb_iff : (a b : SocketAddr) → (socket_eqb a b ≡ true) ↔ (a ≡ b)
socket_eqb_iff a b = ground (arith, ip_eqb_iff a.ip b.ip)

instance abbrev pub socket_eq : Eq SocketAddr
socket_eq = record { beq = socket_eqb; beq_iff = socket_eqb_iff }
