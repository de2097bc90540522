-- ===== src/ClientIp/Tests.antt =====
-- The properties of src/clientip.rs at concrete proxies.
use microtak_server.Prelude.{true, false, [], ◌∷◌, Option, none, some, ◌≡◌, refl}
use microtak_server.Prelude.Bytes.{Bytes, codes}
use microtak_server.Net.{IpAddr, v4, v6, ip_eq}
use microtak_server.Prelude.Text.{is_whitespace}
use microtak_server.ClientIp.{
  FromStr, TrustedProxies, contains, canonical, in_network, forwarded, client_ip,
}
use microtak_server.ClientIp.Forwarded.{client_ip_rightmost}

-- A parser of addresses that are one digit.
abbrev digit : Bytes → Option IpAddr
digit (c ∷ []) = some (v4 c)
digit _ = none

abbrev std : FromStr
std = record { parse_ip = digit; parse_u8 = λ text. none }

-- The networks 0.0.0.48/31 and 0.0.0.52/32.
abbrev proxies : TrustedProxies
proxies = (v4 48, 31) ∷ (v4 52, 32) ∷ []

contains-proxies :
    (contains proxies (v4 49) ≡ true)
    × (contains proxies (v4 50) ≡ false)
    × (contains proxies (v6 281470681743412) ≡ true)
unfolding contains canonical in_network
contains-proxies = (refl, refl, refl)

-- Two addresses that a client wrote, its own, and a trusted hop.
client_ip_rightmost_example : client_ip std proxies (v4 49) (codes "6,0,7,1" ∷ []) ≡ v4 55
unfolding contains canonical in_network forwarded is_whitespace
client_ip_rightmost_example =
    client_ip_rightmost std proxies (v4 49) (codes "6,0,7,1" ∷ []) refl (v4 54 ∷ v4 48 ∷ []) (v4 55)
      (v4 49 ∷ []) refl refl (refl, tt)
