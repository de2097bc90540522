-- ===== src/ClientIp/Networks.antt =====
-- Which addresses a network of src/clientip.rs has.
use microtak_server.Prelude.{ℕ, ◌+◌, ◌/◌, ◌%◌, ◌^◌, ◌*◌, ◌<◌, ◌≡◌, arith}
use microtak_server.Net.{v4, v6}
use microtak_server.ClientIp.{TrustedProxies, canonical, contains}

-- An IPv4 address that a dual-stack socket reports as IPv6 is trusted exactly where the IPv4 address
-- is.
pub contains-mapped :
    (proxies : TrustedProxies) (a : ℕ)
    → a < 2 ^ 32
    → contains proxies (v6 (0xffff * 2 ^ 32 + a)) ≡ contains proxies (v4 a)
unfolding contains canonical
contains-mapped proxies a h =
    let high : (0xffff * 2 ^ 32 + a) / 2 ^ 32 ≡ 0xffff = omega arith in
    let low : (0xffff * 2 ^ 32 + a) % 2 ^ 32 ≡ a = omega arith in ground arith
