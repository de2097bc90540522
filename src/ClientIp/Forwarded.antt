-- ===== src/ClientIp/Forwarded.antt =====
-- Whose word src/clientip.rs takes for the address of a client.
use microtak_server.Prelude.{
  Bool, true, false, not, List, [], ◌∷◌, ◌++◌, none, some, ◌≡◌, ◌⊎◌, inl, inr, Bool-cases, refl,
  arith, All, mem,
}
use microtak_server.Prelude.Bytes.{Bytes}
use microtak_server.Net.{IpAddr, ip_eq}
use microtak_server.ClientIp.{FromStr, TrustedProxies, contains, forwarded, rfind, client_ip}

rfind-none :
    (p : IpAddr → Bool) (ips : List IpAddr) → All (λ ip. p ip ≡ false) ips → rfind p ips ≡ none
rfind-none p [] h = refl
rfind-none p (ip ∷ ips) (not_here, h) = ground (arith, rfind-none p ips h)

rfind-some :
    (p : IpAddr → Bool) (before : List IpAddr) (ip : IpAddr) (after : List IpAddr)
    → p ip ≡ true
    → All (λ i. p i ≡ false) after
    → rfind p (before ++ ip ∷ after) ≡ some ip
rfind-some p [] ip after here h = ground (arith, rfind-none p after h)
rfind-some p (b ∷ before) ip after here h = ground (arith, rfind-some p before ip after here h)

rfind_cases :
    (p : IpAddr → Bool) (ips : List IpAddr)
    → (rfind p ips ≡ none)
      ⊎ ((ip : IpAddr) × (rfind p ips ≡ some ip) × (p ip ≡ true) × (mem ip ips ≡ true))
rfind_cases p [] = inl refl
rfind_cases p (ip ∷ ips) = elim (rfind_cases p ips) [
  | inr (found, later, passes, there) ↦ inr (found, rw later refl, passes, ground arith)
  | inl absent ↦ elim (Bool-cases (p ip)) [
    | inl passes ↦ inr (ip, rw (absent, passes) refl, passes, ground (arith, ip_eq.beq_iff ip ip))
    | inr fails ↦ inl (rw (absent, fails) refl)
  ]
]

-- The address that a request is put down to is the peer's own, or else the peer is a trusted proxy
-- and it is a forwarded address that is not one.
pub client_ip_sound :
    (std : FromStr) (proxies : TrustedProxies) (peer : IpAddr) (headers : List Bytes)
    → (client_ip std proxies peer headers ≡ peer)
      ⊎ (contains proxies peer ≡ true)
        × (mem (client_ip std proxies peer headers) (forwarded std headers) ≡ true)
        × (contains proxies (client_ip std proxies peer headers) ≡ false)
unfolding client_ip
client_ip_sound std proxies peer headers = elim (Bool-cases (contains proxies peer)) [
  | inr untrusted ↦ inl (rw untrusted refl)
  | inl trusted ↦ elim (rfind_cases (λ ip. not (contains proxies ip)) (forwarded std headers)) [
    | inl nobody ↦ inl (rw (trusted, nobody) refl)
    | inr (found, is_found, outside, there) ↦
        inr (trusted, rw (trusted, is_found) there, rw (trusted, is_found) (ground arith))
  ]
]

-- From a trusted proxy, the address is the last forwarded one that is not itself a trusted proxy:
-- what stands before it, which a client may have written, makes no difference.
pub client_ip_rightmost :
    (std : FromStr) (proxies : TrustedProxies) (peer : IpAddr) (headers : List Bytes)
    → contains proxies peer ≡ true
    → (before : List IpAddr) (ip : IpAddr) (after : List IpAddr)
    → forwarded std headers ≡ before ++ ip ∷ after
    → contains proxies ip ≡ false
    → All (λ i. contains proxies i ≡ true) after
    → client_ip std proxies peer headers ≡ ip
unfolding client_ip
client_ip_rightmost std proxies peer headers trusted before ip after split outside inside =
    let found =
      rfind-some (λ i. not (contains proxies i)) before ip after (ground arith)
        (none_of after inside) in
    rw (trusted, split, found) refl
  where
    none_of :
        (ips : List IpAddr)
        → All (λ i. contains proxies i ≡ true) ips
        → All (λ i. not (contains proxies i) ≡ false) ips
    none_of [] h = tt
    none_of (i ∷ ips) (inside, h) = (ground arith, none_of ips h)
