-- ===== src/ClientIp.antt =====
-- Trusted proxies and the address of a client, src/clientip.rs. The parsers of the standard library
-- are arguments: an address and a `u8` from a text, given as its code points.
pub mod Networks
pub mod Forwarded
mod Tests
use microtak_server.Prelude.{
  ℕ, ◌+◌, ◌-◌, ◌/◌, ◌%◌, ◌^◌, ◌*◌, Bool, true, false, not, ◌&&◌, ◌||◌, List, [], ◌∷◌, ◌++◌, Option,
  none, some, Result, ok, err, nat_eqb, ltb, leb, any, find, if◌then◌else◌, unwrap_or, ◌>>=◌,
}
use microtak_server.Prelude.Bytes.{Bytes}
use microtak_server.Net.{IpAddr, v4, v6}
use microtak_server.Prelude.Text.{is_whitespace}

pub record FromStr : Type 0 where
  pub parse_ip : Bytes → Option IpAddr
  pub parse_u8 : Bytes → Option ℕ

abbrev pub TrustedProxies : Type 0
TrustedProxies = List (IpAddr × ℕ)

-- `to_ipv4_mapped`: `::ffff:a.b.c.d`, and no other IPv6 address.
unfoldable pub canonical : IpAddr → IpAddr
canonical (v4 a) = v4 a
canonical (v6 a) = if nat_eqb (a / 2 ^ 32) 0xffff then v4 (a % 2 ^ 32) else v6 a

-- `ip & (MAX << shift)` of `bits` bits, and 0 where `checked_shl` refuses the shift: the low bits
-- of the address are cleared.
abbrev pub masked : (bits shift ip : ℕ) → ℕ
masked bits shift ip = if ltb shift bits then ip - ip % 2 ^ shift else 0

unfoldable pub in_network : IpAddr → IpAddr → (prefix : ℕ) → Bool
in_network (v4 ip) (v4 net) prefix =
    nat_eqb (masked 32 (32 - prefix) ip) (masked 32 (32 - prefix) net)
in_network (v6 ip) (v6 net) prefix =
    nat_eqb (masked 128 (128 - prefix) ip) (masked 128 (128 - prefix) net)
in_network _ _ prefix = false

unfoldable pub contains : TrustedProxies → IpAddr → Bool
contains proxies ip = any (λ n. in_network (canonical ip) n.0 n.1) proxies

-- `trim`
abbrev trim_start : Bytes → Bytes
trim_start [] = []
trim_start (c ∷ text) = let rest = trim_start text in if is_whitespace c then rest else c ∷ text

abbrev reverse {ℓ} : {A : Type ℓ} → List A → List A
reverse [] = []
reverse (a ∷ xs) = reverse xs ++ a ∷ []

abbrev pub trim : Bytes → Bytes
trim text = reverse (trim_start (reverse (trim_start text)))

-- `split_once('/')`
abbrev pub split_once : Bytes → Bytes × Option Bytes
split_once [] = ([], none)
split_once (c ∷ text) =
    let (before, after) = split_once text in
    if nat_eqb c 0x2f then ([], some text) else (c ∷ before, after)

abbrev pub max_prefix : IpAddr → ℕ
max_prefix (v4 a) = 32
max_prefix (v6 a) = 128

-- `prefix.parse().ok().filter(|p| *p <= max)?`
abbrev pub prefix_of : FromStr → (max : ℕ) → Option Bytes → Option ℕ
prefix_of std max none = some max
prefix_of std max (some text) = elim (std.parse_u8 text) [
  | none ↦ none
  | some p ↦ if leb p max then some p else none
]

abbrev pub with_prefix : FromStr → IpAddr → Option Bytes → Option (IpAddr × ℕ)
with_prefix std ip text = elim (prefix_of std (max_prefix ip) text) [
  | none ↦ none
  | some p ↦ some (ip, p)
]

unfoldable pub parse_cidr : FromStr → Bytes → Option (IpAddr × ℕ)
parse_cidr std entry =
    let (address, text) = split_once (trim entry) in
    elim (std.parse_ip address) [ none ↦ none | some ip ↦ with_prefix std (canonical ip) text ]

-- The error is the entry that does not parse.
unfoldable pub parse : FromStr → List Bytes → Result Bytes TrustedProxies
parse std [] = ok []
parse std (entry ∷ entries) = elim (parse_cidr std entry) [
  | none ↦ err entry
  | some network ↦ parse std entries >>= λ networks. ok (network ∷ networks)
]

-- `value.split(',')`
abbrev pub split_commas : (part : Bytes) → Bytes → List Bytes
split_commas part [] = part ∷ []
split_commas part (c ∷ text) =
    let same = split_commas (part ++ c ∷ []) text in
    let next = split_commas [] text in if nat_eqb c 0x2c then part ∷ next else same

-- The entries that are addresses.
abbrev pub addresses : FromStr → List Bytes → List IpAddr
addresses std [] = []
addresses std (entry ∷ entries) =
    let rest = addresses std entries in
    elim (std.parse_ip (trim entry)) [ none ↦ rest | some ip ↦ ip ∷ rest ]

-- The values of `x-forwarded-for` that are texts, in their order.
unfoldable pub forwarded : FromStr → List Bytes → List IpAddr
forwarded std [] = []
forwarded std (value ∷ values) = addresses std (split_commas [] value) ++ forwarded std values

-- `into_iter().rev().find(..)`
abbrev pub rfind : (IpAddr → Bool) → List IpAddr → Option IpAddr
rfind p [] = none
rfind p (ip ∷ ips) =
    let later = rfind p ips in
    elim later [ some found ↦ some found | none ↦ if p ip then some ip else none ]

unfoldable pub client_ip :
    FromStr → TrustedProxies → (peer : IpAddr) → (x_forwarded_for : List Bytes) → IpAddr
client_ip std proxies peer headers =
    if not (contains proxies peer)
    then peer
    else unwrap_or (rfind (λ ip. not (contains proxies ip)) (forwarded std headers)) peer
