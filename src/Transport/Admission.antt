-- ===== src/Transport/Admission.antt =====
-- Connection limits, src/transport/admission.rs: the counters of open connections, and the slots.
pub mod Slots
mod Tests
use microtak_server.Prelude.{
  ℕ, ◌+◌, ◌-◌, ◌%◌, ◌^◌, Bool, true, false, ◌||◌, List, [], Option, none, some, nat_eqb, leb,
  unwrap_or, if◌then◌else◌,
}
use microtak_server.Map.{Map, get, insert, remove, modify}
use microtak_server.Net.{IpAddr, ip_eq}

-- The timeouts have no part in what is admitted.
pub record AdmissionLimits : Type 0 where
  pub max_connections : ℕ
  pub max_connections_per_ip : ℕ

pub record Open : Type 0 where
  pub total : ℕ
  pub per_ip : Map IpAddr ℕ

abbrev pub empty : Open
empty = record { total = 0; per_ip = [] }

-- A slot, freed when it is dropped.
pub record Permit : Type 0 where
  pub ip : IpAddr

abbrev pub from_ip : Open → IpAddr → ℕ
from_ip o ip = unwrap_or (get ip o.per_ip) 0

-- The counters are `usize`.
unfoldable pub admit : AdmissionLimits → Open → IpAddr → Open × Option Permit
admit limits o ip =
    if leb limits.max_connections o.total || leb limits.max_connections_per_ip (from_ip o ip)
    then (o, none)
    else (
      record {
        total = (o.total + 1) % 2 ^ 64;
        per_ip = insert ip ((from_ip o ip + 1) % 2 ^ 64) o.per_ip;
      },
      some (record { ip = ip }),
    )

-- `get_mut`, then `*count -= 1`, then the removal of a zero. Subtraction stops at 0 where Rust's
-- would panic; no drop of a slot that was given subtracts from 0.
unfoldable pub drop_count : IpAddr → Option ℕ → Map IpAddr ℕ → Map IpAddr ℕ
drop_count ip none per_ip = per_ip
drop_count ip (some count) per_ip =
    if nat_eqb (count - 1) 0 then remove ip per_ip else insert ip (count - 1) per_ip

unfoldable pub drop : Open → Permit → Open
drop o permit = record {
  total = o.total - 1;
  per_ip = drop_count permit.ip (get permit.ip o.per_ip) o.per_ip;
}

pub open_connections : Open → ℕ
open_connections o = o.total
