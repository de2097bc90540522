-- ===== src/Transport/Admission/Tests.antt =====
-- The properties of src/transport/admission.rs at concrete connections.
use microtak_server.Prelude.{
  ◌<◌, ◌≤◌, [], ◌∷◌, none, some, ◌≡◌, refl, arith, length, ltb, if◌then◌else◌,
}
use microtak_server.Map.{get, insert}
use microtak_server.Transport.Admission.{
  open_connections, AdmissionLimits, Open, Permit, from_ip, admit, drop,
}
use microtak_server.Net.{IpAddr, v4, ip_eq}
use microtak_server.Transport.Admission.Slots.{
  Reaches, start, admitted, slots_of, counters_exact, drop_frees,
}

abbrev limits : AdmissionLimits
limits = record { max_connections = 3; max_connections_per_ip = 1 }

abbrev one : Permit
one = record { ip = v4 1 }

abbrev open_one : Open
open_one = record { total = 1; per_ip = (v4 1, 1) ∷ [] }

first : Reaches limits open_one (one ∷ [])
unfolding admit get insert
first = admitted start (v4 1) one refl

counters_exact_example :
    (open_one.total ≡ length (one ∷ []))
    × (length (one ∷ []) ≤ 3)
    × ((ip : IpAddr)
        → (get ip open_one.per_ip
            ≡ (if ltb 0 (slots_of ip (one ∷ [])) then some (slots_of ip (one ∷ [])) else none))
          × (slots_of ip (one ∷ []) ≤ 1))
counters_exact_example = counters_exact limits (omega arith) (omega arith) first

drop_frees_example :
    (0 < open_one.total)
    × (0 < from_ip open_one (v4 1))
    × ((admit limits (drop open_one one) (v4 1)).1 ≡ some (record { ip = v4 1 }))
drop_frees_example = drop_frees limits (omega arith) (omega arith) one first (omega arith)

one_open : open_connections open_one ≡ 1
unfolding open_connections
one_open = refl
