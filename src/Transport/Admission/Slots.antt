-- ===== src/Transport/Admission/Slots.antt =====
-- The slots of src/transport/admission.rs that are out, and what the counters say of them.
use microtak_server.Prelude.{
  ℕ, suc, ◌+◌, ◌-◌, ◌%◌, ◌^◌, ◌≤◌, ◌<◌, true, false, ◌&&◌, List, [], ◌∷◌, Option, none, some, ◌≡◌,
  ◌≢◌, ◌⊎◌, refl, ◌==◌, ltb, length, unwrap_or, if◌then◌else◌, arith, inl, inr,
}
use microtak_server.Map.{get, insert}
use microtak_server.Map.Laws.{get-insert, get-remove}
use microtak_server.Net.{IpAddr, ip_eq}
use microtak_server.Transport.Admission.{
  AdmissionLimits, Open, empty, Permit, from_ip, admit, drop_count, drop,
}

-- How many of the slots are of an address.
abbrev pub slots_of : IpAddr → List Permit → ℕ
slots_of ip [] = 0
slots_of ip (p ∷ ps) = (if p.ip == ip then 1 else 0) + slots_of ip ps

-- The slots without one of an address.
abbrev pub give_back : IpAddr → List Permit → List Permit
give_back ip [] = []
give_back ip (p ∷ ps) = let rest = give_back ip ps in if p.ip == ip then ps else p ∷ rest

-- The states that connections can bring the counters to, with the slots that are then out: a
-- connection is admitted or refused, or one that was admitted goes away.
pub data Reaches (limits : AdmissionLimits) : Open → List Permit → Type 0 where
  start : Reaches limits empty []
  admitted :
      {o : Open} {slots : List Permit}
      → Reaches limits o slots
      → (ip : IpAddr) → (p : Permit) → (admit limits o ip).1 ≡ some p
      → Reaches limits (admit limits o ip).0 (p ∷ slots)
  refused :
      {o : Open} {slots : List Permit}
      → Reaches limits o slots
      → (ip : IpAddr) → (admit limits o ip).1 ≡ none
      → Reaches limits (admit limits o ip).0 slots
  dropped :
      {o : Open} {slots : List Permit}
      → Reaches limits o slots
      → (p : Permit) → 0 < slots_of p.ip slots
      → Reaches limits (drop o p) (give_back p.ip slots)

-- The counters count the slots, and no more are out than the limits allow.
pub record Counts (limits : AdmissionLimits) (o : Open) (slots : List Permit) : Type 0 where
  pub total : o.total ≡ length slots
  pub total_limit : length slots ≤ limits.max_connections
  pub per_ip : (ip : IpAddr) → from_ip o ip ≡ slots_of ip slots
  pub per_ip_limit : (ip : IpAddr) → slots_of ip slots ≤ limits.max_connections_per_ip
  pub no_zero : (ip : IpAddr) → get ip o.per_ip ≢ some 0

slots_of_le : (ip : IpAddr) (slots : List Permit) → slots_of ip slots ≤ length slots
slots_of_le ip [] = omega arith
slots_of_le ip (p ∷ ps) = ground (arith, slots_of_le ip ps)

length-give_back :
    (ip : IpAddr) (slots : List Permit)
    → 0 < slots_of ip slots
    → suc (length (give_back ip slots)) ≡ length slots
length-give_back ip [] h = absurd (omega arith)
length-give_back ip (p ∷ ps) h = ground (arith, length-give_back ip ps)

slots_of-give_back :
    (ip other : IpAddr) (slots : List Permit)
    → 0 < slots_of ip slots
    → slots_of other (give_back ip slots) + (if ip == other then 1 else 0) ≡ slots_of other slots
slots_of-give_back ip other [] h = absurd (omega arith)
slots_of-give_back ip other (p ∷ ps) h = ground (
  arith,
  slots_of-give_back ip other ps,
  ip_eq.beq_iff p.ip ip,
  ip_eq.beq_iff p.ip other,
  ip_eq.beq_iff ip other,
)

abbrev more : Open → IpAddr → Open
more o ip = record {
  total = (o.total + 1) % 2 ^ 64;
  per_ip = insert ip ((from_ip o ip + 1) % 2 ^ 64) o.per_ip;
}

admit_cases :
    (limits : AdmissionLimits) (o : Open) (ip : IpAddr)
    → (ltb o.total limits.max_connections && ltb (from_ip o ip) limits.max_connections_per_ip
          ≡ false)
        × (admit limits o ip ≡ (o, none))
      ⊎ (ltb o.total limits.max_connections && ltb (from_ip o ip) limits.max_connections_per_ip
          ≡ true)
        × (admit limits o ip ≡ (more o ip, some (record { ip = ip })))
unfolding admit
admit_cases limits o ip = ground arith

from_ip-more :
    (o : Open) (ip other : IpAddr)
    → from_ip (more o ip) other
      ≡ (if ip == other then (from_ip o ip + 1) % 2 ^ 64 else from_ip o other)
from_ip-more o ip other = ground (arith, get-insert ip other ((from_ip o ip + 1) % 2 ^ 64) o.per_ip)

module _ (limits : AdmissionLimits) (word : limits.max_connections < 2 ^ 64)
    (word_per_ip : limits.max_connections_per_ip < 2 ^ 64) where
  admitted-Counts :
      (o : Open) (slots : List Permit) (ip : IpAddr)
      → o.total < limits.max_connections
      → from_ip o ip < limits.max_connections_per_ip
      → Counts limits o slots
      → Counts limits (more o ip) (record { ip = ip } ∷ slots)
  admitted-Counts o slots ip room room_per_ip c = record {
    total = omega (arith, c.total);
    total_limit = omega (arith, c.total);
    per_ip = λ other.
        ground
          (arith, from_ip-more o ip other, c.per_ip other, c.per_ip ip, ip_eq.beq_iff ip other);
    per_ip_limit =
        λ other. ground (arith, c.per_ip ip, c.per_ip_limit other, ip_eq.beq_iff ip other);
    no_zero = λ other.
        ground (arith, get-insert ip other ((from_ip o ip + 1) % 2 ^ 64) o.per_ip, c.no_zero other);
  }

  from_ip-drop :
      (o : Open) (slots : List Permit) (p : Permit) (other : IpAddr)
      → Counts limits o slots
      → (from_ip (drop o p) other ≡ (if p.ip == other then from_ip o p.ip - 1 else from_ip o other))
        × (get other (drop o p).per_ip ≢ some 0)
  unfolding drop drop_count
  from_ip-drop o slots p other c = go (get p.ip o.per_ip) refl
    where
      go :
          (old : Option ℕ)
          → get p.ip o.per_ip ≡ old
          → (unwrap_or (get other (drop_count p.ip old o.per_ip)) 0
              ≡ (if p.ip == other then unwrap_or old 0 - 1 else from_ip o other))
            × (get other (drop_count p.ip old o.per_ip) ≢ some 0)
      go none q = ground (arith, c.no_zero other, ip_eq.beq_iff p.ip other)
      go (some n) q = ground (
        arith,
        c.no_zero other,
        ip_eq.beq_iff p.ip other,
        get-remove p.ip other o.per_ip,
        get-insert p.ip other (n - 1) o.per_ip,
      )

  dropped-Counts :
      (o : Open) (slots : List Permit) (p : Permit)
      → 0 < slots_of p.ip slots
      → Counts limits o slots
      → Counts limits (drop o p) (give_back p.ip slots)
  unfolding drop
  dropped-Counts o slots p out c =
      let one_less = length-give_back p.ip slots out in
      record {
        total = omega (arith, c.total);
        total_limit = omega (arith, c.total_limit);
        per_ip = λ other. ground (
          arith,
          from_ip-drop o slots p other c,
          slots_of-give_back p.ip other slots out,
          c.per_ip other,
          c.per_ip p.ip,
          ip_eq.beq_iff p.ip other,
        );
        per_ip_limit =
            λ other. ground (arith, slots_of-give_back p.ip other slots out, c.per_ip_limit other);
        no_zero = λ other. (from_ip-drop o slots p other c).1;
      }

  Reaches-Counts : {o : Open} {slots : List Permit} → Reaches limits o slots → Counts limits o slots
  unfolding get
  Reaches-Counts start = record {
    total = refl;
    total_limit = omega arith;
    per_ip = λ ip. refl;
    per_ip_limit = λ ip. omega arith;
    no_zero = λ ip h. cc;
  }
  Reaches-Counts (admitted {o} {slots} r ip p h) =
      let c = Reaches-Counts r in
      elim (admit_cases limits o ip) [
        | inl (full, same) ↦ absurd (ground arith)
        | inr (room, done) ↦
            let given : record { ip = ip } ≡ p = ground arith in
            rw (done, ← given) (admitted-Counts o slots ip (ground arith) (ground arith) c)
      ]
  Reaches-Counts (refused {o} {slots} r ip h) =
      let c = Reaches-Counts r in
      elim (admit_cases limits o ip) [
        | inl (full, same) ↦ rw same c
        | inr (room, done) ↦ absurd (ground arith)
      ]
  Reaches-Counts (dropped {o} {slots} r p out) = dropped-Counts o slots p out (Reaches-Counts r)

  -- However connections come and go, the counters are exactly the slots that are out, in total and
  -- for each address, with no entry for an address that has none; neither limit is ever exceeded.
  pub counters_exact :
      {o : Open} {slots : List Permit}
      → Reaches limits o slots
      → (o.total ≡ length slots)
        × (length slots ≤ limits.max_connections)
        × ((ip : IpAddr)
            → (get ip o.per_ip
                ≡ (if ltb 0 (slots_of ip slots) then some (slots_of ip slots) else none))
              × (slots_of ip slots ≤ limits.max_connections_per_ip))
  counters_exact {o} {slots} r =
      let c = Reaches-Counts r in
      (
        c.total,
        c.total_limit,
        λ ip. (entry (get ip o.per_ip) (c.per_ip ip) (c.no_zero ip), c.per_ip_limit ip),
      )
    where
      entry :
          {n : ℕ} (old : Option ℕ)
          → unwrap_or old 0 ≡ n
          → old ≢ some 0
          → old ≡ (if ltb 0 n then some n else none)
      entry none h z = ground arith
      entry (some k) h z = ground arith

  -- A connection gets a slot exactly where fewer than `max_connections` slots are out and fewer than
  -- `max_connections_per_ip` of its address.
  pub admit_exact :
      {o : Open} {slots : List Permit} (ip : IpAddr)
      → Reaches limits o slots
      → (admit limits o ip).1 ≡ (
          if ltb (length slots) limits.max_connections
            && ltb (slots_of ip slots) limits.max_connections_per_ip
          then some (record { ip = ip })
          else none)
  admit_exact {o} {slots} ip r =
      let c = Reaches-Counts r in ground (arith, admit_cases limits o ip, c.total, c.per_ip ip)

  -- Giving back a slot that is out never subtracts from a zero counter, and frees it: the address
  -- may connect again at once.
  pub drop_frees :
      {o : Open} {slots : List Permit} (p : Permit)
      → Reaches limits o slots
      → 0 < slots_of p.ip slots
      → (0 < o.total)
        × (0 < from_ip o p.ip)
        × ((admit limits (drop o p) p.ip).1 ≡ some (record { ip = p.ip }))
  drop_frees {o} {slots} p r out =
      let c = Reaches-Counts r in
      (
        omega (arith, c.total, slots_of_le p.ip slots),
        omega (arith, c.per_ip p.ip),
        ground (
          arith,
          admit_exact p.ip (dropped r p out),
          length-give_back p.ip slots out,
          slots_of-give_back p.ip p.ip slots out,
          ip_eq.beq_iff p.ip p.ip,
          c.total_limit,
          c.per_ip_limit p.ip,
        ),
      )
