-- ===== src/Transport/Hub/Reach.antt =====
-- Delivery by src/transport/hub.rs with the groups of src/groups.rs: who sees what a device sends.
use microtak_server.Prelude.{
  String, true, false, not, ◌&&◌, ◌||◌, List, [], ◌∷◌, Option, none, some, ◌≡◌, ◌↔◌, refl, ◌==◌,
  string_eq, option_eq, mem, any, is_some, arith, Bool-cases, inl, inr,
}
use microtak_server.Map.{get}
use microtak_server.Groups.{
  anon_group, Direction, in_, out, State, active_groups, effective_memberships, includes,
  switched_off,
}
use microtak_server.Transport.Hub.{
  Outbound, client, server_to, server_broadcast, reaches, is_deliverable_to, is_addressed,
}

-- What a device sends carries its active IN groups.
abbrev pub from_device : State → Outbound → (sender : Option String) → Outbound
from_device s m sender = record m { groups = active_groups s sender in_; origin = client }

any_iff :
    (mine theirs : List String)
    → (any (λ g. mem g theirs) mine ≡ true)
      ↔ ((g : String) × (mem g mine ≡ true) × (mem g theirs ≡ true))
any_iff [] theirs = (λ h. cc, λ h. cc)
any_iff (x ∷ xs) theirs = (
  λ h. elim (Bool-cases (mem x theirs)) [
    | inl e ↦ (x, ground (arith, string_eq.beq_iff x x), e)
    | inr e ↦ let (g, p, q) = (any_iff xs theirs).0 (ground arith) in (g, ground arith, q)
  ],
  λ h.
      let (g, p, q) = h in
      let later = (any_iff xs theirs).1 in
      elim (Bool-cases (x == g)) [
        | inl same ↦ ground (arith, string_eq.beq_iff x g)
        | inr differs ↦ let rest = later (g, ground arith, q) in ground arith
      ],
)

-- What a device sends reaches another exactly where some group is both an active IN group of the
-- sender and an active OUT group of the receiver.
pub device_reaches_iff :
    (s : State) (m : Outbound) (sender receiver : Option String)
    → (reaches (from_device s m sender) (active_groups s receiver out) ≡ true) ↔ (
        (g : String) × (mem g (active_groups s sender in_) ≡ true)
        × (mem g (active_groups s receiver out) ≡ true))
unfolding reaches
device_reaches_iff s m sender receiver =
    any_iff (active_groups s sender in_) (active_groups s receiver out)

-- A device with no memberships of its own that has not switched `__ANON__` off.
abbrev pub IsAnonymous : State → Option String → Type 0
IsAnonymous s none = Unit
IsAnonymous s (some identity) =
    (get identity s.members ≡ none) × (switched_off (get identity s.inactive) anon_group ≡ false)

anonymous_has_anon :
    (s : State) (identity : Option String) (d : Direction)
    → IsAnonymous s identity
    → mem anon_group (active_groups s identity d) ≡ true
unfolding active_groups effective_memberships includes
anonymous_has_anon s none d h = ground (arith, string_eq.beq_iff anon_group anon_group)
anonymous_has_anon s (some identity) d (absent, on) =
    rw absent (ground (arith, string_eq.beq_iff anon_group anon_group))

-- Devices that nobody put in a group see each other, authenticated or not.
pub anonymous_reach :
    (s : State) (m : Outbound) (sender receiver : Option String)
    → IsAnonymous s sender
    → IsAnonymous s receiver
    → reaches (from_device s m sender) (active_groups s receiver out) ≡ true
anonymous_reach s m sender receiver h k =
    (device_reaches_iff s m sender receiver).1
      (anon_group, anonymous_has_anon s sender in_ h, anonymous_has_anon s receiver out k)

-- An addressed message of the server goes to the connections whose uid it names and to no other,
-- whatever their groups are.
pub server_to_exact :
    (uids : List String) (xml : String) (my_uid : Option String) (groups : List String)
    → (is_deliverable_to (server_to uids xml) my_uid ≡ is_addressed (some uids) my_uid)
      × (reaches (server_to uids xml) groups ≡ true)
unfolding is_deliverable_to reaches
server_to_exact uids xml my_uid groups = (refl, refl)

-- A broadcast of the server is seen by a connection exactly where it is not the one to skip, and
-- the groups have `__ANON__` or one that the connection receives from.
pub server_broadcast_exact :
    (groups : List String) (skip_uid : Option String) (xml : String) (my_uid : Option String)
    (receiver : List String)
    → (is_deliverable_to (server_broadcast groups skip_uid xml) my_uid
        && reaches (server_broadcast groups skip_uid xml) receiver)
      ≡ (not (is_some skip_uid && my_uid == skip_uid)
          && (mem anon_group groups || any (λ g. mem g receiver) groups))
unfolding is_deliverable_to reaches
server_broadcast_exact groups skip_uid xml my_uid receiver = ground arith
