-- ===== src/Groups/Invariant.antt =====
-- What holds of the groups of src/groups.rs at all times, event by event.
use microtak_server.Prelude.{
  ◌+◌, ◌^◌, ◌<◌, String, Bool, true, false, List, Option, none, some, ◌≡◌, refl, sym, ◌∙◌, arith,
  ◌==◌, string_eq, if◌then◌else◌,
}
use microtak_server.Prelude.Int.{ℤ}
use microtak_server.Map.{Map, get, remove, map_option, contains_key}
use microtak_server.Map.Laws.{get-insert, get-remove, get-map_values}
use microtak_server.Map.Counts.{Distinct, Distinct-insert, Distinct-remove}
use microtak_server.Groups.{
  anon_group, Membership, GroupRecord, State, GroupEvent, created, deleted, member_set, active_set,
  change_member, or_default, apply_event, member_of,
}
use microtak_server.Groups.Memberships.{
  member_of-created, member_of-active_set, member_of-deleted, member_of-member_set,
}

-- `__ANON__` is there, members are members of groups that exist, each group has a position of its
-- own below the next one, and a membership stands once.
pub record IsValid (s : State) : Type 0 where
  pub anon_exists : contains_key anon_group s.groups ≡ true
  pub members_exist :
      (i g : String) (m : Membership) → member_of s i g ≡ some m → contains_key g s.groups ≡ true
  pub below_next :
      (g : String) (r : GroupRecord) → get g s.groups ≡ some r → r.bitpos < s.next_bitpos
  pub own_bitpos :
      (g h : String) (r q : GroupRecord)
      → get g s.groups ≡ some r
      → get h s.groups ≡ some q
      → r.bitpos ≡ q.bitpos
      → g ≡ h
  pub one_entry :
      (i : String) (groups : Map String Membership)
      → get i s.members ≡ some groups
      → Distinct groups

-- What an operation has tested before it records an event. The position is a `u32`.
abbrev pub IsLegal : State → GroupEvent → Type 0
IsLegal s (created name description at) =
    (contains_key name s.groups ≡ false) × (s.next_bitpos + 1 < 2 ^ 32)
IsLegal s (deleted name) = (name == anon_group) ≡ false
IsLegal s (member_set identity group m) = contains_key group s.groups ≡ true
IsLegal s (active_set identity off) = Unit

module _ {s : State} (v : IsValid s) where
  created-IsValid :
      (name : String) (description : Option String) (at : ℤ)
      → IsLegal s (created name description at)
      → IsValid (apply_event s (created name description at))
  unfolding apply_event
  created-IsValid name description at (fresh, room) =
      let new : GroupRecord = record {
        description = description;
        bitpos = s.next_bitpos;
        created_at_unix = at;
      } in
      record {
        anon_exists = ground (arith, v.anon_exists, get-insert name anon_group new s.groups);
        members_exist = λ i g m h. ground (
          arith,
          v.members_exist i g m,
          member_of-created s name description at i g,
          get-insert name g new s.groups,
        );
        below_next = λ g r h. ground (arith, v.below_next g r, get-insert name g new s.groups);
        own_bitpos = λ g h r q hr hq e. ground (
          arith,
          string_eq.beq_iff name g,
          string_eq.beq_iff name h,
          get-insert name g new s.groups,
          get-insert name h new s.groups,
          v.below_next g r,
          v.below_next h q,
          v.own_bitpos g h r q,
        );
        one_entry = v.one_entry;
      }

  removed-Distinct :
      (name i : String) (groups : Map String Membership) (o : Option (Map String Membership))
      → get i s.members ≡ o
      → map_option (remove name) o ≡ some groups
      → Distinct groups
  removed-Distinct name i groups none e h = cc
  removed-Distinct name i groups (some old) e h =
      let same : remove name old ≡ groups = cc in
      rw (← same) (Distinct-remove name old (v.one_entry i old e))

  deleted-IsValid :
      (name : String) → IsLegal s (deleted name) → IsValid (apply_event s (deleted name))
  unfolding apply_event
  deleted-IsValid name other = record {
    anon_exists = ground (arith, v.anon_exists, get-remove name anon_group s.groups);
    members_exist = λ i g m h.
        ground
          (arith, v.members_exist i g m, member_of-deleted s name i g, get-remove name g s.groups);
    below_next = λ g r h. ground (arith, v.below_next g r, get-remove name g s.groups);
    own_bitpos = λ g h r q hr hq e.
        ground
          (arith, get-remove name g s.groups, get-remove name h s.groups, v.own_bitpos g h r q);
    one_entry = λ i groups h.
        removed-Distinct name i groups (get i s.members) refl
          (sym (get-map_values i (remove name) s.members) ∙ h);
  }

  or_default-Distinct :
      (i : String) (o : Option (Map String Membership))
      → get i s.members ≡ o
      → Distinct (or_default o)
  or_default-Distinct i none e = tt
  or_default-Distinct i (some m) e = v.one_entry i m e

  change_member-Distinct :
      (i group : String) (m : Option Membership)
      → Distinct (change_member group m (or_default (get i s.members)))
  change_member-Distinct i group none =
      Distinct-remove group (or_default (get i s.members))
        (or_default-Distinct i (get i s.members) refl)
  change_member-Distinct i group (some m) =
      Distinct-insert group m (or_default (get i s.members))
        (or_default-Distinct i (get i s.members) refl)

  member_set-one_entry :
      (b : Bool) (i identity group : String) (m : Option Membership)
      (groups : Map String Membership)
      → (if b
          then some (change_member group m (or_default (get identity s.members)))
          else get i s.members)
        ≡ some groups
      → Distinct groups
  member_set-one_entry true i identity group m groups h =
      let same : change_member group m (or_default (get identity s.members)) ≡ groups = cc in
      rw (← same) (change_member-Distinct identity group m)
  member_set-one_entry false i identity group m groups h = v.one_entry i groups h

  member_set-IsValid :
      (identity group : String) (m : Option Membership)
      → IsLegal s (member_set identity group m)
      → IsValid (apply_event s (member_set identity group m))
  unfolding apply_event
  member_set-IsValid identity group m there =
      let changed = change_member group m (or_default (get identity s.members)) in
      record {
        anon_exists = v.anon_exists;
        members_exist = λ i g n h. ground (
          arith,
          string_eq.beq_iff group g,
          member_of-member_set s identity group m i g,
          v.members_exist i g n,
          v.members_exist identity g n,
        );
        below_next = v.below_next;
        own_bitpos = v.own_bitpos;
        one_entry = λ i groups h.
            member_set-one_entry (identity == i) i identity group m groups
              (sym (get-insert identity i changed s.members) ∙ h);
      }

  active_set-IsValid :
      (identity : String) (off : List String) → IsValid (apply_event s (active_set identity off))
  unfolding apply_event
  active_set-IsValid identity off = record {
    anon_exists = v.anon_exists;
    members_exist =
        λ i g m h. v.members_exist i g m (sym (member_of-active_set s identity off i g) ∙ h);
    below_next = v.below_next;
    own_bitpos = v.own_bitpos;
    one_entry = v.one_entry;
  }

  pub apply_event-IsValid : (e : GroupEvent) → IsLegal s e → IsValid (apply_event s e)
  apply_event-IsValid (created name description at) h = created-IsValid name description at h
  apply_event-IsValid (deleted name) h = deleted-IsValid name h
  apply_event-IsValid (member_set identity group m) h = member_set-IsValid identity group m h
  apply_event-IsValid (active_set identity off) h = active_set-IsValid identity off
