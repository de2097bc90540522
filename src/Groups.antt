-- ===== src/Groups.antt =====
-- Groups and their members, src/groups.rs: the state, the events and the operations of `GroupStore`.
-- A set of names is a list; what an operation answers depends on membership alone.
pub mod Names
pub mod Memberships
pub mod Views
pub mod Invariant
pub mod Operations
pub mod Active
pub mod Grants
pub mod Deletion
pub mod Durable
pub mod Versions
mod Tests
use Prim.Native.Char.{code}
use microtak_server.Prelude.{
  ℕ, suc, ◌+◌, ◌*◌, ◌%◌, ◌^◌, String, Bool, true, false, not, ◌&&◌, ◌||◌, List, [], ◌∷◌, ◌++◌,
  Option, none, some, Result, ok, err, map, ◌==◌, string_eq, nat_eq, mem, any, find, filter, leb,
  ltb, length, is_some, if◌then◌else◌, fail_if, ◌>>=◌, ◌>>◌,
}
use microtak_server.Prelude.Bytes.{Bytes, codes}
use microtak_server.Prelude.Int.{ℤ, pos}
use microtak_server.Map.{Map, map_option, get, insert, remove, modify, contains_key, map_values}
use microtak_server.EventLog.{JsonLine, EventLogError, Write, Store, commit}
use Names.{validate_name}
pub use Names.{
  anon_group, GroupError, not_found, already_exists, invalid_name, no_active_group, event_log,
}

pub data Direction : Type 0 where
  in_ out : Direction

pub data Membership : Type 0 where
  in_only out_only both : Membership

unfoldable pub includes : Membership → Direction → Bool
includes both d = true
includes in_only in_ = true
includes out_only out = true
includes in_only out = false
includes out_only in_ = false

pub membership_eqb : Membership → Membership → Bool
membership_eqb in_only in_only = true
membership_eqb out_only out_only = true
membership_eqb both both = true
membership_eqb _ _ = false

unfoldable pub merge : Membership → Membership → Membership
unfolding membership_eqb
merge m n = if membership_eqb m n then m else both

pub record GroupGrant : Type 0 where
  pub name : String
  pub membership : Membership

pub record GroupRecord : Type 0 where
  pub description : Option String
  pub bitpos : ℕ
  pub created_at_unix : ℤ

pub record State : Type 0 where
  pub groups : Map String GroupRecord
  pub members : Map String (Map String Membership)
  pub inactive : Map String (List String)
  pub next_bitpos : ℕ

pub data GroupEvent : Type 0 where
  created : (name : String) → (description : Option String) → (created_at_unix : ℤ) → GroupEvent
  deleted : (name : String) → GroupEvent
  member_set : (identity group : String) → Option Membership → GroupEvent
  active_set : (identity : String) → (inactive : List String) → GroupEvent

abbrev pub fresh_state : State
fresh_state = record {
  groups =
      (
        anon_group,
        record {
          description = some "Default group for identities without explicit memberships";
          bitpos = 0;
          created_at_unix = pos 0;
        },
      )
      ∷ [];
  members = [];
  inactive = [];
  next_bitpos = 1;
}

-- `groups.entry(identity).or_default()` with one insertion or removal.
abbrev pub change_member :
    String → Option Membership → Map String Membership → Map String Membership
change_member group (some m) groups = insert group m groups
change_member group none groups = remove group groups

abbrev pub or_default {ℓ} : {A : Type ℓ} → Option (List A) → List A
or_default none = []
or_default (some xs) = xs

-- `next_bitpos` is a `u32`.
unfoldable pub apply_event : State → GroupEvent → State
apply_event s (created name description at) = record s {
  groups =
      insert name
        (record { description = description; bitpos = s.next_bitpos; created_at_unix = at })
        s.groups;
  next_bitpos = (s.next_bitpos + 1) % 2 ^ 32;
}
apply_event s (deleted name) = record s {
  groups = remove name s.groups;
  members = map_values (remove name) s.members;
  inactive = map_values (filter (λ g. not (g == name))) s.inactive;
}
apply_event s (member_set identity group membership) = record s {
  members =
      insert identity (change_member group membership (or_default (get identity s.members)))
        s.members;
}
apply_event s (active_set identity off) = record s { inactive = insert identity off s.inactive }

-- Explicit memberships, or `__ANON__` both ways when there are none.
abbrev pub explicit_or_anon : Option (Map String Membership) → List (String × Membership)
explicit_or_anon (some (entry ∷ rest)) = entry ∷ rest
explicit_or_anon _ = (anon_group, both) ∷ []

unfoldable pub effective_memberships : State → String → List (String × Membership)
effective_memberships s identity = explicit_or_anon (get identity s.members)

pub record GroupStore (L : Type 0) : Type 0 where
  pub store : Store L State
  pub open store use *
  pub version : ℕ

-- The membership that `grant` records for one group.
pub merged_with : Option Membership → Membership → Membership
merged_with (some existing) m = merge existing m
merged_with none m = m

pub member_of : State → String → String → Option Membership
member_of s identity group = get group (or_default (get identity s.members))

pub first_missing : State → List GroupGrant → Option String
first_missing s [] = none
first_missing s (g ∷ gs) = if contains_key g.name s.groups then first_missing s gs else some g.name

abbrev pub names : List (String × Membership) → List String
names [] = []
names ((g, m) ∷ rest) = g ∷ names rest

module _ {L : Type 0} (json : JsonLine L GroupEvent) where
  -- `record`, in a store whose lock is held; `version` is a `u64`.
  pub record_answer :
      GroupStore L
      → Store L State × Result EventLogError (Unit {0})
      → GroupStore L × Result GroupError (Unit {0})
  record_answer s (store, ok _) =
      (record { store = store; version = (s.version + 1) % 2 ^ 64 }, ok tt)
  record_answer s (store, err e) =
      (record { store = store; version = s.version }, err (event_log e))

  unfoldable pub record_event :
      Write → GroupStore L → GroupEvent → GroupStore L × Result GroupError (Unit {0})
  unfolding record_answer
  record_event w s event = record_answer s (commit json apply_event w s.store event)

  pub create :
      Write
      → GroupStore L
      → String
      → Option String
      → ℤ
      → GroupStore L × Result GroupError (Unit {0})
  create w s name description now_unix =
      if not (validate_name name)
      then (s, err (invalid_name name))
      else if contains_key name s.state.groups
      then (s, err (already_exists name))
      else record_event w s (created name description now_unix)

  pub delete : Write → GroupStore L → String → GroupStore L × Result GroupError (Unit {0})
  delete w s name =
      if name == anon_group
      then (s, err (invalid_name name))
      else if not (contains_key name s.state.groups)
      then (s, err (not_found name))
      else record_event w s (deleted name)

  pub set_member :
      Write
      → GroupStore L
      → String
      → String
      → Option Membership
      → GroupStore L × Result GroupError (Unit {0})
  set_member w s group identity membership =
      if not (contains_key group s.state.groups)
      then (s, err (not_found group))
      else record_event w s (member_set identity group membership)

  -- The loop of `grant`; each append has its own outcome. The first failure ends it.
  pub grant_loop :
      (ℕ → Write)
      → GroupStore L
      → String
      → List GroupGrant
      → GroupStore L × Result GroupError (Unit {0})
  grant_loop ws s identity [] = (s, ok tt)
  grant_loop ws s identity (g ∷ gs) =
      let (s', r) = record_event (ws 0) s (
        member_set identity g.name
          (some (merged_with (member_of s.state identity g.name) g.membership))) in
      elim r [ ok u ↦ grant_loop (λ n. ws (suc n)) s' identity gs | err e ↦ (s', err e) ]

  pub grant :
      (ℕ → Write)
      → GroupStore L
      → String
      → List GroupGrant
      → GroupStore L × Result GroupError (Unit {0})
  unfolding grant_loop
  grant ws s identity grants = elim (first_missing s.state grants) [
    | some missing ↦ (s, err (not_found missing))
    | none ↦ grant_loop ws s identity grants
  ]

  pub set_active :
      Write → GroupStore L → String → List String → GroupStore L × Result GroupError (Unit {0})
  set_active w s identity active =
      let member_of = names (effective_memberships s.state identity) in
      if any (λ g. mem g active) member_of
      then record_event w s (active_set identity (filter (λ g. not (mem g active)) member_of))
      else (s, err no_active_group)

-- `inactive.is_some_and(|off| off.contains(group))`
abbrev pub switched_off : Option (List String) → String → Bool
switched_off none g = false
switched_off (some off) g = mem g off

unfoldable pub active_of :
    Option (List String) → Direction → List (String × Membership) → List String
active_of off d [] = []
active_of off d ((g, m) ∷ rest) =
    if includes m d && not (switched_off off g)
    then g ∷ active_of off d rest
    else active_of off d rest

-- `None` is an unauthenticated connection.
unfoldable pub active_groups : State → Option String → Direction → List String
unfolding active_of
active_groups s none d = anon_group ∷ []
active_groups s (some identity) d =
    active_of (get identity s.inactive) d (effective_memberships s identity)

pub all_group_names : State → String → List String
all_group_names s identity = names (effective_memberships s identity)
