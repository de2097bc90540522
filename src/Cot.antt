-- ===== src/Cot.antt =====
-- Events as far as the server reads them, src/cot.rs: what an event is, who it comes from and who it
-- is addressed to. Parsing and printing are quick-xml's; the point, four floating-point numbers that
-- no rule looks at, is left out of an event.
pub mod Latest
pub mod Bounded
mod Tests
use microtak_server.Prelude.{
  ℕ, ◌+◌, String, Bool, true, false, not, ◌&&◌, leb, List, [], ◌∷◌, ◌++◌, Option, none, some, ◌==◌,
  string_eq, option_eq, if◌then◌else◌, any, all, mem, map, is_some,
}
use microtak_server.Prelude.Bytes.{Bytes, codes, bytes_eqb}
use microtak_server.Map.{Map}
use microtak_server.Prelude.Text.{is_whitespace}
use microtak_server.Missions.Records.{eq_ignore_ascii_case}

pub record Link : Type 0 where
  pub uid : Option String
  pub relation : Option String
  pub link_type : Option String

pub record Contact : Type 0 where
  pub callsign : Option String
  pub endpoint : Option String

-- `attributes` are those of the element, with the `@` that serde puts before a name.
pub record ChatGroup : Type 0 where
  pub id : Option String
  pub attributes : Map String String

pub record Chat : Type 0 where
  pub id : String
  pub chatroom : String
  pub sender_callsign : Option String
  pub group_owner : Option String
  pub chatgrp : Option ChatGroup

pub record Dest : Type 0 where
  pub uid : Option String
  pub callsign : Option String
  pub mission : Option String
  pub mission_guid : Option String

pub record Detail : Type 0 where
  pub contact : Option Contact
  pub chat : Option Chat
  -- The `dest` elements of `<marti>`, where there is one.
  pub marti : Option (List Dest)
  pub remarks : Option String
  pub links : List Link

pub record Event : Type 0 where
  pub version : String
  pub uid : String
  pub cot_type : String
  pub how : String
  pub time : String
  pub start : String
  pub stale : String
  pub detail : Option Detail

abbrev pub all_chat_rooms : String
all_chat_rooms = "All Chat Rooms"

abbrev pub control_types : List String
control_types =
    "t-b" ∷ "t-b-a" ∷ "t-b-c" ∷ "t-b-q" ∷ "t-x-c-f" ∷ "t-x-c-t" ∷ "t-x-c-t-r" ∷ "t-x-takp-q"
    ∷ "t-x-c-m" ∷ "t-x-c-i-e" ∷ "t-x-c-i-d" ∷ []

-- The constants are lower case, so the comparison is that of the lowered type.
unfoldable pub is_control : Event → Bool
unfolding eq_ignore_ascii_case
is_control e = any (λ t. eq_ignore_ascii_case t e.cot_type) control_types

unfoldable pub is_ping : Event → Bool
unfolding eq_ignore_ascii_case
is_ping e = eq_ignore_ascii_case e.cot_type "t-x-c-t"

-- `iter().filter_map(f).collect()`
unfoldable pub filter_map {ℓ κ} : {A : Type ℓ} {B : Type κ} → (A → Option B) → List A → List B
filter_map f [] = []
filter_map f (x ∷ xs) = elim (f x) [ none ↦ filter_map f xs | some y ↦ y ∷ filter_map f xs ]

-- `!value.trim().is_empty()`
unfoldable pub not_blank : String → Bool
unfolding is_whitespace
not_blank value = not (all is_whitespace (codes value))

abbrev pub non_empty : Option String → Bool
non_empty none = false
non_empty (some v) = not_blank v

abbrev pub has_contact : Option Contact → Bool
has_contact none = false
has_contact (some c) = non_empty c.callsign && non_empty c.endpoint

abbrev pub contact_of : Option Detail → Option Contact
contact_of none = none
contact_of (some d) = d.contact

unfoldable pub is_situational_awareness : Event → Bool
unfolding not_blank
is_situational_awareness e = not_blank e.uid && has_contact (contact_of e.detail)

abbrev pub producer_of : Link → Option String
producer_of l = if l.relation == some "p-p" then l.uid else none

abbrev pub links_of : Option Detail → List Link
links_of none = []
links_of (some d) = d.links

unfoldable pub producer_uids : Event → List String
unfolding filter_map
producer_uids e = filter_map producer_of (links_of e.detail)

abbrev pub dests_of : Option (List Dest) → List Dest
dests_of none = []
dests_of (some dests) = dests

abbrev pub marti_of : Option Detail → List Dest
marti_of none = []
marti_of (some d) = dests_of d.marti

abbrev pub guid_of : Dest → Option String
guid_of d = if is_some d.mission then none else d.mission_guid

-- The names and the guids.
unfoldable pub dest_missions : Event → List String × List String
unfolding filter_map
dest_missions e =
    (filter_map (λ d. d.mission) (marti_of e.detail), filter_map guid_of (marti_of e.detail))

-- `strip_prefix("@uid")` of a key, whose rest has only digits, and at least one.
strip_prefix : Bytes → Bytes → Option Bytes
strip_prefix [] text = some text
strip_prefix (p ∷ prefix) [] = none
strip_prefix (p ∷ prefix) (c ∷ text) = elim (bytes_eqb (p ∷ []) (c ∷ [])) [
  | true ↦ strip_prefix prefix text
  | false ↦ none
]

abbrev all_digits : Bytes → Bool
all_digits suffix = all (λ c. leb b'0' c && leb c b'9') suffix

abbrev is_number : Option Bytes → Bool
is_number none = false
is_number (some []) = false
is_number (some (c ∷ suffix)) = all_digits (c ∷ suffix)

unfoldable pub member_of : String × String → Option String
unfolding strip_prefix
member_of (key, value) =
    if is_number (strip_prefix (codes "@uid") (codes key)) then some value else none

unfoldable pub member_uids : ChatGroup → List String
unfolding filter_map member_of
member_uids g = filter_map member_of g.attributes

abbrev pub members_of : Option ChatGroup → List String
members_of none = []
members_of (some g) = member_uids g

abbrev pub chat_uids : Option Chat → List String
chat_uids none = []
chat_uids (some c) = if c.chatroom == all_chat_rooms then [] else members_of c.chatgrp

abbrev pub some_uids : List String → Option (List String)
some_uids [] = none
some_uids (u ∷ us) = some (u ∷ us)

abbrev pub addressed_in : Option Detail → Option (List String)
addressed_in none = none
addressed_in (some d) = some_uids (filter_map (λ x. x.uid) (dests_of d.marti) ++ chat_uids d.chat)

unfoldable pub addressed_uids : Event → Option (List String)
unfolding filter_map member_uids
addressed_uids e = addressed_in e.detail
