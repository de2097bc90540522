-- ===== src/Groups/Memberships.antt =====
-- What each event of src/groups.rs does to the membership of an identity in a group.
use microtak_server.Prelude.{
  ◌+◌, ◌%◌, ◌^◌, String, Bool, true, false, List, Option, none, some, ◌≡◌, refl, ap, ◌∙◌, arith,
  ◌==◌, string_eq, if◌then◌else◌, ◌⊎◌, ◌≢◌, ok,
}
use microtak_server.Prelude.Int.{ℤ}
use microtak_server.Map.{Map, get, remove, map_option}
use microtak_server.Map.Laws.{get-insert, get-remove, get-map_values}
use microtak_server.EventLog.{JsonLine, Write}
use microtak_server.EventLog.Replay.{commit_state}
use microtak_server.Groups.{
  Membership, State, GroupEvent, created, deleted, member_set, active_set, change_member,
  or_default, apply_event, member_of, GroupStore, record_event,
}

pub member_of-created :
    (s : State) (name : String) (description : Option String) (at : ℤ) (i g : String)
    → member_of (apply_event s (created name description at)) i g ≡ member_of s i g
unfolding member_of apply_event
member_of-created s name description at i g = refl

pub member_of-active_set :
    (s : State) (identity : String) (off : List String) (i g : String)
    → member_of (apply_event s (active_set identity off)) i g ≡ member_of s i g
unfolding member_of apply_event
member_of-active_set s identity off i g = refl

get-removed :
    (name g : String) (o : Option (Map String Membership))
    → get g (or_default (map_option (remove name) o))
      ≡ (if name == g then none else get g (or_default o))
get-removed name g none = unfold get in ground arith
get-removed name g (some m) = get-remove name g m

pub member_of-deleted :
    (s : State) (name i g : String)
    → member_of (apply_event s (deleted name)) i g ≡ (if name == g then none else member_of s i g)
unfolding member_of apply_event
member_of-deleted s name i g =
    ap (λ o. get g (or_default o)) (get-map_values i (remove name) s.members)
    ∙ get-removed name g (get i s.members)

get-change_member :
    (group g : String) (m : Option Membership) (groups : Map String Membership)
    → get g (change_member group m groups) ≡ (if group == g then m else get g groups)
get-change_member group g none groups = get-remove group g groups
get-change_member group g (some m) groups = get-insert group g m groups

get-or_default_if :
    (b : Bool) (g : String) (x : Map String Membership) (o : Option (Map String Membership))
    → get g (or_default (if b then some x else o)) ≡ (if b then get g x else get g (or_default o))
get-or_default_if true g x o = refl
get-or_default_if false g x o = refl

pub member_of-member_set :
    (s : State) (identity group : String) (m : Option Membership) (i g : String)
    → member_of (apply_event s (member_set identity group m)) i g ≡ (
        if identity == i
        then (if group == g then m else member_of s identity g)
        else member_of s i g)
unfolding member_of apply_event
member_of-member_set s identity group m i g =
    let changed = change_member group m (or_default (get identity s.members)) in
    ap (λ o. get g (or_default o)) (get-insert identity i changed s.members)
    ∙ get-or_default_if (identity == i) g changed (get i s.members)
    ∙ ap (λ x. if identity == i then x else get g (or_default (get i s.members)))
        (get-change_member group g m (or_default (get identity s.members)))

-- An operation that records one event: its effect is there exactly where it succeeds.
pub record_event_state :
    {L : Type 0} (json : JsonLine L GroupEvent) (w : Write) (s : GroupStore L) (e : GroupEvent)
    → ((record_event json w s e).1 ≡ ok tt)
        × ((record_event json w s e).0.state ≡ apply_event s.state e)
        × ((record_event json w s e).0.version ≡ (s.version + 1) % 2 ^ 64)
      ⊎ ((record_event json w s e).1 ≢ ok tt)
        × ((record_event json w s e).0.state ≡ s.state)
        × ((record_event json w s e).0.version ≡ s.version)
unfolding record_event
record_event_state json w s e = ground (arith, commit_state json apply_event w s.store e)
