-- ===== src/Missions/History.antt =====
-- The change log of the mission store, src/missions.rs: an event appends at most one change, which
-- has the next number.
use Prim.Native.Nat.{max}
use mathlib.Core.Path.{subst}
use microtak_server.Prelude.{
  string_eq, ℕ, ◌+◌, ◌%◌, ◌^◌, ◌<◌, String, true, false, List, [], ◌∷◌, ◌++◌, none, some, ◌≡◌, refl,
  sym, ◌∙◌, ap, arith, length, length-append, append-nil, append_assoc,
}
use microtak_server.Map.{get}
use microtak_server.EventLog.{JsonLine}
use microtak_server.EventLog.Calls.{run_all}
use microtak_server.Missions.{ChangeRecord, MissionRecord}
use microtak_server.Missions.Events.{
  bump, push, edit, logged_edit, Event, created, fields_set, password_set, default_role_set,
  groups_set, keywords_set, content_keywords_set, deleted, subscribed, subscription_role_set,
  unsubscribed, invited, uninvited, log_entry_saved, log_entry_deleted, layer_saved, layer_named,
  layer_parent_set, layer_after_set, layer_deleted, mission_feed_added, mission_feed_removed,
  map_layer_saved, external_data_set, external_data_changed, content_added, content_removed, State,
}
use microtak_server.Missions.Reducer.{apply}
use microtak_server.Missions.Store.{MissionStore}
use microtak_server.Missions.Steps.{Existing, IsLegal}
use microtak_server.Missions.Calls.{Call, Writes, run}
use microtak_server.Missions.Legal.{calls-keep}
use microtak_server.Missions.Durable.{new_store}

-- What one legal event does to the change log and to its counter.
pub data Logs (s t : State) : Type 0 where
  same : t.changes ≡ s.changes → t.next_change_id ≡ s.next_change_id → Logs s t
  one_more :
      (c : ChangeRecord)
      → t.changes ≡ s.changes ++ c ∷ []
      → c.id ≡ s.next_change_id
      → t.next_change_id ≡ max s.next_change_id ((s.next_change_id + 1) % 2 ^ 64)
      → Logs s t

pushed :
    {s t : State} (c : ChangeRecord)
    → t.changes ≡ s.changes ++ c ∷ []
    → c.id ≡ s.next_change_id
    → t.next_change_id ≡ max s.next_change_id ((c.id + 1) % 2 ^ 64)
    → Logs s t
pushed {s} c changes id next =
    one_more c changes id (next ∙ ap (λ k. max s.next_change_id ((k + 1) % 2 ^ 64)) id)

logged_edit-Logs :
    (s : State) (guid : String) (f : MissionRecord → MissionRecord) (change : String → ChangeRecord)
    (n : ℕ)
    → n ≡ s.next_change_id
    → ((name : String) → (change name).id ≡ n)
    → Existing s guid
    → Logs s (logged_edit guid (get guid s.missions) f change n s)
unfolding logged_edit push bump edit
logged_edit-Logs s guid f change n e id (m, found) =
    rw (found, logged_edit)
      (pushed (change m.name) refl (id m.name ∙ e)
        (ap (λ k. max s.next_change_id ((k + 1) % 2 ^ 64)) (sym (id m.name))))

pub apply-Logs : (s : State) (event : Event) → IsLegal s event → Logs s (apply s event)
unfolding apply
apply-Logs s (mission_feed_added guid feed creator n at) e = pushed _ refl e refl
apply-Logs s (mission_feed_removed guid uid creator n at) e = pushed _ refl e refl
apply-Logs s (map_layer_saved guid layer creator none) e = same refl refl
apply-Logs s (map_layer_saved guid layer creator (some n)) e = pushed _ refl e refl
apply-Logs s (external_data_set guid r creator at n) e = pushed _ refl e refl
apply-Logs s (external_data_changed guid change true creator at n) e = pushed _ refl e refl
apply-Logs s (external_data_changed guid change false creator at n) e = pushed _ refl e refl
apply-Logs s (created m n) (e, id, empty) = pushed _ refl e refl
apply-Logs s (fields_set guid fields at) e = same refl refl
apply-Logs s (password_set guid hash at) e = same refl refl
apply-Logs s (default_role_set guid role at) e = same refl refl
apply-Logs s (groups_set guid groups at) e = same refl refl
apply-Logs s (keywords_set guid keywords at) e = same refl refl
apply-Logs s (content_keywords_set guid content keywords) e = same refl refl
apply-Logs s (deleted guid creator at n) (e, there) =
    logged_edit-Logs s guid _ _ n e (λ name. refl) there
apply-Logs s (content_added guid content creator at n server) (e, there) =
    logged_edit-Logs s guid _ _ n e (λ name. refl) there
apply-Logs s (content_removed guid content creator at n server) (e, there) =
    logged_edit-Logs s guid _ _ n e (λ name. refl) there
apply-Logs s (subscribed guid x) e = same refl refl
apply-Logs s (subscription_role_set guid id role) e = same refl refl
apply-Logs s (unsubscribed guid id) e = same refl refl
apply-Logs s (invited i) e = same refl refl
apply-Logs s (uninvited guid invitee kind) e = same refl refl
apply-Logs s (log_entry_saved entry) e = same refl refl
apply-Logs s (log_entry_deleted id) e = same refl refl
apply-Logs s (layer_saved guid layer) e = same refl refl
apply-Logs s (layer_named guid uid name) e = same refl refl
apply-Logs s (layer_parent_set guid uid parent) e = same refl refl
apply-Logs s (layer_after_set guid uid after) e = same refl refl
apply-Logs s (layer_deleted guid uid) e = same refl refl

-- Each change has the number of its place in the log.
abbrev pub Numbered : ℕ → List ChangeRecord → Type 0
Numbered n [] = Unit
Numbered n (c ∷ cs) = (c.id ≡ n) × Numbered (n + 1) cs

Numbered-append :
    (n : ℕ) (cs : List ChangeRecord) (c : ChangeRecord)
    → Numbered n cs
    → c.id ≡ n + length cs
    → Numbered n (cs ++ c ∷ [])
Numbered-append n [] c h e = (omega arith, tt)
Numbered-append n (d ∷ cs) c (h, hs) e = (h, Numbered-append (n + 1) cs c hs (omega arith))

-- While the counter has room.
abbrev Counts : State → Type 0
Counts s = length s.changes < 2 ^ 64 → Numbered 0 s.changes × (s.next_change_id ≡ length s.changes)

Counts-apply : (s : State) (event : Event) → IsLegal s event → Counts s → Counts (apply s event)
Counts-apply s event legal h = go (apply-Logs s event legal)
  where
    go : Logs s (apply s event) → Counts (apply s event)
    go (same changes next) room =
        let (numbered, count) = h (subst (λ cs. length cs < 2 ^ 64) changes room) in
        (subst (Numbered 0) (sym changes) numbered, next ∙ count ∙ ap length (sym changes))
    go (one_more c changes id next) room =
        let longer : length (apply s event).changes ≡ length s.changes + 1 =
          ap length changes ∙ length-append s.changes (c ∷ []) in
        let (numbered, count) = h (omega arith) in
        (
          subst (Numbered 0) (sym changes) (Numbered-append 0 s.changes c numbered (omega arith)),
          omega arith,
        )

-- One log goes on where another ends.
abbrev pub Extends : State → State → Type 0
Extends s t = (more : List ChangeRecord) × (t.changes ≡ s.changes ++ more)

Extends-apply :
    (s : State) (event : Event)
    → IsLegal s event
    → (r : State) → Extends r s
    → Extends r (apply s event)
Extends-apply s event legal r (more, e) = go (apply-Logs s event legal)
  where
    go : Logs s (apply s event) → Extends r (apply s event)
    go (same changes next) = (more, changes ∙ e)
    go (one_more c changes id next) =
        (more ++ c ∷ [], changes ∙ ap (λ cs. cs ++ c ∷ []) e ∙ append_assoc r.changes more (c ∷ []))

module _ {L : Type 0} (json : JsonLine L Event) where
  -- Whatever calls were made of a new store, and whatever its log answered to them, each change of
  -- the log has the number of its place, from 0 on: no number is given twice, and none is left out.
  -- The log is to be shorter than 2^64.
  pub changes-Numbered :
      (calls : List (Call × Writes))
      → length (run_all (run json) calls (new_store json)).state.changes < 2 ^ 64
      → Numbered 0 (run_all (run json) calls (new_store json)).state.changes
  changes-Numbered calls room =
      (calls-keep json Counts Counts-apply calls (new_store json) (λ r. (tt, refl)) room).0

  -- Calls only append to the change log: what it held before them is its beginning after them, also
  -- where they delete missions.
  pub history_kept :
      (calls : List (Call × Writes)) (s : MissionStore L)
      → Extends s.state (run_all (run json) calls s).state
  history_kept calls s =
      calls-keep json (Extends s.state) (λ t event legal h. Extends-apply t event legal s.state h)
        calls s ([], sym (append-nil s.state.changes))
