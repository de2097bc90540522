-- ===== src/Missions/Contents.antt =====
-- The items of a mission and its change log, src/missions.rs: an item is attached exactly where the
-- last change about it adds it.
use microtak_server.Prelude.{
  ℕ, String, Bool, true, false, List, [], ◌∷◌, ◌++◌, Option, none, some, ◌≡◌, ◌≢◌, inl, inr, refl,
  sym, ◌∙◌, ap, arith, ◌==◌, string_eq, option_eq, if◌then◌else◌, Bool-cases,
}
use microtak_server.Map.{get, insert, map_option}
use microtak_server.Prelude.{unwrap_or}
use microtak_server.Map.Laws.{get-insert, get-modify}
use microtak_server.EventLog.{JsonLine}
use microtak_server.EventLog.Calls.{run_all}
use microtak_server.Missions.{
  permission_eq, role_eq, content_eq, holds, has, change_type_eq, Content, ContentAdd,
  MissionRecord, ChangeType, create_mission, delete_mission, add_content, remove_content,
  create_data_feed, delete_data_feed, ChangeRecord,
}
use microtak_server.Missions.Events.{
  bump, push, mission_change, save_map_layer, edit, without, Event, created, fields_set,
  password_set, default_role_set, groups_set, keywords_set, content_keywords_set, deleted,
  subscribed, subscription_role_set, unsubscribed, invited, uninvited, log_entry_saved,
  log_entry_deleted, layer_saved, layer_named, layer_parent_set, layer_after_set, layer_deleted,
  mission_feed_added, mission_feed_removed, map_layer_saved, external_data_set,
  external_data_changed, content_added, content_removed, State,
}
use microtak_server.Missions.Reducer.{drop_external, attach, detach, apply}
use microtak_server.Missions.Steps.{IsLegal}
use microtak_server.Missions.Calls.{Call, Writes, run}
use microtak_server.Missions.Legal.{calls-keep}
use microtak_server.Missions.Durable.{new_store}

-- What one change of a mission says of an item: a mission starts with none.
abbrev effect : ChangeType → Option Content → Content → Bool → Bool
effect create_mission about content before = false
effect add_content about content before = if about == some content then true else before
effect remove_content about content before = if about == some content then false else before
effect kind about content before = before

abbrev after_change : (guid : String) → Content → ChangeRecord → Bool → Bool
after_change guid content c before =
    if c.mission_guid == guid then effect c.change_type c.content content before else before

-- Whether an item is attached to a mission, read off the change log alone.
pub attached_from : (guid : String) → Content → Bool → List ChangeRecord → Bool
attached_from guid content before [] = before
attached_from guid content before (c ∷ cs) =
    attached_from guid content (after_change guid content c before) cs

abbrev pub attached : (guid : String) → Content → List ChangeRecord → Bool
attached guid content cs = attached_from guid content false cs

attached_from-append :
    (guid : String) (content : Content) (before : Bool) (cs : List ChangeRecord) (c : ChangeRecord)
    → attached_from guid content before (cs ++ c ∷ [])
      ≡ after_change guid content c (attached_from guid content before cs)
unfolding attached_from
attached_from-append guid content before [] c = refl
attached_from-append guid content before (d ∷ cs) c =
    attached_from-append guid content (after_change guid content d before) cs c

abbrev pub Agrees : State → Type 0
Agrees s =
    (guid : String) (content : Content) (m : MissionRecord)
    → get guid s.missions ≡ some m
    → has m content ≡ attached guid content s.changes

holds-append :
    (content : Content) (cs : List ContentAdd) (c : ContentAdd)
    → holds content (cs ++ c ∷ []) ≡ (if c.content == content then true else holds content cs)
holds-append content [] c = ground arith
holds-append content (d ∷ cs) c = ground (arith, holds-append content cs c)

holds-without :
    (content other : Content) (cs : List ContentAdd)
    → holds other (without content cs) ≡ (if content == other then false else holds other cs)
holds-without content other [] = ground arith
holds-without content other (d ∷ cs) = ground (
  arith,
  holds-without content other cs,
  content_eq.beq_iff d.content content,
  content_eq.beq_iff d.content other,
  content_eq.beq_iff content other,
)

-- The changes of an edit that is in the log: at its own mission they do what the edit does, and at
-- another mission nothing.
module _ (s : State) (guid : String) (f : MissionRecord → MissionRecord)
    (change : String → ChangeRecord) (n : ℕ)
    (own : (name : String) → (change name).mission_guid ≡ guid)
    (same : (m : MissionRecord) (content : Content) (name : String)
      → has (f m) content
        ≡ effect (change name).change_type (change name).content content (has m content)) where
  edited-Agrees : (name : String) → Agrees s → Agrees (bump n (push (change name) (edit guid f s)))
  unfolding bump push edit
  edited-Agrees name h other content m found =
      rw (attached_from-append other content false s.changes (change name), own name)
        (elim (Bool-cases (guid == other)) [
          | inl e ↦ rw e (
              hit e (get other s.missions) refl
                (sym (rw e at (get-modify guid other f s.missions)) ∙ found))
          | inr e ↦
              rw e (h other content m (sym (rw e at (get-modify guid other f s.missions)) ∙ found))
        ])
    where
      hit :
          (guid == other) ≡ true
          → (old : Option MissionRecord) → get other s.missions ≡ old
          → map_option f old ≡ some m
          → has m content
            ≡ effect
                (change name).change_type
                (change name).content
                content
                (attached other content s.changes)
      hit e none q p = cc
      hit e (some o) q p =
          let edited : f o ≡ m = cc in
          rw (← h other content o q) (rw (← edited) (same o content name))

-- A change that is not about an item.
module _ (c : ChangeRecord) (guid : String) (content : Content) (cs : List ChangeRecord) where
  attached-neutral :
      c.content ≡ none
      → c.change_type ≢ create_mission
      → attached guid content (cs ++ c ∷ []) ≡ attached guid content cs
  attached-neutral about kind =
      attached_from-append guid content false cs c
      ∙ neutral c.content c.change_type about kind (attached guid content cs)
    where
      neutral :
          (about : Option Content) (kind : ChangeType)
          → about ≡ none
          → kind ≢ create_mission
          → (before : Bool)
          → (if c.mission_guid == guid then effect kind about content before else before) ≡ before
      neutral none create_mission e k before = absurd (k refl)
      neutral none delete_mission e k before = ground arith
      neutral none add_content e k before = ground arith
      neutral none remove_content e k before = ground arith
      neutral none create_data_feed e k before = ground arith
      neutral none delete_data_feed e k before = ground arith
      neutral (some x) kind e k before = cc

pushed-Agrees :
    (s : State) (c : ChangeRecord)
    → c.content ≡ none
    → c.change_type ≢ create_mission
    → Agrees s
    → Agrees (push c s)
unfolding push
pushed-Agrees s c about kind h guid content m found =
    h guid content m found ∙ sym (attached-neutral c guid content s.changes about kind)

-- An edit that is not in the log, and leaves the items.
edit-Agrees :
    (s : State) (guid : String) (f : MissionRecord → MissionRecord)
    → ((m : MissionRecord) → (f m).contents ≡ m.contents)
    → Agrees s
    → Agrees (edit guid f s)
unfolding edit has
edit-Agrees s guid f same h other content m found = elim (Bool-cases (guid == other)) [
  | inl e ↦
      hit (get other s.missions) refl (sym (rw e at (get-modify guid other f s.missions)) ∙ found)
  | inr e ↦ h other content m (sym (rw e at (get-modify guid other f s.missions)) ∙ found)
]
  where
    hit :
        (old : Option MissionRecord)
        → get other s.missions ≡ old
        → map_option f old ≡ some m
        → has m content ≡ attached other content s.changes
    hit none q p = cc
    hit (some o) q p =
        let edited : f o ≡ m = cc in
        rw (← edited) (ap (holds content) (same o) ∙ h other content o q)

created-Agrees :
    (s : State) (c : ChangeRecord) (m : MissionRecord)
    → c.mission_guid ≡ m.guid
    → c.change_type ≡ create_mission
    → m.contents ≡ []
    → Agrees s
    → Agrees (record (push c s) { missions = insert m.guid m s.missions })
unfolding push has
created-Agrees s c m own kind empty h other content x found =
    rw (attached_from-append other content false s.changes c, own, kind)
      (elim (Bool-cases (m.guid == other)) [
        | inl e ↦ rw e (
            let new : m ≡ x = cc (rw e at (get-insert m.guid other m s.missions)) in
            rw (← new, empty) refl)
        | inr e ↦
            rw e (h other content x (sym (rw e at (get-insert m.guid other m s.missions)) ∙ found))
      ])

has-attach :
    (c : ContentAdd) (m : MissionRecord) (content : Content)
    → has (attach c m) content ≡ (if some c.content == some content then true else has m content)
unfolding has attach
has-attach c m content =
    holds-append content (without c.content m.contents) c
    ∙ elim (Bool-cases (c.content == content)) [
      | inl e ↦ rw e refl
      | inr e ↦ rw e (holds-without c.content content m.contents ∙ rw e refl)
    ]

has-detach :
    (c : Content) (m : MissionRecord) (content : Content)
    → has (detach c m) content ≡ (if some c == some content then false else has m content)
unfolding has detach
has-detach c m content = holds-without c content m.contents

Agrees-apply : (s : State) (event : Event) → IsLegal s event → Agrees s → Agrees (apply s event)
unfolding apply has
Agrees-apply s (mission_feed_added guid feed creator n at) e h =
    pushed-Agrees (record s { mission_feeds = insert feed.uid feed s.mission_feeds }) _ refl
      (λ q. cc) h
Agrees-apply s (mission_feed_removed guid uid creator n at) e h = pushed-Agrees s _ refl (λ q. cc) h
Agrees-apply s (map_layer_saved guid layer creator none) e h = h
Agrees-apply s (map_layer_saved guid layer creator (some n)) e h =
    pushed-Agrees (save_map_layer s layer) _ refl (λ q. cc) h
Agrees-apply s (external_data_set guid r creator at n) e h =
    pushed-Agrees (record s { external_data = insert r.id r s.external_data }) _ refl (λ q. cc) h
Agrees-apply s (external_data_changed guid change true creator at n) e h =
    pushed-Agrees (drop_external true change.uid s) _ refl (λ q. cc) h
Agrees-apply s (external_data_changed guid change false creator at n) e h =
    pushed-Agrees (drop_external false change.uid s) _ refl (λ q. cc) h
Agrees-apply s (created m n) (e, id, empty) h = created-Agrees s _ m refl refl empty h
Agrees-apply s (fields_set guid fields at) e h = edit-Agrees s guid _ (λ m. refl) h
Agrees-apply s (password_set guid hash at) e h = edit-Agrees s guid _ (λ m. refl) h
Agrees-apply s (default_role_set guid role at) e h = edit-Agrees s guid _ (λ m. refl) h
Agrees-apply s (groups_set guid groups at) e h = edit-Agrees s guid _ (λ m. refl) h
Agrees-apply s (keywords_set guid keywords at) e h = edit-Agrees s guid _ (λ m. refl) h
Agrees-apply s (content_keywords_set guid content []) e h = edit-Agrees s guid _ (λ m. refl) h
Agrees-apply s (content_keywords_set guid content (k ∷ keywords)) e h =
    edit-Agrees s guid _ (λ m. refl) h
Agrees-apply s (deleted guid creator at n) (e, (m, found)) h =
    rw (found, apply)
      (edited-Agrees s guid (λ o. record o { deleted = true })
        (λ name. mission_change n delete_mission guid name none creator at at) n (λ name. refl)
        (λ o content name. refl) m.name h)
Agrees-apply s (content_added guid content creator at n server) (e, (m, found)) h =
    rw (found, apply)
      (edited-Agrees s guid
        (attach (record { content = content; timestamp_ms = at; creator_uid = creator }))
        (λ name.
          mission_change n add_content guid name (some content) creator at (unwrap_or server at))
        n (λ name. refl)
        (λ o x name.
          has-attach (record { content = content; timestamp_ms = at; creator_uid = creator }) o x)
        m.name h)
Agrees-apply s (content_removed guid content creator at n server) (e, (m, found)) h =
    rw (found, apply)
      (edited-Agrees s guid (detach content)
        (λ name.
          mission_change n remove_content guid name (some content) creator at (unwrap_or server at))
        n (λ name. refl) (λ o x name. has-detach content o x) m.name h)
Agrees-apply s (subscribed guid x) e h = h
Agrees-apply s (subscription_role_set guid id role) e h = h
Agrees-apply s (unsubscribed guid id) e h = h
Agrees-apply s (invited i) e h = h
Agrees-apply s (uninvited guid invitee kind) e h = h
Agrees-apply s (log_entry_saved entry) e h = h
Agrees-apply s (log_entry_deleted id) e h = h
Agrees-apply s (layer_saved guid layer) e h = h
Agrees-apply s (layer_named guid uid name) e h = h
Agrees-apply s (layer_parent_set guid uid parent) e h = h
Agrees-apply s (layer_after_set guid uid after) e h = h
Agrees-apply s (layer_deleted guid uid) e h = h

module _ {L : Type 0} (json : JsonLine L Event) where
  -- After any calls of a new store, whatever its log answered to them, an item is attached to a
  -- mission exactly where the change log says so: since the mission was created last, the last
  -- change about the item adds it.
  pub contents_agree :
      (calls : List (Call × Writes)) (guid : String) (content : Content) (m : MissionRecord)
      → get guid (run_all (run json) calls (new_store json)).state.missions ≡ some m
      → has m content
        ≡ attached guid content (run_all (run json) calls (new_store json)).state.changes
  unfolding get
  contents_agree calls =
      calls-keep json Agrees Agrees-apply calls (new_store json) (λ guid content m e. cc)
