-- ===== src/Missions/Reducer.antt =====
-- The reducer of the mission store, `apply` of src/missions.rs.
use Prim.Native.Nat.{max}
use microtak_server.Prelude.{
  ◌+◌, ◌%◌, ◌^◌, String, Bool, true, not, List, [], ◌∷◌, ◌++◌, none, some, ◌==◌, string_eq,
  if◌then◌else◌, filter, unwrap_or,
}
use microtak_server.Map.{Map, get, insert, remove, modify}
use microtak_server.Missions.{
  Content, content_eq, ContentAdd, MissionRecord, create_mission, delete_mission, add_content,
  remove_content, create_data_feed, delete_data_feed,
}
use microtak_server.Missions.Records.{same_invitation, LayerRecord}
use microtak_server.Missions.Events.{
  bump, push, mission_change, push_feed_change, push_external_change, save_map_layer,
  push_layer_change, edit, logged_edit, without, Event, created, fields_set, password_set,
  default_role_set, groups_set, keywords_set, content_keywords_set, deleted, subscribed,
  subscription_role_set, unsubscribed, invited, uninvited, log_entry_saved, log_entry_deleted,
  layer_saved, layer_named, layer_parent_set, layer_after_set, layer_deleted, mission_feed_added,
  mission_feed_removed, map_layer_saved, external_data_set, external_data_changed, content_added,
  content_removed, State,
}

-- `iter_mut().find(p)` and a write to what it finds.
unfoldable pub modify_first {ℓ} : {A : Type ℓ} → (A → Bool) → (A → A) → List A → List A
modify_first p f [] = []
modify_first p f (x ∷ xs) = if p x then f x ∷ xs else x ∷ modify_first p f xs

-- `entry(key).or_default().push(item)`
unfoldable pub push_to {ℓ} : {A : Type ℓ} → String → A → Map String (List A) → Map String (List A)
push_to key item m = insert key (unwrap_or (get key m) [] ++ item ∷ []) m

-- A write to the layer that `layer_mut` finds.
unfoldable pub edit_layer : (guid uid : String) → (LayerRecord → LayerRecord) → State → State
unfolding modify_first
edit_layer guid uid f s = record s {
  layers = modify guid (modify_first (λ l. l.uid == uid) f) s.layers;
}

-- `if remove { state.external_data.remove(&change.uid); RemoveContent } else { AddContent }`
unfoldable pub drop_external : Bool → String → State → State
drop_external removes uid s =
    if removes then record s { external_data = remove uid s.external_data } else s

unfoldable pub set_content_keywords_of : Content → List String → MissionRecord → MissionRecord
set_content_keywords_of content [] m = record m {
  content_keywords = remove content m.content_keywords;
}
set_content_keywords_of content (k ∷ keywords) m = record m {
  content_keywords = insert content (k ∷ keywords) m.content_keywords;
}

-- Attach an item again: it shows its latest change, and is the last one.
unfoldable pub attach : ContentAdd → MissionRecord → MissionRecord
attach c m = record m { contents = without c.content m.contents ++ c ∷ [] }

unfoldable pub detach : Content → MissionRecord → MissionRecord
detach content m = record m { contents = without content m.contents }

unfoldable pub apply : State → Event → State
unfolding push_feed_change push_external_change save_map_layer push_layer_change edit logged_edit
    edit_layer drop_external set_content_keywords_of attach detach push bump push_to modify_first
apply s (mission_feed_added guid feed creator change_id at) =
    push_feed_change (record s { mission_feeds = insert feed.uid feed s.mission_feeds }) guid
      feed.uid creator change_id at create_data_feed
apply s (mission_feed_removed guid uid creator change_id at) =
    let s' = push_feed_change s guid uid creator change_id at delete_data_feed in
    record s' { mission_feeds = remove uid s'.mission_feeds }
apply s (map_layer_saved guid layer creator change_id) =
    push_layer_change (save_map_layer s layer) guid layer creator change_id
apply s (external_data_set guid r creator at change_id) =
    push_external_change (record s { external_data = insert r.id r s.external_data }) guid
      add_content
      (record { uid = r.id; name = r.name; tool = r.tool; token = none; notes = some r.notes })
      creator at change_id
apply s (external_data_changed guid change removes creator at change_id) =
    push_external_change (drop_external removes change.uid s) guid
      (if removes then remove_content else add_content) change creator at change_id
apply s (created m change_id) =
    let s' = bump change_id (
      push
        (mission_change change_id create_mission m.guid m.name none m.creator_uid m.create_time_ms
          m.create_time_ms)
        (record s { next_mission_id = max s.next_mission_id ((m.id + 1) % 2 ^ 64) })) in
    record s' { missions = insert m.guid m s'.missions }
apply s (fields_set guid fields at) =
    edit guid (λ m. record m { fields = fields; last_edited_ms = at }) s
apply s (password_set guid hash at) =
    edit guid (λ m. record m { password_hash = hash; last_edited_ms = at }) s
apply s (default_role_set guid role at) =
    edit guid (λ m. record m { default_role = role; last_edited_ms = at }) s
apply s (groups_set guid groups at) =
    edit guid (λ m. record m { groups = groups; last_edited_ms = at }) s
apply s (keywords_set guid keywords at) =
    edit guid (λ m. record m { keywords = keywords; last_edited_ms = at }) s
apply s (content_keywords_set guid content keywords) =
    edit guid (set_content_keywords_of content keywords) s
apply s (deleted guid creator at change_id) =
    logged_edit guid (get guid s.missions) (λ m. record m { deleted = true })
      (λ name. mission_change change_id delete_mission guid name none creator at at) change_id s
apply s (content_added guid content creator at change_id server) =
    logged_edit guid (get guid s.missions)
      (attach (record { content = content; timestamp_ms = at; creator_uid = creator }))
      (λ name.
        mission_change change_id add_content guid name (some content) creator at
          (unwrap_or server at))
      change_id s
apply s (content_removed guid content creator at change_id server) =
    logged_edit guid (get guid s.missions) (detach content)
      (λ name.
        mission_change change_id remove_content guid name (some content) creator at
          (unwrap_or server at))
      change_id s
apply s (subscribed guid subscription) = record s {
  subscriptions = push_to guid subscription s.subscriptions;
}
apply s (subscription_role_set guid id role) = record s {
  subscriptions =
      modify guid (modify_first (λ x. x.id == id) (λ x. record x { role = role })) s.subscriptions;
}
apply s (unsubscribed guid id) = record s {
  subscriptions = modify guid (filter (λ x. not (x.id == id))) s.subscriptions;
}
apply s (invited i) = record s {
  invitations =
      filter (λ j. not (same_invitation i.mission_guid i.invitation_type i.invitee j)) s.invitations
      ++ i ∷ [];
}
apply s (uninvited guid invitee kind) = record s {
  invitations = filter (λ j. not (same_invitation guid kind invitee j)) s.invitations;
}
apply s (log_entry_saved entry) = record s { logs = insert entry.id entry s.logs }
apply s (log_entry_deleted id) = record s { logs = remove id s.logs }
apply s (layer_saved guid layer) = record s { layers = push_to guid layer s.layers }
apply s (layer_named guid uid name) = edit_layer guid uid (λ l. record l { name = some name }) s
apply s (layer_parent_set guid uid parent) =
    edit_layer guid uid (λ l. record l { parent = parent; after = none }) s
apply s (layer_after_set guid uid after) = edit_layer guid uid (λ l. record l { after = after }) s
apply s (layer_deleted guid uid) = record s {
  layers = modify guid (filter (λ l. not (l.uid == uid))) s.layers;
}
