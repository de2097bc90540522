-- ===== src/Missions/Subscriptions.antt =====
-- Subscriptions to missions, src/missions.rs: `subscribe` with its raise of a role, the changes by
-- id, and the queries. The random id and the token made from it are arguments.
use microtak_server.Prelude.{
  ℕ, suc, String, Bool, true, not, ◌&&◌, ◌||◌, List, [], ◌∷◌, ◌++◌, Option, none, some, Result, ok,
  err, ◌==◌, string_eq, option_eq, if◌then◌else◌, filter, find, unwrap_or, map, length,
}
use microtak_server.Prelude.Int.{int_eq, ℤ}
use microtak_server.Map.{Map, get}
use microtak_server.EventLog.{JsonLine, Write}
use microtak_server.Missions.{
  permission_eq, role_eq, has_all, content_eq, change_type_eq, MissionError, Role,
}
use microtak_server.Missions.Records.{invitation_type_eq, SubscriptionRecord}
use microtak_server.Missions.Events.{
  mission_name_of, Event, subscribed, subscription_role_set, unsubscribed, State,
}
use microtak_server.Missions.Store.{MissionStore, existing, and_then, record_event}
use microtak_server.Missions.Attachments.{if_existing}

unfoldable pub subscriptions : State → String → List SubscriptionRecord
subscriptions s guid = unwrap_or (get guid s.subscriptions) []

unfoldable pub subscription_by_id : State → String → String → Option SubscriptionRecord
unfolding subscriptions
subscription_by_id s guid id = find (λ x. x.id == id) (subscriptions s guid)

abbrev pub same_subscriber : (client_uid username : String) → SubscriptionRecord → Bool
same_subscriber client username x = x.client_uid == client && x.username == username

unfoldable pub find_subscription :
    State → (guid client_uid username : String) → Option SubscriptionRecord
unfolding subscriptions
find_subscription s guid client username =
    find (same_subscriber client username) (subscriptions s guid)

unfoldable pub names_of :
    State → Map String (List SubscriptionRecord) → List (String × String × String)
unfolding mission_name_of
names_of s [] = []
names_of s ((guid, subs) ∷ rest) =
    map (λ x. (guid, mission_name_of s guid, x.client_uid)) subs ++ names_of s rest

unfoldable pub all_subscriptions : State → List (String × String × String)
unfolding names_of
all_subscriptions s = names_of s s.subscriptions

abbrev pub ids : List SubscriptionRecord → List String
ids = map (λ x. x.id)

-- Whose role `set_subscription_role` sets: the user's, or where none is named the client's.
abbrev pub role_target : (client_uid username : String) → SubscriptionRecord → Bool
role_target client username x =
    if not (username == "") then x.username == username else x.client_uid == client

abbrev pub is_none_or : (String → Bool) → Option String → Bool
is_none_or p none = true
is_none_or p (some u) = p u

-- Who `unsubscribe` removes.
abbrev pub leaves : (client_uid : String) → Option String → SubscriptionRecord → Bool
leaves client username x =
    x.client_uid == client && is_none_or (λ u. u == "" || x.username == u) username

module _ {L : Type 0} (json : JsonLine L Event) where
  -- `for id in &ids { self.record(..)?; } Ok(ids.len())`; each append has its own outcome.
  unfoldable pub record_each :
      (ℕ → Write) → MissionStore L → List Event → MissionStore L × Result MissionError (Unit {0})
  unfolding record_event
  record_each ws s [] = (s, ok tt)
  record_each ws s (event ∷ events) =
      let (s', r) = record_event json (ws 0) s event in
      elim r [ ok u ↦ record_each (λ n. ws (suc n)) s' events | err e ↦ (s', err e) ]

  module _ (s : MissionStore L) (guid : String) where
    -- An existing subscription, whose role is raised but never lowered.
    unfoldable pub raise :
        Write → SubscriptionRecord → Role → MissionStore L × Result MissionError SubscriptionRecord
    unfolding and_then record_event has_all
    raise w x role =
        if not (x.role == role) && has_all role x.role
        then and_then (record_event json w s (subscription_role_set guid x.id role))
            (λ s'. record x { role = role })
        else (s, ok x)

    unfoldable pub subscribe_new :
        Write → SubscriptionRecord → MissionStore L × Result MissionError SubscriptionRecord
    unfolding and_then record_event
    subscribe_new w x = and_then (record_event json w s (subscribed guid x)) (λ s'. x)

    unfoldable pub subscribe_as :
        Write
        → Option SubscriptionRecord
        → SubscriptionRecord
        → MissionStore L × Result MissionError SubscriptionRecord
    unfolding raise subscribe_new
    subscribe_as w (some x) new = raise w x new.role
    subscribe_as w none new = subscribe_new w new

    unfoldable pub subscribe :
        Write
        → (client_uid username : String) → Role
        → (now_ms : ℤ) → (make_token : String → String) → (random_id : String)
        → MissionStore L × Result MissionError SubscriptionRecord
    unfolding subscribe_as if_existing find_subscription
    subscribe w client username role now make_token id =
        if_existing json (existing s.state guid) s (
          subscribe_as w (find_subscription s.state guid client username) (record {
            id = id;
            token = make_token id;
            client_uid = client;
            username = username;
            create_time_ms = now;
            role = role;
          }))

    unfoldable pub set_subscription_role :
        (ℕ → Write) → (client_uid username : String) → Role → MissionStore L × Result MissionError ℕ
    unfolding if_existing record_each and_then subscriptions
    set_subscription_role ws client username role =
        let targets = ids (filter (role_target client username) (subscriptions s.state guid)) in
        if_existing json (existing s.state guid) s (
          and_then (record_each ws s (map (λ id. subscription_role_set guid id role) targets))
            (λ s'. length targets))

    unfoldable pub unsubscribe :
        (ℕ → Write)
        → (client_uid : String) → (username : Option String)
        → MissionStore L × Result MissionError ℕ
    unfolding record_each and_then subscriptions
    unsubscribe ws client username =
        let targets = ids (filter (leaves client username) (subscriptions s.state guid)) in
        and_then (record_each ws s (map (λ id. unsubscribed guid id) targets))
          (λ s'. length targets)
