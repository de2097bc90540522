-- ===== src/Missions/Parts.antt =====
-- The operations of src/missions.rs that record more than one event, or one under conditions, as
-- steps of legal events.
use microtak_server.Prelude.{
  ◌&&◌, ◌||◌, ℕ, String, Bool, true, false, not, List, [], ◌∷◌, Option, none, some, ok, ◌≡◌, refl,
  ◌==◌, string_eq, option_eq, inl, inr, Bool-cases, Option-cases, map, All, any, if◌then◌else◌,
}
use microtak_server.Prelude.Int.{ℤ}
use microtak_server.Map.{Map}
use microtak_server.Missions.Json.{Value}
use microtak_server.EventLog.{JsonLine, Write}
use microtak_server.Missions.{
  permission_eq, role_eq, has_all, content_eq, change_type_eq, Role, ExternalDataRecord,
}
use microtak_server.Missions.Records.{
  invitation_type_eq, SubscriptionRecord, InvitationRecord, LayerRecord,
}
use microtak_server.Missions.Events.{
  Event, created, subscribed, subscription_role_set, unsubscribed, invited, layer_saved,
  layer_parent_set, layer_after_set, layer_deleted, State,
}
use microtak_server.Missions.Store.{
  MissionStore, new_record, and_then, record_event, create, NewMission,
}
use microtak_server.Missions.Attachments.{record_external_change}
use microtak_server.Missions.Subscriptions.{
  find_subscription, raise, subscribe_new, subscribe_as, subscribe, set_subscription_role,
  unsubscribe,
}
use microtak_server.Missions.Invitations.{duplicates, invite}
use microtak_server.Missions.Layers.{
  layer, fixup_after, add_layer, delete_layer, parent_of, set_after, set_parent, move_found,
  move_layer,
}
use microtak_server.Missions.Steps.{
  IsLegalFor, record_event-Steps, and_then-Steps, if_existing-Steps, record_when-Steps,
  and_record-Steps, record_each-Steps, Steps, here,
}
use microtak_server.Missions.Calls.{Writes}

IsLegal-map {ℓ} :
    {A : Type ℓ} (f : A → Event) (Props : Map String Value → Type 0)
    → ((a : A) (t : State) → IsLegalFor Props t (f a))
    → (xs : List A) → All (λ event. (t : State) → IsLegalFor Props t event) (map f xs)
IsLegal-map f Props h [] = tt
IsLegal-map f Props h (x ∷ xs) = (h x, IsLegal-map f Props h xs)

-- Every call is steps of legal events, with the outcomes that the file system gives it.
module _ {L : Type 0} (json : JsonLine L Event) (Allowed : Write → Type 0)
    (Props : Map String Value → Type 0) (ws : Writes) (a : (i n : ℕ) → Allowed (ws i n))
    (s : MissionStore L) where
  pub create-Steps :
      (new : NewMission) (now : ℤ) → Steps json Allowed Props s (create json (ws 0 0) s new now).0
  unfolding create new_record
  create-Steps new now = and_then-Steps json Allowed Props _ _ (
      record_event-Steps json Allowed Props
        (created (new_record s.state new now) s.state.next_change_id) (a 0 0) (refl, refl, refl))

  pub subscribe-Steps :
      (guid client username : String) (role : Role) (now : ℤ) (make_token : String → String)
      (id : String)
      → Steps json Allowed Props s
          (subscribe json s guid (ws 0 0) client username role now make_token id).0
  unfolding subscribe subscribe_as raise subscribe_new
  subscribe-Steps guid client username role now make_token id =
      if_existing-Steps json Allowed Props guid _
        (λ m. go (find_subscription s.state guid client username) refl)
    where
      new : SubscriptionRecord
      new = record {
        id = id;
        token = make_token id;
        client_uid = client;
        username = username;
        create_time_ms = now;
        role = role;
      }

      go :
          (found : Option SubscriptionRecord)
          → find_subscription s.state guid client username ≡ found
          → Steps json Allowed Props s (subscribe_as json s guid (ws 0 0) found new).0
      go none e =
          and_then-Steps json Allowed Props _ _
            (record_event-Steps json Allowed Props (subscribed guid new) (a 0 0) e)
      go (some x) e = elim (Bool-cases (not (x.role == role) && has_all role x.role)) [
        | inl up ↦ rw up (
            and_then-Steps json Allowed Props _ _ (
              record_event-Steps json Allowed Props (subscription_role_set guid x.id role) (a 0 0)
                tt))
        | inr stay ↦ rw stay here
      ]

  pub set_subscription_role-Steps :
      (guid client username : String) (role : Role)
      → Steps json Allowed Props s (set_subscription_role json s guid (ws 0) client username role).0
  unfolding set_subscription_role
  set_subscription_role-Steps guid client username role =
      if_existing-Steps json Allowed Props guid _ λ m. and_then-Steps json Allowed Props _ _ (
        record_each-Steps json Allowed Props (ws 0) s _ (a 0)
          (IsLegal-map (λ id. subscription_role_set guid id role) Props (λ id t. tt) _))

  pub unsubscribe-Steps :
      (guid client : String) (username : Option String)
      → Steps json Allowed Props s (unsubscribe json s guid (ws 0) client username).0
  unfolding unsubscribe
  unsubscribe-Steps guid client username = and_then-Steps json Allowed Props _ _ (
      record_each-Steps json Allowed Props (ws 0) s _ (a 0)
        (IsLegal-map (λ id. unsubscribed guid id) Props (λ id t. tt) _))

  pub invite-Steps :
      (i : InvitationRecord) → Steps json Allowed Props s (invite json (ws 0 0) s i).0
  unfolding invite
  invite-Steps i =
      if_existing-Steps json Allowed Props i.mission_guid _
        λ m. go (any (duplicates i) s.state.invitations)
    where
      go :
          (known : Bool)
          → Steps json Allowed Props s
              (if known
                then (s, ok false)
                else and_then (record_event json (ws 0 0) s (invited i)) (λ s'. true)).0
      go true = here
      go false =
          and_then-Steps json Allowed Props _ _
            (record_event-Steps json Allowed Props (invited i) (a 0 0) tt)

  pub record_external_change-Steps :
      (guid : String) (found : Option ExternalDataRecord) (action : Option String × Bool)
      (notes creator : String) (now : ℤ)
      → Steps json Allowed Props s
          (record_external_change json (ws 0 0) s guid found action notes creator now).0
  unfolding record_external_change
  record_external_change-Steps guid none action notes creator now = here
  record_external_change-Steps guid (some r) (token, removes) notes creator now =
      and_then-Steps json Allowed Props _ _ (record_event-Steps json Allowed Props _ (a 0 0) refl)

module _ {L : Type 0} (json : JsonLine L Event) (Allowed : Write → Type 0)
    (Props : Map String Value → Type 0) where
  fixup_after-Steps :
      (ws : ℕ → Write) (s : MissionStore L) (guid : String) (uid parent after : Option String)
      → ((n : ℕ) → Allowed (ws n))
      → Steps json Allowed Props s (fixup_after json ws s guid uid parent after).0
  unfolding fixup_after
  fixup_after-Steps ws s guid uid parent after a =
      record_each-Steps json Allowed Props ws s _ a
        (IsLegal-map (λ l. layer_after_set guid l.uid uid) Props (λ l t. tt) _)

  module _ {w : Write} (s : MissionStore L) (guid uid : String) (parent after : Option String) where
    set_parent-Steps :
        (old : Option String)
        → Allowed w
        → Steps json Allowed Props s (set_parent json guid uid parent after old w s).0
    unfolding set_parent
    set_parent-Steps old a =
        record_when-Steps json Allowed Props (not (old == parent) || old == none)
          (layer_parent_set guid uid parent) a tt

    set_after-Steps :
        Allowed w → Steps json Allowed Props s (set_after json guid uid parent after w s).0
    unfolding set_after
    set_after-Steps a =
        record_when-Steps json Allowed Props (parent_of (layer s.state guid uid) == parent)
          (layer_after_set guid uid after) a tt

module _ {L : Type 0} (json : JsonLine L Event) (Allowed : Write → Type 0)
    (Props : Map String Value → Type 0) (ws : Writes) (a : (i n : ℕ) → Allowed (ws i n))
    (s : MissionStore L) where
  pub add_layer-Steps :
      (guid : String) (l : LayerRecord)
      → Steps json Allowed Props s (add_layer json (ws 0) s guid l).0
  unfolding add_layer
  add_layer-Steps guid l = if_existing-Steps json Allowed Props guid _ λ m.
      and_record-Steps json Allowed Props _ _
        (fixup_after-Steps json Allowed Props (ws 0) s guid (some l.uid) l.parent l.after (a 0))
        (λ t. record_event-Steps json Allowed Props (layer_saved guid l) (a 0 _) tt)

  pub delete_layer-Steps :
      (guid uid : String) → Steps json Allowed Props s (delete_layer json (ws 0) s guid uid).0
  unfolding delete_layer
  delete_layer-Steps guid uid = elim (Option-cases (layer s.state guid uid)) [
    | inl e ↦ rw (e, delete_layer) here
    | inr (l, e) ↦
        rw (e, delete_layer)
          (and_record-Steps json Allowed Props _ _
            (fixup_after-Steps json Allowed Props (ws 0) s guid l.after l.parent (some uid) (a 0))
            (λ t. record_event-Steps json Allowed Props (layer_deleted guid uid) (a 0 _) tt))
  ]

  move_found-Steps :
      (guid uid : String) (parent after : Option String) (l : LayerRecord)
      → Steps json Allowed Props s (move_found json guid uid parent after ws s l).0
  unfolding move_found
  move_found-Steps guid uid parent after l =
      and_record-Steps json Allowed Props _ _
        (and_record-Steps json Allowed Props _ _
          (and_record-Steps json Allowed Props _ _
            (fixup_after-Steps json Allowed Props (ws 0) s guid l.after l.parent (some uid) (a 0))
            (λ t. fixup_after-Steps json Allowed Props (ws 1) t guid (some uid) parent after (a 1)))
          (λ t. set_parent-Steps json Allowed Props t guid uid parent after l.parent (a 2 0)))
        (λ t. set_after-Steps json Allowed Props t guid uid parent after (a 3 0))

  pub move_layer-Steps :
      (guid uid : String) (parent after : Option String)
      → Steps json Allowed Props s (move_layer json guid uid parent after ws s).0
  unfolding move_layer
  move_layer-Steps guid uid parent after = elim (Option-cases (layer s.state guid uid)) [
    | inl e ↦ rw (e, move_layer) here
    | inr (l, e) ↦ rw (e, move_layer) (move_found-Steps guid uid parent after l)
  ]
