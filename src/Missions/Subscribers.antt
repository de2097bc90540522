-- ===== src/Missions/Subscribers.antt =====
-- Who is subscribed to a mission of src/missions.rs: nobody twice, and a role is only raised by
-- subscribing again.
use microtak_server.Prelude.{
  String, Bool, true, false, not, List, [], ◌∷◌, ◌++◌, Option, none, some, ◌≡◌, inl, inr, refl, ◌∙◌,
  arith, ◌==◌, string_eq, any, find, unwrap_or, Bool-cases,
}
use microtak_server.Prelude.Apart.{Apart, Apart-append, Apart-filter}
use microtak_server.Map.{get, modify, map_option}
use microtak_server.Map.Laws.{get-insert, get-modify}
use microtak_server.EventLog.{JsonLine}
use microtak_server.EventLog.Calls.{run_all}
use microtak_server.Missions.{permission_eq, role_eq, content_eq, change_type_eq, Role}
use microtak_server.Missions.Records.{SubscriptionRecord}
use microtak_server.Missions.Events.{
  Event, content_keywords_set, deleted, subscribed, subscription_role_set, unsubscribed,
  map_layer_saved, external_data_changed, content_added, content_removed, State,
}
use microtak_server.Missions.Reducer.{modify_first, push_to, edit_layer, apply}
use microtak_server.Missions.Subscriptions.{subscriptions, same_subscriber, find_subscription}
use microtak_server.Missions.Steps.{IsLegal}
use microtak_server.Missions.Calls.{Call, Writes, run}
use microtak_server.Missions.Legal.{calls-keep}
use microtak_server.Missions.Durable.{new_store}

-- No two subscriptions are of one user with one client.
abbrev pub clashes : SubscriptionRecord → SubscriptionRecord → Bool
clashes x y = same_subscriber x.client_uid x.username y

abbrev pub Unique : List SubscriptionRecord → Type 0
Unique = Apart clashes

-- `find_subscription` found nobody, and nobody clashes with a new subscription.
not_found_apart :
    (a : SubscriptionRecord) (xs : List SubscriptionRecord)
    → find (same_subscriber a.client_uid a.username) xs ≡ none
    → any (λ x. clashes x a) xs ≡ false
not_found_apart a [] h = refl
not_found_apart a (x ∷ xs) h = ground (
  arith,
  not_found_apart a xs,
  string_eq.beq_iff x.client_uid a.client_uid,
  string_eq.beq_iff a.client_uid x.client_uid,
  string_eq.beq_iff x.username a.username,
  string_eq.beq_iff a.username x.username,
)

module _ (p : SubscriptionRecord → Bool) (role : Role) where
  any-modify_first :
      (client username : String) (xs : List SubscriptionRecord)
      → any (same_subscriber client username) (modify_first p (λ x. record x { role = role }) xs)
        ≡ any (same_subscriber client username) xs
  unfolding modify_first
  any-modify_first client username [] = refl
  any-modify_first client username (x ∷ xs) = elim (Bool-cases (p x)) [
    | inl e ↦ rw e refl
    | inr e ↦ rw (e, any-modify_first client username xs) refl
  ]

  Unique-modify_first :
      (xs : List SubscriptionRecord)
      → Unique xs
      → Unique (modify_first p (λ x. record x { role = role }) xs)
  unfolding modify_first
  Unique-modify_first [] u = tt
  Unique-modify_first (x ∷ xs) (first, u) = elim (Bool-cases (p x)) [
    | inl e ↦ rw e (first, u)
    | inr e ↦ rw e (any-modify_first x.client_uid x.username xs ∙ first, Unique-modify_first xs u)
  ]

abbrev AllUnique : State → Type 0
AllUnique s = (guid : String) → Unique (subscriptions s guid)

-- A write to the list of one mission.
modified-Unique :
    (f : List SubscriptionRecord → List SubscriptionRecord) (guid : String)
    (subs : List (String × List SubscriptionRecord))
    → ((xs : List SubscriptionRecord) → Unique xs → Unique (f xs))
    → ((g : String) → Unique (unwrap_or (get g subs) []))
    → (g : String) → Unique (unwrap_or (get g (modify guid f subs)) [])
modified-Unique f guid subs keep h g =
    rw (get-modify guid g f subs)
      (elim (Bool-cases (guid == g)) [ inl e ↦ rw e (go (get g subs) refl) | inr e ↦ rw e (h g) ])
  where
    go :
        (old : Option (List SubscriptionRecord))
        → get g subs ≡ old
        → Unique (unwrap_or (map_option f old) [])
    go none q = tt
    go (some xs) q = keep xs (rw q at (h g))

AllUnique-apply :
    (s : State) (event : Event) → IsLegal s event → AllUnique s → AllUnique (apply s event)
unfolding apply subscriptions find_subscription edit_layer push_to
AllUnique-apply s (subscribed guid x) new h g =
    rw (get-insert guid g (unwrap_or (get guid s.subscriptions) [] ++ x ∷ []) s.subscriptions)
      (elim (Bool-cases (guid == g)) [
        | inl e ↦ rw e (
            Apart-append clashes (unwrap_or (get guid s.subscriptions) []) x
              (not_found_apart x (unwrap_or (get guid s.subscriptions) []) new) (h guid))
        | inr e ↦ rw e (h g)
      ])
AllUnique-apply s (subscription_role_set guid id role) legal h g =
    modified-Unique _ guid s.subscriptions (Unique-modify_first (λ x. x.id == id) role) h g
AllUnique-apply s (unsubscribed guid id) legal h g =
    modified-Unique _ guid s.subscriptions (Apart-filter clashes (λ x. not (x.id == id))) h g
AllUnique-apply s (map_layer_saved guid layer creator none) legal h g = h g
AllUnique-apply s (map_layer_saved guid layer creator (some n)) legal h g = h g
AllUnique-apply s (external_data_changed guid change true creator at n) legal h g = h g
AllUnique-apply s (external_data_changed guid change false creator at n) legal h g = h g
AllUnique-apply s (content_keywords_set guid content []) legal h g = h g
AllUnique-apply s (content_keywords_set guid content (k ∷ keywords)) legal h g = h g
AllUnique-apply s (deleted guid creator at n) (e, (m, found)) h g = rw (found, apply) (h g)
AllUnique-apply s (content_added guid content creator at n server) (e, (m, found)) h g =
    rw (found, apply) (h g)
AllUnique-apply s (content_removed guid content creator at n server) (e, (m, found)) h g =
    rw (found, apply) (h g)
AllUnique-apply s event legal h g = h g

module _ {L : Type 0} (json : JsonLine L Event) where
  -- After any calls of a new store, whatever its log answered to them, no user has two subscriptions
  -- to one mission with the same client.
  pub subscribers-Unique :
      (calls : List (Call × Writes)) (guid : String)
      → Unique (subscriptions (run_all (run json) calls (new_store json)).state guid)
  unfolding subscriptions get
  subscribers-Unique calls =
      calls-keep json AllUnique AllUnique-apply calls (new_store json) (λ guid. tt)
