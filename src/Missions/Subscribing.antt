-- ===== src/Missions/Subscribing.antt =====
-- What `subscribe` of src/missions.rs does for a client that is subscribed already.
use microtak_server.Prelude.{
  String, Bool, true, false, not, ◌&&◌, List, [], ◌∷◌, Option, none, some, ok, ◌≡◌, inl, inr, refl,
  sym, ◌∙◌, ap, ◌==◌, string_eq, eq_refl, if◌then◌else◌, find, unwrap_or, Bool-cases,
}
use microtak_server.Prelude.Int.{ℤ}
use microtak_server.Map.{get, map_option}
use microtak_server.Map.Laws.{get-modify}
use microtak_server.EventLog.{JsonLine, Write}
use microtak_server.Missions.{
  Permission-discrete, Role-discrete, permission_eq, role_eq, has_all, content_eq, change_type_eq,
  Role, owner, subscriber, read_only_subscriber,
}
use microtak_server.Missions.Records.{SubscriptionRecord}
use microtak_server.Missions.Events.{Event, subscription_role_set, State}
use microtak_server.Missions.Reducer.{modify_first, apply}
use microtak_server.Missions.Store.{MissionStore, existing, and_then, record_event}
use microtak_server.Missions.Subscriptions.{
  subscriptions, subscription_by_id, same_subscriber, find_subscription, raise, subscribe_as,
  subscribe,
}
use microtak_server.Missions.Answers.{recorded_ok, and_then-ok, if_existing-ok}

module _ {L : Type 0} (json : JsonLine L Event) where
  has_all_refl : (r : Role) → has_all r r ≡ true
  unfolding has_all Role-discrete Permission-discrete
  has_all_refl owner = refl
  has_all_refl subscriber = refl
  has_all_refl read_only_subscriber = refl

  find_passes :
      (p : SubscriptionRecord → Bool) (x : SubscriptionRecord) (xs : List SubscriptionRecord)
      → find p xs ≡ some x
      → p x ≡ true
  find_passes p x [] h = cc
  find_passes p x (y ∷ ys) h = elim (Bool-cases (p y)) [
    | inl e ↦ let head : y ≡ x = cc (rw e at h) in sym (ap p head) ∙ e
    | inr e ↦ find_passes p x ys (rw e at h)
  ]

  -- The write by id is at the subscription that was found.
  find-modify_first :
      (p : SubscriptionRecord → Bool) (role : Role) (x : SubscriptionRecord)
      (xs : List SubscriptionRecord)
      → ((y : SubscriptionRecord) → p (record y { role = role }) ≡ p y)
      → find p xs ≡ some x
      → find (λ y. y.id == x.id) xs ≡ some x
      → find p (modify_first (λ y. y.id == x.id) (λ y. record y { role = role }) xs)
        ≡ some (record x { role = role })
  unfolding modify_first
  find-modify_first p role x [] keep found by_id = cc
  find-modify_first p role x (y ∷ ys) keep found by_id = elim (Bool-cases (y.id == x.id)) [
    | inl e ↦
        let head : y ≡ x = cc (rw e at by_id) in
        let passes : p y ≡ true = ap p head ∙ find_passes p x (y ∷ ys) found in
        rw e (
          rw (keep y, passes)
            (ap (λ (z : SubscriptionRecord). some (record z { role = role })) head))
    | inr e ↦ rw e (elim (Bool-cases (p y)) [
      | inl q ↦
          let head : y ≡ x = cc (rw q at found) in
          cc (sym e ∙ ap (λ (z : SubscriptionRecord). z.id == x.id) head ∙ eq_refl x.id)
      | inr q ↦ rw q (find-modify_first p role x ys keep (rw q at found) (rw e at by_id))
    ])
  ]

  role_set-find :
      (s : State) (guid client username : String) (role : Role) (x : SubscriptionRecord)
      → find_subscription s guid client username ≡ some x
      → subscription_by_id s guid x.id ≡ some x
      → find_subscription (apply s (subscription_role_set guid x.id role)) guid client username
        ≡ some (record x { role = role })
  unfolding find_subscription subscription_by_id subscriptions apply
  role_set-find s guid client username role x found by_id =
      rw
        (
          get-modify guid guid (modify_first (λ y. y.id == x.id) (λ y. record y { role = role }))
              s.subscriptions,
          eq_refl guid,
        )
        (go (get guid s.subscriptions) refl)
    where
      go :
          (old : Option (List SubscriptionRecord))
          → get guid s.subscriptions ≡ old
          → find (same_subscriber client username) (
              unwrap_or
                (map_option (modify_first (λ y. y.id == x.id) (λ y. record y { role = role })) old)
                [])
            ≡ some (record x { role = role })
      go none q = cc (rw q at found)
      go (some xs) q =
          find-modify_first (same_subscriber client username) role x xs (λ y. refl) (rw q at found)
            (rw q at by_id)

  abbrev raises : Role → SubscriptionRecord → Bool
  raises role x = not (x.role == role) && has_all role x.role

  raise_stays :
      (w : Write) (s : MissionStore L) (guid : String) (role : Role) (x : SubscriptionRecord)
      → raises role x ≡ false
      → raise json s guid w x role ≡ (s, ok x)
  unfolding raise
  raise_stays w s guid role x e = rw e refl

  raise_up :
      (w : Write) (s : MissionStore L) (guid : String) (role : Role) (x : SubscriptionRecord)
      → raises role x ≡ true
      → raise json s guid w x role
        ≡ and_then
            (record_event json w s (subscription_role_set guid x.id role))
            (λ s'. record x { role = role })
  unfolding raise
  raise_up w s guid role x e = rw e refl

  raises_covers :
      (role : Role) (x : SubscriptionRecord) → raises role x ≡ true → has_all role x.role ≡ true
  raises_covers role x h = elim (Bool-cases (x.role == role)) [
    | inl e ↦ cc (rw e at h)
    | inr e ↦ rw e at h
  ]

  kept_role :
      (role : Role) (x : SubscriptionRecord)
      → raises role x ≡ false
      → x ≡ record x { role = if has_all role x.role then role else x.role }
  kept_role role x h = elim (Bool-cases (x.role == role)) [
    | inl e ↦ rw (← (role_eq.beq_iff x.role role).0 e, has_all_refl x.role) refl
    | inr e ↦ rw (rw e at h) refl
  ]

  raise_ok :
      (w : Write) (s : MissionStore L) (guid client username : String) (role : Role)
      (x y : SubscriptionRecord)
      → find_subscription s.state guid client username ≡ some x
      → subscription_by_id s.state guid x.id ≡ some x
      → (raise json s guid w x role).1 ≡ ok y
      → (y ≡ record x { role = if has_all role x.role then role else x.role })
        × (has_all y.role x.role ≡ true)
        × (find_subscription (raise json s guid w x role).0.state guid client username ≡ some y)
  raise_ok w s guid client username role x y found by_id h = elim (Bool-cases (raises role x)) [
    | inr stays ↦
        let stayed = raise_stays w s guid role x stays in
        let same : x ≡ y = cc (rw stayed at h) in
        rw (stayed, ← same) (kept_role role x stays, has_all_refl x.role, found)
    | inl up ↦
        let raised = raise_up w s guid role x up in
        let event = subscription_role_set guid x.id role in
        let (done, answer, store) =
          and_then-ok json (record_event json w s event) (λ s'. record x { role = role }) y
            (rw raised at h) in
        let covers : has_all role x.role ≡ true = raises_covers role x up in
        rw (raised, answer, covers)
          (
            refl,
            refl,
            ap (λ (t : MissionStore L). find_subscription t.state guid client username) store
                ∙ ap (λ t. find_subscription t guid client username)
                    (recorded_ok json w s event done)
                ∙ role_set-find s.state guid client username role x found by_id,
          )
  ]

  -- Where a client that is subscribed already subscribes again, the answer is its subscription with
  -- the same id and token. Its role is the requested one where that has all permissions of the old,
  -- and else the old one; either way it has all permissions of the old. The store has what was
  -- answered. The subscription is to be the first with its id.
  pub subscribe_raises :
      (w : Write) (s : MissionStore L) (guid client username : String) (role : Role) (now : ℤ)
      (make_token : String → String) (id : String) (x y : SubscriptionRecord)
      → find_subscription s.state guid client username ≡ some x
      → subscription_by_id s.state guid x.id ≡ some x
      → (subscribe json s guid w client username role now make_token id).1 ≡ ok y
      → (y ≡ record x { role = if has_all role x.role then role else x.role })
        × (has_all y.role x.role ≡ true)
        × (find_subscription
              (subscribe json s guid w client username role now make_token id).0.state
              guid
              client
              username
            ≡ some y)
  unfolding subscribe subscribe_as
  subscribe_raises w s guid client username role now make_token id x y found by_id h =
      let new : SubscriptionRecord = record {
        id = id;
        token = make_token id;
        client_uid = client;
        username = username;
        create_time_ms = now;
        role = role;
      } in
      let done : subscribe json s guid w client username role now make_token id
          ≡ raise json s guid w x role =
        if_existing-ok json (existing s.state guid) s
          (subscribe_as json s guid w (find_subscription s.state guid client username) new) y h
        ∙ ap (λ found'. subscribe_as json s guid w found' new) found in
      rw done (raise_ok w s guid client username role x y found by_id (rw done at h))
