-- ===== src/Missions/Unsubscribing.antt =====
-- What `unsubscribe` of src/missions.rs answers and leaves in the store.
use microtak_server.Prelude.{
  ℕ, suc, String, Bool, true, false, not, ◌&&◌, List, [], ◌∷◌, Option, none, some, Result, ok, err,
  ◌≡◌, inl, inr, refl, sym, ◌∙◌, ap, arith, ◌==◌, string_eq, eq_refl, any, filter, map, mem, length,
  unwrap_or, Bool-cases,
}
use microtak_server.Map.{get, map_option}
use microtak_server.Map.Laws.{get-modify}
use microtak_server.EventLog.{JsonLine, Write}
use microtak_server.Missions.{permission_eq, role_eq, content_eq, change_type_eq, MissionError}
use microtak_server.Missions.Records.{SubscriptionRecord}
use microtak_server.Missions.Events.{Event, unsubscribed, State}
use microtak_server.Missions.Reducer.{apply}
use microtak_server.Missions.Store.{MissionStore, record_event}
use microtak_server.Missions.Subscriptions.{subscriptions, ids, leaves, record_each, unsubscribe}
use microtak_server.Missions.Answers.{recorded_ok, and_then-ok}

filter_all {ℓ} : {A : Type ℓ} (xs : List A) → filter (λ x. true) xs ≡ xs
filter_all [] = refl
filter_all (x ∷ xs) = ap (λ l. x ∷ l) (filter_all xs)

filter-filter_id :
    (id : String) (ids : List String) (xs : List SubscriptionRecord)
    → filter (λ x. not (mem x.id ids)) (filter (λ x. not (x.id == id)) xs)
      ≡ filter (λ x. not (mem x.id (id ∷ ids))) xs
filter-filter_id id ids [] = refl
filter-filter_id id ids (x ∷ xs) =
    ground (arith, string_eq.beq_iff x.id id, string_eq.beq_iff id x.id, filter-filter_id id ids xs)

-- Nothing of what was selected is left without the ids of what was selected.
any-without_ids :
    (p : SubscriptionRecord → Bool) (xs : List SubscriptionRecord) (ids : List String)
    → ((x : SubscriptionRecord) → mem x.id ids ≡ false → any (λ y. p y && y.id == x.id) xs ≡ false)
    → any p (filter (λ x. not (mem x.id ids)) xs) ≡ false
any-without_ids p [] ids h = refl
any-without_ids p (x ∷ xs) ids h =
    let rest = any-without_ids p xs ids (λ y absent. ground (arith, h y absent)) in
    elim (Bool-cases (mem x.id ids)) [
      | inl e ↦ rw e rest
      | inr e ↦ rw (e, rest) (ground (arith, h x e, eq_refl x.id))
    ]

selected_by_id :
    (p : SubscriptionRecord → Bool) (id : String) (xs : List SubscriptionRecord)
    → mem id (ids (filter p xs)) ≡ false
    → any (λ y. p y && y.id == id) xs ≡ false
selected_by_id p id [] h = refl
selected_by_id p id (x ∷ xs) h = ground (arith, selected_by_id p id xs)

module _ {L : Type 0} (json : JsonLine L Event) where
  unsubscribed-subscriptions :
      (s : State) (guid id : String)
      → subscriptions (apply s (unsubscribed guid id)) guid
        ≡ filter (λ x. not (x.id == id)) (subscriptions s guid)
  unfolding apply subscriptions
  unsubscribed-subscriptions s guid id =
      rw (get-modify guid guid (filter (λ x. not (x.id == id))) s.subscriptions, eq_refl guid)
        (go (get guid s.subscriptions))
    where
      go :
          (old : Option (List SubscriptionRecord))
          → unwrap_or (map_option (filter (λ x. not (x.id == id))) old) []
            ≡ filter (λ x. not (x.id == id)) (unwrap_or old [])
      go none = refl
      go (some xs) = refl

  -- The loop of `unsubscribe`, where every append succeeds.
  removes_ids :
      (ws : ℕ → Write) (s : MissionStore L) (guid : String) (targets : List String)
      → (record_each json ws s (map (λ id. unsubscribed guid id) targets)).1 ≡ ok tt
      → subscriptions
          (record_each json ws s (map (λ id. unsubscribed guid id) targets)).0.state
          guid
        ≡ filter (λ x. not (mem x.id targets)) (subscriptions s.state guid)
  unfolding record_each
  removes_ids ws s guid [] h = sym (filter_all (subscriptions s.state guid))
  removes_ids ws s guid (id ∷ targets) h =
      go (record_event json (ws 0) s (unsubscribed guid id))
        (recorded_ok json (ws 0) s (unsubscribed guid id))
        (λ t. removes_ids (λ n. ws (suc n)) t guid targets) h
    where
      later : MissionStore L → MissionStore L × Result MissionError (Unit {0})
      later t = record_each json (λ n. ws (suc n)) t (map (λ i. unsubscribed guid i) targets)

      all :
          MissionStore L × Result MissionError (Unit {0})
          → MissionStore L × Result MissionError (Unit {0})
      all r = elim r.1 as (λ _. MissionStore L × Result MissionError (Unit {0})) [
        | ok u ↦ later r.0
        | err e ↦ (r.0, err e)
      ]

      go :
          (r : MissionStore L × Result MissionError (Unit {0}))
          → (r.1 ≡ ok tt → r.0.state ≡ apply s.state (unsubscribed guid id))
          → ((t : MissionStore L)
              → (later t).1 ≡ ok tt
              → subscriptions (later t).0.state guid
                ≡ filter (λ x. not (mem x.id targets)) (subscriptions t.state guid))
          → (all r).1 ≡ ok tt
          → subscriptions (all r).0.state guid
            ≡ filter (λ x. not (mem x.id (id ∷ targets))) (subscriptions s.state guid)
      go (t, ok u) applied ih e =
          ih t e
          ∙ ap (λ u'. filter (λ x. not (mem x.id targets)) (subscriptions u' guid)) (applied refl)
          ∙ ap (filter (λ x. not (mem x.id targets))) (unsubscribed-subscriptions s.state guid id)
          ∙ filter-filter_id id targets (subscriptions s.state guid)
      go (t, err x) applied ih e = cc

  -- Where `unsubscribe` answers `ok n`, `n` is the number of the subscriptions that it was to remove:
  -- those of the client, or of the user with the client. None of them is left, and what is left is
  -- every other subscription whose id is not that of a removed one, in the same order.
  pub unsubscribe_exact :
      (ws : ℕ → Write) (s : MissionStore L) (guid client : String) (username : Option String)
      (n : ℕ)
      → (unsubscribe json s guid ws client username).1 ≡ ok n
      → (n ≡ length (ids (filter (leaves client username) (subscriptions s.state guid))))
        × (any
              (leaves client username)
              (subscriptions (unsubscribe json s guid ws client username).0.state guid)
            ≡ false)
        × (subscriptions (unsubscribe json s guid ws client username).0.state guid
            ≡ filter
                (λ x.
                  not
                    (mem x.id (ids (filter (leaves client username) (subscriptions s.state guid)))))
                (subscriptions s.state guid))
  unfolding unsubscribe
  unsubscribe_exact ws s guid client username n h =
      let p = leaves client username in
      let subs = subscriptions s.state guid in
      let targets = ids (filter p subs) in
      let r = record_each json ws s (map (λ id. unsubscribed guid id) targets) in
      let (done, count, store) = and_then-ok json r (λ t. length targets) n h in
      let left = ap (λ t. subscriptions t.state guid) store ∙ removes_ids ws s guid targets done in
      (
        count,
        ap (any p) left
            ∙ any-without_ids p subs targets (λ x absent. selected_by_id p x.id subs absent),
        left,
      )
