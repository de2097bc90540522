-- ===== src/Transport/Identity.antt =====
-- Which events a device may send, src/transport/identity.rs. The reason of a verdict is the parts of
-- its text.
mod Tests
use microtak_server.Prelude.{
  String, Bool, true, false, not, ◌&&◌, ◌||◌, List, [], ◌∷◌, Option, none, some, ◌==◌, string_eq,
  option_eq, if◌then◌else◌, ◌≡◌, ◌≢◌, ◌⊎◌, ◌↔◌, inl, inr, refl, sym, ◌∙◌, ap, arith, any, find,
  Bool-cases, Option-cases,
}
use microtak_server.Map.{get}
use microtak_server.Registry.{RegistryState, CertRecord, is_blocked, other_owner_of_enrolled_uid}
use microtak_server.Cot.{Event, is_situational_awareness, producer_uids}

pub data Reason : Type 0 where
  no_client_uid : Reason
  other_client_uid : (uid client_uid : String) → Reason
  belongs_to : (uid owner : String) → Reason
  produced_by_other : (producer owner : String) → Reason

pub data Verdict : Type 0 where
  relay : Verdict
  drop disconnect : Reason → Verdict

-- For an event that is a situational-awareness report.
unfoldable pub verdict_on : Option (Option String) → (uid : String) → Verdict
verdict_on none uid = relay
verdict_on (some none) uid = drop no_client_uid
verdict_on (some (some client_uid)) uid =
    if client_uid == uid then relay else disconnect (other_client_uid uid client_uid)

-- `enrolled` is `None` for a certificate that is not on record.
unfoldable pub validate_client_uid : Option (Option String) → Event → Verdict
unfolding verdict_on
validate_client_uid enrolled e =
    if not (is_situational_awareness e) then relay else verdict_on enrolled e.uid

unfoldable pub claims : RegistryState → Option String → (producers : List String) → Verdict
claims state mine [] = relay
claims state mine (producer ∷ rest) = elim (other_owner_of_enrolled_uid state producer mine) [
  | some owner ↦ drop (produced_by_other producer owner)
  | none ↦ claims state mine rest
]

unfoldable pub impersonation : RegistryState → Option String → Event → Verdict
unfolding claims
impersonation state mine e = elim (other_owner_of_enrolled_uid state e.uid mine) [
  | some owner ↦ drop (belongs_to e.uid owner)
  | none ↦ claims state mine (producer_uids e)
]

-- A certificate of a device that is not blocked is enrolled for the uid, and the uid is not that of
-- the sender.
abbrev pub is_anothers : RegistryState → Option String → String → Bool
is_anothers state mine uid =
    not (mine == some uid)
    && any (λ c. c.client_uid == some uid && not (is_blocked (get c.common_name state.devices)))
        state.certificates

find-any {ℓ} :
    {A : Type ℓ} (p : A → Bool) (xs : List A)
    → (find p xs ≡ none) × (any p xs ≡ false) ⊎ (a : A) × (find p xs ≡ some a) × (any p xs ≡ true)
find-any p [] = inl (refl, refl)
find-any p (x ∷ xs) = elim (Bool-cases (p x)) [
  | inl e ↦ rw e (inr (x, refl, refl))
  | inr e ↦ rw e (find-any p xs)
]

owner_found :
    (state : RegistryState) (mine : Option String) (uid : String)
    → (other_owner_of_enrolled_uid state uid mine ≡ none) × (is_anothers state mine uid ≡ false)
      ⊎ (owner : String) × (other_owner_of_enrolled_uid state uid mine ≡ some owner)
        × (is_anothers state mine uid ≡ true)
unfolding other_owner_of_enrolled_uid
owner_found state mine uid = elim (Bool-cases (mine == some uid)) [
  | inl e ↦ rw e (inl (refl, refl))
  | inr e ↦
      rw e
        (elim (find-any
          (λ c. c.client_uid == some uid && not (is_blocked (get c.common_name state.devices)))
          state.certificates) [
            | inl (f, a) ↦ inl (rw f refl, a)
            | inr (c, f, a) ↦ inr (c.common_name, rw f refl, a)
          ])
]

claims_exact :
    (state : RegistryState) (mine : Option String) (producers : List String)
    → (claims state mine producers ≡ relay) × (any (is_anothers state mine) producers ≡ false)
      ⊎ (claims state mine producers ≢ relay) × (any (is_anothers state mine) producers ≡ true)
unfolding claims
claims_exact state mine [] = inl (refl, refl)
claims_exact state mine (producer ∷ rest) = elim (owner_found state mine producer) [
  | inl (owner, free) ↦ rw (owner, free, claims) (claims_exact state mine rest)
  | inr (name, owner, taken) ↦ rw (owner, taken, claims) (inr (λ h. cc, refl))
]

-- An event is relayed exactly where neither its own uid nor that of a producer it names is another
-- device's: enrolled for with a certificate of a device that is not blocked.
pub impersonation_exact :
    (state : RegistryState) (mine : Option String) (e : Event)
    → (impersonation state mine e ≡ relay)
      ↔ (any (is_anothers state mine) (e.uid ∷ producer_uids e) ≡ false)
unfolding impersonation
impersonation_exact state mine e = elim (owner_found state mine e.uid) [
  | inl (owner, free) ↦
      rw (owner, free, impersonation)
        (elim (claims_exact state mine (producer_uids e)) [
          | inl (relayed, none_taken) ↦ (λ h. none_taken, λ h. relayed)
          | inr (dropped, taken) ↦ (λ h. absurd (dropped h), λ h. cc)
        ])
  | inr (name, owner, taken) ↦ rw (owner, taken, impersonation) (λ h. cc, λ h. cc)
]

-- Only a situational-awareness report is checked against the certificate. It passes where the
-- certificate is not on record or was enrolled for the uid of the event; where it was enrolled for
-- another uid the connection ends, and where it was enrolled for none the event is dropped.
pub validate_client_uid_exact :
    (enrolled : Option (Option String)) (e : Event)
    → ((validate_client_uid enrolled e ≡ relay) ↔ (
        (is_situational_awareness e ≡ false) ⊎ (enrolled ≡ none) ⊎ (enrolled ≡ some (some e.uid))))
      × ((client_uid : String)
          → (validate_client_uid enrolled e ≡ disconnect (other_client_uid e.uid client_uid)) ↔ (
              (is_situational_awareness e ≡ true)
              × (enrolled ≡ some (some client_uid))
              × (client_uid ≢ e.uid)))
      × ((validate_client_uid enrolled e ≡ drop no_client_uid)
          ↔ ((is_situational_awareness e ≡ true) × (enrolled ≡ some none)))
unfolding validate_client_uid
validate_client_uid_exact enrolled e = elim (Bool-cases (is_situational_awareness e)) [
  | inr s ↦ rw s ((λ h. inl refl, λ h. refl), λ c. (λ h. cc, λ h. cc h.0), (λ h. cc, λ h. cc h.0))
  | inl s ↦ rw s (checked enrolled)
]
  where
    checked :
        (enrolled : Option (Option String))
        → ((verdict_on enrolled e.uid ≡ relay)
            ↔ ((true ≡ false) ⊎ (enrolled ≡ none) ⊎ (enrolled ≡ some (some e.uid))))
          × ((c : String)
              → (verdict_on enrolled e.uid ≡ disconnect (other_client_uid e.uid c))
                ↔ ((true ≡ true) × (enrolled ≡ some (some c)) × (c ≢ e.uid)))
          × ((verdict_on enrolled e.uid ≡ drop no_client_uid)
              ↔ ((true ≡ true) × (enrolled ≡ some none)))
    checked none =
        ((λ h. inr (inl refl), λ h. refl), λ c. (λ h. cc, λ h. cc h.1), (λ h. cc, λ h. cc h.1))
    checked (some none) =
        ((λ h. cc, λ h. ground arith), λ c. (λ h. cc, λ h. cc h.1), (λ h. (refl, refl), λ h. refl))
    checked (some (some uid)) = elim (Bool-cases (uid == e.uid)) [
      | inl q ↦
          let same : uid ≡ e.uid = (string_eq.beq_iff uid e.uid).0 q in
          rw q (
            (λ h. inr (inr (ap (λ (u : String). some (some u)) same)), λ h. refl),
            λ c. (λ h. cc, λ h. absurd (h.2 (cc h.1))),
            (λ h. cc, λ h. cc h.1),
          )
      | inr q ↦ rw q (
        (λ h. cc, λ h. ground (arith, string_eq.beq_iff uid e.uid)),
        λ c. (λ h. ground (arith, string_eq.beq_iff uid e.uid), λ h. ground arith),
        (λ h. cc, λ h. cc h.1),
      )
    ]
