-- ===== src/Transport/Connections/Endpoints.antt =====
-- What the list of endpoints of src/transport/connections.rs says of an identity.
use microtak_server.Prelude.{
  String, Bool, true, false, not, ◌&&◌, ◌||◌, List, [], ◌∷◌, ◌++◌, Option, none, some, ◌≡◌, refl,
  arith, ◌==◌, string_eq, option_eq, mem, any, map,
}
use microtak_server.Prelude.Int.{ℤ}
use microtak_server.Map.{values}
use microtak_server.Transport.Seen.{SeenRecord, all_seen}
use microtak_server.Transport.Connections.{
  ClientEndpoint, LastStatus, connected, disconnected, EndpointView, ConnectedClients, live_view,
  connected_cns, offline_views, endpoint_views, list,
}

abbrev is_disconnected : LastStatus → Bool
is_disconnected connected = false
is_disconnected disconnected = true

-- Whether the list shows an identity as gone.
abbrev pub shows_gone : String → List EndpointView → Bool
shows_gone cn views = any (λ v. is_disconnected v.last_status && v.common_name == some cn) views

any-append :
    {A : Type 0} (p : A → Bool) (xs ys : List A) → any p (xs ++ ys) ≡ (any p xs || any p ys)
any-append p [] ys = refl
any-append p (x ∷ xs) ys = ground (arith, any-append p xs ys)

live_not_gone :
    (cn : String) (now : ℤ) (es : List ClientEndpoint)
    → shows_gone cn (map (live_view now) es) ≡ false
live_not_gone cn now [] = refl
live_not_gone cn now (e ∷ es) = ground (arith, live_not_gone cn now es)

mem-connected_cns :
    (cn : String) (es : List ClientEndpoint)
    → mem cn (connected_cns es) ≡ any (λ e. e.common_name == some cn) es
mem-connected_cns cn [] = refl
mem-connected_cns cn (e ∷ es) = go e.common_name (mem-connected_cns cn es)
  where
    go :
        (name : Option String)
        → mem cn (connected_cns es) ≡ any (λ e. e.common_name == some cn) es
        → mem cn (elim name [ none ↦ connected_cns es | some x ↦ x ∷ connected_cns es ])
          ≡ (name == some cn || any (λ e. e.common_name == some cn) es)
    go none ih = ih
    go (some x) ih = ground (arith, ih)

gone-offline_views :
    (cn : String) (cns : List String) (rs : List SeenRecord)
    → shows_gone cn (offline_views cns rs) ≡ (any (λ r. r.common_name == cn) rs && not (mem cn cns))
gone-offline_views cn cns [] = refl
gone-offline_views cn cns (r ∷ rs) =
    ground (arith, gone-offline_views cn cns rs, string_eq.beq_iff r.common_name cn)

-- An identity is shown as disconnected exactly where it was seen before and no live connection has
-- its name, however many connections it had and whichever of them ended.
pub shows_gone_exact :
    (c : ConnectedClients) (now : ℤ) (cn : String)
    → shows_gone cn (endpoint_views c now) ≡ (
        any (λ r. r.common_name == cn) (all_seen c.seen)
        && not (any (λ e. e.common_name == some cn) (list c)))
unfolding endpoint_views
shows_gone_exact c now cn =
    let es = values c.clients in
    ground (
      arith,
      any-append (λ v. is_disconnected v.last_status && v.common_name == some cn)
          (map (live_view now) es) (offline_views (connected_cns es) (all_seen c.seen)),
      live_not_gone cn now es,
      gone-offline_views cn (connected_cns es) (all_seen c.seen),
      mem-connected_cns cn es,
    )
