-- ===== src/Transport/Connections/Registered.antt =====
-- Connections of src/transport/connections.rs, their numbers and their latest SAs agree.
use microtak_server.Prelude.{
  ℕ, ◌+◌, ◌%◌, ◌^◌, ◌<◌, ◌≤◌, String, Bool, true, false, List, [], ◌∷◌, Option, none, some, ◌≡◌,
  refl, arith, ◌==◌, is_some, length, if◌then◌else◌,
}
use microtak_server.Prelude.Int.{ℤ}
use microtak_server.Map.{Map, map_option, get, modify, contains_key}
use microtak_server.Map.Laws.{get-insert, get-remove, get-modify}
use microtak_server.Net.{SocketAddr, socket_eq}
use microtak_server.Transport.Seen.{Seen}
use microtak_server.Transport.Connections.{
  ClientEndpoint, ConnectedClients, with_seen, register, unregister, set_latest_sa, set_uid,
}

pub data Call : Type 0 where
  register_call : ClientEndpoint → Call
  unregister_call : SocketAddr → Call
  set_latest_sa_call : SocketAddr → (xml : String) → Call
  set_uid_call : SocketAddr → (uid : String) → Call

abbrev pub run : Call → ℤ → ConnectedClients → ConnectedClients
run (register_call endpoint) now c = register c endpoint now
run (unregister_call addr) now c = unregister c addr now
run (set_latest_sa_call addr xml) now c = set_latest_sa c addr xml
run (set_uid_call addr uid) now c = set_uid c addr uid

-- Calls, each with the clock's answer.
abbrev pub run_all : List (Call × ℤ) → ConnectedClients → ConnectedClients
run_all [] c = c
run_all ((call, now) ∷ rest) c = run_all rest (run call now c)

pub record IsRegistered (c : ConnectedClients) : Type 0 where
  pub sa_live :
      (a : SocketAddr) → contains_key a c.latest_sa ≡ true → contains_key a c.clients ≡ true
  pub numbered : (a : SocketAddr) → contains_key a c.numbers ≡ contains_key a c.clients
  pub given : (a : SocketAddr) (n : ℕ) → get a c.numbers ≡ some n → n ≤ c.next_number
  pub unique :
      (a b : SocketAddr) (n : ℕ) → get a c.numbers ≡ some n → get b c.numbers ≡ some n → a ≡ b

register-IsRegistered :
    (c : ConnectedClients) (endpoint : ClientEndpoint) (now : ℤ)
    → c.next_number + 1 < 2 ^ 64
    → IsRegistered c
    → IsRegistered (register c endpoint now)
unfolding register
register-IsRegistered c endpoint now room v =
    let addr = endpoint.remote_addr in
    let number = (c.next_number + 1) % 2 ^ 64 in
    record {
      sa_live = λ a. ground (arith, v.sa_live a, get-insert addr a endpoint c.clients);
      numbered = λ a. ground (
        arith,
        v.numbered a,
        get-insert addr a endpoint c.clients,
        get-insert addr a number c.numbers,
      );
      given = λ a n. ground (arith, v.given a n, get-insert addr a number c.numbers);
      unique = λ a b n ha hb. ground (
        arith,
        v.unique a b n,
        v.given a n,
        v.given b n,
        get-insert addr a number c.numbers,
        get-insert addr b number c.numbers,
        socket_eq.beq_iff addr a,
        socket_eq.beq_iff addr b,
      );
    }

unregister-IsRegistered :
    (c : ConnectedClients) (addr : SocketAddr) (now : ℤ)
    → IsRegistered c
    → IsRegistered (unregister c addr now)
unfolding unregister
unregister-IsRegistered c addr now v = record {
  sa_live =
      λ a. ground (arith, v.sa_live a, get-remove addr a c.clients, get-remove addr a c.latest_sa);
  numbered =
      λ a. ground (arith, v.numbered a, get-remove addr a c.clients, get-remove addr a c.numbers);
  given = λ a n. ground (arith, v.given a n, get-remove addr a c.numbers);
  unique = λ a b n ha hb.
      ground (arith, v.unique a b n, get-remove addr a c.numbers, get-remove addr b c.numbers);
}

set_latest_sa-IsRegistered :
    (c : ConnectedClients) (addr : SocketAddr) (xml : String)
    → IsRegistered c
    → IsRegistered (set_latest_sa c addr xml)
unfolding set_latest_sa
set_latest_sa-IsRegistered c addr xml v = record {
  sa_live =
      λ a. ground (arith, v.sa_live a, get-insert addr a xml c.latest_sa, socket_eq.beq_iff addr a);
  numbered = λ a. ground (arith, v.numbered a);
  given = λ a n. ground (arith, v.given a n);
  unique = λ a b n. ground (arith, v.unique a b n);
}

contains-modify :
    (addr a : SocketAddr) (f : ClientEndpoint → ClientEndpoint) (m : Map SocketAddr ClientEndpoint)
    → contains_key a (modify addr f m) ≡ contains_key a m
contains-modify addr a f m = rw (get-modify addr a f m) (go (addr == a) (get a m))
  where
    go :
        (b : Bool) (o : Option ClientEndpoint)
        → is_some (if b then map_option f o else o) ≡ is_some o
    go true none = refl
    go true (some e) = refl
    go false o = refl

set_uid-IsRegistered :
    (c : ConnectedClients) (addr : SocketAddr) (uid : String)
    → IsRegistered c
    → IsRegistered (set_uid c addr uid)
unfolding set_uid
set_uid-IsRegistered c addr uid v = record {
  sa_live = λ a h.
      rw (contains-modify addr a (λ e. record e { uid = some uid }) c.clients) (v.sa_live a h);
  numbered =
      λ a. rw (contains-modify addr a (λ e. record e { uid = some uid }) c.clients) (v.numbered a);
  given = v.given;
  unique = v.unique;
}

run-next :
    (call : Call) (now : ℤ) (c : ConnectedClients)
    → (run call now c).next_number ≤ c.next_number + 1
unfolding register unregister set_latest_sa set_uid
run-next (register_call endpoint) now c = omega arith
run-next (unregister_call addr) now c = omega arith
run-next (set_latest_sa_call addr xml) now c = ground arith
run-next (set_uid_call addr uid) now c = omega arith

run_all-IsRegistered :
    (calls : List (Call × ℤ)) (c : ConnectedClients)
    → c.next_number + length calls < 2 ^ 64
    → IsRegistered c
    → IsRegistered (run_all calls c)
run_all-IsRegistered [] c room v = v
run_all-IsRegistered ((register_call endpoint, now) ∷ rest) c room v =
    run_all-IsRegistered rest (register c endpoint now)
      (omega (arith, run-next (register_call endpoint) now c))
      (register-IsRegistered c endpoint now (omega arith) v)
run_all-IsRegistered ((unregister_call addr, now) ∷ rest) c room v =
    run_all-IsRegistered rest (unregister c addr now)
      (omega (arith, run-next (unregister_call addr) now c)) (unregister-IsRegistered c addr now v)
run_all-IsRegistered ((set_latest_sa_call addr xml, now) ∷ rest) c room v =
    run_all-IsRegistered rest (set_latest_sa c addr xml)
      (omega (arith, run-next (set_latest_sa_call addr xml) now c))
      (set_latest_sa-IsRegistered c addr xml v)
run_all-IsRegistered ((set_uid_call addr uid, now) ∷ rest) c room v =
    run_all-IsRegistered rest (set_uid c addr uid)
      (omega (arith, run-next (set_uid_call addr uid) now c)) (set_uid-IsRegistered c addr uid v)

-- After any calls from the start, fewer than a `u64` has values, only live connections have a latest
-- SA, every live connection and no other has a number, and no two connections share a number.
pub connections_agree :
    (calls : List (Call × ℤ)) (seen : Seen)
    → length calls < 2 ^ 64
    → IsRegistered (run_all calls (with_seen seen))
unfolding get
connections_agree calls seen room =
    run_all-IsRegistered calls (with_seen seen) (omega arith) (record {
      sa_live = λ a h. cc;
      numbered = λ a. refl;
      given = λ a n h. cc;
      unique = λ a b n h k. cc;
    })
