-- ===== src/Transport/Connections/Tests.antt =====
-- The properties of src/transport/connections.rs at concrete connections.
use microtak_server.Prelude.{
  refl, true, false, ℕ, List, [], ◌∷◌, none, some, ◌≡◌, arith, string_eq, option_eq,
}
use microtak_server.Prelude.Sort.{sort_by_key, insert_sorted}
use microtak_server.Prelude.Int.{ℤ, pos}
use microtak_server.Map.{get, insert, map_values}
use microtak_server.Transport.Seen.{load, mark_connected, tls}
use microtak_server.Transport.Connections.{
  register, set_latest_sa, latest_sas_except, ClientEndpoint, with_seen,
}
use microtak_server.Net.{v4, SocketAddr}
use microtak_server.Transport.Connections.Registered.{
  Call, register_call, unregister_call, set_latest_sa_call, run_all, IsRegistered,
  connections_agree,
}

abbrev at_port : ℕ → SocketAddr
at_port port = record { ip = v4 1; port = port }

abbrev phone : ℕ → ClientEndpoint
phone port = record {
  remote_addr = at_port port;
  transport = tls;
  common_name = some "alice";
  uid = none;
  connected_at_unix = pos 1;
}

-- Two connections of one identity, of which the first ends.
abbrev calls : List (Call × ℤ)
calls =
    (register_call (phone 1), pos 1)
    ∷ (register_call (phone 2), pos 2)
    ∷ (set_latest_sa_call (at_port 1) "<event/>", pos 3)
    ∷ (unregister_call (at_port 1), pos 4)
    ∷ []

connections_agree_example : IsRegistered (run_all calls (with_seen []))
connections_agree_example = connections_agree calls [] (omega arith)

abbrev sa_calls : List (Call × ℤ)
sa_calls =
    (register_call (phone 1), pos 1)
    ∷ (register_call (phone 2), pos 2)
    ∷ (set_latest_sa_call (at_port 2) "b", pos 3)
    ∷ (set_latest_sa_call (at_port 1) "a", pos 4)
    ∷ []

-- The oldest connection comes first.
sas_by_age :
    latest_sas_except (run_all sa_calls (with_seen [])) (at_port 9)
    ≡ (phone 1, "a") ∷ (phone 2, "b") ∷ []
unfolding latest_sas_except register set_latest_sa mark_connected sort_by_key insert_sorted insert
    get
sas_by_age = refl

-- Nobody is connected when the records are loaded.
load_offline :
    load (
      (
        "alice",
        record {
          common_name = "alice";
          uid = none;
          transport = tls;
          last_seen_unix = pos 5;
          connected = true;
        },
      )
      ∷ [])
    ≡ (
      "alice",
      record {
        common_name = "alice";
        uid = none;
        transport = tls;
        last_seen_unix = pos 5;
        connected = false;
      },
    )
      ∷ []
unfolding load map_values
load_offline = refl
