-- ===== src/DataFeeds/Tests.antt =====
-- The properties of src/datafeeds.rs at concrete feeds.
use microtak_server.Prelude.{
  true, false, not, List, [], ◌∷◌, ◌++◌, Option, none, some, ok, err, ◌≡◌, ◌⊎◌, refl, ◌==◌,
  string_eq, any, filter,
}
use microtak_server.Prelude.Int.{pos}
use microtak_server.EventLog.{commit, JsonLine, append_failed, Write, synced, unsynced, unwritten}
use microtak_server.EventLog.Calls.{run_all}
use microtak_server.EventLog.Sample.{plain_lines}
use microtak_server.DataFeeds.{
  reaches, named, apply, all, by_name, by_uuid, create, replace, delete, run, name_taken, event_log,
  DataFeed, DataFeedEvent, DataFeedStore, Call, create_call, replace_call, delete_call,
}
use microtak_server.DataFeeds.Distinct.{Distinct, feeds-Distinct, create_exact}

abbrev json : JsonLine (Option DataFeedEvent) DataFeedEvent
json = plain_lines DataFeedEvent

abbrev aprs : DataFeed
aprs = record {
  uuid = "u1";
  name = "aprs";
  feed_type = "Streaming";
  tags = [];
  auth = "ANONYMOUS";
  auth_required = false;
  protocol = "stcp";
  port = some (pos 18088);
  group = none;
  iface = none;
  archive = true;
  anongroup = false;
  archive_only = false;
  sync = false;
  core_version = pos 2;
  core_version2_tls_versions = none;
  filter_groups = "__ANON__" ∷ [];
  sync_cache_retention_seconds = pos 3600;
  federated = true;
  binary_payload_websocket_only = false;
  visible_to = "__ANON__" ∷ [];
}

abbrev mesh : DataFeed
mesh = record aprs { uuid = "u2"; name = "mesh" }

abbrev store : DataFeedStore (Option DataFeedEvent)
store = record { feeds = record { state = aprs ∷ mesh ∷ []; log = some [] }; changes = 2 }

abbrev calls : List (Call × (Write × Write))
calls =
    (create_call (record aprs { uuid = "u3" }), (synced, synced))
    ∷ (replace_call "aprs" (record aprs { name = "aprs2" }), (synced, unwritten))
    ∷ (delete_call "mesh", (unsynced, synced))
    ∷ []

feeds-Distinct_example : Distinct (run_all (run json) calls store).feeds.state
feeds-Distinct_example = feeds-Distinct json calls store ((refl, (refl, tt)))

-- The new feed has the uuid of `aprs`, which is gone.
create_exact_example :
    (any (named "radar") store.feeds.state ≡ true)
      × (create json synced store (record aprs { name = "radar" }) ≡ (store, err name_taken))
    ⊎ (any (named "radar") store.feeds.state ≡ false)
      × ((create json synced store (record aprs { name = "radar" })).1
          ≡ err (event_log append_failed))
      × ((create json synced store (record aprs { name = "radar" })).0.feeds.state
          ≡ store.feeds.state)
    ⊎ (any (named "radar") store.feeds.state ≡ false)
      × ((create json synced store (record aprs { name = "radar" })).1 ≡ ok tt)
      × ((create json synced store (record aprs { name = "radar" })).0.feeds.state
          ≡ filter (λ f. not (f.uuid == "u1")) store.feeds.state
            ++ record aprs { name = "radar" } ∷ [])
create_exact_example = create_exact json synced store (record aprs { name = "radar" })

-- The new feed replaces one of another name; and a replacement may lose the old feed.
uuid_taken :
    ((create json synced store (record aprs { name = "radar" })).0.feeds.state
      ≡ mesh ∷ record aprs { name = "radar" } ∷ [])
    × ((replace json synced unwritten store "aprs" (record aprs { name = "aprs2" })).0.feeds.state
        ≡ mesh ∷ [])
    × (by_name store.feeds.state "mesh" ≡ some mesh)
    × (by_uuid store.feeds.state "u1" ≡ some aprs)
    × (all store.feeds.state ≡ aprs ∷ mesh ∷ [])
    × (reaches aprs ("__ANON__" ∷ []) ≡ true)
    × ((delete json synced store "aprs").0.feeds.state ≡ mesh ∷ [])
unfolding create replace delete commit apply by_name by_uuid all reaches
uuid_taken = (refl, refl, refl, refl, refl, refl, refl)
