-- ===== src/DataFeeds.antt =====
-- Data feeds, src/datafeeds.rs: what the lock guards is a list of feeds, and `changes` counts the
-- events that were recorded, as a `u64`.
pub mod Calls
pub mod Distinct
pub mod Durable
mod Tests
use microtak_server.Prelude.{
  ℕ, zero, suc, ◌+◌, ◌%◌, ◌^◌, String, Bool, true, false, not, ◌&&◌, ◌||◌, List, [], ◌∷◌, ◌++◌,
  Option, none, some, Result, ok, err, ◌==◌, string_eq, if◌then◌else◌, filter, find, any, mem,
}
use microtak_server.Prelude.Int.{ℤ}
use microtak_server.Prelude.Sort.{sort_by, insert_by}
use microtak_server.Prelude.Bytes.{codes, bytes_leb}
use microtak_server.EventLog.{JsonLine, EventLogError, Write, Store, commit}

pub data DataFeedError : Type 0 where
  not_found name_taken : DataFeedError
  event_log : EventLogError → DataFeedError

pub record DataFeed : Type 0 where
  pub uuid : String
  pub name : String
  pub feed_type : String
  pub tags : List String
  pub auth : String
  pub auth_required : Bool
  pub protocol : String
  pub port : Option ℤ
  pub group : Option String
  pub iface : Option String
  pub archive : Bool
  pub anongroup : Bool
  pub archive_only : Bool
  pub sync : Bool
  pub core_version : ℤ
  pub core_version2_tls_versions : Option String
  pub filter_groups : List String
  pub sync_cache_retention_seconds : ℤ
  pub federated : Bool
  pub binary_payload_websocket_only : Bool
  pub visible_to : List String

-- `!self.visible_to.is_disjoint(user_groups)`
unfoldable pub reaches : DataFeed → List String → Bool
reaches f user_groups = any (λ g. mem g user_groups) f.visible_to

pub data DataFeedEvent : Type 0 where
  saved : DataFeed → DataFeedEvent
  deleted : (name : String) → DataFeedEvent

abbrev pub named : String → DataFeed → Bool
named name f = f.name == name

unfoldable pub apply : List DataFeed → DataFeedEvent → List DataFeed
apply feeds (saved feed) =
    filter (λ f. not (f.uuid == feed.uuid) && not (f.name == feed.name)) feeds ++ feed ∷ []
apply feeds (deleted name) = filter (λ f. not (named name f)) feeds

pub record DataFeedStore (L : Type 0) : Type 0 where
  pub feeds : Store L (List DataFeed)
  pub changes : ℕ

unfoldable pub all : List DataFeed → List DataFeed
unfolding sort_by insert_by
all feeds = sort_by (λ a b. bytes_leb (codes a.name) (codes b.name)) feeds

unfoldable pub by_name : List DataFeed → String → Option DataFeed
by_name feeds name = find (named name) feeds

unfoldable pub by_uuid : List DataFeed → String → Option DataFeed
by_uuid feeds uuid = find (λ f. f.uuid == uuid) feeds

module _ {L : Type 0} (json : JsonLine L DataFeedEvent) where
  unfoldable pub record_answer :
      DataFeedStore L
      → Store L (List DataFeed) × Result EventLogError (Unit {0})
      → DataFeedStore L × Result DataFeedError (Unit {0})
  record_answer s (store, ok u) =
      (record { feeds = store; changes = (s.changes + 1) % 2 ^ 64 }, ok tt)
  record_answer s (store, err e) =
      (record { feeds = store; changes = s.changes }, err (event_log e))

  -- `record`
  unfoldable pub record_event :
      Write → DataFeedStore L → DataFeedEvent → DataFeedStore L × Result DataFeedError (Unit {0})
  unfolding record_answer
  record_event w s event = record_answer s (commit json apply w s.feeds event)

  unfoldable pub create :
      Write → DataFeedStore L → DataFeed → DataFeedStore L × Result DataFeedError (Unit {0})
  unfolding record_event
  create w s feed =
      if any (named feed.name) s.feeds.state
      then (s, err name_taken)
      else record_event w s (saved feed)

  -- The second event is recorded where the first one was.
  unfoldable pub and_saved :
      Write
      → DataFeedStore L × Result DataFeedError (Unit {0})
      → DataFeed
      → DataFeedStore L × Result DataFeedError (Unit {0})
  unfolding record_event
  and_saved w (s, ok u) feed = record_event w s (saved feed)
  and_saved w (s, err e) feed = (s, err e)

  -- Two events, with an append each.
  unfoldable pub replace :
      (w w' : Write)
      → DataFeedStore L
      → String
      → DataFeed
      → DataFeedStore L × Result DataFeedError (Unit {0})
  unfolding and_saved record_event
  replace w w' s name feed =
      if not (any (named name) s.feeds.state)
      then (s, err not_found)
      else if not (feed.name == name) && any (named feed.name) s.feeds.state
      then (s, err name_taken)
      else and_saved w' (record_event w s (deleted name)) feed

  unfoldable pub delete :
      Write → DataFeedStore L → String → DataFeedStore L × Result DataFeedError (Unit {0})
  unfolding record_event
  delete w s name =
      if not (any (named name) s.feeds.state)
      then (s, err not_found)
      else record_event w s (deleted name)

pub data Call : Type 0 where
  create_call : DataFeed → Call
  replace_call : (name : String) → DataFeed → Call
  delete_call : (name : String) → Call

module _ {L : Type 0} (json : JsonLine L DataFeedEvent) where
  unfoldable pub run : Call → Write × Write → DataFeedStore L → DataFeedStore L
  run (create_call feed) ws s = (create json ws.0 s feed).0
  run (replace_call name feed) ws s = (replace json ws.0 ws.1 s name feed).0
  run (delete_call name) ws s = (delete json ws.0 s name).0
