-- ===== src/DataFeeds/Durable.antt =====
-- A restart rebuilds the feeds of src/datafeeds.rs from their log.
use microtak_server.Prelude.{List, [], some, ◌≡◌, refl, arith, string_eq, true}
use microtak_server.EventLog.{JsonLine, Write, open_and_replay, commit}
use microtak_server.EventLog.Replay.{IsClean, IsDurable, commit-IsDurable}
use microtak_server.EventLog.Calls.{run_all, Every}
use microtak_server.DataFeeds.Calls.{calls-keep}
use microtak_server.DataFeeds.{
  apply, record_answer, record_event, run, DataFeedEvent, DataFeedStore, Call,
}

module _ {L : Type 0} (json : JsonLine L DataFeedEvent)
    (lossless : (e : DataFeedEvent) → json.exact e ≡ true) where
  abbrev Durable : DataFeedStore L → Type 0
  Durable s = IsDurable json apply [] s.feeds

  store-record_event :
      (w : Write) (s : DataFeedStore L) (event : DataFeedEvent)
      → (record_event json w s event).0.feeds ≡ (commit json apply w s.feeds event).0
  unfolding record_event record_answer
  store-record_event w s event = ground arith

  record_event-Durable :
      (w : Write) (s : DataFeedStore L) (event : DataFeedEvent)
      → IsClean w
      → Durable s
      → Durable (record_event json w s event).0
  record_event-Durable w s event h d =
      rw (store-record_event w s event) (commit-IsDurable json apply w event h (lossless event) d)

  -- After any calls on a new store with a log, appends that fail and write nothing included,
  -- opening the log again rebuilds the feeds, also after a replacement of which only the first
  -- append succeeded, exactly. JSON is to read every event back, and no append may be cut short in
  -- the middle of its line or leave its line and fail to sync it.
  pub feeds_survive :
      (calls : List (Call × (Write × Write)))
      → Every (λ c ws. IsClean ws.0 × IsClean ws.1) calls
      → IsDurable json apply []
          (run_all
            (run json)
            calls
            (record { feeds = record { state = []; log = some [] }; changes = 0 })).feeds
  unfolding open_and_replay
  feeds_survive calls h =
      calls-keep json (λ w. IsClean w) Durable record_event-Durable calls _ h
        (record { rebuilds = (tt, refl) })
