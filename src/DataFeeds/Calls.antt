-- ===== src/DataFeeds/Calls.antt =====
-- What every recorded event keeps of the store of src/datafeeds.rs is kept by its operations.
use microtak_server.Prelude.{
  not, ◌&&◌, List, [], ◌∷◌, Result, ok, err, inl, inr, ◌==◌, string_eq, any, Bool-cases, String,
}
use microtak_server.EventLog.{JsonLine, Write}
use microtak_server.EventLog.Calls.{run_all, Every}
use microtak_server.DataFeeds.{
  named, record_event, create, and_saved, replace, delete, run, DataFeedError, DataFeed,
  DataFeedEvent, saved, deleted, DataFeedStore, Call, create_call, replace_call, delete_call,
}

module _ {L : Type 0} (json : JsonLine L DataFeedEvent) (Allowed : Write → Type 0)
    (P : DataFeedStore L → Type 0)
    (keep : (w : Write) (s : DataFeedStore L) (event : DataFeedEvent)
      → Allowed w
      → P s
      → P (record_event json w s event).0) where
  create-keeps :
      (w : Write) (s : DataFeedStore L) (feed : DataFeed)
      → Allowed w
      → P s
      → P (create json w s feed).0
  unfolding create
  create-keeps w s feed a p = elim (Bool-cases (any (named feed.name) s.feeds.state)) [
    | inl e ↦ rw e p
    | inr e ↦ rw e (keep w s (saved feed) a p)
  ]

  saved-keeps :
      (w : Write) (r : DataFeedStore L × Result DataFeedError (Unit {0})) (feed : DataFeed)
      → Allowed w
      → P r.0
      → P (and_saved json w r feed).0
  unfolding and_saved
  saved-keeps w (s, ok u) feed a p = keep w s (saved feed) a p
  saved-keeps w (s, err e) feed a p = p

  replace-keeps :
      (w w' : Write) (s : DataFeedStore L) (name : String) (feed : DataFeed)
      → Allowed w
      → Allowed w'
      → P s
      → P (replace json w w' s name feed).0
  unfolding replace
  replace-keeps w w' s name feed a a' p = elim (Bool-cases (any (named name) s.feeds.state)) [
    | inr e ↦ rw e p
    | inl e ↦
        rw e (elim (Bool-cases (not (feed.name == name) && any (named feed.name) s.feeds.state)) [
          | inl t ↦ rw t p
          | inr t ↦ rw t (
              saved-keeps w' (record_event json w s (deleted name)) feed a'
                (keep w s (deleted name) a p))
        ])
  ]

  delete-keeps :
      (w : Write) (s : DataFeedStore L) (name : String)
      → Allowed w
      → P s
      → P (delete json w s name).0
  unfolding delete
  delete-keeps w s name a p = elim (Bool-cases (any (named name) s.feeds.state)) [
    | inr e ↦ rw e p
    | inl e ↦ rw e (keep w s (deleted name) a p)
  ]

  pub calls-keep :
      (calls : List (Call × (Write × Write))) (s : DataFeedStore L)
      → Every (λ c ws. Allowed ws.0 × Allowed ws.1) calls
      → P s
      → P (run_all (run json) calls s)
  unfolding run_all run
  calls-keep [] s h p = p
  calls-keep ((create_call feed, ws) ∷ rest) s ((a, a'), hs) p =
      calls-keep rest (create json ws.0 s feed).0 hs (create-keeps ws.0 s feed a p)
  calls-keep ((replace_call name feed, ws) ∷ rest) s ((a, a'), hs) p =
      calls-keep rest (replace json ws.0 ws.1 s name feed).0 hs
        (replace-keeps ws.0 ws.1 s name feed a a' p)
  calls-keep ((delete_call name, ws) ∷ rest) s ((a, a'), hs) p =
      calls-keep rest (delete json ws.0 s name).0 hs (delete-keeps ws.0 s name a p)
