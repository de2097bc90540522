-- ===== src/DataFeeds/Distinct.antt =====
-- No two feeds of src/datafeeds.rs share a name or a uuid, and what each operation does to them.
use mathlib.Core.Path.{subst}
use microtak_server.Prelude.{
  ◌+◌, ◌%◌, ◌^◌, String, Bool, true, false, not, ◌&&◌, ◌||◌, List, [], ◌∷◌, ◌++◌, Result, ok, err,
  ◌≡◌, ◌⊎◌, inl, inr, refl, sym, ◌∙◌, ap, arith, ◌==◌, string_eq, any, filter, Bool-cases,
}
use microtak_server.Prelude.Apart.{any-filter_out, Apart, Apart-append, Apart-filter}
use microtak_server.EventLog.{JsonLine, Write, append_failed}
use microtak_server.EventLog.Replay.{commit_state}
use microtak_server.EventLog.Calls.{run_all, Every}
use microtak_server.DataFeeds.Calls.{calls-keep}
use microtak_server.DataFeeds.{
  named, apply, record_answer, record_event, create, run, DataFeedError, name_taken, event_log,
  DataFeed, DataFeedEvent, saved, deleted, DataFeedStore, Call,
}

abbrev pub clashes : DataFeed → DataFeed → Bool
clashes f g = f.name == g.name || f.uuid == g.uuid

abbrev pub Distinct : List DataFeed → Type 0
Distinct = Apart clashes

apply-Distinct :
    (feeds : List DataFeed) (event : DataFeedEvent) → Distinct feeds → Distinct (apply feeds event)
unfolding apply
apply-Distinct feeds (saved feed) d =
    Apart-append clashes _ feed
      (any-filter_out (λ f. clashes f feed)
        (λ f. not (f.uuid == feed.uuid) && not (f.name == feed.name)) feeds (λ f e. ground arith))
      (Apart-filter clashes (λ f. not (f.uuid == feed.uuid) && not (f.name == feed.name)) feeds d)
apply-Distinct feeds (deleted name) d = Apart-filter clashes (λ f. not (named name f)) feeds d

-- Where no feed has the name, only the uuid counts.
filter_untaken :
    (feed : DataFeed) (feeds : List DataFeed)
    → any (named feed.name) feeds ≡ false
    → filter (λ f. not (f.uuid == feed.uuid) && not (f.name == feed.name)) feeds
      ≡ filter (λ f. not (f.uuid == feed.uuid)) feeds
filter_untaken feed [] h = refl
filter_untaken feed (f ∷ fs) h = ground (arith, filter_untaken feed fs)

saved_new :
    (feeds : List DataFeed) (feed : DataFeed)
    → any (named feed.name) feeds ≡ false
    → apply feeds (saved feed) ≡ filter (λ f. not (f.uuid == feed.uuid)) feeds ++ feed ∷ []
unfolding apply
saved_new feeds feed h = ap (λ fs. fs ++ feed ∷ []) (filter_untaken feed feeds h)

module _ {L : Type 0} (json : JsonLine L DataFeedEvent) where
  -- What `record` answers and does to the feeds and to the counter.
  recorded :
      (w : Write) (s : DataFeedStore L) (event : DataFeedEvent)
      → ((record_event json w s event).1 ≡ ok tt)
          × ((record_event json w s event).0.feeds.state ≡ apply s.feeds.state event)
          × ((record_event json w s event).0.changes ≡ (s.changes + 1) % 2 ^ 64)
        ⊎ ((record_event json w s event).1 ≡ err (event_log append_failed))
          × ((record_event json w s event).0.feeds.state ≡ s.feeds.state)
          × ((record_event json w s event).0.changes ≡ s.changes)
  unfolding record_event record_answer
  recorded w s event = ground (arith, commit_state json apply w s.feeds event)

  record_event-Distinct :
      (w : Write) (s : DataFeedStore L) (event : DataFeedEvent)
      → Unit {0}
      → Distinct s.feeds.state
      → Distinct (record_event json w s event).0.feeds.state
  record_event-Distinct w s event a d = elim (recorded w s event) [
    | inl (answer, state, count) ↦ subst Distinct (sym state) (apply-Distinct s.feeds.state event d)
    | inr (answer, state, count) ↦ subst Distinct (sym state) d
  ]

  unconditional :
      (calls : List (Call × (Write × Write))) → Every (λ c ws. Unit {0} × Unit {0}) calls
  unconditional [] = tt
  unconditional ((c, ws) ∷ rest) = ((tt, tt), unconditional rest)

  -- After any calls, whatever the log answered to them, no two feeds share a name or a uuid, if none
  -- did before.
  pub feeds-Distinct :
      (calls : List (Call × (Write × Write))) (s : DataFeedStore L)
      → Distinct s.feeds.state
      → Distinct (run_all (run json) calls s).feeds.state
  feeds-Distinct calls s =
      calls-keep json (λ w. Unit) (λ t. Distinct t.feeds.state) record_event-Distinct calls s
        (unconditional calls)

  -- `create` refuses a name that is taken, and then changes nothing. Else it either reports the
  -- failure of the log and changes nothing, or the feeds are those before that do not have its uuid,
  -- with the new one at the end: a feed that had the same uuid is gone, whatever its name was.
  pub create_exact :
      (w : Write) (s : DataFeedStore L) (feed : DataFeed)
      → (any (named feed.name) s.feeds.state ≡ true) × (create json w s feed ≡ (s, err name_taken))
        ⊎ (any (named feed.name) s.feeds.state ≡ false)
          × ((create json w s feed).1 ≡ err (event_log append_failed))
          × ((create json w s feed).0.feeds.state ≡ s.feeds.state)
        ⊎ (any (named feed.name) s.feeds.state ≡ false)
          × ((create json w s feed).1 ≡ ok tt)
          × ((create json w s feed).0.feeds.state
              ≡ filter (λ f. not (f.uuid == feed.uuid)) s.feeds.state ++ feed ∷ [])
  unfolding create
  create_exact w s feed = elim (Bool-cases (any (named feed.name) s.feeds.state)) [
    | inl e ↦ inl (e, rw e refl)
    | inr e ↦ elim (recorded w s (saved feed)) [
      | inr (answer, state, count) ↦ inr (inl (e, rw e answer, rw e state))
      | inl (answer, state, count) ↦
          inr (inr (e, rw e answer, rw e (state ∙ saved_new s.feeds.state feed e)))
    ]
  ]

  -- The second half of `replace`, after the first has answered.
  abbrev Replaced :
      DataFeedStore L
      → String
      → DataFeed
      → DataFeedStore L × Result DataFeedError (Unit {0})
      → Type 0
  Replaced s name feed r =
      (r.1 ≡ ok tt)
        × (r.0.feeds.state
            ≡ filter (λ f. not (f.uuid == feed.uuid) && not (f.name == feed.name))
                (filter (λ f. not (named name f)) s.feeds.state)
              ++ feed ∷ [])
      ⊎ (r.1 ≡ err (event_log append_failed))
        × ((r.0.feeds.state ≡ s.feeds.state)
            ⊎ (r.0.feeds.state ≡ filter (λ f. not (named name f)) s.feeds.state))
