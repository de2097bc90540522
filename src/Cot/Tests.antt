-- ===== src/Cot/Tests.antt =====
-- The properties of src/cot.rs and src/latest_cot.rs at concrete events.
use microtak_server.Prelude.{true, false, [], ◌∷◌, none, some, ◌≡◌, refl, arith, string_eq}
use microtak_server.Prelude.Int.{pos}
use microtak_server.Prelude.Text.{trim_start, strip_prefix, after_first, is_whitespace}
use microtak_server.Map.{get, insert, remove}
use microtak_server.Cot.{
  is_control, is_ping, is_situational_awareness, producer_uids, dest_missions, addressed_uids, Dest,
  Event,
}
use microtak_server.Cot.Latest.{strip_declaration, record_event, save_if_dirty, State}
use microtak_server.Cot.Bounded.{IsBounded, Forgets, record_event_exact}

abbrev full : State
full = record {
  events =
      ("a", record { xml = "<a/>"; server_time_ms = pos 2 })
      ∷ ("b", record { xml = "<b/>"; server_time_ms = pos 1 })
      ∷ [];
  dirty = false;
}

record_event_exact_example :
    IsBounded 2 (record_event 2 full "c" "<?xml version=\"1.0\"?> <c/>" (pos 3))
    × (get "c" (record_event 2 full "c" "<?xml version=\"1.0\"?> <c/>" (pos 3)).events
        ≡ some (record { xml = "<c/>"; server_time_ms = pos 3 }))
    × Forgets 2 "c" full.events
        (record_event 2 full "c" "<?xml version=\"1.0\"?> <c/>" (pos 3)).events
unfolding get strip_declaration trim_start strip_prefix after_first is_whitespace
record_event_exact_example =
    record_event_exact 2 full "c" "<?xml version=\"1.0\"?> <c/>" (pos 3) (omega arith)
      ((refl, (refl, tt)), omega arith)

-- The older event is forgotten, and then there is something to save, once.
forgets_b :
    (get "b" (record_event 2 full "c" "<?xml version=\"1.0\"?> <c/>" (pos 3)).events ≡ none)
    × (get "a" (record_event 2 full "c" "<?xml version=\"1.0\"?> <c/>" (pos 3)).events
        ≡ get "a" full.events)
    × ((save_if_dirty full).1 ≡ none)
    × ((save_if_dirty (save_if_dirty (record_event 2 full "a" "<a/>" (pos 4))).0).1 ≡ none)
unfolding record_event get insert remove save_if_dirty
forgets_b = (refl, refl, refl, refl)

abbrev no_dest : Dest
no_dest = record { uid = none; callsign = none; mission = none; mission_guid = none }

abbrev chat_event : Event
chat_event = record {
  version = "2.0";
  uid = "GeoChat.1";
  cot_type = "b-t-f";
  how = "h-g-i-g-o";
  time = "";
  start = "";
  stale = "";
  detail = some (record {
    contact = none;
    chat = some (record {
      id = "c";
      chatroom = "Team";
      sender_callsign = none;
      group_owner = none;
      chatgrp = some (record {
        id = some "c";
        attributes =
            ("@uid0", "A") ∷ ("@uidx", "B") ∷ ("@id", "c") ∷ ("@uid", "D") ∷ ("@uid10", "E") ∷ [];
      });
    });
    marti = some (
        record no_dest { uid = some "F" }
        ∷ record no_dest { mission = some "op"; mission_guid = some "g0" }
        ∷ record no_dest { mission_guid = some "g1" }
        ∷ []);
    remarks = none;
    links =
        record { uid = some "ANDROID-1"; relation = some "p-p"; link_type = none }
        ∷ record { uid = some "X"; relation = some "c"; link_type = none }
        ∷ [];
  });
}

readings :
    (addressed_uids chat_event ≡ some ("F" ∷ "A" ∷ "E" ∷ []))
    × (producer_uids chat_event ≡ "ANDROID-1" ∷ [])
    × (dest_missions chat_event ≡ ("op" ∷ [], "g1" ∷ []))
    × (is_situational_awareness chat_event ≡ false)
    × (is_control chat_event ≡ false)
    × (is_control (record chat_event { cot_type = "T-X-C-T" }) ≡ true)
    × (is_ping (record chat_event { cot_type = "T-x-c-t" }) ≡ true)
unfolding addressed_uids producer_uids dest_missions is_situational_awareness is_control is_ping
readings = (refl, refl, refl, refl, refl, refl, refl)
