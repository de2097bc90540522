-- ===== src/Transport/Codec.antt =====
-- The incremental decoder of a CoT XML stream, src/transport/codec.rs.
-- A buffer is a list of byte values. `feed`'s loop is `feed_loop`, on fuel; one round is `turn`.
mod Search
mod Spec
mod Append
mod Progress
mod Turns
pub mod Refines
pub mod Terminates
mod Rest
pub mod Chunks
pub mod Documents
mod Tests
use microtak_server.Prelude.{
  ℕ, zero, suc, ◌+◌, ◌-◌, ◌*◌, String, Bool, true, false, ◌&&◌, ◌||◌, List, [], ◌∷◌, ◌++◌, Option,
  none, some, Result, ok, err, ltb, leb, length, take, drop, if◌then◌else◌, nat_eqb,
}
use microtak_server.Prelude.Bytes.{Bytes, codes, bytes_eqb}

abbrev pub xml_decl_prefix : Bytes
xml_decl_prefix = codes "<?xml"

abbrev pub event_prefix : Bytes
event_prefix = codes "<event"

abbrev pub decl_close : Bytes
decl_close = codes "?>"

abbrev pub event_close : Bytes
event_close = codes "</event>"

abbrev pub default_max_buffered : ℕ
default_max_buffered = 64 * 1024

pub data StreamError : Type 0 where
  unexpected_content : Bytes → StreamError
  too_large : (buffered limit : ℕ) → StreamError

-- What the decoder takes from `cot.rs` and from the standard library. No law of it is used.
pub record CotParser : Type 1 where
  pub Event : Type 0
  pub CotError : Type 0
  pub from_utf8_lossy : Bytes → String
  pub from_xml : String → Result CotError Event

pub data DecodedItem (p : CotParser) : Type 0 where
  event : p.Event → String → DecodedItem p
  skipped : String → p.CotError → DecodedItem p

pub record StreamDecoder : Type 0 where
  pub buf : Bytes
  pub max_buffered : ℕ
  pub scanned : ℕ

abbrev pub with_max_buffered : ℕ → StreamDecoder
with_max_buffered n = record { buf = []; max_buffered = n; scanned = 0 }

abbrev pub new : StreamDecoder
new = with_max_buffered default_max_buffered

pub data Shape : Type 0 where
  declaration event ambiguous_prefix unknown : Shape

pub starts_with : Bytes → Bytes → Bool
starts_with buf needle =
    leb (length needle) (length buf) && bytes_eqb (take (length needle) buf) needle

pub is_strict_prefix_of : Bytes → Bytes → Bool
is_strict_prefix_of buf needle = ltb (length buf) (length needle) && starts_with needle buf

pub classify : Bytes → Shape
classify buf =
    if starts_with buf xml_decl_prefix
    then declaration
    else if starts_with buf event_prefix
    then event
    else if is_strict_prefix_of buf xml_decl_prefix || is_strict_prefix_of buf event_prefix
    then ambiguous_prefix
    else unknown

-- `windows(needle.len()).position(..)`, for a needle that is not empty.
pub find : Bytes → Bytes → Option ℕ
find [] needle = none
find (x ∷ xs) needle =
    let rest = find xs needle in
    if starts_with (x ∷ xs) needle
    then some 0
    else elim rest [ none ↦ none | some i ↦ some (suc i) ]

pub is_ascii_whitespace : ℕ → Bool
is_ascii_whitespace b =
    nat_eqb b 0x20 || nat_eqb b 0x09 || nat_eqb b 0x0a || nat_eqb b 0x0c || nat_eqb b 0x0d

-- What is left, and whether anything was removed.
pub trim_leading_whitespace : Bytes → Bytes × Bool
trim_leading_whitespace [] = ([], false)
trim_leading_whitespace (b ∷ bs) =
    if is_ascii_whitespace b then ((trim_leading_whitespace bs).0, true) else (b ∷ bs, false)

-- The search resumes at `scanned - (needle.len() - 1)`, and remembers a failure.
pub find_terminator : StreamDecoder → Bytes → StreamDecoder × Option ℕ
find_terminator d needle =
    let start = d.scanned - (length needle - 1) in
    elim (find (drop start d.buf) needle) [
      | none ↦ (record d { scanned = length d.buf }, none)
      | some pos ↦ (d, some (start + pos))
    ]

pub check_size_limit : StreamDecoder → Option StreamError
check_size_limit d =
    if ltb d.max_buffered (length d.buf)
    then some (too_large (length d.buf) d.max_buffered)
    else none

-- How one round of `feed`'s loop ends: `continue` with or without an item, `break`, or `return Err`.
pub data Turn : Type 0 where
  skip : StreamDecoder → Turn
  emit : StreamDecoder → Bytes → Turn
  wait : StreamDecoder → Turn
  fail : StreamDecoder → StreamError → Turn

-- `self.check_size_limit()?; break;`
pub need_more : StreamDecoder → Turn
unfolding check_size_limit
need_more d = elim (check_size_limit d) [ none ↦ wait d | some e ↦ fail d e ]

-- `self.buf.drain(..n)` and `self.scanned = 0`
abbrev pub drain : ℕ → StreamDecoder → StreamDecoder
drain n d = record d { buf = drop n d.buf; scanned = 0 }

pub declaration_turn : StreamDecoder × Option ℕ → Turn
unfolding need_more
declaration_turn (d, some end) = skip (drain (end + 2) d)
declaration_turn (d, none) = need_more d

pub event_turn : StreamDecoder × Option ℕ → Turn
unfolding need_more
event_turn (d, some end) =
    emit (drain (end + length event_close) d) (take (end + length event_close) d.buf)
event_turn (d, none) = need_more d

pub shape_turn : Shape → StreamDecoder → Turn
unfolding declaration_turn event_turn need_more
shape_turn declaration d = declaration_turn (find_terminator d decl_close)
shape_turn event d = event_turn (find_terminator d event_close)
shape_turn ambiguous_prefix d = need_more d
shape_turn unknown d = fail (record d { buf = [] }) (unexpected_content d.buf)

-- The first lines of the loop.
pub trim : StreamDecoder → StreamDecoder
unfolding trim_leading_whitespace
trim d =
    let (rest, removed) = trim_leading_whitespace d.buf in
    if removed then record d { buf = rest; scanned = 0 } else record d { buf = rest }

pub trimmed_turn : Bytes → StreamDecoder → Turn
unfolding shape_turn
trimmed_turn [] d = wait d
trimmed_turn (b ∷ bs) d = shape_turn (classify d.buf) d

pub turn : StreamDecoder → Turn
unfolding trim trimmed_turn
turn d = let d' = trim d in trimmed_turn d'.buf d'

module _ (p : CotParser) where
  open p use {Event, CotError, from_utf8_lossy, from_xml}

  -- `match Event::from_xml(&xml)`
  pub decode_item : Bytes → DecodedItem p
  decode_item bytes =
      let xml = from_utf8_lossy bytes in
      elim (from_xml xml) [ ok e ↦ DecodedItem.event e xml | err e ↦ skipped xml e ]

  -- `none` is no result of the code: the fuel ran out.
  pub feed_loop :
      ℕ
      → StreamDecoder
      → List (DecodedItem p)
      → Option (StreamDecoder × Result StreamError (List (DecodedItem p)))
  feed_loop zero d items = none
  feed_loop (suc fuel) d items = elim (turn d) [
    | skip d' ↦ feed_loop fuel d' items
    | emit d' xml ↦ feed_loop fuel d' (items ++ decode_item xml ∷ [])
    | wait d' ↦ some (d', ok items)
    | fail d' e ↦ some (d', err e)
  ]

  -- Each round that goes on drains two bytes or more, so a round for each byte and one are enough.
  pub feed :
      StreamDecoder → Bytes → Option (StreamDecoder × Result StreamError (List (DecodedItem p)))
  unfolding feed_loop
  feed d bytes = let d' = record d { buf = d.buf ++ bytes } in feed_loop (suc (length d'.buf)) d' []
