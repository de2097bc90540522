-- ===== src/Transport/Codec/Tests.antt =====
-- Runs of the stream decoder of src/transport/codec.rs, and its properties at concrete inputs.
use microtak_server.Prelude.{
  ℕ, ◌+◌, arith, Result, ◌≡◌, refl, String, List, [], ◌∷◌, ◌++◌, some, ok, err, map,
}
use microtak_server.Prelude.Bytes.{Bytes, codes}
use microtak_server.Transport.Codec.{
  StreamDecoder, StreamError, feed_loop, too_large, unexpected_content, with_max_buffered, classify,
  is_strict_prefix_of, starts_with, find, find_terminator, is_ascii_whitespace, turn, CotParser,
  DecodedItem, decode_item, feed,
}
use microtak_server.Transport.Codec.Spec.{End, Reads}
use microtak_server.Transport.Codec.Turns.{IsValid, drained, classify-nil}
use microtak_server.Transport.Codec.Refines.{drained-IsValid, finish, feed-Reads}
use microtak_server.Transport.Codec.Terminates.{feed_loop_ends}
use microtak_server.Transport.Codec.Chunks.{feed-append}
use microtak_server.Transport.Codec.Documents.{
  IsDocument, IsHeader, Sent, bare, declared, on_wire, documents, feed-on_wire,
}

-- A parser that accepts every text.
abbrev accepting : CotParser
accepting = record {
  Event = String;
  CotError = Unit {0};
  from_utf8_lossy = λ _. "text";
  from_xml = λ s. ok s;
}

abbrev fresh : StreamDecoder
fresh = with_max_buffered 24

fresh-IsValid : IsValid fresh
fresh-IsValid = record { resumes = rw classify-nil refl }

abbrev doc : Bytes
doc = codes "<event/></event>"

-- The terminator is split between the two reads.
abbrev front : Bytes
front = codes "\n<?xml version='1.0'?><event/></ev"

abbrev back : Bytes
back = codes "ent> <e"

abbrev half : StreamDecoder
half = record { buf = codes "<event/></ev"; max_buffered = 24; scanned = 12 }

abbrev rest : StreamDecoder
rest = record { buf = codes "<e"; max_buffered = 24; scanned = 0 }

feed-front : feed accepting fresh front ≡ some (half, ok [])
unfolding feed turn find_terminator find classify is_strict_prefix_of starts_with
    is_ascii_whitespace
feed-front = refl

feed-back : feed accepting half back ≡ some (rest, ok (DecodedItem.event "text" "text" ∷ []))
unfolding feed turn find_terminator find classify is_strict_prefix_of starts_with
    is_ascii_whitespace decode_item
feed-back = refl

-- A declaration that never ends is refused once it outgrows the limit.
feed_long :
    feed accepting fresh (codes "<?xml version='1.0' encod")
    ≡ some (
      record { buf = codes "<?xml version='1.0' encod"; max_buffered = 24; scanned = 25 },
      err (too_large 25 24),
    )
unfolding feed turn find_terminator find classify is_strict_prefix_of starts_with
    is_ascii_whitespace
feed_long = refl

feed_bad :
    feed accepting fresh (codes "GET /") ≡ some (fresh, err (unexpected_content (codes "GET /")))
unfolding feed turn find_terminator find classify is_strict_prefix_of starts_with
    is_ascii_whitespace
feed_bad = refl

feed-Reads_example :
    (xs : List Bytes) × (e : End) × Reads (codes "" ++ front) xs e
    × (feed accepting fresh front ≡ some (finish 24 (map (decode_item accepting) xs) e))
feed-Reads_example = feed-Reads accepting fresh front fresh-IsValid

feed_loop_ends_example :
    (r : StreamDecoder × Result StreamError (List (DecodedItem accepting))) × ((more : ℕ)
      → feed_loop accepting (40 + more) (drained 24 front) [] ≡ some r)
feed_loop_ends_example =
    feed_loop_ends accepting (drained 24 front) [] 40 (drained-IsValid 24 front) (omega arith)

feed-append_example :
    feed accepting fresh (front ++ back) ≡ some (rest, ok (DecodedItem.event "text" "text" ∷ []))
feed-append_example = feed-append accepting front back fresh-IsValid feed-front feed-back

doc-IsDocument : IsDocument doc
unfolding find classify starts_with
doc-IsDocument = record { opens = refl; closes = 8; closes_first = refl; closes_last = refl }

prolog-IsHeader : IsHeader (codes "<?xml version='1.0'?>")
unfolding find classify starts_with
prolog-IsHeader = record { opens = refl; closes = 19; closes_first = refl; closes_last = refl }

abbrev sample : List Sent
sample = declared (codes "<?xml version='1.0'?>") doc ∷ bare doc ∷ []

feed-on_wire_example :
    feed accepting fresh (on_wire sample)
    ≡ some (fresh, ok (map (decode_item accepting) (documents sample)))
feed-on_wire_example =
    feed-on_wire accepting 24 sample ((prolog-IsHeader, doc-IsDocument), (doc-IsDocument, tt))
