-- ===== src/Transport/Codec/Terminates.antt =====
-- The loop of `feed`, src/transport/codec.rs, ends.
use microtak_server.Prelude.{ℕ, ◌+◌, ◌<◌, ◌≡◌, refl, List, some, arith, length, Result, map, ◌++◌}
use microtak_server.Transport.Codec.{
  StreamDecoder, StreamError, CotParser, DecodedItem, decode_item, feed_loop,
}
use microtak_server.Transport.Codec.Progress.{Reads-total}
use microtak_server.Transport.Codec.Refines.{feed_loop_lem, finish}
use microtak_server.Transport.Codec.Turns.{IsValid}

-- From a valid decoder, the loop of `feed` ends after at most one round for each byte of the buffer
-- and one more, whatever it has collected so far: with that fuel it returns a result, and more fuel
-- does not change it.
pub feed_loop_ends :
    (p : CotParser) (d : StreamDecoder) (items : List (DecodedItem p)) (fuel : ℕ)
    → IsValid d
    → length d.buf < fuel
    → (r : StreamDecoder × Result StreamError (List (DecodedItem p))) × ((more : ℕ)
        → feed_loop p (fuel + more) d items ≡ some r)
feed_loop_ends p d items fuel v enough =
    let (xs, e, reading) = Reads-total fuel d.buf enough in
    (
      finish d.max_buffered (items ++ map (decode_item p) xs) e,
      λ more. feed_loop_lem p (fuel + more) d items (omega arith) v refl reading,
    )
