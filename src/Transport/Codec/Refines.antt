-- ===== src/Transport/Codec/Refines.antt =====
-- `feed` of src/transport/codec.rs against the reading of the whole buffer.
use microtak_server.Prelude.{
  ℕ, zero, suc, ◌<◌, ◌≡◌, refl, ap, sym, ◌∙◌, List, [], ◌∷◌, ◌++◌, some, arith, ltb, length,
  length-append, take-append, Result, ok, err, map, append_assoc, append-nil, if◌then◌else◌,
}
use microtak_server.Prelude.Bytes.{Bytes}
use microtak_server.Transport.Codec.{
  StreamDecoder, Shape, declaration, event, ambiguous_prefix, unknown, classify,
  trim_leading_whitespace, turn, need_more, Turn, StreamError, too_large, unexpected_content,
  CotParser, DecodedItem, decode_item, feed_loop, feed,
}
use microtak_server.Transport.Codec.Spec.{
  Look, look, End, waiting, refused, Reads, skips, emits, waits, refuses,
  classify-append_declaration, classify-append_event,
}
use microtak_server.Transport.Codec.Append.{look-wait_rest}
use microtak_server.Transport.Codec.Progress.{look-skip_shorter, look-emit_shorter, Reads-total}
use microtak_server.Transport.Codec.Turns.{
  IsValid, ScannedFor, ScannedFor-fresh, at_rest, drained, turn_of, turn_lem,
}

-- What `feed` leaves and returns for a reading: the limit is checked on the bytes kept.
abbrev pub finish {ℓ} :
    {A : Type ℓ} → ℕ → List A → End → StreamDecoder × Result StreamError (List A)
finish m xs (waiting r) =
    (at_rest m (classify r) r, if ltb m (length r) then err (too_large (length r) m) else ok xs)
finish m xs (refused r) = (drained m [], err (unexpected_content r))

module _ {d : StreamDecoder} {r : Bytes} (v : IsValid d) where
  turn-skip : look d.buf ≡ Look.skip r → turn d ≡ Turn.skip (drained d.max_buffered r)
  turn-skip h = turn_lem d v ∙ rw h (unfold turn_of in refl)

  turn-emit :
      (x : Bytes) → look d.buf ≡ Look.emit x r → turn d ≡ Turn.emit (drained d.max_buffered r) x
  turn-emit x h = turn_lem d v ∙ rw h (unfold turn_of in refl)

  turn-refuse :
      look d.buf ≡ Look.refuse r
      → turn d ≡ Turn.fail (drained d.max_buffered []) (unexpected_content r)
  turn-refuse h = turn_lem d v ∙ rw h (unfold turn_of in refl)

  turn-wait : look d.buf ≡ Look.wait r → turn d ≡ need_more (at_rest d.max_buffered (classify r) r)
  unfolding turn_of
  turn-wait h =
      turn_lem d v
      ∙ ap (λ k. turn_of d.max_buffered (classify (trim_leading_whitespace d.buf).0) k) h
      ∙ ap (λ t. need_more (at_rest d.max_buffered (classify t) r)) (sym (look-wait_rest d.buf h))

pub drained-IsValid : (m : ℕ) (b : Bytes) → IsValid (drained m b)
drained-IsValid m b = record { resumes = ScannedFor-fresh (classify b) (drained m b) refl }

module _ (p : CotParser) where
  -- With fuel for every byte, the loop returns what the reading of its buffer says.
  pub feed_loop_lem :
      (fuel : ℕ) (d : StreamDecoder) (items : List (DecodedItem p)) {b : Bytes} {xs : List Bytes}
      {e : End}
      → length b < fuel
      → IsValid d
      → d.buf ≡ b
      → Reads b xs e
      → feed_loop p fuel d items ≡ some (finish d.max_buffered (items ++ map (decode_item p) xs) e)
  unfolding feed_loop
  feed_loop_lem zero d items bound v same reading = absurd (omega arith)
  feed_loop_lem (suc fuel) d items bound v same (skips {b = b} {r = r} k rest) =
      rw (turn-skip v (ap look same ∙ k), feed_loop)
        (feed_loop_lem fuel (drained d.max_buffered r) items
          (omega (arith, look-skip_shorter b r k)) (drained-IsValid d.max_buffered r) refl rest)
  feed_loop_lem (suc fuel) d items bound v same
        (emits {b = b} {r = r} {xml = x} {xs = xs} {e = e} k rest) =
      rw (turn-emit v x (ap look same ∙ k), feed_loop)
        (feed_loop_lem fuel (drained d.max_buffered r) (items ++ decode_item p x ∷ [])
            (omega (arith, look-emit_shorter b x r k)) (drained-IsValid d.max_buffered r) refl rest
          ∙ ap (λ l. some (finish d.max_buffered l e))
              (append_assoc items (decode_item p x ∷ []) (map (decode_item p) xs)))
  feed_loop_lem (suc fuel) d items bound v same (waits {r = r} k) =
      rw (turn-wait v (ap look same ∙ k), feed_loop, append-nil) (unfold need_more in ground arith)
  feed_loop_lem (suc fuel) d items bound v same (refuses {r = r} k) =
      rw (turn-refuse v (ap look same ∙ k), feed_loop)

-- New bytes behind the buffer leave the search position valid.
ScannedFor-append :
    (s : Shape) (d : StreamDecoder) (bytes : Bytes)
    → classify d.buf ≡ s
    → ScannedFor s d
    → ScannedFor (classify (d.buf ++ bytes)) (record d { buf = d.buf ++ bytes })
ScannedFor-append declaration d bytes k (bound, unseen) =
    rw (classify-append_declaration d.buf bytes k) (
      omega (arith, length-append d.buf bytes),
      rw (take-append d.scanned d.buf bytes bound) unseen,
    )
ScannedFor-append event d bytes k (bound, unseen) =
    rw (classify-append_event d.buf bytes k) (
      omega (arith, length-append d.buf bytes),
      rw (take-append d.scanned d.buf bytes bound) unseen,
    )
ScannedFor-append ambiguous_prefix d bytes k h = ScannedFor-fresh _ _ h
ScannedFor-append unknown d bytes k h = ScannedFor-fresh _ _ h

-- Any reading of the kept bytes and the new ones gives what `feed` returns.
pub feed-reading :
    (p : CotParser) (d : StreamDecoder) (bytes : Bytes) {xs : List Bytes} {e : End}
    → IsValid d
    → Reads (d.buf ++ bytes) xs e
    → feed p d bytes ≡ some (finish d.max_buffered (map (decode_item p) xs) e)
unfolding feed
feed-reading p d bytes v reading =
    feed_loop_lem p (suc (length (d.buf ++ bytes))) (record d { buf = d.buf ++ bytes }) []
      (omega arith) (record { resumes = ScannedFor-append (classify d.buf) d bytes refl v.resumes })
      refl reading

-- From a valid decoder `feed` returns, and what it returns is the reading of the kept bytes and the
-- new ones: the events in order, each decoded, and `finish` of how the reading ends.
pub feed-Reads :
    (p : CotParser) (d : StreamDecoder) (bytes : Bytes)
    → IsValid d
    → (xs : List Bytes) × (e : End) × Reads (d.buf ++ bytes) xs e
      × (feed p d bytes ≡ some (finish d.max_buffered (map (decode_item p) xs) e))
feed-Reads p d bytes v =
    let whole = d.buf ++ bytes in
    let (xs, e, reading) = Reads-total (suc (length whole)) whole (omega arith) in
    (xs, e, reading, feed-reading p d bytes v reading)
