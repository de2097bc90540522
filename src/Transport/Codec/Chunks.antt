-- ===== src/Transport/Codec/Chunks.antt =====
-- The properties of the stream decoder of src/transport/codec.rs.
use mathlib.Core.Path.{subst}
use mathlib.Core.List.{map-append}
use microtak_server.Prelude.{
  ℕ, ◌≤◌, ◌≡◌, refl, ap, ◌∙◌, List, ◌++◌, some, arith, length, Result, ok, err, map, append_assoc,
}
use microtak_server.Prelude.Bytes.{Bytes}
use microtak_server.Transport.Codec.{
  StreamDecoder, StreamError, classify, CotParser, DecodedItem, decode_item, feed,
}
use microtak_server.Transport.Codec.Spec.{End, waiting, refused, Reads}
use microtak_server.Transport.Codec.Append.{Reads-append}
use microtak_server.Transport.Codec.Turns.{IsValid, at_rest}
use microtak_server.Transport.Codec.Refines.{finish, feed-Reads, feed-reading}
use microtak_server.Transport.Codec.Rest.{waiting-IsValid, finish_ok}

-- A reading behind a `feed` that succeeded, with what the decoder keeps.
pub feed_ok :
    (p : CotParser) {d d' : StreamDecoder} (bytes : Bytes) {items : List (DecodedItem p)}
    → IsValid d
    → feed p d bytes ≡ some (d', ok items)
    → (xs : List Bytes) × (r : Bytes) × Reads (d.buf ++ bytes) xs (waiting r)
      × (d' ≡ at_rest d.max_buffered (classify r) r)
      × (map (decode_item p) xs ≡ items)
      × (length r ≤ d.max_buffered)
feed_ok p {d} {d'} bytes {items} v h =
    let (xs, e, reading, fed) = feed-Reads p d bytes v in
    let ended : finish d.max_buffered (map (decode_item p) xs) e ≡ (d', ok items) = cc in
    let (r, q, kept, same, bound) = finish_ok d.max_buffered (map (decode_item p) xs) e ended in
    (xs, r, rw q at reading, kept, same, bound)

feed_kept :
    (p : CotParser) {d d' : StreamDecoder} (bytes : Bytes) {items : List (DecodedItem p)}
    → IsValid d
    → feed p d bytes ≡ some (d', ok items)
    → IsValid d' × (length d'.buf ≤ d'.max_buffered) × (d'.max_buffered ≡ d.max_buffered)
feed_kept p {d} bytes v h =
    let (xs, r, reading, kept, same, bound) = feed_ok p bytes v h in
    rw kept (waiting-IsValid d.max_buffered reading refl, bound, refl)

-- A `feed` that succeeds from a valid decoder leaves a valid decoder, with the same limit and no more
-- bytes kept than the limit.
pub feed-IsValid :
    (p : CotParser) {d d' : StreamDecoder} (bytes : Bytes) {items : List (DecodedItem p)}
    → IsValid d
    → feed p d bytes ≡ some (d', ok items)
    → IsValid d' × (length d'.buf ≤ d'.max_buffered) × (d'.max_buffered ≡ d.max_buffered)
feed-IsValid p bytes v h = feed_kept p bytes v h

-- What two calls of `feed` return together: the items of the first, then the second's, or its error.
abbrev pub after {ℓ} :
    {A : Type ℓ} → List A → Result StreamError (List A) → Result StreamError (List A)
after xs (ok ys) = ok (xs ++ ys)
after xs (err e) = err e

finish-append {ℓ} :
    {A : Type ℓ} (m : ℕ) (xs ys : List A) (e : End)
    → finish m (xs ++ ys) e ≡ ((finish m ys e).0, after xs (finish m ys e).1)
finish-append m xs ys (waiting r) = ground arith
finish-append m xs ys (refused r) = refl

feed_twice :
    (p : CotParser) (d : StreamDecoder) (a b : Bytes) {us vs : List Bytes} {r : Bytes} {e : End}
    → IsValid d
    → Reads (d.buf ++ a) us (waiting r)
    → Reads (r ++ b) vs e
    → feed p d (a ++ b)
      ≡ some (
        (finish d.max_buffered (map (decode_item p) vs) e).0,
        after (map (decode_item p) us) (finish d.max_buffered (map (decode_item p) vs) e).1,
      )
feed_twice p d a b {us} {vs} {r} {e} v first second =
    feed-reading p d (a ++ b) v (
      subst (λ t. Reads t (us ++ vs) e) (append_assoc d.buf a b) (Reads-append b first refl second))
    ∙ ap some (
        ap (λ l. finish d.max_buffered l e) (map-append (decode_item p) us vs)
        ∙ finish-append d.max_buffered (map (decode_item p) us) (map (decode_item p) vs) e)

-- However the input is cut: from a valid decoder, where feeding `a` succeeds, feeding `a` and `b` at
-- once leaves the decoder that feeding `b` next leaves, and returns the items of the first call
-- before those of the second, or the error of the second.
pub feed-append :
    (p : CotParser) {d d' d'' : StreamDecoder} (a b : Bytes) {xs : List (DecodedItem p)}
    {result : Result StreamError (List (DecodedItem p))}
    → IsValid d
    → feed p d a ≡ some (d', ok xs)
    → feed p d' b ≡ some (d'', result)
    → feed p d (a ++ b) ≡ some (d'', after xs result)
unfolding feed_kept
feed-append p {d} {d'} {d''} a b {xs} {result} v h k =
    let (us, r, first, kept, same, bound) = feed_ok p a v h in
    let (vs, e, second, fed) = feed-Reads p d' b (feed_kept p a v h).0 in
    let rest : Reads (r ++ b) vs e =
      subst (λ t. Reads (t ++ b) vs e) (ap (λ (c : StreamDecoder). c.buf) kept) second in
    feed_twice p d a b v first rest
    ∙ cc (same, fed, k, ap (λ (c : StreamDecoder). c.max_buffered) kept)
