-- ===== src/Transport/Codec/Progress.antt =====
-- Every step of the scan of src/transport/codec.rs that goes on leaves fewer bytes, so a reading
-- of every buffer exists.
use microtak_server.Prelude.{
  ℕ, zero, suc, ◌+◌, ◌≤◌, ◌<◌, ◌≡◌, refl, List, [], ◌∷◌, arith, length, length-drop, Option-cases,
  inl, inr,
}
use microtak_server.Prelude.Bytes.{Bytes}
use microtak_server.Transport.Codec.{
  Shape, declaration, event, ambiguous_prefix, unknown, classify, find, trim_leading_whitespace,
  decl_close, event_close,
}
use microtak_server.Transport.Codec.Search.{find-bound}
use mathlib.Core.Path.{subst}
use microtak_server.Transport.Codec.Spec.{
  Look, look, look_shape, look_trimmed, End, waiting, refused, Reads, skips, emits, waits, refuses,
}

length-trim : (b : Bytes) → length (trim_leading_whitespace b).0 ≤ length b
unfolding trim_leading_whitespace
length-trim [] = omega arith
length-trim (c ∷ cs) = ground (arith, length-trim cs)

-- The bytes left after a step, of a look that takes something.
abbrev Shrinks : Bytes → Look → Type 0
Shrinks b (Look.skip r) = length r < length b
Shrinks b (Look.emit x r) = length r < length b
Shrinks b (Look.wait r) = Unit
Shrinks b (Look.refuse r) = Unit

look_shape-Shrinks : (s : Shape) (b : Bytes) → Shrinks b (look_shape s b)
unfolding look_shape
look_shape-Shrinks declaration b = elim (Option-cases (find b decl_close)) [
  | inl e ↦ rw (e, Shrinks) tt
  | inr (i, e) ↦ rw (e, Shrinks) (omega (arith, length-drop (i + 2) b, find-bound b decl_close i e))
]
look_shape-Shrinks event b = elim (Option-cases (find b event_close)) [
  | inl e ↦ rw (e, Shrinks) tt
  | inr (i, e) ↦
      rw (e, Shrinks)
        (omega (arith, length-drop (i + length event_close) b, find-bound b event_close i e))
]
look_shape-Shrinks ambiguous_prefix b = tt
look_shape-Shrinks unknown b = tt

look_trimmed-Shrinks : (b : Bytes) → Shrinks b (look_trimmed b)
unfolding look_trimmed
look_trimmed-Shrinks [] = tt
look_trimmed-Shrinks (c ∷ cs) = look_shape-Shrinks (classify (c ∷ cs)) (c ∷ cs)

look-Shrinks : (b : Bytes) → Shrinks (trim_leading_whitespace b).0 (look b)
unfolding look
look-Shrinks b = look_trimmed-Shrinks (trim_leading_whitespace b).0

pub look-skip_shorter : (b r : Bytes) → look b ≡ Look.skip r → length r < length b
look-skip_shorter b r h =
    let shorter : length r < length (trim_leading_whitespace b).0 =
      subst (Shrinks (trim_leading_whitespace b).0) h (look-Shrinks b) in
    omega (arith, length-trim b)

pub look-emit_shorter : (b x r : Bytes) → look b ≡ Look.emit x r → length r < length b
look-emit_shorter b x r h =
    let shorter : length r < length (trim_leading_whitespace b).0 =
      subst (Shrinks (trim_leading_whitespace b).0) h (look-Shrinks b) in
    omega (arith, length-trim b)

-- A buffer shorter than the fuel has a reading.
pub Reads-total :
    (fuel : ℕ) (b : Bytes) → length b < fuel → (xs : List Bytes) × (e : End) × Reads b xs e
Reads-total zero b h = absurd (omega arith)
Reads-total (suc fuel) b h = go (look b) refl (Reads-total fuel)
  where
    go :
        (l : Look)
        → look b ≡ l
        → ((r : Bytes) → length r < fuel → (xs : List Bytes) × (e : End) × Reads r xs e)
        → (xs : List Bytes) × (e : End) × Reads b xs e
    go (Look.skip r) k after =
        let (xs, e, reading) = after r (omega (arith, look-skip_shorter b r k)) in
        (xs, e, skips k reading)
    go (Look.emit x r) k after =
        let (xs, e, reading) = after r (omega (arith, look-emit_shorter b x r k)) in
        (x ∷ xs, e, emits k reading)
    go (Look.wait r) k after = ([], waiting r, waits k)
    go (Look.refuse r) k after = ([], refused r, refuses k)
