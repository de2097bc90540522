-- ===== src/Transport/Codec/Turns.antt =====
-- One round of `feed` (src/transport/codec.rs): with a valid search position it does what a look at
-- the whole buffer does.
use microtak_server.Prelude.{
  ℕ, ◌-◌, ◌≤◌, ◌<◌, ◌≡◌, refl, ap, ◌∙◌, false, [], ◌∷◌, none, some, arith, length, take, Bool-cases,
  inl, inr,
}
use microtak_server.Prelude.Bytes.{Bytes}
use microtak_server.Transport.Codec.{
  StreamDecoder, Shape, declaration, event, ambiguous_prefix, unknown, classify, find,
  find_terminator, trim_leading_whitespace, trim, trimmed_turn, turn, shape_turn, need_more, Turn,
  is_strict_prefix_of, starts_with, decl_close, event_close, unexpected_content,
}
use microtak_server.Transport.Codec.Search.{find-resume}
use mathlib.Core.Path.{subst}
use microtak_server.Transport.Codec.Spec.{Look, look, look_shape, look_trimmed}

-- No terminator of the item at the front ends within the bytes already searched.
abbrev pub ScannedFor : Shape → StreamDecoder → Type 0
ScannedFor declaration d =
    (d.scanned ≤ length d.buf) × (find (take d.scanned d.buf) decl_close ≡ none)
ScannedFor event d = (d.scanned ≤ length d.buf) × (find (take d.scanned d.buf) event_close ≡ none)
ScannedFor _ d = d.scanned ≡ 0

pub record IsValid (d : StreamDecoder) : Type 0 where
  pub resumes : ScannedFor (classify d.buf) d

-- Where the decoder stands when it has searched all of a waiting buffer.
unfoldable pub scanned_for : Shape → Bytes → ℕ
scanned_for declaration b = length b
scanned_for event b = length b
scanned_for ambiguous_prefix b = 0
scanned_for unknown b = 0

abbrev pub at_rest : ℕ → Shape → Bytes → StreamDecoder
at_rest m s b = record { buf = b; max_buffered = m; scanned = scanned_for s b }

abbrev pub drained : ℕ → Bytes → StreamDecoder
drained m b = record { buf = b; max_buffered = m; scanned = 0 }

-- The round that a look amounts to.
unfoldable pub turn_of : ℕ → Shape → Look → Turn
unfolding need_more scanned_for
turn_of m s (Look.skip r) = Turn.skip (drained m r)
turn_of m s (Look.emit x r) = Turn.emit (drained m r) x
turn_of m s (Look.wait r) = need_more (at_rest m s r)
turn_of m s (Look.refuse r) = Turn.fail (drained m []) (unexpected_content r)

find_terminator_lem :
    (d : StreamDecoder) (needle : Bytes)
    → 0 < length needle
    → d.scanned ≤ length d.buf
    → find (take d.scanned d.buf) needle ≡ none
    → find_terminator d needle ≡ elim (find d.buf needle) [
      | none ↦ (record d { scanned = length d.buf }, none)
      | some i ↦ (d, some i)
    ]
unfolding find_terminator
find_terminator_lem d needle pos bound unseen = ground (
  arith,
  find-resume (d.scanned - (length needle - 1)) d.scanned d.buf needle pos bound (omega arith)
      unseen,
)

shape_turn_lem :
    (s : Shape) (d : StreamDecoder)
    → ScannedFor s d
    → shape_turn s d ≡ turn_of d.max_buffered s (look_shape s d.buf)
unfolding shape_turn look_shape turn_of
shape_turn_lem declaration d (bound, unseen) =
    ground (arith, find_terminator_lem d decl_close (omega arith) bound unseen)
shape_turn_lem event d (bound, unseen) =
    ground (arith, find_terminator_lem d event_close (omega arith) bound unseen)
shape_turn_lem ambiguous_prefix d h = ground arith
shape_turn_lem unknown d h = ground arith

-- Trimming keeps the search position where nothing is removed, and resets it otherwise.
trim-kept : (b : Bytes) → (trim_leading_whitespace b).1 ≡ false → (trim_leading_whitespace b).0 ≡ b
unfolding trim_leading_whitespace
trim-kept [] h = refl
trim-kept (c ∷ cs) h = ground arith

pub ScannedFor-fresh : (s : Shape) (d : StreamDecoder) → d.scanned ≡ 0 → ScannedFor s d
ScannedFor-fresh declaration d h = unfold find in ground arith
ScannedFor-fresh event d h = unfold find in ground arith
ScannedFor-fresh ambiguous_prefix d h = h
ScannedFor-fresh unknown d h = h

pub buf-trim : (d : StreamDecoder) → (trim d).buf ≡ (trim_leading_whitespace d.buf).0
unfolding trim
buf-trim d = ground arith

max_buffered-trim : (d : StreamDecoder) → (trim d).max_buffered ≡ d.max_buffered
unfolding trim
max_buffered-trim d = ground arith

trim-IsValid : {d : StreamDecoder} → IsValid d → IsValid (trim d)
unfolding trim
trim-IsValid {d} v = elim (Bool-cases (trim_leading_whitespace d.buf).1) [
  | inl e ↦ rw e (record { resumes = ScannedFor-fresh _ _ refl })
  | inr e ↦ rw e (rw (trim-kept d.buf e) v)
]

pub classify-nil : classify [] ≡ ambiguous_prefix
unfolding classify is_strict_prefix_of starts_with
classify-nil = refl

scanned-nil : (d : StreamDecoder) → d.buf ≡ [] → IsValid d → d.scanned ≡ 0
scanned-nil d e v = subst (λ s. ScannedFor s d) (ap classify e ∙ classify-nil) v.resumes

trimmed_turn_lem :
    (b : Bytes) (d : StreamDecoder)
    → d.buf ≡ b
    → IsValid d
    → trimmed_turn b d ≡ turn_of d.max_buffered (classify b) (look_trimmed b)
unfolding trimmed_turn look_trimmed
trimmed_turn_lem [] d e v = rw classify-nil (unfold turn_of in ground (arith, scanned-nil d e v))
trimmed_turn_lem (c ∷ cs) d e v =
    shape_turn_lem (classify d.buf) d v.resumes
    ∙ ap (λ t. turn_of d.max_buffered (classify t) (look_shape (classify t) t)) e

-- A round depends on the buffer alone, up to the search position that it leaves.
pub turn_lem :
    (d : StreamDecoder)
    → IsValid d
    → turn d ≡ turn_of d.max_buffered (classify (trim_leading_whitespace d.buf).0) (look d.buf)
unfolding turn look
turn_lem d v =
    trimmed_turn_lem (trim d).buf (trim d) refl (trim-IsValid v)
    ∙ cc (buf-trim d, max_buffered-trim d)
