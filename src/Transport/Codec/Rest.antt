-- ===== src/Transport/Codec/Rest.antt =====
-- What `feed` of src/transport/codec.rs keeps between reads: a valid search position, within the limit.
use mathlib.Core.Path.{subst}
use microtak_server.Prelude.{ℕ, ◌≤◌, ◌≡◌, refl, ap, ◌∙◌, List, [], ◌∷◌, arith, length, take, ok}
use microtak_server.Prelude.Bytes.{Bytes}
use microtak_server.Transport.Codec.{
  StreamDecoder, Shape, declaration, event, ambiguous_prefix, unknown, classify,
}
use microtak_server.Transport.Codec.Spec.{
  Look, look, look_shape, look_trimmed, End, waiting, refused, Reads, skips, emits, waits, refuses,
}
use microtak_server.Transport.Codec.Append.{look-wait_rest}
use microtak_server.Transport.Codec.Turns.{IsValid, ScannedFor, scanned_for, at_rest, classify-nil}
use microtak_server.Transport.Codec.Refines.{finish}

pub take-length : (b : Bytes) → take (length b) b ≡ b
take-length [] = refl
take-length (c ∷ cs) = ap (λ (l : Bytes). c ∷ l) (take-length cs)

-- A shape that waits has no terminator in all of its buffer.
look_shape-ScannedFor :
    (s : Shape) (m : ℕ) (b r : Bytes) → look_shape s b ≡ Look.wait r → ScannedFor s (at_rest m s b)
unfolding look_shape scanned_for
look_shape-ScannedFor declaration m b r h = (omega arith, rw take-length (ground arith))
look_shape-ScannedFor event m b r h = (omega arith, rw take-length (ground arith))
look_shape-ScannedFor ambiguous_prefix m b r h = refl
look_shape-ScannedFor unknown m b r h = refl

look_trimmed-IsValid :
    (m : ℕ) (b r : Bytes) → look_trimmed b ≡ Look.wait r → IsValid (at_rest m (classify b) b)
unfolding look_trimmed
look_trimmed-IsValid m [] r h = record { resumes = rw classify-nil (unfold scanned_for in refl) }
look_trimmed-IsValid m (c ∷ cs) r h = record {
  resumes = look_shape-ScannedFor (classify (c ∷ cs)) m (c ∷ cs) r h;
}

look-IsValid :
    (m : ℕ) (b : Bytes) {r : Bytes} → look b ≡ Look.wait r → IsValid (at_rest m (classify r) r)
unfolding look
look-IsValid m b {r} h = look_trimmed-IsValid m r r (ap look_trimmed (look-wait_rest b h) ∙ h)

pub waiting-IsValid :
    (m : ℕ) {b r : Bytes} {xs : List Bytes} {e : End}
    → Reads b xs e
    → e ≡ waiting r
    → IsValid (at_rest m (classify r) r)
waiting-IsValid m (skips k rest) q = waiting-IsValid m rest q
waiting-IsValid m (emits k rest) q = waiting-IsValid m rest q
waiting-IsValid m {r = r} (waits {b = b} {r = s} k) q =
    let same : s ≡ r = cc in
    subst (λ t. IsValid (at_rest m (classify t) t)) same (look-IsValid m b k)
waiting-IsValid m (refuses k) q = cc

-- How a reading ended, where `feed` reports no error.
pub finish_ok :
    (m : ℕ) {A : Type 0} (xs : List A) (e : End) {d : StreamDecoder} {ys : List A}
    → finish m xs e ≡ (d, ok ys)
    → (r : Bytes) × (e ≡ waiting r) × (d ≡ at_rest m (classify r) r) × (xs ≡ ys) × (length r ≤ m)
finish_ok m xs (waiting r) h = (r, refl, ground arith, ground arith, ground arith)
finish_ok m xs (refused r) h = cc
