-- ===== src/Transport/Codec/Spec.antt =====
-- What the decoder of src/transport/codec.rs is to read from a whole buffer: the same scan with no
-- memory of earlier reads and no size limit.
use microtak_server.Prelude.{
  ℕ, ◌+◌, ◌≡◌, refl, ap, sym, ◌∙◌, List, [], ◌∷◌, ◌++◌, none, some, arith, length, take, drop,
  drop-append, take-append, Option-cases, inl, inr, ◌≢◌,
}
use microtak_server.Prelude.Bytes.{Bytes}
use microtak_server.Transport.Codec.{
  find, trim_leading_whitespace, Shape, declaration, event, ambiguous_prefix, unknown, classify,
  xml_decl_prefix, event_prefix, decl_close, event_close,
}
use microtak_server.Transport.Codec.Search.{
  starts_with-append, starts_with-length, find-bound, find-append,
}

-- One step: drop a declaration, take an event, wait with what is left, or refuse it.
pub data Look : Type 0 where
  skip : Bytes → Look
  emit : Bytes → Bytes → Look
  wait : Bytes → Look
  refuse : Bytes → Look

unfoldable pub look_shape : Shape → Bytes → Look
look_shape declaration b = elim (find b decl_close) [
  | none ↦ wait b
  | some i ↦ skip (drop (i + 2) b)
]
look_shape event b = elim (find b event_close) [
  | none ↦ wait b
  | some i ↦ emit (take (i + length event_close) b) (drop (i + length event_close) b)
]
look_shape ambiguous_prefix b = wait b
look_shape unknown b = refuse b

unfoldable pub look_trimmed : Bytes → Look
unfolding look_shape
look_trimmed [] = wait []
look_trimmed (c ∷ cs) = look_shape (classify (c ∷ cs)) (c ∷ cs)

unfoldable pub look : Bytes → Look
look b = look_trimmed (trim_leading_whitespace b).0

pub data End : Type 0 where
  waiting : Bytes → End
  refused : Bytes → End

-- The events that a buffer holds, in order, and how it ends.
pub data Reads : Bytes → List Bytes → End → Type 0 where
  skips : {b r : Bytes} {xs : List Bytes} {e : End} → look b ≡ skip r → Reads r xs e → Reads b xs e
  emits :
      {b r xml : Bytes} {xs : List Bytes} {e : End}
      → look b ≡ emit xml r
      → Reads r xs e
      → Reads b (xml ∷ xs) e
  waits : {b r : Bytes} → look b ≡ wait r → Reads b [] (waiting r)
  refuses : {b r : Bytes} → look b ≡ refuse r → Reads b [] (refused r)

-- Trimming twice, with more input between.
pub trim-append :
    (xs ys : Bytes)
    → (trim_leading_whitespace ((trim_leading_whitespace xs).0 ++ ys)).0
      ≡ (trim_leading_whitespace (xs ++ ys)).0
unfolding trim_leading_whitespace
trim-append [] ys = refl
trim-append (x ∷ xs) ys = ground (arith, trim-append xs ys)

pub trim-trim :
    (xs : Bytes)
    → (trim_leading_whitespace (trim_leading_whitespace xs).0).0 ≡ (trim_leading_whitespace xs).0
unfolding trim_leading_whitespace
trim-trim [] = refl
trim-trim (x ∷ xs) = ground (arith, trim-trim xs)

pub classify-append_declaration :
    (xs ys : Bytes) → classify xs ≡ declaration → classify (xs ++ ys) ≡ declaration
unfolding classify
classify-append_declaration xs ys h =
    ground (arith, starts_with-append xs ys xml_decl_prefix, starts_with-length xs xml_decl_prefix)

pub classify-append_event : (xs ys : Bytes) → classify xs ≡ event → classify (xs ++ ys) ≡ event
unfolding classify
classify-append_event xs ys h = ground (
  arith,
  starts_with-append xs ys xml_decl_prefix,
  starts_with-append xs ys event_prefix,
  starts_with-length xs event_prefix,
)

pub trim_stable :
    (xs ys cs : Bytes) (c : ℕ)
    → (trim_leading_whitespace xs).0 ≡ c ∷ cs
    → (trim_leading_whitespace (c ∷ (cs ++ ys))).0 ≡ c ∷ (cs ++ ys)
unfolding trim_leading_whitespace
trim_stable [] ys cs c h = cc
trim_stable (x ∷ xs) ys cs c h = ground (arith, trim_stable xs ys cs c)

look_shape-skip :
    (s : Shape) (b ys : Bytes) {r : Bytes}
    → look_shape s b ≡ skip r
    → look_shape s (b ++ ys) ≡ skip (r ++ ys)
unfolding look_shape
look_shape-skip declaration b ys h = elim (Option-cases (find b decl_close)) [
  | inl e ↦ ground arith
  | inr (i, e) ↦ ground (
    arith,
    find-append b ys decl_close i e,
    find-bound b decl_close i e,
    drop-append (i + 2) b ys,
  )
]
look_shape-skip event b ys h = ground arith
look_shape-skip ambiguous_prefix b ys h = cc
look_shape-skip unknown b ys h = cc

look_shape-emit :
    (s : Shape) (b ys : Bytes) {x r : Bytes}
    → look_shape s b ≡ emit x r
    → look_shape s (b ++ ys) ≡ emit x (r ++ ys)
unfolding look_shape
look_shape-emit declaration b ys h = ground arith
look_shape-emit event b ys h = elim (Option-cases (find b event_close)) [
  | inl e ↦ ground arith
  | inr (i, e) ↦ ground (
    arith,
    find-append b ys event_close i e,
    find-bound b event_close i e,
    drop-append (i + length event_close) b ys,
    take-append (i + length event_close) b ys,
  )
]
look_shape-emit ambiguous_prefix b ys h = cc
look_shape-emit unknown b ys h = cc

look_shape-wait : (s : Shape) (b : Bytes) {r : Bytes} → look_shape s b ≡ wait r → r ≡ b
unfolding look_shape
look_shape-wait declaration b h = ground arith
look_shape-wait event b h = ground arith
look_shape-wait ambiguous_prefix b h = ground arith
look_shape-wait unknown b h = cc

-- A shape that takes something is settled: more input does not change it.
classify-append :
    (b ys : Bytes)
    → classify b ≢ ambiguous_prefix
    → classify b ≢ unknown
    → classify (b ++ ys) ≡ classify b
classify-append b ys h k = go (classify b) refl
  where
    go : (s : Shape) → classify b ≡ s → classify (b ++ ys) ≡ classify b
    go declaration e = classify-append_declaration b ys e ∙ sym e
    go event e = classify-append_event b ys e ∙ sym e
    go ambiguous_prefix e = absurd (h e)
    go unknown e = absurd (k e)

pub look_trimmed-skip :
    (b ys : Bytes) {r : Bytes} → look_trimmed b ≡ skip r → look_trimmed (b ++ ys) ≡ skip (r ++ ys)
unfolding look_trimmed
look_trimmed-skip [] ys h = cc
look_trimmed-skip (c ∷ cs) ys h =
    rw
      (classify-append (c ∷ cs) ys (λ e. cc (ap (λ s. look_shape s (c ∷ cs)) e))
        (λ e. cc (ap (λ s. look_shape s (c ∷ cs)) e)))
      (look_shape-skip (classify (c ∷ cs)) (c ∷ cs) ys h)

pub look_trimmed-emit :
    (b ys : Bytes) {x r : Bytes}
    → look_trimmed b ≡ emit x r
    → look_trimmed (b ++ ys) ≡ emit x (r ++ ys)
unfolding look_trimmed
look_trimmed-emit [] ys h = cc
look_trimmed-emit (c ∷ cs) ys h =
    rw
      (classify-append (c ∷ cs) ys (λ e. cc (ap (λ s. look_shape s (c ∷ cs)) e))
        (λ e. cc (ap (λ s. look_shape s (c ∷ cs)) e)))
      (look_shape-emit (classify (c ∷ cs)) (c ∷ cs) ys h)

pub look_trimmed-wait : (b : Bytes) {r : Bytes} → look_trimmed b ≡ wait r → r ≡ b
unfolding look_trimmed
look_trimmed-wait [] h = ground arith
look_trimmed-wait (c ∷ cs) h = look_shape-wait (classify (c ∷ cs)) (c ∷ cs) h
