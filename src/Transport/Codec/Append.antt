-- ===== src/Transport/Codec/Append.antt =====
-- Input that arrives in pieces, against the whole of it (src/transport/codec.rs).
use microtak_server.Prelude.{ℕ, ◌≡◌, refl, ap, sym, ◌∙◌, List, [], ◌∷◌, ◌++◌}
use microtak_server.Prelude.Bytes.{Bytes}
use microtak_server.Transport.Codec.{trim_leading_whitespace}
use microtak_server.Transport.Codec.Spec.{
  skip, emit, wait, look, look_trimmed, End, waiting, Reads, skips, emits, waits, refuses,
  trim-append, trim-trim, trim_stable, look_trimmed-skip, look_trimmed-emit, look_trimmed-wait,
}

look-append : (b ys : Bytes) → look (b ++ ys) ≡ look ((trim_leading_whitespace b).0 ++ ys)
unfolding look
look-append b ys = ap look_trimmed (sym (trim-append b ys))

-- At a buffer whose trimmed front is not empty, trimming stops where it stopped.
look-trimmed :
    (b ys cs : Bytes) (c : ℕ)
    → (trim_leading_whitespace b).0 ≡ c ∷ cs
    → look (b ++ ys) ≡ look_trimmed (c ∷ (cs ++ ys))
unfolding look
look-trimmed b ys cs c e = ap look_trimmed (
    sym (trim-append b ys)
    ∙ ap (λ t. (trim_leading_whitespace (t ++ ys)).0) e
    ∙ trim_stable b ys cs c e)

pub look-skip : (b ys : Bytes) {r : Bytes} → look b ≡ skip r → look (b ++ ys) ≡ skip (r ++ ys)
unfolding look
look-skip b ys {r} h = go (trim_leading_whitespace b).0 refl h
  where
    go :
        (t : Bytes)
        → (trim_leading_whitespace b).0 ≡ t
        → look_trimmed t ≡ skip r
        → look (b ++ ys) ≡ skip (r ++ ys)
    go [] e k = unfold look_trimmed in cc
    go (c ∷ cs) e k = look-trimmed b ys cs c e ∙ look_trimmed-skip (c ∷ cs) ys k

pub look-emit : (b ys : Bytes) {x r : Bytes} → look b ≡ emit x r → look (b ++ ys) ≡ emit x (r ++ ys)
unfolding look
look-emit b ys {x} {r} h = go (trim_leading_whitespace b).0 refl h
  where
    go :
        (t : Bytes)
        → (trim_leading_whitespace b).0 ≡ t
        → look_trimmed t ≡ emit x r
        → look (b ++ ys) ≡ emit x (r ++ ys)
    go [] e k = unfold look_trimmed in cc
    go (c ∷ cs) e k = look-trimmed b ys cs c e ∙ look_trimmed-emit (c ∷ cs) ys k

-- A buffer that waits is kept trimmed, and reads on as the whole would.
pub look-wait_rest : (b : Bytes) {r : Bytes} → look b ≡ wait r → r ≡ (trim_leading_whitespace b).0
unfolding look
look-wait_rest b h = look_trimmed-wait (trim_leading_whitespace b).0 h

pub look-wait : (b ys : Bytes) {r : Bytes} → look b ≡ wait r → look (b ++ ys) ≡ look (r ++ ys)
look-wait b ys h = look-append b ys ∙ ap (λ t. look (t ++ ys)) (sym (look-wait_rest b h))

pub look-wait_self : (b : Bytes) {r : Bytes} → look b ≡ wait r → look r ≡ wait r
unfolding look
look-wait_self b {r} h =
    ap (λ t. look_trimmed (trim_leading_whitespace t).0) (look-wait_rest b h)
    ∙ ap look_trimmed (trim-trim b)
    ∙ h

-- From equal looks, equal readings.
Reads-look :
    {b c : Bytes} {xs : List Bytes} {e : End} → look c ≡ look b → Reads b xs e → Reads c xs e
Reads-look h (skips k rest) = skips (h ∙ k) rest
Reads-look h (emits k rest) = emits (h ∙ k) rest
Reads-look h (waits k) = waits (h ∙ k)
Reads-look h (refuses k) = refuses (h ∙ k)

-- A buffer that reads `xs` and waits with `r` reads, with more behind it, `xs` and what `r` and the
-- rest read.
pub Reads-append :
    {b : Bytes} {xs : List Bytes} {f : End} (ys : Bytes) {r : Bytes} {zs : List Bytes} {e : End}
    → Reads b xs f
    → f ≡ waiting r
    → Reads (r ++ ys) zs e
    → Reads (b ++ ys) (xs ++ zs) e
Reads-append ys (skips {b = b} k rest) q next =
    skips (look-skip b ys k) (Reads-append ys rest q next)
Reads-append ys (emits {b = b} k rest) q next =
    emits (look-emit b ys k) (Reads-append ys rest q next)
Reads-append ys {r} {zs} {e} (waits {b = b} {r = s} k) q next =
    let same : s ≡ r = cc in Reads-look (look-wait b ys k ∙ ap (λ t. look (t ++ ys)) same) next
Reads-append ys (refuses k) q next = cc
