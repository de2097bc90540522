-- ===== src/Transport/Codec/Documents.antt =====
-- A stream of event documents, one behind the other, as src/transport/codec.rs reads it.
use microtak_server.Prelude.{
  ℕ, ◌+◌, ◌≡◌, refl, ap, ◌∙◌, true, List, [], ◌∷◌, ◌++◌, some, arith, length, ok, map, All,
  take-length-append, drop-length-append,
}
use microtak_server.Prelude.Bytes.{Bytes, codes}
use microtak_server.Transport.Codec.{
  with_max_buffered, event, declaration, decl_close, classify, find, starts_with, event_prefix,
  xml_decl_prefix, trim_leading_whitespace, is_ascii_whitespace, event_close, CotParser,
  decode_item, feed,
}
use microtak_server.Transport.Codec.Search.{find-append}
use microtak_server.Transport.Codec.Spec.{
  Look, look, look_shape, look_trimmed, waiting, Reads, skips, emits, waits, classify-append_event,
  classify-append_declaration,
}
use microtak_server.Transport.Codec.Turns.{classify-nil, scanned_for}
use microtak_server.Transport.Codec.Refines.{feed-reading}

-- A document that begins as an event and holds `</event>` only at its end.
pub record IsDocument (x : Bytes) : Type 0 where
  pub opens : classify x ≡ event
  pub closes : ℕ
  pub closes_first : find x event_close ≡ some closes
  pub closes_last : closes + length event_close ≡ length x

-- An XML declaration that holds `?>` only at its end.
pub record IsHeader (x : Bytes) : Type 0 where
  pub opens : classify x ≡ declaration
  pub closes : ℕ
  pub closes_first : find x decl_close ≡ some closes
  pub closes_last : closes + 2 ≡ length x

starts_with-head : (c b : ℕ) (cs bs : Bytes) → starts_with (c ∷ cs) (b ∷ bs) ≡ true → c ≡ b
unfolding starts_with
starts_with-head c b cs bs h = ground arith

event_head :
    (c : ℕ) (cs : Bytes) → classify (c ∷ cs) ≡ event → starts_with (c ∷ cs) event_prefix ≡ true
unfolding classify
event_head c cs h = ground arith

declaration_head :
    (c : ℕ) (cs : Bytes)
    → classify (c ∷ cs) ≡ declaration
    → starts_with (c ∷ cs) xml_decl_prefix ≡ true
unfolding classify
declaration_head c cs h = ground arith

trim-event :
    (c : ℕ) (cs : Bytes) → classify (c ∷ cs) ≡ event → (trim_leading_whitespace (c ∷ cs)).0 ≡ c ∷ cs
unfolding trim_leading_whitespace is_ascii_whitespace
trim-event c cs h = ground (arith, starts_with-head c b'<' cs (codes "event") (event_head c cs h))

trim-declaration :
    (c : ℕ) (cs : Bytes)
    → classify (c ∷ cs) ≡ declaration
    → (trim_leading_whitespace (c ∷ cs)).0 ≡ c ∷ cs
unfolding trim_leading_whitespace is_ascii_whitespace
trim-declaration c cs h =
    ground (arith, starts_with-head c b'<' cs (codes "?xml") (declaration_head c cs h))

shape-document : (x rest : Bytes) → IsDocument x → look_shape event (x ++ rest) ≡ Look.emit x rest
unfolding look_shape
shape-document x rest doc = ground (
  arith,
  find-append x rest event_close doc.closes doc.closes_first,
  take-length-append x rest,
  drop-length-append x rest,
)

shape-header : (x rest : Bytes) → IsHeader x → look_shape declaration (x ++ rest) ≡ Look.skip rest
unfolding look_shape
shape-header x rest doc =
    ground
      (arith, find-append x rest decl_close doc.closes doc.closes_first, drop-length-append x rest)

look-document : (x rest : Bytes) → IsDocument x → look (x ++ rest) ≡ Look.emit x rest
unfolding look look_trimmed
look-document [] rest doc = absurd (cc (doc.opens, classify-nil))
look-document (c ∷ cs) rest doc =
    let opens = classify-append_event (c ∷ cs) rest doc.opens in
    ap look_trimmed (trim-event c (cs ++ rest) opens)
    ∙ ap (λ s. look_shape s (c ∷ (cs ++ rest))) opens
    ∙ shape-document (c ∷ cs) rest doc

look-header : (x rest : Bytes) → IsHeader x → look (x ++ rest) ≡ Look.skip rest
unfolding look look_trimmed
look-header [] rest doc = absurd (cc (doc.opens, classify-nil))
look-header (c ∷ cs) rest doc =
    let opens = classify-append_declaration (c ∷ cs) rest doc.opens in
    ap look_trimmed (trim-declaration c (cs ++ rest) opens)
    ∙ ap (λ s. look_shape s (c ∷ (cs ++ rest))) opens
    ∙ shape-header (c ∷ cs) rest doc

-- A document with its declaration, as ATAK sends it, or without one.
pub data Sent : Type 0 where
  bare : Bytes → Sent
  declared : Bytes → Bytes → Sent

abbrev pub IsSent : Sent → Type 0
IsSent (bare x) = IsDocument x
IsSent (declared h x) = IsHeader h × IsDocument x

abbrev pub on_wire : List Sent → Bytes
on_wire [] = []
on_wire (bare x ∷ rest) = x ++ on_wire rest
on_wire (declared h x ∷ rest) = h ++ (x ++ on_wire rest)

abbrev pub documents : List Sent → List Bytes
documents [] = []
documents (bare x ∷ rest) = x ∷ documents rest
documents (declared h x ∷ rest) = x ∷ documents rest

Reads-on_wire :
    (sent : List Sent) → All IsSent sent → Reads (on_wire sent) (documents sent) (waiting [])
Reads-on_wire [] h =
    waits {b = []} {r = []} (unfold look look_trimmed trim_leading_whitespace in refl)
Reads-on_wire (bare x ∷ rest) (doc, docs) =
    emits (look-document x (on_wire rest) doc) (Reads-on_wire rest docs)
Reads-on_wire (declared h x ∷ rest) ((header, doc), docs) =
    skips (look-header h (x ++ on_wire rest) header)
      (emits (look-document x (on_wire rest) doc) (Reads-on_wire rest docs))

-- Event documents that hold `</event>` only at their end, each with or without an XML declaration
-- before it, come out of a fresh decoder one by one, decoded and in order, whatever their contents
-- parse to, and nothing is kept.
pub feed-on_wire :
    (p : CotParser) (limit : ℕ) (sent : List Sent)
    → All IsSent sent
    → feed p (with_max_buffered limit) (on_wire sent)
      ≡ some (with_max_buffered limit, ok (map (decode_item p) (documents sent)))
unfolding scanned_for
feed-on_wire p limit sent h =
    feed-reading p (with_max_buffered limit) (on_wire sent)
      (record { resumes = rw classify-nil refl }) (Reads-on_wire sent h)
    ∙ rw classify-nil (ground arith)
