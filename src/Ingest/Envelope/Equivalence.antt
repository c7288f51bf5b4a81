-- ===== src/Ingest/Envelope/Equivalence.antt =====
-- `ParseEnvelope` against the reference parser, on every body.
use serverless_error_ingest.Bufio.Laws.{IsReady}
use serverless_error_ingest.Bufio.{Reader, buffer, remaining, Slice, new_reader}
use serverless_error_ingest.Json.{Json, EnvelopeHeader}
use serverless_error_ingest.Ingest.Envelope.Items.{
  SameItems, nil, cons, ItemsRead, all, none_read, read_items-ItemsRead,
}
use serverless_error_ingest.Ingest.Envelope.Lines.{LineRead, got, failed, read_line-LineRead}
use serverless_error_ingest.Ingest.Envelope.Plain.{plain_items, plain_of_line, plain_envelope}
use serverless_error_ingest.Ingest.Envelope.Refines.{Known}
use serverless_error_ingest.Ingest.Envelope.{
  Item, Envelope, LineError, EnvelopeError, Payload, owned, RawItem, max_item_bytes, resolve,
  parsing_header, resolve_item, resolved, envelope_of_line, read_items, parse_sized, parse_envelope,
  max_header_bytes, max_envelope_items,
}
use serverless_error_ingest.Base.{
  ℕ, ◌+◌, ◌≤◌, ◌<◌, ◌≡◌, refl, inl, inr, Option, none, some, List, [], ◌∷◌, map, arith, Bool-cases,
  Bytes, is_empty, Result, ok, err, ◌>>=◌, map_err, ℤ, length-replicate,
}

-- Payloads are compared where the item's header declares a length.
abbrev pub AgreeOn : Option ℤ → Bytes → Bytes → Type 0
AgreeOn none p q = Unit
AgreeOn (some n) p q = p ≡ q

abbrev pub AgreeItems : List Item → List Item → Type 0
AgreeItems [] [] = Unit
AgreeItems (a ∷ as_) (b ∷ bs) =
    (a.header ≡ b.header) × AgreeOn b.header.length a.payload b.payload × AgreeItems as_ bs
AgreeItems _ _ = ⊥

-- The same error, or the same headers and items.
abbrev pub Agrees : Result EnvelopeError Envelope → Result EnvelopeError Envelope → Type 0
Agrees (ok a) (ok b) = (a.header ≡ b.header) × AgreeItems a.items b.items
Agrees (err e) (err f) = e ≡ f
Agrees _ _ = ⊥

abbrev HoldsDeclared : Option ℤ → Payload → Bytes → Type 0
HoldsDeclared none q p = Unit
HoldsDeclared (some n) q p = q ≡ owned p

abbrev declared : (size : ℕ) → Known size
declared size = record {
  Keeps = λ st. Unit;
  Holds = HoldsDeclared;
  of_owned = λ n p. refl;
  of_view = λ s st k shows. tt;
  keeps_line = λ st v k. tt;
  keeps_full = λ n st v k. tt;
  keeps_byte = λ st v k. tt;
}

pub new_reader-IsReady : (size : ℕ) (body : Bytes) → IsReady size (new_reader size body)
unfolding new_reader
new_reader-IsReady size body = record {
  total = omega (arith, length-replicate {0} {A = ℕ} size 0);
  idle = refl;
}

module _ (json : Json) (size : ℕ) (room : 0 < size) (le : size ≤ max_item_bytes) where
  AgreeOn-resolve :
      (array : Bytes) (n : Option ℤ) (q : Payload) (p : Bytes)
      → HoldsDeclared n q p
      → AgreeOn n (resolve array q) p
  AgreeOn-resolve array none q p h = tt
  AgreeOn-resolve array (some n) q p h = rw h

  resolved-AgreeItems :
      {its : List Item} {raws : List RawItem} (array : Bytes)
      → SameItems json size room (declared size) its raws
      → AgreeItems (map (resolve_item array) raws) its
  resolved-AgreeItems array nil = tt
  resolved-AgreeItems array (cons h p q holds rest) =
      (refl, AgreeOn-resolve array h.length q p holds, resolved-AgreeItems array rest)

  items-Agrees :
      (h : EnvelopeHeader)
      → {a : Result EnvelopeError (List Item)} {b : Result EnvelopeError (List RawItem × Reader)}
      → ItemsRead json size room (declared size) a b
      → Agrees
          (b >>= λ its. ok (resolved h its))
          (a >>= λ its. ok (record { header = h; items = its }))
  items-Agrees h (all its raws st same k) = (refl, resolved-AgreeItems (buffer st) same)
  items-Agrees h (none_read e) = refl

  header-Agrees :
      (n : ℕ) (l : Bytes) (st : Reader) (r : Result Bytes EnvelopeHeader)
      → IsReady size st
      → Agrees
          (map_err parsing_header r >>= λ h.
            read_items json n size st >>= λ its. ok (resolved (record h { raw = l }) its))
          (map_err parsing_header r >>= λ h. plain_items json size n (remaining st) >>= λ its.
            ok (record { header = record h { raw = l }; items = its }))
  header-Agrees n l st (err e) v = refl
  header-Agrees n l st (ok h) v =
      items-Agrees (record h { raw = l })
        (read_items-ItemsRead json size room (declared size) n le st v tt)

  line-Agrees :
      (n : ℕ)
      → {a : Result LineError (Bytes × Bytes)} {b : Result LineError Slice × Reader}
      → LineRead size a b
      → Agrees (envelope_of_line json size n b.0 b.1) (plain_of_line json size n a)
  line-Agrees n (failed e st) = refl
  line-Agrees n (got s st v shows lt) = elim (Bool-cases (is_empty s.text)) [
    | inl empty ↦ rw empty refl
    | inr full ↦ rw full (header-Agrees n s.text st (json.envelope_header s.text) v)
  ]

  parse_sized-Agrees :
      (n : ℕ) (body : Bytes)
      → Agrees (parse_sized json size n body) (plain_envelope json size n body)
  unfolding parse_sized plain_envelope new_reader
  parse_sized-Agrees n body =
      line-Agrees n
        (read_line-LineRead size (new_reader size body) room (new_reader-IsReady size body))

-- On every body the buffered parser and the reference parser return the same error, or envelopes with
-- the same header, the same item headers in order, and the same payload for each item whose header
-- declares a length. The model's rounds never run out.
pub parse_envelope-Agrees :
    (json : Json) (body : Bytes)
    → Agrees
        (parse_envelope json body)
        (plain_envelope json (max_header_bytes + 1) max_envelope_items body)
unfolding parse_envelope
parse_envelope-Agrees json body =
    parse_sized-Agrees json (max_header_bytes + 1) (omega arith) (omega arith) max_envelope_items
      body
