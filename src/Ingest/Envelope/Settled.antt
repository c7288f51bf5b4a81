-- ===== src/Ingest/Envelope/Settled.antt =====
-- `ParseEnvelope` where the whole body is in the array and its last line is complete.
use mathlib.Core.Path.{subst}
use serverless_error_ingest.Text.{cut_byte}
use serverless_error_ingest.Bufio.Laws.{IsReady, Filled, full_array, drained, fill-Filled}
use serverless_error_ingest.Bufio.Settled.{
  EndsIn, IsSettled, read_slice-IsSettled, read_full-IsSettled, read_byte-IsSettled,
}
use serverless_error_ingest.Bufio.{Reader, buffer, remaining, Slice, new_reader, fill, read_slice}
use serverless_error_ingest.Json.{Json, EnvelopeHeader}
use serverless_error_ingest.Ingest.Envelope.Equivalence.{new_reader-IsReady}
use serverless_error_ingest.Ingest.Envelope.Items.{
  SameItems, nil, cons, ItemsRead, all, none_read, read_items-ItemsRead,
}
use serverless_error_ingest.Ingest.Envelope.Lines.{LineRead, got, failed, read_line-LineRead}
use serverless_error_ingest.Ingest.Envelope.Plain.{plain_items, plain_of_line, plain_envelope}
use serverless_error_ingest.Ingest.Envelope.Refines.{Known}
use serverless_error_ingest.Ingest.Envelope.{
  newline, Item, LineError, EnvelopeError, RawItem, max_item_bytes, parsing_header, resolve,
  resolve_item, resolved, read_line, envelope_of_line, read_items, parse_sized, parse_envelope,
  max_header_bytes, max_envelope_items,
}
use serverless_error_ingest.Base.{
  ℕ, ◌+◌, ◌≤◌, ◌<◌, ◌≡◌, refl, sym, ap, ◌∙◌, inl, inr, false, List, [], ◌∷◌, map, arith, leb,
  Bool-cases, Bytes, is_empty, Result, ok, err, ◌>>=◌, map_err, length, take, drop, replicate,
  length-replicate, take_all, drop_all,
}

module _ (size : ℕ) (room : 0 < size) (array : Bytes) where
  read_line-IsSettled :
      (st : Reader)
      → IsReady size st
      → IsSettled newline array st
      → IsSettled newline array (read_line size st).1
  unfolding read_line
  read_line-IsSettled st v k = read_slice-IsSettled newline array size 1 st room v k

  abbrev settled : Known size
  settled = record {
    Keeps = IsSettled newline array;
    Holds = λ n q p. resolve array q ≡ p;
    of_owned = λ n p. refl;
    of_view = λ s st k shows.
        subst (λ (t : Bytes). take (length s.text) (drop s.offset t) ≡ s.text) k.array_is shows;
    keeps_line = read_line-IsSettled;
    keeps_full = λ n st v k. read_full-IsSettled newline array size n n st k;
    keeps_byte = λ st v k. read_byte-IsSettled newline array st k;
  }

  module _ (json : Json) where
    resolved-eq :
        {its : List Item} {raws : List RawItem}
        → SameItems json size room settled its raws
        → map (resolve_item array) raws ≡ its
    resolved-eq nil = refl
    resolved-eq (cons h p q holds rest) =
        λ i. record { header = h; payload = holds i } ∷ resolved-eq rest i

    items-eq :
        (h : EnvelopeHeader)
        → {a : Result EnvelopeError (List Item)} {b : Result EnvelopeError (List RawItem × Reader)}
        → ItemsRead json size room settled a b
        → (b >>= λ its. ok (resolved h its))
          ≡ (a >>= λ its. ok (record { header = h; items = its }))
    items-eq h (all its raws st same k) =
        ap (λ (xs : List Item). ok (record { header = h; items = xs }))
          (ap (λ (t : Bytes). map (resolve_item t) raws) k.array_is ∙ resolved-eq same)
    items-eq h (none_read e) = refl

-- The state after the first `b.fill`.
fill_new-IsSettled :
    (size c : ℕ) (s : Bytes)
    → EndsIn newline (c ∷ s)
    → length (c ∷ s) ≤ size
    → IsSettled newline (buffer (fill (new_reader size (c ∷ s)))) (fill (new_reader size (c ∷ s)))
unfolding fill new_reader
fill_new-IsSettled size c s e le =
    let fits : length (c ∷ s) ≤ length (replicate size 0) =
      omega (arith, length-replicate {0} {A = ℕ} size 0) in
    record {
      drained = drop_all (length (replicate size 0)) (c ∷ s) fits;
      closed = subst (EndsIn newline) (sym (take_all (length (replicate size 0)) (c ∷ s) fits)) e;
      array_is = refl;
    }

-- The first read begins with a fill.
first_slice :
    (size : ℕ) (body : Bytes)
    → 0 < size
    → read_slice 3 size newline (new_reader size body)
      ≡ read_slice 2 size newline (fill (new_reader size body))
unfolding read_slice new_reader cut_byte
first_slice size body room = let small : leb size 0 ≡ false = ground arith in rw (small, read_slice)

Filled-IsReady : (size d : ℕ) {st : Reader} → Filled size d st → IsReady size st
Filled-IsReady size d (full_array v le) = v
Filled-IsReady size d (drained v e) = v

pub first_line-IsSettled :
    (size : ℕ) (body : Bytes)
    → 0 < size
    → EndsIn newline body
    → length body ≤ size
    → (array : Bytes) × IsSettled newline array (read_line size (new_reader size body)).1
unfolding read_line
first_line-IsSettled size [] room e le = (
  buffer (new_reader size []),
  read_slice-IsSettled newline _ size 1 (new_reader size []) room (new_reader-IsReady size [])
      (unfold new_reader in record { drained = refl; closed = tt; array_is = refl }),
)
first_line-IsSettled size (c ∷ s) room e le =
    let full = fill (new_reader size (c ∷ s)) in
    let v : IsReady size full = Filled-IsReady size newline (
      fill-Filled size newline (new_reader size (c ∷ s)) c s (new_reader-IsReady size (c ∷ s))
        (unfold new_reader in refl)) in
    (
      buffer full,
      subst (λ r. IsSettled newline (buffer full) r.1) (sym (first_slice size (c ∷ s) room))
          (read_slice-IsSettled newline (buffer full) size 0 full room v
            (fill_new-IsSettled size c s e le)),
    )

module _ (json : Json) (size : ℕ) (room : 0 < size) (le : size ≤ max_item_bytes) where
  header-eq :
      (array : Bytes) (n : ℕ) (l : Bytes) (st : Reader) (r : Result Bytes EnvelopeHeader)
      → IsReady size st
      → IsSettled newline array st
      → (map_err parsing_header r >>= λ h.
          read_items json n size st >>= λ its. ok (resolved (record h { raw = l }) its))
        ≡ (map_err parsing_header r >>= λ h. plain_items json size n (remaining st) >>= λ its.
            ok (record { header = record h { raw = l }; items = its }))
  header-eq array n l st (err e) v k = refl
  header-eq array n l st (ok h) v k =
      items-eq size room array json (record h { raw = l })
        (read_items-ItemsRead json size room (settled size room array) n le st v k)

  line-eq :
      (array : Bytes) (n : ℕ)
      → {a : Result LineError (Bytes × Bytes)} {b : Result LineError Slice × Reader}
      → LineRead size a b
      → IsSettled newline array b.1
      → envelope_of_line json size n b.0 b.1 ≡ plain_of_line json size n a
  line-eq array n (failed e st) k = refl
  line-eq array n (got s st v shows lt) k = elim (Bool-cases (is_empty s.text)) [
    | inl empty ↦ rw empty refl
    | inr full ↦ rw full (header-eq array n s.text st (json.envelope_header s.text) v k)
  ]

  parse_sized-settled :
      (n : ℕ) (body : Bytes)
      → EndsIn newline body
      → length body ≤ size
      → parse_sized json size n body ≡ plain_envelope json size n body
  unfolding parse_sized plain_envelope
  parse_sized-settled n body e fits =
      let (array, k) = first_line-IsSettled size body room e fits in
      let line =
        read_line-LineRead size (new_reader size body) room (new_reader-IsReady size body) in
      unfold new_reader in line-eq array n line k

-- A body of at most 16385 bytes whose last byte is a newline is parsed as by the reference parser, the
-- payloads of items without a length included.
pub parse_envelope-plain :
    (json : Json) (body : Bytes)
    → EndsIn newline body
    → length body ≤ max_header_bytes + 1
    → parse_envelope json body ≡ plain_envelope json (max_header_bytes + 1) max_envelope_items body
unfolding parse_envelope
parse_envelope-plain json body e fits =
    parse_sized-settled json (max_header_bytes + 1) (omega arith) (omega arith) max_envelope_items
      body e fits
