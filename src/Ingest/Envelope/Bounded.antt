-- ===== src/Ingest/Envelope/Bounded.antt =====
-- The bounds on an envelope that `ParseEnvelope` accepts.
use mathlib.Core.Path.{subst}
use serverless_error_ingest.Bufio.Bounds.{length-take-le, read_full-le}
use serverless_error_ingest.Bufio.{Reader, Slice, buffer, read_full, read_byte, new_reader}
use serverless_error_ingest.Json.{Json, EnvelopeHeader, ItemHeader}
use serverless_error_ingest.Ingest.Envelope.{
  newline, Envelope, LineError, eof, line_too_long, stalled, EnvelopeError, max_item_bytes,
  max_header_bytes, max_envelope_items, Payload, owned, view, RawItem, Round, finished, failed,
  item, followed_by, sized_payload, payload_of_line, read_line, line_payload, read_payload,
  after_empty_line, with_payload, item_of_header, next_item_of, next_item, go_on, read_items,
  resolve, resolve_item, resolved, parsing_header, envelope_of_line, parse_sized, parse_envelope,
}
use serverless_error_ingest.Base.{
  ℕ, zero, suc, ◌+◌, ◌≤◌, ◌<◌, ◌≡◌, inl, inr, Option, none, some, List, [], ◌∷◌, map, arith, ltb,
  ◌==◌, Bool-cases, Bytes, is_empty, Result, ok, err, ◌>>=◌, map_err, ℤ, pos, negsuc, length, drop,
  length-map, All,
}

-- A payload that a round gives is within the bound.
abbrev Fits : Payload → Type 0
Fits (owned p) = length p ≤ max_item_bytes
Fits (view offset n) = n ≤ max_item_bytes

abbrev OkFits : Result EnvelopeError Payload → Type 0
OkFits (err e) = Unit
OkFits (ok p) = Fits p

abbrev RoundFits : Round → Type 0
RoundFits finished = Unit
RoundFits (failed e) = Unit
RoundFits (item it) = Fits it.payload

followed_by-OkFits :
    (n : ℕ) (p : Bytes) (next : Option ℕ)
    → length p ≤ max_item_bytes
    → OkFits (followed_by n p next)
followed_by-OkFits n p none h = h
followed_by-OkFits n p (some c) h = elim (Bool-cases (c == newline)) [
  | inl e ↦ rw e h
  | inr ne ↦ rw ne (tt {0})
]

sized_payload-OkFits : (size n : ℕ) (st : Reader) → OkFits (sized_payload size n st).0
unfolding sized_payload
sized_payload-OkFits size n st =
    let got = read_full n size n st in
    elim (Bool-cases (ltb max_item_bytes n)) [
      | inl large ↦ rw large (tt {0})
      | inr within ↦ elim (Bool-cases (ltb (length got.0) n)) [
        | inl short ↦ rw (within, short) (tt {0})
        | inr full ↦
            let bound : n ≤ max_item_bytes = ground arith in
            rw (within, full)
              (followed_by-OkFits n got.0 (read_byte got.1).0
                (omega (arith, bound, read_full-le n size n st)))
      ]
    ]

payload_of_line-OkFits : (line : Result LineError Slice) → OkFits (payload_of_line line)
payload_of_line-OkFits (err e) = tt
payload_of_line-OkFits (ok s) = elim (Bool-cases (ltb max_item_bytes (length s.text))) [
  | inl large ↦ rw large (tt {0})
  | inr within ↦ rw within (ground arith)
]

read_payload-OkFits : (size : ℕ) (n : Option ℤ) (st : Reader) → OkFits (read_payload size n st).0
unfolding line_payload
read_payload-OkFits size none st = payload_of_line-OkFits (read_line size st).0
read_payload-OkFits size (some (pos n)) st = sized_payload-OkFits size n st
read_payload-OkFits size (some (negsuc n)) st = tt

with_payload-RoundFits :
    (h : ItemHeader) (p : Result EnvelopeError Payload) → OkFits p → RoundFits (with_payload h p)
with_payload-RoundFits h (err e) f = tt
with_payload-RoundFits h (ok p) f = f

after_empty_line-RoundFits : (line : Result LineError Slice) → RoundFits (after_empty_line line)
after_empty_line-RoundFits (err eof) = tt
after_empty_line-RoundFits (err line_too_long) = tt
after_empty_line-RoundFits (err stalled) = tt
after_empty_line-RoundFits (ok s) = tt

-- The items that are read are fewer than there is room for, each within the bound.
abbrev ItemsFit : ℕ → Result EnvelopeError (List RawItem × Reader) → Type 0
ItemsFit room (err e) = Unit
ItemsFit room (ok (its, last)) = (length its < room) × All (λ it. Fits it.payload) its

module _ (json : Json) (size : ℕ) where
  item_of_header-RoundFits :
      (raw : Bytes) (h : Result Bytes ItemHeader) (st : Reader)
      → RoundFits (item_of_header size raw h st).0
  item_of_header-RoundFits raw (err e) st = tt
  item_of_header-RoundFits raw (ok h) st =
      with_payload-RoundFits (record h { raw = raw }) (read_payload size h.length st).0
        (read_payload-OkFits size h.length st)

  next_item_of-RoundFits :
      (line : Result LineError Slice) (st : Reader) → RoundFits (next_item_of json size line st).0
  next_item_of-RoundFits (err eof) st = tt
  next_item_of-RoundFits (err line_too_long) st = tt
  next_item_of-RoundFits (err stalled) st = tt
  next_item_of-RoundFits (ok s) st = elim (Bool-cases (is_empty s.text)) [
    | inl none_ ↦ rw none_ (after_empty_line-RoundFits (read_line size st).0)
    | inr some_ ↦ rw some_ (item_of_header-RoundFits s.text (json.item_header s.text) st)
  ]

  next_item-RoundFits : (st : Reader) → RoundFits (next_item json size st).0
  unfolding next_item
  next_item-RoundFits st = next_item_of-RoundFits (read_line size st).0 (read_line size st).1

  item-ItemsFit :
      (room : ℕ) (it : RawItem) (r : Result EnvelopeError (List RawItem × Reader))
      → Fits it.payload
      → ItemsFit room r
      → ItemsFit (suc room) (do (its, last) ← r; ok (it ∷ its, last))
  item-ItemsFit room it (err e) f h = tt
  item-ItemsFit room it (ok (its, last)) f (fewer, all_fit) = (omega arith, (f, all_fit))

  go_on-ItemsFit :
      (room : ℕ) (more : Reader → Result EnvelopeError (List RawItem × Reader)) (round : Round)
      (st : Reader)
      → RoundFits round
      → ((st : Reader) → ItemsFit room (more st))
      → ItemsFit (suc room) (go_on more round st)
  go_on-ItemsFit room more finished st f h = (omega arith, tt)
  go_on-ItemsFit room more (failed e) st f h = tt
  go_on-ItemsFit room more (item it) st f h = item-ItemsFit room it (more st) f (h st)

  read_items-ItemsFit : (room : ℕ) (st : Reader) → ItemsFit room (read_items json room size st)
  unfolding read_items
  read_items-ItemsFit zero st = tt
  read_items-ItemsFit (suc room) st =
      go_on-ItemsFit room (read_items json room size) (next_item json size st).0
        (next_item json size st).1 (next_item-RoundFits st) (λ st. read_items-ItemsFit room st)

resolve-le : (array : Bytes) (p : Payload) → Fits p → length (resolve array p) ≤ max_item_bytes
resolve-le array (owned p) f = f
resolve-le array (view offset n) f = omega (arith, f, length-take-le n (drop offset array))

All-resolved :
    (array : Bytes) (its : List RawItem)
    → All (λ it. Fits it.payload) its
    → All (λ it. length it.payload ≤ max_item_bytes) (map (resolve_item array) its)
All-resolved array [] f = tt
All-resolved array (it ∷ its) (f, fs) = (resolve-le array it.payload f, All-resolved array its fs)

-- An envelope within the bounds.
pub record IsBounded (env : Envelope) : Type 0 where
  pub items : length env.items < max_envelope_items
  pub payloads : All (λ it. length it.payload ≤ max_item_bytes) env.items

abbrev OkBounded : Result EnvelopeError Envelope → Type 0
OkBounded (err e) = Unit
OkBounded (ok env) = IsBounded env

resolved-OkBounded :
    (h : EnvelopeHeader) (r : Result EnvelopeError (List RawItem × Reader))
    → ItemsFit max_envelope_items r
    → OkBounded (do its ← r; ok (resolved h its))
resolved-OkBounded h (err e) f = tt
resolved-OkBounded h (ok (its, last)) (fewer, fit) =
    let same : length (map (resolve_item (buffer last)) its) ≡ length its =
      length-map its (resolve_item (buffer last)) in
    record { items = omega (arith, fewer, same); payloads = All-resolved (buffer last) its fit }

module _ (json : Json) (size : ℕ) where
  header-OkBounded :
      (text : Bytes) (h : Result Bytes EnvelopeHeader) (st : Reader)
      → OkBounded (do
        h ← map_err parsing_header h
        its ← read_items json max_envelope_items size st
        ok (resolved (record h { raw = text }) its))
  header-OkBounded text (err e) st = tt
  header-OkBounded text (ok h) st =
      resolved-OkBounded (record h { raw = text }) (read_items json max_envelope_items size st)
        (read_items-ItemsFit json size max_envelope_items st)

  envelope_of_line-OkBounded :
      (line : Result LineError Slice) (st : Reader)
      → OkBounded (envelope_of_line json size max_envelope_items line st)
  envelope_of_line-OkBounded (err e) st = tt
  envelope_of_line-OkBounded (ok s) st = elim (Bool-cases (is_empty s.text)) [
    | inl none_ ↦ rw none_ (tt {0})
    | inr some_ ↦ rw some_ (header-OkBounded s.text (json.envelope_header s.text) st)
  ]

OkBounded-ok :
    (r : Result EnvelopeError Envelope) (env : Envelope) → OkBounded r → r ≡ ok env → IsBounded env
OkBounded-ok (err e) env h same = cc
OkBounded-ok (ok x) env h same = let e : x ≡ env = cc in subst IsBounded e h

-- An accepted envelope has at most 99 items, and no payload above 1048576 bytes, whatever the body is and
-- whatever lengths its item headers declare.
pub parse_envelope-IsBounded :
    (json : Json) (body : Bytes) (env : Envelope)
    → parse_envelope json body ≡ ok env
    → IsBounded env
unfolding parse_envelope parse_sized
parse_envelope-IsBounded json body env same =
    let (line, st) = read_line (max_header_bytes + 1) (new_reader (max_header_bytes + 1) body) in
    OkBounded-ok _ env (envelope_of_line-OkBounded json (max_header_bytes + 1) line st) same
