-- ===== src/Ingest/Envelope.antt =====
-- The envelope parser of lambda/ingest/envelope.go, over the buffered reader with its views.
pub mod Plain
pub mod Lines
pub mod Refines
pub mod Items
pub mod Equivalence
pub mod Settled
pub mod Views
pub mod Steps
pub mod Shadowed
pub mod Bounded
use serverless_error_ingest.Bufio.{
  Reader, buffer, Slice, ReadSlice, found, ended, buffer_full, no_progress, read_slice, max_rounds,
  read_full, read_byte, new_reader,
}
use serverless_error_ingest.Json.{Json, EnvelopeHeader, ItemHeader}
use serverless_error_ingest.Base.{
  ℕ, zero, suc, ◌+◌, Bool, true, false, Option, none, some, List, [], ◌∷◌, map, ltb, ◌==◌,
  if◌then◌else◌, Bytes, is_empty, Result, ok, err, ◌>>=◌, map_err, ℤ, pos, negsuc, length, take,
  drop,
}

abbrev pub newline : ℕ
newline = b'\n'

abbrev pub max_envelope_items : ℕ
max_envelope_items = 100

abbrev pub max_header_bytes : ℕ
max_header_bytes = 16384

abbrev pub max_item_bytes : ℕ
max_item_bytes = 1048576

-- `Item` and `Envelope`
pub record Item : Type 0 where
  pub header : ItemHeader
  pub payload : Bytes

pub record Envelope : Type 0 where
  pub header : EnvelopeHeader
  pub items : List Item

-- What `readLine` returns as its error; `stalled` is no error of Go's but the model's rounds.
pub data LineError : Type 0 where
  eof line_too_long stalled : LineError

-- The errors of `ParseEnvelope`, one for each `return nil, …`.
pub data EnvelopeError : Type 0 where
  reading_header : LineError → EnvelopeError
  header_empty : EnvelopeError
  parsing_header : Bytes → EnvelopeError
  too_many_items : EnvelopeError
  reading_item : LineError → EnvelopeError
  item_empty : EnvelopeError
  item_empty_before_content : EnvelopeError
  parsing_item : Bytes → EnvelopeError
  negative_length : EnvelopeError
  payload_too_large : EnvelopeError
  short_payload : ℕ → ℕ → EnvelopeError
  not_followed : ℕ → ℕ → EnvelopeError
  implicit_payload : LineError → EnvelopeError

-- `line[len(line)-1] == '\n'`, and the line without it.
unfoldable pub strip_newline : Bytes → Bytes × Bool
strip_newline [] = ([], false)
strip_newline (c ∷ []) = if c == newline then ([], true) else (c ∷ [], false)
strip_newline (c ∷ d ∷ s) = let (t, b) = strip_newline (d ∷ s) in (c ∷ t, b)

abbrev pub stripped : Slice → Slice
stripped s = record s { text = (strip_newline s.text).0 }

-- `readLine`; the flag `terminatedByNewline` is not used by its callers.
unfoldable pub line_of : ReadSlice → Result LineError Slice
line_of buffer_full = err line_too_long
line_of no_progress = err stalled
line_of (found s) =
    if is_empty s.text then ok (record { offset = 0; text = [] }) else ok (stripped s)
line_of (ended s) = if is_empty s.text then err eof else ok (stripped s)

unfoldable pub read_line : ℕ → Reader → Result LineError Slice × Reader
unfolding line_of
read_line size st = let (line, st') = read_slice max_rounds size newline st in (line_of line, st')

-- A payload of its own, or a view of the reader's array, which later reads can change.
pub data Payload : Type 0 where
  owned : Bytes → Payload
  view : ℕ → ℕ → Payload

pub record RawItem : Type 0 where
  pub header : ItemHeader
  pub payload : Payload

-- The byte behind a payload of `n` bytes must be a newline, or the end of the input.
abbrev pub followed_by : ℕ → Bytes → Option ℕ → Result EnvelopeError Payload
followed_by n p none = ok (owned p)
followed_by n p (some c) = if c == newline then ok (owned p) else err (not_followed n c)

-- `payload = make([]byte, n)`, `io.ReadFull`, and the byte behind.
unfoldable pub sized_payload : ℕ → ℕ → Reader → Result EnvelopeError Payload × Reader
sized_payload size n st =
    if ltb max_item_bytes n
    then (err payload_too_large, st)
    else (let (p, st') = read_full n size n st in
        if ltb (length p) n
        then (err (short_payload n (length p)), st')
        else (let (next, last) = read_byte st' in (followed_by n p next, last)))

abbrev pub payload_of_line : Result LineError Slice → Result EnvelopeError Payload
payload_of_line (err e) = err (implicit_payload e)
payload_of_line (ok s) =
    if ltb max_item_bytes (length s.text)
    then err payload_too_large
    else ok (view s.offset (length s.text))

-- `payload, _, err = readLine(br)`, kept without a copy.
unfoldable pub line_payload : ℕ → Reader → Result EnvelopeError Payload × Reader
line_payload size st = let (line, st') = read_line size st in (payload_of_line line, st')

abbrev pub read_payload : ℕ → Option ℤ → Reader → Result EnvelopeError Payload × Reader
read_payload size none st = line_payload size st
read_payload size (some (pos n)) st = sized_payload size n st
read_payload size (some (negsuc n)) st = (err negative_length, st)

-- One round of the loop: `break`, `return nil, err`, or one more item.
pub data Round : Type 0 where
  finished : Round
  failed : EnvelopeError → Round
  item : RawItem → Round

-- An empty line ends the envelope if nothing follows it.
abbrev pub after_empty_line : Result LineError Slice → Round
after_empty_line (err eof) = finished
after_empty_line (err e) = failed (reading_item e)
after_empty_line (ok s) = failed (if is_empty s.text then item_empty else item_empty_before_content)

abbrev pub with_payload : ItemHeader → Result EnvelopeError Payload → Round
with_payload header (ok p) = item (record { header = header; payload = p })
with_payload header (err e) = failed e

-- A round on a header line that is not empty, once it is decoded.
abbrev pub item_of_header : ℕ → Bytes → Result Bytes ItemHeader → Reader → Round × Reader
item_of_header size raw (err e) st = (failed (parsing_item e), st)
item_of_header size raw (ok h) st =
    let (payload, st') = read_payload size h.length st in
    (with_payload (record h { raw = raw }) payload, st')

-- The end of a round, where `more` is the rest of the loop.
abbrev pub go_on :
    (Reader → Result EnvelopeError (List RawItem × Reader))
    → Round
    → Reader
    → Result EnvelopeError (List RawItem × Reader)
go_on more finished st = ok ([], st)
go_on more (failed e) st = err e
go_on more (item it) st = do (its, last) ← more st; ok (it ∷ its, last)

module _ (json : Json) where
  abbrev pub item_of_line : ℕ → Bytes → Reader → Round × Reader
  item_of_line size line st =
      if is_empty line
      then (let (more, last) = read_line size st in (after_empty_line more, last))
      else item_of_header size line (json.item_header line) st

  abbrev pub next_item_of : ℕ → Result LineError Slice → Reader → Round × Reader
  next_item_of size (err eof) st = (finished, st)
  next_item_of size (err e) st = (failed (reading_item e), st)
  next_item_of size (ok s) st = item_of_line size s.text st

  unfoldable pub next_item : ℕ → Reader → Round × Reader
  next_item size st = let (line, st') = read_line size st in next_item_of size line st'

  -- The loop, with the number of items that the envelope may still take.
  unfoldable pub read_items : ℕ → ℕ → Reader → Result EnvelopeError (List RawItem × Reader)
  read_items zero size st = err too_many_items
  read_items (suc room) size st =
      let (round, st') = next_item size st in go_on (read_items room size) round st'

-- What a payload shows once the parser is done with the array.
abbrev pub resolve : Bytes → Payload → Bytes
resolve array (owned p) = p
resolve array (view offset n) = take n (drop offset array)

abbrev pub resolve_item : Bytes → RawItem → Item
resolve_item array it = record { header = it.header; payload = resolve array it.payload }

abbrev pub resolved : EnvelopeHeader → List RawItem × Reader → Envelope
resolved h (its, last) = record { header = h; items = map (resolve_item (buffer last)) its }

module _ (json : Json) where
  abbrev pub envelope_of_line :
      ℕ → ℕ → Result LineError Slice → Reader → Result EnvelopeError Envelope
  envelope_of_line size room (err e) st = err (reading_header e)
  envelope_of_line size room (ok s) st = do
    _ ← if is_empty s.text then err header_empty else ok (tt {0})
    h ← map_err parsing_header (json.envelope_header s.text)
    its ← read_items json room size st
    ok (resolved (record h { raw = s.text }) its)

  -- `ParseEnvelope` with a buffer of `size` bytes and room for `room` items.
  unfoldable pub parse_sized : ℕ → ℕ → Bytes → Result EnvelopeError Envelope
  parse_sized size room body =
      let (line, st) = read_line size (new_reader size body) in envelope_of_line size room line st

  unfoldable pub parse_envelope : Bytes → Result EnvelopeError Envelope
  unfolding parse_sized
  parse_envelope body = parse_sized (max_header_bytes + 1) max_envelope_items body
