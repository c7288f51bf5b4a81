-- ===== src/Ingest/Envelope/Plain.antt =====
-- The reference parser: the grammar of docs/COMPATIBILITY.md section 4 on a plain list of bytes, with
-- the limits of lambda/ingest/envelope.go, and no buffer.
use serverless_error_ingest.Text.{cut_byte}
use serverless_error_ingest.Json.{Json}
use serverless_error_ingest.Ingest.Envelope.{
  newline, max_item_bytes, Item, LineError, eof, line_too_long, EnvelopeError, too_many_items,
  reading_item, item_empty, item_empty_before_content, parsing_item, negative_length,
  payload_too_large, short_payload, not_followed, implicit_payload, reading_header, header_empty,
  parsing_header, Envelope,
}
use serverless_error_ingest.Base.{
  ℕ, zero, suc, Option, none, some, List, [], ◌∷◌, ltb, ◌==◌, if◌then◌else◌, Bytes, is_empty,
  Result, ok, err, ◌>>=◌, map_err, ℤ, pos, negsuc, length, take, drop,
}

-- The last line may lack its newline.
abbrev pub last_line : ℕ → Bytes → Result LineError (Bytes × Bytes)
last_line size [] = err eof
last_line size (c ∷ s) = if ltb (length (c ∷ s)) size then ok (c ∷ s, []) else err line_too_long

-- A line of fewer than `size` bytes, and what follows it.
unfoldable pub next_line : ℕ → Bytes → Result LineError (Bytes × Bytes)
next_line size s = elim (cut_byte newline s) [
  | some (l, r) ↦ if ltb (length l) size then ok (l, r) else err line_too_long
  | none ↦ last_line size s
]

abbrev pub separator : ℕ → Bytes → Bytes → Result EnvelopeError (Bytes × Bytes)
separator n p [] = ok (p, [])
separator n p (c ∷ r) = if c == newline then ok (p, r) else err (not_followed n c)

unfoldable pub plain_payload : ℕ → Option ℤ → Bytes → Result EnvelopeError (Bytes × Bytes)
plain_payload size none s = map_err implicit_payload (next_line size s)
plain_payload size (some (negsuc n)) s = err negative_length
plain_payload size (some (pos n)) s =
    if ltb max_item_bytes n
    then err payload_too_large
    else if ltb (length s) n
    then err (short_payload n (length s))
    else separator n (take n s) (drop n s)

-- The optional newline at the end of the envelope.
abbrev pub trailing : Result LineError (Bytes × Bytes) → Result EnvelopeError (List Item)
trailing (err eof) = ok []
trailing (err e) = err (reading_item e)
trailing (ok (l, r)) = err (if is_empty l then item_empty else item_empty_before_content)

module _ (json : Json) (size : ℕ) where
  -- One round on the next line, where `more` reads the other items.
  abbrev pub plain_round :
      (Bytes → Result EnvelopeError (List Item))
      → Result LineError (Bytes × Bytes)
      → Result EnvelopeError (List Item)
  plain_round more (err eof) = ok []
  plain_round more (err e) = err (reading_item e)
  plain_round more (ok (l, r)) = if is_empty l then trailing (next_line size r) else (do
    h ← map_err parsing_item (json.item_header l)
    (p, r') ← plain_payload size h.length r
    its ← more r'
    ok (record { header = record h { raw = l }; payload = p } ∷ its))

  unfoldable pub plain_items : ℕ → Bytes → Result EnvelopeError (List Item)
  plain_items zero s = err too_many_items
  plain_items (suc room) s = plain_round (plain_items room) (next_line size s)

  abbrev pub plain_of_line : ℕ → Result LineError (Bytes × Bytes) → Result EnvelopeError Envelope
  plain_of_line room (err e) = err (reading_header e)
  plain_of_line room (ok (l, r)) = do
    _ ← if is_empty l then err header_empty else ok (tt {0})
    h ← map_err parsing_header (json.envelope_header l)
    its ← plain_items room r
    ok (record { header = record h { raw = l }; items = its })

  unfoldable pub plain_envelope : ℕ → Bytes → Result EnvelopeError Envelope
  plain_envelope room body = plain_of_line room (next_line size body)
