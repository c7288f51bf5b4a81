-- ===== src/Ingest/Texts.antt =====
-- The texts of the errors of lambda/ingest/envelope.go and compress.go, as a response shows them.
use serverless_error_ingest.Decimal.{decimal}
use serverless_error_ingest.Ingest.Compress.{
  DecompressError, too_large, codec, prefixed, unsupported,
}
use serverless_error_ingest.Ingest.Envelope.{
  LineError, eof, line_too_long, stalled, EnvelopeError, reading_header, header_empty,
  parsing_header, too_many_items, reading_item, item_empty, item_empty_before_content, parsing_item,
  negative_length, payload_too_large, short_payload, not_followed, implicit_payload,
  max_envelope_items, max_item_bytes,
}
use serverless_error_ingest.Base.{ℕ, zero, suc, ◌++◌, Bytes, codes}

-- `%q` of a text and of a byte.
pub record Quoting : Type 0 where
  pub quote : Bytes → Bytes
  pub quote_byte : ℕ → Bytes

abbrev pub line_error_text : LineError → Bytes
line_error_text eof = codes "EOF"
line_error_text line_too_long = codes "header or implicit payload line exceeds maximum size"
line_error_text stalled = codes "multiple Read calls return no data or error"

-- `io.ReadFull` fails with `io.EOF` where it has read nothing.
abbrev pub read_full_text : ℕ → Bytes
read_full_text zero = codes "EOF"
read_full_text (suc n) = codes "unexpected EOF"

module _ (quoting : Quoting) where
  unfoldable pub envelope_error_text : EnvelopeError → Bytes
  unfolding decimal
  envelope_error_text (reading_header e) = codes "reading envelope header: " ++ line_error_text e
  envelope_error_text header_empty = codes "envelope header line is empty"
  envelope_error_text (parsing_header e) = codes "parsing envelope header: " ++ e
  envelope_error_text too_many_items =
      codes "envelope exceeds maximum item count of " ++ decimal max_envelope_items
  envelope_error_text (reading_item e) = codes "reading item header: " ++ line_error_text e
  envelope_error_text item_empty = codes "empty item header line"
  envelope_error_text item_empty_before_content =
      codes "empty item header line before further content"
  envelope_error_text (parsing_item e) = codes "parsing item header: " ++ e
  envelope_error_text negative_length = codes "item header has negative length"
  envelope_error_text payload_too_large =
      codes "item payload exceeds maximum size of " ++ (decimal max_item_bytes ++ codes " bytes")
  envelope_error_text (short_payload n got) =
      codes "reading " ++ (decimal n ++ (codes "-byte payload: " ++ read_full_text got))
  envelope_error_text (not_followed n c) =
      codes "payload of length "
      ++ (decimal n
          ++ (codes " not followed by newline (got byte " ++ (quoting.quote_byte c ++ codes ")")))
  envelope_error_text (implicit_payload e) =
      codes "reading implicit-length payload: " ++ line_error_text e

  unfoldable pub decompress_error_text : DecompressError → Bytes
  decompress_error_text too_large = codes "decompressed payload exceeds maximum size"
  decompress_error_text (codec e) = e
  decompress_error_text (prefixed p e) = p ++ decompress_error_text e
  decompress_error_text (unsupported s) = codes "unsupported Content-Encoding " ++ quoting.quote s
