-- ===== src/Tests/Envelope.antt =====
-- Envelopes that fit a buffer of forty bytes, and the theorems on the parser at one body.
use serverless_error_ingest.Json.{ItemHeader}
use serverless_error_ingest.Ingest.Envelope.Bounded.{IsBounded, parse_envelope-IsBounded}
use serverless_error_ingest.Ingest.Envelope.Steps.{IsPlain}
use serverless_error_ingest.Ingest.Envelope.Shadowed.{parse_envelope-overwritten}
use serverless_error_ingest.Bufio.{read_slice, new_reader, fill, read_full, read, read_byte}
use serverless_error_ingest.Text.{cut_byte}
use serverless_error_ingest.Ingest.Envelope.{
  parse_sized, parse_envelope, Envelope, EnvelopeError, max_header_bytes, max_envelope_items,
  read_line, strip_newline, read_items, next_item, line_payload, sized_payload, line_of,
}
use serverless_error_ingest.Ingest.Envelope.Plain.{plain_envelope}
use serverless_error_ingest.Ingest.Envelope.Equivalence.{Agrees, parse_envelope-Agrees}
use serverless_error_ingest.Ingest.Envelope.Settled.{parse_envelope-plain}
use serverless_error_ingest.Tests.Samples.{plain_json}
use serverless_error_ingest.Base.{
  ◌+◌, ◌≡◌, refl, none, List, [], ◌∷◌, map, arith, Bytes, codes, is_empty, Result, ok, err,
}

abbrev payloads : Result EnvelopeError Envelope → List Bytes
payloads (ok e) = map (λ it. it.payload) e.items
payloads (err _) = []

-- A payload without a length, and one of three bytes that holds a newline.
abbrev terminated : Bytes
terminated = codes "h\nA\nfirst\n3B\nx\ny\n"

two_payloads : payloads (parse_sized plain_json 40 9 terminated) ≡ codes "first" ∷ codes "x\ny" ∷ []
unfolding parse_sized read_line read_slice cut_byte new_reader fill is_empty strip_newline
    read_items next_item line_payload sized_payload read_full read read_byte line_of
two_payloads = refl

-- Where the last line has no newline, the read that meets the end moves the window to the front of the
-- array, and so over the payload that is a view of it.
overwritten :
    payloads (parse_sized plain_json 40 9 (codes "h\nA\nfirst\nB\nsecond-long"))
    ≡ codes "nd-lo" ∷ codes "second-long" ∷ []
unfolding parse_sized read_line read_slice cut_byte new_reader fill is_empty strip_newline
    read_items next_item line_payload sized_payload read_full read read_byte line_of
overwritten = refl

parse_envelope-Agrees_example :
    Agrees
      (parse_envelope plain_json terminated)
      (plain_envelope plain_json (max_header_bytes + 1) max_envelope_items terminated)
parse_envelope-Agrees_example = parse_envelope-Agrees plain_json terminated

parse_envelope-plain_example :
    parse_envelope plain_json terminated
    ≡ plain_envelope plain_json (max_header_bytes + 1) max_envelope_items terminated
parse_envelope-plain_example = parse_envelope-plain plain_json terminated refl (omega arith)

-- Two payloads without a length, the second at the end of the body.
abbrev first_header : ItemHeader
first_header = record { type = codes "a"; length = none; raw = [] }

abbrev second_header : ItemHeader
second_header = record { type = codes "c"; length = none; raw = [] }

first-IsPlain : IsPlain plain_json (codes "a") first_header
unfolding is_empty
first-IsPlain = record {
  one_line = (omega arith, tt);
  not_empty = refl;
  decoded = refl;
  no_length = refl;
}

second-IsPlain : IsPlain plain_json (codes "c") second_header
unfolding is_empty
second-IsPlain = record {
  one_line = (omega arith, tt);
  not_empty = refl;
  decoded = refl;
  no_length = refl;
}

parse_envelope-overwritten_example :
    parse_envelope plain_json (codes "h\na\nb\nc\n012345")
    ≡ ok (record {
      header = record { dsn = codes "h"; raw = codes "h" };
      items =
          record { header = record first_header { raw = codes "a" }; payload = codes "4" }
          ∷ record { header = record second_header { raw = codes "c" }; payload = codes "012345" }
          ∷ [];
    })
parse_envelope-overwritten_example =
    parse_envelope-overwritten plain_json b'h' b'0' [] (codes "a") (codes "b") (codes "c")
      (codes "12345") (record { dsn = codes "h"; raw = [] }) first_header second_header
      (omega arith, tt) refl first-IsPlain second-IsPlain (omega arith, tt) (omega arith)
      (omega arith) (omega arith)

two_views : (env : Envelope) × (parse_envelope plain_json (codes "h\na\nb\nc\n012345") ≡ ok env)
two_views = (
  record {
    header = record { dsn = codes "h"; raw = codes "h" };
    items =
        record { header = record first_header { raw = codes "a" }; payload = codes "4" }
        ∷ record { header = record second_header { raw = codes "c" }; payload = codes "012345" }
        ∷ [];
  },
  parse_envelope-overwritten plain_json b'h' b'0' [] (codes "a") (codes "b") (codes "c")
      (codes "12345") (record { dsn = codes "h"; raw = [] }) first_header second_header
      (omega arith, tt) refl first-IsPlain second-IsPlain (omega arith, tt) (omega arith)
      (omega arith) (omega arith),
)

parse_envelope-IsBounded_example : IsBounded two_views.0
parse_envelope-IsBounded_example =
    parse_envelope-IsBounded plain_json (codes "h\na\nb\nc\n012345") two_views.0 two_views.1
