-- ===== src/Ingest/Envelope/Items.antt =====
-- The loop over the items, and the whole parser, against the reference parser.
use serverless_error_ingest.Bufio.Laws.{IsReady}
use serverless_error_ingest.Bufio.{Reader, remaining, Slice}
use serverless_error_ingest.Json.{Json, ItemHeader}
use serverless_error_ingest.Ingest.Envelope.Lines.{LineRead, got, failed, read_line-LineRead}
use serverless_error_ingest.Ingest.Envelope.Plain.{
  plain_payload, plain_items, trailing, plain_round,
}
use serverless_error_ingest.Ingest.Envelope.Refines.{
  Known, PayloadRead, read, refused, read_payload-PayloadRead,
}
use serverless_error_ingest.Ingest.Envelope.{
  Item, LineError, eof, line_too_long, stalled, EnvelopeError, max_item_bytes, parsing_item,
  Payload, RawItem, with_payload, after_empty_line, item_of_header, next_item_of, next_item, go_on,
  read_items,
}
use serverless_error_ingest.Base.{
  ℕ, zero, suc, ◌≤◌, ◌<◌, inl, inr, List, [], ◌∷◌, Bool-cases, Bytes, is_empty, Result, ok, err,
  ◌>>=◌, map_err,
}

module _ (json : Json) (size : ℕ) (room : 0 < size) (known : Known size) where
  -- The items of the two parsers, one by one.
  pub data SameItems : List Item → List RawItem → Type 0 where
    nil : SameItems [] []
    cons :
        (h : ItemHeader) (p : Bytes) (q : Payload) {its : List Item} {raws : List RawItem}
        → known.Holds h.length q p
        → SameItems its raws
        → SameItems
            (record { header = h; payload = p } ∷ its)
            (record { header = h; payload = q } ∷ raws)

  pub data ItemsRead
      : Result EnvelopeError (List Item)
        → Result EnvelopeError (List RawItem × Reader)
        → Type 0 where
    all :
        (its : List Item) (raws : List RawItem) (st : Reader)
        → SameItems its raws
        → known.Keeps st
        → ItemsRead (ok its) (ok (raws, st))
    none_read : (e : EnvelopeError) → ItemsRead (err e) (err e)

  -- The rest of the loop, given that it agrees from every state.
  abbrev pub Later : ℕ → Type 0
  Later n =
      (st : Reader)
      → IsReady size st
      → known.Keeps st
      → ItemsRead (plain_items json size n (remaining st)) (read_items json n size st)

  add_item :
      (h : ItemHeader) (p : Bytes) (q : Payload)
      → known.Holds h.length q p
      → {a : Result EnvelopeError (List Item)} {b : Result EnvelopeError (List RawItem × Reader)}
      → ItemsRead a b
      → ItemsRead
          (a >>= λ its. ok (record { header = h; payload = p } ∷ its))
          (b >>= λ r. ok (record { header = h; payload = q } ∷ r.0, r.1))
  add_item h p q holds (all its raws st same k) = all _ _ st (cons h p q holds same) k
  add_item h p q holds (none_read e) = none_read e

  payload-ItemsRead :
      (n : ℕ) (h : ItemHeader)
      → Later n
      → {a : Result EnvelopeError (Bytes × Bytes)} {b : Result EnvelopeError Payload × Reader}
      → PayloadRead size room known h.length a b
      → ItemsRead
          (a >>= λ pr. plain_items json size n pr.1 >>= λ its.
            ok (record { header = h; payload = pr.0 } ∷ its))
          (go_on (read_items json n size) (with_payload h b.0) b.1)
  payload-ItemsRead n h later (read p q st holds v k) = add_item h p q holds (later st v k)
  payload-ItemsRead n h later (refused e st) = none_read e

  trailing-ItemsRead :
      (more : Reader → Result EnvelopeError (List RawItem × Reader))
      → {a : Result LineError (Bytes × Bytes)} {b : Result LineError Slice × Reader}
      → LineRead size a b
      → known.Keeps b.1
      → ItemsRead (trailing a) (go_on more (after_empty_line b.0) b.1)
  trailing-ItemsRead more (got s st v shows lt) k = none_read _
  trailing-ItemsRead more (failed eof st) k = all [] [] st nil k
  trailing-ItemsRead more (failed line_too_long st) k = none_read _
  trailing-ItemsRead more (failed stalled st) k = none_read _

  header-ItemsRead :
      (n : ℕ) (l : Bytes) (st : Reader) (r : Result Bytes ItemHeader)
      → size ≤ max_item_bytes
      → Later n
      → IsReady size st
      → known.Keeps st
      → ItemsRead
          (map_err parsing_item r >>= λ h. plain_payload size h.length (remaining st) >>= λ pr.
            plain_items json size n pr.1 >>= λ its.
            ok (record { header = record h { raw = l }; payload = pr.0 } ∷ its))
          (go_on
            (read_items json n size)
            (item_of_header size l r st).0
            (item_of_header size l r st).1)
  header-ItemsRead n l st (err e) le later v k = none_read _
  header-ItemsRead n l st (ok h) le later v k =
      payload-ItemsRead n (record h { raw = l }) later
        (read_payload-PayloadRead size room known h.length st v le k)

  round-ItemsRead :
      (n : ℕ)
      → size ≤ max_item_bytes
      → Later n
      → {a : Result LineError (Bytes × Bytes)} {b : Result LineError Slice × Reader}
      → LineRead size a b
      → known.Keeps b.1
      → ItemsRead (plain_round json size (plain_items json size n) a) (
          go_on
            (read_items json n size)
            (next_item_of json size b.0 b.1).0
            (next_item_of json size b.0 b.1).1)
  round-ItemsRead n le later (failed eof st) k = all [] [] st nil k
  round-ItemsRead n le later (failed line_too_long st) k = none_read _
  round-ItemsRead n le later (failed stalled st) k = none_read _
  round-ItemsRead n le later (got s st v shows lt) k = elim (Bool-cases (is_empty s.text)) [
    | inl empty ↦
        rw empty
          (trailing-ItemsRead _ (read_line-LineRead size st room v) (known.keeps_line st v k))
    | inr full ↦ rw full (header-ItemsRead n s.text st (json.item_header s.text) le later v k)
  ]

  pub read_items-ItemsRead : (n : ℕ) → size ≤ max_item_bytes → Later n
  unfolding plain_items read_items next_item
  read_items-ItemsRead zero le st v k = none_read _
  read_items-ItemsRead (suc n) le st v k =
      round-ItemsRead n le (read_items-ItemsRead n le) (read_line-LineRead size st room v)
        (known.keeps_line st v k)
