-- ===== src/Json.antt =====
-- What the handlers ask of `encoding/json`: decoding into the structs of lambda/ingest/envelope.go
-- and main.go, and encoding of the two response bodies. The decoder is a parameter of the model.
use serverless_error_ingest.Base.{Option, Bytes, Result, ℤ}

-- `EnvelopeHeader`
pub record EnvelopeHeader : Type 0 where
  pub dsn : Bytes
  pub raw : Bytes

-- `ItemHeader`; a nil `Length` is `none`.
pub record ItemHeader : Type 0 where
  pub type : Bytes
  pub length : Option ℤ
  pub raw : Bytes

-- `eventMeta`
pub record EventMeta : Type 0 where
  pub event_id : Bytes
  pub timestamp : Bytes
  pub level : Bytes
  pub platform : Bytes

-- `json.Unmarshal` of a header line gives the struct or the text of an error; that of an event is
-- used for the fields it could set, whether or not it failed. `detail` and `id` encode the objects
-- {"detail": …} and {"id": …}.
pub record Json : Type 0 where
  pub envelope_header : Bytes → Result Bytes EnvelopeHeader
  pub item_header : Bytes → Result Bytes ItemHeader
  pub event_meta : Bytes → EventMeta
  pub detail : Bytes → Bytes
  pub id : Bytes → Bytes
