-- ===== src/Query/Cursor.antt =====
-- `encodeCursor` and `decodeCursor` of lambda/query/main.go.
pub mod RoundTrip
use serverless_error_ingest.Base.{
  Bool, Option, none, some, List, [], ◌∷◌, Bytes, Result, ok, err, ◌>>=◌,
}

-- `types.AttributeValue`: a string, or one of the other kinds.
pub data AttributeValue : Type 0 where
  text : Bytes → AttributeValue
  other : AttributeValue

-- encoding/json on the list of pairs, base64 without padding, and `utf8.Valid`.
pub record CursorCodec : Type 0 where
  pub pairs_text : List (Bytes × Bytes) → Bytes
  pub text_pairs : Bytes → Option (List (Bytes × Bytes))
  pub base64_text : Bytes → Bytes
  pub text_base64 : Bytes → Option Bytes
  pub is_utf8 : Bytes → Bool

pub data CursorError : Type 0 where
  unsupported_type : Bytes → CursorError
  not_base64 malformed : CursorError

-- The loop of `encodeCursor` over the entries, in the order in which the map is walked.
unfoldable pub encode_parts :
    List (Bytes × AttributeValue) → Result CursorError (List (Bytes × Bytes))
encode_parts [] = ok []
encode_parts ((k, other) ∷ key) = err (unsupported_type k)
encode_parts ((k, text v) ∷ key) = do parts ← encode_parts key; ok ((k, v) ∷ parts)

-- The loop of `decodeCursor`, which fills a map.
unfoldable pub decode_parts :
    List (Bytes × Bytes) → List (Bytes × AttributeValue) → List (Bytes × AttributeValue)
decode_parts [] key = key
decode_parts ((k, v) ∷ parts) key = decode_parts parts ((k, text v) ∷ key)

abbrev pub or_error {ℓ} : {A : Type ℓ} → CursorError → Option A → Result CursorError A
or_error e none = err e
or_error e (some a) = ok a

module _ (codec : CursorCodec) where
  -- `encodeCursor`
  unfoldable pub encode_cursor : List (Bytes × AttributeValue) → Result CursorError Bytes
  unfolding encode_parts
  encode_cursor key = do parts ← encode_parts key; ok (codec.base64_text (codec.pairs_text parts))

  -- `decodeCursor`
  unfoldable pub decode_cursor : Bytes → Result CursorError (List (Bytes × AttributeValue))
  unfolding decode_parts
  decode_cursor cursor = do
    raw ← or_error not_base64 (codec.text_base64 cursor)
    parts ← or_error malformed (codec.text_pairs raw)
    ok (decode_parts parts [])
