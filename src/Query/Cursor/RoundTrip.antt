-- ===== src/Query/Cursor/RoundTrip.antt =====
-- `decodeCursor` on what `encodeCursor` makes.
use mathlib.Core.Path.{subst}
use serverless_error_ingest.Http.{lookup}
use serverless_error_ingest.Query.Cursor.{
  AttributeValue, text, other, CursorCodec, encode_parts, decode_parts, encode_cursor,
  decode_cursor,
}
use serverless_error_ingest.Base.{
  ◌≡◌, refl, sym, ap, ◌∙◌, ◌≢◌, inl, inr, true, Option, none, some, List, [], ◌∷◌, Bool-cases,
  Bytes, equal, equal_iff, ok, bind-ok,
}

abbrev pub AreTexts : CursorCodec → List (Bytes × Bytes) → Type 0
AreTexts codec [] = Unit
AreTexts codec ((k, v) ∷ parts) =
    (codec.is_utf8 k ≡ true) × (codec.is_utf8 v ≡ true) × AreTexts codec parts

-- Every name and every string of a key is UTF-8, as DynamoDB's are.
abbrev pub IsText : CursorCodec → List (Bytes × AttributeValue) → Type 0
IsText codec [] = Unit
IsText codec ((k, other) ∷ key) = IsText codec key
IsText codec ((k, text v) ∷ key) =
    (codec.is_utf8 k ≡ true) × (codec.is_utf8 v ≡ true) × IsText codec key

-- What is asked of encoding/json and base64: reading gives back what was written, as long as it is UTF-8,
-- and the text of a list is not empty.
pub record IsCodec (codec : CursorCodec) : Type 0 where
  pub pairs_back :
      (parts : List (Bytes × Bytes))
      → AreTexts codec parts
      → codec.text_pairs (codec.pairs_text parts) ≡ some parts
  pub not_empty : (parts : List (Bytes × Bytes)) → codec.base64_text (codec.pairs_text parts) ≢ []
  pub base64_back : (s : Bytes) → codec.text_base64 (codec.base64_text s) ≡ some s

-- The entries of a map: no key stands twice.
abbrev pub IsMap {ℓ} : {A : Type ℓ} → List (Bytes × A) → Type ℓ
IsMap [] = Unit
IsMap ((k, v) ∷ m) = (lookup k m ≡ none) × IsMap m

abbrev first_of {ℓ} : {A : Type ℓ} → Option A → Option A → Option A
first_of none y = y
first_of (some x) y = some x

first_of-none {ℓ} : {A : Type ℓ} (x : Option A) → first_of x none ≡ x
first_of-none none = refl
first_of-none (some x) = refl

texts : List (Bytes × Bytes) → List (Bytes × AttributeValue)
texts [] = []
texts ((k, v) ∷ parts) = (k, text v) ∷ texts parts

lookup-decode_parts :
    (k : Bytes) (parts : List (Bytes × Bytes)) (key : List (Bytes × AttributeValue))
    → IsMap (texts parts)
    → lookup k (decode_parts parts key) ≡ first_of (lookup k (texts parts)) (lookup k key)
unfolding lookup decode_parts texts
lookup-decode_parts k [] key v = refl
lookup-decode_parts k ((j, x) ∷ parts) key v =
    let rest = lookup-decode_parts k parts ((j, text x) ∷ key) v.1 in
    elim (Bool-cases (equal j k)) [
      | inl same ↦
          let here : lookup k (texts parts) ≡ none = rw (← (equal_iff j k).0 same) v.0 in
          rw (rest, same, here) refl
      | inr differs ↦ rw (rest, differs) refl
    ]

encode_parts-texts :
    (key : List (Bytes × AttributeValue)) (parts : List (Bytes × Bytes))
    → encode_parts key ≡ ok parts
    → key ≡ texts parts
unfolding encode_parts texts
encode_parts-texts [] parts e = let same : [] ≡ parts = cc in rw (← same) refl
encode_parts-texts ((k, other) ∷ key) parts e = cc
encode_parts-texts ((k, text v) ∷ key) parts e =
    let (rest, made, whole) = bind-ok (encode_parts key) (λ rest. ok ((k, v) ∷ rest)) parts e in
    let same : ((k, v) ∷ rest) ≡ parts = cc in rw (← same, encode_parts-texts key rest made) refl

IsText-AreTexts :
    (codec : CursorCodec) (parts : List (Bytes × Bytes))
    → IsText codec (texts parts)
    → AreTexts codec parts
unfolding texts
IsText-AreTexts codec [] h = h
IsText-AreTexts codec ((k, v) ∷ parts) (a, b, h) = (a, b, IsText-AreTexts codec parts h)

-- Whatever cursor a key of UTF-8 texts is encoded to is decoded to a map with the same entries, in
-- whichever order the key's map was walked.
pub decode_cursor-encode_cursor :
    (codec : CursorCodec) (key : List (Bytes × AttributeValue)) (cursor : Bytes)
    → IsCodec codec
    → IsMap key
    → IsText codec key
    → encode_cursor codec key ≡ ok cursor
    → (back : List (Bytes × AttributeValue)) × (decode_cursor codec cursor ≡ ok back)
      × ((k : Bytes) → lookup k back ≡ lookup k key)
unfolding encode_cursor decode_cursor lookup
decode_cursor-encode_cursor codec key cursor c v t e =
    let (parts, made, written) =
      bind-ok (encode_parts key) (λ parts. ok (codec.base64_text (codec.pairs_text parts))) cursor
        e in
    let same : codec.base64_text (codec.pairs_text parts) ≡ cursor = cc in
    let shape = encode_parts-texts key parts made in
    (
      decode_parts parts [],
      rw
          (
            ← same,
            c.base64_back,
            c.pairs_back parts (IsText-AreTexts codec parts (subst (λ m. IsText codec m) shape t)),
          )
          refl,
      λ k.
          lookup-decode_parts k parts [] (subst (λ m. IsMap m) shape v)
          ∙ first_of-none (lookup k (texts parts))
          ∙ ap (lookup k) (sym shape),
    )

-- A cursor is not the empty text, which stands for none.
pub encode_cursor-ne-nil :
    (codec : CursorCodec) (key : List (Bytes × AttributeValue)) (cursor : Bytes)
    → IsCodec codec
    → encode_cursor codec key ≡ ok cursor
    → cursor ≢ []
unfolding encode_cursor
encode_cursor-ne-nil codec key cursor c e nil =
    let (parts, made, written) =
      bind-ok (encode_parts key) (λ parts. ok (codec.base64_text (codec.pairs_text parts))) cursor
        e in
    let same : codec.base64_text (codec.pairs_text parts) ≡ cursor = cc in
    c.not_empty parts (same ∙ nil)
