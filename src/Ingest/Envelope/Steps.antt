-- ===== src/Ingest/Envelope/Steps.antt =====
-- A round of the parser's loop on an item without a length, over `readLine` on a full array.
use serverless_error_ingest.Text.{Lacks}
use serverless_error_ingest.Json.{Json, ItemHeader}
use serverless_error_ingest.Ingest.Envelope.Views.{
  at, read_line-line, read_line-last, read_line-end,
}
use serverless_error_ingest.Ingest.Envelope.{
  newline, max_item_bytes, view, finished, item, with_payload, line_payload, next_item,
}
use serverless_error_ingest.Base.{
  ℕ, ◌≤◌, ◌<◌, ◌≡◌, refl, false, none, [], ◌∷◌, ◌++◌, arith, ltb, Bytes, is_empty, ok, length, drop,
}

-- A line of an item's header that is decoded to one without a length.
pub record IsPlain (json : Json) (line : Bytes) (h : ItemHeader) : Type 0 where
  pub one_line : Lacks newline line
  pub not_empty : is_empty line ≡ false
  pub decoded : json.item_header line ≡ ok h
  pub no_length : h.length ≡ none

module _ (json : Json) (size : ℕ) (line : Bytes) (h : ItemHeader)
    (plain : IsPlain json line h) where
  next_item-header :
      (b r a : Bytes)
      → next_item json size (at b (line ++ (newline ∷ r)) a) ≡ (
        with_payload
            (record h { raw = line })
            (line_payload size (at (b ++ (line ++ (newline ∷ []))) r a)).0,
        (line_payload size (at (b ++ (line ++ (newline ∷ []))) r a)).1,
      )
  unfolding next_item
  next_item-header b r a =
      rw
        (
          read_line-line size b line r a plain.one_line,
          plain.not_empty,
          plain.decoded,
          plain.no_length,
        )
        refl

  -- A payload that a newline ends is a view of where it stands.
  pub next_item-line :
      (b p r a : Bytes)
      → Lacks newline p
      → length p ≤ max_item_bytes
      → next_item json size (at b (line ++ (newline ∷ (p ++ (newline ∷ r)))) a) ≡ (
        item (record {
          header = record h { raw = line };
          payload = view (length (b ++ (line ++ (newline ∷ [])))) (length p);
        }),
        at ((b ++ (line ++ (newline ∷ []))) ++ (p ++ (newline ∷ []))) r a,
      )
  unfolding line_payload
  next_item-line b p r a one_line fits =
      let small : ltb max_item_bytes (length p) ≡ false = ground arith in
      rw
        (
          next_item-header b (p ++ (newline ∷ r)) a,
          read_line-line size (b ++ (line ++ (newline ∷ []))) p r a one_line,
          small,
        )
        refl

  -- The one that ends the body is a view of the start of the array.
  pub next_item-last :
      (b a : Bytes) (c : ℕ) (p : Bytes)
      → Lacks newline (c ∷ p)
      → length (c ∷ p) ≤ max_item_bytes
      → length (c ∷ p) < size
      → next_item json size (at b (line ++ (newline ∷ (c ∷ p))) a) ≡ (
        item (record { header = record h { raw = line }; payload = view 0 (length (c ∷ p)) }),
        at (c ∷ p) [] (drop (length (c ∷ p)) ((b ++ (line ++ (newline ∷ []))) ++ ((c ∷ p) ++ a))),
      )
  unfolding line_payload
  next_item-last b a c p one_line fits room =
      let small : ltb max_item_bytes (length (c ∷ p)) ≡ false = ground arith in
      rw
        (
          next_item-header b (c ∷ p) a,
          read_line-last size (b ++ (line ++ (newline ∷ []))) a c p one_line room,
          small,
        )
        refl

pub next_item-end :
    (json : Json) (size : ℕ) (b a : Bytes)
    → 0 < size
    → next_item json size (at b [] a) ≡ (finished, at [] [] (b ++ a))
unfolding next_item
next_item-end json size b a room = rw (read_line-end size b a room) refl
