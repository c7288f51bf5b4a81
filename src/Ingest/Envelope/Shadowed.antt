-- ===== src/Ingest/Envelope/Shadowed.antt =====
-- `ParseEnvelope` where a payload without a length is followed by another one that ends the body.
use serverless_error_ingest.Text.{Lacks}
use serverless_error_ingest.Json.{Json, EnvelopeHeader, ItemHeader}
use serverless_error_ingest.Ingest.Envelope.Steps.{
  IsPlain, next_item-line, next_item-last, next_item-end,
}
use serverless_error_ingest.Ingest.Envelope.Views.{at, zeros, read_line-first}
use serverless_error_ingest.Ingest.Envelope.{
  newline, max_item_bytes, max_header_bytes, view, RawItem, Item, resolve_item, read_items,
  parse_sized, parse_envelope,
}
use serverless_error_ingest.Base.{
  ℕ, zero, suc, ◌+◌, ◌≤◌, ◌<◌, ◌≡◌, refl, ap, ◌∙◌, List, [], ◌∷◌, ◌++◌, map, arith, Bytes, is_empty,
  ok, length, take, drop, length-append, take-append,
}

take-drop-append :
    (n m : ℕ) (xs ys : Bytes) → n + m ≤ length xs → take m (drop n (xs ++ ys)) ≡ take m (drop n xs)
take-drop-append zero zero xs ys h = refl
take-drop-append zero (suc m) [] ys h = absurd (omega arith)
take-drop-append zero (suc m) (x ∷ xs) ys h =
    ap (◌∷◌ x) (take-drop-append zero m xs ys (omega arith))
take-drop-append (suc n) m [] ys h = absurd (omega arith)
take-drop-append (suc n) m (x ∷ xs) ys h = take-drop-append n m xs ys (omega arith)

-- The lines of two items, the last one not ended.
abbrev pub item_lines : Bytes → Bytes → Bytes → Bytes → Bytes
item_lines line p other last = line ++ (newline ∷ (p ++ (newline ∷ (other ++ (newline ∷ last)))))

item_lines_length :
    (top line p other last : Bytes)
    → length (top ++ (newline ∷ item_lines line p other last))
      ≡ length top + length line + length p + length other + length last + 4
item_lines_length top line p other last =
    let fourth : Bytes = newline ∷ last in
    let third : Bytes = newline ∷ (other ++ fourth) in
    let second : Bytes = newline ∷ (p ++ third) in
    let first : Bytes = newline ∷ (line ++ second) in
    omega (
      arith,
      length-append {0} other fourth,
      length-append {0} p third,
      length-append {0} line second,
      length-append {0} top first,
    )

length-snoc : (l : Bytes) → length (l ++ (newline ∷ [])) ≡ length l + 1
length-snoc l = omega (arith, length-append {0} l (newline ∷ []))

module _ (json : Json) (size c d : ℕ) (line p other q : Bytes) (h k : ItemHeader)
    (first : IsPlain json line h) (second : IsPlain json other k) (one_line : Lacks newline p)
    (last_line : Lacks newline (d ∷ q)) (fits : length p ≤ max_item_bytes)
    (last_fits : length (d ∷ q) ≤ max_item_bytes) (room : length (d ∷ q) < size) where
  -- The two items.
  abbrev views_of : ℕ → List RawItem
  views_of n =
      record { header = record h { raw = line }; payload = view n (length p) }
      ∷ record { header = record k { raw = other }; payload = view 0 (length (d ∷ q)) }
      ∷ []

  read_items-two :
      (more : ℕ) (b a : Bytes)
      → (rest : Bytes) × (read_items json
            (suc (suc (suc more)))
            size
            (at b (item_lines line p other (d ∷ q)) a)
          ≡ ok (views_of (length (b ++ (line ++ (newline ∷ [])))), at [] [] ((d ∷ q) ++ rest)))
  unfolding read_items
  read_items-two more b a =
      let b1 = (b ++ (line ++ (newline ∷ []))) ++ (p ++ (newline ∷ [])) in
      let rest = drop (length (d ∷ q)) ((b1 ++ (other ++ (newline ∷ []))) ++ ((d ∷ q) ++ a)) in
      (
        rest,
        rw
            (
              next_item-line json size line h first b p (other ++ (newline ∷ (d ∷ q))) a one_line
                  fits,
              next_item-last json size other k second b1 a d q last_line last_fits room,
              next_item-end json size (d ∷ q) rest (omega arith),
            )
            refl,
      )

  -- What the two views show in the array that is left.
  views-shown :
      (n : ℕ) (rest : Bytes)
      → n + length p ≤ length (d ∷ q)
      → map (resolve_item ((d ∷ q) ++ rest)) (views_of n)
        ≡ record { header = record h { raw = line }; payload = take (length p) (drop n (d ∷ q)) }
          ∷ record { header = record k { raw = other }; payload = d ∷ q }
          ∷ []
  views-shown n rest covered = λ i.
      record {
        header = record h { raw = line };
        payload = take-drop-append n (length p) (d ∷ q) rest covered i;
      }
      ∷ record { header = record k { raw = other }; payload = take-append (d ∷ q) rest i }
      ∷ []

  abbrev shown : ℕ → List Item
  shown n =
      record { header = record h { raw = line }; payload = take (length p) (drop n (d ∷ q)) }
      ∷ record { header = record k { raw = other }; payload = d ∷ q }
      ∷ []

  parse_sized-two :
      (more : ℕ) (top : Bytes) (head : EnvelopeHeader)
      → Lacks newline (c ∷ top)
      → json.envelope_header (c ∷ top) ≡ ok head
      → length ((c ∷ top) ++ (newline ∷ item_lines line p other (d ∷ q))) ≤ size
      → length (c ∷ top) + length line + 2 + length p ≤ length (d ∷ q)
      → parse_sized json size
          (suc (suc (suc more)))
          ((c ∷ top) ++ (newline ∷ item_lines line p other (d ∷ q)))
        ≡ ok (record {
          header = record head { raw = c ∷ top };
          items = shown (length (c ∷ top) + length line + 2);
        })
  unfolding parse_sized is_empty
  parse_sized-two more top head top_line decoded whole covered =
      let b = (c ∷ top) ++ (newline ∷ []) in
      let (rest, read) =
        read_items-two more b
          (zeros size ((c ∷ top) ++ (newline ∷ item_lines line p other (d ∷ q)))) in
      let n = length (b ++ (line ++ (newline ∷ []))) in
      let n_is : n ≡ length (c ∷ top) + length line + 2 = omega (
        arith,
        length-append {0} b (line ++ (newline ∷ [])),
        length-snoc (c ∷ top),
        length-snoc line,
      ) in
      rw
        (read_line-first size c top (item_lines line p other (d ∷ q)) top_line whole, decoded, read)
        (ap
          (λ (items : List Item).
            ok (record { header = record head { raw = c ∷ top }; items = items }))
          (views-shown n rest (omega (arith, n_is, covered)) ∙ ap shown n_is))

-- Two items without a length whose header lines, and that of the envelope, are decoded, the second item
-- at the end of a body that fits the array and without a newline behind it: where that second payload is
-- at least as long as all that comes before the end of the first one, the first item is given out with
-- bytes of the second payload in place of its own, and without an error.
pub parse_envelope-overwritten :
    (json : Json) (c d : ℕ) (top line p other q : Bytes) (head : EnvelopeHeader) (h k : ItemHeader)
    → Lacks newline (c ∷ top)
    → json.envelope_header (c ∷ top) ≡ ok head
    → IsPlain json line h
    → IsPlain json other k
    → Lacks newline p
    → Lacks newline (d ∷ q)
    → length ((c ∷ top) ++ (newline ∷ item_lines line p other (d ∷ q))) ≤ max_header_bytes + 1
    → length (c ∷ top) + length line + 2 + length p ≤ length (d ∷ q)
    → parse_envelope json ((c ∷ top) ++ (newline ∷ item_lines line p other (d ∷ q)))
      ≡ ok (record {
        header = record head { raw = c ∷ top };
        items =
            record {
              header = record h { raw = line };
              payload = take (length p) (drop (length (c ∷ top) + length line + 2) (d ∷ q));
            }
            ∷ record { header = record k { raw = other }; payload = d ∷ q }
            ∷ [];
      })
unfolding parse_envelope parse_sized is_empty
parse_envelope-overwritten json c d top line p other q head h k one_line decoded first second plain
      last_line fits covered =
    let lengths = item_lines_length (c ∷ top) line p other (d ∷ q) in
    parse_sized-two json (max_header_bytes + 1) c d line p other q h k first second plain last_line
      (omega (arith, lengths, fits)) (omega (arith, lengths, fits)) (omega (arith, lengths, fits))
      97 top head one_line decoded fits covered
