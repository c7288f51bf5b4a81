-- ===== src/Tests/Codec.antt =====
-- A codec of cursors to run the model with: each text ends in 0, and its bytes are one higher.
use serverless_error_ingest.Query.Cursor.{CursorCodec}
use serverless_error_ingest.Query.Cursor.RoundTrip.{IsCodec}
use mathlib.Core.List.{cons-ne-nil}
use serverless_error_ingest.Base.{
  ℕ, zero, suc, ◌≡◌, refl, ap, ◌∙◌, true, Option, none, some, List, [], ◌∷◌, Bytes,
}

abbrev write_text : Bytes → Bytes → Bytes
write_text [] s = 0 ∷ s
write_text (c ∷ t) s = suc c ∷ write_text t s

abbrev write_pairs : List (Bytes × Bytes) → Bytes
write_pairs [] = []
write_pairs ((k, v) ∷ parts) = write_text k (write_text v (write_pairs parts))

abbrev on_first : ℕ → List Bytes → List Bytes
on_first n [] = (n ∷ []) ∷ []
on_first n (t ∷ ts) = (n ∷ t) ∷ ts

abbrev read_texts : Bytes → List Bytes
read_texts [] = []
read_texts (zero ∷ s) = [] ∷ read_texts s
read_texts (suc n ∷ s) = on_first n (read_texts s)

abbrev in_pairs : List Bytes → List (Bytes × Bytes)
in_pairs [] = []
in_pairs (k ∷ []) = []
in_pairs (k ∷ v ∷ ts) = (k, v) ∷ in_pairs ts

abbrev behind_first : Bytes → Option Bytes
behind_first [] = none
behind_first (c ∷ s) = some s

abbrev pub codec : CursorCodec
codec = record {
  pairs_text = write_pairs;
  text_pairs = λ s. some (in_pairs (read_texts s));
  base64_text = λ s. 0 ∷ s;
  text_base64 = behind_first;
  is_utf8 = λ s. true;
}

read_texts-write_text : (t s : Bytes) → read_texts (write_text t s) ≡ t ∷ read_texts s
read_texts-write_text [] s = refl
read_texts-write_text (c ∷ t) s = ap (on_first c) (read_texts-write_text t s)

read-write_pairs :
    (parts : List (Bytes × Bytes)) → in_pairs (read_texts (write_pairs parts)) ≡ parts
read-write_pairs [] = refl
read-write_pairs ((k, v) ∷ parts) =
    ap in_pairs (
      read_texts-write_text k (write_text v (write_pairs parts))
      ∙ ap (λ ts. k ∷ ts) (read_texts-write_text v (write_pairs parts)))
    ∙ ap (λ ps. (k, v) ∷ ps) (read-write_pairs parts)

pub codec-IsCodec : IsCodec codec
codec-IsCodec = record {
  pairs_back = λ parts utf8. ap some (read-write_pairs parts);
  not_empty = λ parts. cons-ne-nil 0 (write_pairs parts);
  base64_back = λ s. refl;
}
