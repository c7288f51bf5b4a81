-- ===== src/Ingest/EventId.antt =====
-- Event ids of lambda/ingest/main.go: `validEventID`, `deterministicID`, `eventIDFromItems`.
use mathlib.Core.List.{cons-ne-nil}
use serverless_error_ingest.Json.{Json}
use serverless_error_ingest.Ingest.Envelope.{Item}
use serverless_error_ingest.Base.{
  ℕ, zero, suc, ◌+◌, ◌-◌, ◌*◌, ◌/◌, ◌%◌, ◌≤◌, ◌<◌, ◌≡◌, refl, ap, ◌≢◌, ◌⊎◌, inl, inr, Bool, true,
  false, ◌&&◌, ◌||◌, List, [], ◌∷◌, arith, ltb, leb, if◌then◌else◌, Bool-cases, Bytes, codes, equal,
  is_empty, length, take, length-take, All,
}

abbrev pub within : ℕ → ℕ → ℕ → Bool
within lo hi c = leb lo c && leb c hi

abbrev pub is_hex : ℕ → Bool
is_hex c = within b'0' b'9' c || within b'a' b'f' c || within b'A' b'F' c

-- The loop over the bytes.
unfoldable pub all_hex : Bytes → Bool
all_hex [] = true
all_hex (c ∷ s) = is_hex c && all_hex s

-- `validEventID`
unfoldable pub valid_event_id : Bytes → Bool
unfolding is_empty all_hex
valid_event_id s = if is_empty s || ltb 64 (length s) then false else all_hex s

-- `hex.EncodeToString`
abbrev pub hex_digit : ℕ → ℕ
hex_digit n = if ltb n 10 then b'0' + n else b'a' + (n - 10)

unfoldable pub hex_encode : Bytes → Bytes
hex_encode [] = []
hex_encode (c ∷ s) = hex_digit (c / 16) ∷ hex_digit (c % 16) ∷ hex_encode s

-- `deterministicID`, over the hash function `sha256.Sum256`.
unfoldable pub deterministic_id : (Bytes → Bytes) → Bytes → Bytes
unfolding hex_encode
deterministic_id sha256 raw = hex_encode (take 16 (sha256 raw))

-- What is used of the hash: thirty-two bytes.
pub record IsHash (sha256 : Bytes → Bytes) : Type 0 where
  pub digest_length : (raw : Bytes) → length (sha256 raw) ≡ 32
  pub digest_bytes : (raw : Bytes) → All (λ c. c < 256) (sha256 raw)

abbrev pub event_type : Bytes
event_type = codes "event"

module _ (json : Json) where
  -- `eventIDFromItems`; the empty text stands for no id.
  unfoldable pub event_id_from_items : List Item → Bytes
  unfolding equal valid_event_id
  event_id_from_items [] = []
  event_id_from_items (it ∷ its) =
      let id = (json.event_meta it.payload).event_id in
      let later = event_id_from_items its in
      if equal it.header.type event_type && valid_event_id id then id else later

  -- The id under which the handler stores a request.
  unfoldable pub chosen_id : (Bytes → Bytes) → Bytes → List Item → Bytes
  unfolding event_id_from_items is_empty deterministic_id
  chosen_id sha256 raw items =
      let id = event_id_from_items items in if is_empty id then deterministic_id sha256 raw else id

hex_digit-is_hex : (n : ℕ) → n < 16 → is_hex (hex_digit n) ≡ true
hex_digit-is_hex n h = ground arith

length-hex_encode : (s : Bytes) → length (hex_encode s) ≡ 2 * length s
unfolding hex_encode
length-hex_encode [] = refl
length-hex_encode (c ∷ s) = omega (arith, length-hex_encode s)

hex_encode-all_hex : (s : Bytes) → All (λ c. c < 256) s → all_hex (hex_encode s) ≡ true
unfolding hex_encode all_hex
hex_encode-all_hex [] h = refl
hex_encode-all_hex (c ∷ s) (b, h) =
    rw (hex_digit-is_hex (c / 16) (omega arith), hex_digit-is_hex (c % 16) (omega arith))
      (hex_encode-all_hex s h)

All-take {ℓ κ} : {A : Type ℓ} (P : A → Type κ) (n : ℕ) (xs : List A) → All P xs → All P (take n xs)
All-take P zero xs h = tt
All-take P (suc n) [] h = tt
All-take P (suc n) (x ∷ xs) h = (h.0, All-take P n xs h.1)

-- A text of 1 to 64 hex digits.
pub valid_of_parts :
    (s : Bytes) → s ≢ [] → length s ≤ 64 → all_hex s ≡ true → valid_event_id s ≡ true
unfolding valid_event_id
valid_of_parts [] ne le h = absurd (ne refl)
valid_of_parts (c ∷ s) ne le h = ground arith

-- The derived id is thirty-two hex digits, and so valid.
pub deterministic_id-valid :
    (sha256 : Bytes → Bytes) (raw : Bytes)
    → IsHash sha256
    → (valid_event_id (deterministic_id sha256 raw) ≡ true)
      × (length (deterministic_id sha256 raw) ≡ 32)
unfolding deterministic_id
deterministic_id-valid sha256 raw v =
    let long : length (take 16 (sha256 raw)) ≡ 16 =
      omega (arith, length-take 16 (sha256 raw), v.digest_length raw) in
    let twice : length (hex_encode (take 16 (sha256 raw))) ≡ 32 =
      omega (arith, length-hex_encode (take 16 (sha256 raw))) in
    (
      valid_of_parts _ (λ e. omega (arith, ap (length {0}) e)) (omega arith)
          (hex_encode-all_hex _ (All-take (λ c. c < 256) 16 (sha256 raw) (v.digest_bytes raw))),
      twice,
    )

and-right : (a b : Bool) → (a && b) ≡ true → b ≡ true
and-right a b e = ground arith

valid_if_full :
    (id : Bytes)
    → is_empty id ≡ false
    → (id ≡ []) ⊎ (valid_event_id id ≡ true)
    → valid_event_id id ≡ true
unfolding is_empty
valid_if_full [] e h = cc
valid_if_full (c ∷ s) e (inl nil) = absurd (cons-ne-nil c s nil)
valid_if_full (c ∷ s) e (inr h) = h

event_id_from_items-valid :
    (json : Json) (items : List Item)
    → (event_id_from_items json items ≡ [])
      ⊎ (valid_event_id (event_id_from_items json items) ≡ true)
unfolding event_id_from_items
event_id_from_items-valid json [] = inl refl
event_id_from_items-valid json (it ∷ its) =
    let id = (json.event_meta it.payload).event_id in
    elim (Bool-cases (equal it.header.type event_type && valid_event_id id)) [
      | inl e ↦ rw e (inr (and-right _ _ e))
      | inr ne ↦ rw ne (event_id_from_items-valid json its)
    ]

-- Whatever the items say, the id under which a request is stored is valid.
pub chosen_id-valid :
    (json : Json) (sha256 : Bytes → Bytes) (raw : Bytes) (items : List Item)
    → IsHash sha256
    → valid_event_id (chosen_id json sha256 raw items) ≡ true
unfolding chosen_id
chosen_id-valid json sha256 raw items v =
    let id = event_id_from_items json items in
    elim (Bool-cases (is_empty id)) [
      | inl empty ↦ rw (empty, chosen_id) (deterministic_id-valid sha256 raw v).0
      | inr full ↦
          rw (full, chosen_id) (valid_if_full id full (event_id_from_items-valid json items))
    ]
