-- ===== src/Ingest/Envelope/Refines.antt =====
-- The parser over the buffered reader against the reference parser, whatever is known of the payloads
-- that are views of the array.
use mathlib.Core.Path.{subst}
use serverless_error_ingest.Bufio.Laws.{IsReady, Shows}
use serverless_error_ingest.Bufio.Reads.{FullRead, read_full-FullRead}
use serverless_error_ingest.Bufio.Single.{ByteRead, read_byte_lem}
use serverless_error_ingest.Bufio.{Reader, remaining, Slice, read_full, read_byte}
use serverless_error_ingest.Ingest.Envelope.Lines.{LineRead, got, failed, read_line-LineRead}
use serverless_error_ingest.Ingest.Envelope.Plain.{plain_payload, separator}
use serverless_error_ingest.Ingest.Envelope.{
  LineError, newline, not_followed, short_payload, payload_too_large, negative_length,
  EnvelopeError, max_item_bytes, implicit_payload, payload_of_line, followed_by, Payload, owned,
  view, read_line, sized_payload, line_payload, read_payload,
}
use serverless_error_ingest.Base.{
  ℕ, ◌≤◌, ◌<◌, ◌≡◌, ap, ◌∙◌, inl, inr, true, false, Option, none, some, arith, ltb, ◌==◌,
  if◌then◌else◌, ltb→lt, lt→ltb, Bool-cases, Bytes, Result, ok, err, map_err, ℤ, pos, negsuc,
  length, take, drop, length-append, drop-append, take-append,
}

-- What is kept of the reader's state besides its size, and what a payload is known to hold.
pub record Known (size : ℕ) : Type 1 where
  pub Keeps : Reader → Type 0
  pub Holds : Option ℤ → Payload → Bytes → Type 0
  pub of_owned : (n : ℕ) (p : Bytes) → Holds (some (pos n)) (owned p) p
  pub of_view :
      (s : Slice) (st : Reader)
      → Keeps st
      → Shows st s
      → Holds none (view s.offset (length s.text)) s.text
  pub keeps_line : (st : Reader) → IsReady size st → Keeps st → Keeps (read_line size st).1
  pub keeps_full :
      (n : ℕ) (st : Reader) → IsReady size st → Keeps st → Keeps (read_full n size n st).1
  pub keeps_byte : (st : Reader) → IsReady size st → Keeps st → Keeps (read_byte st).1

module _ (size : ℕ) (room : 0 < size) (known : Known size) where
  -- A payload read by both, or one error.
  pub data PayloadRead (n : Option ℤ)
      : Result EnvelopeError (Bytes × Bytes) → Result EnvelopeError Payload × Reader → Type 0 where
    read :
        (p : Bytes) (q : Payload) (st : Reader)
        → known.Holds n q p
        → IsReady size st
        → known.Keeps st
        → PayloadRead n (ok (p, remaining st)) (ok q, st)
    refused : (e : EnvelopeError) (st : Reader) → PayloadRead n (err e) (err e, st)

  payload_of_line-PayloadRead :
      {a : Result LineError (Bytes × Bytes)} {r : Result LineError Slice × Reader}
      → LineRead size a r
      → size ≤ max_item_bytes
      → known.Keeps r.1
      → PayloadRead none (map_err implicit_payload a) (payload_of_line r.0, r.1)
  payload_of_line-PayloadRead (got s st v shows lt) le k =
      let small : ltb max_item_bytes (length s.text) ≡ false = ground arith in
      rw small (read s.text _ st (known.of_view s st k shows) v k)
  payload_of_line-PayloadRead (failed e st) le k = refused (implicit_payload e) st

  line_payload-PayloadRead :
      (st : Reader)
      → IsReady size st
      → size ≤ max_item_bytes
      → known.Keeps st
      → PayloadRead none (plain_payload size none (remaining st)) (line_payload size st)
  unfolding line_payload plain_payload
  line_payload-PayloadRead st v le k =
      payload_of_line-PayloadRead (read_line-LineRead size st room v) le (known.keeps_line st v k)

  followed_by-PayloadRead :
      (n : ℕ) (p rest : Bytes) (next : Option ℕ) (st : Reader)
      → ByteRead size rest next st
      → known.Keeps st
      → PayloadRead (some (pos n)) (separator n p rest) (followed_by n p next, st)
  followed_by-PayloadRead n p rest none st (e, left, v) k = rw e (
      subst (λ (t : Bytes). PayloadRead (some (pos n)) (ok (p, t)) (ok (owned p), st)) left
        (read p (owned p) st (known.of_owned n p) v k))
  followed_by-PayloadRead n p rest (some c) st (e, v) k = rw e (elim (Bool-cases (c == newline)) [
    | inl yes_ ↦ rw yes_ (read p (owned p) st (known.of_owned n p) v k)
    | inr no_ ↦ rw no_ (refused (not_followed n c) st)
  ])

  full-PayloadRead :
      (n : ℕ) (rest p : Bytes) (st : Reader)
      → FullRead size room n rest p st
      → known.Keeps st
      → PayloadRead
          (some (pos n))
          (if ltb (length rest) n
            then err (short_payload n (length rest))
            else separator n (take n rest) (drop n rest))
          (if ltb (length p) n
            then (err (short_payload n (length p)), st)
            else (followed_by n p (read_byte st).0, (read_byte st).1))
  full-PayloadRead n rest p st f k =
      let whole = ap (length {0}) f.splits ∙ length-append {0} p (remaining st) in
      elim (Bool-cases (ltb (length p) n)) [
        | inl short ↦
            let none_left = ap (length {0}) (f.short (ltb→lt _ _ short)) in
            let short' : ltb (length rest) n ≡ true =
              lt→ltb _ _ (omega (arith, whole, none_left, ltb→lt _ _ short)) in
            let got_all : length rest ≡ length p = omega (arith, whole, none_left) in
            rw (short, short', got_all) (refused (short_payload n (length p)) st)
        | inr enough ↦
            let same : length p ≡ n = let fits = f.fits in ground arith in
            let enough' : ltb (length rest) n ≡ false = ground (arith, whole) in
            let front : take n rest ≡ p = rw (← same, f.splits) (take-append p (remaining st)) in
            let back : drop n rest ≡ remaining st =
              rw (← same, f.splits) (drop-append p (remaining st)) in
            rw (enough, enough', front, back)
              (followed_by-PayloadRead n p (remaining st) _ _ (read_byte_lem size room st f.ready)
                (known.keeps_byte st f.ready k))
      ]

  sized_payload-PayloadRead :
      (n : ℕ) (st : Reader)
      → IsReady size st
      → known.Keeps st
      → PayloadRead
          (some (pos n))
          (plain_payload size (some (pos n)) (remaining st))
          (sized_payload size n st)
  unfolding sized_payload plain_payload
  sized_payload-PayloadRead n st v k = elim (Bool-cases (ltb max_item_bytes n)) [
    | inl big ↦ rw (big, sized_payload) (refused payload_too_large st)
    | inr small ↦
        rw (small, sized_payload)
          (full-PayloadRead n (remaining st) _ _
            (read_full-FullRead size room n n st v (omega arith)) (known.keeps_full n st v k))
  ]

  pub read_payload-PayloadRead :
      (n : Option ℤ) (st : Reader)
      → IsReady size st
      → size ≤ max_item_bytes
      → known.Keeps st
      → PayloadRead n (plain_payload size n (remaining st)) (read_payload size n st)
  read_payload-PayloadRead none st v le k = line_payload-PayloadRead st v le k
  read_payload-PayloadRead (some (pos n)) st v le k = sized_payload-PayloadRead n st v k
  read_payload-PayloadRead (some (negsuc n)) st v le k =
      unfold plain_payload in refused negative_length st
