-- ===== src/Bufio/Single.antt =====
-- What `ReadByte` does to the stream of bytes that is not yet consumed.
use mathlib.Core.Path.{subst}
use mathlib.Core.List.{cons-ne-nil}
use serverless_error_ingest.Bufio.Laws.{
  IsReady, Filled, full_array, drained, fill-Filled, length-slide, remaining-fill, fill-nil,
}
use serverless_error_ingest.Bufio.Reads.{append-nil_inv}
use serverless_error_ingest.Bufio.{
  Reader, remaining, slide, fill, read_byte_in, read_byte, read_byte_of, max_rounds,
}
use serverless_error_ingest.Base.{
  ℕ, zero, suc, ◌<◌, ◌≡◌, refl, sym, ap, ◌∙◌, ◌≢◌, true, false, Option, none, some, [], ◌∷◌, ◌++◌,
  arith, Bytes, length, length-append,
}

-- A byte, or the end of the input.
abbrev pub ByteRead : ℕ → Bytes → Option ℕ → Reader → Type 0
ByteRead size rest none st = (rest ≡ []) × (remaining st ≡ []) × IsReady size st
ByteRead size rest (some c) st = (rest ≡ c ∷ remaining st) × IsReady size st

module _ (size : ℕ) (room : 0 < size) where
  abbrev pub ByteGot : Bytes → Option ℕ × Reader → Type 0
  ByteGot rest got = ByteRead size rest got.0 got.1

  read_byte_of-ByteGot :
      (w : Bytes) (more : Reader → Option ℕ × Reader) (st : Reader)
      → IsReady size st
      → st.window ≡ w
      → (w ≡ [] → ByteGot (remaining st) (more (fill st)))
      → ByteGot (remaining st) (read_byte_of w false more st)
  read_byte_of-ByteGot [] more st v e next = next refl
  read_byte_of-ByteGot (c ∷ s) more st v e next = (
    ap (λ (t : Bytes). t ++ st.source) e,
    record {
      total = omega (arith, v.total, ap (length {0}) e, length-append {0} st.before (c ∷ []));
      idle = v.idle;
    },
  )

  read_byte_round :
      (rounds : ℕ) (st : Reader)
      → IsReady size st
      → (st.window ≡ [] → ByteGot (remaining st) (read_byte_in rounds (fill st)))
      → ByteGot (remaining st) (read_byte_in (suc rounds) st)
  unfolding read_byte_in
  read_byte_round rounds st v next =
      subst (λ f. ByteGot (remaining st) (read_byte_of st.window f (read_byte_in rounds) st))
        (sym v.idle) (read_byte_of-ByteGot st.window (read_byte_in rounds) st v refl next)

  -- The end of the input takes one fill and one round more.
  read_byte_failed :
      (rounds : ℕ) (st : Reader)
      → IsReady size st
      → st.source ≡ []
      → st.window ≡ []
      → ByteGot (remaining st) (read_byte_in (suc rounds) (fill st))
  unfolding read_byte_in
  read_byte_failed rounds st v e w =
      let failing = record (slide st) { failed = true } in
      let more = read_byte_in rounds in
      let none_left = append-nil_inv st.window st.source w e in
      subst (λ t. ByteGot (remaining st) (read_byte_of t.window t.failed more t))
        (sym (fill-nil st e))
        (subst (λ (t : Bytes). ByteGot (remaining st) (read_byte_of t true more failing)) (sym w)
          (
            none_left,
            none_left,
            record { total = omega (arith, v.total, length-slide st); idle = refl },
          ))

  -- A fill with more to read leaves a byte in the window.
  read_byte-Filled :
      (st : Reader)
      → Filled size 0 st
      → remaining st ≢ []
      → ByteGot (remaining st) (read_byte_in (suc (suc zero)) st)
  read_byte-Filled st (full_array v le) ne =
      read_byte_round (suc zero) st v (λ w. absurd (omega (arith, room, le, ap (length {0}) w)))
  read_byte-Filled st (drained v e) ne =
      read_byte_round (suc zero) st v (λ w. absurd (ne (append-nil_inv st.window st.source w e)))

  pub read_byte_lem : (st : Reader) → IsReady size st → ByteGot (remaining st) (read_byte st)
  unfolding read_byte
  read_byte_lem st v = go st.source refl
    where
      go : (s : Bytes) → st.source ≡ s → ByteGot (remaining st) (read_byte_in max_rounds st)
      go [] e = read_byte_round (suc (suc zero)) st v (read_byte_failed (suc zero) st v e)
      go (c ∷ s) e = read_byte_round (suc (suc zero)) st v (λ w. rw (← remaining-fill st) (
          read_byte-Filled (fill st) (fill-Filled size 0 st c s v e) (λ x.
            cons-ne-nil c s
              (sym e ∙ ap (λ (t : Bytes). t ++ st.source) (sym w) ∙ sym (remaining-fill st) ∙ x))))
