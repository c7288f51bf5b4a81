-- ===== src/Bufio/Laws.antt =====
-- What `ReadSlice` does to the stream of bytes that is not yet consumed.
use serverless_error_ingest.Text.{Lacks, IsCutAt, absent, present, cut_byte-IsCutAt, cut_byte-none}
use serverless_error_ingest.Bufio.{
  Reader, buffer, remaining, Slice, ReadSlice, found, ended, buffer_full, take_line, take_window,
  max_rounds, slide, receive_from, fill, read_slice,
}
use mathlib.Core.Path.{subst}
use serverless_error_ingest.Base.{
  ℕ, zero, suc, ◌+◌, ◌≤◌, ◌<◌, ◌≡◌, refl, sym, ap, ◌∙◌, inl, inr, true, false, [], ◌∷◌, ◌++◌,
  append_assoc, append-nil, arith, leb, leb→le, Bool-cases, Bytes, length, take, drop,
  length-append, length-take, length-drop, take-append-drop, drop-append, take-append, drop_all,
}

-- The array has its size, and no error is pending.
pub record IsReady (size : ℕ) (st : Reader) : Type 0 where
  pub total : length st.before + length st.window + length st.after ≡ size
  pub idle : st.failed ≡ false

-- The view shows its bytes in the array.
abbrev pub Shows : Reader → Slice → Type 0
Shows st s = take (length s.text) (drop s.offset (buffer st)) ≡ s.text

-- What a call may return, where `rest` was not yet consumed: a line, the unfinished last line, or an
-- error where `size` bytes hold no delimiter.
pub data Yields (size d : ℕ) (rest : Bytes) : ReadSlice × Reader → Type 0 where
  line :
      (l r : Bytes) (s : Slice) (st : Reader)
      → rest ≡ l ++ (d ∷ r)
      → Lacks d l
      → length l < size
      → s.text ≡ l ++ (d ∷ [])
      → remaining st ≡ r
      → IsReady size st
      → Shows st s
      → Yields size d rest (found s, st)
  last :
      (s : Slice) (st : Reader)
      → Lacks d rest
      → length rest < size
      → s.text ≡ rest
      → remaining st ≡ []
      → IsReady size st
      → Shows st s
      → Yields size d rest (ended s, st)
  full :
      (st : Reader)
      → Lacks d (take size rest)
      → size ≤ length rest
      → Yields size d rest (buffer_full, st)

take-drop-append : (b t rest : Bytes) → take (length t) (drop (length b) ((b ++ t) ++ rest)) ≡ t
take-drop-append b t rest = rw (append_assoc, drop-append, take-append)

Lacks-take-append : (d n : ℕ) (s t : Bytes) → Lacks d s → n ≤ length s → Lacks d (take n (s ++ t))
Lacks-take-append d zero s t h le = tt
Lacks-take-append d (suc n) [] t h le = absurd (omega arith)
Lacks-take-append d (suc n) (x ∷ s) t h le = (h.0, Lacks-take-append d n s t h.1 (omega arith))

-- `slide` keeps the size of the array, and `receive` does where there is room.
pub length-slide :
    (st : Reader)
    → length st.window + length (slide st).after
      ≡ length st.before + length st.window + length st.after
length-slide st = omega (
  arith,
  length-drop (length st.window) (buffer st),
  length-append {0} st.before (st.window ++ st.after),
  length-append {0} st.window st.after,
)

pub remaining-receive_from :
    (s : Bytes) (st : Reader) → st.source ≡ s → remaining (receive_from s st) ≡ remaining st
remaining-receive_from [] st e = refl
remaining-receive_from (c ∷ s) st e =
    append_assoc st.window (take (length st.after) (c ∷ s)) (drop (length st.after) (c ∷ s))
    ∙ ap (λ (t : Bytes). st.window ++ t) (take-append-drop (length st.after) (c ∷ s) ∙ sym e)

pub remaining-fill : (st : Reader) → remaining (fill st) ≡ remaining st
unfolding fill
remaining-fill st = remaining-receive_from st.source (slide st) refl

pub fill-nil : (st : Reader) → st.source ≡ [] → fill st ≡ record (slide st) { failed = true }
unfolding fill
fill-nil st e = ap (λ (s : Bytes). receive_from s (slide st)) e

module _ (size d : ℕ) where
  take_line-Yields :
      (st : Reader) (l r : Bytes)
      → IsReady size st
      → st.window ≡ l ++ (d ∷ r)
      → Lacks d l
      → Yields size d (remaining st) (take_line d st l r)
  take_line-Yields st l r v e h =
      let whole = ap length e in
      line l (r ++ st.source) _ _ (rw e (append_assoc l (d ∷ r) st.source)) h
        (omega (arith, v.total, whole, length-append {0} l (d ∷ r))) refl refl
        (record {
          total = omega (
            arith,
            v.total,
            whole,
            length-append {0} l (d ∷ r),
            length-append {0} st.before (l ++ (d ∷ [])),
            length-append {0} l (d ∷ []),
          );
          idle = v.idle;
        })
        (take-drop-append st.before (l ++ (d ∷ [])) (r ++ st.after))

  ended-Yields :
      (st : Reader)
      → length st.before + length st.window + length st.after ≡ size
      → st.source ≡ []
      → length st.window < size
      → Lacks d st.window
      → Yields size d (remaining st) (
        ended (record { offset = length st.before; text = st.window }),
        record (take_window st) { failed = false },
      )
  ended-Yields st v e lt h =
      let rest : remaining st ≡ st.window = rw e (append-nil st.window) in
      subst
        (λ w. Yields size d w (
          ended (record { offset = length st.before; text = st.window }),
          record (take_window st) { failed = false },
        ))
        (sym rest)
        (last _ (record (take_window st) { failed = false }) h lt refl e
          (record { total = omega (arith, v, length-append {0} st.before st.window); idle = refl })
          (take-drop-append st.before st.window st.after))

  full-Yields :
      (st : Reader)
      → IsReady size st
      → size ≤ length st.window
      → Lacks d st.window
      → Yields size d (remaining st) (buffer_full, take_window st)
  full-Yields st v le h =
      full _ (Lacks-take-append d size st.window st.source h le)
        (omega (arith, length-append {0} st.window st.source))

  -- One round, where what follows a fill is known.
  read_slice-round :
      (rounds : ℕ) (st : Reader)
      → IsReady size st
      → (Lacks d st.window
          → length st.window < size
          → Yields size d (remaining st) (read_slice rounds size d (fill st)))
      → Yields size d (remaining st) (read_slice (suc rounds) size d st)
  unfolding read_slice
  read_slice-round rounds st v next = go (cut_byte-IsCutAt d st.window)
    where
      go : IsCutAt d st.window → Yields size d (remaining st) (read_slice (suc rounds) size d st)
      go (present l r e split h) = rw (e, read_slice) (take_line-Yields st l r v split h)
      go (absent e h) =
          rw (e, v.idle, read_slice)
            (elim (Bool-cases (leb size (length st.window))) [
              | inl big ↦ rw big (full-Yields st v (leb→le _ _ big) h)
              | inr small ↦ rw small (next h (ground arith))
            ])

  -- After a fill with more to read the array is full or the source is empty.
  pub data Filled (st : Reader) : Type 0 where
    full_array : IsReady size st → size ≤ length st.window → Filled st
    drained : IsReady size st → st.source ≡ [] → Filled st

  pub receive_from-Filled :
      (c : ℕ) (s : Bytes) (st : Reader)
      → IsReady size st
      → st.before ≡ []
      → Filled (receive_from (c ∷ s) st)
  receive_from-Filled c s st v b =
      let got = length-take (length st.after) (c ∷ s) in
      let joined = length-append {0} st.window (take (length st.after) (c ∷ s)) in
      let left = length-drop (suc (length s)) st.after in
      let ready : IsReady size (receive_from (c ∷ s) st) = record {
        total = omega (arith, v.total, got, joined, left);
        idle = v.idle;
      } in
      elim (Bool-cases (leb (length st.after) (length (c ∷ s)))) [
        | inl big ↦
            full_array ready
              (omega (arith, v.total, ap (length {0}) b, leb→le _ _ big, got, joined))
        | inr small ↦ drained ready (drop_all (length st.after) (c ∷ s) (ground arith))
      ]

  pub fill-Filled :
      (st : Reader) (c : ℕ) (s : Bytes) → IsReady size st → st.source ≡ c ∷ s → Filled (fill st)
  unfolding fill
  fill-Filled st c s v e =
      subst (λ (t : Bytes). Filled (receive_from t (slide st))) (sym e)
        (receive_from-Filled c s (slide st)
          (record { total = omega (arith, v.total, length-slide st); idle = v.idle }) refl)

  -- A pending io.EOF ends the read.
  read_slice_pending :
      (rounds : ℕ) (st : Reader)
      → length st.before + length st.window + length st.after ≡ size
      → st.failed ≡ true
      → st.source ≡ []
      → Lacks d st.window
      → length st.window < size
      → Yields size d (remaining st) (read_slice (suc rounds) size d st)
  unfolding read_slice
  read_slice_pending rounds st total f e h lt =
      rw (cut_byte-none d st.window h, f, read_slice) (ended-Yields st total e lt h)

  read_slice_failed :
      (rounds : ℕ) (st : Reader)
      → IsReady size st
      → st.source ≡ []
      → Lacks d st.window
      → length st.window < size
      → Yields size d (remaining st) (read_slice (suc rounds) size d (fill st))
  read_slice_failed rounds st v e h lt =
      let failing = record (slide st) { failed = true } in
      subst (λ t. Yields size d (remaining st) (read_slice (suc rounds) size d t))
        (sym (fill-nil st e))
        (read_slice_pending rounds failing (omega (arith, v.total, length-slide st)) refl e h lt)

  read_slice_drained :
      (rounds : ℕ) (st : Reader)
      → IsReady size st
      → st.source ≡ []
      → Yields size d (remaining st) (read_slice (suc (suc rounds)) size d st)
  read_slice_drained rounds st v e =
      read_slice-round (suc rounds) st v (read_slice_failed rounds st v e)

  read_slice-Filled :
      {st : Reader}
      → Filled st
      → Yields size d (remaining st) (read_slice (suc (suc zero)) size d st)
  read_slice-Filled (full_array v le) =
      read_slice-round (suc zero) _ v (λ h lt. absurd (omega arith))
  read_slice-Filled (drained v e) = read_slice_drained zero _ v e

  pub read_slice-Yields :
      (st : Reader)
      → IsReady size st
      → Yields size d (remaining st) (read_slice max_rounds size d st)
  read_slice-Yields st v = go st.source refl
    where
      go :
          (s : Bytes)
          → st.source ≡ s
          → Yields size d (remaining st) (read_slice max_rounds size d st)
      go [] e = read_slice_drained (suc zero) st v e
      go (c ∷ s) e =
          read_slice-round (suc (suc zero)) st v
            (λ h lt. rw (← remaining-fill st) (read_slice-Filled (fill-Filled st c s v e)))
