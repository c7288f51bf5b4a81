-- ===== src/Bufio/Reads.antt =====
-- What `Read` and `io.ReadFull` do to the stream of bytes that is not yet consumed.
use mathlib.Core.Path.{subst}
use mathlib.Core.List.{cons-ne-nil}
use serverless_error_ingest.Bufio.Laws.{IsReady, remaining-receive_from}
use serverless_error_ingest.Bufio.{
  Reader, buffer, remaining, receive_from, restart, read, read_full, copy_out, copy_or_end,
  copy_or_end_of, full_or_more, read_of,
}
use serverless_error_ingest.Base.{
  ℕ, zero, suc, ◌+◌, ◌-◌, ◌≤◌, ◌<◌, ◌≡◌, refl, sym, ap, ◌∙◌, ◌≢◌, inl, inr, true, false, [], ◌∷◌,
  ◌++◌, append_assoc, arith, leb, Bool-cases, Bytes, length, take, drop, length-append, length-take,
  length-drop, take-append-drop,
}

-- `p` was taken off the front, at most `n` bytes.
pub record Taken (size n : ℕ) (rest p : Bytes) (st : Reader) : Type 0 where
  pub splits : rest ≡ p ++ remaining st
  pub fits : length p ≤ n
  pub ready : IsReady size st

pub append-nil_inv : (w s : Bytes) → w ≡ [] → s ≡ [] → w ++ s ≡ []
append-nil_inv w s e f = rw (e, f)

module _ (size : ℕ) (room : 0 < size) where
  -- Into an empty array something is received, unless nothing is left.
  receive_from-IsReady :
      (c : ℕ) (s : Bytes) (st : Reader) → IsReady size st → IsReady size (receive_from (c ∷ s) st)
  receive_from-IsReady c s st v = record {
    total = omega (
      arith,
      v.total,
      length-take (length st.after) (c ∷ s),
      length-append {0} st.window (take (length st.after) (c ∷ s)),
      length-drop (suc (length s)) st.after,
    );
    idle = v.idle;
  }

  copy_out-Taken :
      (n : ℕ) (st : Reader)
      → IsReady size st
      → Taken size n (remaining st) (copy_out n st).0 (copy_out n st).1
  copy_out-Taken n st v = record {
    splits =
        ap (λ (t : Bytes). t ++ st.source) (sym (take-append-drop n st.window))
        ∙ append_assoc (take n st.window) (drop n st.window) st.source;
    fits = omega (arith, length-take n st.window);
    ready = record {
      total = omega (
        arith,
        v.total,
        length-append {0} st.before (take n st.window),
        length-take n st.window,
        length-drop n st.window,
      );
      idle = v.idle;
    };
  }

  -- Nothing is taken only where nothing is left.
  abbrev pub TakenOrEnd : ℕ → Bytes → Bytes × Reader → Type 0
  TakenOrEnd n rest got = Taken size n rest got.0 got.1 × (got.0 ≡ [] → rest ≡ [])

  take-nil : (n : ℕ) (s : Bytes) → 0 < n → take n s ≡ [] → s ≡ []
  take-nil zero s lt e = absurd (omega arith)
  take-nil (suc n) [] lt e = refl
  take-nil (suc n) (x ∷ s) lt e = cc

  copy_or_end-Taken :
      (n : ℕ) (st : Reader)
      → length st.before + length st.window + length st.after ≡ size
      → (st.window ≡ [] → st.source ≡ [])
      → (st.window ≢ [] → st.failed ≡ false)
      → 0 < n
      → TakenOrEnd n (remaining st) (copy_or_end n st)
  copy_or_end-Taken n st total no_more idle lt = go st.window refl
    where
      go : (w : Bytes) → st.window ≡ w → TakenOrEnd n (remaining st) (copy_or_end n st)
      go [] e =
          let none_left = append-nil_inv st.window st.source e (no_more e) in
          subst (λ (w : Bytes). TakenOrEnd n (remaining st) (copy_or_end_of w n st)) (sym e)
            (
              record {
                splits = refl;
                fits = omega arith;
                ready = record { total = total; idle = refl };
              },
              λ _. none_left,
            )
      go (c ∷ w) e =
          let live : IsReady size st = record {
            total = total;
            idle = idle (λ x. cons-ne-nil c w (sym e ∙ x));
          } in
          subst (λ (t : Bytes). TakenOrEnd n (remaining st) (copy_or_end_of t n st)) (sym e)
            (
              copy_out-Taken n st live,
              λ none. absurd (cons-ne-nil c w (sym e ∙ take-nil n st.window lt none)),
            )

  received-Taken :
      (n : ℕ) (s : Bytes) (st : Reader)
      → IsReady size st
      → st.source ≡ s
      → st.before ≡ []
      → st.window ≡ []
      → 0 < n
      → TakenOrEnd n (remaining st) (copy_or_end n (receive_from s st))
  received-Taken n [] st v e b w lt =
      copy_or_end-Taken n (record st { failed = true }) v.total (λ _. e) (λ x. absurd (x w)) lt
  received-Taken n (c ∷ s) st v e b w lt =
      let v' = receive_from-IsReady c s st v in
      let got = length-append {0} st.window (take (length st.after) (c ∷ s)) in
      let empty : (receive_from (c ∷ s) st).window ≢ [] = λ x. omega (
        arith,
        room,
        v.total,
        ap (length {0}) x,
        ap (length {0}) b,
        ap (length {0}) w,
        got,
        length-take (length st.after) (c ∷ s),
      ) in
      rw (← remaining-receive_from (c ∷ s) st e) (
        copy_or_end-Taken n (receive_from (c ∷ s) st) v'.total (λ x. absurd (empty x))
          (λ _. v'.idle) lt)

  -- A read passed over the array.
  direct-Taken :
      (n : ℕ) (st : Reader)
      → IsReady size st
      → st.window ≡ []
      → 0 < n
      → TakenOrEnd n (remaining st) (take n st.source, record st { source = drop n st.source })
  direct-Taken n st v w lt = (
    record {
      splits = rw w (sym (take-append-drop n st.source));
      fits = omega (arith, length-take n st.source);
      ready = record { total = v.total; idle = v.idle };
    },
    λ none. rw w (take-nil n st.source lt none),
  )

  restart-Taken :
      (n : ℕ) (st : Reader)
      → IsReady size st
      → st.window ≡ []
      → 0 < n
      → TakenOrEnd n (remaining st) (copy_or_end n (restart st))
  restart-Taken n st v w lt =
      let blank = record st { before = []; window = []; after = buffer st } in
      let total = length-append {0} st.before (st.window ++ st.after) in
      let parts = length-append {0} st.window st.after in
      subst (λ (t : Bytes). TakenOrEnd n (t ++ st.source) (copy_or_end n (restart st))) (sym w)
        (received-Taken n st.source blank
          (record { total = omega (arith, v.total, total, parts); idle = v.idle }) refl refl refl
          lt)

  pub read-Taken :
      (n : ℕ) (st : Reader) → IsReady size st → 0 < n → TakenOrEnd n (remaining st) (read size n st)
  unfolding read
  read-Taken n st v lt = go st.window refl
    where
      empty : st.window ≡ [] → TakenOrEnd n (remaining st) (read_of [] false size n st)
      empty w = elim (Bool-cases (leb size n)) [
        | inl big ↦ rw big (direct-Taken n st v w lt)
        | inr small ↦ rw small (restart-Taken n st v w lt)
      ]

      go : (w : Bytes) → st.window ≡ w → TakenOrEnd n (remaining st) (read size n st)
      go [] e =
          subst (λ (t : Bytes). TakenOrEnd n (remaining st) (read_of t st.failed size n st)) (sym e)
            (subst (λ f. TakenOrEnd n (remaining st) (read_of [] f size n st)) (sym v.idle)
              (empty e))
      go (c ∷ w) e =
          subst (λ (t : Bytes). TakenOrEnd n (remaining st) (read_of t st.failed size n st)) (sym e)
            (
              copy_out-Taken n st v,
              λ none. absurd (cons-ne-nil c w (sym e ∙ take-nil n st.window lt none)),
            )

  -- `io.ReadFull` takes `n` bytes, or all that is left.
  pub record FullRead (n : ℕ) (rest p : Bytes) (st : Reader) : Type 0 where
    pub splits : rest ≡ p ++ remaining st
    pub fits : length p ≤ n
    pub short : length p < n → remaining st ≡ []
    pub ready : IsReady size st

  full_or_more-FullRead :
      (more : ℕ → Reader → Bytes × Reader) (n : ℕ) (rest got : Bytes) (st : Reader)
      → ((k : ℕ) → k ≤ n → FullRead k (remaining st) (more k st).0 (more k st).1)
      → TakenOrEnd (suc n) rest (got, st)
      → FullRead (suc n) rest (full_or_more more got n st).0 (full_or_more more got n st).1
  full_or_more-FullRead more n rest [] st later (t, end) = record {
    splits = t.splits;
    fits = omega arith;
    short = λ _. sym t.splits ∙ end refl;
    ready = t.ready;
  }
  full_or_more-FullRead more n rest (c ∷ s) st later (t, end) =
      let l = later (n - length s) (omega arith) in
      let joined = length-append {0} s (more (n - length s) st).0 in
      record {
        splits =
            t.splits
            ∙ ap (λ (x : Bytes). c ∷ (s ++ x)) l.splits
            ∙ ap (◌∷◌ c) (sym (append_assoc s _ _));
        fits = omega (arith, joined, l.fits, t.fits);
        short = λ lt. l.short (omega (arith, joined, t.fits, lt));
        ready = l.ready;
      }

  pub read_full-FullRead :
      (rounds n : ℕ) (st : Reader)
      → IsReady size st
      → n ≤ rounds
      → FullRead n (remaining st) (read_full rounds size n st).0 (read_full rounds size n st).1
  unfolding read_full
  read_full-FullRead zero n st v le = record {
    splits = refl;
    fits = omega arith;
    short = λ lt. absurd (omega arith);
    ready = v;
  }
  read_full-FullRead (suc rounds) zero st v le = record {
    splits = refl;
    fits = omega arith;
    short = λ lt. absurd (omega arith);
    ready = v;
  }
  read_full-FullRead (suc rounds) (suc n) st v le =
      full_or_more-FullRead (read_full rounds size) n (remaining st) _ _
        (λ k h.
          read_full-FullRead rounds k _ (read-Taken (suc n) st v (omega arith)).0.ready
            (omega arith))
        (read-Taken (suc n) st v (omega arith))
