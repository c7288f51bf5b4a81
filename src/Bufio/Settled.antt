-- ===== src/Bufio/Settled.antt =====
-- The array where it holds the whole input and that ends in the delimiter.
use mathlib.Core.Path.{subst}
use mathlib.Core.List.{cons-ne-nil}
use serverless_error_ingest.Text.{Lacks, IsCutAt, absent, present, cut_byte-IsCutAt, cut_byte-none}
use serverless_error_ingest.Bufio.Laws.{IsReady, fill-nil}
use serverless_error_ingest.Bufio.{
  Reader, buffer, take_line, take_window, slide, fill, read_slice, copy_out, copy_or_end,
  copy_or_end_of, receive_from, restart, read_of, read, full_or_more, read_full, read_byte_of,
  read_byte_in, read_byte, max_rounds,
}
use serverless_error_ingest.Base.{
  ℕ, zero, suc, ◌-◌, ◌<◌, ◌≡◌, refl, sym, ap, ◌∙◌, inl, inr, Bool, true, false, Option, [], ◌∷◌,
  ◌++◌, append_assoc, arith, leb, Bool-cases, Bytes, length, take, drop, take-append-drop, drop_all,
}

-- Nothing, or a text whose last byte is the delimiter.
abbrev pub EndsIn : ℕ → Bytes → Type 0
EndsIn d [] = Unit
EndsIn d (c ∷ []) = c ≡ d
EndsIn d (c ∷ e ∷ s) = EndsIn d (e ∷ s)

pub record IsSettled (d : ℕ) (array : Bytes) (st : Reader) : Type 0 where
  pub drained : st.source ≡ []
  pub closed : EndsIn d st.window
  pub array_is : buffer st ≡ array

EndsIn-tail : (d c : ℕ) (s : Bytes) → EndsIn d (c ∷ s) → EndsIn d s
EndsIn-tail d c [] h = tt
EndsIn-tail d c (e ∷ s) h = h

EndsIn-append : (d : ℕ) (l r : Bytes) → EndsIn d (l ++ r) → EndsIn d r
EndsIn-append d [] r h = h
EndsIn-append d (c ∷ l) r h = EndsIn-append d l r (EndsIn-tail d c (l ++ r) h)

EndsIn-Lacks : (d : ℕ) (s : Bytes) → EndsIn d s → Lacks d s → s ≡ []
EndsIn-Lacks d [] h k = refl
EndsIn-Lacks d (c ∷ []) h k = absurd (k.0 h)
EndsIn-Lacks d (c ∷ e ∷ s) h k = absurd (cons-ne-nil e s (EndsIn-Lacks d (e ∷ s) h k.1))

module _ (d : ℕ) (array : Bytes) where
  take_line-IsSettled :
      (st : Reader) (l r : Bytes)
      → st.window ≡ l ++ (d ∷ r)
      → IsSettled d array st
      → IsSettled d array (take_line d st l r).1
  take_line-IsSettled st l r e k =
      let whole : st.window ≡ (l ++ (d ∷ [])) ++ r = e ∙ sym (append_assoc l (d ∷ []) r) in
      record {
        drained = k.drained;
        closed = EndsIn-append d (l ++ (d ∷ [])) r (rw whole at k.closed);
        array_is =
            append_assoc st.before (l ++ (d ∷ [])) (r ++ st.after)
            ∙ ap (λ (t : Bytes). st.before ++ t) (sym (append_assoc (l ++ (d ∷ [])) r st.after))
            ∙ ap (λ (t : Bytes). st.before ++ (t ++ st.after)) (sym whole)
            ∙ k.array_is;
      }

  -- Where the window is empty, `slide` moves nothing.
  slide-buffer : (st : Reader) → st.window ≡ [] → buffer (slide st) ≡ buffer st
  slide-buffer st w =
      ap (λ (t : Bytes). t ++ drop (length t) (st.before ++ (t ++ st.after))) w
      ∙ sym (ap (λ (t : Bytes). st.before ++ (t ++ st.after)) w)

  -- The state after `b.fill` found the end of the input.
  abbrev at_end : Reader → Reader
  at_end st = record (slide st) { failed = true }

  slide-IsSettled :
      (st : Reader) → st.window ≡ [] → IsSettled d array st → IsSettled d array (slide st)
  slide-IsSettled st w k = record {
    drained = k.drained;
    closed = k.closed;
    array_is = slide-buffer st w ∙ k.array_is;
  }

  take_window-IsSettled : (st : Reader) → IsSettled d array st → IsSettled d array (take_window st)
  take_window-IsSettled st k = record {
    drained = k.drained;
    closed = tt;
    array_is = append_assoc st.before st.window st.after ∙ k.array_is;
  }

  copy_out-IsSettled :
      (n : ℕ) (st : Reader) → IsSettled d array st → IsSettled d array (copy_out n st).1
  copy_out-IsSettled n st k = record {
    drained = k.drained;
    closed = EndsIn-append d (take n st.window) (drop n st.window) (rw take-append-drop k.closed);
    array_is =
        append_assoc st.before (take n st.window) (drop n st.window ++ st.after)
        ∙ ap (λ (t : Bytes). st.before ++ t)
            (sym (append_assoc (take n st.window) (drop n st.window) st.after)
              ∙ ap (λ (t : Bytes). t ++ st.after) (take-append-drop n st.window))
        ∙ k.array_is;
  }

  read_slice_pending-IsSettled :
      (size rounds : ℕ) (st : Reader)
      → st.failed ≡ true
      → Lacks d st.window
      → IsSettled d array st
      → IsSettled d array (read_slice (suc rounds) size d st).1
  unfolding read_slice
  read_slice_pending-IsSettled size rounds st f h k =
      let k' = take_window-IsSettled st k in
      rw (cut_byte-none d st.window h, f, read_slice)
        (record { drained = k'.drained; closed = k'.closed; array_is = k'.array_is })

  pub read_slice-IsSettled :
      (size rounds : ℕ) (st : Reader)
      → 0 < size
      → IsReady size st
      → IsSettled d array st
      → IsSettled d array (read_slice (suc (suc rounds)) size d st).1
  unfolding read_slice
  read_slice-IsSettled size rounds st room v k = go (cut_byte-IsCutAt d st.window)
    where
      go : IsCutAt d st.window → IsSettled d array (read_slice (suc (suc rounds)) size d st).1
      go (present l r e split h) = rw (e, read_slice) (take_line-IsSettled st l r split k)
      go (absent e h) =
          let w = EndsIn-Lacks d st.window k.closed h in
          let small : leb size (length st.window) ≡ false =
            let none = ap (length {0}) w in ground arith in
          let next : IsSettled d array (read_slice (suc rounds) size d (fill st)).1 =
            subst (λ t. IsSettled d array (read_slice (suc rounds) size d t).1)
              (sym (fill-nil st k.drained))
              (read_slice_pending-IsSettled size rounds (at_end st) refl h (
                let s = slide-IsSettled st w k in
                record { drained = s.drained; closed = s.closed; array_is = s.array_is })) in
          rw (e, v.idle, small, read_slice) next

  copy_or_end-IsSettled :
      (n : ℕ) (st : Reader) → IsSettled d array st → IsSettled d array (copy_or_end n st).1
  copy_or_end-IsSettled n st k = go st.window
    where
      go : (w : Bytes) → IsSettled d array (copy_or_end_of w n st).1
      go [] = record { drained = k.drained; closed = k.closed; array_is = k.array_is }
      go (c ∷ w) = copy_out-IsSettled n st k

  restart-IsSettled : (st : Reader) → IsSettled d array st → IsSettled d array (restart st)
  restart-IsSettled st k =
      let blank = record st { before = []; window = []; after = buffer st } in
      subst (λ (t : Bytes). IsSettled d array (receive_from t blank)) (sym k.drained)
        (record { drained = k.drained; closed = tt; array_is = k.array_is })

  read-IsSettled :
      (size n : ℕ) (st : Reader) → IsSettled d array st → IsSettled d array (read size n st).1
  unfolding read
  read-IsSettled size n st k = go st.window st.failed
    where
      go : (w : Bytes) (f : Bool) → IsSettled d array (read_of w f size n st).1
      go (c ∷ w) f = copy_out-IsSettled n st k
      go [] true = record { drained = k.drained; closed = k.closed; array_is = k.array_is }
      go [] false = elim (Bool-cases (leb size n)) [
        | inl big ↦ rw big (record {
          drained = rw k.drained (drop_all n [] (omega arith));
          closed = k.closed;
          array_is = k.array_is;
        })
        | inr small ↦ rw small (copy_or_end-IsSettled n (restart st) (restart-IsSettled st k))
      ]

  full_or_more-IsSettled :
      (more : ℕ → Reader → Bytes × Reader) (n : ℕ) (got : Bytes) (st : Reader)
      → ((k : ℕ) → IsSettled d array (more k st).1)
      → IsSettled d array st
      → IsSettled d array (full_or_more more got n st).1
  full_or_more-IsSettled more n [] st later k = k
  full_or_more-IsSettled more n (c ∷ s) st later k = later (n - length s)

  pub read_full-IsSettled :
      (size rounds n : ℕ) (st : Reader)
      → IsSettled d array st
      → IsSettled d array (read_full rounds size n st).1
  unfolding read_full
  read_full-IsSettled size zero n st k = k
  read_full-IsSettled size (suc rounds) zero st k = k
  read_full-IsSettled size (suc rounds) (suc n) st k =
      let k' = read-IsSettled size (suc n) st k in
      full_or_more-IsSettled (read_full rounds size) n (read size (suc n) st).0
        (read size (suc n) st).1 (λ m. read_full-IsSettled size rounds m _ k') k'

  fill-IsSettled :
      (st : Reader) → st.window ≡ [] → IsSettled d array st → IsSettled d array (fill st)
  fill-IsSettled st w k =
      let s = slide-IsSettled st w k in
      subst (IsSettled d array) (sym (fill-nil st k.drained))
        (record { drained = s.drained; closed = s.closed; array_is = s.array_is })

  read_byte_of-IsSettled :
      (w : Bytes) (f : Bool) (more : Reader → Option ℕ × Reader) (st : Reader)
      → st.window ≡ w
      → IsSettled d array st
      → (w ≡ [] → IsSettled d array (more (fill st)).1)
      → IsSettled d array (read_byte_of w f more st).1
  read_byte_of-IsSettled [] true more st e k next = record {
    drained = k.drained;
    closed = k.closed;
    array_is = k.array_is;
  }
  read_byte_of-IsSettled [] false more st e k next = next refl
  read_byte_of-IsSettled (c ∷ s) f more st e k next = record {
    drained = k.drained;
    closed = EndsIn-tail d c s (rw e at k.closed);
    array_is =
        append_assoc st.before (c ∷ []) (s ++ st.after)
        ∙ ap (λ (t : Bytes). st.before ++ (t ++ st.after)) (sym e)
        ∙ k.array_is;
  }

  read_byte_in-IsSettled :
      (rounds : ℕ) (st : Reader)
      → IsSettled d array st
      → IsSettled d array (read_byte_in rounds st).1
  unfolding read_byte_in
  read_byte_in-IsSettled zero st k = k
  read_byte_in-IsSettled (suc rounds) st k =
      read_byte_of-IsSettled st.window st.failed (read_byte_in rounds) st refl k
        (λ w. read_byte_in-IsSettled rounds (fill st) (fill-IsSettled st w k))

  pub read_byte-IsSettled :
      (st : Reader) → IsSettled d array st → IsSettled d array (read_byte st).1
  unfolding read_byte
  read_byte-IsSettled st k = read_byte_in-IsSettled max_rounds st k
