-- ===== src/Ingest/Envelope/Views.antt =====
-- `readLine` on a reader whose whole input is in its array, with the array that it leaves.
use serverless_error_ingest.Text.{Lacks, cut_byte, cut_byte-Lacks, cut_byte-none}
use serverless_error_ingest.Bufio.{Reader, found, ended, new_reader, fill, read_slice}
use serverless_error_ingest.Ingest.Envelope.Lines.{strip_newline-append, strip_newline-Lacks}
use serverless_error_ingest.Ingest.Envelope.{newline, eof, line_of, read_line}
use serverless_error_ingest.Base.{
  ℕ, suc, ◌≤◌, ◌<◌, ◌≡◌, refl, ap, ◌∙◌, true, false, none, [], ◌∷◌, ◌++◌, arith, leb, Bytes,
  is_empty, ok, err, length, drop, replicate, length-replicate, take_all, drop_all,
}

-- A reader that has met no error and has nothing left to fill its array with.
abbrev pub at : Bytes → Bytes → Bytes → Reader
at b w a = record { before = b; window = w; after = a; source = []; failed = false }

is_empty-snoc : (l : Bytes) → is_empty (l ++ (newline ∷ [])) ≡ false
unfolding is_empty
is_empty-snoc [] = refl
is_empty-snoc (c ∷ l) = refl

module _ (size : ℕ) where
  slice_of_line :
      (rounds : ℕ) (b l r a : Bytes)
      → Lacks newline l
      → read_slice (suc rounds) size newline (at b (l ++ (newline ∷ r)) a) ≡ (
        found (record { offset = length b; text = l ++ (newline ∷ []) }),
        at (b ++ (l ++ (newline ∷ []))) r a,
      )
  unfolding read_slice
  slice_of_line rounds b l r a h = rw (cut_byte-Lacks newline l r h, read_slice) refl

  line_of_found :
      (n : ℕ) (l : Bytes)
      → line_of (found (record { offset = n; text = l ++ (newline ∷ []) }))
        ≡ ok (record { offset = n; text = l })
  unfolding line_of
  line_of_found n l = rw (is_empty-snoc l, strip_newline-append l) refl

  pub read_line-line :
      (b l r a : Bytes)
      → Lacks newline l
      → read_line size (at b (l ++ (newline ∷ r)) a)
        ≡ (ok (record { offset = length b; text = l }), at (b ++ (l ++ (newline ∷ []))) r a)
  unfolding read_line
  read_line-line b l r a h = rw (slice_of_line 2 b l r a h, line_of_found (length b) l) refl

  -- Nothing comes in: the window is moved to the start of the array, over what stood there.
  slice_moved :
      (rounds : ℕ) (b w a : Bytes)
      → cut_byte newline w ≡ none
      → length w < size
      → read_slice (suc rounds) size newline (at b w a)
        ≡ read_slice rounds size newline
            (record (at [] w (drop (length w) (b ++ (w ++ a)))) { failed = true })
  unfolding read_slice fill
  slice_moved rounds b w a h fits =
      let room : leb size (length w) ≡ false = ground arith in rw (h, room, read_slice) refl

  slice_ended :
      (rounds : ℕ) (b w a : Bytes)
      → cut_byte newline w ≡ none
      → read_slice (suc rounds) size newline (record (at b w a) { failed = true })
        ≡ (ended (record { offset = length b; text = w }), at (b ++ w) [] a)
  unfolding read_slice
  slice_ended rounds b w a h = rw (h, read_slice) refl

  line_of_ended :
      (n c : ℕ) (p : Bytes)
      → Lacks newline (c ∷ p)
      → line_of (ended (record { offset = n; text = c ∷ p }))
        ≡ ok (record { offset = n; text = c ∷ p })
  unfolding line_of is_empty
  line_of_ended n c p h = rw (strip_newline-Lacks (c ∷ p) h) refl

  pub read_line-last :
      (b a : Bytes) (c : ℕ) (p : Bytes)
      → Lacks newline (c ∷ p)
      → length (c ∷ p) < size
      → read_line size (at b (c ∷ p) a) ≡ (
        ok (record { offset = 0; text = c ∷ p }),
        at (c ∷ p) [] (drop (length (c ∷ p)) (b ++ ((c ∷ p) ++ a))),
      )
  unfolding read_line
  read_line-last b a c p h fits =
      let uncut = cut_byte-none newline (c ∷ p) h in
      let rest = drop (length (c ∷ p)) (b ++ ((c ∷ p) ++ a)) in
      rw
        (
          slice_moved 2 b (c ∷ p) a uncut fits,
          slice_ended 1 [] (c ∷ p) rest uncut,
          line_of_ended 0 c p h,
        )
        refl

  pub read_line-end :
      (b a : Bytes) → 0 < size → read_line size (at b [] a) ≡ (err eof, at [] [] (b ++ a))
  unfolding read_line line_of is_empty
  read_line-end b a fits =
      let uncut = cut_byte-none newline [] tt in
      rw (slice_moved 2 b [] a uncut fits, slice_ended 1 [] [] (b ++ a) uncut) refl

  -- The part of the array that a body leaves at zero.
  abbrev pub zeros : Bytes → Bytes
  zeros body = drop (length body) (replicate size 0)

  slice_fill :
      (rounds c : ℕ) (s : Bytes)
      → leb size 0 ≡ false
      → read_slice (suc rounds) size newline (new_reader size (c ∷ s))
        ≡ read_slice rounds size newline (fill (new_reader size (c ∷ s)))
  unfolding read_slice new_reader cut_byte
  slice_fill rounds c s room = rw (room, read_slice) refl

  fill-first :
      (c : ℕ) (s : Bytes)
      → length (c ∷ s) ≤ size
      → fill (new_reader size (c ∷ s)) ≡ at [] (c ∷ s) (zeros (c ∷ s))
  unfolding fill new_reader
  fill-first c s fits =
      let array : Bytes = replicate size 0 in
      let room : length (c ∷ s) ≤ length array =
        omega (arith, length-replicate {0} {A = ℕ} size 0) in
      λ i. record {
        before = [];
        window = take_all (length array) (c ∷ s) room i;
        after = zeros (c ∷ s);
        source = drop_all (length array) (c ∷ s) room i;
        failed = false;
      }

  slice_first :
      (rounds c : ℕ) (s : Bytes)
      → length (c ∷ s) ≤ size
      → read_slice (suc rounds) size newline (new_reader size (c ∷ s))
        ≡ read_slice rounds size newline (at [] (c ∷ s) (zeros (c ∷ s)))
  slice_first rounds c s fits =
      slice_fill rounds c s (ground arith)
      ∙ ap (λ st. read_slice rounds size newline st) (fill-first c s fits)

  pub read_line-first :
      (c : ℕ) (l r : Bytes)
      → Lacks newline (c ∷ l)
      → length ((c ∷ l) ++ (newline ∷ r)) ≤ size
      → read_line size (new_reader size ((c ∷ l) ++ (newline ∷ r))) ≡ (
        ok (record { offset = 0; text = c ∷ l }),
        at ((c ∷ l) ++ (newline ∷ [])) r (zeros ((c ∷ l) ++ (newline ∷ r))),
      )
  unfolding read_line
  read_line-first c l r h fits =
      let start : ℕ = 0 in
      rw
        (
          slice_first 2 c (l ++ (newline ∷ r)) fits,
          slice_of_line 1 [] (c ∷ l) r (zeros ((c ∷ l) ++ (newline ∷ r))) h,
          line_of_found start (c ∷ l),
        )
        refl
