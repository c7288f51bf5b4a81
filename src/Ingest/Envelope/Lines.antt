-- ===== src/Ingest/Envelope/Lines.antt =====
-- `readLine` on the buffered reader, and `next_line` on the bytes that are left.
use serverless_error_ingest.Text.{
  Lacks, cut_byte, cut_byte-Lacks, cut_byte-none, IsCutAt, absent, present, cut_byte-IsCutAt,
}
use serverless_error_ingest.Bufio.Laws.{IsReady, Shows, Yields, line, last, full, read_slice-Yields}
use serverless_error_ingest.Bufio.{Reader, buffer, remaining, Slice, ReadSlice, found, ended}
use serverless_error_ingest.Ingest.Envelope.{
  newline, LineError, eof, line_too_long, strip_newline, stripped, line_of, read_line,
}
use serverless_error_ingest.Ingest.Envelope.Plain.{next_line, last_line}
use serverless_error_ingest.Base.{
  ℕ, zero, suc, ◌≤◌, ◌<◌, ◌≡◌, refl, sym, ap, ◌∙◌, true, false, [], ◌∷◌, ◌++◌, append-nil, arith,
  lt→ltb, Bytes, is_empty, Result, ok, err, length, take, drop,
}

-- The result of `readLine` beside that of `next_line`, and the state left behind.
pub data LineRead (size : ℕ)
    : Result LineError (Bytes × Bytes) → Result LineError Slice × Reader → Type 0 where
  got :
      (s : Slice) (st : Reader)
      → IsReady size st
      → Shows st s
      → length s.text < size
      → LineRead size (ok (s.text, remaining st)) (ok s, st)
  failed : (e : LineError) (st : Reader) → LineRead size (err e) (err e, st)

pub strip_newline-append : (l : Bytes) → (strip_newline (l ++ (newline ∷ []))).0 ≡ l
unfolding strip_newline
strip_newline-append [] = refl
strip_newline-append (c ∷ []) = refl
strip_newline-append (c ∷ d ∷ l) = ap (◌∷◌ c) (strip_newline-append (d ∷ l))

pub strip_newline-Lacks : (l : Bytes) → Lacks newline l → (strip_newline l).0 ≡ l
unfolding strip_newline
strip_newline-Lacks [] h = refl
strip_newline-Lacks (c ∷ []) h = ground arith
strip_newline-Lacks (c ∷ d ∷ l) h = ap (◌∷◌ c) (strip_newline-Lacks (d ∷ l) h.1)

-- A view that is cut short still shows its bytes.
take-prefix : (l t x : Bytes) → take (length (l ++ t)) x ≡ l ++ t → take (length l) x ≡ l
take-prefix [] t x e = refl
take-prefix (c ∷ l) t [] e = cc
take-prefix (c ∷ l) t (y ∷ x) e =
    let e' : take (length (l ++ t)) x ≡ l ++ t = cc in cc (take-prefix l t x e')

is_empty-append : (l : Bytes) (c : ℕ) → is_empty (l ++ (c ∷ [])) ≡ false
unfolding is_empty
is_empty-append [] c = refl
is_empty-append (x ∷ l) c = refl

stripped-Shows :
    (l t : Bytes) (s : Slice) (st : Reader)
    → s.text ≡ l ++ t
    → (strip_newline s.text).0 ≡ l
    → Shows st s
    → Shows st (stripped s)
stripped-Shows l t s st e stripped_is shows =
    rw stripped_is (take-prefix l t (drop s.offset (buffer st)) (rw e at shows))

next_line-append :
    (size : ℕ) (l r : Bytes)
    → Lacks newline l
    → length l < size
    → next_line size (l ++ (newline ∷ r)) ≡ ok (l, r)
unfolding next_line
next_line-append size l r h lt = rw (cut_byte-Lacks newline l r h, next_line, lt→ltb _ _ lt)

next_line_last :
    (size : ℕ) (c : ℕ) (s : Bytes)
    → Lacks newline (c ∷ s)
    → length (c ∷ s) < size
    → next_line size (c ∷ s) ≡ ok (c ∷ s, [])
unfolding next_line
next_line_last size c s h lt = rw (cut_byte-none newline (c ∷ s) h, next_line, lt→ltb _ _ lt)

-- A newline that stands past the first `size` bytes ends no line.
Lacks-take_length :
    (size : ℕ) (l r : Bytes) → Lacks newline (take size (l ++ (newline ∷ r))) → size ≤ length l
Lacks-take_length zero l r h = omega arith
Lacks-take_length (suc n) [] r h = absurd (h.0 refl)
Lacks-take_length (suc n) (c ∷ l) r h = omega (arith, Lacks-take_length n l r h.1)

next_line_full :
    (size : ℕ) (s : Bytes)
    → 0 < size
    → Lacks newline (take size s)
    → size ≤ length s
    → next_line size s ≡ err line_too_long
unfolding next_line
next_line_full size s room h le = go (cut_byte-IsCutAt newline s)
  where
    last_full : (s : Bytes) → size ≤ length s → last_line size s ≡ err line_too_long
    last_full [] le = absurd (omega (arith, room))
    last_full (c ∷ s) le = ground arith

    go : IsCutAt newline s → next_line size s ≡ err line_too_long
    go (absent e _) = rw (e, next_line) (last_full s le)
    go (present l r e split _) =
        let far = Lacks-take_length size l r (rw split at h) in rw (e, next_line) (ground arith)

line_of_full : (s : Slice) → is_empty s.text ≡ false → line_of (found s) ≡ ok (stripped s)
unfolding line_of is_empty
line_of_full s e = rw e

found-LineRead :
    (size : ℕ) (rest l r : Bytes) (s : Slice) (st : Reader)
    → rest ≡ l ++ (newline ∷ r)
    → Lacks newline l
    → length l < size
    → s.text ≡ l ++ (newline ∷ [])
    → remaining st ≡ r
    → IsReady size st
    → Shows st s
    → LineRead size (next_line size rest) (line_of (found s), st)
found-LineRead size rest l r s st split h lt text left v shows =
    let same : (strip_newline s.text).0 ≡ l = rw text (strip_newline-append l) in
    let full : is_empty s.text ≡ false = rw text (is_empty-append l newline) in
    let is : next_line size rest ≡ ok ((stripped s).text, remaining st) =
      cc (next_line-append size l r h lt) in
    rw (is, line_of_full s full)
      (got (stripped s) st v (stripped-Shows l (newline ∷ []) s st text same shows) (rw same lt))

ended-LineRead :
    (size : ℕ) (rest : Bytes) (s : Slice) (st : Reader)
    → Lacks newline rest
    → length rest < size
    → s.text ≡ rest
    → remaining st ≡ []
    → IsReady size st
    → Shows st s
    → LineRead size (next_line size rest) (line_of (ended s), st)
unfolding line_of is_empty
ended-LineRead size [] s st h lt text left v shows =
    let none : is_empty s.text ≡ true = rw (text, is_empty) in
    unfold next_line cut_byte in rw none (failed eof st)
ended-LineRead size (c ∷ t) s st h lt text left v shows =
    let same : (strip_newline s.text).0 ≡ c ∷ t = rw text (strip_newline-Lacks (c ∷ t) h) in
    let full : is_empty s.text ≡ false = rw (text, is_empty) in
    let is : next_line size (c ∷ t) ≡ ok ((stripped s).text, remaining st) =
      cc (next_line_last size c t h lt) in
    rw (is, full)
      (got (stripped s) st v
        (stripped-Shows (c ∷ t) [] s st (text ∙ sym (append-nil (c ∷ t))) same shows) (rw same lt))

pub read_line-LineRead :
    (size : ℕ) (st : Reader)
    → 0 < size
    → IsReady size st
    → LineRead size (next_line size (remaining st)) (read_line size st)
unfolding read_line
read_line-LineRead size st room v = go _ (read_slice-Yields size newline st v)
  where
    go :
        (r : ReadSlice × Reader)
        → Yields size newline (remaining st) r
        → LineRead size (next_line size (remaining st)) (line_of r.0, r.1)
    go _ (line l r s st' split h lt text left v' shows) =
        found-LineRead size (remaining st) l r s st' split h lt text left v' shows
    go _ (last s st' h lt text left v' shows) =
        ended-LineRead size (remaining st) s st' h lt text left v' shows
    go _ (full st' h le) =
        rw (next_line_full size (remaining st) room h le) (failed line_too_long st')
