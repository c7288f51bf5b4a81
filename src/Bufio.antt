-- ===== src/Bufio.antt =====
-- Go's `bufio.Reader` over a `bytes.Reader`, as lambda/ingest/envelope.go uses it: the buffer is one
-- array of `size` bytes, and `ReadSlice` returns a view of that array, not a copy.
pub mod Laws
pub mod Reads
pub mod Single
pub mod Settled
pub mod Bounds
use serverless_error_ingest.Text.{cut_byte}
use serverless_error_ingest.Base.{
  ℕ, zero, suc, ◌-◌, Bool, true, false, Option, none, some, [], ◌∷◌, ◌++◌, leb, if◌then◌else◌,
  Bytes, length, take, drop, replicate,
}

-- `before`, `window` and `after` are `buf[:r]`, `buf[r:w]` and `buf[w:]`; `source` is what the
-- underlying reader still holds; `failed` tells that `err` holds io.EOF.
pub record Reader : Type 0 where
  pub before : Bytes
  pub window : Bytes
  pub after : Bytes
  pub source : Bytes
  pub failed : Bool

-- The whole array.
abbrev pub buffer : Reader → Bytes
buffer st = st.before ++ (st.window ++ st.after)

-- What has not been consumed.
abbrev pub remaining : Reader → Bytes
remaining st = st.window ++ st.source

-- A view `buf[offset:offset+len(text)]`, with the bytes that it shows when it is returned.
pub record Slice : Type 0 where
  pub offset : ℕ
  pub text : Bytes

unfoldable pub new_reader : ℕ → Bytes → Reader
new_reader size body = record {
  before = [];
  window = [];
  after = replicate size 0;
  source = body;
  failed = false;
}

-- `copy(b.buf, b.buf[b.r:b.w])`, with `b.w -= b.r; b.r = 0`: the bytes behind the copy stay.
abbrev pub slide : Reader → Reader
slide st = record st { before = []; after = drop (length st.window) (buffer st) }

-- `n, err := b.rd.Read(b.buf[b.w:])`
abbrev pub receive_from : Bytes → Reader → Reader
receive_from [] st = record st { failed = true }
receive_from (c ∷ s) st = record st {
  window = st.window ++ take (length st.after) (c ∷ s);
  after = drop (length (c ∷ s)) st.after;
  source = drop (length st.after) (c ∷ s);
}

abbrev pub receive : Reader → Reader
receive st = receive_from st.source st

unfoldable pub fill : Reader → Reader
fill st = receive (slide st)

-- `ReadSlice`: a view with no error, a view with io.EOF, or ErrBufferFull. The last case is that
-- the rounds ran out.
pub data ReadSlice : Type 0 where
  found : Slice → ReadSlice
  ended : Slice → ReadSlice
  buffer_full : ReadSlice
  no_progress : ReadSlice

-- The view ends behind the first delimiter.
abbrev pub take_line : ℕ → Reader → Bytes → Bytes → ReadSlice × Reader
take_line delim st l r =
    let text = l ++ (delim ∷ []) in
    (
      found (record { offset = length st.before; text = text }),
      record st { before = st.before ++ text; window = r },
    )

abbrev pub take_window : Reader → Reader
take_window st = record st { before = st.before ++ st.window; window = [] }

unfoldable pub read_slice : ℕ → ℕ → ℕ → Reader → ReadSlice × Reader
read_slice zero size delim st = (no_progress, st)
read_slice (suc rounds) size delim st = elim (cut_byte delim st.window) [
  | some (l, r) ↦ take_line delim st l r
  | none ↦ elim st.failed [
    | true ↦ (
      ended (record { offset = length st.before; text = st.window }),
      record (take_window st) { failed = false },
    )
    | false ↦ elim (leb size (length st.window)) [
      | true ↦ (buffer_full, take_window st)
      | false ↦ read_slice rounds size delim (fill st)
    ]
  ]
]

-- One buffered line needs no fill, the end of the input two.
abbrev pub max_rounds : ℕ
max_rounds = 3

-- `b.r = 0; b.w = 0; n, b.err = b.rd.Read(b.buf)`
abbrev pub restart : Reader → Reader
restart st = receive (record st { before = []; window = []; after = buffer st })

-- `ReadByte`: a byte, or io.EOF. The first arguments are the window and the pending error.
abbrev pub read_byte_of : Bytes → Bool → (Reader → Option ℕ × Reader) → Reader → Option ℕ × Reader
read_byte_of (c ∷ s) f more st = (some c, record st { before = st.before ++ (c ∷ []); window = s })
read_byte_of [] true more st = (none, record st { failed = false })
read_byte_of [] false more st = more (fill st)

unfoldable pub read_byte_in : ℕ → Reader → Option ℕ × Reader
read_byte_in zero st = (none, st)
read_byte_in (suc rounds) st = read_byte_of st.window st.failed (read_byte_in rounds) st

unfoldable pub read_byte : Reader → Option ℕ × Reader
unfolding read_byte_in
read_byte st = read_byte_in max_rounds st

-- `n = copy(p, b.buf[b.r:b.w]); b.r += n`
abbrev pub copy_out : ℕ → Reader → Bytes × Reader
copy_out n st = (
  take n st.window,
  record st { before = st.before ++ take n st.window; window = drop n st.window },
)

-- After the one read into the array: copy, or `return 0, b.readErr()` if nothing came. The first
-- argument is the window.
abbrev pub copy_or_end_of : Bytes → ℕ → Reader → Bytes × Reader
copy_or_end_of (c ∷ s) n st = copy_out n st
copy_or_end_of [] n st = ([], record st { failed = false })

abbrev pub copy_or_end : ℕ → Reader → Bytes × Reader
copy_or_end n st = copy_or_end_of st.window n st

-- `Read(p)` with `len(p) = n > 0`; no bytes stand for io.EOF. An empty buffer is passed over if `p`
-- is at least as large. The first arguments are the window and the pending error.
abbrev pub read_of : Bytes → Bool → ℕ → ℕ → Reader → Bytes × Reader
read_of (c ∷ s) f size n st = copy_out n st
read_of [] true size n st = ([], record st { failed = false })
read_of [] false size n st =
    if leb size n
    then (take n st.source, record st { source = drop n st.source })
    else copy_or_end n (restart st)

unfoldable pub read : ℕ → ℕ → Reader → Bytes × Reader
read size n st = read_of st.window st.failed size n st

-- One round of `io.ReadAtLeast`: stop at the end of the input, or read on.
abbrev pub full_or_more : (ℕ → Reader → Bytes × Reader) → Bytes → ℕ → Reader → Bytes × Reader
full_or_more more [] n st = ([], st)
full_or_more more (c ∷ s) n st =
    let (rest, last) = more (n - length s) st in (c ∷ (s ++ rest), last)

-- `io.ReadFull(br, payload)`: the bytes read, fewer than `n` only at the end of the input. Each
-- round but the last reads a byte or more, so `n` rounds are enough.
unfoldable pub read_full : ℕ → ℕ → ℕ → Reader → Bytes × Reader
read_full zero size n st = ([], st)
read_full (suc rounds) size zero st = ([], st)
read_full (suc rounds) size (suc n) st =
    let (got, st') = read size (suc n) st in full_or_more (read_full rounds size) got n st'
