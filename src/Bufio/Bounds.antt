-- ===== src/Bufio/Bounds.antt =====
-- How many bytes the reads of a `bufio.Reader` give.
use serverless_error_ingest.Bufio.{
  Reader, copy_or_end_of, restart, read_of, read, full_or_more, read_full,
}
use serverless_error_ingest.Base.{
  ℕ, zero, suc, ◌-◌, ◌≤◌, inl, inr, Bool, true, false, [], ◌∷◌, arith, leb, Bool-cases, Bytes,
  length, take, length-append,
}

-- A Read gives at most what is asked for, in every state of the reader.
pub length-take-le : (n : ℕ) (s : Bytes) → length (take n s) ≤ n
length-take-le zero s = omega arith
length-take-le (suc n) [] = omega arith
length-take-le (suc n) (c ∷ s) = omega (arith, length-take-le n s)

copy_or_end_of-le : (w : Bytes) (n : ℕ) (st : Reader) → length (copy_or_end_of w n st).0 ≤ n
copy_or_end_of-le [] n st = omega arith
copy_or_end_of-le (c ∷ s) n st = length-take-le n st.window

read_of-le :
    (w : Bytes) (f : Bool) (size n : ℕ) (st : Reader) → length (read_of w f size n st).0 ≤ n
read_of-le (c ∷ s) f size n st = length-take-le n st.window
read_of-le [] true size n st = omega arith
read_of-le [] false size n st = elim (Bool-cases (leb size n)) [
  | inl large ↦ rw large (length-take-le n st.source)
  | inr small ↦ rw small (copy_or_end_of-le (restart st).window n (restart st))
]

read-le : (size n : ℕ) (st : Reader) → length (read size n st).0 ≤ n
unfolding read
read-le size n st = read_of-le st.window st.failed size n st

full_or_more-le :
    (more : ℕ → Reader → Bytes × Reader) (got : Bytes) (n : ℕ) (st : Reader)
    → ((n : ℕ) (st : Reader) → length (more n st).0 ≤ n)
    → length got ≤ suc n
    → length (full_or_more more got n st).0 ≤ suc n
full_or_more-le more [] n st le h = omega arith
full_or_more-le more (c ∷ s) n st le h =
    omega (arith, le (n - length s) st, length-append {0} s (more (n - length s) st).0)

pub read_full-le : (rounds size n : ℕ) (st : Reader) → length (read_full rounds size n st).0 ≤ n
unfolding read_full
read_full-le zero size n st = omega arith
read_full-le (suc rounds) size zero st = omega arith
read_full-le (suc rounds) size (suc n) st =
    full_or_more-le (read_full rounds size) (read size (suc n) st).0 n (read size (suc n) st).1
      (λ n st. read_full-le rounds size n st) (read-le size (suc n) st)
