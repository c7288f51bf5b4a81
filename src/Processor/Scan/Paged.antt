-- ===== src/Processor/Scan/Paged.antt =====
-- The scan over a table that is answered page by page.
use serverless_error_ingest.Processor.Run.{IssueRow}
use serverless_error_ingest.Processor.Scan.{
  StartKey, ScanPage, RunScan, scan_input, page_rows, go_to, add_rows, add_page, scan_from, scan,
}
use serverless_error_ingest.Base.{
  ℕ, zero, suc, ◌<◌, ◌≡◌, refl, sym, ap, ◌∙◌, ◌≢◌, Option, some, List, [], ◌∷◌, ◌++◌, append_assoc,
  arith, Bytes, Result, ok, err, ◌>>=◌, bind-ok,
}

-- What a page is, where `rest` gives the matching items from a key on and `left` how many items of the
-- table are behind it: at the end it has all that is left, and otherwise its last key is further on.
pub data IsPage (rest : StartKey → List (Result Bytes IssueRow)) (left : StartKey → ℕ)
    (key : StartKey) (page : ScanPage) : Type 0 where
  last : page.last_key ≡ [] → rest key ≡ page.items → IsPage rest left key page
  more :
      page.last_key ≢ []
      → left page.last_key < left key
      → rest key ≡ page.items ++ rest page.last_key
      → IsPage rest left key page

-- The documented paging of a table: every page that is answered is one of these.
pub record IsPaged (run_scan : RunScan) (rest : StartKey → List (Result Bytes IssueRow))
    (left : StartKey → ℕ) : Type 0 where
  pub pages :
      (key : StartKey) (page : ScanPage)
      → run_scan (scan_input key) ≡ ok page
      → IsPage rest left key page

-- The items that are decoded to the rows.
abbrev pub decoded : List IssueRow → List (Result Bytes IssueRow)
decoded [] = []
decoded (row ∷ rows) = ok row ∷ decoded rows

-- Where an error of a scan comes from: a call that fails, or an item that is not decoded.
pub data Cause (run_scan : RunScan) (items : List (Result Bytes IssueRow)) (e : Bytes)
    : Type 0 where
  call : (key : StartKey) → run_scan (scan_input key) ≡ err e → Cause run_scan items e
  item :
      (before after : List (Result Bytes IssueRow))
      → items ≡ before ++ (err e ∷ after)
      → Cause run_scan items e

-- The result of a scan: an error with its cause, or the rows so far and those that the items left are
-- decoded to, one for each item, in order.
pub data Scanned (run_scan : RunScan) (items : List (Result Bytes IssueRow)) (rows : List IssueRow)
    (r : Option (Result Bytes (List IssueRow))) : Type 0 where
  stopped : (e : Bytes) → Cause run_scan items e → r ≡ some (err e) → Scanned run_scan items rows r
  complete :
      (found : List IssueRow)
      → items ≡ decoded found
      → r ≡ some (ok (rows ++ found))
      → Scanned run_scan items rows r

decoded-append : (xs ys : List IssueRow) → decoded xs ++ decoded ys ≡ decoded (xs ++ ys)
decoded-append [] ys = refl
decoded-append (row ∷ xs) ys = ap (λ items. ok row ∷ items) (decoded-append xs ys)

pub page_rows-ok :
    (items : List (Result Bytes IssueRow)) (found : List IssueRow)
    → page_rows items ≡ ok found
    → items ≡ decoded found
unfolding page_rows
page_rows-ok [] found e = let none_found : [] ≡ found = cc in rw (← none_found) refl
page_rows-ok (err x ∷ items) found e = cc
page_rows-ok (ok row ∷ items) found e =
    let (rest, read, whole) = bind-ok (page_rows items) (λ rows. ok (row ∷ rows)) found e in
    let same : (row ∷ rest) ≡ found = cc in
    ap (λ items. ok row ∷ items) (page_rows-ok items rest read) ∙ ap decoded same

-- The first item that is not decoded.
page_rows-err :
    (items : List (Result Bytes IssueRow)) (e : Bytes)
    → page_rows items ≡ err e
    → (before : List (Result Bytes IssueRow)) × (after : List (Result Bytes IssueRow)) × (items
        ≡ before ++ (err e ∷ after))
unfolding page_rows
page_rows-err [] e h = cc
page_rows-err (err x ∷ items) e h =
    let same : x ≡ e = cc in ([], items, ap (λ e. err e ∷ items) same)
page_rows-err (ok row ∷ items) e h =
    let (before, after, whole) = page_rows-err items e (rest_err (page_rows items) h) in
    (ok row ∷ before, after, ap (λ items. ok row ∷ items) whole)
  where
    rest_err :
        (r : Result Bytes (List IssueRow)) → (r >>= λ rows. ok (row ∷ rows)) ≡ err e → r ≡ err e
    rest_err (ok rows) h = cc
    rest_err (err x) h = h

go_to-more :
    (next : StartKey → List IssueRow → Option (Result Bytes (List IssueRow))) (key : StartKey)
    (rows : List IssueRow)
    → key ≢ []
    → go_to next key rows ≡ next key rows
go_to-more next [] rows h = absurd (h refl)
go_to-more next (entry ∷ key) rows h = refl

module _ (run_scan : RunScan) (rest : StartKey → List (Result Bytes IssueRow)) (left : StartKey → ℕ)
    (paged : IsPaged run_scan rest left) where
  behind-Scanned :
      (key after : StartKey) (items : List (Result Bytes IssueRow)) (rows found : List IssueRow)
      (r s : Option (Result Bytes (List IssueRow)))
      → rest key ≡ items ++ rest after
      → items ≡ decoded found
      → s ≡ r
      → Scanned run_scan (rest after) (rows ++ found) r
      → Scanned run_scan (rest key) rows s
  behind-Scanned key after items rows found r s whole read same (stopped e cause q) =
      stopped e (behind cause) (same ∙ q)
    where
      behind : Cause run_scan (rest after) e → Cause run_scan (rest key) e
      behind (call k fails) = call k fails
      behind (item before later at) =
          item (items ++ before) later (
            whole ∙ ap (λ left. items ++ left) at ∙ sym (append_assoc items before (err e ∷ later)))
  behind-Scanned key after items rows found r s whole read same (complete later l q) =
      complete (found ++ later) (rw (whole, read, l) (decoded-append found later))
        (same ∙ q ∙ ap (λ z. some (ok z)) (append_assoc rows found later))

  rows-Scanned :
      (next : StartKey → List IssueRow → Option (Result Bytes (List IssueRow))) (key : StartKey)
      (page : ScanPage) (rows : List IssueRow) (r : Result Bytes (List IssueRow))
      → IsPage rest left key page
      → page_rows page.items ≡ r
      → ((rows : List IssueRow)
          → left page.last_key < left key
          → Scanned run_scan (rest page.last_key) rows (next page.last_key rows))
      → Scanned run_scan (rest key) rows (add_rows next page.last_key rows r)
  rows-Scanned next key page rows (err e) p read ih =
      let (before, after, whole) = page_rows-err page.items e read in
      stopped e (page_cause p before after whole) refl
    where
      page_cause :
          IsPage rest left key page
          → (before after : List (Result Bytes IssueRow)) → page.items ≡ before ++ (err e ∷ after)
          → Cause run_scan (rest key) e
      page_cause (last end is) before after whole = item before after (is ∙ whole)
      page_cause (more go less is) before after whole = item before (after ++ rest page.last_key) (
          is
          ∙ ap (λ items. items ++ rest page.last_key) whole
          ∙ append_assoc before (err e ∷ after) (rest page.last_key))
  rows-Scanned next key page rows (ok found) (last end whole) read ih =
      complete found (whole ∙ page_rows-ok page.items found read)
        (ap (λ k. go_to next k (rows ++ found)) end)
  rows-Scanned next key page rows (ok found) (more go less whole) read ih =
      behind-Scanned key page.last_key page.items rows found _ _ whole
        (page_rows-ok page.items found read) (go_to-more next page.last_key (rows ++ found) go)
        (ih (rows ++ found) less)

  page-Scanned :
      (next : StartKey → List IssueRow → Option (Result Bytes (List IssueRow))) (key : StartKey)
      (rows : List IssueRow) (r : Result Bytes ScanPage)
      → run_scan (scan_input key) ≡ r
      → ((after : StartKey) (rows : List IssueRow)
          → left after < left key
          → Scanned run_scan (rest after) rows (next after rows))
      → Scanned run_scan (rest key) rows (add_page next rows r)
  page-Scanned next key rows (err e) answer ih = stopped e (call key answer) refl
  page-Scanned next key rows (ok page) answer ih =
      rows-Scanned next key page rows (page_rows page.items) (paged.pages key page answer) refl
        (ih page.last_key)

  scan_from-Scanned :
      (rounds : ℕ) (key : StartKey) (rows : List IssueRow)
      → left key < rounds
      → Scanned run_scan (rest key) rows (scan_from run_scan rounds key rows)
  unfolding scan_from
  scan_from-Scanned zero key rows h = elim h [ ]
  scan_from-Scanned (suc rounds) key rows h =
      page-Scanned (scan_from run_scan rounds) key rows (run_scan (scan_input key)) refl
        (λ after found less. scan_from-Scanned rounds after found (omega arith))

  -- With more rounds than there are items in a table that is paged as documented, the scan ends: with
  -- the error of a call or of a matching item that is not decoded, or with the rows that all matching
  -- items of the table are decoded to, one for each, in their order.
  pub scan-Scanned :
      (rounds : ℕ) → left [] < rounds → Scanned run_scan (rest []) [] (scan run_scan rounds)
  unfolding scan
  scan-Scanned rounds h = scan_from-Scanned rounds [] [] h
