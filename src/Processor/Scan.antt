-- ===== src/Processor/Scan.antt =====
-- `scan` of lambda/processor/main.go: the pages of the events table, one after the other.
pub mod Paged
use serverless_error_ingest.Query.Cursor.{AttributeValue}
use serverless_error_ingest.Processor.Run.{IssueRow}
use serverless_error_ingest.Base.{
  ℕ, zero, suc, Option, none, some, List, [], ◌∷◌, ◌++◌, Bytes, codes, Result, ok, err, ◌>>=◌,
}

-- `LastEvaluatedKey`; a nil key is the empty list.
abbrev pub StartKey : Type 0
StartKey = List (Bytes × AttributeValue)

-- The parts of `dynamodb.ScanInput` that are set besides the table's name.
pub record ScanInput : Type 0 where
  pub filter : Bytes
  pub values : List (Bytes × Bytes)
  pub start_key : StartKey

-- What DynamoDB answers: its items, each decoded or with the error of decoding it, and the last key.
pub record ScanPage : Type 0 where
  pub items : List (Result Bytes IssueRow)
  pub last_key : StartKey

abbrev pub RunScan : Type 0
RunScan = ScanInput → Result Bytes ScanPage

abbrev pub scan_input : StartKey → ScanInput
scan_input key = record {
  filter = codes "item_type = :it AND status = :st";
  values = (codes ":it", codes "event") ∷ (codes ":st", codes "received") ∷ [];
  start_key = key;
}

-- The inner loop: the rows of a page, or the first error of decoding.
unfoldable pub page_rows : List (Result Bytes IssueRow) → Result Bytes (List IssueRow)
page_rows [] = ok []
page_rows (err e ∷ items) = err e
page_rows (ok row ∷ items) = do rows ← page_rows items; ok (row ∷ rows)

-- `if len(out.LastEvaluatedKey) == 0 { break }`
abbrev pub go_to :
    (StartKey → List IssueRow → Option (Result Bytes (List IssueRow)))
    → StartKey
    → List IssueRow
    → Option (Result Bytes (List IssueRow))
go_to more [] rows = some (ok rows)
go_to more (entry ∷ key) rows = more (entry ∷ key) rows

abbrev pub add_rows :
    (StartKey → List IssueRow → Option (Result Bytes (List IssueRow)))
    → StartKey
    → List IssueRow
    → Result Bytes (List IssueRow)
    → Option (Result Bytes (List IssueRow))
add_rows more key rows (err e) = some (err e)
add_rows more key rows (ok found) = go_to more key (rows ++ found)

abbrev pub add_page :
    (StartKey → List IssueRow → Option (Result Bytes (List IssueRow)))
    → List IssueRow
    → Result Bytes ScanPage
    → Option (Result Bytes (List IssueRow))
add_page more rows (err e) = some (err e)
add_page more rows (ok page) = add_rows more page.last_key rows (page_rows page.items)

-- The outer loop, with the rows so far; none stands for too few rounds.
unfoldable pub scan_from :
    RunScan → ℕ → StartKey → List IssueRow → Option (Result Bytes (List IssueRow))
scan_from run_scan zero key rows = none
scan_from run_scan (suc rounds) key rows =
    add_page (scan_from run_scan rounds) rows (run_scan (scan_input key))

-- `scan`
unfoldable pub scan : RunScan → ℕ → Option (Result Bytes (List IssueRow))
unfolding scan_from
scan run_scan rounds = scan_from run_scan rounds [] []
