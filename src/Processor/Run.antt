-- ===== src/Processor/Run.antt =====
-- `handleRun` of lambda/processor/main.go, over the events table.
pub mod Grouped
pub mod Advisory
use serverless_error_ingest.Ingest.Compress.{Ending, at_eof, fails, fails_with_bytes, Stream}
use serverless_error_ingest.Processor.Ai.{AiClient, ChatApi, ai_summarize}
use serverless_error_ingest.Processor.Issue.{SentryEvent, compute_issue_id, summarize, ai_prompt}
use serverless_error_ingest.Base.{
  ℕ, suc, Bool, true, false, ◌&&◌, ◌||◌, Option, none, some, List, [], ◌∷◌, if◌then◌else◌, Bytes,
  codes, equal, is_some, Result, ok, err, ◌>>=◌,
}

-- The fields of a row that the processor reads or writes; a row that is not grouped has no issue.
pub record IssueRow : Type 0 where
  pub project_id : Bytes
  pub event_id : Bytes
  pub status : Bytes
  pub s3_path : Bytes
  pub issue_id : Option Bytes
  pub summary : Bytes

-- The table, newest first: a row hides the older ones of its key.
unfoldable pub find_row : Bytes → Bytes → List IssueRow → Option IssueRow
unfolding equal
find_row p e [] = none
find_row p e (r ∷ table) =
    let older = find_row p e table in
    if equal r.project_id p && equal r.event_id e then some r else older

-- What the processor asks of its dependencies: S3's answer for a path, `json.Unmarshal` of an event, the
-- hash, an optional AI client with its endpoint, and which updates fail.
pub record Worker : Type 0 where
  pub get_object : Bytes → Result Bytes Stream
  pub unmarshal : Bytes → Result Bytes SentryEvent
  pub sha256 : Bytes → Bytes
  pub unicode_lower : Bytes → Bytes
  pub ai : Option AiClient
  pub chat : ChatApi
  pub update_fails : IssueRow → Bool

-- `io.ReadAll(out.Body)`
abbrev pub read_object : Bytes → Ending → Result Bytes Bytes
read_object content at_eof = ok content
read_object content (fails e) = err e
read_object content (fails_with_bytes e) = err e

-- `fetch`
unfoldable pub fetch : Worker → Bytes → Result Bytes Bytes
fetch worker path = do body ← worker.get_object path; read_object body.content body.ending

-- `attribute_not_exists(issue_id)`, which holds of a missing row.
abbrev pub has_issue : Option IssueRow → Bool
has_issue none = false
has_issue (some r) = is_some r.issue_id

-- The row that the update expression leaves: the three attributes are set on the row that is there.
abbrev pub set_on : Option IssueRow → IssueRow → IssueRow
set_on none row = record row { s3_path = [] }
set_on (some r) row = record r {
  status = row.status;
  issue_id = row.issue_id;
  summary = row.summary;
}

-- `update`: whether it succeeds, and the table.
unfoldable pub update : Worker → IssueRow → List IssueRow → Bool × List IssueRow
unfolding find_row
update worker row table =
    let found = find_row row.project_id row.event_id table in
    if worker.update_fails row || has_issue found then (false, table) else (
      true,
      record (set_on found row) { project_id = row.project_id; event_id = row.event_id } ∷ table,
    )

module _ (worker : Worker) where
  -- The AI's summary where there is a client and it answers, the plain one otherwise.
  abbrev pub ai_or : Bytes → Result Bytes Bytes → Bytes
  ai_or plain (err e) = plain
  ai_or plain (ok s) = s

  abbrev pub asked : Option AiClient → SentryEvent → Bytes
  asked none ev = summarize ev
  asked (some client) ev = ai_or (summarize ev) (ai_summarize worker.chat client (ai_prompt ev))

  unfoldable pub grouped_row : IssueRow → SentryEvent → IssueRow
  unfolding compute_issue_id summarize ai_prompt ai_summarize
  grouped_row row ev = record row {
    status = codes "grouped";
    issue_id = some (compute_issue_id worker.unicode_lower worker.sha256 ev);
    summary = asked worker.ai ev;
  }

  abbrev pub parse_sentry_event : Bytes → Result Bytes SentryEvent
  parse_sentry_event raw = do ev ← worker.unmarshal raw; ok ev

  -- The event of a row: `d.fetch` and `parseSentryEvent`.
  abbrev pub event_of : IssueRow → Result Bytes SentryEvent
  event_of row = do raw ← fetch worker row.s3_path; parse_sentry_event raw

  abbrev pub update_with :
      IssueRow → Result Bytes SentryEvent → List IssueRow → Bool × List IssueRow
  update_with row (err e) table = (false, table)
  update_with row (ok ev) table = update worker (grouped_row row ev) table

  -- One round: whether the row is counted as grouped, and the table.
  unfoldable pub group_row : IssueRow → List IssueRow → Bool × List IssueRow
  group_row row table = update_with row (event_of row) table

  -- The loop; the number counts the rows that are grouped.
  unfoldable pub group_rows : List IssueRow → List IssueRow → ℕ × List IssueRow
  group_rows [] table = (0, table)
  group_rows (row ∷ rows) table =
      let (good, table') = group_row row table in
      let (grouped, last) = group_rows rows table' in (if good then suc grouped else grouped, last)

  -- `handleRun` on what the scan answers.
  unfoldable pub handle_run :
      Result Bytes (List IssueRow) → List IssueRow → Result Bytes ℕ × List IssueRow
  handle_run (err e) table = (err e, table)
  handle_run (ok rows) table = let (grouped, last) = group_rows rows table in (ok grouped, last)
