-- ===== src/Tests/Processor.antt =====
-- The processor on a table of two rows.
use serverless_error_ingest.Ingest.Compress.{at_eof}
use mathlib.Core.Path.{subst}
use serverless_error_ingest.Query.Cursor.{text}
use serverless_error_ingest.Processor.Scan.{
  StartKey, ScanPage, RunScan, scan_input, page_rows, scan,
}
use serverless_error_ingest.Processor.Scan.Paged.{
  IsPage, last, more, IsPaged, Scanned, scan-Scanned,
}
use serverless_error_ingest.Processor.Config.{ProcessorDeps, new_default_deps}
use serverless_error_ingest.Processor.Config.OptIn.{Decides, new_default_deps-Decides}
use serverless_error_ingest.Processor.Ai.{AiClient, ChatApi, chat_request, ai_summarize}
use serverless_error_ingest.Processor.Ai.Private.{by_message, ai_summarize-Agree}
use serverless_error_ingest.Processor.Run.Advisory.{IsBlind, outcome, handle_run-advisory}
use serverless_error_ingest.Processor.Issue.{SentryEvent, ai_prompt}
use serverless_error_ingest.Processor.Batch.{run_batch, Grouping, run_batch-Grouping}
use serverless_error_ingest.Processor.Run.{IssueRow, Worker, fetch, find_row, has_issue, handle_run}
use serverless_error_ingest.Processor.Run.Grouped.{handle_run_kept}
use serverless_error_ingest.Tests.Samples.{zero_hash}
use serverless_error_ingest.Base.{
  ℕ, ◌≡◌, refl, true, false, Option, none, some, List, [], ◌∷◌, arith, Bytes, codes, Result, ok,
}

abbrev plain_event : Bytes → SentryEvent
plain_event raw = record { platform = []; level = []; message = raw; values = [] }

-- The payload of a row is its path, and its message too.
-- An endpoint that answers with the body of the request, which is the prompt.
abbrev chat_api : ChatApi
chat_api = record {
  encode = λ payload. payload.model;
  refuses = λ url. none;
  send = λ req. ok (record { status = 200; body = record { content = req.body; ending = at_eof } });
  decode = λ text. ok (text ∷ []);
}

abbrev worker : Worker
worker = record {
  get_object = λ path. ok (record { content = path; ending = at_eof });
  unmarshal = λ raw. ok (plain_event raw);
  sha256 = zero_hash;
  unicode_lower = λ s. s;
  ai = none;
  chat = chat_api;
  update_fails = λ row. false;
}

abbrev row_of_event : Bytes → Option Bytes → IssueRow
row_of_event id issue = record {
  project_id = codes "7";
  event_id = id;
  status = codes "received";
  s3_path = id;
  issue_id = issue;
  summary = [];
}

abbrev fresh : IssueRow
fresh = row_of_event (codes "ab") none

abbrev table : List IssueRow
table = row_of_event (codes "cd") (some (codes "i1")) ∷ fresh ∷ []

has_one : has_issue (find_row (codes "7") (codes "cd") table) ≡ true
unfolding find_row
has_one = refl

handle_run_kept_example :
    find_row (codes "7") (codes "cd") (handle_run worker (ok table) table).1
    ≡ find_row (codes "7") (codes "cd") table
handle_run_kept_example = handle_run_kept worker (ok table) table (codes "7") (codes "cd") has_one

has_none : has_issue (find_row (codes "7") (codes "ab") table) ≡ false
unfolding find_row
has_none = refl

-- A scan of two pages.
abbrev last_key : StartKey
last_key = (codes "event_id", text (codes "ab")) ∷ []

abbrev page_from : StartKey → ScanPage
page_from [] = record { items = ok fresh ∷ []; last_key = last_key }
page_from (entry ∷ key) = record { items = ok (row_of_event (codes "ef") none) ∷ []; last_key = [] }

abbrev two_pages : RunScan
two_pages input = ok (page_from input.start_key)

abbrev rest_from : StartKey → List (Result Bytes IssueRow)
rest_from [] = ok fresh ∷ ok (row_of_event (codes "ef") none) ∷ []
rest_from (entry ∷ key) = ok (row_of_event (codes "ef") none) ∷ []

abbrev left_from : StartKey → ℕ
left_from [] = 2
left_from (entry ∷ key) = 1

page_from-IsPage : (key : StartKey) → IsPage rest_from left_from key (page_from key)
page_from-IsPage [] = more (λ e. cc) (omega arith) refl
page_from-IsPage (entry ∷ key) = last refl refl

page_from_same :
    (key : StartKey) (page : ScanPage) → two_pages (scan_input key) ≡ ok page → page_from key ≡ page
page_from_same key page e = cc

two_pages-IsPaged : IsPaged two_pages rest_from left_from
two_pages-IsPaged = record {
  pages = λ key page e.
      subst (IsPage rest_from left_from key) (page_from_same key page e) (page_from-IsPage key);
}

scan-Scanned_example : Scanned two_pages (rest_from []) [] (scan two_pages 3)
scan-Scanned_example = scan-Scanned two_pages rest_from left_from two_pages-IsPaged 3 (omega arith)

both_rows : scan two_pages 3 ≡ some (ok (fresh ∷ row_of_event (codes "ef") none ∷ []))
unfolding scan page_rows
both_rows = refl

run_batch-Grouping_example :
    Grouping worker
      (plain_event (codes "ab"))
      (codes "7")
      (codes "ab")
      table
      (run_batch worker two_pages 3 table)
unfolding fetch page_rows
run_batch-Grouping_example =
    run_batch-Grouping worker fresh (plain_event (codes "ab")) []
      (row_of_event (codes "ef") none ∷ []) table tt refl has_none refl two_pages rest_from
      left_from 3 two_pages-IsPaged (omega arith) refl

-- The chat endpoint.
abbrev client : AiClient
client = record { endpoint = codes "https://ai"; key = codes "s"; model = codes "m" }

abbrev with_user : SentryEvent
with_user = record {
  platform = codes "js";
  level = codes "error";
  message = codes "no";
  values = [];
}

ai_summarize-Agree_example :
    (chat_request chat_api client (ai_prompt with_user)
      ≡ chat_request chat_api client (ai_prompt (plain_event (codes "no"))))
    × (ai_summarize chat_api client (ai_prompt with_user)
        ≡ ai_summarize chat_api client (ai_prompt (plain_event (codes "no"))))
ai_summarize-Agree_example = ai_summarize-Agree chat_api client (by_message refl refl refl)

worker-IsBlind : IsBlind worker
worker-IsBlind = record { same = λ row. refl }

handle_run-advisory_example :
    outcome (handle_run worker (ok table) table)
    ≡ outcome (handle_run (record worker { ai = some client; chat = chat_api }) (ok table) table)
handle_run-advisory_example =
    handle_run-advisory worker (some client) chat_api (ok table) table worker-IsBlind

-- An environment that sets everything to true.
abbrev all_true : Bytes → Bytes
all_true name = codes "true"

abbrev allowed_deps : ProcessorDeps
allowed_deps = record {
  events_table = codes "true";
  raw_bucket = codes "true";
  ai = some (record { endpoint = codes "true"; key = codes "true"; model = codes "true" });
}

opted : new_default_deps none all_true ≡ ok allowed_deps
unfolding new_default_deps
opted = refl

new_default_deps-Decides_example : Decides all_true allowed_deps.ai
new_default_deps-Decides_example = new_default_deps-Decides none all_true allowed_deps opted
