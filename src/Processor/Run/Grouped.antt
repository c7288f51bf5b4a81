-- ===== src/Processor/Run/Grouped.antt =====
-- What a run of the processor does to the row of a key.
use mathlib.Core.Path.{subst}
use serverless_error_ingest.Processor.Issue.{SentryEvent, compute_issue_id}
use serverless_error_ingest.Processor.Run.{
  IssueRow, find_row, Worker, has_issue, set_on, update, asked, grouped_row, event_of, update_with,
  group_row, group_rows, handle_run,
}
use serverless_error_ingest.Base.{
  ◌≡◌, refl, sym, ap, ◌∙◌, inl, inr, Bool, true, false, ◌&&◌, ◌||◌, Option, none, some, List, [],
  ◌∷◌, ◌++◌, arith, Bool-cases, Bytes, codes, equal, equal_iff, Result, ok, err, All,
}

abbrev pub is_at : IssueRow → Bytes → Bytes → Bool
is_at r p e = equal r.project_id p && equal r.event_id e

is_at-found :
    (r : IssueRow) (p e : Bytes) (table : List IssueRow)
    → is_at r p e ≡ true
    → find_row r.project_id r.event_id table ≡ find_row p e table
is_at-found r p e table at =
    let both : (equal r.project_id p ≡ true) × (equal r.event_id e ≡ true) = ground arith in
    ap (λ p. find_row p r.event_id table) ((equal_iff r.project_id p).0 both.0)
    ∙ ap (λ e. find_row p e table) ((equal_iff r.event_id e).0 both.1)

module _ (worker : Worker) (p e : Bytes) where
  -- A row that has its issue keeps everything.
  update_kept :
      (row : IssueRow) (table : List IssueRow)
      → has_issue (find_row p e table) ≡ true
      → find_row p e (update worker row table).1 ≡ find_row p e table
  unfolding update find_row
  update_kept row table done =
      let found = find_row row.project_id row.event_id table in
      elim (Bool-cases (worker.update_fails row || has_issue found)) [
        | inl refused ↦ rw refused refl
        | inr free ↦ elim (Bool-cases (is_at row p e)) [
          | inl here ↦
              let same = ap has_issue (is_at-found row p e table here) in
              absurd (ground (arith, same, free, done))
          | inr away ↦ rw (free, away) refl
        ]
      ]

  update_with_kept :
      (row : IssueRow) (ev : Result Bytes SentryEvent) (table : List IssueRow)
      → has_issue (find_row p e table) ≡ true
      → find_row p e (update_with worker row ev table).1 ≡ find_row p e table
  update_with_kept row (err x) table done = refl
  update_with_kept row (ok ev) table done = update_kept (grouped_row worker row ev) table done

  group_rows_kept :
      (rows table : List IssueRow)
      → has_issue (find_row p e table) ≡ true
      → find_row p e (group_rows worker rows table).1 ≡ find_row p e table
  unfolding group_rows group_row
  group_rows_kept [] table done = refl
  group_rows_kept (row ∷ rows) table done =
      let here = update_with_kept row (event_of worker row) table done in
      group_rows_kept rows (update_with worker row (event_of worker row) table).1
        (ap has_issue here ∙ done)
      ∙ here

-- A row that has an issue is left alone by every later run, whatever the scan returns: neither its issue,
-- nor its summary, nor its status changes.
pub handle_run_kept :
    (worker : Worker) (scanned : Result Bytes (List IssueRow)) (table : List IssueRow) (p e : Bytes)
    → has_issue (find_row p e table) ≡ true
    → find_row p e (handle_run worker scanned table).1 ≡ find_row p e table
unfolding handle_run
handle_run_kept worker (err x) table p e done = refl
handle_run_kept worker (ok rows) table p e done = group_rows_kept worker p e rows table done

module _ (worker : Worker) (p e : Bytes) where
  update_other :
      (row : IssueRow) (table : List IssueRow)
      → is_at row p e ≡ false
      → find_row p e (update worker row table).1 ≡ find_row p e table
  unfolding update find_row
  update_other row table away =
      let found = find_row row.project_id row.event_id table in
      elim (Bool-cases (worker.update_fails row || has_issue found)) [
        | inl refused ↦ rw refused refl
        | inr free ↦ rw (free, away) refl
      ]

  update_with_other :
      (row : IssueRow) (ev : Result Bytes SentryEvent) (table : List IssueRow)
      → is_at row p e ≡ false
      → find_row p e (update_with worker row ev table).1 ≡ find_row p e table
  unfolding grouped_row
  update_with_other row (err x) table away = refl
  update_with_other row (ok ev) table away = update_other (grouped_row worker row ev) table away

-- What grouping sets on the row of a key.
pub record IsGrouped (worker : Worker) (ev : SentryEvent) (found : Option IssueRow) : Type 0 where
  pub row : IssueRow
  pub there : found ≡ some row
  pub status : row.status ≡ codes "grouped"
  pub issue : row.issue_id ≡ some (compute_issue_id worker.unicode_lower worker.sha256 ev)
  pub summary : row.summary ≡ asked worker worker.ai ev

set_on-IsGrouped :
    (worker : Worker) (ev : SentryEvent) (found : Option IssueRow) (row : IssueRow) (p e : Bytes)
    → IsGrouped worker ev
        (some (record (set_on found (grouped_row worker row ev)) { project_id = p; event_id = e }))
unfolding grouped_row
set_on-IsGrouped worker ev none row p e = record {
  row = _;
  there = refl;
  status = refl;
  issue = refl;
  summary = refl;
}
set_on-IsGrouped worker ev (some r) row p e = record {
  row = _;
  there = refl;
  status = refl;
  issue = refl;
  summary = refl;
}

module _ (worker : Worker) (row : IssueRow) (ev : SentryEvent) where
  update-IsGrouped :
      (table : List IssueRow)
      → has_issue (find_row row.project_id row.event_id table) ≡ false
      → worker.update_fails (grouped_row worker row ev) ≡ false
      → IsGrouped worker ev
          (find_row row.project_id row.event_id (update worker (grouped_row worker row ev) table).1)
  unfolding update find_row grouped_row
  update-IsGrouped table free works =
      let found = find_row row.project_id row.event_id table in
      let open_ : (worker.update_fails (grouped_row worker row ev) || has_issue found) ≡ false =
        rw (works, free) refl in
      let same_p = (equal_iff row.project_id row.project_id).1 refl in
      let same_e = (equal_iff row.event_id row.event_id).1 refl in
      rw (open_, same_p, same_e) (set_on-IsGrouped worker ev found row row.project_id row.event_id)

  has_issue-IsGrouped :
      (found : Option IssueRow) → IsGrouped worker ev found → has_issue found ≡ true
  has_issue-IsGrouped found v = rw (v.there, v.issue) refl

  group_rows-IsGrouped :
      (before after table : List IssueRow)
      → All (λ r. is_at r row.project_id row.event_id ≡ false) before
      → event_of worker row ≡ ok ev
      → has_issue (find_row row.project_id row.event_id table) ≡ false
      → worker.update_fails (grouped_row worker row ev) ≡ false
      → IsGrouped worker ev (
          find_row row.project_id row.event_id
            (group_rows worker (before ++ (row ∷ after)) table).1)
  unfolding group_rows group_row
  group_rows-IsGrouped [] after table away read free works =
      let done = update-IsGrouped table free works in
      let table' = (update worker (grouped_row worker row ev) table).1 in
      subst
        (λ r. IsGrouped worker ev (
          find_row row.project_id row.event_id
            (group_rows worker after (update_with worker row r table).1).1))
        (sym read)
        (subst (λ found. IsGrouped worker ev found)
          (sym (
            group_rows_kept worker row.project_id row.event_id after table'
              (has_issue-IsGrouped (find_row row.project_id row.event_id table') done)))
          done)
  group_rows-IsGrouped (r ∷ before) after table (a, away) read free works =
      let other =
        update_with_other worker row.project_id row.event_id r (event_of worker r) table a in
      group_rows-IsGrouped before after (update_with worker r (event_of worker r) table).1 away read
        (ap has_issue other ∙ free) works

-- A scanned row that has no issue yet, whose payload is fetched and parsed, and whose update does not fail
-- is grouped under the issue id of its event, whatever rows of other keys come before it and whatever
-- rows come after it.
pub handle_run-IsGrouped :
    (worker : Worker) (row : IssueRow) (ev : SentryEvent) (before after table : List IssueRow)
    → All (λ r. is_at r row.project_id row.event_id ≡ false) before
    → event_of worker row ≡ ok ev
    → has_issue (find_row row.project_id row.event_id table) ≡ false
    → worker.update_fails (grouped_row worker row ev) ≡ false
    → IsGrouped worker ev (
        find_row row.project_id row.event_id
          (handle_run worker (ok (before ++ (row ∷ after))) table).1)
unfolding handle_run
handle_run-IsGrouped worker row ev before after table away read free works =
    group_rows-IsGrouped worker row ev before after table away read free works
