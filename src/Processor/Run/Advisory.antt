-- ===== src/Processor/Run/Advisory.antt =====
-- What the AI client can change in a run of the processor.
use serverless_error_ingest.Processor.Ai.{AiClient, ChatApi}
use serverless_error_ingest.Processor.Issue.{SentryEvent}
use serverless_error_ingest.Processor.Run.{
  IssueRow, find_row, Worker, has_issue, set_on, update, grouped_row, event_of, update_with,
  group_row, group_rows, handle_run, fetch,
}
use serverless_error_ingest.Base.{
  suc, ◌≡◌, refl, sym, ap, ◌∙◌, inl, inr, true, false, ◌&&◌, ◌||◌, Option, none, some, List, [],
  ◌∷◌, map, if◌then◌else◌, Bool-cases, Bytes, equal, Result, ok, err,
}

abbrev pub without_summary : IssueRow → IssueRow
without_summary r = record r { summary = [] }

abbrev pub without_summaries : List IssueRow → List IssueRow
without_summaries table = map without_summary table

-- Whether an update fails does not depend on the summary that it writes.
pub record IsBlind (worker : Worker) : Type 0 where
  pub same : (row : IssueRow) → worker.update_fails row ≡ worker.update_fails (without_summary row)

-- The row that is found, without its summary.
abbrev blank : Option IssueRow → Option IssueRow
blank none = none
blank (some r) = some (without_summary r)

find_row-blank :
    (p e : Bytes) (table : List IssueRow)
    → find_row p e (without_summaries table) ≡ blank (find_row p e table)
unfolding find_row
find_row-blank p e [] = refl
find_row-blank p e (r ∷ table) = elim (Bool-cases (equal r.project_id p && equal r.event_id e)) [
  | inl here ↦ rw here refl
  | inr away ↦ rw away (find_row-blank p e table)
]

-- The first part, and the table without its summaries.
abbrev pub outcome {ℓ} : {A : Type ℓ} → A × List IssueRow → A × List IssueRow
outcome out = (out.0, without_summaries out.1)

has_issue-blank : (found : Option IssueRow) → has_issue (blank found) ≡ has_issue found
has_issue-blank none = refl
has_issue-blank (some r) = refl

written-blank :
    (found : Option IssueRow) (row : IssueRow)
    → without_summary
        (record (set_on found row) { project_id = row.project_id; event_id = row.event_id })
      ≡ record (set_on (blank found) (without_summary row)) {
        project_id = row.project_id;
        event_id = row.event_id;
      }
written-blank none row = refl
written-blank (some r) row = refl

module _ (worker : Worker) (blind : IsBlind worker) where
  update-blank :
      (row : IssueRow) (table : List IssueRow)
      → outcome (update worker row table)
        ≡ update worker (without_summary row) (without_summaries table)
  unfolding update
  update-blank row table =
      let found = find_row row.project_id row.event_id table in
      let look = find_row-blank row.project_id row.event_id table in
      elim (Bool-cases (worker.update_fails row || has_issue found)) [
        | inl refused ↦ rw (look, ← blind.same row, has_issue-blank found, refused) refl
        | inr free ↦
            rw (look, ← blind.same row, has_issue-blank found, free)
              (ap (λ r. (true, r ∷ without_summaries table)) (written-blank found row))
      ]

module _ (worker : Worker) (blind : IsBlind worker) (ai : Option AiClient) (chat : ChatApi) where
  abbrev other : Worker
  other = record worker { ai = ai; chat = chat }

  update_with-advisory :
      (row : IssueRow) (ev : Result Bytes SentryEvent) (s t : List IssueRow)
      → without_summaries s ≡ without_summaries t
      → outcome (update_with worker row ev s) ≡ outcome (update_with other row ev t)
  unfolding update grouped_row
  update_with-advisory row (err x) s t same = ap (λ z. (false, z)) same
  update_with-advisory row (ok ev) s t same =
      update-blank worker blind (grouped_row worker row ev) s
      ∙ ap (update worker (without_summary (grouped_row worker row ev))) same
      ∙ sym (update-blank other (record { same = blind.same }) (grouped_row other row ev) t)

  group_rows-advisory :
      (rows s t : List IssueRow)
      → without_summaries s ≡ without_summaries t
      → outcome (group_rows worker rows s) ≡ outcome (group_rows other rows t)
  unfolding group_rows group_row fetch
  group_rows-advisory [] s t same = ap (λ z. (0, z)) same
  group_rows-advisory (row ∷ rows) s t same =
      let here = update_with-advisory row (event_of worker row) s t same in
      let later =
        group_rows-advisory rows (group_row worker row s).1 (group_row other row t).1
          (ap (λ out. out.1) here) in
      λ i. (if (here i).0 then suc (later i).0 else (later i).0, (later i).1)

-- The AI is advisory: with whatever client and endpoint, a run fails as it would have failed without,
-- groups as many rows, and leaves a table that differs in the summaries alone. That holds where the
-- failure of an update does not depend on the summary that is written.
pub handle_run-advisory :
    (worker : Worker) (ai : Option AiClient) (chat : ChatApi)
    (scanned : Result Bytes (List IssueRow)) (table : List IssueRow)
    → IsBlind worker
    → outcome (handle_run worker scanned table)
      ≡ outcome (handle_run (record worker { ai = ai; chat = chat }) scanned table)
unfolding handle_run
handle_run-advisory worker ai chat (err e) table blind = refl
handle_run-advisory worker ai chat (ok rows) table blind =
    let groups = group_rows-advisory worker blind ai chat rows table table refl in
    λ i. (ok (groups i).0, (groups i).1)
