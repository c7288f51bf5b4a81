-- ===== src/Processor/Issue.antt =====
-- What lambda/processor/main.go makes of an event: `computeIssueID`, `summarize`, `aiPrompt`.
use serverless_error_ingest.Decimal.{decimal}
use serverless_error_ingest.Text.{trim_space}
use serverless_error_ingest.Ingest.Compress.{to_lower}
use serverless_error_ingest.Ingest.EventId.{hex_encode}
use serverless_error_ingest.Base.{
  ℕ, zero, suc, List, [], ◌∷◌, ◌++◌, if◌then◌else◌, Bytes, codes, is_empty, ℤ, pos, negsuc, take,
}

-- `stackFrame`
pub record StackFrame : Type 0 where
  pub file : Bytes
  pub function : Bytes
  pub lineno : ℤ

-- `exceptionValue`
pub record ExceptionValue : Type 0 where
  pub type : Bytes
  pub value : Bytes
  pub frames : List StackFrame

-- `sentryEvent`
pub record SentryEvent : Type 0 where
  pub platform : Bytes
  pub level : Bytes
  pub message : Bytes
  pub values : List ExceptionValue

-- `%d` of a signed number
abbrev pub signed_decimal : ℤ → Bytes
signed_decimal (pos n) = decimal n
signed_decimal (negsuc n) = b'-' ∷ decimal (suc n)

abbrev pub bar : Bytes → Bytes
bar s = b'|' ∷ s

module _ (unicode_lower : Bytes → Bytes) where
  -- `normalize`
  unfoldable pub normalize : Bytes → Bytes
  unfolding trim_space to_lower
  normalize s = to_lower unicode_lower (trim_space s)

  abbrev pub frame_text : List StackFrame → Bytes
  frame_text [] = []
  frame_text (f ∷ fs) =
      normalize f.file ++ bar (normalize f.function ++ bar (signed_decimal f.lineno))

  abbrev pub exception_text : Bytes → List ExceptionValue → Bytes
  exception_text message [] = codes "no-exception|" ++ normalize message
  exception_text message (v ∷ vs) =
      normalize v.type ++ bar (normalize v.value ++ bar (frame_text v.frames))

  -- What `computeIssueID` writes to the hash.
  unfoldable pub fingerprint : SentryEvent → Bytes
  unfolding normalize decimal
  fingerprint ev = normalize ev.platform ++ bar (exception_text ev.message ev.values)

  -- `computeIssueID`, over the hash function.
  unfoldable pub compute_issue_id : (Bytes → Bytes) → SentryEvent → Bytes
  unfolding fingerprint hex_encode
  compute_issue_id sha256 ev = hex_encode (take 16 (sha256 (fingerprint ev)))

abbrev pub summary_of : Bytes → List ExceptionValue → Bytes
summary_of message [] = if is_empty message then codes "unknown error" else message
summary_of message (v ∷ vs) =
    if is_empty (trim_space v.value) then v.type else v.type ++ (codes ": " ++ trim_space v.value)

-- `summarize`
unfoldable pub summarize : SentryEvent → Bytes
unfolding trim_space is_empty
summarize ev = summary_of (trim_space ev.message) ev.values

-- The loop over the frames, with the number of those that may still come.
unfoldable pub frame_lines : ℕ → List StackFrame → Bytes
unfolding decimal
frame_lines zero fs = []
frame_lines (suc room) [] = []
frame_lines (suc room) (f ∷ fs) =
    codes "frame: "
    ++ (f.file
        ++ (b':'
            ∷ (signed_decimal f.lineno ++ (b' ' ∷ (f.function ++ (b'\n' ∷ frame_lines room fs))))))

abbrev pub prompt_of : Bytes → List ExceptionValue → Bytes
prompt_of message [] = if is_empty message then [] else codes "message: " ++ (message ++ codes "\n")
prompt_of message (v ∷ vs) =
    codes "type: "
    ++ (v.type ++ (codes "\nvalue: " ++ (v.value ++ (b'\n' ∷ frame_lines 5 v.frames))))

-- `aiPrompt`
unfoldable pub ai_prompt : SentryEvent → Bytes
unfolding frame_lines is_empty
ai_prompt ev = codes "Summarize this exception for a developer:\n" ++ prompt_of ev.message ev.values
