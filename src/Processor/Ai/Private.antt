-- ===== src/Processor/Ai/Private.antt =====
-- What of an event reaches the chat endpoint.
use serverless_error_ingest.Processor.Issue.{
  SentryEvent, ExceptionValue, StackFrame, frame_lines, prompt_of, ai_prompt,
}
use serverless_error_ingest.Processor.Ai.{AiClient, ChatApi, chat_request, ai_summarize}
use serverless_error_ingest.Base.{
  ℕ, zero, suc, ◌≡◌, refl, sym, ap, ◌∙◌, List, [], ◌∷◌, ◌++◌, Bytes, codes, take,
}

-- The parts of an event that may leave: the first exception's type and value and its first five frames,
-- and the message where there is no exception.
pub data Agree : SentryEvent → SentryEvent → Type 0 where
  by_exception :
      {ev ew : SentryEvent} (v w : ExceptionValue) (vs ws : List ExceptionValue)
      → ev.values ≡ v ∷ vs
      → ew.values ≡ w ∷ ws
      → v.type ≡ w.type
      → v.value ≡ w.value
      → take 5 v.frames ≡ take 5 w.frames
      → Agree ev ew
  by_message :
      {ev ew : SentryEvent}
      → ev.values ≡ []
      → ew.values ≡ []
      → ev.message ≡ ew.message
      → Agree ev ew

frame_lines-take :
    (room : ℕ) (fs : List StackFrame) → frame_lines room fs ≡ frame_lines room (take room fs)
unfolding frame_lines
frame_lines-take zero fs = refl
frame_lines-take (suc room) [] = refl
frame_lines-take (suc room) (f ∷ fs) = rw (← frame_lines-take room fs) refl

prompt_of-exception :
    (m n : Bytes) (v w : ExceptionValue) (vs ws : List ExceptionValue)
    → v.type ≡ w.type
    → v.value ≡ w.value
    → take 5 v.frames ≡ take 5 w.frames
    → prompt_of m (v ∷ vs) ≡ prompt_of n (w ∷ ws)
prompt_of-exception m n v w vs ws t x fs =
    let lines : frame_lines 5 v.frames ≡ frame_lines 5 w.frames =
      frame_lines-take 5 v.frames ∙ ap (frame_lines 5) fs ∙ sym (frame_lines-take 5 w.frames) in
    cc

pub ai_prompt-Agree : {ev ew : SentryEvent} → Agree ev ew → ai_prompt ev ≡ ai_prompt ew
unfolding ai_prompt
ai_prompt-Agree (by_exception {ev} {ew} v w vs ws a b t x fs) =
    rw (a, b)
      (ap (λ p. codes "Summarize this exception for a developer:\n" ++ p)
        (prompt_of-exception ev.message ew.message v w vs ws t x fs))
ai_prompt-Agree (by_message a b m) = rw (a, b, m) refl

-- The request to the chat endpoint and its result are the same for two events that agree on the first
-- exception's type, value and first five frames, or that have no exception and the same message:
-- nothing else of an event leaves.
pub ai_summarize-Agree :
    (api : ChatApi) (client : AiClient) {ev ew : SentryEvent}
    → Agree ev ew
    → (chat_request api client (ai_prompt ev) ≡ chat_request api client (ai_prompt ew))
      × (ai_summarize api client (ai_prompt ev) ≡ ai_summarize api client (ai_prompt ew))
ai_summarize-Agree api client same = (
  ap (chat_request api client) (ai_prompt-Agree same),
  ap (ai_summarize api client) (ai_prompt-Agree same),
)
