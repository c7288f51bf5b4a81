-- ===== src/Processor/Ai.antt =====
-- The client of an OpenAI-compatible chat endpoint in lambda/processor/main.go.
pub mod Private
use serverless_error_ingest.Text.{trim_space}
use serverless_error_ingest.Decimal.{decimal}
use serverless_error_ingest.Ingest.Compress.{Stream}
use serverless_error_ingest.Base.{
  ℕ, Option, none, some, List, [], ◌∷◌, ◌++◌, ◌==◌, if◌then◌else◌, Bytes, codes, Result, ok, err,
  ◌>>=◌, take,
}

-- `aiClient`, without the HTTP client.
pub record AiClient : Type 0 where
  pub endpoint : Bytes
  pub key : Bytes
  pub model : Bytes

-- The map that is encoded as the body; a message is a role and a content.
pub record ChatPayload : Type 0 where
  pub model : Bytes
  pub messages : List (Bytes × Bytes)
  pub max_tokens : ℕ

-- The POST request: its URL, the two headers that are set, and its body.
pub record ChatRequest : Type 0 where
  pub url : Bytes
  pub content_type : Bytes
  pub authorization : Bytes
  pub body : Bytes

pub record ChatResponse : Type 0 where
  pub status : ℕ
  pub body : Stream

-- What the client asks of its environment: `json.Marshal` of the payload, the error of
-- `http.NewRequestWithContext` for a URL, `http.Client.Do`, and `json.Unmarshal` of an answer, as the
-- contents of its choices.
pub record ChatApi : Type 0 where
  pub encode : ChatPayload → Bytes
  pub refuses : Bytes → Option Bytes
  pub send : ChatRequest → Result Bytes ChatResponse
  pub decode : Bytes → Result Bytes (List Bytes)

abbrev pub chat_payload : AiClient → Bytes → ChatPayload
chat_payload client prompt = record {
  model = client.model;
  messages =
      (codes "system", codes "You summarize software exceptions concisely for a developer.")
      ∷ (codes "user", prompt)
      ∷ [];
  max_tokens = 60;
}

unfoldable pub chat_request : ChatApi → AiClient → Bytes → ChatRequest
chat_request api client prompt = record {
  url = client.endpoint;
  content_type = codes "application/json";
  authorization = codes "Bearer " ++ client.key;
  body = api.encode (chat_payload client prompt);
}

-- `1<<20`
abbrev pub answer_limit : ℕ
answer_limit = 1048576

abbrev pub first_choice : List Bytes → Result Bytes Bytes
first_choice [] = err (codes "AI endpoint returned no choices")
first_choice (content ∷ others) = ok (trim_space content)

-- An error that ends the reading of the body is dropped.
unfoldable pub answer_of : ChatApi → ChatResponse → Result Bytes Bytes
unfolding trim_space decimal
answer_of api resp =
    if resp.status == 200
    then (do choices ← api.decode (take answer_limit resp.body.content); first_choice choices)
    else err (codes "AI endpoint status " ++ decimal resp.status)

abbrev pub sent : ChatApi → ChatRequest → Option Bytes → Result Bytes Bytes
sent api req (some e) = err e
sent api req none = do resp ← api.send req; answer_of api resp

-- `aiClient.summarize`
unfoldable pub ai_summarize : ChatApi → AiClient → Bytes → Result Bytes Bytes
unfolding chat_request answer_of
ai_summarize api client prompt =
    sent api (chat_request api client prompt) (api.refuses client.endpoint)
