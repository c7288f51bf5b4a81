-- ===== src/Lib.antt =====
-- Verification of the serverless error ingest service.
--
-- The service takes error reports of Sentry clients over HTTP. The ingest handler (lambda/ingest) decodes
-- a request, finds its public key, checks the key against the projects registry, limits the rate, unpacks
-- the body, parses the envelope, and stores the raw body and one object and one metadata row per item. The
-- query handler (lambda/query) gives out the rows of a project page by page. The processor
-- (lambda/processor) groups the rows of events under issue ids. A registration script (scripts/register)
-- fills the projects registry and prints the DSN of a project.
--
-- Shared parts
--   Base                 Boolean tests, results, lists and integers over the native numbers
--   Text                 the functions of `bytes` and `strings` that the service uses
--   Decimal, Strconv     `%d` and strconv.Atoi
--   Bufio                `bufio.Reader`: its array, window and underlying data; a slice that ReadSlice
--                        returns is a view of the array. Laws, Reads, Single, Settled
--                        and Bounds hold its lemmas
--   Json, Http           the parameters that stand for encoding/json, requests and responses
--
-- The ingest handler, one module for each part of lambda/ingest
--   Ingest.Handler       main.go, handleRequest: `handle_request`. Each early return is a `Result Response`
--                        in `admit` (steps 1 and 2) and `content_of` (steps 4 and 5); `take_turn` is the
--                        limiter, `keep` the storing. Admitted, Kept and Answers hold its theorems
--   Ingest.Respond       main.go, the response helpers
--   Ingest.Project       main.go, projectIDOf and dsnProjectID
--   Ingest.EventId       main.go, validEventID, deterministicID, eventIDFromItems
--   Ingest.Keys          main.go, sortKeyOf, sanitizeItemType and the object keys
--   Ingest.Persist       main.go, persist
--   Ingest.Auth          auth.go; Ingest.Dsn renders the documented form of a DSN
--   Ingest.Envelope      envelope.go, readLine and ParseEnvelope over Bufio. Plain is a reference parser on
--                        byte lists; Lines, Refines and Items relate the two; Views, Steps and Shadowed are
--                        about slices that are overwritten, Bounded about sizes
--   Ingest.Compress      compress.go
--   Ingest.RateLimit     ratelimit.go; Bound is about one call, Run about a sequence of calls,
--                        Separate about one key among several,
--                        Wait about a client that waits
--   Ingest.Registry      store.go, ValidateKey; PutObject and PutEvent are in Ingest.Persist
--   Ingest.Config        store.go, newDefaultDeps, envInt and envFloat
--   Ingest.Lambda        entry.go, main: the starts and requests of processes as a step relation on the
--                        stores and the limiter. Stored and Sound are about all that is reachable, Limited
--                        about the requests to one process; Writes has the store calls of a request as a
--                        list, and Concurrent interleaves those of several processes
--   Ingest.Texts         the texts of the errors of envelope.go and compress.go
--
-- The query handler, lambda/query/main.go
--   Query.Handler        handleRequest: `handle_query_request`
--   Query.Key            sentryKey
--   Query.Registry       ValidateKey; Listed relates it to the ingest handler's
--   Query.Config         newDefaultDeps
--   Query.Limit          the `limit` parameter
--   Query.Expression     the input of the DynamoDB query; Closed checks its placeholders
--   Query.Cursor         encodeCursor and decodeCursor
--   Query.Events         QueryEvents
--
-- The processor, lambda/processor/main.go
--   Processor.Issue      computeIssueID, summarize and aiPrompt
--   Processor.Run        handleRun, fetch, parseSentryEvent and the conditional update, on the table as a
--                        list, newest row first; Advisory compares runs with different AI clients
--   Processor.Scan       scan, page by page
--   Processor.Batch      handleRun with the scan that it starts with: `run_batch`
--   Processor.Ai         aiClient and its summarize; Private is about what reaches the endpoint
--   Processor.Config     newDefaultDeps
--
-- The registration script, scripts/register/main.go
--   Register             main: `register`; Accepted relates it to the ingest handler
--
--   Tests                runs of the model, and each theorem at an input of its own
--
-- State. The stores are association lists, newest entry first; which calls of them report an error is a
-- parameter (`Faults`) of a request, and such a call stores nothing. The limiter's map is an association
-- list of buckets. A process handles its requests one after the other: the limiter holds its mutex through
-- a call, and nothing else is shared within a process. Processes share the stores; their calls of them are
-- interleaved one by one in Ingest.Lambda.Concurrent.
--
-- Numbers. Sizes are native numbers. The limiter computes in exact arithmetic, where the source has
-- floats: a token is a number of units, and a bucket gains a number of units in a nanosecond. The expiry
-- time wraps around as an int64 of nanoseconds does, and so does the limit of a capped read, one above the
-- cap. The waiting time is cut at the largest int64, as on arm64, which build-lambdas.sh and infra/main.tf
-- build for. The time between two calls of the limiter is taken to fit an int64 of nanoseconds.
--
-- Loops. The parser's loop counts the items that it may still take, at most 100, which is the bound of the
-- source. ReadSlice and ReadByte run for three rounds: a bytes.Reader fills the buffer in one Read, so that
-- a byte, the delimiter, or a full buffer is there after one fill, and the end of the input after two.
-- io.ReadFull runs for as many rounds as bytes are wanted, since each Read gives at least one or meets the
-- end. That these suffice is part of the agreement with the reference parser, which has no rounds and
-- never stalls. `digits n` runs for more than n rounds. The processor's scan runs for rounds that are more
-- than the items of the table: each page is further on in it.
--
-- Parameters. encoding/json, base64, sha256, the codecs (a stream of bytes and how it ends), the
-- formatting of times, `%q`, the registry's table, the events table as it answers a query or a scan, S3 as
-- it answers a get, the HTTP exchange with the AI service, random bytes, the environment, and the floats
-- of the limiter's settings with fmt.Sscanf. Errors are data; Ingest.Texts has their texts.
--
-- Not modelled: logging, the start-up of the query handler and of the processor (their main functions only
-- build what newDefaultDeps gives and call the handler), the AWS clients, and the infrastructure.
pub mod Base
pub mod Text
pub mod Decimal
pub mod Strconv
pub mod Bufio
pub mod Json
pub mod Http
pub mod Ingest
pub mod Query
pub mod Processor
pub mod Register
mod Tests
