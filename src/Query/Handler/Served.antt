-- ===== src/Query/Handler/Served.antt =====
-- Which requests for events are answered, and with what.
use mathlib.Core.Path.{subst}
use serverless_error_ingest.Http.{Request, Response, lookup, value_of}
use serverless_error_ingest.Query.Registry.{validate_key}
use serverless_error_ingest.Ingest.Handler.Answers.{
  IsAnswer, IsRefusal, is_status, OnErr, bind-OnErr,
}
use serverless_error_ingest.Query.Registry.Listed.{IsListed, validate_key-IsListed}
use serverless_error_ingest.Query.Key.{sentry_key_of}
use serverless_error_ingest.Query.Limit.{limit_of}
use serverless_error_ingest.Query.Limit.Range.{limit_of-range}
use serverless_error_ingest.Query.Expression.{Search}
use serverless_error_ingest.Query.Events.{EventSummary, QueryError, query_events}
use serverless_error_ingest.Query.Handler.{
  Reader, respond, given_project, given_key, passed_key, given_limit, search_of, accept,
  page_response, after_accept, handle_query_request,
}
use serverless_error_ingest.Base.{
  ℕ, ◌≤◌, ◌≡◌, refl, sym, ap, inl, inr, Bool, true, false, Option, none, some, List, arith, ◌==◌,
  Bool-cases, Bytes, codes, equal, is_empty, Result, ok, err, bind-ok,
}

-- A search that was let through: it is on a project whose registered key the request carries, and asks
-- for 1 to 200 rows.
pub record IsAccepted (reader : Reader) (req : Request) (s : Search) : Type 0 where
  pub project : s.project_id ≡ value_of (codes "project_id") req.path_parameters
  pub registered : IsListed reader.get_row s.project_id (sentry_key_of req)
  pub least : 1 ≤ s.limit
  pub most : s.limit ≤ 200

module _ (reader : Reader) (req : Request) where
  given_project-ok : (p q : Bytes) → given_project reader p ≡ ok q → p ≡ q
  given_project-ok p q e = elim (Bool-cases (is_empty p)) [
    | inl empty ↦ ground arith
    | inr full ↦ ground arith
  ]

  given_key-ok : (p q : Bytes) → given_key reader p ≡ ok q → p ≡ q
  given_key-ok p q e = elim (Bool-cases (is_empty p)) [
    | inl empty ↦ ground arith
    | inr full ↦ ground arith
  ]

  passed_key-ok : (v : Result Bytes Bool) (b : Bool) → passed_key reader v ≡ ok b → v ≡ ok true
  passed_key-ok (err x) b e = cc
  passed_key-ok (ok false) b e = cc
  passed_key-ok (ok true) b e = refl

  given_limit-ok : (v : Option ℕ) (n : ℕ) → given_limit reader v ≡ ok n → v ≡ some n
  given_limit-ok none n e = cc
  given_limit-ok (some m) n e = let same : m ≡ n = cc in ap some same

  accept-IsAccepted : (s : Search) → accept reader req ≡ ok s → IsAccepted reader req s
  unfolding accept
  accept-IsAccepted s e =
      let pid = value_of (codes "project_id") req.path_parameters in
      let (p, given, e1) = bind-ok (given_project reader pid) _ s e in
      let (k, keyed, e2) = bind-ok (given_key reader (sentry_key_of req)) _ s e1 in
      let (b, passes, e3) = bind-ok (passed_key reader (validate_key reader.get_row p k)) _ s e2 in
      let (n, limited, e4) =
        bind-ok (given_limit reader (limit_of (value_of (codes "limit") req.query)))
          (λ n. ok (search_of reader req p n)) s e3 in
      let same : search_of reader req p n ≡ s = cc in
      let same_key = given_key-ok (sentry_key_of req) k keyed in
      let valid =
        validate_key-IsListed reader.get_row p k
          (passed_key-ok (validate_key reader.get_row p k) b passes) in
      let range =
        limit_of-range (value_of (codes "limit") req.query) n
          (given_limit-ok (limit_of (value_of (codes "limit") req.query)) n limited) in
      subst (λ s. IsAccepted reader req s) same
        (record {
          project = sym (given_project-ok pid p given);
          registered = subst (λ k. IsListed reader.get_row p k) (sym same_key) valid;
          least = range.0;
          most = range.1;
        })

module _ (reader : Reader) where
  respond-IsRefusal :
      (n : ℕ) (m : Bytes) → is_status n ≡ true → (n == 200) ≡ false → IsRefusal (respond reader n m)
  unfolding respond lookup equal
  respond-IsRefusal n m status refuses = record {
    answer = record { cors = refl; status = status };
    refuses = refuses;
  }

  given_project-OnErr : (p : Bytes) → OnErr (given_project reader p)
  given_project-OnErr p = elim (Bool-cases (is_empty p)) [
    | inl empty ↦ rw empty (respond-IsRefusal 400 _ refl refl)
    | inr full ↦ rw full (tt {0})
  ]

  given_key-OnErr : (k : Bytes) → OnErr (given_key reader k)
  given_key-OnErr k = elim (Bool-cases (is_empty k)) [
    | inl empty ↦ rw empty (respond-IsRefusal 403 _ refl refl)
    | inr full ↦ rw full (tt {0})
  ]

  passed_key-OnErr : (v : Result Bytes Bool) → OnErr (passed_key reader v)
  passed_key-OnErr (err x) = respond-IsRefusal 500 _ refl refl
  passed_key-OnErr (ok false) = respond-IsRefusal 401 _ refl refl
  passed_key-OnErr (ok true) = tt {0}

  given_limit-OnErr : (v : Option ℕ) → OnErr (given_limit reader v)
  given_limit-OnErr none = respond-IsRefusal 400 _ refl refl
  given_limit-OnErr (some n) = tt {0}

  accept-OnErr : (req : Request) → OnErr (accept reader req)
  unfolding accept
  accept-OnErr req =
      bind-OnErr (given_project reader (value_of (codes "project_id") req.path_parameters)) _
        (given_project-OnErr _)
        (λ p. bind-OnErr (given_key reader (sentry_key_of req)) _ (given_key-OnErr _) (λ k.
          bind-OnErr (passed_key reader (validate_key reader.get_row p k)) _ (passed_key-OnErr _)
            (λ b.
              bind-OnErr (given_limit reader (limit_of (value_of (codes "limit") req.query))) _
                (given_limit-OnErr _) (λ n. tt {0}))))

  page_response-IsAnswer :
      (r : Result QueryError (List EventSummary × Bytes)) → IsAnswer (page_response reader r)
  unfolding lookup equal
  page_response-IsAnswer (err e) = (respond-IsRefusal 500 _ refl refl).answer
  page_response-IsAnswer (ok (rows, next)) = record { cors = refl; status = refl }

  after_accept-IsAnswer :
      (req : Request) (r : Result Response Search) → OnErr r → IsAnswer (after_accept reader req r)
  unfolding after_accept
  after_accept-IsAnswer req (err r) h = h.answer
  after_accept-IsAnswer req (ok s) h = page_response-IsAnswer _

-- A page of rows, that of the search of an accepted request.
pub record IsServed (reader : Reader) (req : Request) (r : Response) : Type 0 where
  pub search : Search
  pub accepted : IsAccepted reader req search
  pub rows : List EventSummary
  pub next : Bytes
  pub found :
      query_events reader.codec reader.run_query search (value_of (codes "cursor") req.query)
      ≡ ok (rows, next)
  pub text : r.body ≡ reader.page_text rows next

page_response-IsServed :
    (reader : Reader) (req : Request) (s : Search)
    (r : Result QueryError (List EventSummary × Bytes))
    → IsAccepted reader req s
    → query_events reader.codec reader.run_query s (value_of (codes "cursor") req.query) ≡ r
    → (page_response reader r).status ≡ 200
    → IsServed reader req (page_response reader r)
unfolding respond
page_response-IsServed reader req s (err x) v found e = absurd (omega (arith, e))
page_response-IsServed reader req s (ok (rows, next)) v found e = record {
  search = s;
  accepted = v;
  rows = rows;
  next = next;
  found = found;
  text = refl;
}

after_accept-IsServed :
    (reader : Reader) (req : Request) (r : Result Response Search)
    → accept reader req ≡ r
    → OnErr r
    → (after_accept reader req r).status ≡ 200
    → IsServed reader req (after_accept reader req r)
unfolding after_accept
after_accept-IsServed reader req (err r) v h e = absurd (ground (arith, h.refuses, e))
after_accept-IsServed reader req (ok s) v h e =
    page_response-IsServed reader req s
      (query_events reader.codec reader.run_query s (value_of (codes "cursor") req.query))
      (accept-IsAccepted reader req s v) refl e

-- Rows are given out only to a request that carries the registered key of its active project, at most 200
-- of them asked for, and they are those of the query on that project.
pub handle_query_request-IsServed :
    (reader : Reader) (req : Request)
    → (handle_query_request reader req).status ≡ 200
    → IsServed reader req (handle_query_request reader req)
unfolding handle_query_request
handle_query_request-IsServed reader req e =
    after_accept-IsServed reader req (accept reader req) refl (accept-OnErr reader req) e

-- Every response to a request for events lets any origin read it, and has one of the contract's statuses.
pub handle_query_request-IsAnswer :
    (reader : Reader) (req : Request) → IsAnswer (handle_query_request reader req)
unfolding handle_query_request
handle_query_request-IsAnswer reader req =
    after_accept-IsAnswer reader req (accept reader req) (accept-OnErr reader req)
