-- ===== src/Ingest/Handler/Kept.antt =====
-- What the ingest handler leaves in the stores, and when.
use mathlib.Core.Path.{subst}
use serverless_error_ingest.Http.{Request, Response, lookup}
use serverless_error_ingest.Ingest.Compress.{DecompressError, decompress_body}
use serverless_error_ingest.Ingest.Envelope.{Envelope, EnvelopeError, parse_envelope}
use serverless_error_ingest.Ingest.EventId.{valid_event_id, chosen_id-valid, IsHash}
use serverless_error_ingest.Ingest.Keys.{envelope_key}
use serverless_error_ingest.Ingest.Persist.Contents.{persist_archived}
use serverless_error_ingest.Ingest.Persist.Outcome.{persist-ok}
use serverless_error_ingest.Ingest.Persist.{Store, Faults, Setup, Batch, key_of_envelope, checked}
use serverless_error_ingest.Ingest.Respond.{respond_json, respond_id}
use serverless_error_ingest.Ingest.Handler.{
  Service, World, Admission, Content, store_content, parsed, unpacked, content_encoding,
  is_store_route, admit, content_of, after_persist, id_of, persisted, keep, take_turn, after_turn,
  after_admit, handle_request,
}
use serverless_error_ingest.Ingest.Handler.Answers.{
  OnErr, respond_rate_limited-IsRefusal, admit-OnErr, content_of-OnErr,
}
use serverless_error_ingest.Base.{
  ℕ, ◌≡◌, refl, ap, ◌∙◌, ◌⊎◌, inl, inr, Bool, true, false, Option, none, some, arith, ◌==◌, Bytes,
  Result, ok, err,
}

-- An outcome in which the request was let in, its content read, and `persist` called on it.
pub record Kept (service : Service) (faults : Faults) (now : ℕ) (req : Request) (st : Store)
    (out : Response × World) : Type 0 where
  pub admission : Admission
  pub content : Content
  pub admitted : admit service req ≡ ok admission
  pub read : content_of service req admission.body ≡ ok content
  pub stored : out.1.store ≡ (persisted service faults now admission content st).1
  pub answered :
      (((persisted service faults now admission content st).0 ≡ true)
        × (out.0 ≡ respond_id service.setup.json (id_of service content)))
      ⊎ (((persisted service faults now admission content st).0 ≡ false) × (out.0.status ≡ 500))

-- An outcome that leaves the stores as they were and reports no success.
abbrev pub Untouched : Store → Response × World → Type 0
Untouched st out = (out.1.store ≡ st) × ((out.0.status == 200) ≡ false)

module _ (service : Service) (faults : Faults) (now : ℕ) (req : Request) where
  after_persist-answered :
      (id : Bytes) (w : World) (r : Bool × Store)
      → ((r.0 ≡ true) × ((after_persist service id w r).0 ≡ respond_id service.setup.json id))
        ⊎ ((r.0 ≡ false) × ((after_persist service id w r).0.status ≡ 500))
  unfolding respond_json
  after_persist-answered id w (true, st) = inl (refl, refl)
  after_persist-answered id w (false, st) = inr (refl, refl)

  keep-outcome :
      (a : Admission) (w : World) (r : Result Response Content)
      → admit service req ≡ ok a
      → content_of service req a.body ≡ r
      → OnErr r
      → Untouched w.store (keep service faults now a w r)
        ⊎ Kept service faults now req w.store (keep service faults now a w r)
  unfolding keep
  keep-outcome a w (err r) admitted read h = inl (refl, h.refuses)
  keep-outcome a w (ok c) admitted read h = inr (record {
    admission = a;
    content = c;
    admitted = admitted;
    read = read;
    stored = refl;
    answered =
        after_persist-answered (id_of service c) w (persisted service faults now a c w.store);
  })

  after_turn-outcome :
      (a : Admission) (w : World) (wait : Option ℕ)
      → admit service req ≡ ok a
      → Untouched w.store (after_turn service faults now req a w wait)
        ⊎ Kept service faults now req w.store (after_turn service faults now req a w wait)
  unfolding after_turn
  after_turn-outcome a w (some wait) admitted =
      inl (refl, (respond_rate_limited-IsRefusal service.setup.json wait).refuses)
  after_turn-outcome a w none admitted =
      keep-outcome a w (content_of service req a.body) admitted refl
        (content_of-OnErr service req a.body)

  after_admit-outcome :
      (w : World) (r : Result Response Admission)
      → admit service req ≡ r
      → OnErr r
      → Untouched w.store (after_admit service faults now req w r)
        ⊎ Kept service faults now req w.store (after_admit service faults now req w r)
  unfolding after_admit
  after_admit-outcome w (err r) admitted h = inl (refl, h.refuses)
  after_admit-outcome w (ok a) admitted h =
      after_turn-outcome a (record w { limiter = (take_turn service w.limiter a.key now).1 })
        (take_turn service w.limiter a.key now).0 admitted

-- Either the stores are as they were and no success is reported, or the request was let in and read, and
-- the stores and the response are those of `persist` on it.
pub handle_request-outcome :
    (service : Service) (faults : Faults) (now : ℕ) (req : Request) (w : World)
    → Untouched w.store (handle_request service faults now req w)
      ⊎ Kept service faults now req w.store (handle_request service faults now req w)
unfolding handle_request
handle_request-outcome service faults now req w =
    after_admit-outcome service faults now req w (admit service req) refl (admit-OnErr service req)

parsed-raw :
    (service : Service) (body : Bytes) (r : Result EnvelopeError Envelope) (c : Content)
    → parsed service body r ≡ ok c
    → ◌≡◌ {A = Result DecompressError Bytes} (ok body) (ok c.raw)
parsed-raw service body (err e) c h = cc
parsed-raw service body (ok env) c h =
    let same : record { raw = body; items = env.items } ≡ c = cc in ap (λ c. ok c.raw) same

-- The text that is archived is the decompressed body.
unpacked-raw :
    (service : Service) (route : Bool) (r : Result DecompressError Bytes) (c : Content)
    → unpacked service route r ≡ ok c
    → r ≡ ok c.raw
unpacked-raw service route (err e) c h = cc
unpacked-raw service true (ok body) c h =
    let same : store_content service body ≡ c = cc in ap (λ c. ok c.raw) same
unpacked-raw service false (ok body) c h =
    parsed-raw service body (parse_envelope service.setup.json body) c h

content_of-raw :
    (service : Service) (req : Request) (body : Bytes) (c : Content)
    → content_of service req body ≡ ok c
    → decompress_body service.codecs (content_encoding req) body service.setup.max_body_bytes
      ≡ ok c.raw
unfolding content_of
content_of-raw service req body c h =
    unpacked-raw service (is_store_route req)
      (decompress_body service.codecs (content_encoding req) body service.setup.max_body_bytes) c h

-- What a success promises: the decompressed body is found in the archive, under a key made of the project
-- and of the valid id in the response.
pub record IsArchived (service : Service) (now : ℕ) (req : Request) (out : Response × World)
    : Type 0 where
  pub admission : Admission
  pub raw : Bytes
  pub id : Bytes
  pub admitted : admit service req ≡ ok admission
  pub unpacked :
      decompress_body service.codecs
        (content_encoding req)
        admission.body
        service.setup.max_body_bytes
      ≡ ok raw
  pub valid : valid_event_id id ≡ true
  pub answer : out.0 ≡ respond_id service.setup.json id
  pub found :
      lookup
        (envelope_key admission.project_id (service.setup.calendar.date now) id)
        out.1.store.objects
      ≡ some raw

pub checked_valid :
    (setup : Setup) (raw : Bytes) (b : Batch)
    → valid_event_id b.event_id ≡ true
    → checked setup raw b ≡ b
checked_valid setup raw b e = rw e refl

Kept-IsArchived :
    (service : Service) (faults : Faults) (now : ℕ) (req : Request) (w : World)
    (out : Response × World) (k : Kept service faults now req w.store out)
    → IsHash service.setup.sha256
    → (persisted service faults now k.admission k.content w.store).0 ≡ true
    → out.0 ≡ respond_id service.setup.json (id_of service k.content)
    → IsArchived service now req out
Kept-IsArchived service faults now req w out k hash good answer =
    let a = k.admission in
    let c = k.content in
    let id = id_of service c in
    let batch : Batch = record { project_id = a.project_id; event_id = id; now = now } in
    let valid = chosen_id-valid service.setup.json service.setup.sha256 c.raw c.items hash in
    let same = checked_valid service.setup c.raw batch valid in
    let worked = (persist-ok service.setup faults batch c.raw c.items w.store).0 good in
    let found = persist_archived service.setup faults batch c.raw c.items w.store worked.0 in
    record {
      admission = a;
      raw = c.raw;
      id = id;
      admitted = k.admitted;
      unpacked = content_of-raw service req a.body c k.read;
      valid = valid;
      answer = answer;
      found =
          ap (λ st. lookup (key_of_envelope service.setup faults batch) st.objects) k.stored
          ∙ subst
              (λ b.
                lookup (key_of_envelope service.setup faults b)
                  (persisted service faults now a c w.store).1.objects
                ≡ some c.raw)
              same found;
    }

-- With a hash of 32 bytes, a success is never reported before the raw body is safe: with status 200 it is
-- found under the key of the id in the response, whatever the stores held before.
pub handle_request-IsArchived :
    (service : Service) (faults : Faults) (now : ℕ) (req : Request) (w : World)
    → IsHash service.setup.sha256
    → (handle_request service faults now req w).0.status ≡ 200
    → IsArchived service now req (handle_request service faults now req w)
handle_request-IsArchived service faults now req w hash e =
    elim (handle_request-outcome service faults now req w) [
      | inl untouched ↦ absurd (ground (arith, untouched.1, e))
      | inr k ↦ elim k.answered [
        | inr bad ↦ absurd (omega (arith, bad.1, e))
        | inl good ↦ Kept-IsArchived service faults now req w _ k hash good.0 good.1
      ]
    ]
