-- ===== src/Ingest/Lambda/Writes.antt =====
-- The writes to the stores that handling a request comes to, in the order of the calls.
use serverless_error_ingest.Http.{Request, Response}
use serverless_error_ingest.Ingest.Envelope.{Item}
use serverless_error_ingest.Ingest.Persist.{
  Store, Faults, Setup, Batch, EventRow, key_of_item, key_of_envelope, row_of, persist_item,
  persist_items, persist_under, checked, persist,
}
use serverless_error_ingest.Ingest.RateLimit.{RateLimiter}
use serverless_error_ingest.Ingest.Handler.{
  Service, World, Admission, Content, admit, content_of, id_of, keep, take_turn, after_turn,
  after_admit, handle_request,
}
use serverless_error_ingest.Base.{
  ℕ, ◌+◌, ◌≡◌, refl, sym, ap, ◌∙◌, inl, inr, Option, none, some, List, [], ◌∷◌, ◌++◌, if◌then◌else◌,
  Bool-cases, Bytes, Result, ok, err,
}

-- A call of PutObject or of PutEvent that succeeds.
pub data Write : Type 0 where
  object : Bytes → Bytes → Write
  row : EventRow → Write

abbrev pub apply_write : Write → Store → Store
apply_write (object k text) st = record st { objects = (k, text) ∷ st.objects }
apply_write (row r) st = record st { rows = r ∷ st.rows }

abbrev pub apply_all : List Write → Store → Store
apply_all [] st = st
apply_all (w ∷ ws) st = apply_all ws (apply_write w st)

apply_all-append :
    (vs ws : List Write) (st : Store) → apply_all (vs ++ ws) st ≡ apply_all ws (apply_all vs st)
apply_all-append [] ws st = refl
apply_all-append (v ∷ vs) ws st = apply_all-append vs ws (apply_write v st)

module _ (setup : Setup) (faults : Faults) (batch : Batch) where
  -- The row of an item follows its object, where neither call fails.
  abbrev pub item_writes : ℕ → Item → List Write
  item_writes seq it =
      if faults.object_fails (key_of_item setup faults batch seq it)
      then []
      else object (key_of_item setup faults batch seq it) it.payload
        ∷ (if faults.row_fails (row_of setup faults batch seq it)
            then []
            else row (row_of setup faults batch seq it) ∷ [])

  abbrev pub items_writes : ℕ → List Item → List Write
  items_writes seq [] = []
  items_writes seq (it ∷ its) = item_writes seq it ++ items_writes (seq + 1) its

  abbrev pub persist_writes : Bytes → List Item → List Write
  persist_writes raw its =
      if faults.object_fails (key_of_envelope setup faults batch)
      then []
      else object (key_of_envelope setup faults batch) raw ∷ items_writes 0 its

  persist_item-writes :
      (seq : ℕ) (it : Item) (st : Store)
      → (persist_item setup faults batch seq it st).1 ≡ apply_all (item_writes seq it) st
  unfolding persist_item
  persist_item-writes seq it st =
      elim (Bool-cases (faults.object_fails (key_of_item setup faults batch seq it))) [
        | inl fails ↦ rw fails refl
        | inr works ↦ elim (Bool-cases (faults.row_fails (row_of setup faults batch seq it))) [
          | inl fails ↦ rw (works, fails) refl
          | inr goes ↦ rw (works, goes) refl
        ]
      ]

  persist_items-writes :
      (seq : ℕ) (its : List Item) (st : Store)
      → (persist_items setup faults batch seq its st).1 ≡ apply_all (items_writes seq its) st
  unfolding persist_items
  persist_items-writes seq [] st = refl
  persist_items-writes seq (it ∷ its) st =
      let st' = (persist_item setup faults batch seq it st).1 in
      persist_items-writes (seq + 1) its st'
      ∙ ap (apply_all (items_writes (seq + 1) its)) (persist_item-writes seq it st)
      ∙ sym (apply_all-append (item_writes seq it) (items_writes (seq + 1) its) st)

  persist_under-writes :
      (raw : Bytes) (its : List Item) (st : Store)
      → (persist_under setup faults batch raw its st).1 ≡ apply_all (persist_writes raw its) st
  persist_under-writes raw its st =
      elim (Bool-cases (faults.object_fails (key_of_envelope setup faults batch))) [
        | inl fails ↦ rw fails refl
        | inr works ↦ rw works (
            persist_items-writes 0 its
              (record st { objects = (key_of_envelope setup faults batch, raw) ∷ st.objects }))
      ]

module _ (service : Service) (faults : Faults) (now : ℕ) (req : Request) where
  -- What a request is stored under: its id is checked once more.
  abbrev pub batch_of : Admission → Content → Batch
  batch_of a c =
      checked service.setup c.raw
        (record { project_id = a.project_id; event_id = id_of service c; now = now })

  abbrev pub content_writes : Admission → Result Response Content → List Write
  content_writes a (err r) = []
  content_writes a (ok c) = persist_writes service.setup faults (batch_of a c) c.raw c.items

  abbrev pub turn_writes : Admission → Option ℕ → List Write
  turn_writes a (some wait) = []
  turn_writes a none = content_writes a (content_of service req a.body)

  abbrev pub admitted_writes : Option RateLimiter → Result Response Admission → List Write
  admitted_writes limiter (err r) = []
  admitted_writes limiter (ok a) = turn_writes a (take_turn service limiter a.key now).0

  -- The writes of `handleRequest`.
  unfoldable pub request_writes : Option RateLimiter → List Write
  request_writes limiter = admitted_writes limiter (admit service req)

  keep-writes :
      (a : Admission) (w : World) (r : Result Response Content)
      → (keep service faults now a w r).1.store ≡ apply_all (content_writes a r) w.store
  unfolding keep persist
  keep-writes a w (err r) = refl
  keep-writes a w (ok c) =
      persist_under-writes service.setup faults (batch_of a c) c.raw c.items w.store

  after_turn-writes :
      (a : Admission) (w : World) (wait : Option ℕ)
      → (after_turn service faults now req a w wait).1.store
        ≡ apply_all (turn_writes a wait) w.store
  unfolding after_turn
  after_turn-writes a w (some wait) = refl
  after_turn-writes a w none = keep-writes a w (content_of service req a.body)

  after_admit-writes :
      (w : World) (r : Result Response Admission)
      → (after_admit service faults now req w r).1.store
        ≡ apply_all (admitted_writes w.limiter r) w.store
  unfolding after_admit
  after_admit-writes w (err r) = refl
  after_admit-writes w (ok a) =
      after_turn-writes a (record w { limiter = (take_turn service w.limiter a.key now).1 })
        (take_turn service w.limiter a.key now).0

  -- What handling a request does to the stores is this sequence of writes, which does not depend on what
  -- the stores hold.
  pub handle_request-writes :
      (w : World)
      → (handle_request service faults now req w).1.store
        ≡ apply_all (request_writes w.limiter) w.store
  unfolding handle_request request_writes
  handle_request-writes w = after_admit-writes w (admit service req)
