-- ===== src/Ingest/Lambda/Concurrent.antt =====
-- Several processes of lambda/ingest at once: the writes of their requests, in any interleaving.
use mathlib.Core.Path.{subst}
use serverless_error_ingest.Http.{Request, Response, lookup}
use serverless_error_ingest.Ingest.Envelope.{Item}
use serverless_error_ingest.Ingest.EventId.{valid_event_id, chosen_id-valid, IsHash}
use serverless_error_ingest.Ingest.Persist.{
  Store, Faults, Setup, Batch, key_of_item, key_of_envelope, batch_date, row_of,
}
use serverless_error_ingest.Ingest.RateLimit.{RateLimiter}
use serverless_error_ingest.Ingest.Registry.{GetProject}
use serverless_error_ingest.Ingest.Handler.{
  Service, Admission, Content, admit, content_of, id_of, take_turn,
}
use serverless_error_ingest.Ingest.Handler.Admitted.{admit-IsAdmitted}
use serverless_error_ingest.Ingest.Handler.Kept.{checked_valid}
use serverless_error_ingest.Ingest.Lambda.Stored.{
  IsOwned, IsObjectKey, of_envelope, IsRow, IsSound, lookup-more, lookup_first, object-IsSound,
  row-IsSound, row_of-Outline, item-IsObjectKey, row_of-IsRow,
}
use serverless_error_ingest.Ingest.Lambda.Writes.{
  Write, object, row, apply_write, item_writes, items_writes, persist_writes, content_writes,
  turn_writes, admitted_writes, request_writes,
}
use serverless_error_ingest.Base.{
  ℕ, ◌+◌, ◌≡◌, refl, sym, inl, inr, true, Option, none, some, List, [], ◌∷◌, ◌++◌, arith,
  Bool-cases, Bytes, is_some, Result, ok, err, All,
}

-- The requests in progress, as the writes that each still has to do, and the stores: a request arrives
-- at a process with some limiter, or a process does its next write.
pub data Running (service : Service) : List (List Write) → Store → Type 0 where
  idle : Running service [] (record { objects = []; rows = [] })
  arrived :
      {pending : List (List Write)} {st : Store} (faults : Faults) (now : ℕ) (req : Request)
      (limiter : Option RateLimiter)
      → Running service pending st
      → Running service (request_writes service faults now req limiter ∷ pending) st
  wrote :
      {pending later : List (List Write)} {st next : Store} (before after : List (List Write))
      (w : Write) (ws : List Write)
      → Running service pending st
      → pending ≡ before ++ ((w ∷ ws) ∷ after)
      → later ≡ before ++ (ws ∷ after)
      → next ≡ apply_write w st
      → Running service later next

abbrev Objects : Type 0
Objects = List (Bytes × Bytes)

-- The writes of a request keep the stores sound one after the other: a row comes behind its object.
module _ (get_project : GetProject) where
  abbrev Ready : Objects → List Write → Type 0
  Ready objects [] = Unit
  Ready objects (object k text ∷ ws) = IsObjectKey get_project k × Ready ((k, text) ∷ objects) ws
  Ready objects (row r ∷ ws) =
      IsRow get_project r × (is_some (lookup r.s3_path objects) ≡ true) × Ready objects ws

-- Whatever is found in the first is found in the second.
record IsWithin (less more : Objects) : Type 0 where
  found : (k : Bytes) → is_some (lookup k less) ≡ true → is_some (lookup k more) ≡ true

IsWithin-cons :
    (j v : Bytes) (less more : Objects)
    → IsWithin less more
    → IsWithin ((j, v) ∷ less) ((j, v) ∷ more)
unfolding lookup
IsWithin-cons j v less more w = record { found = λ k h. ground (arith, w.found k) }

IsWithin-more : (j v : Bytes) (objects : Objects) → IsWithin objects ((j, v) ∷ objects)
IsWithin-more j v objects = record { found = λ k h. lookup-more k j v objects h }

nothing-IsWithin : (objects : Objects) → IsWithin [] objects
unfolding lookup
nothing-IsWithin objects = record { found = λ k h. cc }

module _ (get_project : GetProject) where
  Ready-within :
      (ws : List Write) (less more : Objects)
      → IsWithin less more
      → Ready get_project less ws
      → Ready get_project more ws
  Ready-within [] less more w h = tt
  Ready-within (object k text ∷ ws) less more w (key, h) = (
    key,
    Ready-within ws ((k, text) ∷ less) ((k, text) ∷ more) (IsWithin-cons k text less more w) h,
  )
  Ready-within (row r ∷ ws) less more w (is_row, there, h) =
      (is_row, w.found r.s3_path there, Ready-within ws less more w h)

-- The writes of `persist` for a registered project under a valid id.
module _ (get_project : GetProject) (setup : Setup) (faults : Faults) (batch : Batch)
    (owned : IsOwned get_project batch.project_id)
    (valid : valid_event_id batch.event_id ≡ true) where
  item_writes-Ready :
      (seq : ℕ) (it : Item) (rest : List Write) (objects : Objects)
      → ((objects : Objects) → Ready get_project objects rest)
      → Ready get_project objects (item_writes setup faults batch seq it ++ rest)
  item_writes-Ready seq it rest objects ready =
      let key = key_of_item setup faults batch seq it in
      let r = row_of setup faults batch seq it in
      let there =
        subst (λ k. is_some (lookup k ((key, it.payload) ∷ objects)) ≡ true)
          (sym (row_of-Outline setup faults batch seq it).path)
          (lookup_first key it.payload objects) in
      let named = item-IsObjectKey get_project setup faults batch owned valid seq it in
      elim (Bool-cases (faults.object_fails key)) [
        | inl fails ↦ rw fails (ready objects)
        | inr works ↦ elim (Bool-cases (faults.row_fails r)) [
          | inl fails ↦ rw (works, fails) (named, ready ((key, it.payload) ∷ objects))
          | inr goes ↦
              rw (works, goes)
                (
                  named,
                  (
                    row_of-IsRow get_project setup faults batch owned valid seq it,
                    there,
                    ready ((key, it.payload) ∷ objects),
                  ),
                )
        ]
      ]

  items_writes-Ready :
      (seq : ℕ) (its : List Item) (objects : Objects)
      → Ready get_project objects (items_writes setup faults batch seq its)
  items_writes-Ready seq [] objects = tt
  items_writes-Ready seq (it ∷ its) objects =
      item_writes-Ready seq it (items_writes setup faults batch (seq + 1) its) objects
        (λ objects. items_writes-Ready (seq + 1) its objects)

  persist_writes-Ready :
      (raw : Bytes) (its : List Item)
      → Ready get_project [] (persist_writes setup faults batch raw its)
  persist_writes-Ready raw its =
      let key = key_of_envelope setup faults batch in
      let named =
        of_envelope batch.project_id (batch_date setup faults batch) batch.event_id owned valid
          refl in
      elim (Bool-cases (faults.object_fails key)) [
        | inl fails ↦ rw fails (tt {0})
        | inr works ↦ rw works (named, items_writes-Ready 0 its ((key, raw) ∷ []))
      ]

module _ (service : Service) (hash : IsHash service.setup.sha256) (faults : Faults) (now : ℕ)
    (req : Request) where
  content_writes-Ready :
      (a : Admission) (r : Result Response Content)
      → admit service req ≡ ok a
      → Ready service.get_project [] (content_writes service faults now req a r)
  content_writes-Ready a (err r) admitted = tt
  content_writes-Ready a (ok c) admitted =
      let id = id_of service c in
      let batch : Batch = record { project_id = a.project_id; event_id = id; now = now } in
      let valid = chosen_id-valid service.setup.json service.setup.sha256 c.raw c.items hash in
      subst
        (λ b. Ready service.get_project [] (persist_writes service.setup faults b c.raw c.items))
        (sym (checked_valid service.setup c.raw batch valid))
        (persist_writes-Ready service.get_project service.setup faults batch
          (a.key, (admit-IsAdmitted service req a admitted).registered) valid c.raw c.items)

  turn_writes-Ready :
      (a : Admission) (wait : Option ℕ)
      → admit service req ≡ ok a
      → Ready service.get_project [] (turn_writes service faults now req a wait)
  turn_writes-Ready a (some wait) admitted = tt
  turn_writes-Ready a none admitted =
      content_writes-Ready a (content_of service req a.body) admitted

  admitted_writes-Ready :
      (limiter : Option RateLimiter) (r : Result Response Admission)
      → admit service req ≡ r
      → Ready service.get_project [] (admitted_writes service faults now req limiter r)
  admitted_writes-Ready limiter (err r) admitted = tt
  admitted_writes-Ready limiter (ok a) admitted =
      turn_writes-Ready a (take_turn service limiter a.key now).0 admitted

  request_writes-Ready :
      (limiter : Option RateLimiter)
      → Ready service.get_project [] (request_writes service faults now req limiter)
  unfolding request_writes
  request_writes-Ready limiter = admitted_writes-Ready limiter (admit service req) refl

-- Sound stores, and requests in progress that keep them sound.
record IsReady (get_project : GetProject) (pending : List (List Write)) (st : Store) : Type 0 where
  sound : IsSound get_project st
  ready : All (Ready get_project st.objects) pending

module _ (get_project : GetProject) where
  All-within :
      (pending : List (List Write)) (less more : Objects)
      → IsWithin less more
      → All (Ready get_project less) pending
      → All (Ready get_project more) pending
  All-within [] less more w h = tt
  All-within (ws ∷ pending) less more w (r, h) =
      (Ready-within get_project ws less more w r, All-within pending less more w h)

  next-Ready :
      (objects : Objects) (before after : List (List Write)) (w : Write) (ws : List Write)
      → All (Ready get_project objects) (before ++ ((w ∷ ws) ∷ after))
      → Ready get_project objects (w ∷ ws)
  next-Ready objects [] after w ws (r, h) = r
  next-Ready objects (b ∷ before) after w ws (r, h) = next-Ready objects before after w ws h

  All-replaced :
      (objects : Objects) (before after : List (List Write)) (old new : List Write)
      → Ready get_project objects new
      → All (Ready get_project objects) (before ++ (old ∷ after))
      → All (Ready get_project objects) (before ++ (new ∷ after))
  All-replaced objects [] after old new n (r, h) = (n, h)
  All-replaced objects (b ∷ before) after old new n (r, h) =
      (r, All-replaced objects before after old new n h)

  wrote-IsReady :
      (before after : List (List Write)) (w : Write) (ws : List Write) (st : Store)
      → Ready get_project st.objects (w ∷ ws)
      → IsReady get_project (before ++ ((w ∷ ws) ∷ after)) st
      → IsReady get_project (before ++ (ws ∷ after)) (apply_write w st)
  wrote-IsReady before after (object k text) ws st (key, rest) v =
      let objects = (k, text) ∷ st.objects in
      record {
        sound = object-IsSound get_project k text st key v.sound;
        ready = All-replaced objects before after (object k text ∷ ws) ws rest (
            All-within (before ++ ((object k text ∷ ws) ∷ after)) st.objects objects
              (IsWithin-more k text st.objects) v.ready);
      }
  wrote-IsReady before after (row r) ws st (is_row, there, rest) v = record {
    sound = row-IsSound get_project r st is_row there v.sound;
    ready = All-replaced st.objects before after (row r ∷ ws) ws rest v.ready;
  }

Running-IsReady :
    (service : Service) {pending : List (List Write)} {st : Store}
    → IsHash service.setup.sha256
    → Running service pending st
    → IsReady service.get_project pending st
Running-IsReady service hash idle = record {
  sound = record { keys = tt; rows = tt; archived = tt };
  ready = tt;
}
Running-IsReady service {st} hash (arrived faults now req limiter run) =
    let v = Running-IsReady service hash run in
    let ready = request_writes-Ready service hash faults now req limiter in
    record {
      sound = v.sound;
      ready = (
        Ready-within service.get_project (request_writes service faults now req limiter) []
            st.objects (nothing-IsWithin st.objects) ready,
        v.ready,
      );
    }
Running-IsReady service hash (wrote {pending} {later} {st} {next} before after w ws run p l n) =
    let v =
      subst (λ pending. IsReady service.get_project pending st) p
        (Running-IsReady service hash run) in
    let r = next-Ready service.get_project st.objects before after w ws v.ready in
    subst (λ later. IsReady service.get_project later next) (sym l)
      (subst (IsReady service.get_project (before ++ (ws ∷ after))) (sym n)
        (wrote-IsReady service.get_project before after w ws st r v))

-- With a hash of 32 bytes and several processes at once, in whatever order their writes come and
-- whatever calls of the stores fail: at every moment every key of the archive and every row belongs
-- to a registered project, is made of a valid event id, and has no unsafe item type in it; and every
-- row points to an object that is in the archive.
pub Running-IsSound :
    (service : Service) {pending : List (List Write)} {st : Store}
    → IsHash service.setup.sha256
    → Running service pending st
    → IsSound service.get_project st
Running-IsSound service hash run = (Running-IsReady service hash run).sound
