-- ===== src/Ingest/Lambda/Sound.antt =====
-- What holds of the stores after any sequence of requests.
use mathlib.Core.Path.{subst}
use serverless_error_ingest.Http.{Request, Response}
use serverless_error_ingest.Ingest.EventId.{chosen_id-valid, IsHash}
use serverless_error_ingest.Ingest.Persist.{Store, Faults, Batch, persist_under, persist}
use serverless_error_ingest.Ingest.Handler.{Service, World, id_of}
use serverless_error_ingest.Ingest.Handler.Admitted.{admit-IsAdmitted}
use serverless_error_ingest.Ingest.Handler.Kept.{Kept, checked_valid, handle_request-outcome}
use serverless_error_ingest.Ingest.Lambda.Stored.{IsOwned, IsSound, persist_under-IsSound}
use serverless_error_ingest.Ingest.Lambda.{Step, started, served, Reach, nothing, next}
use serverless_error_ingest.Base.{ℕ, sym, inl, inr}

module _ (service : Service) (hash : IsHash service.setup.sha256) where
  Kept-IsSound :
      (faults : Faults) (now : ℕ) (req : Request) (st : Store) (out : Response × World)
      → Kept service faults now req st out
      → IsSound service.get_project st
      → IsSound service.get_project out.1.store
  unfolding persist
  Kept-IsSound faults now req st out k v =
      let a = admit-IsAdmitted service req k.admission k.admitted in
      let id = id_of service k.content in
      let batch : Batch = record {
        project_id = k.admission.project_id;
        event_id = id;
        now = now;
      } in
      let valid =
        chosen_id-valid service.setup.json service.setup.sha256 k.content.raw k.content.items
          hash in
      let owned : IsOwned service.get_project k.admission.project_id =
        (k.admission.key, a.registered) in
      let kept : IsSound service.get_project
          (persist service.setup faults batch k.content.raw k.content.items st).1 =
        subst
          (λ b.
            IsSound service.get_project
              (persist_under service.setup faults b k.content.raw k.content.items st).1)
          (sym (checked_valid service.setup k.content.raw batch valid))
          (persist_under-IsSound service.get_project service.setup faults batch owned valid
            k.content.raw k.content.items st v) in
      subst (IsSound service.get_project) (sym k.stored) kept

  Step-IsSound :
      {w v : World}
      → Step service w v
      → IsSound service.get_project w.store
      → IsSound service.get_project v.store
  Step-IsSound (started token rate burst) s = s
  Step-IsSound {w} (served faults now req) s =
      elim (handle_request-outcome service faults now req w) [
        | inl untouched ↦ subst (IsSound service.get_project) (sym untouched.0) s
        | inr k ↦ Kept-IsSound faults now req w.store _ k s
      ]

-- With a hash of 32 bytes, after any sequence of starts and requests, whatever calls of the stores
-- fail: every key of the archive and every row belongs to a registered project, is made of a valid
-- event id, and has no unsafe item type in it; and every row points to an object that is in the
-- archive.
pub Reach-IsSound :
    (service : Service) {w : World}
    → IsHash service.setup.sha256
    → Reach service w
    → IsSound service.get_project w.store
Reach-IsSound service hash nothing = record { keys = tt; rows = tt; archived = tt }
Reach-IsSound service hash (next r s) = Step-IsSound service hash s (Reach-IsSound service hash r)
