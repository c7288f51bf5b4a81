-- ===== src/Ingest/Lambda/Stored.antt =====
-- What `persist` leaves in the stores for a registered project.
use mathlib.Core.Path.{subst}
use serverless_error_ingest.Http.{lookup}
use serverless_error_ingest.Ingest.Envelope.{Item}
use serverless_error_ingest.Ingest.EventId.{valid_event_id, event_type}
use serverless_error_ingest.Ingest.Keys.{sanitize_item_type, sort_key_of, envelope_key, item_key}
use serverless_error_ingest.Ingest.Keys.Safe.{IsSafe, sanitize_item_type-IsSafe}
use serverless_error_ingest.Ingest.Persist.{
  Store, Faults, Setup, Batch, EventRow, batch_date, key_of_item, key_of_envelope, row_of,
  persist_item, persist_items, persist_under,
}
use serverless_error_ingest.Ingest.Registry.{GetProject}
use serverless_error_ingest.Ingest.Handler.Admitted.{IsRegistered}
use serverless_error_ingest.Base.{
  ℕ, ◌+◌, ◌≡◌, refl, sym, inl, inr, true, List, [], ◌∷◌, arith, Bool-cases, Bytes, equal, equal_iff,
  is_some, All,
}

-- The registry lists a key for the project while it is active.
abbrev pub IsOwned : GetProject → Bytes → Type 0
IsOwned get_project project_id = (key : Bytes) × IsRegistered get_project project_id key

-- A key of the archive names a registered project and a valid event id, and an item type that is safe.
pub data IsObjectKey (get_project : GetProject) (k : Bytes) : Type 0 where
  of_envelope :
      (p d id : Bytes)
      → IsOwned get_project p
      → valid_event_id id ≡ true
      → k ≡ envelope_key p d id
      → IsObjectKey get_project k
  of_item :
      (p d id t : Bytes) (n : ℕ)
      → IsOwned get_project p
      → valid_event_id id ≡ true
      → IsSafe t
      → k ≡ item_key p d id n t
      → IsObjectKey get_project k

-- A row is of a registered project, the item type it stores is safe, and its sort key is made of a valid
-- event id and this item type.
pub record IsRow (get_project : GetProject) (r : EventRow) : Type 0 where
  pub id : Bytes
  pub seq : ℕ
  pub owned : IsOwned get_project r.project_id
  pub valid : valid_event_id id ≡ true
  pub safe : IsSafe r.item_type
  pub sort_key : r.event_id ≡ sort_key_of id r.item_type seq

-- Every key and every row is as above, and the object that a row points to is in the archive.
pub record IsSound (get_project : GetProject) (st : Store) : Type 0 where
  pub keys : All (λ o. IsObjectKey get_project o.0) st.objects
  pub rows : All (IsRow get_project) st.rows
  pub archived : All (λ r. is_some (lookup r.s3_path st.objects) ≡ true) st.rows

pub lookup-more :
    (k j v : Bytes) (m : List (Bytes × Bytes))
    → is_some (lookup k m) ≡ true
    → is_some (lookup k ((j, v) ∷ m)) ≡ true
unfolding lookup
lookup-more k j v m h = ground arith

pub lookup_first : (k v : Bytes) (m : List (Bytes × Bytes)) → is_some (lookup k ((k, v) ∷ m)) ≡ true
unfolding lookup
lookup_first k v m = rw ((equal_iff k k).1 refl) refl

All-archived :
    (j v : Bytes) (m : List (Bytes × Bytes)) (rows : List EventRow)
    → All (λ r. is_some (lookup r.s3_path m) ≡ true) rows
    → All (λ r. is_some (lookup r.s3_path ((j, v) ∷ m)) ≡ true) rows
All-archived j v m [] h = tt
All-archived j v m (r ∷ rows) (a, h) = (lookup-more r.s3_path j v m a, All-archived j v m rows h)

module _ (get_project : GetProject) where
  pub object-IsSound :
      (k text : Bytes) (st : Store)
      → IsObjectKey get_project k
      → IsSound get_project st
      → IsSound get_project (record st { objects = (k, text) ∷ st.objects })
  object-IsSound k text st key v = record {
    keys = (key, v.keys);
    rows = v.rows;
    archived = All-archived k text st.objects st.rows v.archived;
  }

  pub row-IsSound :
      (r : EventRow) (st : Store)
      → IsRow get_project r
      → is_some (lookup r.s3_path st.objects) ≡ true
      → IsSound get_project st
      → IsSound get_project (record st { rows = r ∷ st.rows })
  row-IsSound r st row there v = record {
    keys = v.keys;
    rows = (row, v.rows);
    archived = (there, v.archived);
  }

module _ (setup : Setup) (faults : Faults) (batch : Batch) where
  -- What the event's own fields do not touch.
  pub record Outline (seq : ℕ) (it : Item) (r : EventRow) : Type 0 where
    pub project : r.project_id ≡ batch.project_id
    pub item_type : r.item_type ≡ sanitize_item_type it.header.type
    pub sort_key : r.event_id ≡ sort_key_of batch.event_id (sanitize_item_type it.header.type) seq
    pub path : r.s3_path ≡ key_of_item setup faults batch seq it

  pub row_of-Outline : (seq : ℕ) (it : Item) → Outline seq it (row_of setup faults batch seq it)
  unfolding row_of
  row_of-Outline seq it = elim (Bool-cases (equal (sanitize_item_type it.header.type) event_type)) [
    | inl e ↦ rw e (record { project = refl; item_type = refl; sort_key = refl; path = refl })
    | inr e ↦ rw e (record { project = refl; item_type = refl; sort_key = refl; path = refl })
  ]

-- What `persist` stores for a registered project under a valid id keeps the stores sound.
module _ (get_project : GetProject) (setup : Setup) (faults : Faults) (batch : Batch)
    (owned : IsOwned get_project batch.project_id)
    (valid : valid_event_id batch.event_id ≡ true) where
  pub item-IsObjectKey :
      (seq : ℕ) (it : Item) → IsObjectKey get_project (key_of_item setup faults batch seq it)
  item-IsObjectKey seq it =
      of_item batch.project_id (batch_date setup faults batch) batch.event_id
        (sanitize_item_type it.header.type) seq owned valid
        (sanitize_item_type-IsSafe it.header.type) refl

  pub row_of-IsRow : (seq : ℕ) (it : Item) → IsRow get_project (row_of setup faults batch seq it)
  row_of-IsRow seq it =
      let o = row_of-Outline setup faults batch seq it in
      record {
        id = batch.event_id;
        seq = seq;
        owned = subst (IsOwned get_project) (sym o.project) owned;
        valid = valid;
        safe = subst IsSafe (sym o.item_type) (sanitize_item_type-IsSafe it.header.type);
        sort_key =
            subst
              (λ t. (row_of setup faults batch seq it).event_id ≡ sort_key_of batch.event_id t seq)
              (sym o.item_type) o.sort_key;
      }

  persist_item-IsSound :
      (seq : ℕ) (it : Item) (st : Store)
      → IsSound get_project st
      → IsSound get_project (persist_item setup faults batch seq it st).1
  unfolding persist_item
  persist_item-IsSound seq it st v =
      let key = key_of_item setup faults batch seq it in
      let row = row_of setup faults batch seq it in
      let put = object-IsSound get_project key it.payload st (item-IsObjectKey seq it) v in
      let there =
        subst (λ k. is_some (lookup k ((key, it.payload) ∷ st.objects)) ≡ true)
          (sym (row_of-Outline setup faults batch seq it).path)
          (lookup_first key it.payload st.objects) in
      elim (Bool-cases (faults.object_fails key)) [
        | inl fails ↦ rw fails v
        | inr works ↦ elim (Bool-cases (faults.row_fails row)) [
          | inl fails ↦ rw (works, fails) put
          | inr goes ↦
              rw (works, goes)
                (row-IsSound get_project row
                  (record st { objects = (key, it.payload) ∷ st.objects }) (row_of-IsRow seq it)
                  there put)
        ]
      ]

  persist_items-IsSound :
      (seq : ℕ) (its : List Item) (st : Store)
      → IsSound get_project st
      → IsSound get_project (persist_items setup faults batch seq its st).1
  unfolding persist_items
  persist_items-IsSound seq [] st v = v
  persist_items-IsSound seq (it ∷ its) st v =
      persist_items-IsSound (seq + 1) its (persist_item setup faults batch seq it st).1
        (persist_item-IsSound seq it st v)

  pub persist_under-IsSound :
      (raw : Bytes) (its : List Item) (st : Store)
      → IsSound get_project st
      → IsSound get_project (persist_under setup faults batch raw its st).1
  persist_under-IsSound raw its st v =
      let key = key_of_envelope setup faults batch in
      let named =
        of_envelope batch.project_id (batch_date setup faults batch) batch.event_id owned valid
          refl in
      elim (Bool-cases (faults.object_fails key)) [
        | inl fails ↦ rw fails v
        | inr works ↦ rw works (
            persist_items-IsSound 0 its (record st { objects = (key, raw) ∷ st.objects })
              (object-IsSound get_project key raw st named v))
      ]
