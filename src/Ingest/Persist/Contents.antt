-- ===== src/Ingest/Persist/Contents.antt =====
-- What `persist` leaves in the stores.
use serverless_error_ingest.Http.{lookup}
use serverless_error_ingest.Ingest.Envelope.{Item}
use serverless_error_ingest.Ingest.Keys.{sanitize_item_type}
use serverless_error_ingest.Ingest.Keys.Distinct.{item_key-injective, item_key-ne-envelope_key}
use serverless_error_ingest.Ingest.Persist.{
  Store, Faults, Setup, Batch, batch_date, key_of_item, key_of_envelope, persist_item,
  persist_items, checked, persist,
}
use serverless_error_ingest.Base.{
  ℕ, zero, suc, ◌+◌, ◌≤◌, ◌≡◌, refl, ◌∙◌, ◌≢◌, false, some, List, [], ◌∷◌, arith, Bytes, equal_iff,
  get_elem?,
}

lookup_other :
    (k j v : Bytes) (m : List (Bytes × Bytes)) → j ≢ k → lookup k ((j, v) ∷ m) ≡ lookup k m
unfolding lookup
lookup_other k j v m ne = ground (arith, equal_iff j k)

lookup_same : (k v : Bytes) (m : List (Bytes × Bytes)) → lookup k ((k, v) ∷ m) ≡ some v
unfolding lookup
lookup_same k v m = ground (arith, equal_iff k k)

module _ (setup : Setup) (faults : Faults) (batch : Batch) where
  -- No item from number `seq` on is stored under the key.
  abbrev Free : Bytes → ℕ → Type 0
  Free k seq = (n : ℕ) (it : Item) → seq ≤ n → key_of_item setup faults batch n it ≢ k

  persist_item_other :
      (k : Bytes) (seq : ℕ) (it : Item) (st : Store)
      → key_of_item setup faults batch seq it ≢ k
      → lookup k (persist_item setup faults batch seq it st).1.objects ≡ lookup k st.objects
  unfolding persist_item
  persist_item_other k seq it st ne =
      ground (arith, lookup_other k (key_of_item setup faults batch seq it) it.payload st.objects)

  persist_items_other :
      (k : Bytes) (seq : ℕ) (its : List Item) (st : Store)
      → Free k seq
      → lookup k (persist_items setup faults batch seq its st).1.objects ≡ lookup k st.objects
  unfolding persist_items
  persist_items_other k seq [] st free = refl
  persist_items_other k seq (it ∷ its) st free =
      persist_items_other k (seq + 1) its (persist_item setup faults batch seq it st).1
        (λ n i le. free n i (omega arith))
      ∙ persist_item_other k seq it st (free seq it (omega arith))

  persist_item_stored :
      (seq : ℕ) (it : Item) (st : Store)
      → faults.object_fails (key_of_item setup faults batch seq it) ≡ false
      → lookup
          (key_of_item setup faults batch seq it)
          (persist_item setup faults batch seq it st).1.objects
        ≡ some it.payload
  unfolding persist_item
  persist_item_stored seq it st works =
      ground (arith, lookup_same (key_of_item setup faults batch seq it) it.payload st.objects)

  Free-key : (seq : ℕ) (it : Item) → Free (key_of_item setup faults batch seq it) (seq + 1)
  Free-key seq it n other le e =
      let same =
        item_key-injective batch.project_id (batch_date setup faults batch) batch.event_id
          (sanitize_item_type other.header.type) (sanitize_item_type it.header.type) n seq e in
      omega (arith, same.0)

  persist_items_stored :
      (seq n m : ℕ) (its : List Item) (it : Item) (st : Store)
      → m ≡ seq + n
      → get_elem? its n ≡ some it
      → faults.object_fails (key_of_item setup faults batch m it) ≡ false
      → lookup
          (key_of_item setup faults batch m it)
          (persist_items setup faults batch seq its st).1.objects
        ≡ some it.payload
  unfolding persist_items
  persist_items_stored seq n m [] it st em at works = cc
  persist_items_stored seq zero m (i ∷ its) it st em at works =
      let same : i ≡ it = cc in
      let here : m ≡ seq = omega arith in
      let works' : faults.object_fails (key_of_item setup faults batch seq i) ≡ false =
        rw (same, ← here) works in
      let st' = (persist_item setup faults batch seq i st).1 in
      rw (here, ← same)
        (persist_items_other (key_of_item setup faults batch seq i) (seq + 1) its st'
            (Free-key seq i)
          ∙ persist_item_stored seq i st works')
  persist_items_stored seq (suc n) m (i ∷ its) it st em at works =
      persist_items_stored (seq + 1) n m its it (persist_item setup faults batch seq i st).1
        (omega arith) at works

  Free-envelope : Free (key_of_envelope setup faults batch) 0
  Free-envelope n it le =
      item_key-ne-envelope_key batch.project_id (batch_date setup faults batch) batch.event_id n
        (sanitize_item_type it.header.type)

-- Once archived, the raw envelope stays under its key whatever items are stored after it.
pub persist_archived :
    (setup : Setup) (faults : Faults) (batch : Batch) (raw : Bytes) (its : List Item) (st : Store)
    → faults.object_fails (key_of_envelope setup faults (checked setup raw batch)) ≡ false
    → lookup
        (key_of_envelope setup faults (checked setup raw batch))
        (persist setup faults batch raw its st).1.objects
      ≡ some raw
unfolding persist
persist_archived setup faults batch raw its st works =
    let b = checked setup raw batch in
    let key = key_of_envelope setup faults b in
    rw works (
      persist_items_other setup faults b key 0 its (record st { objects = (key, raw) ∷ st.objects })
        (Free-envelope setup faults b)
      ∙ lookup_same key raw st.objects)

-- With the envelope archived, each item whose own object is written is found under its key with its
-- payload, whatever the other items hold and whichever of them fail.
pub persist_item_archived :
    (setup : Setup) (faults : Faults) (batch : Batch) (raw : Bytes) (its : List Item) (st : Store)
    (n : ℕ) (it : Item)
    → faults.object_fails (key_of_envelope setup faults (checked setup raw batch)) ≡ false
    → get_elem? its n ≡ some it
    → faults.object_fails (key_of_item setup faults (checked setup raw batch) n it) ≡ false
    → lookup
        (key_of_item setup faults (checked setup raw batch) n it)
        (persist setup faults batch raw its st).1.objects
      ≡ some it.payload
unfolding persist
persist_item_archived setup faults batch raw its st n it works at goes =
    let b = checked setup raw batch in
    let key = key_of_envelope setup faults b in
    rw works (
      persist_items_stored setup faults b 0 n n its it
        (record st { objects = (key, raw) ∷ st.objects }) (omega arith) at goes)
