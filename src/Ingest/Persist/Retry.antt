-- ===== src/Ingest/Persist/Retry.antt =====
-- A request that is repeated on the same day.
use serverless_error_ingest.Http.{lookup}
use serverless_error_ingest.Ingest.Envelope.{Item}
use serverless_error_ingest.Ingest.Keys.{envelope_key, item_key, sanitize_item_type}
use serverless_error_ingest.Ingest.Persist.{
  Store, Faults, Setup, Batch, key_of_envelope, persist_item, persist_items, persist_under, checked,
  persist,
}
use serverless_error_ingest.Base.{
  ℕ, ◌+◌, ◌≡◌, refl, sym, ap, ◌∙◌, inl, inr, Bool, true, false, none, some, List, [], ◌∷◌, ◌++◌,
  append_assoc, arith, if◌then◌else◌, Bool-cases, Option-cases, Bytes, equal, equal_iff,
}

lookup-append :
    (k v : Bytes) (w o : List (Bytes × Bytes)) → lookup k w ≡ some v → lookup k (w ++ o) ≡ some v
unfolding lookup
lookup-append k v [] o e = cc
lookup-append k v ((j, x) ∷ w) o e = ground (arith, lookup-append k v w o)

lookup_absent :
    (k : Bytes) (w o : List (Bytes × Bytes)) → lookup k w ≡ none → lookup k (w ++ o) ≡ lookup k o
unfolding lookup
lookup_absent k [] o e = refl
lookup_absent k ((j, x) ∷ w) o e = ground (arith, lookup_absent k w o)

-- Of a list of writes, those that do not fail.
going : (Bytes → Bool) → List (Bytes × Bytes) → List (Bytes × Bytes)
going fails [] = []
going fails ((j, v) ∷ w) = if fails j then going fails w else (j, v) ∷ going fails w

going-append :
    (fails : Bytes → Bool) (w o : List (Bytes × Bytes))
    → going fails (w ++ o) ≡ going fails w ++ going fails o
unfolding going
going-append fails [] o = refl
going-append fails ((j, v) ∷ w) o = ground (arith, going-append fails w o)

lookup-going_failed :
    (fails : Bytes → Bool) (k : Bytes) (w : List (Bytes × Bytes))
    → fails k ≡ true
    → lookup k (going fails w) ≡ none
unfolding lookup going
lookup-going_failed fails k [] f = refl
lookup-going_failed fails k ((j, v) ∷ w) f =
    let rest = lookup-going_failed fails k w f in
    elim (Bool-cases (equal j k)) [
      | inl same ↦ let at = ap fails ((equal_iff j k).0 same) ∙ f in rw at rest
      | inr other ↦ ground arith
    ]

lookup-going :
    (fails : Bytes → Bool) (k : Bytes) (w : List (Bytes × Bytes))
    → fails k ≡ false
    → lookup k (going fails w) ≡ lookup k w
unfolding lookup going
lookup-going fails k [] f = refl
lookup-going fails k ((j, v) ∷ w) f =
    let rest = lookup-going fails k w f in
    elim (Bool-cases (equal j k)) [
      | inl same ↦ let at = ap fails ((equal_iff j k).0 same) ∙ f in ground arith
      | inr other ↦ ground arith
    ]

-- Writing some of the same entries once more changes no entry whose write did not fail.
lookup_again :
    (fails fails' : Bytes → Bool) (k : Bytes) (w o : List (Bytes × Bytes))
    → fails k ≡ false
    → lookup k (going fails' w ++ (going fails w ++ o)) ≡ lookup k (going fails w ++ o)
lookup_again fails fails' k w o goes = elim (Bool-cases (fails' k)) [
  | inl failed ↦ lookup_absent k (going fails' w) _ (lookup-going_failed fails' k w failed)
  | inr went ↦ elim (Option-cases (lookup k w)) [
    | inl absent ↦
        lookup_absent k (going fails' w) (going fails w ++ o)
          (lookup-going fails' k w went ∙ absent)
    | inr (v, e) ↦
        lookup-append k v (going fails' w) _ (lookup-going fails' k w went ∙ e)
        ∙ sym (lookup-append k v (going fails w) o (lookup-going fails k w goes ∙ e))
  ]
]

module _ (project_id date event_id : Bytes) where
  -- The objects that a request names, the last first.
  item_writes : ℕ → Item → List (Bytes × Bytes)
  item_writes seq it =
      (item_key project_id date event_id seq (sanitize_item_type it.header.type), it.payload) ∷ []

  items_writes : ℕ → List Item → List (Bytes × Bytes)
  items_writes seq [] = []
  items_writes seq (it ∷ its) = items_writes (seq + 1) its ++ item_writes seq it

  all_writes : Bytes → List Item → List (Bytes × Bytes)
  all_writes raw its = items_writes 0 its ++ ((envelope_key project_id date event_id, raw) ∷ [])

module _ (setup : Setup) (faults : Faults) (batch : Batch) where
  abbrev today : Bytes
  today = setup.calendar.date batch.now

  abbrev items_on : ℕ → List Item → List (Bytes × Bytes)
  items_on = items_writes batch.project_id today batch.event_id

  abbrev all_on : Bytes → Bytes → List Item → List (Bytes × Bytes)
  all_on date = all_writes batch.project_id date batch.event_id

  persist_item-writes :
      (seq : ℕ) (it : Item) (st : Store)
      → (persist_item setup faults batch seq it st).1.objects
        ≡ going faults.object_fails (item_writes batch.project_id today batch.event_id seq it)
          ++ st.objects
  unfolding persist_item item_writes going
  persist_item-writes seq it st = ground arith

  persist_items-writes :
      (seq : ℕ) (its : List Item) (st : Store)
      → (persist_items setup faults batch seq its st).1.objects
        ≡ going faults.object_fails (items_on seq its) ++ st.objects
  unfolding persist_items items_writes going
  persist_items-writes seq [] st = refl
  persist_items-writes seq (it ∷ its) st =
      let one = item_writes batch.project_id today batch.event_id seq it in
      let more = items_on (seq + 1) its in
      persist_items-writes (seq + 1) its (persist_item setup faults batch seq it st).1
      ∙ ap (λ o. going faults.object_fails more ++ o) (persist_item-writes seq it st)
      ∙ sym
          (append_assoc (going faults.object_fails more) (going faults.object_fails one) st.objects)
      ∙ ap (λ w. w ++ st.objects) (sym (going-append faults.object_fails more one))

  -- All that does not fail is written where the envelope is.
  persist_under-writes :
      (raw : Bytes) (its : List Item) (st : Store)
      → faults.object_fails (key_of_envelope setup faults batch) ≡ false
      → (persist_under setup faults batch raw its st).1.objects
        ≡ going faults.object_fails (all_on today raw its) ++ st.objects
  unfolding all_writes going
  persist_under-writes raw its st works =
      let env : List (Bytes × Bytes) = (key_of_envelope setup faults batch, raw) ∷ [] in
      let kept : going faults.object_fails env ≡ env = rw works refl in
      rw works (
        persist_items-writes 0 its (record st { objects = env ++ st.objects })
        ∙ sym (append_assoc (going faults.object_fails (items_on 0 its)) env st.objects)
        ∙ ap (λ w. (going faults.object_fails (items_on 0 its) ++ w) ++ st.objects) (sym kept)
        ∙ ap (λ w. w ++ st.objects) (sym (going-append faults.object_fails (items_on 0 its) env)))

  persist_under_failed :
      (raw : Bytes) (its : List Item) (st : Store)
      → faults.object_fails (key_of_envelope setup faults batch) ≡ true
      → (persist_under setup faults batch raw its st).1.objects ≡ st.objects
  persist_under_failed raw its st fails = rw fails refl

-- A request that is stored again on the same day, by a retry with the same id or the same bytes, whatever
-- calls fail this time: where the first time the envelope was stored, every object of the archive but
-- those that the first time failed to store stays as the first time left it.
pub persist_again :
    (setup : Setup) (faults faults' : Faults) (batch : Batch) (later : ℕ) (raw : Bytes)
    (its : List Item) (st : Store) (k : Bytes)
    → setup.calendar.date later ≡ setup.calendar.date batch.now
    → faults.object_fails (key_of_envelope setup faults (checked setup raw batch)) ≡ false
    → faults.object_fails k ≡ false
    → lookup k
        (persist setup faults'
          (record batch { now = later })
          raw
          its
          (persist setup faults batch raw its st).1).1.objects
      ≡ lookup k (persist setup faults batch raw its st).1.objects
unfolding persist
persist_again setup faults faults' batch later raw its st k same stored goes =
    let b = checked setup raw batch in
    let b' = record b { now = later } in
    let once = persist_under-writes setup faults b raw its st stored in
    let st' = (persist_under setup faults b raw its st).1 in
    let w = all_writes b.project_id (setup.calendar.date batch.now) b.event_id raw its in
    elim (Bool-cases (faults'.object_fails (key_of_envelope setup faults' b'))) [
      | inl fails ↦ ap (lookup k) (persist_under_failed setup faults' b' raw its st' fails)
      | inr works ↦
          let twice =
            persist_under-writes setup faults' b' raw its st' works
            ∙ ap
                (λ d.
                  going faults'.object_fails (all_writes b.project_id d b.event_id raw its)
                  ++ st'.objects)
                same
            ∙ ap (λ o. going faults'.object_fails w ++ o) once in
          ap (lookup k) twice
          ∙ lookup_again faults.object_fails faults'.object_fails k w st.objects goes
          ∙ sym (ap (lookup k) once)
    ]
