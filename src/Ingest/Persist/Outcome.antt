-- ===== src/Ingest/Persist/Outcome.antt =====
-- When `persist` succeeds.
use Prim.Native.Nat.{suc-le-suc}
use mathlib.Core.Bool.{false≢true}
use mathlib.Core.List.{cons-ne-nil}
use serverless_error_ingest.Ingest.Envelope.{Item}
use serverless_error_ingest.Ingest.Persist.{
  Store, Faults, Setup, Batch, key_of_item, key_of_envelope, row_of, persist_item, persist_items,
  verdict, checked, persist_under, persist,
}
use serverless_error_ingest.Base.{
  ℕ, ◌+◌, ◌≤◌, ◌<◌, ◌≡◌, refl, sym, ◌∙◌, ◌↔◌, ◌⊎◌, inl, inr, true, false, List, [], ◌∷◌, arith,
  Bool-cases, Bytes, length,
}

module _ (setup : Setup) (faults : Faults) (batch : Batch) where
  -- Neither call for the item reports an error.
  abbrev pub Goes : ℕ → Item → Type 0
  Goes seq it =
      (faults.object_fails (key_of_item setup faults batch seq it) ≡ false)
      × (faults.row_fails (row_of setup faults batch seq it) ≡ false)

  abbrev pub SomeGoes : ℕ → List Item → Type 0
  SomeGoes seq [] = ⊥
  SomeGoes seq (it ∷ its) = Goes seq it ⊎ SomeGoes (seq + 1) its

  persist_item-Goes :
      (seq : ℕ) (it : Item) (st : Store)
      → ((persist_item setup faults batch seq it st).0 ≡ true) ↔ Goes seq it
  unfolding persist_item
  persist_item-Goes seq it st = ground arith

  persist_items-le :
      (seq : ℕ) (its : List Item) (st : Store)
      → (persist_items setup faults batch seq its st).0 ≤ length its
  unfolding persist_items
  persist_items-le seq [] st = omega arith
  persist_items-le seq (it ∷ its) st =
      let st' = (persist_item setup faults batch seq it st).1 in
      let later = persist_items-le (seq + 1) its st' in
      elim (Bool-cases (persist_item setup faults batch seq it st).0) [
        | inl good ↦ rw good (omega arith)
        | inr bad ↦ rw bad (omega arith)
      ]

  persist_items-SomeGoes :
      (seq : ℕ) (its : List Item) (st : Store)
      → ((persist_items setup faults batch seq its st).0 < length its) ↔ SomeGoes seq its
  unfolding persist_items
  persist_items-SomeGoes seq [] st = (λ h. absurd (omega arith), λ h. absurd h)
  persist_items-SomeGoes seq (it ∷ its) st =
      let st' = (persist_item setup faults batch seq it st).1 in
      let later = persist_items-SomeGoes (seq + 1) its st' in
      let le = persist_items-le (seq + 1) its st' in
      let goes = persist_item-Goes seq it st in
      elim (Bool-cases (persist_item setup faults batch seq it st).0) [
        | inl good ↦ rw good (λ _. inl (goes.0 good), λ _. omega arith)
        | inr bad ↦ rw bad (
          λ h. inr (later.0 (omega arith)),
          λ h. suc-le-suc (later.1 (elim h [ inl g ↦ absurd (cc (goes.1 g)) | inr more ↦ more ])),
        )
      ]

  verdict_lem :
      (failed : ℕ) (its : List Item)
      → failed ≤ length its
      → (verdict failed (length its) ≡ true) ↔ ((its ≡ []) ⊎ (failed < length its))
  verdict_lem failed [] le = (λ _. inl refl, λ _. ground arith)
  verdict_lem failed (it ∷ its) le = (
    λ e. inr (ground arith),
    λ h. elim h [ inl nil ↦ absurd (cons-ne-nil it its nil) | inr lt ↦ ground arith ],
  )

  persist_under-ok :
      (raw : Bytes) (its : List Item) (st : Store)
      → ((persist_under setup faults batch raw its st).0 ≡ true) ↔ (
          (faults.object_fails (key_of_envelope setup faults batch) ≡ false)
          × ((its ≡ []) ⊎ SomeGoes 0 its))
  persist_under-ok raw its st =
      let key = key_of_envelope setup faults batch in
      let st' = record st { objects = (key, raw) ∷ st.objects } in
      let counted =
        verdict_lem (persist_items setup faults batch 0 its st').0 its
          (persist_items-le 0 its st') in
      let some_goes = persist_items-SomeGoes 0 its st' in
      elim (Bool-cases (faults.object_fails key)) [
        | inl fails ↦ rw fails (λ e. absurd (false≢true e), λ h. absurd (false≢true (sym h.0)))
        | inr works ↦ rw works (
          λ e. (refl, elim (counted.0 e) [ inl n ↦ inl n | inr lt ↦ inr (some_goes.0 lt) ]),
          λ h. counted.1 (elim h.1 [ inl n ↦ inl n | inr g ↦ inr (some_goes.1 g) ]),
        )
      ]

-- `persist` succeeds exactly when the raw envelope is archived and, where there are items, both the
-- object and the row of at least one of them are.
pub persist-ok :
    (setup : Setup) (faults : Faults) (batch : Batch) (raw : Bytes) (its : List Item) (st : Store)
    → ((persist setup faults batch raw its st).0 ≡ true) ↔ (
        (faults.object_fails (key_of_envelope setup faults (checked setup raw batch)) ≡ false)
        × ((its ≡ []) ⊎ SomeGoes setup faults (checked setup raw batch) 0 its))
unfolding persist
persist-ok setup faults batch raw its st =
    persist_under-ok setup faults (checked setup raw batch) raw its st

module _ (setup : Setup) (faults : Faults) (batch : Batch) where
  persist_item_failed :
      (seq : ℕ) (it : Item) (st : Store)
      → (persist_item setup faults batch seq it st).0 ≡ false
      → (persist_item setup faults batch seq it st).1.rows ≡ st.rows
  unfolding persist_item
  persist_item_failed seq it st e = ground arith

  persist_items_failed :
      (seq : ℕ) (its : List Item) (st : Store)
      → (persist_items setup faults batch seq its st).0 ≡ length its
      → (persist_items setup faults batch seq its st).1.rows ≡ st.rows
  unfolding persist_items
  persist_items_failed seq [] st e = refl
  persist_items_failed seq (it ∷ its) st e =
      let st' = (persist_item setup faults batch seq it st).1 in
      let le = persist_items-le setup faults batch (seq + 1) its st' in
      elim (Bool-cases (persist_item setup faults batch seq it st).0) [
        | inl good ↦ absurd (ground (arith, good, le, e))
        | inr bad ↦
            persist_items_failed (seq + 1) its st' (ground (arith, bad, e))
            ∙ persist_item_failed seq it st bad
      ]

  verdict_failed : (failed total : ℕ) → verdict failed total ≡ false → failed ≡ total
  verdict_failed failed total e = ground arith

  persist_under_failed :
      (raw : Bytes) (its : List Item) (st : Store)
      → (persist_under setup faults batch raw its st).0 ≡ false
      → (persist_under setup faults batch raw its st).1.rows ≡ st.rows
  persist_under_failed raw its st e =
      let key = key_of_envelope setup faults batch in
      let st' = record st { objects = (key, raw) ∷ st.objects } in
      elim (Bool-cases (faults.object_fails key)) [
        | inl fails ↦ rw fails refl
        | inr works ↦ rw works (
            persist_items_failed 0 its st' (
              verdict_failed (persist_items setup faults batch 0 its st').0 (length its)
                (ground (arith, works, e))))
      ]

-- Where `persist` reports an error, it has written no metadata row: whether the envelope could not be
-- archived or every item failed, in its object or in its row.
pub persist_failed :
    (setup : Setup) (faults : Faults) (batch : Batch) (raw : Bytes) (its : List Item) (st : Store)
    → (persist setup faults batch raw its st).0 ≡ false
    → (persist setup faults batch raw its st).1.rows ≡ st.rows
unfolding persist
persist_failed setup faults batch raw its st e =
    persist_under_failed setup faults (checked setup raw batch) raw its st e
