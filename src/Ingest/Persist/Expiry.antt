-- ===== src/Ingest/Persist/Expiry.antt =====
-- When a row expires, for each number of days to live.
use serverless_error_ingest.Base.Int.{◌≤ℤ◌}
use mathlib.Core.Path.{subst}
use serverless_error_ingest.Ingest.Envelope.{Item}
use serverless_error_ingest.Ingest.EventId.{event_type}
use serverless_error_ingest.Ingest.Keys.{sanitize_item_type}
use serverless_error_ingest.Ingest.Persist.{
  Setup, Faults, Batch, row_of, expiry, nanos_per_second, half_range, full_range,
}
use serverless_error_ingest.Base.{
  ℕ, ◌+◌, ◌*◌, ◌/◌, ◌≤◌, ◌<◌, ◌≡◌, refl, sym, ◌∙◌, ◌⊎◌, inl, inr, arith, ltb, ltb→lt, lt→ltb,
  Bool-cases, equal, pos,
}

-- The days to live in nanoseconds.
abbrev pub lifetime : ℕ → ℕ
lifetime days = days * 86400000000000

expiry-exact :
    (days now : ℕ)
    → lifetime days < half_range
    → expiry days now ≡ pos (now / nanos_per_second + days * 86400)
unfolding expiry
expiry-exact days now h = ground arith

expiry-wraps :
    (days now : ℕ)
    → half_range ≤ lifetime days
    → lifetime days < full_range
    → expiry days now ≤ℤ pos (now / nanos_per_second)
unfolding expiry
expiry-wraps days now h l = ground arith

row_of-expires_at :
    (setup : Setup) (faults : Faults) (batch : Batch) (seq : ℕ) (it : Item)
    → 0 < setup.event_ttl_days
    → (row_of setup faults batch seq it).expires_at ≡ expiry setup.event_ttl_days batch.now
unfolding row_of
row_of-expires_at setup faults batch seq it h =
    elim (Bool-cases (equal (sanitize_item_type it.header.type) event_type)) [
      | inl e ↦ rw (e, lt→ltb 0 setup.event_ttl_days h) refl
      | inr e ↦ rw (e, lt→ltb 0 setup.event_ttl_days h) refl
    ]

-- The row of an item, for a positive number of days that is less than 2^64 nanoseconds: below 2^63
-- nanoseconds, which is up to 106751 days, it expires these days after the request; above, the product
-- wraps around and the row expires at the time of the request or before.
pub row_of_expires :
    (setup : Setup) (faults : Faults) (batch : Batch) (seq : ℕ) (it : Item)
    → 0 < setup.event_ttl_days
    → lifetime setup.event_ttl_days < full_range
    → ((lifetime setup.event_ttl_days < half_range)
        × ((row_of setup faults batch seq it).expires_at
            ≡ pos (batch.now / nanos_per_second + setup.event_ttl_days * 86400)))
      ⊎ ((half_range ≤ lifetime setup.event_ttl_days)
          × ((row_of setup faults batch seq it).expires_at ≤ℤ pos (batch.now / nanos_per_second)))
row_of_expires setup faults batch seq it h fits =
    let days = setup.event_ttl_days in
    let same = row_of-expires_at setup faults batch seq it h in
    elim (Bool-cases (ltb (lifetime days) half_range)) [
      | inl few ↦
          let small = ltb→lt (lifetime days) half_range few in
          inl (small, same ∙ expiry-exact days batch.now small)
      | inr many ↦
          let large : half_range ≤ lifetime days = ground arith in
          inr (
            large,
            subst (λ t. t ≤ℤ pos (batch.now / nanos_per_second)) (sym same)
                (expiry-wraps days batch.now large fits),
          )
    ]
