-- ===== src/Ingest/Persist.antt =====
-- `persist` of lambda/ingest/main.go, with the stores as association lists, newest entry first.
pub mod Outcome
pub mod Contents
pub mod Retry
pub mod Expiry
use serverless_error_ingest.Http.{lookup}
use serverless_error_ingest.Json.{Json, EventMeta}
use serverless_error_ingest.Ingest.Envelope.{Item}
use serverless_error_ingest.Ingest.EventId.{valid_event_id, deterministic_id, event_type}
use serverless_error_ingest.Ingest.Keys.{sanitize_item_type, sort_key_of, envelope_key, item_key}
use serverless_error_ingest.Base.{
  ℕ, suc, ◌+◌, ◌-◌, ◌*◌, ◌/◌, ◌%◌, Bool, true, false, not, ◌&&◌, List, [], ◌∷◌, ltb, leb, ◌==◌,
  if◌then◌else◌, Bytes, codes, equal, is_empty, ℤ, pos, negsuc, length,
}

-- `eventRow`
pub record EventRow : Type 0 where
  pub project_id : Bytes
  pub event_id : Bytes
  pub timestamp : Bytes
  pub level : Bytes
  pub platform : Bytes
  pub item_type : Bytes
  pub count : ℕ
  pub status : Bytes
  pub s3_path : Bytes
  pub expires_at : ℤ

-- The bucket and the events table.
pub record Store : Type 0 where
  pub objects : List (Bytes × Bytes)
  pub rows : List EventRow

-- Which calls of the stores report an error during a request; such a call stores nothing.
pub record Faults : Type 0 where
  pub object_fails : Bytes → Bool
  pub row_fails : EventRow → Bool

-- The layouts "2006-01-02" and RFC 3339 of a time in nanoseconds since 1970, in UTC.
pub record Calendar : Type 0 where
  pub date : ℕ → Bytes
  pub rfc3339 : ℕ → Bytes

-- `d.arch.PutObject`: whether it succeeds, and the store after it.
abbrev pub put_object : Faults → Bytes → Bytes → Store → Bool × Store
put_object faults key text st =
    if faults.object_fails key
    then (false, st)
    else (true, record st { objects = (key, text) ∷ st.objects })

-- `d.index.PutEvent`
abbrev pub put_event : Faults → EventRow → Store → Bool × Store
put_event faults row st =
    if faults.row_fails row then (false, st) else (true, record st { rows = row ∷ st.rows })

abbrev pub nanos_per_second : ℕ
nanos_per_second = 1000000000

abbrev pub half_range : ℕ
half_range = 9223372036854775808

abbrev pub full_range : ℕ
full_range = 18446744073709551616

-- `now.Add(time.Duration(days) * 24 * time.Hour).Unix()`: the product is an int64 of nanoseconds and
-- wraps around; it is held here with 2^63 added.
unfoldable pub expiry : ℕ → ℕ → ℤ
expiry days now =
    let shifted = now + (days * (86400 * nanos_per_second) + half_range) % full_range in
    if leb half_range shifted
    then pos ((shifted - half_range) / nanos_per_second)
    else negsuc ((half_range - shifted - 1) / nanos_per_second)

-- What the handler's dependencies are besides the stores.
pub record Setup : Type 0 where
  pub json : Json
  pub calendar : Calendar
  pub sha256 : Bytes → Bytes
  pub max_body_bytes : ℕ
  pub event_ttl_days : ℕ

-- The parts of a request that `persist` is called with.
pub record Batch : Type 0 where
  pub project_id : Bytes
  pub event_id : Bytes
  pub now : ℕ

abbrev pub with_meta : EventMeta → EventRow → EventRow
with_meta meta row = record row {
  timestamp = if is_empty meta.timestamp then row.timestamp else meta.timestamp;
  level = meta.level;
  platform = meta.platform;
}

-- No error unless there are items and all of them failed.
abbrev pub verdict : ℕ → ℕ → Bool
verdict failed total = not (failed == total && ltb 0 total)

module _ (setup : Setup) (faults : Faults) (batch : Batch) where
  abbrev pub batch_date : Bytes
  batch_date = setup.calendar.date batch.now

  abbrev pub key_of_item : ℕ → Item → Bytes
  key_of_item seq it =
      item_key batch.project_id batch_date batch.event_id seq (sanitize_item_type it.header.type)

  abbrev pub key_of_envelope : Bytes
  key_of_envelope = envelope_key batch.project_id batch_date batch.event_id

  -- The metadata row of an item, by its sanitized type.
  abbrev pub bare_row : ℕ → Item → Bytes → EventRow
  bare_row seq it item_type = record {
    project_id = batch.project_id;
    event_id = sort_key_of batch.event_id item_type seq;
    timestamp = setup.calendar.rfc3339 batch.now;
    level = [];
    platform = [];
    item_type = item_type;
    count = 1;
    status = codes "received";
    s3_path = key_of_item seq it;
    expires_at =
        if ltb 0 setup.event_ttl_days then expiry setup.event_ttl_days batch.now else pos 0;
  }

  unfoldable pub row_of : ℕ → Item → EventRow
  unfolding equal is_empty expiry
  row_of seq it =
      let item_type = sanitize_item_type it.header.type in
      let row = bare_row seq it item_type in
      if equal item_type event_type then with_meta (setup.json.event_meta it.payload) row else row

  -- One round of the loop: whether the item counts as persisted, and the store.
  unfoldable pub persist_item : ℕ → Item → Store → Bool × Store
  persist_item seq it st =
      let (put, st') = put_object faults (key_of_item seq it) it.payload st in
      if not put then (false, st') else put_event faults (row_of seq it) st'

  -- The loop, from item number `seq` on; the number counts the failures.
  unfoldable pub persist_items : ℕ → List Item → Store → ℕ × Store
  persist_items seq [] st = (0, st)
  persist_items seq (it ∷ its) st =
      let (good, st') = persist_item seq it st in
      let (failed, last) = persist_items (seq + 1) its st' in
      (if good then failed else suc failed, last)

  abbrev pub persist_under : Bytes → List Item → Store → Bool × Store
  persist_under raw items st =
      let (put, st') = put_object faults key_of_envelope raw st in
      if not put
      then (false, st')
      else (let (failed, last) = persist_items 0 items st' in (verdict failed (length items), last))

-- An id that is not valid is replaced before any key is built.
abbrev pub checked : Setup → Bytes → Batch → Batch
checked setup raw batch = record batch {
  event_id =
      if valid_event_id batch.event_id then batch.event_id else deterministic_id setup.sha256 raw;
}

-- `persist`: whether it returns no error, and the store.
unfoldable pub persist : Setup → Faults → Batch → Bytes → List Item → Store → Bool × Store
persist setup faults batch raw items st =
    persist_under setup faults (checked setup raw batch) raw items st
