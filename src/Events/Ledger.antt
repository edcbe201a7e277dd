-- ===== src/Events/Ledger.antt =====
-- packages/shared/src/kafka/event-idempotency.service.js: what is kept of each event that a handler of a
-- consumer group has begun. The store's own id of a record that is inserted is given, and it sets the
-- time of each write.
use udyog_setu.Common.{
  ℕ, String, Option, none, some, Bool, true, false, ◌&&◌, ◌-◌, str_eq, ltb, if◌then◌else◌,
}
use udyog_setu.Store.{Collection}

pub data EntryStatus : Type 0 where
  processing processed failed : EntryStatus

abbrev pub is_processed : EntryStatus → Bool
is_processed processed = true
is_processed _ = false

abbrev pub is_processing : EntryStatus → Bool
is_processing processing = true
is_processing _ = false

pub record Key : Type 0 where
  pub event_id : String
  pub handler_name : String
  pub consumer_group : String

pub record Entry : Type 0 where
  pub id : ℕ
  pub key : Key
  pub status : EntryStatus
  pub correlation_id : Option String
  pub processed_at : Option ℕ
  pub error_message : Option String
  pub updated_at : ℕ

abbrev pub entry_id : Entry → ℕ
entry_id e = e.id

abbrev pub has_key : Key → Entry → Bool
has_key k e =
    str_eq e.key.event_id k.event_id
    && str_eq e.key.handler_name k.handler_name
    && str_eq e.key.consumer_group k.consumer_group

abbrev pub begun_entry : ℕ → Option String → Entry → Entry
begun_entry now correlation_id e = record e {
  status = processing;
  correlation_id = correlation_id;
  processed_at = none;
  error_message = none;
  updated_at = now;
}

abbrev pub processed_entry : ℕ → Option String → Entry → Entry
processed_entry now correlation_id e = record e {
  status = processed;
  correlation_id = correlation_id;
  processed_at = some now;
  error_message = none;
  updated_at = now;
}

abbrev pub failed_entry : ℕ → Option String → String → Entry → Entry
failed_entry now correlation_id message e = record e {
  status = failed;
  correlation_id = correlation_id;
  processed_at = some now;
  error_message = some message;
  updated_at = now;
}

abbrev pub new_entry : ℕ → Key → Entry
new_entry id k = record {
  id = id;
  key = k;
  status = processing;
  correlation_id = none;
  processed_at = none;
  error_message = none;
  updated_at = 0;
}

module _ (E : Collection Entry entry_id) where
  -- `findOneAndUpdate` with `upsert: true`.
  unfoldable pub upsert : ℕ → Key → (Entry → Entry) → E.Docs → E.Docs
  upsert id k f s = elim (E.find_one (has_key k) s) [
    | none ↦ E.put (f (new_entry id k)) s
    | some e ↦ E.put (f e) s
  ]

  pub data Begun : Type 0 where
    already_processed already_processing : Begun
    begun : E.Docs → Begun

  abbrev pub is_fresh : ℕ → ℕ → Entry → Bool
  is_fresh now stale_ms e = is_processing e.status && ltb (now - e.updated_at) stale_ms

  unfoldable pub begin_processing : ℕ → ℕ → ℕ → Key → Option String → E.Docs → Begun
  begin_processing now stale_ms id k correlation_id s =
      let started = begun (upsert id k (begun_entry now correlation_id) s) in
      elim (E.find_one (has_key k) s) [
        | none ↦ started
        | some e ↦
            if is_processed e.status
            then already_processed
            else if is_fresh now stale_ms e
            then already_processing
            else started
      ]

  unfoldable pub mark_processed : ℕ → ℕ → Key → Option String → E.Docs → E.Docs
  mark_processed now id k correlation_id = upsert id k (processed_entry now correlation_id)

  unfoldable pub mark_failed : ℕ → ℕ → Key → Option String → String → E.Docs → E.Docs
  mark_failed now id k correlation_id message =
      upsert id k (failed_entry now correlation_id message)
