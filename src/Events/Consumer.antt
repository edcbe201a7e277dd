-- ===== src/Events/Consumer.antt =====
-- packages/shared/src/kafka/event-consumer.js, the handling of a message, with `withIdempotency`, and
-- `handleEventOnce` of services/orchestration-service/src/services/event-replay.service.js. A handler
-- and the validation of an envelope are parameters.
use udyog_setu.Common.{
  ℕ, String, Option, none, some, Bool, ◌&&◌, List, ◌∷◌, str_eq, is_some, if◌then◌else◌,
}
use udyog_setu.Store.{Collection}
use udyog_setu.Store.Updates.{update_one}
use udyog_setu.Events.Ledger.{
  Key, Entry, entry_id, is_processed, processed_entry, failed_entry, already_processed,
  already_processing, begun, begin_processing, mark_processed, mark_failed,
}

pub record HandlerError : Type 0 where
  -- Whether it is a RetryableEventError.
  pub retryable : Bool
  pub message : String

pub record Envelope : Type 0 where
  pub id : String
  pub type : String
  pub correlation_id : Option String

-- What the consumer does, the latest first: the calls of handlers and the dead letters.
pub data Act : Type 0 where
  called : String → Act
  dead_letter : Option String → Act

pub data Ending : Type 0 where
  done skipped_event ignored dead_lettered rethrown : Ending

module _ (E : Collection Entry entry_id) where
  pub record World : Type 0 where
    pub entries : E.Docs
    pub acts : List Act

  abbrev pub act : Act → World → World
  act a w = record w { acts = a ∷ w.acts }

  abbrev pub with_entries : World → E.Docs → World
  with_entries w s = record w { entries = s }

-- How a guarded call of a handler ends.
pub data Run : Type 0 where
  skipped ran : Run
  threw : HandlerError → Run

-- The repository of the orchestration service passes `upsert: false`, whatever it is asked. Its records
-- have no consumer group.
abbrev pub replay_key : String → Envelope → Entry → Bool
replay_key name e x = str_eq x.key.event_id e.id && str_eq x.key.handler_name name

module _ (handler : Envelope → Option HandlerError) (E : Collection Entry entry_id) where
  unfoldable pub with_idempotency : ℕ → ℕ → ℕ → String → String → Envelope → World E → World E × Run
  with_idempotency now stale_ms id name group e w =
      let k : Key = record { event_id = e.id; handler_name = name; consumer_group = group } in
      elim (begin_processing E now stale_ms id k e.correlation_id w.entries) [
        | already_processed ↦ (w, skipped)
        | already_processing ↦ (w, skipped)
        | begun s ↦
            let w = act E (called e.id) (with_entries E w s) in
            elim (handler e) [
              | none ↦ (with_entries E w (mark_processed E now id k e.correlation_id s), ran)
              | some x ↦
                  (with_entries E w (mark_failed E now id k e.correlation_id x.message s), threw x)
            ]
      ]

  -- The handler's ending: errors that are not retryable end in a dead letter.
  unfoldable pub ended : Envelope → World E × Run → World E × Ending
  ended e (w, skipped) = (w, skipped_event)
  ended e (w, ran) = (w, done)
  ended e (w, threw x) =
      if x.retryable then (w, rethrown) else (act E (dead_letter (some e.id)) w, dead_lettered)

  -- `eachMessage`, where an envelope that cannot be read or is not valid is none, and the handler map
  -- says whether it has the type.
  unfoldable pub each_message :
      ℕ
      → ℕ
      → ℕ
      → String
      → String
      → Bool
      → (String → Bool)
      → Option Envelope
      → World E
      → World E × Ending
  each_message now stale_ms id name group ignore_missing handles none w =
      (act E (dead_letter none) w, dead_lettered)
  each_message now stale_ms id name group ignore_missing handles (some e) w =
      if handles e.type
      then ended e (with_idempotency now stale_ms id name group e w)
      else if ignore_missing
      then (w, ignored)
      else (act E (dead_letter (some e.id)) w, dead_lettered)

  unfoldable pub is_event_already_processed : String → Envelope → E.Docs → Bool
  is_event_already_processed name e s =
      is_some (E.find_one (λ x. replay_key name e x && is_processed x.status) s)

  unfoldable pub mark_event_processed : ℕ → String → Envelope → E.Docs → E.Docs
  mark_event_processed now name e s =
      (update_one E (replay_key name e) (processed_entry now e.correlation_id) s).0

  unfoldable pub mark_event_failed : ℕ → String → Envelope → String → E.Docs → E.Docs
  mark_event_failed now name e message s =
      (update_one E (replay_key name e) (failed_entry now e.correlation_id message) s).0

  unfoldable pub handle_event_once : ℕ → String → Envelope → World E → World E × Run
  handle_event_once now name e w =
      if is_event_already_processed name e w.entries
      then (w, skipped)
      else let w = act E (called e.id) w in
        elim (handler e) [
          | none ↦ (with_entries E w (mark_event_processed now name e w.entries), ran)
          | some x ↦ (with_entries E w (mark_event_failed now name e x.message w.entries), threw x)
        ]
