-- ===== src/Outbox/Publisher.antt =====
-- services/case-service/src/outbox/outbox-publisher.service.js. What Kafka answers is a parameter: the
-- outcome of publishing a row at its attempt, and whether its dead letter is accepted.
use udyog_setu.Common.{
  ℕ, String, Option, none, some, Bool, true, false, List, [], ◌∷◌, ◌+◌, ◌-◌, ◌*◌, ◌^◌, min, leb,
  if◌then◌else◌,
}
use udyog_setu.Store.{Collection}
use udyog_setu.Outbox.Rows.{
  Row, row_id, mark_publishing, mark_published, mark_failed, mark_dead_lettered,
  find_pending_for_publish, unlock_stale_publishing_locks,
}

-- The numbers of the environment: `OUTBOX_RETRY_BASE_DELAY_MS`, `OUTBOX_RETRY_MAX_DELAY_MS`,
-- `OUTBOX_MAX_ATTEMPTS`, `OUTBOX_PUBLISH_BATCH_SIZE` and the lock timeout.
pub record Settings : Type 0 where
  pub base_delay : ℕ
  pub max_delay : ℕ
  pub max_attempts : ℕ
  pub batch_size : ℕ
  pub lock_timeout : ℕ
  pub worker : String

pub data Answer : Type 0 where
  accepted : Answer
  not_retryable : String → Answer
  refused : String → Answer

pub record Kafka : Type 0 where
  pub publish : Row → Answer
  pub dead_letter : Row → Bool

unfoldable pub retry_delay : Settings → ℕ → ℕ
retry_delay settings attempt_count =
    min (settings.base_delay * 2 ^ (attempt_count - 1)) settings.max_delay

unfoldable pub calculate_next_retry : Settings → ℕ → ℕ → ℕ
calculate_next_retry settings now attempt_count = now + retry_delay settings attempt_count

-- `thrown` where the dead letter fails: the error leaves the batch.
pub data Outcome : Type 0 where
  was_published was_dead_lettered retry_scheduled skipped thrown : Outcome

module _ (R : Collection Row row_id) (settings : Settings) (kafka : Kafka) where
  open R use {Docs}

  unfoldable pub bury : String → Row → Docs → Docs × Outcome
  bury message r rows =
      if kafka.dead_letter r
      then (mark_dead_lettered R message r.event_id rows, was_dead_lettered)
      else (rows, thrown)

  unfoldable pub publish_one : ℕ → Row → Docs → Docs × Outcome
  publish_one now r rows = elim (kafka.publish r) [
    | accepted ↦ (mark_published R now r.event_id rows, was_published)
    | not_retryable message ↦ bury message r rows
    | refused message ↦
        if leb settings.max_attempts (r.publish_attempts + 1) then bury message r rows else (
          mark_failed R message (calculate_next_retry settings now (r.publish_attempts + 1))
              r.event_id rows,
          retry_scheduled,
        )
  ]

  abbrev pub publish_locked : ℕ → Docs × Option Row → Docs × Outcome
  publish_locked now (rows, none) = (rows, skipped)
  publish_locked now (rows, some r) = publish_one now r rows

  abbrev pub is_thrown : Outcome → Bool
  is_thrown thrown = true
  is_thrown _ = false

  unfoldable pub publish_rows : ℕ → List Row → Docs → Docs
  publish_rows now [] rows = rows
  publish_rows now (r ∷ rs) rows =
      let done = publish_locked now (mark_publishing R now settings.worker r.event_id rows) in
      let rest = publish_rows now rs done.0 in if is_thrown done.1 then done.0 else rest

  unfoldable pub publish_pending_batch : ℕ → Docs → Docs
  publish_pending_batch now rows =
      publish_rows now (find_pending_for_publish R now settings.batch_size rows) rows

  unfoldable pub recover_stale_locks : ℕ → Docs → Docs
  recover_stale_locks now rows = unlock_stale_publishing_locks R now settings.lock_timeout rows

  -- One tick of the publisher.
  unfoldable pub tick : ℕ → Docs → Docs
  tick now rows = publish_pending_batch now (recover_stale_locks now rows)

  unfoldable pub ticks : List ℕ → Docs → Docs
  ticks [] rows = rows
  ticks (now ∷ times) rows = ticks times (tick now rows)
