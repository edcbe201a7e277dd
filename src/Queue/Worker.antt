-- ===== src/Queue/Worker.antt =====
-- services/adapter-runtime/src/workers/worker-runner.js, the handling of a message, with
-- services/queue-retry.service.js. The adapter that a message is for is a parameter, and so are the
-- parser of messages and what becomes of each publication.
use text.Mathlib.Text.{find?}
use udyog_setu.Common.{
  ℕ, String, Option, none, some, Bool, true, false, not, ◌&&◌, ◌||◌, List, ◌∷◌, ◌+◌, ◌*◌, ◌^◌, min,
  is_some, truthy, str_eq, ltb, leb, if◌then◌else◌,
}
use udyog_setu.Store.{Collection}
use udyog_setu.Queue.Jobs.{
  ErrorClass, validation, poison, other, QueueError, Message, Job, job_id, number_or, signature,
  create_or_update_from_message, mark_succeeded, mark_retry_scheduled, mark_failed,
  mark_dead_lettered, skipped, started, begin_message,
}

pub record Settings : Type 0 where
  pub base_delay : ℕ
  pub max_delay : ℕ
  pub max_attempts : ℕ
  pub poison_max_attempts : ℕ
  pub lock_timeout : ℕ
  pub worker_id : String

pub data DeadLetterRoute : Type 0 where
  to_poison to_callback to_delivery : DeadLetterRoute

-- What the worker does beside its writes, the latest first. The adapter's own work is `handled`.
pub data Sent : Type 0 where
  acked : Sent
  requeued : Sent
  retried : Message → ℕ → Sent
  dead : ℕ → DeadLetterRoute → Sent
  handled : ℕ → Sent

-- The text of a delivery, parsed and validated. An invalid one has the fields that were read.
pub data Delivery : Type 0 where
  malformed : ℕ → Delivery
  invalid : Message → Delivery
  valid : Message → Delivery

unfoldable pub calculate_backoff_delay : Settings → ℕ → ℕ → ℕ
calculate_backoff_delay settings attempt jitter =
    min (settings.base_delay * 2 ^ attempt + jitter) settings.max_delay

unfoldable pub increment_attempt : Message → Message
increment_attempt m = record m { attempt = m.attempt + 1 }

abbrev pub is_false : Option Bool → Bool
is_false none = false
is_false (some b) = not b

unfoldable pub should_retry : Settings → QueueError → Message → Bool
should_retry settings e m =
    if is_false e.retryable
    then false
    else ltb m.attempt (number_or m.max_attempts settings.max_attempts)

abbrev pub is_poison : ErrorClass → Bool
is_poison poison = true
is_poison _ = false

unfoldable pub mark_poison_if_needed : Settings → Message → QueueError → Bool
mark_poison_if_needed settings m e =
    is_poison e.class
    || (is_false e.retryable && leb settings.poison_max_attempts m.attempt)
    || (str_eq (signature e) "QueueValidationError" && leb 1 m.attempt)

-- `instanceof` one of the three classes that are not retried.
abbrev pub is_fatal : ErrorClass → Bool
is_fatal other = false
is_fatal _ = true

abbrev pub validation_error : String → String → QueueError
validation_error code message = record {
  class = validation;
  retryable = some false;
  code = some code;
  name = some "QueueValidationError";
  message = message;
}

-- The monitoring events that are published where a throw is caught. Those after the answers of the `catch`
-- change nothing more: what they throw is swallowed.
pub data Monitored : Type 0 where
  received processed : Monitored

-- What becomes of publications: of the retry of a message, of the dead letter of a message of this id, and
-- of the monitoring events. One fails where the envelope has an unknown route or department, as the retry
-- of a message without a department has, or where RabbitMQ does not confirm it.
pub record Broker : Type 0 where
  pub takes_retry : Message → Bool
  pub takes_dead : ℕ → Bool
  pub monitor : Monitored → Option QueueError

-- `unanswered` where an error leaves the `catch`: the delivery is neither acknowledged nor put back.
pub data Outcome : Type 0 where
  skip_message process_message dead_letter_message retry_message requeue_message unanswered :
      Outcome

module _ (J : Collection Job job_id) where
  pub record World : Type 0 where
    pub jobs : J.Docs
    pub sent : List Sent

  abbrev pub send : Sent → World → World
  send e w = record w { sent = e ∷ w.sent }

  abbrev pub with_jobs : World → J.Docs → World
  with_jobs w s = record w { jobs = s }

module _ (settings : Settings) (broker : Broker) (handler : Message → Option QueueError)
    (J : Collection Job job_id) where
  abbrev pub route_of : Message → DeadLetterRoute
  route_of m = if is_some (find? m.message_type "callback") then to_callback else to_delivery

  unfoldable pub schedule_retry : ℕ → ℕ → Message → QueueError → World J → World J
  schedule_retry now jitter m e w =
      let delay = calculate_backoff_delay settings m.attempt jitter in
      let next = record (increment_attempt m) { not_before = some (now + delay) } in
      with_jobs J (send J (retried next delay) w)
        (mark_retry_scheduled J m.message_id e (now + delay) w.jobs)

  unfoldable pub send_to_dead_letter : ℕ → ℕ → DeadLetterRoute → QueueError → World J → World J
  send_to_dead_letter now id route e w =
      with_jobs J (send J (dead id route) w) (mark_dead_lettered J now id e w.jobs)

  -- The `catch` of the handling, where the message was at least read.
  unfoldable pub recover : ℕ → ℕ → Message → QueueError → World J → World J × Outcome
  recover now jitter m e w =
      if is_fatal e.class || mark_poison_if_needed settings m e
      then (if broker.takes_dead m.message_id
          then (
            send J acked (send_to_dead_letter now m.message_id (route_of m) e w),
            dead_letter_message,
          )
          else (w, unanswered))
      else if should_retry settings e m
      then (if broker.takes_retry m
          then (send J acked (schedule_retry now jitter m e w), retry_message)
          else (w, unanswered))
      else (send J requeued w, requeue_message)

  -- The acknowledgement and the monitoring event after it, whose throw is caught.
  unfoldable pub acknowledge : ℕ → ℕ → Message → Outcome → World J → World J × Outcome
  acknowledge now jitter m outcome w = elim (broker.monitor processed) [
    | none ↦ (send J acked w, outcome)
    | some e ↦ recover now jitter m e (send J acked w)
  ]

  -- The handler's part: `withQueueIdempotency` with what follows it.
  unfoldable pub process : ℕ → ℕ → Message → World J → World J × Outcome
  process now jitter m w =
      elim (begin_message J now settings.lock_timeout settings.worker_id m w.jobs) [
        | skipped ↦ acknowledge now jitter m skip_message w
        | started s ↦
            let w = send J (handled m.message_id) (with_jobs J w s) in
            elim (handler m) [
              | none ↦
                  acknowledge now jitter m process_message
                    (with_jobs J w (mark_succeeded J now m.message_id w.jobs))
              | some e ↦
                  recover now jitter m e (with_jobs J w (mark_failed J m.message_id e w.jobs))
            ]
      ]

  unfoldable pub handle_message : ℕ → ℕ → Delivery → World J → World J × Outcome
  handle_message now jitter (malformed id) w =
      if broker.takes_dead id
      then (
        send J acked (
            send_to_dead_letter now id to_poison
              (validation_error "MALFORMED_JSON" "Malformed JSON payload.") w),
        dead_letter_message,
      )
      else (w, unanswered)
  handle_message now jitter (invalid m) w =
      recover now jitter m
        (validation_error "QUEUE_MESSAGE_VALIDATION_FAILED" "Queue message validation failed.") w
  handle_message now jitter (valid m) w =
      let v = with_jobs J w (create_or_update_from_message J now m w.jobs) in
      elim (broker.monitor received) [
        | none ↦ process now jitter m v
        | some e ↦ recover now jitter m e v
      ]

-- services/adapter-runtime/src/services/queue-recovery.service.js: the message that repeats a job, which
-- is published, without failure, before the job of it is written.
unfoldable pub source_message : ℕ → Bool → Job → Message
source_message new_id force j = record {
  message_id = new_id;
  message_type = j.message_type;
  idempotency_key = j.idempotency_key;
  attempt = if force then 0 else j.attempt_count;
  max_attempts = some j.max_attempts;
  not_before = none;
}

pub data Requeue : Type 0 where
  reason_required : Requeue
  published_and_stored : Message → Requeue

unfoldable pub requeue_queue_job :
    (J : Collection Job job_id) → ℕ → ℕ → Bool → Option String → Job → J.Docs → J.Docs × Requeue
requeue_queue_job J now new_id force reason j s =
    let m = source_message new_id force j in
    if not (truthy reason)
    then (s, reason_required)
    else (create_or_update_from_message J now m s, published_and_stored m)
