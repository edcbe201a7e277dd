-- ===== src/Tests/QueueTests.antt =====
-- The queue worker at concrete messages.
use udyog_setu.Common.{
  false, ℕ, Option, none, some, true, List, [], ◌∷◌, ◌≡◌, ◌⊎◌, ◌≤◌, ◌-◌, refl, arith, length,
}
use udyog_setu.Store.{logged}
use udyog_setu.Queue.Jobs.{
  QueueError, other, Message, Job, job_id, inserted_job, succeeded, number_or,
  create_or_update_from_message, begin_message, find_by_message_id, has_completed, updated_job,
  mark_processing, mark_failed, mark_retry_scheduled, mark_succeeded,
}
use udyog_setu.Queue.Worker.{
  Settings, Broker, received, processed, acknowledge, unanswered, requeued, handled, valid, World,
  handle_message, skip_message, requeue_message, process, recover, should_retry,
  mark_poison_if_needed, schedule_retry, calculate_backoff_delay, increment_attempt,
}
use udyog_setu.Queue.WorkerLaws.{answers, one_answer_per_delivery}
use udyog_setu.Queue.RetryLaws.{retries_end, exhausted_message_is_put_back}

abbrev settings : Settings
settings = record {
  base_delay = 5000;
  max_delay = 900000;
  max_attempts = 8;
  poison_max_attempts = 3;
  lock_timeout = 300000;
  worker_id = "worker";
}

abbrev timeout : QueueError
timeout = record {
  class = other;
  retryable = some true;
  code = some "DepartmentTimeoutError";
  name = some "DepartmentTimeoutError";
  message = "timeout";
}

abbrev fails : Message → Option QueueError
fails m = some timeout

abbrev up : Broker
up = record { takes_retry = λ m. true; takes_dead = λ id. true; monitor = λ k. none }

-- RabbitMQ takes no retries, as for a message without a department.
abbrev no_retries : Broker
no_retries = record up { takes_retry = λ m. false }

-- RabbitMQ is lost after the acknowledgement.
abbrev lost_after : Broker
lost_after = record up { monitor = λ k. elim k [ received ↦ none | processed ↦ some timeout ] }

abbrev works : Message → Option QueueError
works m = none

abbrev message : ℕ → Message
message attempt = record {
  message_id = 4;
  message_type = "department.deliver.v1";
  idempotency_key = "k4";
  attempt = attempt;
  max_attempts = some 2;
  not_before = none;
}

abbrev done : Job
done = record (inserted_job 0 (message 0)) { status = succeeded }

abbrev world : List Job → World (logged Job job_id)
world jobs = record { jobs = jobs; sent = [] }

one_answer_per_delivery_example :
    answers
      (handle_message settings up fails
        (logged Job job_id)
        10
        3
        (valid (message 0))
        (world [])).0.sent
    ≡ 1
one_answer_per_delivery_example =
    one_answer_per_delivery settings up fails (logged Job job_id) 10 3 (valid (message 0))
      (world []) (record { retries = λ m. refl; dead_letters = λ id. refl; monitoring = λ k. refl })

abbrev next : Message
next = record (message 1) { not_before = some 5013 }

retries_end_example : length (next ∷ []) ≤ number_or (message 0).max_attempts 8 - 0
unfolding handle_message create_or_update_from_message process begin_message find_by_message_id
    has_completed recover should_retry mark_poison_if_needed schedule_retry calculate_backoff_delay
    increment_attempt inserted_job updated_job mark_processing mark_failed mark_retry_scheduled
retries_end_example =
    retries_end settings up fails (logged Job job_id) (message 0) (next ∷ [])
      ((10, 3, world [], 5003, _, refl, refl), tt)

exhausted_message_is_put_back_example :
    let r =
      handle_message settings up fails (logged Job job_id) 10 3 (valid (message 2)) (world []) in
    (r.1 ≡ skip_message) ⊎ ((r.1 ≡ requeue_message) × (r.0.sent ≡ requeued ∷ handled 4 ∷ []))
exhausted_message_is_put_back_example =
    exhausted_message_is_put_back settings up fails (logged Job job_id) 10 3 (message 2) timeout
      (world []) (λ k. refl) refl (refl, refl, refl) (omega arith)

-- Where the retry is not taken, the delivery is never answered; where RabbitMQ is lost after the
-- acknowledgement, there is a second one.
retry_is_lost :
    (handle_message settings no_retries fails
      (logged Job job_id)
      10
      3
      (valid (message 0))
      (world [])).1
    ≡ unanswered
unfolding handle_message create_or_update_from_message process begin_message find_by_message_id
    has_completed recover should_retry mark_poison_if_needed inserted_job updated_job
    mark_processing mark_failed
retry_is_lost = refl

answered_twice :
    answers
      (handle_message settings lost_after works
        (logged Job job_id)
        10
        3
        (valid (message 0))
        (world [])).0.sent
    ≡ 2
unfolding handle_message create_or_update_from_message process begin_message find_by_message_id
    has_completed recover should_retry mark_poison_if_needed schedule_retry calculate_backoff_delay
    increment_attempt inserted_job updated_job mark_processing mark_failed mark_retry_scheduled
    acknowledge mark_succeeded
answered_twice = refl
