-- ===== src/Queue/Jobs.antt =====
-- services/adapter-runtime/src/repositories/queue-job.repository.js over the documents of
-- models/QueueJob.js, with services/queue-idempotency.service.js. A message's id, which a unique index
-- keeps apart, is a number. The other unique index of the schema, on the idempotency key, is declared both
-- sparse and partial, which MongoDB refuses to build: jobs may share a key. What a job keeps of a message's
-- payload and routing is left out.
use udyog_setu.Common.{
  ℕ, String, Option, none, some, Bool, true, false, not, ◌&&◌, ◌-◌, ◌≡◌, ◌⊎◌, inl, inr, refl,
  is_some, truthy, str_eq, ltb, if◌then◌else◌, ◌==◌,
}
use udyog_setu.Store.{Collection}
use udyog_setu.Store.Updates.{update_one}

pub data JobStatus : Type 0 where
  queued processing retry_scheduled succeeded failed dead_lettered cancelled : JobStatus

abbrev pub is_processing : JobStatus → Bool
is_processing processing = true
is_processing _ = false

abbrev pub is_succeeded : JobStatus → Bool
is_succeeded succeeded = true
is_succeeded _ = false

pub data ErrorClass : Type 0 where
  validation non_retryable poison other : ErrorClass

pub record QueueError : Type 0 where
  pub class : ErrorClass
  pub retryable : Option Bool
  pub code : Option String
  pub name : Option String
  pub message : String

pub record Message : Type 0 where
  pub message_id : ℕ
  pub message_type : String
  pub idempotency_key : String
  pub attempt : ℕ
  pub max_attempts : Option ℕ
  pub not_before : Option ℕ

pub record Job : Type 0 where
  pub message_id : ℕ
  pub message_type : String
  pub idempotency_key : String
  pub attempt_count : ℕ
  pub max_attempts : ℕ
  pub next_run_at : ℕ
  pub status : JobStatus
  pub locked_at : Option ℕ
  pub locked_by : Option String
  pub last_attempt_at : Option ℕ
  pub completed_at : Option ℕ
  pub dead_lettered_at : Option ℕ
  pub failure_code : Option String
  pub failure_message : Option String
  pub is_deleted : Bool

abbrev pub job_id : Job → ℕ
job_id j = j.message_id

-- `a || b` on numbers.
abbrev pub number_or : Option ℕ → ℕ → ℕ
number_or none d = d
number_or (some n) d = if n == 0 then d else n

abbrev pub time_or : Option ℕ → ℕ → ℕ
time_or none d = d
time_or (some t) d = t

-- `error.code || error.name || 'QUEUE_ERROR'`.
abbrev pub signature : QueueError → String
signature e = elim (if truthy e.code then e.code else e.name) [
  | none ↦ "QUEUE_ERROR"
  | some s ↦ if str_eq s "" then "QUEUE_ERROR" else s
]

-- What a message sets in its job, and the job that it inserts.
unfoldable pub updated_job : ℕ → Message → Job → Job
updated_job now m j = record j {
  message_type = m.message_type;
  idempotency_key = m.idempotency_key;
  attempt_count = m.attempt;
  max_attempts = number_or m.max_attempts 8;
  next_run_at = time_or m.not_before now;
}

unfoldable pub inserted_job : ℕ → Message → Job
inserted_job now m = record {
  message_id = m.message_id;
  message_type = m.message_type;
  idempotency_key = m.idempotency_key;
  attempt_count = m.attempt;
  max_attempts = number_or m.max_attempts 8;
  next_run_at = time_or m.not_before now;
  status = queued;
  locked_at = none;
  locked_by = none;
  last_attempt_at = none;
  completed_at = none;
  dead_lettered_at = none;
  failure_code = none;
  failure_message = none;
  is_deleted = false;
}

abbrev pub with_failure : JobStatus → QueueError → Job → Job
with_failure s e j = record j {
  status = s;
  failure_code = some (signature e);
  failure_message = some (if str_eq e.message "" then "Queue processing failed" else e.message);
  locked_at = none;
  locked_by = none;
}

module _ (J : Collection Job job_id) where
  abbrev pub mark : ℕ → (Job → Job) → J.Docs → J.Docs
  mark id f s = (update_one J (λ j. j.message_id == id) f s).0

  unfoldable pub create_or_update_from_message : ℕ → Message → J.Docs → J.Docs
  create_or_update_from_message now m s = elim (J.get m.message_id s) [
    | none ↦ J.put (inserted_job now m) s
    | some j ↦ J.put (updated_job now m j) s
  ]

  unfoldable pub mark_processing : ℕ → ℕ → String → J.Docs → J.Docs
  mark_processing now id worker_id = mark id (λ j. record j {
    status = processing;
    locked_at = some now;
    locked_by = some worker_id;
    last_attempt_at = some now;
  })

  unfoldable pub mark_succeeded : ℕ → ℕ → J.Docs → J.Docs
  mark_succeeded now id = mark id (λ j. record j {
    status = succeeded;
    completed_at = some now;
    locked_at = none;
    locked_by = none;
  })

  unfoldable pub mark_retry_scheduled : ℕ → QueueError → ℕ → J.Docs → J.Docs
  mark_retry_scheduled id e next_run_at =
      mark id (λ j. record (with_failure retry_scheduled e j) { next_run_at = next_run_at })

  unfoldable pub mark_failed : ℕ → QueueError → J.Docs → J.Docs
  mark_failed id e = mark id (with_failure failed e)

  unfoldable pub mark_dead_lettered : ℕ → ℕ → QueueError → J.Docs → J.Docs
  mark_dead_lettered now id e =
      mark id (λ j. record (with_failure dead_lettered e j) { dead_lettered_at = some now })

  unfoldable pub cancel_job : ℕ → Option String → J.Docs → J.Docs
  cancel_job id reason = mark id (λ j. record j {
    status = cancelled;
    failure_message = if truthy reason then reason else some "Cancelled";
  })

  unfoldable pub find_by_message_id : ℕ → J.Docs → Option Job
  find_by_message_id id = J.find_one (λ j. j.message_id == id && not j.is_deleted)

  unfoldable pub has_completed : String → J.Docs → Option Job
  has_completed key s =
      if str_eq key ""
      then none
      else J.find_one
          (λ j. str_eq j.idempotency_key key && is_succeeded j.status && not j.is_deleted) s

  pub data Begun : Type 0 where
    skipped : Begun
    started : J.Docs → Begun

  abbrev pub is_held : ℕ → ℕ → Option Job → Bool
  is_held now lock_timeout none = false
  is_held now lock_timeout (some j) = elim j.locked_at [
    | none ↦ false
    | some since ↦ is_processing j.status && ltb (now - since) lock_timeout
  ]

  unfoldable pub begin_message : ℕ → ℕ → String → Message → J.Docs → Begun
  begin_message now lock_timeout worker_id m s =
      if is_held now lock_timeout (find_by_message_id m.message_id s)
      then skipped
      else if is_some (has_completed m.idempotency_key s)
      then skipped
      else started
          (mark_processing now m.message_id worker_id (create_or_update_from_message now m s))

pub Begun-cases :
    (J : Collection Job job_id) (b : Begun J) → (b ≡ skipped) ⊎ ((s : J.Docs) × (b ≡ started s))
Begun-cases J skipped = inl refl
Begun-cases J (started s) = inr (s, refl)
