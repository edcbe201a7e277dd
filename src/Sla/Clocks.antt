-- ===== src/Sla/Clocks.antt =====
-- The operations of services/orchestration-service/src/services/sla-orchestration.service.js. Each
-- returns the new state, which has the events in the order in which they were appended.
use udyog_setu.Common.{
  ℕ, suc, String, Option, none, some, Bool, false, not, ◌&&◌, List, [], ◌∷◌, ◌++◌, ◌+◌, str_eq,
  if◌then◌else◌, ◌==◌, leb, ltb, length,
}
use udyog_setu.Vocabulary.TimerStatuses.{TimerStatus}
use udyog_setu.Vocabulary.TimerStatuses
use udyog_setu.Vocabulary.EventNames
use udyog_setu.Store.{Collection}
use udyog_setu.Workflow.Documents.{CaseDoc, TaskDoc}
use udyog_setu.Workflow.Errors.{Result, ok, err, ◌>>=◌, validation_failed}
use udyog_setu.Sla.Timer.{
  Timer, timer_id, Pause, DomainEvent, timer_change, validate_timer, get_or, build_warning_at,
  due_or_default,
}

-- The entity whose timer an operation is about.
pub data Entity : Type 0 where
  of_case : ℕ → Entity
  of_task : ℕ → Entity

abbrev same_id : Option ℕ → ℕ → Bool
same_id none id = false
same_id (some j) id = j == id

-- `entityType === 'case' ? { caseId } : { taskId }`.
abbrev pub concerns : Entity → Timer → Bool
concerns (of_case id) t = same_id t.case_id id
concerns (of_task id) t = same_id t.task_id id

abbrev pub is_live : TimerStatus → Bool
is_live s = not (TimerStatuses.one_of (TimerStatus.completed ∷ TimerStatus.cancelled ∷ []) s)

abbrev pub is_pausable : TimerStatus → Bool
is_pausable s = TimerStatuses.one_of (TimerStatus.running ∷ TimerStatus.warning ∷ []) s

-- `lastPause.resumedAt` is set where the history has a last entry that is still open.
close_last : ℕ → List Pause → List Pause
close_last now [] = []
close_last now (p ∷ []) = elim p.resumed_at [
  | none ↦ record p { resumed_at = some now } ∷ []
  | some at ↦ p ∷ []
]
close_last now (p ∷ q ∷ ps) = p ∷ close_last now (q ∷ ps)

-- What each operation writes into the timer that it found.
unfoldable pub paused : ℕ → String → Timer → Timer
paused now reason t = record t {
  status = TimerStatus.paused;
  paused_at = some now;
  pause_history =
      t.pause_history ++ record { paused_at = now; resumed_at = none; reason = reason } ∷ [];
}

unfoldable pub resumed : ℕ → Timer → Timer
unfolding close_last
resumed now t = record t {
  status = TimerStatus.running;
  resumed_at = some now;
  pause_history = close_last now t.pause_history;
}

unfoldable pub completed : ℕ → Timer → Timer
completed now t = record t { status = TimerStatus.completed; completed_at = some now }

unfoldable pub cancelled : Timer → Timer
cancelled t = record t { status = TimerStatus.cancelled }

unfoldable pub warned : Timer → Timer
warned t = record t { status = TimerStatus.warning }

unfoldable pub breached : ℕ → Timer → Timer
breached now t = record t {
  status = TimerStatus.breached;
  breached_at = some now;
  escalation_level = t.escalation_level + 1;
}

abbrev pub guarded : (Timer → Bool) → Option Timer → Option Timer
guarded p none = none
guarded p (some t) = if p t then some t else none

abbrev pub can_warn : Timer → Bool
can_warn t = not (
    TimerStatuses.one_of
      (TimerStatus.warning ∷ TimerStatus.breached ∷ TimerStatus.completed ∷ TimerStatus.cancelled
        ∷ [])
      t.status)

abbrev pub can_breach : Timer → Bool
can_breach t = not (
    TimerStatuses.one_of (TimerStatus.breached ∷ TimerStatus.completed ∷ TimerStatus.cancelled ∷ [])
      t.status)

module _ (T : Collection Timer timer_id) where
  open T use {Docs, get, put, find_one, find}

  pub record Clocks : Type 0 where
    pub timers : Docs
    pub next_id : ℕ
    pub outbox : List DomainEvent

  abbrev pub append : DomainEvent → Clocks → Clocks
  append e s = record s { outbox = s.outbox ++ e ∷ [] }

  unfoldable pub emit_sla_event : String → Timer → Clocks → Clocks
  emit_sla_event event_name t = append (record {
    event_name = event_name;
    aggregate_type = "sla_timer";
    aggregate_id = t.id;
    universal_case_id = t.universal_case_id;
    payload = timer_change t.id t.case_id t.task_id t.status;
  })

  abbrev pub save_timer : Timer → Clocks → Clocks
  save_timer t s = record s { timers = put t s.timers }

  -- Change the timer that a query found, and report the change; nothing happens where none was found.
  unfoldable pub change : Option Timer → (Timer → Timer) → String → Clocks → Clocks × Option Timer
  change none f event_name s = (s, none)
  change (some t) f event_name s =
      (emit_sla_event event_name (f t) (save_timer (f t) s), some (f t))

  unfoldable pub pause_sla : ℕ → Entity → String → Clocks → Clocks × Option Timer
  pause_sla now e reason s =
      change (find_one (λ t. concerns e t && is_pausable t.status) s.timers) (paused now reason)
        EventNames.sla_timer_paused s

  unfoldable pub resume_sla : ℕ → Entity → Clocks → Clocks × Option Timer
  resume_sla now e s =
      change
        (find_one (λ t. concerns e t && TimerStatuses.same t.status TimerStatus.paused) s.timers)
        (resumed now) EventNames.sla_timer_resumed s

  unfoldable pub complete_sla : ℕ → Entity → Clocks → Clocks × Option Timer
  complete_sla now e s =
      change (find_one (λ t. concerns e t && is_live t.status) s.timers) (completed now)
        EventNames.sla_completed s

  unfoldable pub cancel_sla : Entity → Clocks → Clocks × Option Timer
  cancel_sla e s =
      change (find_one (λ t. concerns e t && is_live t.status) s.timers) cancelled
        EventNames.sla_cancelled s

  unfoldable pub mark_warning : ℕ → Clocks → Clocks
  mark_warning id s =
      (change (guarded can_warn (get id s.timers)) warned EventNames.sla_warning s).0

  unfoldable pub mark_breached : ℕ → ℕ → Clocks → Clocks
  mark_breached now id s =
      (change (guarded can_breach (get id s.timers)) (breached now) EventNames.sla_breached s).0

  unfoldable pub find_warnings : ℕ → Clocks → List Timer
  find_warnings now s =
      find
        (λ t.
          TimerStatuses.same t.status TimerStatus.running
          && leb t.warning_at now
          && ltb now t.due_at
          && not t.is_deleted)
        s.timers

  unfoldable pub find_breached : ℕ → Clocks → List Timer
  find_breached now s =
      find (λ t. is_pausable t.status && leb t.due_at now && not t.is_deleted) s.timers

  unfoldable pub mark_all : (ℕ → Clocks → Clocks) → List Timer → Clocks → Clocks
  mark_all mark [] s = s
  mark_all mark (t ∷ ts) s = mark_all mark ts (mark t.id s)

  -- Both queries run before the first mark. The marks of one batch run side by side in the source; each
  -- touches one timer, and here they run in the order of the query.
  unfoldable pub evaluate_sla_timers : ℕ → Clocks → Clocks × (ℕ × ℕ)
  evaluate_sla_timers now s =
      let warnings = find_warnings now s in
      let breaches = find_breached now s in
      (
        mark_all (mark_breached now) breaches (mark_all mark_warning warnings s),
        (length warnings, length breaches),
      )

  -- The insertion of a new timer, which the schema may refuse.
  unfoldable pub create_timer : Timer → Clocks → Result (Clocks × Timer)
  create_timer t s =
      if validate_timer t
      then ok (record (save_timer t s) { next_id = suc s.next_id }, t)
      else err (validation_failed "SlaTimer")

  -- A timer that is found is started again as it is.
  unfoldable pub reuse_or_create : Option Timer → Timer → Clocks → Result (Clocks × Timer)
  reuse_or_create none t s = create_timer t s
  reuse_or_create (some u) t s = ok (s, u)

  unfoldable pub upsert_running_timer : (Timer → Bool) → Timer → Clocks → Result (Clocks × Timer)
  upsert_running_timer filter t s =
      reuse_or_create (find_one (λ u. filter u && is_live u.status) s.timers) t s

  -- `buildTimerInput` and the fields of a new document.
  unfoldable pub new_timer :
      ℕ
      → String
      → Option ℕ
      → Option ℕ
      → Option String
      → Option String
      → ℕ
      → Option ℕ
      → Option ℕ
      → ℕ
      → Timer
  new_timer id type case_id task_id universal_case_id code starts_at due_at warning_at percentage =
      let due = due_or_default starts_at due_at code in
      record {
        id = id;
        case_id = case_id;
        task_id = task_id;
        grievance_id = none;
        entity_type = none;
        universal_case_id = universal_case_id;
        department_code = code;
        timer_type = type;
        status = TimerStatus.running;
        starts_at = starts_at;
        due_at = due;
        warning_at = get_or warning_at (build_warning_at percentage starts_at due);
        paused_at = none;
        resumed_at = none;
        completed_at = none;
        breached_at = none;
        pause_history = [];
        escalation_level = 0;
        is_deleted = false;
      }

  abbrev pub started : Clocks × Timer → Result (Clocks × Timer)
  started r = ok (emit_sla_event EventNames.sla_timer_started r.1 r.0, r.1)

  unfoldable pub start_case_sla : ℕ → ℕ → CaseDoc → Clocks → Result (Clocks × Timer)
  start_case_sla percentage now c s =
      upsert_running_timer (λ t. concerns (of_case c.id) t && str_eq t.timer_type "case")
        (new_timer s.next_id "case" (some c.id) none c.universal_case_id none
          (get_or c.submitted_at now) c.due_at c.warning_at percentage)
        s
      >>= started

  unfoldable pub start_task_sla : ℕ → TaskDoc → Clocks → Result (Clocks × Timer)
  start_task_sla percentage d s =
      upsert_running_timer (λ t. concerns (of_task d.id) t && str_eq t.timer_type "task")
        (new_timer s.next_id "task" (some d.case_id) (some d.id) d.universal_case_id
          (some d.department_code) d.created_at d.due_at d.warning_at percentage)
        s
      >>= started
