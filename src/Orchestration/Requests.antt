-- ===== src/Orchestration/Requests.antt =====
-- `transitionCase`, `transitionTask` and `recalculateCaseAggregateStatus`. A request that fails is
-- its error: its writes, which a transaction undoes and the flow without a transaction keeps, are left out.
use udyog_setu.Common.{
  ℕ, suc, String, Option, none, some, Bool, true, false, not, ◌&&◌, List, [], ◌∷◌, map, ◌==◌,
  is_empty, if◌then◌else◌,
}
use udyog_setu.Vocabulary.CaseStatuses.{CaseStatus}
use udyog_setu.Vocabulary.CaseStatuses
use udyog_setu.Vocabulary.TaskStatuses.{TaskStatus}
use udyog_setu.Vocabulary.TaskStatuses
use udyog_setu.Vocabulary.EventNames
use udyog_setu.Store.{Collection}
use udyog_setu.Workflow.Transition.{Transition}
use udyog_setu.Workflow.Documents.{Payload, Context, CaseDoc, TaskDoc, Requirement, Track}
use udyog_setu.Workflow.Errors.{
  Result, ok, err, ◌>>=◌, case_not_found, task_not_found, case_missing, validation_failed,
}
use udyog_setu.Workflow.CaseMachine.{get_case_transition}
use udyog_setu.Workflow.TaskMachine.{get_task_transition}
use udyog_setu.Workflow.Guards.{assert_case_transition_allowed, assert_task_transition_allowed}
use udyog_setu.Workflow.Aggregate.{derive_aggregate_case_status}
use udyog_setu.Sla.Timer.{Timer, timer_id, case_change, task_change, task_creation, DomainEvent}
use udyog_setu.Sla.Clocks.{
  of_case, of_task, Clocks, pause_sla, resume_sla, complete_sla, cancel_sla, start_case_sla,
  start_task_sla,
}
use udyog_setu.Orchestration.Apply.{
  or_text, apply_case_transition, apply_task_transition, validate_case, validate_task,
  validate_new_task, build_task_from_requirement,
}
use udyog_setu.Orchestration.World.{
  case_id, task_id, World, save_case, save_task, with_clocks, append_domain_event,
  create_transition_artifacts,
}

-- Whether the request runs in a transaction of the database. Reads pass no session, so in a transaction
-- they do not see its writes.
pub data Mode : Type 0 where
  direct transactional : Mode

abbrev pub event_of : Option Transition → String → String
event_of none other = other
event_of (some t) other = t.event_name

unfoldable pub event_name_for_case_transition : CaseStatus → CaseStatus → String
event_name_for_case_transition previous next =
    event_of (get_case_transition previous next) EventNames.case_status_changed

unfoldable pub event_name_for_task_transition : TaskStatus → TaskStatus → String
event_name_for_task_transition previous next =
    event_of (get_task_transition previous next) EventNames.task_status_changed

unfoldable pub case_event : String → CaseStatus → CaseDoc → DomainEvent
case_event event_name previous c = record {
  event_name = event_name;
  aggregate_type = "case";
  aggregate_id = c.id;
  universal_case_id = c.universal_case_id;
  payload = case_change (some previous) (some c.status) c.id;
}

abbrev case_text : Option CaseDoc → Option String
case_text none = none
case_text (some c) = c.universal_case_id

abbrev case_number : Option CaseDoc → Option ℕ
case_number none = none
case_number (some c) = some c.id

unfoldable pub task_event :
    String → TaskStatus → Option String → Option CaseDoc → TaskDoc → DomainEvent
task_event event_name previous universal_case_id c t = record {
  event_name = event_name;
  aggregate_type = "approval_task";
  aggregate_id = t.id;
  universal_case_id = universal_case_id;
  payload = task_change previous t.status (case_number c) t.id t.department_code;
}

unfoldable pub task_created_event : CaseDoc → TaskDoc → DomainEvent
task_created_event c t = record {
  event_name = EventNames.task_created;
  aggregate_type = "approval_task";
  aggregate_id = t.id;
  universal_case_id = c.universal_case_id;
  payload = task_creation c.id t.id t.department_code;
}

abbrev pub reason_or : String → Payload → String
reason_or d payload = elim (or_text payload.reason none) [ none ↦ d | some r ↦ r ]

abbrev pub track_of : TaskDoc → Track
track_of t = record {
  department_code = t.department_code;
  task_id = t.id;
  status = t.status;
  started_at = t.created_at;
}

abbrev pub aggregate_payload : Payload
aggregate_payload = record {
  reason = some "aggregate_recalculation";
  message = none;
  officer_id = none;
  payment_reference = none;
  certificate_number = none;
  document_id = none;
}

module _ (C : Collection CaseDoc case_id) (K : Collection TaskDoc task_id)
    (T : Collection Timer timer_id) (warning_percentage : ℕ) where
  abbrev Now : Type 0
  Now = World C K T

  -- `findByCaseId`.
  abbrev pub tasks_of : ℕ → K.Docs → List TaskDoc
  tasks_of id ts = K.find (λ t. t.case_id == id && not t.is_deleted) ts

  abbrev pub saved : Bool → String → Now → Result Now
  saved true name w = ok w
  saved false name w = err (validation_failed name)

  unfoldable pub create_tasks :
      ℕ → Context → CaseDoc → List Requirement → Now → Result (Now × List TaskDoc)
  create_tasks now context c [] w = ok (w, [])
  create_tasks now context c (r ∷ rs) w =
      let t = build_task_from_requirement now w.next_task_id c r context in
      saved (validate_new_task t) "ApprovalTask"
        (record (save_task C K T t w) { next_task_id = suc w.next_task_id })
      >>= (λ v. start_task_sla T warning_percentage t v.clocks >>= (λ started.
          create_tasks now context c rs
            (append_domain_event C K T (task_created_event c t) (with_clocks C K T v started.0))
          >>= (λ rest. ok (rest.0, t ∷ rest.1))))

  -- Neither where the case has tasks, nor where it requires no department.
  unfoldable pub maybe_create_initial_tasks : ℕ → Context → CaseDoc → Now → Result (Now × CaseDoc)
  maybe_create_initial_tasks now context c w =
      if not (is_empty (tasks_of c.id w.tasks))
      then ok (w, c)
      else if is_empty c.required_departments
      then ok (w, c)
      else create_tasks now context c c.required_departments w >>= (λ made.
        let tracked = record c { approval_tracks = map track_of made.1 } in
        ok (save_case C K T tracked made.0, tracked))

  -- What the new status does to the timer of the case.
  unfoldable pub case_timer_step :
      ℕ → CaseStatus → Payload → Context → CaseDoc → Now → Result (Now × CaseDoc)
  case_timer_step now CaseStatus.submitted payload context c w =
      maybe_create_initial_tasks now context c w >>= (λ made.
        start_case_sla T warning_percentage now made.1 made.0.clocks
        >>= (λ started. ok (with_clocks C K T made.0 started.0, made.1)))
  case_timer_step now CaseStatus.query_raised payload context c w = ok (
    with_clocks C K T w
        (pause_sla T now (of_case c.id) (reason_or "query_raised" payload) w.clocks).0,
    c,
  )
  case_timer_step now CaseStatus.response_submitted payload context c w =
      ok (with_clocks C K T w (resume_sla T now (of_case c.id) w.clocks).0, c)
  case_timer_step now CaseStatus.closed payload context c w =
      ok (with_clocks C K T w (complete_sla T now (of_case c.id) w.clocks).0, c)
  case_timer_step now CaseStatus.certificate_issued payload context c w =
      ok (with_clocks C K T w (complete_sla T now (of_case c.id) w.clocks).0, c)
  case_timer_step now CaseStatus.rejected payload context c w =
      ok (with_clocks C K T w (complete_sla T now (of_case c.id) w.clocks).0, c)
  case_timer_step now CaseStatus.withdrawn payload context c w =
      ok (with_clocks C K T w (cancel_sla T (of_case c.id) w.clocks).0, c)
  case_timer_step now _ payload context c w = ok (w, c)

  unfoldable pub report_case : CaseStatus → CaseDoc → Option String → Now → Now
  report_case previous c reason w =
      let reported =
        create_transition_artifacts C K T
          (case_event (event_name_for_case_transition previous c.status) previous c) reason w in
      if CaseStatuses.same previous c.status
      then reported
      else append_domain_event C K T (case_event EventNames.case_status_changed previous c) reported

  abbrev pub requested : Payload → Context → Context
  requested payload context = record context {
    payload = some payload;
    reason = or_text payload.reason (or_text context.reason none);
  }

  unfoldable pub move_case :
      ℕ → CaseStatus → Payload → Context → CaseDoc → Now → Result (Now × CaseDoc)
  move_case now next payload context c w =
      let moved = apply_case_transition now next payload c in
      saved (validate_case moved) "Case" (save_case C K T moved w)
      >>= (λ v. case_timer_step now next payload context moved v)
      >>= (λ r. ok (
        report_case c.status r.1 (or_text payload.reason (or_text context.reason none)) r.0,
        r.1,
      ))

  unfoldable pub transition_case :
      ℕ → ℕ → CaseStatus → Payload → Context → Now → Result (Now × CaseDoc)
  transition_case now id next payload context w = elim (C.get id w.cases) [
    | none ↦ err case_not_found
    | some c ↦
        assert_case_transition_allowed c next (requested payload context)
        >>= (λ t. move_case now next payload context c w)
  ]

  -- `seen` is what the query for the tasks reads.
  unfoldable pub recalculate_case_aggregate_status : ℕ → K.Docs → ℕ → Now → Result (Now × Bool)
  recalculate_case_aggregate_status now seen id w = elim (C.get id w.cases) [
    | none ↦ err case_not_found
    | some c ↦
        let next = derive_aggregate_case_status c (tasks_of c.id seen) in
        let moved = apply_case_transition now next aggregate_payload c in
        if CaseStatuses.same next c.status
        then ok (w, false)
        else saved (validate_case moved) "Case" (save_case C K T moved w) >>= (λ v. ok (
          create_transition_artifacts C K T
              (case_event EventNames.case_status_changed c.status moved)
              (some "aggregate_recalculation") v,
          true,
        ))
  ]

  unfoldable pub task_timer_step : ℕ → TaskStatus → Payload → TaskDoc → Clocks T → Result (Clocks T)
  task_timer_step now TaskStatus.assigned payload t s =
      start_task_sla T warning_percentage t s >>= (λ r. ok r.0)
  task_timer_step now TaskStatus.query_raised payload t s =
      ok (pause_sla T now (of_task t.id) (reason_or "query_raised" payload) s).0
  task_timer_step now TaskStatus.response_received payload t s =
      ok (resume_sla T now (of_task t.id) s).0
  task_timer_step now TaskStatus.approved payload t s = ok (complete_sla T now (of_task t.id) s).0
  task_timer_step now TaskStatus.rejected payload t s = ok (complete_sla T now (of_task t.id) s).0
  task_timer_step now TaskStatus.closed payload t s = ok (complete_sla T now (of_task t.id) s).0
  task_timer_step now TaskStatus.cancelled payload t s = ok (cancel_sla T (of_task t.id) s).0
  task_timer_step now _ payload t s = ok s

  unfoldable pub report_task : TaskStatus → Option CaseDoc → TaskDoc → Option String → Now → Now
  report_task previous c t reason w =
      let reported =
        create_transition_artifacts C K T
          (task_event (event_name_for_task_transition previous t.status) previous
            (or_text (case_text c) t.universal_case_id) c t)
          reason w in
      if TaskStatuses.same previous t.status
      then reported
      else append_domain_event C K T
          (task_event EventNames.task_status_changed previous t.universal_case_id c t) reported

  -- The writes of the request before the aggregate is recalculated.
  unfoldable pub move_task :
      ℕ → TaskStatus → Payload → Context → Option CaseDoc → TaskDoc → Now → Result (Now × TaskDoc)
  move_task now next payload context c t w =
      let moved = apply_task_transition now next payload context t in
      saved (validate_task moved) "ApprovalTask" (save_task C K T moved w) >>= (λ v.
        task_timer_step now next payload moved v.clocks >>= (λ s. ok (
          report_task t.status c moved (or_text payload.reason (or_text context.reason none))
              (with_clocks C K T v s),
          moved,
        )))

  abbrev pub visible : Mode → Now → Now → K.Docs
  visible direct before after = after.tasks
  visible transactional before after = before.tasks

  -- Without its case, the request fails at the recalculation.
  unfoldable pub settle : Mode → ℕ → Option CaseDoc → Now → Now × TaskDoc → Result (Now × TaskDoc)
  settle mode now none w r = err case_missing
  settle mode now (some c) w r =
      recalculate_case_aggregate_status now (visible mode w r.0) c.id r.0
      >>= (λ done. ok (done.0, r.1))

  unfoldable pub transition_task :
      Mode → ℕ → ℕ → TaskStatus → Payload → Context → Now → Result (Now × TaskDoc)
  transition_task mode now id next payload context w = elim (K.get id w.tasks) [
    | none ↦ err task_not_found
    | some t ↦
        let c = C.get t.case_id w.cases in
        assert_task_transition_allowed c t next (record context { payload = some payload })
        >>= (λ allowed. move_task now next payload context c t w)
        >>= settle mode now c w
  ]
