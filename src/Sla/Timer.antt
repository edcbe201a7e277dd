-- ===== src/Sla/Timer.antt =====
-- The SLA timer of services/case-service/src/models/SlaTimer.js and the validation of its schema; the
-- domain events that the services append to the outbox.
use udyog_setu.Common.{
  ℕ, String, Option, none, some, Bool, true, ◌&&◌, ◌||◌, List, [], ◌∷◌, ◌+◌, ◌*◌, ◌/◌, ◌-◌, max,
  includes, is_some, ltb, str_eq, if◌then◌else◌,
}
use udyog_setu.Vocabulary.TimerStatuses.{TimerStatus}
use udyog_setu.Vocabulary.CaseStatuses.{CaseStatus}
use udyog_setu.Vocabulary.TaskStatuses.{TaskStatus}
use udyog_setu.Vocabulary.Departments

pub record Pause : Type 0 where
  pub paused_at : ℕ
  pub resumed_at : Option ℕ
  pub reason : String

pub record Timer : Type 0 where
  pub id : ℕ
  pub case_id : Option ℕ
  pub task_id : Option ℕ
  pub grievance_id : Option ℕ
  pub entity_type : Option String
  pub universal_case_id : Option String
  pub department_code : Option String
  pub timer_type : String
  pub status : TimerStatus
  pub starts_at : ℕ
  pub due_at : ℕ
  pub warning_at : ℕ
  pub paused_at : Option ℕ
  pub resumed_at : Option ℕ
  pub completed_at : Option ℕ
  pub breached_at : Option ℕ
  pub pause_history : List Pause
  pub escalation_level : ℕ
  pub is_deleted : Bool

abbrev pub timer_id : Timer → ℕ
timer_id t = t.id

abbrev pub timer_types : List String
timer_types =
    "approval" ∷ "grievance_resolution" ∷ "query_response" ∷ "inspection" ∷ "fee_payment"
    ∷ "certificate_issue" ∷ []

abbrev pub entity_types : List String
entity_types =
    "case" ∷ "task" ∷ "grievance" ∷ "inspection" ∷ "document_verification" ∷ "fee" ∷ "certificate"
    ∷ []

abbrev pub department_codes : List String
department_codes =
    Departments.pollution ∷ Departments.power ∷ Departments.fire ∷ Departments.industrial_safety
    ∷ Departments.labour ∷ []

-- An enumeration constrains a field that is there.
abbrev pub is_allowed : List String → Option String → Bool
is_allowed values none = true
is_allowed values (some s) = includes values s

-- What the schema and its `validate` hook ask of a timer that is saved.
unfoldable pub validate_timer : Timer → Bool
validate_timer t =
    includes timer_types t.timer_type
    && is_allowed entity_types t.entity_type
    && is_allowed department_codes t.department_code
    && (is_some t.case_id || is_some t.task_id || is_some t.grievance_id)
    && ltb t.starts_at t.due_at

pub data EventPayload : Type 0 where
  timer_change : ℕ → Option ℕ → Option ℕ → TimerStatus → EventPayload
  case_change : Option CaseStatus → Option CaseStatus → ℕ → EventPayload
  task_change : TaskStatus → TaskStatus → Option ℕ → ℕ → String → EventPayload
  task_creation : ℕ → ℕ → String → EventPayload

pub record DomainEvent : Type 0 where
  pub event_name : String
  pub aggregate_type : String
  pub aggregate_id : ℕ
  pub universal_case_id : Option String
  pub payload : EventPayload

-- `DEPARTMENT_SLA_DAYS[code]`; `none` for any other code.
unfoldable pub department_sla_days : Option String → Option ℕ
department_sla_days none = none
department_sla_days (some code) =
    if str_eq code Departments.pollution
    then some 30
    else if str_eq code Departments.power
    then some 21
    else if str_eq code Departments.fire
    then some 15
    else if str_eq code Departments.industrial_safety
    then some 30
    else if str_eq code Departments.labour
    then some 15
    else none

abbrev pub get_or : Option ℕ → ℕ → ℕ
get_or none d = d
get_or (some n) d = n

-- `SLA_WARNING_PERCENTAGE`, a whole number of at least 1; the source takes 80 where it is not set.
unfoldable pub build_warning_at : ℕ → ℕ → ℕ → ℕ
build_warning_at percentage starts_at due_at =
    starts_at + (due_at - starts_at) * max percentage 1 / 100

-- Milliseconds of a day.
abbrev pub day : ℕ
day = 86400000

abbrev pub add_days : ℕ → ℕ → ℕ
add_days at days = at + days * day

unfoldable pub due_or_default : ℕ → Option ℕ → Option String → ℕ
due_or_default starts_at due_at code =
    get_or due_at (add_days starts_at (get_or (department_sla_days code) 21))
