-- ===== src/Workflow/Transition.antt =====
-- An entry of the transition tables, services/orchestration-service/src/state-machines. A flag that
-- an entry leaves out is undefined in the source, which its readers take for false.
use udyog_setu.Common.{String, Option, none, Bool, true, false, List}
use udyog_setu.Vocabulary.TaskStatuses.{TaskStatus}

pub data SlaAction : Type 0 where
  start pause resume complete : SlaAction

pub record Transition : Type 0 where
  pub permission : String
  pub audit_required : Bool
  pub event_required : Bool
  pub event_name : String
  pub sla_action : Option SlaAction
  pub system_triggered : Bool
  pub reason_required : Bool
  pub requires_any_task_status : Option (List TaskStatus)
  pub requires_all_mandatory_tasks_status : Option (List TaskStatus)

-- An entry that gives its permission and its event, and neither a flag nor a requirement more than
-- the audit and the event that every entry asks for.
abbrev pub entry : String → String → Transition
entry permission event_name = record {
  permission = permission;
  audit_required = true;
  event_required = true;
  event_name = event_name;
  sla_action = none;
  system_triggered = false;
  reason_required = false;
  requires_any_task_status = none;
  requires_all_mandatory_tasks_status = none;
}
