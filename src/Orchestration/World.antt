-- ===== src/Orchestration/World.antt =====
-- The state that the requests of the orchestration service read and write.
use udyog_setu.Common.{ℕ, String, Option, List, [], ◌∷◌, ◌++◌}
use udyog_setu.Store.{Collection}
use udyog_setu.Workflow.Documents.{CaseDoc, TaskDoc}
use udyog_setu.Sla.Timer.{Timer, timer_id, EventPayload, DomainEvent}
use udyog_setu.Sla.Clocks.{Clocks, append}

abbrev pub case_id : CaseDoc → ℕ
case_id c = c.id

abbrev pub task_id : TaskDoc → ℕ
task_id t = t.id

-- An entry of the audit log, its action always the update.
pub record AuditRecord : Type 0 where
  pub resource_type : String
  pub resource_id : ℕ
  pub change : EventPayload
  pub reason : Option String

module _ (C : Collection CaseDoc case_id) (K : Collection TaskDoc task_id)
    (T : Collection Timer timer_id) where
  pub record World : Type 0 where
    pub cases : C.Docs
    pub tasks : K.Docs
    pub clocks : Clocks T
    pub next_task_id : ℕ
    pub audit : List AuditRecord

  abbrev pub save_case : CaseDoc → World → World
  save_case c w = record w { cases = C.put c w.cases }

  abbrev pub save_task : TaskDoc → World → World
  save_task t w = record w { tasks = K.put t w.tasks }

  abbrev pub with_clocks : World → Clocks T → World
  with_clocks w s = record w { clocks = s }

  unfoldable pub append_domain_event : DomainEvent → World → World
  append_domain_event e w = with_clocks w (append T e w.clocks)

  -- One domain event and one audit entry.
  unfoldable pub create_transition_artifacts : DomainEvent → Option String → World → World
  create_transition_artifacts e reason w =
      let sent = append_domain_event e w in
      record sent {
        audit =
            sent.audit
            ++ record {
              resource_type = e.aggregate_type;
              resource_id = e.aggregate_id;
              change = e.payload;
              reason = reason;
            }
              ∷ [];
      }
