-- ===== src/Grievances/Records.antt =====
-- The documents of services/case-service/src/models/Grievance.js, and the updates of
-- services/case-service/src/repositories/grievance.repository.js.
use udyog_setu.Common.{ℕ, String, Option, Bool, not, ◌&&◌, List, [], ◌∷◌, ◌++◌, ◌==◌}
use udyog_setu.Store.{Collection}
use udyog_setu.Store.Updates.{update_one}

pub data Status : Type 0 where
  opened acknowledged in_review awaiting_response awaiting_investor_response
        awaiting_department_response escalated resolved rejected reopened closed :
      Status

pub data Visibility : Type 0 where
  internal investor_visible department_visible nodal_visible audit_only : Visibility

pub data Priority : Type 0 where
  low normal high urgent : Priority

pub record Message : Type 0 where
  pub message_id : String
  pub author_user_id : Option String
  pub author_role : Option String
  pub author_department_code : Option String
  pub body : String
  pub visibility : Visibility
  pub attachments : List String
  pub created_at : ℕ

pub record StatusEntry : Type 0 where
  pub from_status : Option Status
  pub to_status : Status
  pub changed_by : Option String
  pub changed_by_role : Option String
  pub changed_at : ℕ
  pub reason : Option String

pub record Grievance : Type 0 where
  pub id : ℕ
  pub grievance_number : String
  pub case_id : Option String
  pub universal_case_id : Option String
  pub task_id : Option String
  pub organisation_id : Option String
  pub raised_by : Option String
  pub raised_by_role : Option String
  pub department_code : Option String
  pub category : String
  pub subject : String
  pub description : String
  pub priority : Priority
  pub source : String
  pub status : Status
  pub assigned_to : Option String
  pub assigned_role : Option String
  pub due_at : ℕ
  pub warning_at : ℕ
  pub acknowledged_at : Option ℕ
  pub resolved_at : Option ℕ
  pub closed_at : Option ℕ
  pub escalation_level : ℕ
  pub current_escalation_owner : Option String
  pub resolution_summary : Option String
  pub closure_reason : Option String
  pub satisfaction_rating : Option ℕ
  pub attachments : List String
  pub messages : List Message
  pub status_history : List StatusEntry
  pub is_deleted : Bool
  pub correlation_id : Option String
  pub updated_by : Option String

abbrev pub grievance_id : Grievance → ℕ
grievance_id g = g.id

-- The context of a call, with its time and the ids that it draws.
pub record Context : Type 0 where
  pub now : ℕ
  pub user_id : Option String
  pub role : Option String
  pub department_code : Option String
  pub correlation_id : Option String
  pub message_id : String

-- `{ _id, isDeleted: false }`.
abbrev pub is_current : ℕ → Grievance → Bool
is_current id g = g.id == id && not g.is_deleted

abbrev pub touched : Context → Grievance → Grievance
touched context g = record g {
  updated_by = context.user_id;
  correlation_id = context.correlation_id;
}

abbrev pub with_message : Message → Context → Grievance → Grievance
with_message m context g = touched context (record g { messages = g.messages ++ (m ∷ []) })

-- A status entry is pushed, and a patch, which the callers give, is set.
abbrev pub with_entry : StatusEntry → (Grievance → Grievance) → Context → Grievance → Grievance
with_entry e patch context g =
    touched context (patch (record g { status_history = g.status_history ++ (e ∷ []) }))

module _ (G : Collection Grievance grievance_id) where
  unfoldable pub find_active : ℕ → G.Docs → Option Grievance
  find_active id = G.find_one (is_current id)

  unfoldable pub push_message : ℕ → Message → Context → G.Docs → G.Docs × Option Grievance
  push_message id m context = update_one G (is_current id) (with_message m context)

  unfoldable pub push_status_history :
      ℕ → StatusEntry → (Grievance → Grievance) → Context → G.Docs → G.Docs × Option Grievance
  push_status_history id e patch context = update_one G (is_current id) (with_entry e patch context)

  unfoldable pub update_by_id : ℕ → (Grievance → Grievance) → G.Docs → G.Docs × Option Grievance
  update_by_id id f = update_one G (λ g. g.id == id) f
