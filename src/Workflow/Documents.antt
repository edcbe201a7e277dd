-- ===== src/Workflow/Documents.antt =====
-- The documents that the orchestration service reads and writes: Case and ApprovalTask of
-- services/case-service/src/models, with the fields that the service uses, and the context of a
-- request. An object id is a number; a time is a number of milliseconds.
use udyog_setu.Common.{ℕ, String, Option, Bool, List}
use udyog_setu.Vocabulary.CaseStatuses.{CaseStatus}
use udyog_setu.Vocabulary.TaskStatuses.{TaskStatus}

-- A missing list of roles or permissions is read as the empty one.
pub record Actor : Type 0 where
  pub id : Option ℕ
  pub name : Option String
  pub email : Option String
  pub role : Option String
  pub primary_role : Option String
  pub roles : List String
  pub permissions : List String

-- The body of a transition request, with the fields that are read.
pub record Payload : Type 0 where
  pub reason : Option String
  pub message : Option String
  pub officer_id : Option ℕ
  pub payment_reference : Option String
  pub certificate_number : Option String
  pub document_id : Option String

pub record Context : Type 0 where
  pub actor : Option Actor
  pub user : Option Actor
  pub override : Bool
  pub override_reason : Option String
  pub reason : Option String
  pub payload : Option Payload
  pub correlation_id : Option String

-- `Number(value)`, told apart as far as the guards do.
pub data Coerced : Type 0 where
  not_finite : Coerced
  below_zero : Coerced
  from_zero : ℕ → Coerced

pub record CaseMetadata : Type 0 where
  pub document_types : List String
  pub factory_details_provided : Bool
  pub caf_industrial_safety : Bool
  pub caf_employee_count : Coerced
  pub amendment_pending : Option Payload
  pub last_amendment_applied_at : Option ℕ

pub record Requirement : Type 0 where
  pub department_code : String
  pub required_approval_type : Option String
  pub is_mandatory : Option Bool

pub record Track : Type 0 where
  pub department_code : String
  pub task_id : ℕ
  pub status : TaskStatus
  pub started_at : ℕ

pub record CaseDoc : Type 0 where
  pub id : ℕ
  pub universal_case_id : Option String
  pub title : String
  pub status : CaseStatus
  pub current_stage : CaseStatus
  pub priority : Option String
  pub required_departments : List Requirement
  pub approval_tracks : List Track
  pub due_at : Option ℕ
  pub warning_at : Option ℕ
  pub last_activity_at : Option ℕ
  pub submitted_at : Option ℕ
  pub closed_at : Option ℕ
  pub reopened_at : Option ℕ
  pub metadata : CaseMetadata

pub record ChecklistItem : Type 0 where
  pub code : String
  pub required : Bool
  pub status : String

pub record Query : Type 0 where
  pub message : String
  pub raised_by : Option ℕ
  pub raised_at : ℕ
  pub responded_by : Option ℕ
  pub responded_at : Option ℕ
  pub status : String

pub record Decision : Type 0 where
  pub outcome : TaskStatus
  pub reason : Option String
  pub decided_by : Option ℕ
  pub decided_at : ℕ

pub record TaskMetadata : Type 0 where
  pub is_mandatory : Option Bool
  pub required_documents : List String
  pub last_response : Option Payload
  pub payment_reference : Option String
  pub payment_recorded_at : Option ℕ
  pub certificate_number : Option String
  pub certificate_document_id : Option String
  pub certificate_issued_at : Option ℕ

pub record TaskDoc : Type 0 where
  pub id : ℕ
  pub case_id : ℕ
  pub universal_case_id : Option String
  pub department_code : String
  pub task_type : String
  pub title : String
  pub status : TaskStatus
  pub priority : String
  pub checklist : List ChecklistItem
  pub query_thread : List Query
  pub assigned_officer_id : Option ℕ
  pub decision : Option Decision
  pub due_at : Option ℕ
  pub warning_at : Option ℕ
  pub created_at : ℕ
  pub completed_at : Option ℕ
  pub updated_by : Option ℕ
  pub correlation_id : Option String
  pub metadata : TaskMetadata
  pub is_deleted : Bool
