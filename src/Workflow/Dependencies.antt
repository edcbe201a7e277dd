-- ===== src/Workflow/Dependencies.antt =====
-- services/orchestration-service/src/workflows/workflow-dependencies.js and
-- guards/dependency-guards.js: the rules that hold a task transition back until another part of the
-- case is ready. The case may be missing, where the source reads its fields by `?.`.
use udyog_setu.Common.{
  String, Option, none, some, Bool, true, false, not, ◌&&◌, ◌||◌, List, [], ◌∷◌, map, keep,
  includes, is_empty, if◌then◌else◌, str_eq,
}
use udyog_setu.Vocabulary.CaseStatuses.{CaseStatus}
use udyog_setu.Vocabulary.CaseStatuses
use udyog_setu.Vocabulary.TaskStatuses.{TaskStatus}
use udyog_setu.Vocabulary.TaskStatuses
use udyog_setu.Workflow.Documents.{CaseDoc, TaskDoc, Coerced, not_finite, below_zero, from_zero}
use udyog_setu.Workflow.Errors.{Result, ok, err, dependencies_blocked}

-- The rules, named by their keys.
pub data Rule : Type 0 where
  fire_requires_layout_documents : Rule
  industrial_safety_requires_factory_details : Rule
  labour_requires_employee_data : Rule
  certificate_requires_approval : Rule
  closure_requires_finality : Rule
  fee_paid_requires_fee_demand : Rule
  inspection_completed_requires_schedule : Rule

abbrev pub source_department : Rule → String
source_department fire_requires_layout_documents = "fire"
source_department industrial_safety_requires_factory_details = "industrial_safety"
source_department labour_requires_employee_data = "labour"
source_department certificate_requires_approval = "*"
source_department closure_requires_finality = "*"
source_department fee_paid_requires_fee_demand = "*"
source_department inspection_completed_requires_schedule = "*"

abbrev pub blocks_transition : Rule → List TaskStatus
blocks_transition fire_requires_layout_documents =
    TaskStatus.inspection_scheduled ∷ TaskStatus.approved ∷ TaskStatus.certificate_issued ∷ []
blocks_transition industrial_safety_requires_factory_details =
    TaskStatus.under_review ∷ TaskStatus.approved ∷ []
blocks_transition labour_requires_employee_data = TaskStatus.under_review ∷ TaskStatus.approved ∷ []
blocks_transition certificate_requires_approval = TaskStatus.certificate_issued ∷ []
blocks_transition closure_requires_finality = TaskStatus.closed ∷ []
blocks_transition fee_paid_requires_fee_demand = TaskStatus.fee_paid ∷ []
blocks_transition inspection_completed_requires_schedule = TaskStatus.inspection_completed ∷ []

abbrev pub message : Rule → String
message fire_requires_layout_documents =
    "Fire workflow requires layout plan and fire safety documents before progression."
message industrial_safety_requires_factory_details =
    "Industrial safety workflow requires machinery and factory details before review."
message labour_requires_employee_data =
    "Labour workflow requires employee and labour deployment details before review."
message certificate_requires_approval = "Certificate issuance requires an approved task."
message closure_requires_finality =
    "Cases can close only after certificate issuance or final rejection."
message fee_paid_requires_fee_demand = "Fee payment can only be recorded after a fee demand exists."
message inspection_completed_requires_schedule =
    "Inspection completion can only follow an inspection schedule."

abbrev pub workflow_dependencies : List Rule
workflow_dependencies =
    fire_requires_layout_documents ∷ industrial_safety_requires_factory_details
    ∷ labour_requires_employee_data ∷ certificate_requires_approval ∷ closure_requires_finality
    ∷ fee_paid_requires_fee_demand ∷ inspection_completed_requires_schedule ∷ []

abbrev pub has_document_with_type : Option CaseDoc → String → Bool
has_document_with_type none type = false
has_document_with_type (some c) type = includes c.metadata.document_types type

abbrev pub has_factory_details : Option CaseDoc → Bool
has_factory_details none = false
has_factory_details (some c) =
    c.metadata.factory_details_provided || c.metadata.caf_industrial_safety

abbrev is_from_zero : Coerced → Bool
is_from_zero not_finite = false
is_from_zero below_zero = false
is_from_zero (from_zero n) = true

-- A missing case has the employee count `undefined`, which is no finite number.
abbrev pub has_employee_data : Option CaseDoc → Bool
has_employee_data none = false
has_employee_data (some c) = is_from_zero c.metadata.caf_employee_count

abbrev pub is_case_final_for_closure : Option CaseDoc → Bool
is_case_final_for_closure none = false
is_case_final_for_closure (some c) =
    CaseStatuses.one_of (CaseStatus.certificate_issued ∷ CaseStatus.rejected ∷ []) c.status

-- The `switch` on the key of a rule.
abbrev pub blocks : Option CaseDoc → TaskDoc → Rule → Bool
blocks c t fire_requires_layout_documents = not (has_document_with_type c "layout_plan")
blocks c t industrial_safety_requires_factory_details = not (has_factory_details c)
blocks c t labour_requires_employee_data = not (has_employee_data c)
blocks c t certificate_requires_approval = not (TaskStatuses.same t.status TaskStatus.approved)
blocks c t closure_requires_finality = not (is_case_final_for_closure c)
blocks c t fee_paid_requires_fee_demand = not (TaskStatuses.same t.status TaskStatus.fee_demanded)
blocks c t inspection_completed_requires_schedule =
    not (TaskStatuses.same t.status TaskStatus.inspection_scheduled)

abbrev pub applies : TaskDoc → TaskStatus → Rule → Bool
applies t next r =
    (str_eq (source_department r) "*" || str_eq (source_department r) t.department_code)
    && TaskStatuses.one_of (blocks_transition r) next

unfoldable pub get_blocking_dependencies : Option CaseDoc → TaskDoc → TaskStatus → List Rule
get_blocking_dependencies c t next =
    keep (λ r. applies t next r && blocks c t r) workflow_dependencies

-- Every rule names the transitions that it blocks, so the second filter of the source keeps all.
unfoldable pub assert_dependencies_satisfied :
    Option CaseDoc → TaskDoc → TaskStatus → Result (Unit {0})
assert_dependencies_satisfied c t next =
    let blocking = get_blocking_dependencies c t next in
    if is_empty blocking then ok tt else err (dependencies_blocked (map message blocking))
