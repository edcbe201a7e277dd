-- ===== src/Workflow/TaskLaws.antt =====
-- What the guards on task transitions let through.
use udyog_setu.Common.{
  Option, none, some, true, false, not, ◌&&◌, ◌≡◌, refl, ◌↔◌, ◌⊎◌, inl, inr, eq_iff, arith,
  Option-cases, List, [], ◌∷◌, first, All, truthy,
}
use udyog_setu.Vocabulary.TaskStatuses.{TaskStatus}
use udyog_setu.Vocabulary.TaskStatuses
use udyog_setu.Workflow.Transition.{Transition}
use udyog_setu.Workflow.TaskMachine.{get_task_transition}
use udyog_setu.Workflow.Documents.{Context, CaseDoc, TaskDoc, ChecklistItem}
use udyog_setu.Workflow.Dependencies.{
  assert_dependencies_satisfied, get_blocking_dependencies, has_document_with_type,
  has_factory_details, has_employee_data, is_case_final_for_closure,
}
use udyog_setu.Workflow.Guards.{
  can_actor_perform_transition, has_reason, ensure_reason_if_required, has_required_documents,
  ensure_task_prerequisites, ensure_checklist, is_incomplete, payload_text,
  assert_task_transition_allowed,
}
use udyog_setu.Workflow.Errors.{ok}

-- The table has no entry from `closed` or `cancelled`, so the guard on these adds nothing to it.
closed_has_no_entry :
    (s next : TaskStatus) {t : Transition}
    → get_task_transition s next ≡ some t
    → TaskStatuses.one_of (TaskStatus.closed ∷ TaskStatus.cancelled ∷ []) s ≡ false
unfolding get_task_transition
closed_has_no_entry TaskStatus.pending next h = refl
closed_has_no_entry _ next h = ground arith

-- The guard accepts a task transition with an entry exactly when the table has that entry, a reason is
-- given where the entry requires one, the actor may make the transition, the required documents are
-- there, and the prerequisites and the dependencies of the next status hold.
pub assert_task_transition_allowed_iff :
    (c : Option CaseDoc) (d : TaskDoc) (next : TaskStatus) (context : Context) (t : Transition)
    → (assert_task_transition_allowed c d next context ≡ ok t) ↔ (
        (get_task_transition d.status next ≡ some t)
        × ((t.reason_required && not (has_reason context)) ≡ false)
        × (can_actor_perform_transition context.actor t context ≡ true)
        × (has_required_documents c d ≡ true)
        × (ensure_task_prerequisites d next context ≡ ok tt)
        × (assert_dependencies_satisfied c d next ≡ ok tt))
unfolding assert_task_transition_allowed ensure_reason_if_required
assert_task_transition_allowed_iff c d next context t =
    elim (Option-cases (get_task_transition d.status next)) [
      | inl missing ↦ ground arith
      | inr (u, found) ↦ ground (arith, closed_has_no_entry d.status next found)
    ]

certificate_after_approval :
    (s : TaskStatus) {t : Transition}
    → get_task_transition s TaskStatus.certificate_issued ≡ some t
    → s ≡ TaskStatus.approved
unfolding get_task_transition
certificate_after_approval s h = ground arith

-- A task gets its certificate only from the status `approved`, and only with a certificate number or a
-- document id in the request.
pub certificate_needs_approval :
    (c : Option CaseDoc) (d : TaskDoc) (context : Context) (t : Transition)
    → assert_task_transition_allowed c d TaskStatus.certificate_issued context ≡ ok t
    → (d.status ≡ TaskStatus.approved)
      × ((truthy (payload_text (λ p. p.certificate_number) context) ≡ true)
          ⊎ (truthy (payload_text (λ p. p.document_id) context) ≡ true))
unfolding ensure_task_prerequisites ensure_checklist
certificate_needs_approval c d context t h =
    let facts =
      (assert_task_transition_allowed_iff c d TaskStatus.certificate_issued context t).0 h in
    (certificate_after_approval d.status facts.0, ground (arith, facts.4))

fee_paid_after_demand :
    (s : TaskStatus) {t : Transition}
    → get_task_transition s TaskStatus.fee_paid ≡ some t
    → s ≡ TaskStatus.fee_demanded
unfolding get_task_transition
fee_paid_after_demand s h = ground arith

-- A fee is marked as paid only after it was demanded, and only with a payment reference in the request.
pub payment_needs_demand :
    (c : Option CaseDoc) (d : TaskDoc) (context : Context) (t : Transition)
    → assert_task_transition_allowed c d TaskStatus.fee_paid context ≡ ok t
    → (d.status ≡ TaskStatus.fee_demanded)
      × (truthy (payload_text (λ p. p.payment_reference) context) ≡ true)
unfolding ensure_task_prerequisites ensure_checklist
payment_needs_demand c d context t h =
    let facts = (assert_task_transition_allowed_iff c d TaskStatus.fee_paid context t).0 h in
    (fee_paid_after_demand d.status facts.0, ground (arith, facts.4))

first-none :
    (items : List ChecklistItem)
    → first is_incomplete items ≡ none
    → All (λ item. is_incomplete item ≡ false) items
first-none [] h = tt
first-none (item ∷ items) h = ground (arith, first-none items)

first_of_ok :
    (d : TaskDoc) (context : Context)
    → ensure_task_prerequisites d TaskStatus.approved context ≡ ok tt
    → first is_incomplete d.checklist ≡ none
unfolding ensure_task_prerequisites ensure_checklist
first_of_ok d context h = elim (Option-cases (first is_incomplete d.checklist)) [
  | inl complete ↦ complete
  | inr (item, open_item) ↦ ground arith
]

approved_after_review :
    (s : TaskStatus) {t : Transition}
    → get_task_transition s TaskStatus.approved ≡ some t
    → s ≡ TaskStatus.under_review
unfolding get_task_transition
approved_after_review s h = ground arith

-- What the approval of a task has behind it.
pub record ApprovalReady (c : Option CaseDoc) (d : TaskDoc) : Type 0 where
  pub reviewed : d.status ≡ TaskStatus.under_review
  pub checked : All (λ item. is_incomplete item ≡ false) d.checklist
  pub documented : has_required_documents c d ≡ true
  pub layout : d.department_code ≡ "fire" → has_document_with_type c "layout_plan" ≡ true
  pub factory : d.department_code ≡ "industrial_safety" → has_factory_details c ≡ true
  pub workforce : d.department_code ≡ "labour" → has_employee_data c ≡ true

approval_dependencies :
    (c : Option CaseDoc) (d : TaskDoc)
    → assert_dependencies_satisfied c d TaskStatus.approved ≡ ok tt
    → (d.department_code ≡ "fire" → has_document_with_type c "layout_plan" ≡ true)
      × (d.department_code ≡ "industrial_safety" → has_factory_details c ≡ true)
      × (d.department_code ≡ "labour" → has_employee_data c ≡ true)
unfolding assert_dependencies_satisfied get_blocking_dependencies
approval_dependencies c d h = (
  λ e. ground (arith, eq_iff "fire" d.department_code),
  λ e. ground (arith, eq_iff "industrial_safety" d.department_code),
  λ e. ground (arith, eq_iff "labour" d.department_code),
)

-- A task is approved only from review, with every required item of its checklist completed, its
-- required documents on the case, and what its department depends on in place: the layout plan for
-- fire, the factory details for industrial safety, the employee data for labour.
pub approval_is_ready :
    (c : Option CaseDoc) (d : TaskDoc) (context : Context) (t : Transition)
    → assert_task_transition_allowed c d TaskStatus.approved context ≡ ok t
    → ApprovalReady c d
approval_is_ready c d context t h =
    let facts = (assert_task_transition_allowed_iff c d TaskStatus.approved context t).0 h in
    let (layout, factory, workforce) = approval_dependencies c d facts.5 in
    record {
      reviewed = approved_after_review d.status facts.0;
      checked = first-none d.checklist (first_of_ok d context facts.4);
      documented = facts.3;
      layout = layout;
      factory = factory;
      workforce = workforce;
    }

-- A task is closed only in a case that has its certificate or was rejected.
pub closure_needs_final_case :
    (c : Option CaseDoc) (d : TaskDoc) (context : Context) (t : Transition)
    → assert_task_transition_allowed c d TaskStatus.closed context ≡ ok t
    → is_case_final_for_closure c ≡ true
unfolding assert_dependencies_satisfied get_blocking_dependencies
closure_needs_final_case c d context t h =
    let facts = (assert_task_transition_allowed_iff c d TaskStatus.closed context t).0 h in
    ground (arith, facts.5)
