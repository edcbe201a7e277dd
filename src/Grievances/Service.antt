-- ===== src/Grievances/Service.antt =====
-- services/case-service/src/services/grievance.service.js, the operations that change a grievance. The
-- calls of the outbox, the audit log and the SLA service, whose failures are swallowed, are kept as
-- effects, the latest first; days are the configured ones of each priority.
use udyog_setu.Common.{
  ℕ, suc, String, Option, none, some, Bool, true, false, not, ◌||◌, List, [], ◌∷◌, ◌+◌, ◌*◌, ◌-◌,
  truthy, if◌then◌else◌, ◌==◌,
}
use udyog_setu.Store.{Collection}
use udyog_setu.Grievances.Records.{
  Status, opened, acknowledged, resolved, closed, reopened, escalated, Visibility, internal,
  investor_visible, department_visible, Priority, normal, Message, StatusEntry, Grievance,
  grievance_id, Context, find_active, push_message, push_status_history, update_by_id,
}

pub data Effect : Type 0 where
  grievance_created grievance_acknowledged grievance_assigned grievance_message_added
        grievance_internal_comment_added grievance_external_reply_added grievance_status_changed
        grievance_escalated timer_started active_timer_ended :
      ℕ → Effect

pub data Fault : Type 0 where
  grievance_not_found access_denied resolution_summary_required closure_reason_required : Fault

pub data Answer (A : Type 0) : Type 0 where
  ok : A → Answer A
  err : Fault → Answer A

pub record Input : Type 0 where
  pub grievance_number : String
  pub case_id : Option String
  pub universal_case_id : Option String
  pub task_id : Option String
  pub organisation_id : Option String
  pub raised_by : Option String
  pub raised_by_role : Option String
  pub department_code : Option String
  pub category : String
  pub subject : String
  pub description : String
  pub priority : Option Priority
  pub source : Option String
  pub due_at : Option ℕ
  pub attachments : List String

pub record MessageInput : Type 0 where
  pub body : String
  pub visibility : Option Visibility
  pub attachments : List String

abbrev pub or {ℓ} : {A : Type ℓ} → Option A → A → A
or none a = a
or (some x) a = x

abbrev pub either : Option String → Option String → Option String
either a b = if truthy a then a else b

abbrev pub reason_or : String → Option String → Option String
reason_or other reason = if truthy reason then reason else some other

abbrev pub due_days : (Priority → ℕ) → Priority → ℕ
due_days days p = if days p == 0 then days normal else days p

unfoldable pub get_due_at : (Priority → ℕ) → ℕ → Priority → ℕ
get_due_at days now p = now + due_days days p * 86400000

unfoldable pub build_status_entry : Grievance → Status → Option String → Context → StatusEntry
build_status_entry g to_status reason context = record {
  from_status = some g.status;
  to_status = to_status;
  changed_by = context.user_id;
  changed_by_role = context.role;
  changed_at = context.now;
  reason = reason;
}

unfoldable pub created_grievance : (Priority → ℕ) → ℕ → Input → Context → Grievance
created_grievance days id input context =
    let due_at = or input.due_at (get_due_at days context.now (or input.priority normal)) in
    record {
      id = id;
      grievance_number = input.grievance_number;
      case_id = input.case_id;
      universal_case_id = input.universal_case_id;
      task_id = input.task_id;
      organisation_id = input.organisation_id;
      raised_by = either input.raised_by context.user_id;
      raised_by_role = either input.raised_by_role context.role;
      department_code = input.department_code;
      category = input.category;
      subject = input.subject;
      description = input.description;
      priority = or input.priority normal;
      source = or input.source "investor_portal";
      status = opened;
      assigned_to = none;
      assigned_role = none;
      due_at = due_at;
      warning_at = due_at - 24 * 3600000;
      acknowledged_at = none;
      resolved_at = none;
      closed_at = none;
      escalation_level = 0;
      current_escalation_owner = none;
      resolution_summary = none;
      closure_reason = none;
      satisfaction_rating = none;
      attachments = input.attachments;
      messages = [];
      status_history =
          (record {
            from_status = none;
            to_status = opened;
            changed_by = context.user_id;
            changed_by_role = context.role;
            changed_at = context.now;
            reason = some "created";
          })
          ∷ [];
      is_deleted = false;
      correlation_id = context.correlation_id;
      updated_by = context.user_id;
    }

-- What `changeStatus` writes with the status.
abbrev pub is_resolved : Status → Bool
is_resolved resolved = true
is_resolved _ = false

abbrev pub is_closed : Status → Bool
is_closed closed = true
is_closed _ = false

abbrev pub status_patch : ℕ → Status → Grievance → Grievance
status_patch now s g = record g {
  status = s;
  resolved_at = if is_resolved s then some now else g.resolved_at;
  closed_at = if is_closed s then some now else g.closed_at;
}

-- `a || null` on numbers.
abbrev pub number_or_null : Option ℕ → Option ℕ
number_or_null none = none
number_or_null (some n) = if n == 0 then none else some n

-- The SLA service completes the active timer of the grievance, if it has one: `active_timer_ended`.
abbrev pub ends_timer : Status → ℕ → List Effect → List Effect
ends_timer s id effects =
    if is_resolved s || is_closed s then active_timer_ended id ∷ effects else effects

module _ (G : Collection Grievance grievance_id) where
  pub record World : Type 0 where
    pub grievances : G.Docs
    pub effects : List Effect

  abbrev pub emit : Effect → World → World
  emit e w = record w { effects = e ∷ w.effects }

  abbrev pub with_grievances : World → G.Docs → World
  with_grievances w s = record w { grievances = s }

  -- What a push returns is passed on; there is none where the document has gone.
  abbrev pub updated_or_missing : Option Grievance → Answer Grievance
  updated_or_missing none = err grievance_not_found
  updated_or_missing (some g) = ok g

  unfoldable pub create_grievance :
      (Priority → ℕ) → ℕ → Input → Context → World → World × Answer Grievance
  create_grievance days id input context w =
      let g = created_grievance days id input context in
      (
        emit (timer_started id)
            (emit (grievance_created id) (with_grievances w (G.put g w.grievances))),
        ok g,
      )

  -- A status entry for the grievance found, with the effect that follows.
  unfoldable pub push_entry :
      ℕ
      → (Grievance → StatusEntry)
      → (Grievance → Grievance → Grievance)
      → Effect
      → Context
      → World
      → World × Answer Grievance
  push_entry id entry patch effect context w = elim (find_active G id w.grievances) [
    | none ↦ (w, err grievance_not_found)
    | some g ↦
        let (s, updated) = push_status_history G id (entry g) (patch g) context w.grievances in
        (emit effect (with_grievances w s), updated_or_missing updated)
  ]

  unfoldable pub acknowledge_grievance : ℕ → Context → World → World × Answer Grievance
  acknowledge_grievance id context =
      push_entry id (λ g. build_status_entry g acknowledged (some "acknowledged") context)
        (λ g x. record x { status = acknowledged; acknowledged_at = some context.now })
        (grievance_acknowledged id) context

  unfoldable pub assign_grievance :
      ℕ → Option String → Option String → Context → World → World × Answer Grievance
  assign_grievance id assigned_to assigned_role context =
      push_entry id (λ g. build_status_entry g g.status (some "assigned") context)
        (λ g x. record x { assigned_to = assigned_to; assigned_role = assigned_role })
        (grievance_assigned id) context

  unfoldable pub add_message : ℕ → MessageInput → Context → World → World × Answer Grievance
  add_message id input context w = elim (find_active G id w.grievances) [
    | none ↦ (w, err grievance_not_found)
    | some g ↦
        let m : Message = record {
          message_id = context.message_id;
          author_user_id = context.user_id;
          author_role = context.role;
          author_department_code = context.department_code;
          body = input.body;
          visibility = or input.visibility department_visible;
          attachments = input.attachments;
          created_at = context.now;
        } in
        let (s, updated) = push_message G id m context w.grievances in
        (emit (grievance_message_added id) (with_grievances w s), updated_or_missing updated)
  ]

  abbrev pub then_emit : Effect → World × Answer Grievance → World × Answer Grievance
  then_emit e (w, ok g) = (emit e w, ok g)
  then_emit e (w, err x) = (w, err x)

  unfoldable pub add_internal_comment :
      ℕ → MessageInput → Context → World → World × Answer Grievance
  add_internal_comment id input context w =
      then_emit (grievance_internal_comment_added id)
        (add_message id (record input { visibility = some internal }) context w)

  unfoldable pub add_external_reply : ℕ → MessageInput → Context → World → World × Answer Grievance
  add_external_reply id input context w =
      then_emit (grievance_external_reply_added id)
        (add_message id (record input { visibility = some investor_visible }) context w)

  abbrev pub end_timer : Status → ℕ → World × Answer Grievance → World × Answer Grievance
  end_timer s id (w, ok g) = (record w { effects = ends_timer s id w.effects }, ok g)
  end_timer s id (w, err x) = (w, err x)

  unfoldable pub change_status :
      ℕ → Status → Option String → Context → World → World × Answer Grievance
  change_status id next reason context w = end_timer next id (
      push_entry id (λ g. build_status_entry g next reason context)
        (λ g. status_patch context.now next) (grievance_status_changed id) context w)

  abbrev pub then_update :
      ℕ → (Grievance → Grievance) → World × Answer Grievance → World × Answer Grievance
  then_update id f (w, err x) = (w, err x)
  then_update id f (w, ok g) =
      let (s, updated) = update_by_id G id f w.grievances in
      (with_grievances w s, updated_or_missing updated)

  unfoldable pub resolve_grievance :
      ℕ → Option String → Option String → Option ℕ → Context → World → World × Answer Grievance
  resolve_grievance id resolution_summary reason satisfaction_rating context w =
      if not (truthy resolution_summary)
      then (w, err resolution_summary_required)
      else then_update id
          (λ g. record g {
            resolution_summary = resolution_summary;
            satisfaction_rating = number_or_null satisfaction_rating;
            updated_by = context.user_id;
          })
          (change_status id resolved (reason_or "resolved" reason) context w)

  unfoldable pub close_grievance :
      ℕ → Option String → Option String → Context → World → World × Answer Grievance
  close_grievance id closure_reason reason context w =
      if not (truthy closure_reason)
      then (w, err closure_reason_required)
      else then_update id
          (λ g. record g { closure_reason = closure_reason; updated_by = context.user_id })
          (change_status id closed (reason_or "closed" reason) context w)

  unfoldable pub reopen_grievance : ℕ → Option String → Context → World → World × Answer Grievance
  reopen_grievance id reason = change_status id reopened (reason_or "reopened" reason)

  unfoldable pub escalate_grievance :
      ℕ → Option String → Option String → Context → World → World × Answer Grievance
  escalate_grievance id reason owner context =
      push_entry id (λ g. build_status_entry g escalated (reason_or "escalated" reason) context)
        (λ g x. record x {
          status = escalated;
          escalation_level = suc g.escalation_level;
          current_escalation_owner = owner;
        })
        (grievance_escalated id) context
