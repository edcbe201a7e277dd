-- ===== src/Sla/Service.antt =====
-- The calls that the SLA service answers, one after the other.
use udyog_setu.Common.{
  ℕ, String, Option, none, some, Bool, true, ◌&&◌, List, [], ◌∷◌, ◌≡◌, refl, ◌∙◌, str_eq, inl, inr,
  ap, arith, Bool-cases,
}
use udyog_setu.Vocabulary.TimerStatuses.{TimerStatus}
use udyog_setu.Vocabulary.TimerStatuses
use udyog_setu.Vocabulary.EventNames
use udyog_setu.Store.{Collection}
use udyog_setu.Workflow.Documents.{CaseDoc, TaskDoc}
use udyog_setu.Workflow.Errors.{Result, ok, err, ◌>>=◌}
use udyog_setu.Sla.Timer.{get_or, Timer, timer_id, validate_timer}
use udyog_setu.Sla.Clocks.{
  of_case, of_task, Entity, Clocks, change, concerns, is_live, is_pausable, paused, resumed,
  completed, cancelled, warned, breached, guarded, can_warn, can_breach, pause_sla, resume_sla,
  complete_sla, cancel_sla, mark_warning, mark_breached, mark_all, find_warnings, find_breached,
  evaluate_sla_timers, create_timer, upsert_running_timer, reuse_or_create, started, emit_sla_event,
  new_timer, start_case_sla, start_task_sla,
}
use udyog_setu.Sla.Graph.{
  Kept, TimerMove, pauses, resumes, completes, cancels, warns, breaches, Reach, here, moved,
  created,
}

-- The exported functions of the service, with their arguments and the time of the call.
pub data Call : Type 0 where
  pause : ℕ → Entity → String → Call
  resume : ℕ → Entity → Call
  complete : ℕ → Entity → Call
  cancel : Entity → Call
  warn : ℕ → Call
  breach : ℕ → ℕ → Call
  evaluate : ℕ → Call
  start_case : ℕ → ℕ → CaseDoc → Call
  start_task : ℕ → TaskDoc → Call

identity :
    Timer → ℕ × Option ℕ × Option ℕ × Option ℕ × Option String × Option String × String × ℕ × ℕ
identity t = (
  t.id, t.case_id, t.task_id, t.grievance_id, t.entity_type, t.department_code, t.timer_type,
  t.starts_at, t.due_at,
)

keeps : {t u : Timer} → identity u ≡ identity t → Kept t u
unfolding identity
keeps e = record {
  same_timer = ap (λ x. x.0) e;
  same_case = ap (λ x. x.1) e;
  same_task = ap (λ x. x.2) e;
  same_grievance = ap (λ x. x.3) e;
  same_entity = ap (λ x. x.4) e;
  same_department = ap (λ x. x.5) e;
  same_type = ap (λ x. x.6) e;
  same_start = ap (λ x. x.7) e;
  same_due = ap (λ x. x.8) e;
}

paused-TimerMove :
    (now : ℕ) (reason : String) (t : Timer)
    → is_pausable t.status ≡ true
    → TimerMove t (paused now reason t)
unfolding paused identity
paused-TimerMove now reason t p = pauses (keeps refl) p refl refl

resumed-TimerMove :
    (now : ℕ) (t : Timer) → t.status ≡ TimerStatus.paused → TimerMove t (resumed now t)
unfolding resumed identity
resumed-TimerMove now t p = resumes (keeps refl) p refl refl

completed-TimerMove :
    (now : ℕ) (t : Timer) → is_live t.status ≡ true → TimerMove t (completed now t)
unfolding completed identity
completed-TimerMove now t p = completes (keeps refl) p refl refl

cancelled-TimerMove : (t : Timer) → is_live t.status ≡ true → TimerMove t (cancelled t)
unfolding cancelled identity
cancelled-TimerMove t p = cancels (keeps refl) p refl refl

warned-TimerMove : (t : Timer) → can_warn t ≡ true → TimerMove t (warned t)
unfolding warned identity
warned-TimerMove t p = warns (keeps refl) (ground arith) refl refl

breached-TimerMove : (now : ℕ) (t : Timer) → can_breach t ≡ true → TimerMove t (breached now t)
unfolding breached identity
breached-TimerMove now t p = breaches (keeps refl) p refl refl

guarded-some :
    (p : Timer → Bool) (o : Option Timer) (t : Timer)
    → guarded p o ≡ some t
    → (o ≡ some t) × (p t ≡ true)
guarded-some p none t h = ground arith
guarded-some p (some u) t h = elim (Bool-cases (p u)) [
  | inl fits ↦ ground arith
  | inr unfit ↦ ground arith
]

module _ (T : Collection Timer timer_id) where
  open T use {Docs, get, put, find_one, find_one_sound, get-id}

  -- A start that fails leaves the state as it was.
  abbrev after_start : Clocks T → Result (Clocks T × Timer) → Clocks T
  after_start s (ok r) = r.0
  after_start s (err e) = s

  unfoldable pub answer : Call → Clocks T → Clocks T
  answer (pause now e reason) s = (pause_sla T now e reason s).0
  answer (resume now e) s = (resume_sla T now e s).0
  answer (complete now e) s = (complete_sla T now e s).0
  answer (cancel e) s = (cancel_sla T e s).0
  answer (warn id) s = mark_warning T id s
  answer (breach now id) s = mark_breached T now id s
  answer (evaluate now) s = (evaluate_sla_timers T now s).0
  answer (start_case percentage now c) s = after_start s (start_case_sla T percentage now c s)
  answer (start_task percentage d) s = after_start s (start_task_sla T percentage d s)

  unfoldable pub answer_all : List Call → Clocks T → Clocks T
  answer_all [] s = s
  answer_all (c ∷ cs) s = answer_all cs (answer c s)

  -- The events do not count.
  again :
      {s₀ s s' : Clocks T}
      → s'.timers ≡ s.timers
      → s'.next_id ≡ s.next_id
      → Reach T s₀ s
      → Reach T s₀ s'
  again e n (here e' n') = here (e ∙ e') (n ∙ n')
  again e n (moved t u r g m e' n') = moved t u r g m (e ∙ e') (n ∙ n')
  again e n (created t r i l v e' n') = created t r i l v (e ∙ e') (n ∙ n')

  -- A query that found a timer found a stored one.
  change-Reach :
      {s₀ : Clocks T} (o : Option Timer) (f : Timer → Timer) (event_name : String) (s : Clocks T)
      → Reach T s₀ s
      → ((t : Timer) → o ≡ some t → (get t.id s.timers ≡ some t) × TimerMove t (f t))
      → Reach T s₀ (change T o f event_name s).0
  unfolding change emit_sla_event
  change-Reach none f event_name s r found = r
  change-Reach (some t) f event_name s r found =
      let (stored, move) = found t refl in moved t (f t) r stored move refl refl

  query-Reach :
      {s₀ : Clocks T} (p : Timer → Bool) (f : Timer → Timer) (event_name : String) (s : Clocks T)
      → Reach T s₀ s
      → ((t : Timer) → p t ≡ true → TimerMove t (f t))
      → Reach T s₀ (change T (find_one p s.timers) f event_name s).0
  query-Reach p f event_name s r move =
      change-Reach (find_one p s.timers) f event_name s r
        (λ t found. let (fits, stored) = find_one_sound p s.timers t found in (stored, move t fits))

  guarded-Reach :
      {s₀ : Clocks T} (p : Timer → Bool) (f : Timer → Timer) (event_name : String) (id : ℕ)
      (s : Clocks T)
      → Reach T s₀ s
      → ((t : Timer) → p t ≡ true → TimerMove t (f t))
      → Reach T s₀ (change T (guarded p (get id s.timers)) f event_name s).0
  guarded-Reach p f event_name id s r move =
      change-Reach (guarded p (get id s.timers)) f event_name s r (λ t found.
        let (stored, fits) = guarded-some p (get id s.timers) t found in
        (ap (λ (i : ℕ). get i s.timers) (get-id id s.timers t stored) ∙ stored, move t fits))

  marks-Reach :
      {s₀ : Clocks T} (mark : ℕ → Clocks T → Clocks T) (ts : List Timer) (s : Clocks T)
      → ((id : ℕ) (u : Clocks T) → Reach T s₀ u → Reach T s₀ (mark id u))
      → Reach T s₀ s
      → Reach T s₀ (mark_all T mark ts s)
  unfolding mark_all
  marks-Reach mark [] s each r = r
  marks-Reach mark (t ∷ ts) s each r = marks-Reach mark ts (mark t.id s) each (each t.id s r)

  warn-Reach :
      {s₀ : Clocks T} (id : ℕ) (s : Clocks T) → Reach T s₀ s → Reach T s₀ (mark_warning T id s)
  unfolding mark_warning
  warn-Reach id s r = guarded-Reach can_warn warned EventNames.sla_warning id s r warned-TimerMove

  breach-Reach :
      {s₀ : Clocks T} (now id : ℕ) (s : Clocks T)
      → Reach T s₀ s
      → Reach T s₀ (mark_breached T now id s)
  unfolding mark_breached
  breach-Reach now id s r =
      guarded-Reach can_breach (breached now) EventNames.sla_breached id s r
        (breached-TimerMove now)

  reuse-Reach :
      {s₀ : Clocks T} (o : Option Timer) (t : Timer) (s : Clocks T)
      → t.id ≡ s.next_id
      → t.escalation_level ≡ 0
      → Reach T s₀ s
      → Reach T s₀ (after_start s (reuse_or_create T o t s >>= started T))
  unfolding reuse_or_create create_timer emit_sla_event
  reuse-Reach none t s i l r = elim (Bool-cases (validate_timer t)) [
    | inl valid ↦ rw valid (created t r i l valid refl refl)
    | inr invalid ↦ rw invalid r
  ]
  reuse-Reach (some u) t s i l r = again refl refl r

  pub answer-Reach :
      {s₀ : Clocks T} (c : Call) (s : Clocks T) → Reach T s₀ s → Reach T s₀ (answer c s)
  unfolding answer pause_sla resume_sla complete_sla cancel_sla evaluate_sla_timers start_case_sla
      start_task_sla upsert_running_timer new_timer
  answer-Reach (pause now e reason) s r =
      query-Reach (λ t. concerns e t && is_pausable t.status) (paused now reason)
        EventNames.sla_timer_paused s r (λ t p. paused-TimerMove now reason t (ground arith))
  answer-Reach (resume now e) s r =
      query-Reach (λ t. concerns e t && TimerStatuses.same t.status TimerStatus.paused)
        (resumed now) EventNames.sla_timer_resumed s r
        (λ t p.
          resumed-TimerMove now t
            (ground (arith, TimerStatuses.same_sound t.status TimerStatus.paused)))
  answer-Reach (complete now e) s r =
      query-Reach (λ t. concerns e t && is_live t.status) (completed now) EventNames.sla_completed s
        r (λ t p. completed-TimerMove now t (ground arith))
  answer-Reach (cancel e) s r =
      query-Reach (λ t. concerns e t && is_live t.status) cancelled EventNames.sla_cancelled s r
        (λ t p. cancelled-TimerMove t (ground arith))
  answer-Reach (warn id) s r = warn-Reach id s r
  answer-Reach (breach now id) s r = breach-Reach now id s r
  answer-Reach (evaluate now) s r =
      marks-Reach (mark_breached T now) (find_breached T now s)
        (mark_all T (mark_warning T) (find_warnings T now s) s) (breach-Reach now)
        (marks-Reach (mark_warning T) (find_warnings T now s) s warn-Reach r)
  answer-Reach (start_case percentage now c) s r =
      reuse-Reach
        (find_one
          (λ u. (concerns (of_case c.id) u && str_eq u.timer_type "case") && is_live u.status)
          s.timers)
        (new_timer T s.next_id "case" (some c.id) none c.universal_case_id none
          (get_or c.submitted_at now) c.due_at c.warning_at percentage)
        s refl refl r
  answer-Reach (start_task percentage d) s r =
      reuse-Reach
        (find_one
          (λ u. (concerns (of_task d.id) u && str_eq u.timer_type "task") && is_live u.status)
          s.timers)
        (new_timer T s.next_id "task" (some d.case_id) (some d.id) d.universal_case_id
          (some d.department_code) d.created_at d.due_at d.warning_at percentage)
        s refl refl r
