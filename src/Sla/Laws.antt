-- ===== src/Sla/Laws.antt =====
-- What the SLA service keeps, whatever it is asked: sequences of calls to
-- services/orchestration-service/src/services/sla-orchestration.service.js.
use udyog_setu.Common.{
  ℕ, String, none, some, Bool, true, false, ◌&&◌, List, [], ◌∷◌, ◌≡◌, ◌≢◌, refl, inl, inr, arith,
  Option-cases, str_eq, eq_iff, includes,
}
use udyog_setu.Vocabulary.TimerStatuses.{TimerStatus}
use udyog_setu.Store.{Collection}
use udyog_setu.Workflow.Documents.{CaseDoc, TaskDoc}
use udyog_setu.Workflow.Errors.{err, ◌>>=◌, validation_failed}
use udyog_setu.Sla.Timer.{get_or, Timer, timer_id, validate_timer, timer_types}
use udyog_setu.Sla.Clocks.{
  of_case, of_task, concerns, Clocks, change, is_live, is_pausable, pause_sla, create_timer,
  reuse_or_create, upsert_running_timer, new_timer, started, start_case_sla, start_task_sla, paused,
}
use udyog_setu.Sla.Graph.{
  EscalatedOnce, Reach, here, Stored, IsFresh, Reach-EscalatedOnce, Reach-ended, Reach-IsValid,
}
use udyog_setu.Sla.Service.{Call, answer, answer_all, answer-Reach}

module _ (T : Collection Timer timer_id) where
  open T use {get, put, find_one, find_one_sound, find_one_complete, get-id}

  answer_all-Reach-from :
      {s₀ : Clocks T} (cs : List Call) (s : Clocks T)
      → Reach T s₀ s
      → Reach T s₀ (answer_all T cs s)
  unfolding answer_all
  answer_all-Reach-from [] s r = r
  answer_all-Reach-from (c ∷ cs) s r =
      answer_all-Reach-from cs (answer T c s) (answer-Reach T c s r)

  -- Any sequence of calls changes stored timers only along the moves of `TimerMove`, and adds timers
  -- only under the next id, unescalated and as the schema asks.
  pub answer_all-Reach : (cs : List Call) (s : Clocks T) → Reach T s (answer_all T cs s)
  answer_all-Reach cs s = answer_all-Reach-from cs s (here refl refl)

  -- Where no stored timer has been escalated twice, and none that is neither breached nor ended has
  -- been escalated at all, the same holds after any sequence of calls.
  pub escalated_at_most_once :
      (cs : List Call) (s : Clocks T)
      → Stored T EscalatedOnce s
      → Stored T EscalatedOnce (answer_all T cs s)
  escalated_at_most_once cs s = Reach-EscalatedOnce T (answer_all-Reach cs s)

  -- A completed or cancelled timer is stored unchanged after any sequence of calls, where all stored
  -- ids are below the next id.
  pub ended_timers_stay :
      (cs : List Call) (s : Clocks T) (k : ℕ) (t : Timer)
      → IsFresh T s
      → get k s.timers ≡ some t
      → is_live t.status ≡ false
      → get k (answer_all T cs s).timers ≡ some t
  ended_timers_stay cs s k t = Reach-ended T k t (answer_all-Reach cs s)

  valid_type : (t : Timer) → validate_timer t ≡ true → includes timer_types t.timer_type ≡ true
  unfolding validate_timer
  valid_type t v = ground arith

  -- Where a type is none of the schema's, no valid store has a timer to reuse.
  no_start :
      (type : String) (filter : Timer → Bool) (t : Timer) (s : Clocks T)
      → Stored T (λ u. validate_timer u ≡ true) s
      → includes timer_types type ≡ false
      → t.timer_type ≡ type
      → ((u : Timer) → filter u ≡ true → u.timer_type ≡ type)
      → (upsert_running_timer T filter t s >>= started T) ≡ err (validation_failed "SlaTimer")
  unfolding upsert_running_timer reuse_or_create create_timer validate_timer
  no_start type filter t s valid unknown typed filtered =
      elim (Option-cases (find_one (λ u. filter u && is_live u.status) s.timers)) [
        | inl missing ↦ ground arith
        | inr (u, found) ↦
            let (fits, stored) =
              find_one_sound (λ v. filter v && is_live v.status) s.timers u found in
            ground (arith, valid_type u (valid u.id u stored), filtered u)
      ]

  pub no_case_start :
      (percentage now : ℕ) (c : CaseDoc) (s : Clocks T)
      → Stored T (λ u. validate_timer u ≡ true) s
      → start_case_sla T percentage now c s ≡ err (validation_failed "SlaTimer")
  unfolding start_case_sla new_timer
  no_case_start percentage now c s valid =
      no_start "case" (λ t. concerns (of_case c.id) t && str_eq t.timer_type "case")
        (new_timer T s.next_id "case" (some c.id) none c.universal_case_id none
          (get_or c.submitted_at now) c.due_at c.warning_at percentage)
        s valid refl refl (λ u h. ground (arith, eq_iff u.timer_type "case"))

  pub no_task_start :
      (percentage : ℕ) (d : TaskDoc) (s : Clocks T)
      → Stored T (λ u. validate_timer u ≡ true) s
      → start_task_sla T percentage d s ≡ err (validation_failed "SlaTimer")
  unfolding start_task_sla new_timer
  no_task_start percentage d s valid =
      no_start "task" (λ t. concerns (of_task d.id) t && str_eq t.timer_type "task")
        (new_timer T s.next_id "task" (some d.case_id) (some d.id) d.universal_case_id
          (some d.department_code) d.created_at d.due_at d.warning_at percentage)
        s valid refl refl (λ u h. ground (arith, eq_iff u.timer_type "task"))

  -- In a store whose timers all satisfy the schema, neither a case nor a task ever gets its timer,
  -- after any sequence of calls: the start is refused by the validation of the new timer.
  pub case_and_task_timers_never_start :
      (percentage now : ℕ) (c : CaseDoc) (d : TaskDoc) (cs : List Call) (s : Clocks T)
      → Stored T (λ u. validate_timer u ≡ true) s
      → (start_case_sla T percentage now c (answer_all T cs s) ≡ err (validation_failed "SlaTimer"))
        × (start_task_sla T percentage d (answer_all T cs s) ≡ err (validation_failed "SlaTimer"))
  case_and_task_timers_never_start percentage now c d cs s valid =
      let later = Reach-IsValid T (answer_all-Reach cs s) valid in
      (
        no_case_start percentage now c (answer_all T cs s) later,
        no_task_start percentage d (answer_all T cs s) later,
      )

  -- Where every stored timer of a case is a timer of a task, and one of them runs or warns, a request to
  -- pause the timer of the case pauses the timer of a task.
  pub pausing_a_case_pauses_a_task :
      (now id : ℕ) (reason : String) (s : Clocks T) (t : Timer)
      → Stored T (λ u. concerns (of_case id) u ≡ true → u.task_id ≢ none) s
      → get t.id s.timers ≡ some t
      → concerns (of_case id) t ≡ true
      → is_pausable t.status ≡ true
      → (u : Timer) × ((pause_sla T now (of_case id) reason s).1 ≡ some u)
        × (u.status ≡ TimerStatus.paused)
        × (u.task_id ≢ none)
  unfolding pause_sla change paused
  pausing_a_case_pauses_a_task now id reason s t only stored fits runs =
      elim (Option-cases
        (find_one (λ v. concerns (of_case id) v && is_pausable v.status) s.timers)) [
          | inl missing ↦ absurd (
              ground (
                arith,
                find_one_complete (λ v. concerns (of_case id) v && is_pausable v.status) s.timers
                    t.id t missing stored,
              ))
          | inr (u, found) ↦
              let (hit, old) =
                find_one_sound (λ v. concerns (of_case id) v && is_pausable v.status) s.timers u
                  found in
              (paused now reason u, rw found refl, refl, only u.id u old (ground arith))
        ]
