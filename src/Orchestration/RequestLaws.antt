-- ===== src/Orchestration/RequestLaws.antt =====
-- What the requests of the orchestration service promise.
use udyog_setu.Common.{
  ℕ, String, some, Bool, true, List, [], ◌∷◌, ◌≡◌, ◌≢◌, refl, sym, arith, is_empty, Option-cases,
  Bool-cases, inl, inr, subst,
}
use udyog_setu.Vocabulary.CaseStatuses.{CaseStatus}
use udyog_setu.Store.{Collection}
use udyog_setu.Workflow.Transition.{Transition}
use udyog_setu.Workflow.Documents.{Payload, Context, CaseDoc, TaskDoc, Requirement}
use udyog_setu.Workflow.Errors.{ok, Result-cases}
use udyog_setu.Workflow.Guards.{assert_case_transition_allowed}
use udyog_setu.Sla.Timer.{Timer, timer_id, validate_timer}
use udyog_setu.Sla.Clocks.{Clocks, start_case_sla, start_task_sla}
use udyog_setu.Sla.Graph.{Stored}
use udyog_setu.Sla.Laws.{no_case_start, no_task_start}
use udyog_setu.Orchestration.Apply.{
  apply_case_transition, build_task_from_requirement, validate_new_task,
}
use udyog_setu.Orchestration.World.{case_id, task_id, World, save_case}
use udyog_setu.Orchestration.Requests.{
  saved, create_tasks, maybe_create_initial_tasks, case_timer_step, requested, move_case,
  transition_case,
}

module _ (C : Collection CaseDoc case_id) (K : Collection TaskDoc task_id)
    (T : Collection Timer timer_id) (warning_percentage : ℕ) where
  abbrev Now : Type 0
  Now = World C K T

  abbrev Schema : Now → Type 0
  Schema w = Stored T (λ u. validate_timer u ≡ true) w.clocks

  saved-ok :
      (b : Bool) (name : String) (w v : Now)
      → saved C K T warning_percentage b name w ≡ ok v
      → (b ≡ true) × (w ≡ v)
  saved-ok b name w v h = ground arith

  no_case_timer :
      (now : ℕ) (c : CaseDoc) (s : Clocks T) (r : Clocks T × Timer)
      → Stored T (λ u. validate_timer u ≡ true) s
      → start_case_sla T warning_percentage now c s ≢ ok r
  no_case_timer now c s r valid h = ground (arith, no_case_start T warning_percentage now c s valid)

  no_task_timer :
      (t : TaskDoc) (s : Clocks T) (r : Clocks T × Timer)
      → Stored T (λ u. validate_timer u ≡ true) s
      → start_task_sla T warning_percentage t s ≢ ok r
  no_task_timer t s r valid h = ground (arith, no_task_start T warning_percentage t s valid)

  no_tasks :
      (now : ℕ) (context : Context) (c : CaseDoc) (r : Requirement) (rs : List Requirement)
      (w : Now) (m : Now × List TaskDoc)
      → Schema w
      → create_tasks C K T warning_percentage now context c (r ∷ rs) w ≢ ok m
  unfolding create_tasks
  no_tasks now context c r rs w m valid h =
      let t = build_task_from_requirement now w.next_task_id c r context in
      elim (Bool-cases (validate_new_task t)) [
        | inl fits ↦ ground (arith, no_task_start T warning_percentage t w.clocks valid)
        | inr unfit ↦ ground arith
      ]

  no_initial_tasks :
      (now : ℕ) (context : Context) (c : CaseDoc) (rs : List Requirement) (w : Now)
      (m : Now × List TaskDoc)
      → Schema w
      → create_tasks C K T warning_percentage now context c rs w ≡ ok m
      → is_empty rs ≡ true
  no_initial_tasks now context c [] w m valid h = refl
  no_initial_tasks now context c (r ∷ rs) w m valid h =
      absurd (no_tasks now context c r rs w m valid h)

  -- Where the initial tasks cause no failure, there are none to make.
  initial_tasks-clocks :
      (now : ℕ) (context : Context) (c : CaseDoc) (w : Now) (m : Now × CaseDoc)
      → Schema w
      → maybe_create_initial_tasks C K T warning_percentage now context c w ≡ ok m
      → m.0.clocks ≡ w.clocks
  unfolding maybe_create_initial_tasks
  initial_tasks-clocks now context c w m valid h =
      elim (Bool-cases (is_empty c.required_departments)) [
        | inl none_needed ↦ ground arith
        | inr needed ↦
            elim (Result-cases
              (create_tasks C K T warning_percentage now context c c.required_departments w)) [
                | inl (made, from) ↦
                    ground (
                      arith,
                      no_initial_tasks now context c c.required_departments w made valid from,
                    )
                | inr (e, failed) ↦ ground arith
              ]
      ]

  transition_case-ok :
      (now id : ℕ) (next : CaseStatus) (payload : Payload) (context : Context) (w : Now)
      (r : Now × CaseDoc)
      → transition_case C K T warning_percentage now id next payload context w ≡ ok r
      → (c : CaseDoc) × (t : Transition) × (C.get id w.cases ≡ some c)
        × (assert_case_transition_allowed c next
              (requested C K T warning_percentage payload context)
            ≡ ok t)
        × (move_case C K T warning_percentage now next payload context c w ≡ ok r)
  unfolding transition_case
  transition_case-ok now id next payload context w r h = elim (Option-cases (C.get id w.cases)) [
    | inl missing ↦ absurd (ground arith)
    | inr (c, found) ↦
        elim (Result-cases (
          assert_case_transition_allowed c next
            (requested C K T warning_percentage payload context))) [
              | inl (t, allowed) ↦ (c, t, found, allowed, ground arith)
              | inr (e, refused) ↦ absurd (ground arith)
            ]
  ]

  -- While all stored timers satisfy the schema, no request to move a case to `submitted` succeeds: it always
  -- answers an error. Of what the failing request leaves in the database nothing is said.
  pub submission_never_succeeds :
      (now id : ℕ) (payload : Payload) (context : Context) (w : Now) (r : Now × CaseDoc)
      → Schema w
      → transition_case C K T warning_percentage now id CaseStatus.submitted payload context w
        ≢ ok r
  unfolding move_case case_timer_step
  submission_never_succeeds now id payload context w r valid h =
      let (c, t, found, allowed, moved) =
        transition_case-ok now id CaseStatus.submitted payload context w r h in
      let after = apply_case_transition now CaseStatus.submitted payload c in
      elim (Result-cases (
        maybe_create_initial_tasks C K T warning_percentage now context after
          (save_case C K T after w))) [
            | inl (made, from) ↦
                let same =
                  initial_tasks-clocks now context after (save_case C K T after w) made valid
                    from in
                elim (Result-cases (start_case_sla T warning_percentage now made.1 made.0.clocks)) [
                  | inl (s, started) ↦
                      no_case_timer now made.1 made.0.clocks s
                        (subst (Stored T (λ u. validate_timer u ≡ true)) (sym same) valid) started
                  | inr (e, failed) ↦ ground arith
                ]
            | inr (e, failed) ↦ ground arith
          ]
