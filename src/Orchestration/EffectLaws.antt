-- ===== src/Orchestration/EffectLaws.antt =====
-- What an accepted request leaves in the collections.
use udyog_setu.Common.{
  ℕ, Option, none, some, Bool, ◌≡◌, ◌≢◌, refl, sym, ◌∙◌, ap, arith, ◌==◌, Option-cases, Bool-cases,
  inl, inr, ==_iff,
}
use udyog_setu.Vocabulary.CaseStatuses.{CaseStatus}
use udyog_setu.Vocabulary.CaseStatuses
use udyog_setu.Vocabulary.TaskStatuses.{TaskStatus}
use udyog_setu.Store.{Collection}
use udyog_setu.Workflow.Transition.{Transition}
use udyog_setu.Workflow.Documents.{Payload, Context, CaseDoc, TaskDoc}
use udyog_setu.Workflow.Errors.{ok, Result-cases}
use udyog_setu.Workflow.TaskMachine.{get_task_transition}
use udyog_setu.Workflow.Guards.{assert_task_transition_allowed}
use udyog_setu.Workflow.Aggregate.{derive_aggregate_case_status}
use udyog_setu.Workflow.TaskLaws.{assert_task_transition_allowed_iff}
use udyog_setu.Sla.Timer.{Timer, timer_id}
use udyog_setu.Orchestration.Apply.{
  apply_case_transition, apply_task_transition, validate_case, validate_task,
}
use udyog_setu.Orchestration.World.{
  case_id, task_id, World, append_domain_event, create_transition_artifacts,
}
use udyog_setu.Orchestration.Requests.{
  Mode, direct, transactional, tasks_of, recalculate_case_aggregate_status, aggregate_payload,
  task_timer_step, report_task, move_task, visible, settle, transition_task,
}

module _ (C : Collection CaseDoc case_id) (K : Collection TaskDoc task_id)
    (T : Collection Timer timer_id) (warning_percentage : ℕ) where
  abbrev Now : Type 0
  Now = World C K T

  -- What a request has done to the tasks before it recalculates the case.
  move_task-saves :
      (now : ℕ) (next : TaskStatus) (payload : Payload) (context : Context) (c : Option CaseDoc)
      (t : TaskDoc) (w : Now) (r : Now × TaskDoc)
      → move_task C K T warning_percentage now next payload context c t w ≡ ok r
      → (r.1 ≡ apply_task_transition now next payload context t)
        × (r.0.tasks ≡ K.put r.1 w.tasks)
        × (r.0.cases ≡ w.cases)
  unfolding move_task report_task append_domain_event create_transition_artifacts
  move_task-saves now next payload context c t w r h =
      let moved = apply_task_transition now next payload context t in
      elim (Bool-cases (validate_task moved)) [
        | inl valid ↦
            elim (Result-cases
              (task_timer_step C K T warning_percentage now next payload moved w.clocks)) [
                | inl (s, timed) ↦ ground arith
                | inr (e, failed) ↦ absurd (ground arith)
              ]
        | inr invalid ↦ absurd (ground arith)
      ]

  -- The recalculation leaves the case with the status that its tasks, as they are read, give.
  recalculate-derives :
      (now : ℕ) (seen : K.Docs) (id : ℕ) (w : Now) (c : CaseDoc) (r : Now × Bool)
      → C.get id w.cases ≡ some c
      → recalculate_case_aggregate_status C K T warning_percentage now seen id w ≡ ok r
      → (r.0.tasks ≡ w.tasks)
        × ((d : CaseDoc) × (C.get id r.0.cases ≡ some d)
            × (d.status
                ≡ derive_aggregate_case_status c (tasks_of C K T warning_percentage c.id seen)))
  unfolding recalculate_case_aggregate_status apply_case_transition create_transition_artifacts
      append_domain_event
  recalculate-derives now seen id w c r found h =
      let next = derive_aggregate_case_status c (tasks_of C K T warning_percentage c.id seen) in
      let moved = apply_case_transition now next aggregate_payload c in
      elim (Bool-cases (CaseStatuses.same next c.status)) [
        | inl settled ↦
            let same = CaseStatuses.same_sound next c.status settled in
            (ground arith, (c, ground arith, sym same))
        | inr other ↦ elim (Bool-cases (validate_case moved)) [
          | inl valid ↦
              let known = C.get-id id w.cases c found in
              (ground arith, (moved, ground (arith, C.get-put id moved w.cases), refl))
          | inr invalid ↦ absurd (ground arith)
        ]
      ]

  transition_task-ok :
      (mode : Mode) (now id : ℕ) (next : TaskStatus) (payload : Payload) (context : Context)
      (w : Now) (r : Now × TaskDoc)
      → transition_task C K T warning_percentage mode now id next payload context w ≡ ok r
      → (t : TaskDoc) × (c : CaseDoc) × (e : Transition) × (m : Now × TaskDoc) × (K.get id w.tasks
          ≡ some t)
        × (C.get t.case_id w.cases ≡ some c)
        × (assert_task_transition_allowed
              (some c)
              t
              next
              (record context { payload = some payload })
            ≡ ok e)
        × (move_task C K T warning_percentage now next payload context (some c) t w ≡ ok m)
        × (settle C K T warning_percentage mode now (some c) w m ≡ ok r)
  unfolding transition_task settle
  transition_task-ok mode now id next payload context w r h =
      elim (Option-cases (K.get id w.tasks)) [
        | inl missing ↦ absurd (ground arith)
        | inr (t, found) ↦ elim (Option-cases (C.get t.case_id w.cases)) [
          | inl orphan ↦
              elim (Result-cases (
                assert_task_transition_allowed none t next
                  (record context { payload = some payload }))) [
                    | inl (e, allowed) ↦
                        elim (Result-cases
                          (move_task C K T warning_percentage now next payload context none t w)) [
                            | inl (m, done) ↦ absurd (ground arith)
                            | inr (x, failed) ↦ absurd (ground arith)
                          ]
                    | inr (x, refused) ↦ absurd (ground arith)
                  ]
          | inr (c, parent) ↦
              elim (Result-cases (
                assert_task_transition_allowed (some c) t next
                  (record context { payload = some payload }))) [
                    | inl (e, allowed) ↦
                        elim (Result-cases (
                          move_task C K T warning_percentage now next payload context (some c) t
                            w)) [
                              | inl (m, done) ↦
                                  (t, c, e, m, found, parent, allowed, done, ground arith)
                              | inr (x, failed) ↦ absurd (ground arith)
                            ]
                    | inr (x, refused) ↦ absurd (ground arith)
                  ]
        ]
      ]

  put-hit : (t : TaskDoc) (k : ℕ) (ts : K.Docs) → t.id ≡ k → K.get k (K.put t ts) ≡ some t
  put-hit t k ts same = ground (arith, K.get-put k t ts, (==_iff t.id k).1 same)

  put-miss : (t : TaskDoc) (k : ℕ) (ts : K.Docs) → t.id ≢ k → K.get k (K.put t ts) ≡ K.get k ts
  put-miss t k ts other = elim (Bool-cases (t.id == k)) [
    | inl same ↦ absurd (other ((==_iff t.id k).0 same))
    | inr differ ↦ ground (arith, K.get-put k t ts)
  ]

  visible-same :
      (mode : Mode) (w v u : Now)
      → v.tasks ≡ u.tasks
      → visible C K T warning_percentage mode w v ≡ visible C K T warning_percentage mode w u
  visible-same direct w v u same = same
  visible-same transactional w v u same = refl

  settle-derives :
      (mode : Mode) (now : ℕ) (c : CaseDoc) (w : Now) (m r : Now × TaskDoc)
      → C.get c.id m.0.cases ≡ some c
      → settle C K T warning_percentage mode now (some c) w m ≡ ok r
      → (r.1 ≡ m.1)
        × (r.0.tasks ≡ m.0.tasks)
        × ((d : CaseDoc) × (C.get c.id r.0.cases ≡ some d)
            × (d.status
                ≡ derive_aggregate_case_status c (
                    tasks_of C K T warning_percentage c.id
                      (visible C K T warning_percentage mode w m.0))))
  unfolding settle
  settle-derives mode now c w m r found h =
      let seen = visible C K T warning_percentage mode w m.0 in
      elim (Result-cases
        (recalculate_case_aggregate_status C K T warning_percentage now seen c.id m.0)) [
          | inl (done, derived) ↦
              let (kept, (d, stored, settled)) =
                recalculate-derives now seen c.id m.0 c done found derived in
              let same : r ≡ (done.0, m.1) = ground arith in
              (
                ap (λ x. x.1) same,
                ap (λ x. x.0.tasks) same ∙ kept,
                (d, ap (λ x. C.get c.id x.0.cases) same ∙ stored, settled),
              )
          | inr (e, failed) ↦ absurd (ground arith)
        ]

  -- A request of `transitionTask` that succeeds leaves the task with the requested status, along an entry
  -- of the table, and every other task as it was.
  pub transition_task-stores :
      (mode : Mode) (now id : ℕ) (next : TaskStatus) (payload : Payload) (context : Context)
      (w : Now) (r : Now × TaskDoc)
      → transition_task C K T warning_percentage mode now id next payload context w ≡ ok r
      → (t : TaskDoc) × (e : Transition) × (K.get id w.tasks ≡ some t)
        × (get_task_transition t.status next ≡ some e)
        × (K.get id r.0.tasks ≡ some r.1)
        × (r.1.status ≡ next)
        × ((k : ℕ) → k ≢ id → K.get k r.0.tasks ≡ K.get k w.tasks)
  unfolding settle apply_task_transition
  transition_task-stores mode now id next payload context w r h =
      let (t, c, e, m, found, parent, allowed, done, settled) =
        transition_task-ok mode now id next payload context w r h in
      let facts =
        (assert_task_transition_allowed_iff (some c) t next
            (record context { payload = some payload }) e).0
          allowed in
      let (moved, stored, cases) = move_task-saves now next payload context (some c) t w m done in
      let read =
        ap (C.get c.id) cases
        ∙ ap (λ (i : ℕ). C.get i w.cases) (C.get-id t.case_id w.cases c parent)
        ∙ parent in
      let (same, kept, rest) = settle-derives mode now c w m r read settled in
      let at : r.1.id ≡ id = ap task_id (same ∙ moved) ∙ K.get-id id w.tasks t found in
      let written : r.0.tasks ≡ K.put r.1 w.tasks =
        kept ∙ stored ∙ ap (λ (x : TaskDoc). K.put x w.tasks) (sym same) in
      (
        t,
        e,
        found,
        facts.0,
        ap (K.get id) written ∙ put-hit r.1 id w.tasks at,
        ap (λ x. x.status) (same ∙ moved),
        λ k other. ap (K.get k) written ∙ put-miss r.1 k w.tasks (λ q. other (sym q ∙ at)),
      )

  -- After a request of `transitionTask` that succeeds, the case has the status that its tasks give it:
  -- the tasks as the request has left them, or, in a transaction, the tasks as they were before the
  -- request.
  pub transition_task-aggregates :
      (mode : Mode) (now id : ℕ) (next : TaskStatus) (payload : Payload) (context : Context)
      (w : Now) (r : Now × TaskDoc)
      → transition_task C K T warning_percentage mode now id next payload context w ≡ ok r
      → (c d : CaseDoc) × (C.get r.1.case_id w.cases ≡ some c)
        × (C.get r.1.case_id r.0.cases ≡ some d)
        × (d.status
            ≡ derive_aggregate_case_status c (
                tasks_of C K T warning_percentage c.id
                  (visible C K T warning_percentage mode w r.0)))
  unfolding settle apply_task_transition
  transition_task-aggregates mode now id next payload context w r h =
      let (t, c, e, m, found, parent, allowed, done, settled) =
        transition_task-ok mode now id next payload context w r h in
      let (moved, stored, cases) = move_task-saves now next payload context (some c) t w m done in
      let parent_id = C.get-id t.case_id w.cases c parent in
      let read = ap (C.get c.id) cases ∙ ap (λ (i : ℕ). C.get i w.cases) parent_id ∙ parent in
      let (same, kept, (d, at, settles)) = settle-derives mode now c w m r read settled in
      let of_case : r.1.case_id ≡ t.case_id = ap (λ x. x.case_id) (same ∙ moved) in
      (
        c,
        d,
        ap (λ (i : ℕ). C.get i w.cases) of_case ∙ parent,
        ap (λ (i : ℕ). C.get i r.0.cases) (of_case ∙ sym parent_id) ∙ at,
        settles
            ∙ ap
                (λ seen.
                  derive_aggregate_case_status c (tasks_of C K T warning_percentage c.id seen))
                (visible-same mode w m.0 r.0 (sym kept)),
      )
