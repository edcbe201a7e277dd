-- ===== src/Sla/Graph.antt =====
-- The life of an SLA timer as a relation: which moves the service may make, and what any sequence of
-- them keeps.
use udyog_setu.Common.{
  ℕ, suc, some, true, false, ◌+◌, ◌≤◌, ◌<◌, ◌≡◌, sym, inl, inr, ap, subst, ◌∙◌, arith, ◌==◌,
  Bool-cases, ==_iff,
}
use udyog_setu.Vocabulary.TimerStatuses.{TimerStatus}
use udyog_setu.Store.{Collection}
use udyog_setu.Sla.Timer.{Timer, timer_id, validate_timer}
use udyog_setu.Sla.Clocks.{Clocks, is_live, is_pausable, can_breach}

-- What no move changes.
pub record Kept (t u : Timer) : Type 0 where
  pub same_timer : u.id ≡ t.id
  pub same_case : u.case_id ≡ t.case_id
  pub same_task : u.task_id ≡ t.task_id
  pub same_grievance : u.grievance_id ≡ t.grievance_id
  pub same_entity : u.entity_type ≡ t.entity_type
  pub same_department : u.department_code ≡ t.department_code
  pub same_type : u.timer_type ≡ t.timer_type
  pub same_start : u.starts_at ≡ t.starts_at
  pub same_due : u.due_at ≡ t.due_at

-- A move along an edge of the timer's life. Only a breach raises the escalation level.
pub data TimerMove (t u : Timer) : Type 0 where
  pauses :
      Kept t u
      → is_pausable t.status ≡ true
      → u.status ≡ TimerStatus.paused
      → u.escalation_level ≡ t.escalation_level
      → TimerMove t u
  resumes :
      Kept t u
      → t.status ≡ TimerStatus.paused
      → u.status ≡ TimerStatus.running
      → u.escalation_level ≡ t.escalation_level
      → TimerMove t u
  completes :
      Kept t u
      → is_live t.status ≡ true
      → u.status ≡ TimerStatus.completed
      → u.escalation_level ≡ t.escalation_level
      → TimerMove t u
  cancels :
      Kept t u
      → is_live t.status ≡ true
      → u.status ≡ TimerStatus.cancelled
      → u.escalation_level ≡ t.escalation_level
      → TimerMove t u
  warns :
      Kept t u
      → can_breach t ≡ true
      → u.status ≡ TimerStatus.warning
      → u.escalation_level ≡ t.escalation_level
      → TimerMove t u
  breaches :
      Kept t u
      → can_breach t ≡ true
      → u.status ≡ TimerStatus.breached
      → u.escalation_level ≡ t.escalation_level + 1
      → TimerMove t u

kept : {t u : Timer} → TimerMove t u → Kept t u
kept (pauses k p q l) = k
kept (resumes k p q l) = k
kept (completes k p q l) = k
kept (cancels k p q l) = k
kept (warns k p q l) = k
kept (breaches k p q l) = k

Kept-valid : {t u : Timer} → Kept t u → validate_timer t ≡ true → validate_timer u ≡ true
unfolding validate_timer
Kept-valid k v =
    rw
      (
        k.same_type, k.same_case, k.same_task, k.same_grievance, k.same_entity, k.same_department,
        k.same_start, k.same_due,
      )
      v

-- A timer that is neither breached nor ended has not been escalated, and none twice.
pub record EscalatedOnce (t : Timer) : Type 0 where
  pub at_most_once : t.escalation_level ≤ 1
  pub none_before : can_breach t ≡ true → t.escalation_level ≡ 0

move-EscalatedOnce : {t u : Timer} → TimerMove t u → EscalatedOnce t → EscalatedOnce u
move-EscalatedOnce (pauses k p q l) e = ground (arith, e.none_before)
move-EscalatedOnce (resumes k p q l) e = ground (arith, e.none_before)
move-EscalatedOnce (completes k p q l) e = ground (arith, e.none_before)
move-EscalatedOnce (cancels k p q l) e = ground (arith, e.none_before)
move-EscalatedOnce (warns k p q l) e = ground (arith, e.none_before)
move-EscalatedOnce (breaches k p q l) e = ground (arith, e.none_before)

live_before : {t u : Timer} → TimerMove t u → is_live t.status ≡ true
live_before (pauses k p q l) = ground arith
live_before (resumes k p q l) = ground arith
live_before (completes k p q l) = p
live_before (cancels k p q l) = p
live_before (warns k p q l) = ground arith
live_before (breaches k p q l) = ground arith

module _ (T : Collection Timer timer_id) where
  open T use {Docs, get, put, get-put, get-id}

  -- States that the service reaches by moves and by new timers.
  pub data Reach (s : Clocks T) : Clocks T → Type 0 where
    here : {s' : Clocks T} → s'.timers ≡ s.timers → s'.next_id ≡ s.next_id → Reach s s'
    moved :
        {s' s'' : Clocks T} (t u : Timer)
        → Reach s s'
        → get t.id s'.timers ≡ some t
        → TimerMove t u
        → s''.timers ≡ put u s'.timers
        → s''.next_id ≡ s'.next_id
        → Reach s s''
    created :
        {s' s'' : Clocks T} (t : Timer)
        → Reach s s'
        → t.id ≡ s'.next_id
        → t.escalation_level ≡ 0
        → validate_timer t ≡ true
        → s''.timers ≡ put t s'.timers
        → s''.next_id ≡ suc s'.next_id
        → Reach s s''

  -- What holds of every stored timer.
  abbrev pub Stored : (Timer → Type 0) → Clocks T → Type 0
  Stored P s = (k : ℕ) (t : Timer) → get k s.timers ≡ some t → P t

  Stored-put :
      (P : Timer → Type 0) (u : Timer) (s s' : Clocks T)
      → s'.timers ≡ put u s.timers
      → Stored P s
      → P u
      → Stored P s'
  Stored-put P u s s' e all p k t g = elim (Bool-cases (u.id == k)) [
    | inl same ↦ let this : u ≡ t = ground (arith, get-put k u s.timers) in subst P this p
    | inr other ↦ all k t (ground (arith, get-put k u s.timers))
  ]

  Stored-same :
      (P : Timer → Type 0) (s s' : Clocks T) → s'.timers ≡ s.timers → Stored P s → Stored P s'
  Stored-same P s s' e all k t g = all k t (rw (← e) g)

  -- However often the timers are moved, none is escalated twice.
  pub Reach-EscalatedOnce :
      {s s' : Clocks T} → Reach s s' → Stored EscalatedOnce s → Stored EscalatedOnce s'
  Reach-EscalatedOnce {s} (here {s'} e n) all = Stored-same EscalatedOnce s s' e all
  Reach-EscalatedOnce (moved {s'} {s''} t u r g m e n) all =
      let before = Reach-EscalatedOnce r all in
      Stored-put EscalatedOnce u s' s'' e before (move-EscalatedOnce m (before t.id t g))
  Reach-EscalatedOnce (created {s'} {s''} t r i l v e n) all =
      Stored-put EscalatedOnce t s' s'' e (Reach-EscalatedOnce r all)
        (record { at_most_once = omega arith; none_before = λ _. l })

  -- Ids are given out in order.
  abbrev pub IsFresh : Clocks T → Type 0
  IsFresh s = (k : ℕ) (t : Timer) → get k s.timers ≡ some t → k < s.next_id

  pub Reach-IsFresh : {s s' : Clocks T} → Reach s s' → IsFresh s → IsFresh s'
  Reach-IsFresh (here {s'} e n) fresh k t g = omega (arith, n, fresh k t (rw (← e) g))
  Reach-IsFresh (moved {s'} {s''} t u r g m e n) fresh k v h =
      let before = Reach-IsFresh r fresh in
      elim (Bool-cases (u.id == k)) [
        | inl same ↦ omega (arith, n, before t.id t g, (==_iff u.id k).0 same, (kept m).same_timer)
        | inr other ↦
            let old : get k s'.timers ≡ some v = ground (arith, get-put k u s'.timers) in
            omega (arith, n, before k v old)
      ]
  Reach-IsFresh (created {s'} {s''} t r i l v e n) fresh k w h =
      let before = Reach-IsFresh r fresh in
      elim (Bool-cases (t.id == k)) [
        | inl same ↦ omega (arith, n, i, (==_iff t.id k).0 same)
        | inr other ↦
            let old : get k s'.timers ≡ some w = ground (arith, get-put k t s'.timers) in
            omega (arith, n, before k w old)
      ]

  -- A completed or cancelled timer stays as it is.
  pub Reach-ended :
      {s s' : Clocks T} (k : ℕ) (t : Timer)
      → Reach s s'
      → IsFresh s
      → get k s.timers ≡ some t
      → is_live t.status ≡ false
      → get k s'.timers ≡ some t
  Reach-ended k t (here {s'} e n) fresh g ended = rw e g
  Reach-ended k t (moved {s'} {s''} v u r h m e n) fresh g ended =
      let before = Reach-ended k t r fresh g ended in
      elim (Bool-cases (u.id == k)) [
        | inl same ↦
            let this : v.id ≡ k = omega (arith, (==_iff u.id k).0 same, (kept m).same_timer) in
            let both : some v ≡ some t = sym h ∙ ap (λ (i : ℕ). get i s'.timers) this ∙ before in
            ground (arith, live_before m)
        | inr other ↦ ground (arith, get-put k u s'.timers)
      ]
  Reach-ended k t (created {s'} {s''} u r i l v e n) fresh g ended =
      let before = Reach-ended k t r fresh g ended in
      let known = Reach-IsFresh r fresh k t before in
      elim (Bool-cases (u.id == k)) [
        | inl same ↦ absurd (omega (arith, i, (==_iff u.id k).0 same, known))
        | inr other ↦ ground (arith, get-put k u s'.timers)
      ]

  -- The schema holds of every stored timer, if it did.
  pub Reach-IsValid :
      {s s' : Clocks T}
      → Reach s s'
      → Stored (λ t. validate_timer t ≡ true) s
      → Stored (λ t. validate_timer t ≡ true) s'
  Reach-IsValid {s} (here {s'} e n) all = Stored-same (λ t. validate_timer t ≡ true) s s' e all
  Reach-IsValid (moved {s'} {s''} t u r g m e n) all =
      let before = Reach-IsValid r all in
      Stored-put (λ t. validate_timer t ≡ true) u s' s'' e before
        (Kept-valid (kept m) (before t.id t g))
  Reach-IsValid (created {s'} {s''} t r i l v e n) all =
      Stored-put (λ t. validate_timer t ≡ true) t s' s'' e (Reach-IsValid r all) v
