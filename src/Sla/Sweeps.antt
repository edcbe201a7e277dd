-- ===== src/Sla/Sweeps.antt =====
-- What one sweep of `evaluateSlaTimers` leaves in the store.
use udyog_setu.Common.{
  ℕ, Option, none, some, Bool, true, false, not, ◌&&◌, List, [], ◌∷◌, ◌≡◌, inl, inr, sym, ap, ◌≤◌,
  leb, arith, Option-cases, Bool-cases, ◌==◌, ==_iff, Memᴰ, subst,
}
use udyog_setu.Vocabulary.TimerStatuses.{TimerStatus}
use udyog_setu.Vocabulary.TimerStatuses
use udyog_setu.Store.{Collection}
use udyog_setu.Sla.Timer.{Timer, timer_id}
use udyog_setu.Sla.Clocks.{
  Clocks, change, is_pausable, warned, breached, can_breach, mark_warning, mark_breached, mark_all,
  find_warnings, find_breached, evaluate_sla_timers, emit_sla_event,
}

-- Neither breached nor ended.
abbrev pub open_timer : Option Timer → Bool
open_timer none = false
open_timer (some t) = can_breach t

abbrev pub breached_timer : Option Timer → Bool
breached_timer none = false
breached_timer (some t) = TimerStatuses.same t.status TimerStatus.breached

module _ (T : Collection Timer timer_id) where
  open T use {get, put, find, find_complete, get-put, get-id}

  warn-open :
      (k id : ℕ) (s : Clocks T)
      → open_timer (get k s.timers) ≡ true
      → open_timer (get k (mark_warning T id s).timers) ≡ true
  unfolding mark_warning change emit_sla_event warned
  warn-open k id s h = elim (Option-cases (get id s.timers)) [
    | inl missing ↦ ground arith
    | inr (u, found) ↦ ground (arith, get-put k (warned u) s.timers)
  ]

  breach-breached :
      (now k id : ℕ) (s : Clocks T)
      → breached_timer (get k s.timers) ≡ true
      → breached_timer (get k (mark_breached T now id s).timers) ≡ true
  unfolding mark_breached change emit_sla_event breached
  breach-breached now k id s h = elim (Option-cases (get id s.timers)) [
    | inl missing ↦ ground arith
    | inr (u, found) ↦ ground (arith, get-put k (breached now u) s.timers)
  ]

  breach-hit :
      (now k : ℕ) (s : Clocks T)
      → open_timer (get k s.timers) ≡ true
      → breached_timer (get k (mark_breached T now k s).timers) ≡ true
  unfolding mark_breached change emit_sla_event breached
  breach-hit now k s h = elim (Option-cases (get k s.timers)) [
    | inl missing ↦ ground arith
    | inr (u, found) ↦
        ground (arith, get-put k (breached now u) s.timers, get-id k s.timers u found)
  ]

  breach-miss :
      (now k id : ℕ) (s : Clocks T)
      → (id == k) ≡ false
      → open_timer (get k s.timers) ≡ true
      → open_timer (get k (mark_breached T now id s).timers) ≡ true
  unfolding mark_breached change emit_sla_event breached
  breach-miss now k id s other h = elim (Option-cases (get id s.timers)) [
    | inl missing ↦ ground arith
    | inr (u, found) ↦
        ground (arith, get-put k (breached now u) s.timers, get-id id s.timers u found)
  ]

  warns-open :
      (k : ℕ) (ts : List Timer) (s : Clocks T)
      → open_timer (get k s.timers) ≡ true
      → open_timer (get k (mark_all T (mark_warning T) ts s).timers) ≡ true
  unfolding mark_all
  warns-open k [] s h = h
  warns-open k (t ∷ ts) s h = warns-open k ts (mark_warning T t.id s) (warn-open k t.id s h)

  breaches-breached :
      (now k : ℕ) (ts : List Timer) (s : Clocks T)
      → breached_timer (get k s.timers) ≡ true
      → breached_timer (get k (mark_all T (mark_breached T now) ts s).timers) ≡ true
  unfolding mark_all
  breaches-breached now k [] s h = h
  breaches-breached now k (t ∷ ts) s h =
      breaches-breached now k ts (mark_breached T now t.id s) (breach-breached now k t.id s h)

  breaches-hit :
      (now : ℕ) (t : Timer) (ts : List Timer) (s : Clocks T)
      → Memᴰ t ts
      → open_timer (get t.id s.timers) ≡ true
      → breached_timer (get t.id (mark_all T (mark_breached T now) ts s).timers) ≡ true
  unfolding mark_all
  breaches-hit now t [] s m h = elim m [ ]
  breaches-hit now t (u ∷ ts) s (Memᴰ.head e) h =
      let same : u.id ≡ t.id = ap timer_id (sym e) in
      breaches-breached now t.id ts (mark_breached T now u.id s) (
        subst (λ (i : ℕ). breached_timer (get t.id (mark_breached T now i s).timers) ≡ true)
          (sym same) (breach-hit now t.id s h))
  breaches-hit now t (u ∷ ts) s (Memᴰ.tail m) h = elim (Bool-cases (u.id == t.id)) [
    | inl same ↦ breaches-breached now t.id ts (mark_breached T now u.id s) (
        subst (λ (i : ℕ). breached_timer (get t.id (mark_breached T now i s).timers) ≡ true)
          (sym ((==_iff u.id t.id).0 same)) (breach-hit now t.id s h))
    | inr other ↦
        breaches-hit now t ts (mark_breached T now u.id s) m (breach-miss now t.id u.id s other h)
  ]

  -- A stored timer that runs or warns, is not deleted and is due by now is breached after the sweep, also
  -- where the sweep's warnings come first.
  pub evaluate_sla_timers-leaves_none_overdue :
      (now : ℕ) (s : Clocks T) (t : Timer)
      → get t.id s.timers ≡ some t
      → is_pausable t.status ≡ true
      → t.is_deleted ≡ false
      → t.due_at ≤ now
      → breached_timer (get t.id (evaluate_sla_timers T now s).0.timers) ≡ true
  unfolding evaluate_sla_timers find_breached
  evaluate_sla_timers-leaves_none_overdue now s t stored runs kept due =
      breaches-hit now t (find_breached T now s)
        (mark_all T (mark_warning T) (find_warnings T now s) s)
        (find_complete (λ u. is_pausable u.status && leb u.due_at now && not u.is_deleted) s.timers
          t.id t stored (ground arith))
        (warns-open t.id (find_warnings T now s) s (ground arith))
