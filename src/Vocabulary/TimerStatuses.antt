-- ===== src/Vocabulary/TimerStatuses.antt =====
-- packages/shared/src/constants/sla-timer-status.constants.js: the statuses of an SLA timer.
use Prim.Native.Nat.{ℕ}
use mathlib.Core.Bool.{Bool}
use mathlib.Core.List.{List}
use udyog_setu.Common.{◌==◌, any, true, ◌≡◌, arith}

pub data TimerStatus : Type 0 where
  running : TimerStatus
  paused : TimerStatus
  warning : TimerStatus
  breached : TimerStatus
  escalated : TimerStatus
  completed : TimerStatus
  cancelled : TimerStatus

-- The position in the enumeration, by which two statuses are compared.
abbrev pub index : TimerStatus → ℕ
index running = 0
index paused = 1
index warning = 2
index breached = 3
index escalated = 4
index completed = 5
index cancelled = 6

-- `a === b`.
abbrev pub same : TimerStatus → TimerStatus → Bool
same a b = index a == index b

-- `[...].includes(s)`.
abbrev pub one_of : List TimerStatus → TimerStatus → Bool
one_of ts s = any (λ t. same t s) ts

pub same_sound : (a b : TimerStatus) → same a b ≡ true → a ≡ b
same_sound running b h = ground arith
same_sound _ b h = ground arith
