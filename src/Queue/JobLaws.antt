-- ===== src/Queue/JobLaws.antt =====
-- What the jobs in the database keep from being handled.
use udyog_setu.Common.{ℕ, suc, List, [], ◌∷◌}
use udyog_setu.Queue.Worker.{Sent, acked, requeued, retried, dead, handled}

-- The times that an adapter was called.
abbrev pub calls : List Sent → ℕ
calls [] = 0
calls (handled id ∷ es) = suc (calls es)
calls (acked ∷ es) = calls es
calls (requeued ∷ es) = calls es
calls (retried m d ∷ es) = calls es
calls (dead id r ∷ es) = calls es
