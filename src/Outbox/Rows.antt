-- ===== src/Outbox/Rows.antt =====
-- services/case-service/src/models/DomainEvent.js and outbox/outbox.repository.js: the rows of the
-- outbox and their updates. A row is told by its event id, which is unique.
use udyog_setu.Common.{
  ℕ, zero, suc, String, Option, none, some, Bool, true, false, ◌&&◌, ◌||◌, List, [], ◌∷◌, ◌-◌,
  if◌then◌else◌, ◌==◌, leb, ltb,
}
use udyog_setu.Store.{Collection}

pub data PublishStatus : Type 0 where
  pending publishing published failed dead_lettered : PublishStatus

abbrev pub status_index : PublishStatus → ℕ
status_index pending = 0
status_index publishing = 1
status_index published = 2
status_index failed = 3
status_index dead_lettered = 4

abbrev pub same_status : PublishStatus → PublishStatus → Bool
same_status a b = status_index a == status_index b

pub record Row : Type 0 where
  pub event_id : ℕ
  pub event_name : String
  pub publish_status : PublishStatus
  pub publish_attempts : ℕ
  pub next_publish_at : ℕ
  pub published_at : Option ℕ
  pub failure_reason : Option String
  pub locked_at : Option ℕ
  pub locked_by : Option String
  pub created_at : ℕ

abbrev pub row_id : Row → ℕ
row_id r = r.event_id

-- `publishStatus: { $in: ['pending', 'failed'] }`.
abbrev pub is_waiting : Row → Bool
is_waiting r = same_status r.publish_status pending || same_status r.publish_status failed

abbrev unlocked : Option ℕ → Bool
unlocked none = true
unlocked (some at) = false

abbrev earlier : Row → Row → Bool
earlier a b =
    ltb a.next_publish_at b.next_publish_at
    || (a.next_publish_at == b.next_publish_at) && leb a.created_at b.created_at

insert : Row → List Row → List Row
insert r [] = r ∷ []
insert r (s ∷ rs) = let rest = insert r rs in if earlier r s then r ∷ s ∷ rs else s ∷ rest

-- `.sort({ nextPublishAt: 1, createdAt: 1 })`.
unfoldable pub in_order : List Row → List Row
unfolding insert
in_order [] = []
in_order (r ∷ rs) = insert r (in_order rs)

-- `.limit(n)`.
unfoldable pub limit : ℕ → List Row → List Row
limit zero rs = []
limit (suc n) [] = []
limit (suc n) (r ∷ rs) = r ∷ limit n rs

unfoldable pub locked_row : ℕ → String → Row → Row
locked_row now worker r = record r {
  publish_status = publishing;
  locked_at = some now;
  locked_by = some worker;
}

unfoldable pub published_row : ℕ → Row → Row
published_row now r = record r {
  publish_status = published;
  published_at = some now;
  locked_at = none;
  locked_by = none;
  publish_attempts = suc r.publish_attempts;
}

unfoldable pub failed_row : String → ℕ → Row → Row
failed_row message next r = record r {
  publish_status = failed;
  failure_reason = some message;
  next_publish_at = next;
  locked_at = none;
  locked_by = none;
  publish_attempts = suc r.publish_attempts;
}

unfoldable pub dead_row : String → Row → Row
dead_row message r = record r {
  publish_status = dead_lettered;
  failure_reason = some message;
  locked_at = none;
  locked_by = none;
}

unfoldable pub unlocked_row : ℕ → Row → Row
unlocked_row now r = record r {
  publish_status = failed;
  locked_at = none;
  locked_by = none;
  next_publish_at = now;
}

-- `lockedAt: { $lte: staleBefore }`, which no missing time satisfies.
abbrev before : Option ℕ → ℕ → Bool
before none at = false
before (some t) at = leb t at

abbrev pub is_stale : ℕ → ℕ → Row → Bool
is_stale now timeout r =
    same_status r.publish_status publishing && before r.locked_at (now - timeout)

module _ (R : Collection Row row_id) where
  open R use {Docs, get, put, find}

  abbrev pub update : (Row → Row) → Option Row → Docs → Docs
  update f none rows = rows
  update f (some r) rows = put (f r) rows

  unfoldable pub find_pending_for_publish : ℕ → ℕ → Docs → List Row
  find_pending_for_publish now n rows = limit n (
      in_order (find (λ r. is_waiting r && leb r.next_publish_at now && unlocked r.locked_at) rows))

  abbrev pub waiting : Option Row → Option Row
  waiting none = none
  waiting (some r) = if is_waiting r then some r else none

  abbrev pub locked_result : ℕ → String → Option Row → Option Row
  locked_result now worker none = none
  locked_result now worker (some r) = some (locked_row now worker r)

  -- `none` where the row is no longer waiting.
  unfoldable pub mark_publishing : ℕ → String → ℕ → Docs → Docs × Option Row
  mark_publishing now worker id rows =
      let found = waiting (get id rows) in
      (update (locked_row now worker) found rows, locked_result now worker found)

  unfoldable pub mark_published : ℕ → ℕ → Docs → Docs
  mark_published now id rows = update (published_row now) (get id rows) rows

  unfoldable pub mark_failed : String → ℕ → ℕ → Docs → Docs
  mark_failed message next id rows = update (failed_row message next) (get id rows) rows

  unfoldable pub mark_dead_lettered : String → ℕ → Docs → Docs
  mark_dead_lettered message id rows = update (dead_row message) (get id rows) rows

  unfoldable pub unlock_all : ℕ → List Row → Docs → Docs
  unlock_all now [] rows = rows
  unlock_all now (r ∷ rs) rows = unlock_all now rs (put (unlocked_row now r) rows)

  unfoldable pub unlock_stale_publishing_locks : ℕ → ℕ → Docs → Docs
  unlock_stale_publishing_locks now timeout rows =
      unlock_all now (find (is_stale now timeout) rows) rows
