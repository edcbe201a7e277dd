-- ===== src/Gateway/ReplayLaws.antt =====
-- What an idempotency key guarantees.
use udyog_setu.Common.{
  ℕ, String, Option, none, some, true, List, ◌+◌, ◌*◌, ◌<◌, ◌≡◌, arith, str_eq, eq_iff,
  if◌then◌else◌,
}
use udyog_setu.Gateway.Idempotency.{
  Key, same_key, Entry, Config, Table, find_entry, fresh_entry, reuse, begin_record, answered,
  complete_record, replay, conflict_409, accepted_202, forward, reply_of, finish_request,
}

abbrev pub self : Table → List Entry
self t = t.entries

same_key_refl : (k : Key) → same_key k k ≡ true
same_key_refl k = ground (
  arith,
  eq_iff k.key k.key,
  eq_iff k.method k.method,
  eq_iff k.route k.route,
  eq_iff k.actor_id k.actor_id,
)

-- The first request under a key is forwarded. Once its response, below 500, has been recorded, the same
-- request gets that response again, at any later time at which its record is kept, and the records stay
-- as they are.
pub response_is_replayed :
    (config : Config) (now later status : ℕ) (k : Key) (body : String)
    (first_id second_id answer : Option String) (t : Table)
    → find_entry k t.entries ≡ none
    → 0 < status
    → status < 500
    → let begun = begin_record config now k body first_id self t in
      let done = finish_request (some t.next_id) status answer begun.0 in
      let again = begin_record config later k body second_id self done in
      (reply_of begun.1 begun.2 ≡ forward (some t.next_id))
      × (reply_of again.1 again.2 ≡ replay status answer)
      × (again.0 ≡ done)
unfolding begin_record fresh_entry finish_request complete_record answered reuse reply_of
response_is_replayed config now later status k body first_id second_id answer t new some_status
      below =
    ground (arith, same_key_refl k, eq_iff (config.hash body) (config.hash body))

-- Until the lock of the first request runs out, and until it is finished, no second request under its
-- key is forwarded: the same body is told that it is being processed, another body that it conflicts.
pub no_second_forward_while_locked :
    (config : Config) (now later : ℕ) (k : Key) (body other : String)
    (first_id second_id : Option String) (t : Table)
    → find_entry k t.entries ≡ none
    → later < now + config.lock_seconds * 1000
    → let begun = begin_record config now k body first_id self t in
      let again = begin_record config later k other second_id self begun.0 in
      (again.0 ≡ begun.0)
      × (reply_of again.1 again.2
          ≡ (if str_eq (config.hash body) (config.hash other) then accepted_202 else conflict_409))
unfolding begin_record fresh_entry reuse reply_of
no_second_forward_while_locked config now later k body other first_id second_id t new early =
    ground (arith, same_key_refl k)
