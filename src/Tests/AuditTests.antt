-- ===== src/Tests/AuditTests.antt =====
-- The audit log at concrete events.
use Prim.Native.String.{◌++◌}
use text.Mathlib.TextLemmas.{length-append, append_cancel_left, append-eq-nil_iff}
use Prim.Native.String.{count}
use udyog_setu.Common.{
  ap, String, none, some, true, false, List, [], ◌∷◌, ◌≡◌, ◌≢◌, ◌↔◌, refl, map, All, str_eq,
  Bool-cases, inl, inr, if◌then◌else◌, arith, eq_iff,
}
use udyog_setu.Audit.Events.{
  Event, Crypto, chain_issues, canonicalise_audit_payload, verify_audit_chain, compute_audit_hash,
  canonical,
}
use udyog_setu.Audit.Log.{
  Input, Context, Call, stored_event, record_call, recorded, denied, empty_log, record_all,
  of_resource, event_payload, record_audit_event, next_audit_sequence, append_audit_event,
  find_latest_by_resource, record_access_denied,
}
use udyog_setu.Audit.ChainLaws.{resource_chain_verifies}
use udyog_setu.Audit.TamperLaws.{tampering_is_detected}
use udyog_setu.Audit.WholeLogLaws.{whole_log_never_verifies}

abbrev crypto : Crypto
crypto = record {
  stringify = λ c. elim c.reason [ none ↦ c.event_id | some r ↦ r ];
  digest = λ s. "sha256:" ++ s;
  trim = λ s. if str_eq s " late " then "late" else s;
}

trim_leaves_digest : (s : String) → crypto.trim (crypto.digest s) ≡ crypto.digest s
trim_leaves_digest s = elim (Bool-cases (str_eq ("sha256:" ++ s) " late ")) [
  | inr other ↦ rw other refl
  | inl same ↦ absurd (
      ground
        (arith, length-append "sha256:" s, ap count ((eq_iff ("sha256:" ++ s) " late ").0 same)))
]

digest_injective : (s t : String) → crypto.digest s ≡ crypto.digest t → s ≡ t
digest_injective s t h = append_cancel_left "sha256:" s t h

digest_filled : (s : String) → crypto.digest s ≢ ""
digest_filled s h =
    ground (arith, (eq_iff "sha256:" "").1 ((append-eq-nil_iff {p = "sha256:"} {q = s}).0 h).0)

abbrev context : Context
context = record {
  correlation_id = none;
  request_id = none;
  trace_id = none;
  now = 100;
  random_uuid = "e1";
}

abbrev of_task : String → Input
of_task id = record {
  event_id = none;
  actor = none;
  action = "task.approved";
  resource_type = "task";
  resource_id = id;
  case_id = none;
  universal_case_id = none;
  task_id = none;
  grievance_id = none;
  department_code = some "fire";
  correlation_id = none;
  request_id = none;
  trace_id = none;
  ip_address = none;
  user_agent = none;
  before = some "pending";
  after = some "approved";
  reason = none;
  outcome = none;
  metadata = none;
}

abbrev calls : List (Call × Input × Context)
calls =
    (recorded, of_task "1", context)
    ∷ (denied, of_task "2", context)
    ∷ (recorded, of_task "1", context)
    ∷ []

resource_chain_verifies_example :
    let verdict =
      verify_audit_chain crypto
        (of_resource "task" "1")
        (record_all crypto calls empty_log).events in
    (verdict.ok ≡ true) × (verdict.issues ≡ [])
unfolding event_payload stored_event canonical
resource_chain_verifies_example =
    resource_chain_verifies crypto calls "task" "1" trim_leaves_digest
      ((λ n p. refl), ((λ n p. refl), ((λ n p. refl), tt)))

-- One of the two events of the first task is checked, and then the other.
two_checked :
    (verify_audit_chain crypto
      (of_resource "task" "1")
      (record_all crypto calls empty_log).events).checked
    ≡ 2
unfolding verify_audit_chain record_audit_event next_audit_sequence append_audit_event event_payload
    find_latest_by_resource record_access_denied stored_event chain_issues compute_audit_hash
    canonicalise_audit_payload canonical
two_checked = refl

abbrev one_event : List Event
one_event = (record_all crypto ((recorded, of_task "1", context) ∷ []) empty_log).events

abbrev rewritten : Event → Event
rewritten e = record e { after = some "rejected" }

tampering_is_detected_example :
    (chain_issues crypto none (map rewritten one_event) ≡ [])
    ↔ All
        (λ e. canonicalise_audit_payload crypto (rewritten e) ≡ canonicalise_audit_payload crypto e)
        one_event
unfolding record_audit_event next_audit_sequence append_audit_event event_payload
    find_latest_by_resource chain_issues compute_audit_hash canonicalise_audit_payload canonical
    stored_event
tampering_is_detected_example =
    tampering_is_detected crypto rewritten none one_event digest_injective (λ e. refl) refl

whole_log_never_verifies_example :
    let log = record_all crypto ((recorded, of_task "1", context) ∷ []) empty_log in
    (verify_audit_chain crypto
      (λ e. true)
      (record_all crypto calls (record_call crypto recorded (of_task "2") context log)).events).ok
    ≡ false
unfolding record_audit_event next_audit_sequence append_audit_event event_payload
    find_latest_by_resource stored_event canonical
whole_log_never_verifies_example =
    whole_log_never_verifies crypto (recorded, of_task "1", context) []
      (recorded, of_task "2", context) calls digest_injective trim_leaves_digest digest_filled
      (λ n p. refl) refl

-- A reason with blanks is hashed as it is given and stored trimmed, and its event does not verify.
blanks_break_the_chain :
    (verify_audit_chain crypto
      (of_resource "task" "1")
      (record_audit_event crypto
        (record (of_task "1") { reason = some " late " })
        context
        empty_log).events).ok
    ≡ false
unfolding verify_audit_chain record_audit_event next_audit_sequence append_audit_event event_payload
    find_latest_by_resource chain_issues compute_audit_hash canonicalise_audit_payload canonical
    stored_event
blanks_break_the_chain = refl
