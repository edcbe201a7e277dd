-- ===== src/Audit/Events.antt =====
-- services/audit-service/src/services/audit-hash.service.js over the documents of
-- models/AuditEvent.js. An object of free form is its JSON text. `JSON.stringify` and the SHA-256 of
-- Node's crypto are parameters; a previous hash that is null is `none`.
use Prim.Native.String.{◌++◌}
use udyog_setu.Common.{
  ℕ, String, Option, none, some, Bool, List, [], ◌∷◌, keep, truthy, str_eq, leb, length, is_empty,
  if◌then◌else◌,
}

pub record Actor : Type 0 where
  pub actor_type : Option String
  pub actor_id : Option String
  pub role : Option String
  pub display_name : Option String
  pub service_name : Option String
  -- The fields beside these, as text.
  pub others : Option String

pub record Outcome : Type 0 where
  pub success : Option Bool
  pub failure : Option Bool
  pub denied : Option Bool

pub record Event : Type 0 where
  pub event_id : String
  pub audit_sequence : ℕ
  pub actor : Actor
  pub action : String
  pub resource_type : String
  pub resource_id : String
  pub case_id : Option String
  pub universal_case_id : Option String
  pub task_id : Option String
  pub grievance_id : Option String
  pub department_code : Option String
  pub correlation_id : Option String
  pub request_id : Option String
  pub trace_id : Option String
  pub ip_address_hash : Option String
  pub user_agent_hash : Option String
  pub before : Option String
  pub after : Option String
  pub reason : Option String
  pub outcome : Outcome
  pub metadata : Option String
  pub previous_hash : Option String
  pub current_hash : String
  pub hash_algorithm : String
  pub created_at : ℕ

-- The object that is hashed.
pub record Canonical : Type 0 where
  pub event_id : String
  pub audit_sequence : ℕ
  pub actor : Actor
  pub action : Option String
  pub resource_type : Option String
  pub resource_id : Option String
  pub case_id : Option String
  pub universal_case_id : Option String
  pub task_id : Option String
  pub grievance_id : Option String
  pub department_code : Option String
  pub correlation_id : Option String
  pub request_id : Option String
  pub trace_id : Option String
  pub reason : Option String
  pub outcome : Outcome
  pub metadata : Option String
  pub created_at : ℕ

pub record Crypto : Type 0 where
  -- `JSON.stringify`.
  pub stringify : Canonical → String
  -- `createHash('sha256').update(text).digest('hex')`.
  pub digest : String → String
  -- `trim`, which Mongoose applies to the texts of a schema that says so.
  pub trim : String → String

-- `a || b` and `a || null` on texts.
abbrev pub or_else : Option String → Option String → Option String
or_else a b = if truthy a then a else b

abbrev pub or_null : Option String → Option String
or_null a = or_else a none

-- `a || ''`.
abbrev pub or_empty : Option String → String
or_empty none = ""
or_empty (some s) = s

unfoldable pub canonical : Event → Canonical
canonical e = record {
  event_id = e.event_id;
  audit_sequence = e.audit_sequence;
  actor = e.actor;
  action = or_null (some e.action);
  resource_type = or_null (some e.resource_type);
  resource_id = or_null (some e.resource_id);
  case_id = or_null e.case_id;
  universal_case_id = or_null e.universal_case_id;
  task_id = or_null e.task_id;
  grievance_id = or_null e.grievance_id;
  department_code = or_null e.department_code;
  correlation_id = or_null e.correlation_id;
  request_id = or_null e.request_id;
  trace_id = or_null e.trace_id;
  reason = or_null e.reason;
  outcome = e.outcome;
  metadata = or_null e.metadata;
  created_at = e.created_at;
}

pub record Issue : Type 0 where
  pub event_id : String
  pub audit_sequence : ℕ
  pub expected : String
  pub actual : String

pub record Verdict : Type 0 where
  pub ok : Bool
  pub checked : ℕ
  pub issues : List Issue

-- `.sort({ auditSequence: 1 })`.
abbrev pub insert_by_sequence : Event → List Event → List Event
insert_by_sequence e [] = e ∷ []
insert_by_sequence e (x ∷ xs) =
    let later = insert_by_sequence e xs in
    if leb e.audit_sequence x.audit_sequence then e ∷ x ∷ xs else x ∷ later

abbrev pub sort_by_sequence : List Event → List Event
sort_by_sequence [] = []
sort_by_sequence (e ∷ es) = insert_by_sequence e (sort_by_sequence es)

module _ (crypto : Crypto) where
  unfoldable pub canonicalise_audit_payload : Event → String
  canonicalise_audit_payload e = crypto.stringify (canonical e)

  unfoldable pub compute_audit_hash : String → Option String → String
  compute_audit_hash payload previous_hash =
      crypto.digest (or_empty previous_hash ++ ("|" ++ payload))

  unfoldable pub verify_audit_hash : Event → Bool
  verify_audit_hash e =
      str_eq (compute_audit_hash (canonicalise_audit_payload e) (or_null e.previous_hash))
        e.current_hash

  -- The loop of `verifyAuditChain`.
  unfoldable pub chain_issues : Option String → List Event → List Issue
  chain_issues previous_hash [] = []
  chain_issues previous_hash (e ∷ es) =
      let expected = compute_audit_hash (canonicalise_audit_payload e) previous_hash in
      let rest = chain_issues (some e.current_hash) es in
      if str_eq e.current_hash expected
      then rest
      else record {
        event_id = e.event_id;
        audit_sequence = e.audit_sequence;
        expected = expected;
        actual = e.current_hash;
      }
        ∷ rest

  unfoldable pub verify_audit_chain : (Event → Bool) → List Event → Verdict
  verify_audit_chain filter log =
      let events = sort_by_sequence (keep filter log) in
      let issues = chain_issues none events in
      record { ok = is_empty issues; checked = length events; issues = issues }
