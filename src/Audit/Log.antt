-- ===== src/Audit/Log.antt =====
-- services/audit-service/src/services/audit.service.js, the recording operations, over
-- repositories/audit-event.repository.js. The time, the random id and the hash of an address are
-- given to the operations; a log is its events, the latest insertion first, with the counter.
use udyog_setu.Common.{
  ℕ, suc, String, Option, none, some, Bool, true, false, ◌&&◌, List, [], ◌∷◌, str_eq, truthy, leb,
  if◌then◌else◌,
}
use udyog_setu.Audit.Events.{
  Actor, Outcome, Event, Crypto, or_else, or_null, canonicalise_audit_payload, compute_audit_hash,
}

pub record Input : Type 0 where
  pub event_id : Option String
  pub actor : Option Actor
  pub action : String
  pub resource_type : String
  pub resource_id : String
  pub case_id : Option String
  pub universal_case_id : Option String
  pub task_id : Option String
  pub grievance_id : Option String
  pub department_code : Option String
  pub correlation_id : Option String
  pub request_id : Option String
  pub trace_id : Option String
  pub ip_address : Option String
  pub user_agent : Option String
  pub before : Option String
  pub after : Option String
  pub reason : Option String
  pub outcome : Option Outcome
  pub metadata : Option String

-- The context of a call, with the time and the id that the call draws.
pub record Context : Type 0 where
  pub correlation_id : Option String
  pub request_id : Option String
  pub trace_id : Option String
  pub now : ℕ
  pub random_uuid : String

pub record Log : Type 0 where
  pub events : List Event
  pub sequence : ℕ

abbrev pub empty_log : Log
empty_log = record { events = []; sequence = 0 }

unfoldable pub next_audit_sequence : Log → Log × ℕ
next_audit_sequence log = (record log { sequence = suc log.sequence }, suc log.sequence)

abbrev pub of_resource : String → String → Event → Bool
of_resource type id e = str_eq e.resource_type type && str_eq e.resource_id id

-- `.sort({ auditSequence: -1 })`, its first document.
abbrev pub latest : (Event → Bool) → List Event → Option Event
latest p [] = none
latest p (e ∷ es) =
    let older = latest p es in
    if p e
    then elim older [
      | none ↦ some e
      | some x ↦ if leb x.audit_sequence e.audit_sequence then some e else some x
    ]
    else older

unfoldable pub find_latest_by_resource : String → String → Log → Option Event
find_latest_by_resource type id log = latest (of_resource type id) log.events

abbrev pub current_hash_of : Option Event → Option String
current_hash_of none = none
current_hash_of (some e) = or_null (some e.current_hash)

abbrev pub actor_or_system : Option Actor → Actor
actor_or_system (some a) = a
actor_or_system none = record {
  actor_type = some "system";
  actor_id = some "unknown";
  role = some "system";
  display_name = none;
  service_name = some "unknown";
  others = none;
}

abbrev pub outcome_or_success : Option Outcome → Outcome
outcome_or_success (some o) = o
outcome_or_success none = record { success = some true; failure = some false; denied = some false }

abbrev pub text_or : String → Option String → String
text_or other none = other
text_or other (some s) = if truthy (some s) then s else other

abbrev pub metadata_or_empty : Option String → Option String
metadata_or_empty none = some "{}"
metadata_or_empty (some m) = some m

abbrev pub hashed : (String → String) → Option String → Option String
hashed hash_safe none = none
hashed hash_safe (some s) = if truthy (some s) then some (hash_safe s) else none

-- The payload before its hash is known; the hash is not among the fields that are hashed.
unfoldable pub event_payload : (String → String) → Context → Input → ℕ → Option String → Event
event_payload hash_safe context input sequence previous_hash = record {
  event_id = text_or context.random_uuid input.event_id;
  audit_sequence = sequence;
  actor = actor_or_system input.actor;
  action = input.action;
  resource_type = input.resource_type;
  resource_id = input.resource_id;
  case_id = or_null input.case_id;
  universal_case_id = or_null input.universal_case_id;
  task_id = or_null input.task_id;
  grievance_id = or_null input.grievance_id;
  department_code = or_null input.department_code;
  correlation_id = or_else input.correlation_id (or_null context.correlation_id);
  request_id = or_else input.request_id (or_null context.request_id);
  trace_id = or_else input.trace_id (or_null context.trace_id);
  ip_address_hash = hashed hash_safe input.ip_address;
  user_agent_hash = hashed hash_safe input.user_agent;
  before = or_null input.before;
  after = or_null input.after;
  reason = or_null input.reason;
  outcome = outcome_or_success input.outcome;
  metadata = metadata_or_empty input.metadata;
  previous_hash = previous_hash;
  current_hash = "";
  hash_algorithm = "sha256";
  created_at = context.now;
}

-- What the schema makes of a new document: texts are trimmed, the fields of the actor and of the outcome
-- that are missing get their defaults, and unknown fields of the actor are dropped.
abbrev pub trimmed : (String → String) → Option String → Option String
trimmed trim none = none
trimmed trim (some s) = some (trim s)

abbrev pub or_default {ℓ} : {A : Type ℓ} → A → Option A → Option A
or_default d none = some d
or_default d (some x) = some x

abbrev pub stored_actor : (String → String) → Actor → Actor
stored_actor trim a = record {
  actor_type = trimmed trim (or_default "user" a.actor_type);
  actor_id = trimmed trim a.actor_id;
  role = trimmed trim a.role;
  display_name = trimmed trim a.display_name;
  service_name = trimmed trim a.service_name;
  others = none;
}

abbrev pub stored_outcome : Outcome → Outcome
stored_outcome o = record {
  success = or_default true o.success;
  failure = or_default false o.failure;
  denied = or_default false o.denied;
}

unfoldable pub stored_event : (String → String) → Event → Event
stored_event trim e = record e {
  actor = stored_actor trim e.actor;
  case_id = trimmed trim e.case_id;
  universal_case_id = trimmed trim e.universal_case_id;
  task_id = trimmed trim e.task_id;
  grievance_id = trimmed trim e.grievance_id;
  department_code = trimmed trim e.department_code;
  correlation_id = trimmed trim e.correlation_id;
  request_id = trimmed trim e.request_id;
  trace_id = trimmed trim e.trace_id;
  ip_address_hash = trimmed trim e.ip_address_hash;
  user_agent_hash = trimmed trim e.user_agent_hash;
  reason = trimmed trim e.reason;
  outcome = stored_outcome e.outcome;
  previous_hash = trimmed trim e.previous_hash;
  current_hash = trim e.current_hash;
  hash_algorithm = trim e.hash_algorithm;
}

unfoldable pub append_audit_event : (String → String) → Event → Log → Log
append_audit_event trim e log = record log { events = stored_event trim e ∷ log.events }

abbrev pub denied_input : Input → Input
denied_input input = record input {
  action = text_or "auth.access_denied" (some input.action);
  outcome = some (record { success = some false; failure = some false; denied = some true });
}

abbrev pub replayed_input : Input → Input
replayed_input input = record input { action = text_or "replay.requested" (some input.action) }

abbrev pub exported_input : Input → Input
exported_input input = record input {
  action = text_or "audit.export_requested" (some input.action);
}

module _ (crypto : Crypto) where
  unfoldable pub record_audit_event : Input → Context → Log → Log
  record_audit_event input context log =
      let (log, sequence) = next_audit_sequence log in
      let previous_hash =
        current_hash_of (find_latest_by_resource input.resource_type input.resource_id log) in
      let payload = event_payload crypto.digest context input sequence previous_hash in
      append_audit_event crypto.trim
        (record payload {
          current_hash =
              compute_audit_hash crypto (canonicalise_audit_payload crypto payload) previous_hash;
        })
        log

  unfoldable pub record_access_denied : Input → Context → Log → Log
  record_access_denied input = record_audit_event (denied_input input)

  unfoldable pub record_replay_attempt : Input → Context → Log → Log
  record_replay_attempt input = record_audit_event (replayed_input input)

  unfoldable pub record_export_attempt : Input → Context → Log → Log
  record_export_attempt input = record_audit_event (exported_input input)

-- The operations of the service that record, what each of them records, and the log that a sequence of
-- calls builds.
pub data Call : Type 0 where
  recorded denied replayed exported : Call

abbrev pub input_of : Call → Input → Input
input_of recorded input = input
input_of denied input = denied_input input
input_of replayed input = replayed_input input
input_of exported input = exported_input input

abbrev pub record_call : Crypto → Call → Input → Context → Log → Log
record_call crypto recorded = record_audit_event crypto
record_call crypto denied = record_access_denied crypto
record_call crypto replayed = record_replay_attempt crypto
record_call crypto exported = record_export_attempt crypto

abbrev pub record_all : Crypto → List (Call × Input × Context) → Log → Log
record_all crypto [] log = log
record_all crypto (call ∷ calls) log =
    record_all crypto calls (record_call crypto call.0 call.1 call.2 log)
