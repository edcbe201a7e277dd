-- ===== src/Tests/GatewayTests.antt =====
-- The gateway at concrete requests.
use udyog_setu.Common.{String, some, none, [], ◌≡◌, refl, arith, str_eq, if◌then◌else◌}
use udyog_setu.Gateway.Auth.{
  Request, Tokens, bearer, valid, expired, invalid, require_service_auth, system_principal,
  carrying,
}
use udyog_setu.Gateway.AuthLaws.{ServiceProof, require_service_auth_sound}
use udyog_setu.Gateway.Idempotency.{
  Config, Key, Table, begin_record, finish_request, reply_of, forward, replay, accepted_202,
  conflict_409,
}
use udyog_setu.Gateway.ReplayLaws.{self, response_is_replayed, no_second_forward_while_locked}

abbrev tokens : Tokens
tokens = record {
  verify_user = λ t. invalid;
  verify_service = λ t.
      if str_eq t "good"
      then valid (record { sub = "sla-worker"; service_name = none })
      else expired;
  internal_service_token = "secret";
}

abbrev call : Request
call = record {
  authorization = bearer "good";
  service_token = none;
  webhook = none;
  user = none;
  service_user = none;
  actor = none;
}

require_service_auth_sound_example :
    ServiceProof tokens call
    × ((id : String) × (name : String) × (carrying (system_principal "sla-worker" "sla-worker") call
          ≡ carrying (system_principal id name) call))
unfolding require_service_auth
require_service_auth_sound_example =
    require_service_auth_sound tokens call
      (carrying (system_principal "sla-worker" "sla-worker") call) refl

abbrev config : Config
config = record { lock_seconds = 30; ttl_seconds = 86400; hash = λ s. s }

abbrev index : Key
index = record { key = "k1"; method = "POST"; route = "/cases"; actor_id = "u1" }

abbrev blank : Table
blank = record { entries = []; next_id = 0 }

response_is_replayed_example :
    let begun = begin_record config 0 index "{}" none self blank in
    let done = finish_request (some 0) 201 (some "created") begun.0 in
    let again = begin_record config 99 index "{}" none self done in
    (reply_of begun.1 begun.2 ≡ forward (some 0))
    × (reply_of again.1 again.2 ≡ replay 201 (some "created"))
    × (again.0 ≡ done)
response_is_replayed_example =
    response_is_replayed config 0 99 201 index "{}" none none (some "created") blank refl
      (omega arith) (omega arith)

no_second_forward_while_locked_example :
    let begun = begin_record config 0 index "{}" none self blank in
    let again = begin_record config 99 index "[]" none self begun.0 in
    (again.0 ≡ begun.0)
    × (reply_of again.1 again.2
        ≡ (if str_eq (config.hash "{}") (config.hash "[]") then accepted_202 else conflict_409))
no_second_forward_while_locked_example =
    no_second_forward_while_locked config 0 99 index "{}" "[]" none none blank refl (omega arith)
