-- ===== src/Tests/AccountTests.antt =====
-- Accounts at concrete users and sessions.
use udyog_setu.Common.{
  ℕ, String, none, some, true, List, [], ◌∷◌, ◌≡◌, ◌≢◌, refl, arith, str_eq, eq_iff, ◌==◌,
  if◌then◌else◌, ltb,
}
use udyog_setu.Store.{logged}
use udyog_setu.Accounts.Users.{User, user_id, locked, sync_role_fields}
use udyog_setu.Accounts.Sessions.{Session, id_of_session, revoke_all_sessions, new_session}
use udyog_setu.Accounts.Login.{
  Crypto, Config, World, LoginContext, Claims, refresh, session, err, session_revoked,
  token_invalid, account_locked, ok, refresh_session, with_sessions, Grant, build_claims,
  otp_invalid, otp_attempts_exceeded, reset_token_invalid,
}
use udyog_setu.Accounts.Codes.{created_user, check_otp, reset_password, with_password}
use udyog_setu.Accounts.LockLaws.{Attempt, attempt, attempts, lock_never_ends}
use udyog_setu.Accounts.FailureLaws.{five_failures_lock_the_account}
use udyog_setu.Accounts.SessionLaws.{
  next_token, new_token, refresh_token_rotates, revoke_all_stops_tokens,
}
use udyog_setu.Accounts.CodeLaws.{
  guess_all, five_guesses_at_most, reset_token_works_once, reset_keeps_sessions,
}

abbrev investor : User
investor = created_user 7 "a@b.in" "secret"

abbrev claims : Claims
claims = record {
  sub = 7;
  email = "a@b.in";
  roles = "investor" ∷ [];
  primary_role = "investor";
  permissions = [];
  department_id = none;
  token_type = refresh;
  session_id = session 5;
  issued_at = 0;
}

abbrev crypto : Crypto
crypto = record {
  hash_token = λ t. t;
  compare_password = str_eq;
  hash_password = λ p. p;
  sign_access = λ c. "access";
  sign_refresh = λ c. if c.issued_at == 1 then "r1" else "r2";
  verify_refresh = λ now t. some claims;
}

abbrev config : Config
config = record {
  refresh_lifetime = 1000;
  reset_minutes = 30;
  verification_minutes = 60;
  otp_minutes = 5;
  password_ok = λ p. true;
}

abbrev context : LoginContext
context = record { existing_session_id = none; user_agent = none; ip_address = none }

abbrev open_one : Session
open_one = new_session 0 1000 5 7 "r0" none none

abbrev world : User → World (logged User user_id) (logged Session id_of_session)
world u = record { users = u ∷ []; sessions = open_one ∷ []; trail = [] }

abbrev try : Attempt
try = record {
  now = 999999999;
  session_id = 8;
  email = "a@b.in";
  password = "secret";
  context = context;
}

abbrev wrong_at : ℕ → Attempt
wrong_at now = record try { now = now; password = "guess" }

abbrev five : List Attempt
five = wrong_at 1 ∷ wrong_at 2 ∷ wrong_at 3 ∷ wrong_at 4 ∷ wrong_at 5 ∷ []

five_failures_lock_the_account_example :
    (attempt crypto config (logged User user_id) (logged Session id_of_session) try (
      attempts crypto config
        (logged User user_id)
        (logged Session id_of_session)
        five
        (world investor))).1
    ≡ err account_locked
unfolding created_user
five_failures_lock_the_account_example =
    five_failures_lock_the_account crypto config (logged User user_id)
      (logged Session id_of_session) 7 investor five try (world investor) refl
      (λ v stored owns.
        ground (arith, (logged User user_id).get-id v.id (world investor).users v stored, stored))
      refl refl ((refl, refl), ((refl, refl), ((refl, refl), ((refl, refl), ((refl, refl), tt)))))
      (omega arith) refl

abbrev shut : User
shut = record investor { status = locked; locked_until = some 10 }

lock_never_ends_example :
    let w =
      attempts crypto config
        (logged User user_id)
        (logged Session id_of_session)
        (try ∷ [])
        (world shut) in
    ((logged User user_id).get 7 w.users ≡ some shut)
    × ((g : Grant)
        → (attempt crypto config (logged User user_id) (logged Session id_of_session) try w).1
          ≡ ok g
        → g.user.id ≢ 7)
unfolding created_user
lock_never_ends_example =
    lock_never_ends crypto config (logged User user_id) (logged Session id_of_session) 7 shut
      (try ∷ []) try (world shut) refl refl

refresh_token_rotates_example :
    let r =
      refresh_session crypto config
        (logged User user_id)
        (logged Session id_of_session)
        1
        "r0"
        (world investor) in
    (new_token crypto config (logged User user_id) (logged Session id_of_session) r
      ≡ some (
          next_token crypto config
            (logged User user_id)
            (logged Session id_of_session)
            1
            investor
            5))
    × ((refresh_session crypto config
          (logged User user_id)
          (logged Session id_of_session)
          2
          "r0"
          r.0).1
        ≡ err token_invalid)
    × (new_token crypto config (logged User user_id) (logged Session id_of_session) (
          refresh_session crypto config
            (logged User user_id)
            (logged Session id_of_session)
            2
            (next_token crypto config
              (logged User user_id)
              (logged Session id_of_session)
              1
              investor
              5)
            r.0)
        ≡ some (
            next_token crypto config
              (logged User user_id)
              (logged Session id_of_session)
              2
              investor
              5))
unfolding new_session created_user build_claims
refresh_token_rotates_example =
    refresh_token_rotates crypto config (logged User user_id) (logged Session id_of_session) 1 2
      "r0" open_one investor (world investor) claims claims refl refl refl refl refl refl refl refl
      refl refl (λ h. ground (arith, (eq_iff "r1" "r0").1 h))

revoke_all_stops_tokens_example :
    let w = with_sessions (logged User user_id) (logged Session id_of_session) (world investor) (
      revoke_all_sessions
        (logged Session id_of_session)
        10
        7
        "logout_all"
        (world investor).sessions) in
    refresh_session crypto config (logged User user_id) (logged Session id_of_session) 20 "r0" w
    ≡ (w, err session_revoked)
unfolding new_session
revoke_all_stops_tokens_example =
    revoke_all_stops_tokens crypto config (logged User user_id) (logged Session id_of_session) 10 20
      7 5 "logout_all" "r0" open_one (world investor) claims refl refl refl refl

abbrev with_code : User
with_code = record investor { otp_hash = some "123456"; otp_expires_at = some 1000 }

abbrev guesses : List (ℕ × String)
guesses = (1, "a") ∷ (2, "b") ∷ (3, "c") ∷ (4, "d") ∷ (5, "e") ∷ []

five_guesses_at_most_example :
    check_otp crypto 6 "123456" (guess_all crypto guesses with_code)
    ≡ (none, err (if ltb 1000 6 then otp_invalid else otp_attempts_exceeded))
unfolding created_user
five_guesses_at_most_example =
    five_guesses_at_most crypto "123456" 1000 guesses with_code 6 "123456" refl refl refl
      ((refl, refl), ((refl, refl), ((refl, refl), ((refl, refl), ((refl, refl), tt)))))
      (omega arith)

abbrev with_reset : User
with_reset = record investor {
  password_reset_token_hash = some "t0";
  password_reset_expires_at = some 1000;
}

reset_token_works_once_example :
    let r =
      reset_password crypto config
        (logged User user_id)
        (logged Session id_of_session)
        1
        "t0"
        "new"
        (world with_reset) in
    ((logged User user_id).get 7 r.0.users
      ≡ some (sync_role_fields (with_password crypto config 1 "new" with_reset)))
    × ((reset_password crypto config
          (logged User user_id)
          (logged Session id_of_session)
          2
          "t0"
          "other"
          r.0).1
        ≡ err reset_token_invalid)
unfolding created_user
reset_token_works_once_example =
    reset_token_works_once crypto config (logged User user_id) (logged Session id_of_session) 1 2
      "t0" "new" "other" with_reset (world with_reset) refl refl refl refl
      (λ v stored h. ground (arith, stored))

reset_keeps_sessions_example :
    let after =
      reset_password crypto config
        (logged User user_id)
        (logged Session id_of_session)
        1
        "t0"
        "new"
        (world with_reset) in
    let v = sync_role_fields (with_password crypto config 1 "new" with_reset) in
    (after.1 ≡ ok v)
    × (new_token crypto config (logged User user_id) (logged Session id_of_session) (
          refresh_session crypto config
            (logged User user_id)
            (logged Session id_of_session)
            2
            "r0"
            after.0)
        ≡ some
            (next_token crypto config (logged User user_id) (logged Session id_of_session) 2 v 5))
unfolding created_user new_session
reset_keeps_sessions_example =
    reset_keeps_sessions crypto config (logged User user_id) (logged Session id_of_session) 1 2 "t0"
      "new" "r0" open_one with_reset (world with_reset) claims refl refl refl refl refl refl refl
      refl
