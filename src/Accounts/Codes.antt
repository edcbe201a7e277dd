-- ===== src/Accounts/Codes.antt =====
-- web/src/services/authService.js, the registration and the tokens and codes that a user is sent, with
-- web/src/services/verificationService.js. The tokens drawn are given to the operations; the test of a
-- password's strength, a regular expression, is in the configuration.
use udyog_setu.Common.{
  ℕ, suc, String, Option, none, some, Bool, false, truthy, ◌||◌, ◌&&◌, [], ◌∷◌, ◌+◌, ◌*◌, not,
  str_eq, is_some, ltb, leb, if◌then◌else◌,
}
use udyog_setu.Store.{Collection}
use udyog_setu.Vocabulary.Roles
use udyog_setu.Accounts.Users.{User, user_id, active, sync_role_fields, later_than}
use udyog_setu.Accounts.Sessions.{Session, id_of_session}
use udyog_setu.Accounts.Login.{
  Crypto, Config, World, save_user, audit, Answer, ok, err, account_exists, reset_token_invalid,
  verification_token_invalid, otp_invalid, otp_attempts_exceeded, weak_password, user_not_found,
  created, reset_requested, reset_completed, verification_sent, email_verified, otp_sent,
  otp_verified,
}

abbrev pub build_expiry : ℕ → ℕ → ℕ
build_expiry now minutes = now + minutes * 60 * 1000

abbrev pub is_text : Option String → String → Bool
is_text none t = false
is_text (some s) t = str_eq s t

-- `expiresAt < new Date()`.
abbrev pub expired : ℕ → Option ℕ → Bool
expired now none = false
expired now (some t) = ltb t now

unfoldable pub created_user : ℕ → String → String → User
created_user id email password_hash = record {
  id = id;
  email = email;
  password_hash = password_hash;
  role = Roles.investor;
  roles = Roles.investor ∷ [];
  primary_role = some Roles.investor;
  permissions = [];
  department = none;
  department_id = none;
  status = active;
  email_verified_at = none;
  phone_verified_at = none;
  last_login_at = none;
  failed_login_attempts = 0;
  locked_until = none;
  password_changed_at = none;
  password_reset_token_hash = none;
  password_reset_expires_at = none;
  email_verification_token_hash = none;
  email_verification_expires_at = none;
  otp_hash = none;
  otp_expires_at = none;
  otp_attempts = 0;
}

module _ (crypto : Crypto) (config : Config) where
  unfoldable pub create_password_reset : ℕ → String → User → User
  create_password_reset now token u = record u {
    password_reset_token_hash = some (crypto.hash_token token);
    password_reset_expires_at = some (build_expiry now config.reset_minutes);
  }

  unfoldable pub create_email_verification : ℕ → String → User → User
  create_email_verification now token u = record u {
    email_verification_token_hash = some (crypto.hash_token token);
    email_verification_expires_at = some (build_expiry now config.verification_minutes);
  }

  unfoldable pub create_otp : ℕ → String → User → User
  create_otp now otp u = record u {
    otp_hash = some (crypto.hash_token otp);
    otp_expires_at = some (build_expiry now config.otp_minutes);
    otp_attempts = 0;
  }

  -- What `resetPassword` and `verifyEmailToken` write.
  unfoldable pub with_password : ℕ → String → User → User
  with_password now password u = record u {
    password_hash = crypto.hash_password password;
    password_changed_at = some now;
    password_reset_token_hash = none;
    password_reset_expires_at = none;
  }

unfoldable pub with_verified_email : ℕ → User → User
with_verified_email now u = record u {
  email_verified_at = some now;
  email_verification_token_hash = none;
  email_verification_expires_at = none;
}

-- `verifyOtp` of the user found: the user to save, where one is saved, and the answer.
unfoldable pub check_otp : Crypto → ℕ → String → User → Option User × Answer User
check_otp crypto now otp u =
    if not (truthy u.otp_hash) || not (is_some u.otp_expires_at) || expired now u.otp_expires_at
    then (none, err otp_invalid)
    else if leb 5 u.otp_attempts
    then (none, err otp_attempts_exceeded)
    else if not (is_text u.otp_hash (crypto.hash_token otp))
    then (some (sync_role_fields (record u { otp_attempts = suc u.otp_attempts })), err otp_invalid)
    else let verified = sync_role_fields (record u {
      phone_verified_at = some now;
      otp_hash = none;
      otp_expires_at = none;
      otp_attempts = 0;
    }) in
      (some verified, ok verified)

module _ (crypto : Crypto) (config : Config) (C : Collection User user_id)
    (S : Collection Session id_of_session) where
  unfoldable pub register_investor : ℕ → String → String → World C S → World C S × Answer User
  register_investor id email password w =
      if not (config.password_ok password)
      then (w, err weak_password)
      else elim (C.find_one (λ u. str_eq u.email email) w.users) [
        | some u ↦ (w, err account_exists)
        | none ↦
            let u = sync_role_fields (created_user id email (crypto.hash_password password)) in
            (audit C S created (some id) none (save_user C S u w), ok u)
      ]

  unfoldable pub request_password_reset : ℕ → String → String → World C S → World C S
  request_password_reset now email token w = elim (C.find_one (λ u. str_eq u.email email) w.users) [
    | none ↦ w
    | some u ↦
        audit C S reset_requested (some u.id) none
          (save_user C S (sync_role_fields (create_password_reset crypto config now token u)) w)
  ]

  -- The query of a reset token that has not expired.
  abbrev pub has_reset_token : ℕ → String → User → Bool
  has_reset_token now token u =
      is_text u.password_reset_token_hash (crypto.hash_token token)
      && later_than now u.password_reset_expires_at

  unfoldable pub reset_password : ℕ → String → String → World C S → World C S × Answer User
  reset_password now token password w =
      if not (config.password_ok password)
      then (w, err weak_password)
      else elim (C.find_one (has_reset_token now token) w.users) [
        | none ↦ (w, err reset_token_invalid)
        | some u ↦
            let u = sync_role_fields (with_password crypto config now password u) in
            (audit C S reset_completed (some u.id) none (save_user C S u w), ok u)
      ]

  unfoldable pub send_email_verification : ℕ → ℕ → String → World C S → World C S × Answer User
  send_email_verification now id token w = elim (C.get id w.users) [
    | none ↦ (w, err user_not_found)
    | some u ↦
        let u = sync_role_fields (create_email_verification crypto config now token u) in
        (audit C S verification_sent (some u.id) none (save_user C S u w), ok u)
  ]

  abbrev pub has_verification_token : ℕ → String → User → Bool
  has_verification_token now token u =
      is_text u.email_verification_token_hash (crypto.hash_token token)
      && later_than now u.email_verification_expires_at

  unfoldable pub verify_email_token : ℕ → String → World C S → World C S × Answer User
  verify_email_token now token w = elim (C.find_one (has_verification_token now token) w.users) [
    | none ↦ (w, err verification_token_invalid)
    | some u ↦
        let u = sync_role_fields (with_verified_email now u) in
        (audit C S email_verified (some u.id) none (save_user C S u w), ok u)
  ]

  unfoldable pub send_otp : ℕ → ℕ → String → World C S → World C S × Answer User
  send_otp now id otp w = elim (C.get id w.users) [
    | none ↦ (w, err user_not_found)
    | some u ↦
        let u = sync_role_fields (create_otp crypto config now otp u) in
        (audit C S otp_sent (some u.id) none (save_user C S u w), ok u)
  ]

  unfoldable pub verify_otp : ℕ → ℕ → String → World C S → World C S × Answer User
  verify_otp now id otp w = elim (C.get id w.users) [
    | none ↦ (w, err otp_invalid)
    | some u ↦
        let (saved, answer) = check_otp crypto now otp u in
        (
          elim saved [
            | none ↦ w
            | some v ↦ elim answer [
              | ok x ↦ audit C S otp_verified (some v.id) none (save_user C S v w)
              | err e ↦ save_user C S v w
            ]
          ],
          answer,
        )
  ]
