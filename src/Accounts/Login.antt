-- ===== src/Accounts/Login.antt =====
-- web/src/services/authService.js, the login, the logout and the renewal of tokens, with the claims of
-- web/src/services/tokenService.js. The signing and verification of tokens and the hashes are
-- parameters; the ids drawn for new documents are given.
use udyog_setu.Common.{
  ℕ, String, Option, none, some, Bool, not, ◌||◌, List, ◌∷◌, str_eq, is_some, if◌then◌else◌,
}
use udyog_setu.Store.{Collection}
use udyog_setu.Accounts.Users.{
  User, user_id, has_status, disabled, suspended, sync_role_fields, is_locked,
  increment_failed_login, reset_failed_login,
}
use udyog_setu.Accounts.Sessions.{
  Session, id_of_session, new_session, find_session_by_id, rotate_refresh_token, revoke_session,
}

pub data SessionName : Type 0 where
  pending_session : SessionName
  session : ℕ → SessionName

pub data TokenType : Type 0 where
  access refresh : TokenType

-- What `jwt.sign` gets beside its secret and options, the time of issue included.
pub record Claims : Type 0 where
  pub sub : ℕ
  pub email : String
  pub roles : List String
  pub primary_role : String
  pub permissions : List String
  pub department_id : Option String
  pub token_type : TokenType
  pub session_id : SessionName
  pub issued_at : ℕ

pub record Crypto : Type 0 where
  pub hash_token : String → String
  -- `bcrypt.compare` and `bcrypt.hash`.
  pub compare_password : String → String → Bool
  pub hash_password : String → String
  pub sign_access : Claims → String
  pub sign_refresh : Claims → String
  -- The claims of a token that `jwt.verify` accepts at a time.
  pub verify_refresh : ℕ → String → Option Claims

pub data AuthError : Type 0 where
  account_exists invalid_credentials account_disabled account_locked session_revoked token_invalid
        token_refused auth_required reset_token_invalid verification_token_invalid otp_invalid
        otp_attempts_exceeded weak_password user_not_found :
      AuthError

pub data AuditAction : Type 0 where
  created login_failed login_succeeded logged_out refreshed reset_requested reset_completed
        verification_sent email_verified otp_sent otp_verified :
      AuditAction

pub record Trace : Type 0 where
  pub action : AuditAction
  pub user : Option ℕ
  pub reason : Option String

pub record Config : Type 0 where
  pub refresh_lifetime : ℕ
  pub reset_minutes : ℕ
  pub verification_minutes : ℕ
  pub otp_minutes : ℕ
  pub password_ok : String → Bool

pub record LoginContext : Type 0 where
  pub existing_session_id : Option ℕ
  pub user_agent : Option String
  pub ip_address : Option String

abbrev pub or_primary : Option String → String → String
or_primary none role = role
or_primary (some p) role = if str_eq p "" then role else p

unfoldable pub build_claims : ℕ → User → SessionName → TokenType → Claims
build_claims now u name kind = record {
  sub = u.id;
  email = u.email;
  roles = u.roles;
  primary_role = or_primary u.primary_role u.role;
  permissions = u.permissions;
  department_id = if is_some u.department_id then u.department_id else u.department;
  token_type = kind;
  session_id = name;
  issued_at = now;
}

module _ (C : Collection User user_id) (S : Collection Session id_of_session) where
  pub record World : Type 0 where
    pub users : C.Docs
    pub sessions : S.Docs
    pub trail : List Trace

  -- A document is saved as the hook leaves it; the callers apply that.
  abbrev pub save_user : User → World → World
  save_user u w = record w { users = C.put u w.users }

  abbrev pub audit : AuditAction → Option ℕ → Option String → World → World
  audit action user reason w = record w {
    trail = (record { action = action; user = user; reason = reason }) ∷ w.trail;
  }

  abbrev pub with_sessions : World → S.Docs → World
  with_sessions w s = record w { sessions = s }

-- How a call ends: with an error, or with what it returns.
pub data Answer (A : Type 0) : Type 0 where
  ok : A → Answer A
  err : AuthError → Answer A

pub record Grant : Type 0 where
  pub user : User
  pub access_token : String
  pub refresh_token : String
  pub session : ℕ

abbrev pub name_of : Option ℕ → SessionName
name_of none = pending_session
name_of (some id) = session id

module _ (crypto : Crypto) (config : Config) (C : Collection User user_id)
    (S : Collection Session id_of_session) where
  -- The login of a user whose password matches; `session_id` is the id drawn for the new session.
  unfoldable pub open_session : ℕ → ℕ → LoginContext → User → World C S → World C S × Answer Grant
  open_session now session_id context u w =
      let u = sync_role_fields (reset_failed_login u) in
      let w = save_user C S u w in
      let u = sync_role_fields (record u { last_login_at = some now }) in
      let w = save_user C S u w in
      let provisional =
        crypto.sign_refresh (build_claims now u (name_of context.existing_session_id) refresh) in
      let s =
        new_session now config.refresh_lifetime session_id u.id (crypto.hash_token provisional)
          context.user_agent context.ip_address in
      let w = with_sessions C S w (S.put s w.sessions) in
      let rotated_token = crypto.sign_refresh (build_claims now u (session session_id) refresh) in
      let (sessions, _) =
        rotate_refresh_token S now config.refresh_lifetime session_id
          (crypto.hash_token rotated_token) w.sessions in
      (
        audit C S login_succeeded (some u.id) none (with_sessions C S w sessions),
        ok (record {
          user = u;
          access_token = crypto.sign_access (build_claims now u (session session_id) access);
          refresh_token = rotated_token;
          session = session_id;
        }),
      )

  unfoldable pub authenticate_user :
      ℕ → ℕ → String → LoginContext → User → World C S → World C S × Answer Grant
  authenticate_user now session_id password context u w =
      if has_status u.status disabled || has_status u.status suspended
      then (audit C S login_failed (some u.id) (some "account_disabled") w, err account_disabled)
      else if is_locked now u
      then (audit C S login_failed (some u.id) (some "account_locked") w, err account_locked)
      else if not (crypto.compare_password password u.password_hash)
      then (
        audit C S login_failed (some u.id) (some "invalid_password")
            (save_user C S (sync_role_fields (increment_failed_login now u)) w),
        err invalid_credentials,
      )
      else open_session now session_id context u w

  unfoldable pub authenticate_local_user :
      ℕ → ℕ → String → String → LoginContext → World C S → World C S × Answer Grant
  authenticate_local_user now session_id email password context w =
      elim (C.find_one (λ u. str_eq u.email email) w.users) [
        | none ↦ (audit C S login_failed none (some "user_not_found") w, err invalid_credentials)
        | some u ↦ authenticate_user now session_id password context u w
      ]

  unfoldable pub logout : ℕ → Option ℕ → Option ℕ → World C S → World C S
  logout now user session_id w = elim session_id [
    | none ↦ audit C S logged_out user none w
    | some id ↦
        audit C S logged_out user none
          (with_sessions C S w (revoke_session S now id "logout" w.sessions).0)
  ]

  -- The renewal of the tokens of a session that was found.
  unfoldable pub renew : ℕ → String → ℕ → Session → World C S → World C S × Answer Grant
  renew now token sub s w =
      if not (str_eq s.refresh_token_hash (crypto.hash_token token))
      then (w, err token_invalid)
      else elim (C.get sub w.users) [
        | none ↦ (w, err auth_required)
        | some u ↦
            let next = crypto.sign_refresh (build_claims now u (session s.session_id) refresh) in
            let (sessions, _) =
              rotate_refresh_token S now config.refresh_lifetime s.session_id
                (crypto.hash_token next) w.sessions in
            (
              audit C S refreshed (some u.id) none (with_sessions C S w sessions),
              ok (record {
                user = u;
                access_token =
                    crypto.sign_access (build_claims now u (session s.session_id) access);
                refresh_token = next;
                session = s.session_id;
              }),
            )
      ]

  abbrev pub named_session : SessionName → S.Docs → Option Session
  named_session pending_session s = none
  named_session (session id) s = find_session_by_id S id s

  unfoldable pub refresh_session : ℕ → String → World C S → World C S × Answer Grant
  refresh_session now token w = elim (crypto.verify_refresh now token) [
    | none ↦ (w, err token_refused)
    | some claims ↦ elim (named_session claims.session_id w.sessions) [
      | none ↦ (w, err session_revoked)
      | some s ↦
          if not s.is_active || is_some s.revoked_at
          then (w, err session_revoked)
          else renew now token claims.sub s w
    ]
  ]
