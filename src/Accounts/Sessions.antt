-- ===== src/Accounts/Sessions.antt =====
-- web/src/services/sessionService.js over the documents of web/src/models/UserSession.js. A session's
-- id, which its unique index keeps apart, is a number; the lifetime of a refresh token is given in
-- milliseconds.
use udyog_setu.Common.{
  ℕ, String, Option, none, some, Bool, true, false, not, ◌&&◌, ◌+◌, is_some, ◌==◌,
}
use udyog_setu.Store.{Collection}
use udyog_setu.Store.Updates.{update_one, update_many}

pub record Session : Type 0 where
  pub session_id : ℕ
  pub user_id : ℕ
  pub refresh_token_hash : String
  pub user_agent : Option String
  pub ip_address : Option String
  pub last_seen_at : ℕ
  pub expires_at : ℕ
  pub revoked_at : Option ℕ
  pub revoke_reason : Option String
  pub is_active : Bool

abbrev pub id_of_session : Session → ℕ
id_of_session s = s.session_id

abbrev pub is_live : ℕ → Session → Bool
is_live session_id s = s.session_id == session_id && s.is_active && not (is_some s.revoked_at)

abbrev pub rotated : ℕ → ℕ → String → Session → Session
rotated now lifetime hash s = record s {
  refresh_token_hash = hash;
  last_seen_at = now;
  expires_at = now + lifetime;
}

abbrev pub revoked : ℕ → String → Session → Session
revoked now reason s = record s {
  is_active = false;
  revoked_at = some now;
  revoke_reason = some reason;
}

unfoldable pub new_session : ℕ → ℕ → ℕ → ℕ → String → Option String → Option String → Session
new_session now lifetime session_id user_id hash user_agent ip_address = record {
  session_id = session_id;
  user_id = user_id;
  refresh_token_hash = hash;
  user_agent = user_agent;
  ip_address = ip_address;
  last_seen_at = now;
  expires_at = now + lifetime;
  revoked_at = none;
  revoke_reason = none;
  is_active = true;
}

module _ (S : Collection Session id_of_session) where
  unfoldable pub find_session_by_id : ℕ → S.Docs → Option Session
  find_session_by_id session_id s = S.find_one (is_live session_id) s

  unfoldable pub rotate_refresh_token : ℕ → ℕ → ℕ → String → S.Docs → S.Docs × Option Session
  rotate_refresh_token now lifetime session_id hash =
      update_one S (is_live session_id) (rotated now lifetime hash)

  unfoldable pub revoke_session : ℕ → ℕ → String → S.Docs → S.Docs × Option Session
  revoke_session now session_id reason =
      update_one S (λ s. s.session_id == session_id && s.is_active) (revoked now reason)

  unfoldable pub revoke_all_sessions : ℕ → ℕ → String → S.Docs → S.Docs
  revoke_all_sessions now user_id reason =
      update_many S (λ s. s.user_id == user_id && s.is_active) (revoked now reason)
