-- ===== src/Accounts/CodeLaws.antt =====
-- One-time codes and reset tokens.
use udyog_setu.Common.{
  ℕ, suc, String, Option, none, some, Bool, true, false, List, [], ◌∷◌, ◌≡◌, ◌≤◌, ◌+◌, refl, sym,
  ap, ◌∙◌, All, length, arith, inl, inr, Bool-cases, Option-cases, str_eq, truthy, leb, ltb, ◌==◌,
  ==_iff, if◌then◌else◌,
}
use udyog_setu.Store.{Collection}
use udyog_setu.Store.Updates.{find_one_hit}
use udyog_setu.Accounts.Users.{User, user_id, sync_role_fields}
use udyog_setu.Accounts.Sessions.{Session, id_of_session, is_live}
use udyog_setu.Accounts.Login.{
  Crypto, Config, World, ok, err, otp_invalid, otp_attempts_exceeded, reset_token_invalid,
  refresh_session, Claims, session, audit, save_user, reset_completed,
}
use udyog_setu.Accounts.SessionLaws.{live_session_renews, renew_rotates, new_token, next_token}
use udyog_setu.Accounts.Codes.{check_otp, is_text, with_password, reset_password, has_reset_token}

abbrev saved_or : User → Option User → User
saved_or u none = u
saved_or u (some v) = v

module _ (crypto : Crypto) where
  -- The user after guesses of the code, each at its time.
  abbrev pub guess_all : List (ℕ × String) → User → User
  guess_all [] u = u
  guess_all (g ∷ gs) u = guess_all gs (saved_or u (check_otp crypto g.0 g.1 u).0)

  -- A guess of another code, made before the code expires.
  abbrev pub IsWrong : String → ℕ → ℕ × String → Type 0
  IsWrong hash expires_at g =
      (str_eq hash (crypto.hash_token g.1) ≡ false) × (ltb expires_at g.0 ≡ false)

  wrong_guess :
      (hash : String) (expires_at : ℕ) (g : ℕ × String) (u : User)
      → truthy (some hash) ≡ true
      → u.otp_hash ≡ some hash
      → u.otp_expires_at ≡ some expires_at
      → IsWrong hash expires_at g
      → let v = saved_or u (check_otp crypto g.0 g.1 u).0 in
        (v.otp_hash ≡ some hash)
        × (v.otp_expires_at ≡ some expires_at)
        × (v.otp_attempts ≡ (if leb 5 u.otp_attempts then u.otp_attempts else suc u.otp_attempts))
  unfolding check_otp sync_role_fields
  wrong_guess hash expires_at g u filled has ends wrong = elim (Bool-cases (leb 5 u.otp_attempts)) [
    | inl over ↦ rw (has, ends, filled, wrong.1, over) (refl, refl, refl)
    | inr more ↦ rw (has, ends, filled, wrong.1, more, wrong.0) (refl, refl, refl)
  ]

  exhausted :
      (hash : String) (expires_at : ℕ) (gs : List (ℕ × String)) (u : User)
      → truthy (some hash) ≡ true
      → u.otp_hash ≡ some hash
      → u.otp_expires_at ≡ some expires_at
      → All (IsWrong hash expires_at) gs
      → 5 ≤ u.otp_attempts + length gs
      → let v = guess_all gs u in
        (v.otp_hash ≡ some hash) × (v.otp_expires_at ≡ some expires_at) × (5 ≤ v.otp_attempts)
  exhausted hash expires_at [] u filled has ends wrong enough = (has, ends, omega (arith, enough))
  exhausted hash expires_at (g ∷ gs) u filled has ends wrong enough =
      let step = wrong_guess hash expires_at g u filled has ends wrong.0 in
      let still : (n : ℕ)
          → n ≡ (if leb 5 u.otp_attempts then u.otp_attempts else suc u.otp_attempts)
          → 5 ≤ n + length gs =
        λ n e. ground (arith, e, enough) in
      exhausted hash expires_at gs (saved_or u (check_otp crypto g.0 g.1 u).0) filled step.0 step.1
        wrong.1 (still (saved_or u (check_otp crypto g.0 g.1 u).0).otp_attempts step.2)

  -- After five wrong guesses of a one-time code, before it expires, no further guess is accepted: the
  -- right code is refused too.
  pub five_guesses_at_most :
      (hash : String) (expires_at : ℕ) (gs : List (ℕ × String)) (u : User) (now : ℕ) (otp : String)
      → truthy (some hash) ≡ true
      → u.otp_hash ≡ some hash
      → u.otp_expires_at ≡ some expires_at
      → All (IsWrong hash expires_at) gs
      → 5 ≤ length gs
      → check_otp crypto now otp (guess_all gs u)
        ≡ (none, err (if ltb expires_at now then otp_invalid else otp_attempts_exceeded))
  unfolding check_otp
  five_guesses_at_most hash expires_at gs u now otp filled has ends wrong enough =
      let after = exhausted hash expires_at gs u filled has ends wrong (omega (arith, enough)) in
      let full : leb 5 (guess_all gs u).otp_attempts ≡ true = ground (arith, after.2) in
      elim (Bool-cases (ltb expires_at now)) [
        | inl late ↦ rw (after.0, after.1, filled, late) refl
        | inr early ↦ rw (after.0, after.1, filled, early, full) refl
      ]

module _ (crypto : Crypto) (config : Config) (C : Collection User user_id)
    (S : Collection Session id_of_session) where
  no_token_left :
      (now later : ℕ) (token password : String) (u : User) (users : C.Docs)
      → ((v : User)
          → C.get v.id users ≡ some v
          → is_text v.password_reset_token_hash (crypto.hash_token token) ≡ true
          → v.id ≡ u.id)
      → let u' = sync_role_fields (with_password crypto config now password u) in
        C.find_one (has_reset_token crypto config C S later token) (C.put u' users) ≡ none
  unfolding sync_role_fields with_password
  no_token_left now later token password u users only =
      let u' = sync_role_fields (with_password crypto config now password u) in
      let p = has_reset_token crypto config C S later token in
      elim (Option-cases (C.find_one p (C.put u' users))) [
        | inl gone ↦ gone
        | inr (v, hit) ↦
            let sound = C.find_one_sound p (C.put u' users) v hit in
            let written = sym (C.get-put v.id u' users) ∙ sound.1 in
            elim (Bool-cases (u.id == v.id)) [
              | inl same ↦
                  let none_left : some u' ≡ some v = rw same at written in
                  let held : Option User → Bool = λ o. elim o [ none ↦ false | some x ↦ p x ] in
                  ground (arith, ap held none_left, sound.0)
              | inr other ↦
                  let before : C.get v.id users ≡ some v = rw other at written in
                  ground (arith, only v before, sound.0)
            ]
      ]

  -- A reset token that belongs to one stored user resets the password once: the second reset with it, at
  -- any time, is refused.
  pub reset_token_works_once :
      (now later : ℕ) (token password again : String) (u : User) (w : World C S)
      → config.password_ok password ≡ true
      → config.password_ok again ≡ true
      → C.get u.id w.users ≡ some u
      → has_reset_token crypto config C S now token u ≡ true
      → ((v : User)
          → C.get v.id w.users ≡ some v
          → is_text v.password_reset_token_hash (crypto.hash_token token) ≡ true
          → v.id ≡ u.id)
      → let r = reset_password crypto config C S now token password w in
        (C.get u.id r.0.users
          ≡ some (sync_role_fields (with_password crypto config now password u)))
        × ((reset_password crypto config C S later token again r.0).1 ≡ err reset_token_invalid)
  unfolding reset_password sync_role_fields with_password
  reset_token_works_once now later token password again u w good good' found valid only =
      let hit : C.find_one (has_reset_token crypto config C S now token) w.users ≡ some u =
        find_one_hit C (has_reset_token crypto config C S now token) u.id u w.users
          (λ v stored h. only v stored (ground arith)) found valid in
      let u' = sync_role_fields (with_password crypto config now password u) in
      let gone = no_token_left now later token password u w.users only in
      rw (good, good', hit)
        (
          C.get-put u.id u' w.users
              ∙ ap (λ b. if b then some u' else C.get u.id w.users) ((==_iff u.id u.id).1 refl),
          rw gone refl,
        )

  -- A password reset ends no session: a live session's refresh token, which may be the reason for the
  -- reset, still buys a new one afterwards.
  pub reset_keeps_sessions :
      (now later : ℕ) (reset password token : String) (s : Session) (u : User) (w : World C S)
      (c : Claims)
      → config.password_ok password ≡ true
      → C.find_one (has_reset_token crypto config C S now reset) w.users ≡ some u
      → c.sub ≡ u.id
      → c.session_id ≡ session s.session_id
      → crypto.verify_refresh later token ≡ some c
      → S.get s.session_id w.sessions ≡ some s
      → is_live s.session_id s ≡ true
      → s.refresh_token_hash ≡ crypto.hash_token token
      → let after = reset_password crypto config C S now reset password w in
        let v = sync_role_fields (with_password crypto config now password u) in
        (after.1 ≡ ok v)
        × (new_token crypto config C S (refresh_session crypto config C S later token after.0)
            ≡ some (next_token crypto config C S later v s.session_id))
  unfolding reset_password sync_role_fields with_password
  reset_keeps_sessions now later reset password token s u w c good hit owner names accepted found
        live current =
      let v = sync_role_fields (with_password crypto config now password u) in
      let after = (reset_password crypto config C S now reset password w).0 in
      let result : reset_password crypto config C S now reset password w
          ≡ (audit C S reset_completed (some u.id) none (save_user C S v w), ok v) =
        rw (good, reset_password, hit) refl in
      let user : C.get c.sub (C.put v w.users) ≡ some v =
        ap (λ i. C.get i (C.put v w.users)) owner
        ∙ C.get-put u.id v w.users
        ∙ ap (λ b. if b then some v else C.get u.id w.users) ((==_iff u.id u.id).1 refl) in
      let w' = audit C S reset_completed (some u.id) none (save_user C S v w) in
      let renewed =
        live_session_renews crypto config C S later s.session_id token s w' c accepted names found
          live in
      rw result (
        refl,
        ap (new_token crypto config C S) renewed
            ∙ (renew_rotates crypto config C S later c.sub token s v w' found live current user).0,
      )
