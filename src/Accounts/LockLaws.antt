-- ===== src/Accounts/LockLaws.antt =====
-- The lock of an account after failed logins.
use udyog_setu.Common.{
  ℕ, suc, String, some, Bool, false, ◌||◌, List, [], ◌∷◌, ◌≡◌, ◌≢◌, ◌≤◌, refl, sym, ap, ◌∙◌, arith,
  inl, inr, Bool-cases, Option-cases, leb, str_eq, ◌==◌,
}
use udyog_setu.Store.{Collection}
use udyog_setu.Store.Updates.{stored_same}
use udyog_setu.Accounts.Users.{
  User, user_id, locked, disabled, suspended, has_status, later_than, is_locked,
  increment_failed_login, reset_failed_login, sync_role_fields,
}
use udyog_setu.Accounts.Sessions.{Session, id_of_session}
use udyog_setu.Accounts.Login.{
  Crypto, Config, World, LoginContext, Answer, ok, err, account_locked, Grant, audit, login_failed,
  authenticate_user, authenticate_local_user, open_session,
}

counted :
    (now : ℕ) (u : User)
    → let v = sync_role_fields (increment_failed_login now u) in
      (v.failed_login_attempts ≡ suc u.failed_login_attempts)
      × (5 ≤ suc u.failed_login_attempts → v.status ≡ locked)
      × (u.status ≡ locked → v.status ≡ locked)
      × (v.id ≡ u.id)
unfolding sync_role_fields increment_failed_login
counted now u = elim (Bool-cases (leb 5 (suc u.failed_login_attempts))) [
  | inl fifth ↦ rw fifth (refl, λ h. refl, λ h. refl, refl)
  | inr early ↦ rw early (refl, λ h. ground (arith, h, early), λ h. h, refl)
]

module _ (crypto : Crypto) (config : Config) (C : Collection User user_id)
    (S : Collection Session id_of_session) where
  pub locked_is_refused :
      (now session_id : ℕ) (password : String) (context : LoginContext) (u : User) (w : World C S)
      → u.status ≡ locked
      → authenticate_user crypto config C S now session_id password context u w
        ≡ (audit C S login_failed (some u.id) (some "account_locked") w, err account_locked)
  unfolding authenticate_user is_locked
  locked_is_refused now session_id password context u w h =
      elim (Bool-cases (later_than now u.locked_until)) [
        | inl until ↦ rw (h, until) refl
        | inr over ↦ rw (h, over) refl
      ]

  abbrev granted : ℕ → Answer Grant → ℕ
  granted other (ok g) = g.user.id
  granted other (err e) = other

  open_session-user :
      (now session_id k : ℕ) (context : LoginContext) (v : User) (w : World C S)
      → (v.id == k) ≡ false
      → let r = open_session crypto config C S now session_id context v w in
        (C.get k r.0.users ≡ C.get k w.users) × ((g : Grant) → r.1 ≡ ok g → g.user.id ≡ v.id)
  unfolding open_session sync_role_fields reset_failed_login
  open_session-user now session_id k context v w other =
      let u = sync_role_fields (reset_failed_login v) in
      let u' = sync_role_fields (record u { last_login_at = some now }) in
      (
        rw (C.get-put k u' (C.put u w.users), C.get-put k u w.users, other) refl,
        λ g h. sym (ap (granted v.id) h),
      )

  authenticate_user-other :
      (now session_id k : ℕ) (password : String) (context : LoginContext) (v : User) (w : World C S)
      → (v.id == k) ≡ false
      → let r = authenticate_user crypto config C S now session_id password context v w in
        (C.get k r.0.users ≡ C.get k w.users) × ((g : Grant) → r.1 ≡ ok g → g.user.id ≡ v.id)
  unfolding authenticate_user sync_role_fields increment_failed_login
  authenticate_user-other now session_id k password context v w other =
      elim (Bool-cases (has_status v.status disabled || has_status v.status suspended)) [
        | inl barred ↦ rw barred (refl, λ g h. sym (ap (granted v.id) h))
        | inr unbarred ↦ elim (Bool-cases (is_locked now v)) [
          | inl stopped ↦ rw (unbarred, stopped) (refl, λ g h. sym (ap (granted v.id) h))
          | inr free ↦ elim (Bool-cases (crypto.compare_password password v.password_hash)) [
            | inl right ↦
                rw (unbarred, free, right) (open_session-user now session_id k context v w other)
            | inr wrong ↦
                rw (unbarred, free, wrong)
                  (
                    rw
                        (
                          C.get-put k (sync_role_fields (increment_failed_login now v)) w.users,
                          (counted now v).3,
                          other,
                        )
                        refl,
                    λ g h. sym (ap (granted v.id) h),
                  )
          ]
        ]
      ]

  login_keeps_the_lock :
      (now session_id k : ℕ) (email password : String) (context : LoginContext) (u : User)
      (w : World C S)
      → C.get k w.users ≡ some u
      → u.status ≡ locked
      → let r = authenticate_local_user crypto config C S now session_id email password context w in
        (C.get k r.0.users ≡ some u) × ((g : Grant) → r.1 ≡ ok g → g.user.id ≢ k)
  unfolding authenticate_local_user
  login_keeps_the_lock now session_id k email password context u w found h =
      let p : User → Bool = λ v. str_eq v.email email in
      elim (Option-cases (C.find_one p w.users)) [
        | inl missing ↦ rw (missing, authenticate_local_user) (found, λ g e. ground arith)
        | inr (v, hit) ↦
            let stored = (C.find_one_sound p w.users v hit).1 in
            elim (Bool-cases (v.id == k)) [
              | inr other ↦
                  let r = authenticate_user-other now session_id k password context v w other in
                  rw (hit, authenticate_local_user)
                    (r.0 ∙ found, λ g e same. ground (arith, r.1 g e))
              | inl this ↦
                  let same = stored_same C k u v w.users found stored (ground arith) in
                  let refused =
                    locked_is_refused now session_id password context v w
                      (ap (λ x. x.status) same ∙ h) in
                  rw (hit, authenticate_local_user, refused) (found, λ g e. ground arith)
            ]
      ]

-- Logins, by anyone, with the time of each and the id drawn for its session.
pub record Attempt : Type 0 where
  pub now : ℕ
  pub session_id : ℕ
  pub email : String
  pub password : String
  pub context : LoginContext

module _ (crypto : Crypto) (config : Config) (C : Collection User user_id)
    (S : Collection Session id_of_session) where
  abbrev pub attempt : Attempt → World C S → World C S × Answer Grant
  attempt a w =
      authenticate_local_user crypto config C S a.now a.session_id a.email a.password a.context w

  abbrev pub attempts : List Attempt → World C S → World C S
  attempts [] w = w
  attempts (a ∷ more) w = attempts more (attempt a w).0

  -- The lock that five failures set never ends: whatever logins follow, at whatever times, a locked
  -- user stays as stored, and no login is granted to that user.
  pub lock_never_ends :
      (k : ℕ) (u : User) (before : List Attempt) (a : Attempt) (w : World C S)
      → C.get k w.users ≡ some u
      → u.status ≡ locked
      → let w = attempts before w in
        (C.get k w.users ≡ some u) × ((g : Grant) → (attempt a w).1 ≡ ok g → g.user.id ≢ k)
  lock_never_ends k u [] a w found h = (
    found,
    (login_keeps_the_lock crypto config C S a.now a.session_id k a.email a.password a.context u w
        found h).1,
  )
  lock_never_ends k u (b ∷ before) a w found h =
      lock_never_ends k u before a (attempt b w).0
        (login_keeps_the_lock crypto config C S b.now b.session_id k b.email b.password b.context u
          w found h).0
        h
