-- ===== src/Accounts/FailureLaws.antt =====
-- How failed logins lock an account.
use udyog_setu.Common.{
  ℕ, zero, suc, String, none, some, Bool, true, eq_iff, ==_iff, if◌then◌else◌, All, ◌⊎◌, false,
  ◌||◌, List, [], ◌∷◌, ◌≡◌, ◌≤◌, ◌+◌, length, refl, sym, ap, ◌∙◌, arith, inl, inr, Bool-cases, leb,
  str_eq, ◌==◌,
}
use udyog_setu.Store.{Collection}
use udyog_setu.Store.Updates.{find_one_hit}
use udyog_setu.Accounts.Users.{
  AccountStatus, invited, active, User, user_id, locked, disabled, suspended, has_status, is_locked,
  increment_failed_login, sync_role_fields,
}
use udyog_setu.Accounts.Sessions.{Session, id_of_session}
use udyog_setu.Accounts.Login.{
  Crypto, Config, World, Answer, err, account_locked, Grant, audit, login_failed, authenticate_user,
  authenticate_local_user,
}
use udyog_setu.Accounts.LockLaws.{Attempt, attempt, attempts, locked_is_refused}

status_locked : (s : AccountStatus) → has_status s locked ≡ true → s ≡ locked
status_locked invited h = ground arith
status_locked active h = ground arith
status_locked suspended h = ground arith
status_locked locked h = refl
status_locked disabled h = ground arith

module _ (crypto : Crypto) (config : Config) (C : Collection User user_id)
    (S : Collection Session id_of_session) where
  abbrev try_login : Attempt → World C S → World C S × Answer Grant
  try_login = attempt crypto config C S

  abbrev try_logins : List Attempt → World C S → World C S
  try_logins = attempts crypto config C S

  -- The user of this id is the only one of the email.
  abbrev pub OnlyOwner : String → ℕ → C.Docs → Type 0
  OnlyOwner email k s = (v : User) → C.get v.id s ≡ some v → str_eq v.email email ≡ true → v.id ≡ k

  abbrev pub is_barred : User → Bool
  is_barred u = has_status u.status disabled || has_status u.status suspended

  -- Logins of the email, each with a password that is not the user's.
  abbrev pub WrongLogins : String → String → List Attempt → Type 0
  WrongLogins email hash =
      All (λ a. (a.email ≡ email) × (crypto.compare_password a.password hash ≡ false))

  -- The user is locked, or so many failures away from it.
  Near : ℕ → User → Type 0
  Near n u =
      (u.status ≡ locked) ⊎ ((u.locked_until ≡ none) × (1 ≤ n) × (5 ≤ n + u.failed_login_attempts))

  -- A stored user of whom this is known.
  record Standing (n k : ℕ) (u : User) (w : World C S) : Type 0 where
    found : C.get k w.users ≡ some u
    only : OnlyOwner u.email k w.users
    unbarred : is_barred u ≡ false
    near : Near n u

  found_by_email :
      (n k : ℕ) (u : User) (w : World C S)
      → Standing n k u w
      → C.find_one (λ v. str_eq v.email u.email) w.users ≡ some u
  found_by_email n k u w h =
      find_one_hit C (λ v. str_eq v.email u.email) k u w.users h.only h.found
        ((eq_iff u.email u.email).1 refl)

  locked_attempt :
      (n k : ℕ) (u : User) (a : Attempt) (w : World C S)
      → Standing n k u w
      → a.email ≡ u.email
      → u.status ≡ locked
      → try_login a w
        ≡ (audit C S login_failed (some u.id) (some "account_locked") w, err account_locked)
  unfolding authenticate_local_user
  locked_attempt n k u a w h same shut =
      let hit = found_by_email n k u w h in
      let refused =
        locked_is_refused crypto config C S a.now a.session_id a.password a.context u w shut in
      rw (same, hit, authenticate_local_user, refused) refl

  -- A failure that is counted brings the lock nearer.
  failed_user :
      (n now : ℕ) (u : User)
      → Near (suc n) u
      → is_barred u ≡ false
      → is_locked now u ≡ false
      → let v = sync_role_fields (increment_failed_login now u) in
        (v.id ≡ u.id)
        × (v.email ≡ u.email)
        × (v.password_hash ≡ u.password_hash)
        × (is_barred v ≡ false)
        × Near n v
  unfolding increment_failed_login sync_role_fields Near is_locked
  failed_user n now u near unbarred free = elim (Bool-cases (leb 5 (suc u.failed_login_attempts))) [
    | inl fifth ↦ rw fifth (refl, refl, refl, refl, inl refl)
    | inr early ↦ rw early (
      refl,
      refl,
      refl,
      unbarred,
      elim near [
        | inl shut ↦ ground (arith, shut, free)
        | inr (unset, some_left, enough) ↦
            inr (unset, ground (arith, early, enough), omega (arith, enough))
      ],
    )
  ]

  stored_user :
      (n k : ℕ) (u v : User) (w w' : World C S)
      → C.get k w.users ≡ some u
      → OnlyOwner u.email k w.users
      → w'.users ≡ C.put v w.users
      → v.id ≡ k
      → v.email ≡ u.email
      → is_barred v ≡ false
      → Near n v
      → Standing n k v w'
  stored_user n k u v w w' found only saved id email unbarred near = record {
    found =
        ap (C.get k) saved
        ∙ C.get-put k v w.users
        ∙ ap (λ b. if b then some v else C.get k w.users) ((==_iff v.id k).1 id);
    only = λ x stored same. elim (Bool-cases (v.id == x.id)) [
      | inl this ↦ ground (arith, this, id)
      | inr other ↦
          only x
            (rw other at (sym (C.get-put x.id v w.users) ∙ sym (ap (C.get x.id) saved) ∙ stored))
            (rw (sym email) same)
    ];
    unbarred = unbarred;
    near = near;
  }

  failed_attempt :
      (n k : ℕ) (u : User) (a : Attempt) (w : World C S)
      → Standing (suc n) k u w
      → a.email ≡ u.email
      → crypto.compare_password a.password u.password_hash ≡ false
      → is_locked a.now u ≡ false
      → Standing n k (sync_role_fields (increment_failed_login a.now u)) (try_login a w).0
  unfolding authenticate_local_user authenticate_user
  failed_attempt n k u a w h same wrong free =
      let v = sync_role_fields (increment_failed_login a.now u) in
      let hit = found_by_email (suc n) k u w h in
      let (id, email, hash, unbarred, near) = failed_user n a.now u h.near h.unbarred free in
      let saved : (try_login a w).0.users ≡ C.put v w.users =
        rw (same, hit, authenticate_local_user, authenticate_user, h.unbarred, free, wrong) refl in
      stored_user n k u v w (try_login a w).0 h.found h.only saved
        (id ∙ C.get-id k w.users u h.found) email unbarred near

  stays-Standing :
      (n k : ℕ) (u : User) (w w' : World C S)
      → Standing n k u w
      → w'.users ≡ w.users
      → Standing n k u w'
  stays-Standing n k u w w' h same = record {
    found = ap (C.get k) same ∙ h.found;
    only = λ v stored owns. h.only v (ap (C.get v.id) (sym same) ∙ stored) owns;
    unbarred = h.unbarred;
    near = h.near;
  }

  locked_stays_refused :
      (n k : ℕ) (u : User) (wrong : List Attempt) (a : Attempt) (w : World C S)
      → Standing n k u w
      → u.status ≡ locked
      → WrongLogins u.email u.password_hash wrong
      → a.email ≡ u.email
      → (try_login a (try_logins wrong w)).1 ≡ err account_locked
  locked_stays_refused n k u [] a w h shut all same =
      ap (λ (r : World C S × Answer Grant). r.1) (locked_attempt n k u a w h same shut)
  locked_stays_refused n k u (b ∷ wrong) a w h shut all same =
      locked_stays_refused n k u wrong a (try_login b w).0
        (stays-Standing n k u w (try_login b w).0 h (
          ap (λ (r : World C S × Answer Grant). r.0.users)
            (locked_attempt n k u b w h all.0.0 shut)))
        shut all.1 same

  locked_by_status : (n now : ℕ) (u : User) → Near n u → is_locked now u ≡ true → u.status ≡ locked
  unfolding Near is_locked
  locked_by_status n now u near h = elim near [
    | inl shut ↦ shut
    | inr (unset, some_left, enough) ↦ status_locked u.status (rw unset at h)
  ]

  -- However many more wrong logins follow, the user ends up locked.
  all_wrong_then_locked :
      (n k : ℕ) (u : User) (wrong : List Attempt) (a : Attempt) (w : World C S)
      → Standing n k u w
      → n ≤ length wrong
      → WrongLogins u.email u.password_hash wrong
      → a.email ≡ u.email
      → (try_login a (try_logins wrong w)).1 ≡ err account_locked
  unfolding Near
  all_wrong_then_locked zero k u wrong a w h enough all same = elim h.near [
    | inl shut ↦ locked_stays_refused zero k u wrong a w h shut all same
    | inr (unset, some_left, late) ↦ absurd (ground (arith, some_left))
  ]
  all_wrong_then_locked (suc n) k u [] a w h enough all same = absurd (ground (arith, enough))
  all_wrong_then_locked (suc n) k u (b ∷ wrong) a w h enough all same =
      elim (Bool-cases (is_locked b.now u)) [
        | inl stopped ↦
            locked_stays_refused (suc n) k u (b ∷ wrong) a w h
              (locked_by_status (suc n) b.now u h.near stopped) all same
        | inr free ↦
            let (id, email, hash, unbarred, near) = failed_user n b.now u h.near h.unbarred free in
            all_wrong_then_locked n k (sync_role_fields (increment_failed_login b.now u)) wrong a
              (try_login b w).0 (failed_attempt n k u b w h all.0.0 all.0.1 free)
              (omega (arith, enough)) (rw (email, hash) all.1) (same ∙ sym email)
      ]

  -- After five logins of a user with a wrong password, in a row, every login of that user is refused, with
  -- the right password too and at any later time. The user is stored, is the only one of the email, is
  -- neither disabled nor suspended, and had no lock set before.
  pub five_failures_lock_the_account :
      (k : ℕ) (u : User) (wrong : List Attempt) (a : Attempt) (w : World C S)
      → C.get k w.users ≡ some u
      → OnlyOwner u.email k w.users
      → is_barred u ≡ false
      → u.locked_until ≡ none
      → WrongLogins u.email u.password_hash wrong
      → 5 ≤ length wrong
      → a.email ≡ u.email
      → (try_login a (try_logins wrong w)).1 ≡ err account_locked
  unfolding Near
  five_failures_lock_the_account k u wrong a w found only unbarred unset all enough same =
      all_wrong_then_locked 5 k u wrong a w
        (record {
          found = found;
          only = only;
          unbarred = unbarred;
          near = inr (unset, omega arith, omega arith);
        })
        enough all same
