-- ===== src/Accounts/SessionLaws.antt =====
-- The life of a session: its tokens are renewed one after the other, and once revoked it stays so.
use udyog_setu.Common.{
  ℕ, String, Option, none, some, Bool, true, false, ◌&&◌, ◌≡◌, ◌≢◌, refl, ap, ◌∙◌, arith, inl, inr,
  Bool-cases, Option-cases, str_eq, eq_iff, is_some, ◌==◌, ==_iff, if◌then◌else◌,
}
use udyog_setu.Store.{Collection}
use udyog_setu.Store.Updates.{
  update_many, get-update_many, update_one_hit, find_one_hit, stored_same,
}
use udyog_setu.Accounts.Users.{User, user_id}
use udyog_setu.Accounts.Sessions.{
  Session, id_of_session, is_live, rotated, revoked, find_session_by_id, rotate_refresh_token,
  revoke_all_sessions,
}
use udyog_setu.Accounts.Login.{
  Crypto, Config, World, Claims, session, Answer, ok, err, session_revoked, token_invalid, Grant,
  refresh_session, renew, with_sessions, build_claims, refresh,
}

is_live_only : (id : ℕ) (s : Session) → is_live id s ≡ true → s.session_id ≡ id
is_live_only id s h = ground arith

module _ (crypto : Crypto) (config : Config) (C : Collection User user_id)
    (S : Collection Session id_of_session) where
  not_live :
      (id : ℕ) (s : Session) (docs : S.Docs)
      → S.get id docs ≡ some s
      → is_live id s ≡ false
      → find_session_by_id S id docs ≡ none
  unfolding find_session_by_id
  not_live id s docs found dead = elim (Option-cases (S.find_one (is_live id) docs)) [
    | inl nothing ↦ nothing
    | inr (t, hit) ↦
        let sound = S.find_one_sound (is_live id) docs t hit in
        let same = stored_same S id s t docs found sound.1 (is_live_only id t sound.0) in
        ground (arith, ap (is_live id) same, sound.0)
  ]

  -- A token of a session that is no longer live is refused.
  dead_session_is_refused :
      (now id : ℕ) (token : String) (s : Session) (w : World C S) (c : Claims)
      → crypto.verify_refresh now token ≡ some c
      → c.session_id ≡ session id
      → S.get id w.sessions ≡ some s
      → is_live id s ≡ false
      → refresh_session crypto config C S now token w ≡ (w, err session_revoked)
  unfolding refresh_session
  dead_session_is_refused now id token s w c accepted names found dead =
      rw (accepted, refresh_session, names, not_live id s w.sessions found dead) refl

  -- When all sessions of a user are revoked, no refresh token of a session that the user had renews that
  -- session again: the renewal is refused and changes nothing. Access tokens are not meant.
  pub revoke_all_stops_tokens :
      (now later user_id id : ℕ) (reason token : String) (s : Session) (w : World C S) (c : Claims)
      → S.get id w.sessions ≡ some s
      → s.user_id ≡ user_id
      → crypto.verify_refresh later token ≡ some c
      → c.session_id ≡ session id
      → let w = with_sessions C S w (revoke_all_sessions S now user_id reason w.sessions) in
        refresh_session crypto config C S later token w ≡ (w, err session_revoked)
  unfolding revoke_all_sessions
  revoke_all_stops_tokens now later user_id id reason token s w c found owner accepted names =
      let p : Session → Bool = λ t. t.user_id == user_id && t.is_active in
      let after = get-update_many S p (revoked now reason) id s w.sessions (λ e. refl) found in
      dead_session_is_refused later id token (if p s then revoked now reason s else s)
        (with_sessions C S w (update_many S p (revoked now reason) w.sessions)) c accepted names
        after (ground arith)

  pub live_session_renews :
      (now id : ℕ) (token : String) (s : Session) (w : World C S) (c : Claims)
      → crypto.verify_refresh now token ≡ some c
      → c.session_id ≡ session id
      → S.get id w.sessions ≡ some s
      → is_live id s ≡ true
      → refresh_session crypto config C S now token w ≡ renew crypto config C S now token c.sub s w
  unfolding refresh_session find_session_by_id
  live_session_renews now id token s w c accepted names found live =
      let hit =
        find_one_hit S (is_live id) id s w.sessions (λ t stored. is_live_only id t) found live in
      elim (Bool-cases s.is_active) [
        | inr inactive ↦ ground arith
        | inl running ↦ elim (Bool-cases (is_some s.revoked_at)) [
          | inl gone ↦ ground arith
          | inr kept ↦ rw (accepted, refresh_session, names, hit, running, kept) refl
        ]
      ]

  -- The refresh token that a renewal signs, for the user and the session.
  abbrev pub next_token : ℕ → User → ℕ → String
  next_token now u id = crypto.sign_refresh (build_claims now u (session id) refresh)

  abbrev pub new_token : World C S × Answer Grant → Option String
  new_token (w, ok g) = some g.refresh_token
  new_token (w, err e) = none

  pub renew_rotates :
      (now sub : ℕ) (token : String) (s : Session) (u : User) (w : World C S)
      → S.get s.session_id w.sessions ≡ some s
      → is_live s.session_id s ≡ true
      → s.refresh_token_hash ≡ crypto.hash_token token
      → C.get sub w.users ≡ some u
      → let r = renew crypto config C S now token sub s w in
        let next = next_token now u s.session_id in
        (new_token r ≡ some next)
        × (S.get s.session_id r.0.sessions
            ≡ some (rotated now config.refresh_lifetime (crypto.hash_token next) s))
        × (r.0.users ≡ w.users)
  unfolding renew rotate_refresh_token
  renew_rotates now sub token s u w found live current user =
      let same = (eq_iff s.refresh_token_hash (crypto.hash_token token)).1 current in
      let next = next_token now u s.session_id in
      let f = rotated now config.refresh_lifetime (crypto.hash_token next) in
      let hit =
        update_one_hit S (is_live s.session_id) f s.session_id s w.sessions
          (λ t stored. is_live_only s.session_id t) found live in
      rw (same, user)
        (
          refl,
          ap (λ (r : S.Docs × Option Session). S.get s.session_id r.0) hit
              ∙ S.get-put s.session_id (f s) w.sessions
              ∙ ap (λ b. if b then some (f s) else S.get s.session_id w.sessions)
                  ((==_iff s.session_id s.session_id).1 refl),
          refl,
        )

  renew_mismatch :
      (now sub : ℕ) (token : String) (s : Session) (w : World C S)
      → s.refresh_token_hash ≢ crypto.hash_token token
      → renew crypto config C S now token sub s w ≡ (w, err token_invalid)
  unfolding renew
  renew_mismatch now sub token s w differ =
      elim (Bool-cases (str_eq s.refresh_token_hash (crypto.hash_token token))) [
        | inl same ↦
            absurd (differ ((eq_iff s.refresh_token_hash (crypto.hash_token token)).0 same))
        | inr other ↦ rw other refl
      ]

  -- A live session's current refresh token is exchanged for a new one. Where the digests of the two
  -- differ, the old one is refused as long as the session lives on with the new one, and the new one is
  -- accepted in its turn.
  pub refresh_token_rotates :
      (now later : ℕ) (token : String) (s : Session) (u : User) (w : World C S) (c d : Claims)
      → S.get s.session_id w.sessions ≡ some s
      → is_live s.session_id s ≡ true
      → s.refresh_token_hash ≡ crypto.hash_token token
      → C.get c.sub w.users ≡ some u
      → c.session_id ≡ session s.session_id
      → crypto.verify_refresh now token ≡ some c
      → crypto.verify_refresh later token ≡ some c
      → crypto.verify_refresh later (next_token now u s.session_id) ≡ some d
      → d.session_id ≡ session s.session_id
      → d.sub ≡ c.sub
      → crypto.hash_token (next_token now u s.session_id) ≢ crypto.hash_token token
      → let next = next_token now u s.session_id in
        let r = refresh_session crypto config C S now token w in
        (new_token r ≡ some next)
        × ((refresh_session crypto config C S later token r.0).1 ≡ err token_invalid)
        × (new_token (refresh_session crypto config C S later next r.0)
            ≡ some (next_token later u s.session_id))
  refresh_token_rotates now later token s u w c d found live current user names accepted
        accepted_later accepted_next names_next same_user differ =
      let next = next_token now u s.session_id in
      let s' = rotated now config.refresh_lifetime (crypto.hash_token next) s in
      let w' = (renew crypto config C S now token c.sub s w).0 in
      let first = live_session_renews now s.session_id token s w c accepted names found live in
      let kept = renew_rotates now c.sub token s u w found live current user in
      let user' : C.get d.sub w'.users ≡ some u =
        ap (λ i. C.get i w'.users) same_user ∙ ap (C.get c.sub) kept.2 ∙ user in
      let old =
        live_session_renews later s.session_id token s' w' c accepted_later names kept.1 live in
      let new =
        live_session_renews later s.session_id next s' w' d accepted_next names_next kept.1 live in
      rw first (
        kept.0,
        ap (λ (r : World C S × Answer Grant). r.1)
            (old ∙ renew_mismatch later c.sub token s' w' differ),
        ap new_token new ∙ (renew_rotates later d.sub next s' u w' kept.1 live refl user').0,
      )
