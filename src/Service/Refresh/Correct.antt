-- ===== src/Service/Refresh/Correct.antt =====
-- Refresh as a whole: what a successful call has found in the database, and what it leaves there.
use content_platform.Prelude.{
  inl, inr, ◌≤◌, ◌<◌, ◌/◌, ◌+◌, ℤ, Text, ◌≡◌, true, none, arith, ◌++◌, update_where, Mem, subst,
}
use content_platform.GoTime.{Time, second, unix_difference}
use content_platform.Domain.{User, UserSession, can_login, normalize_time}
use content_platform.Errors.{ok, invalid_refresh_token}
use content_platform.Ports.{Digest}
use content_platform.Database.{
  Store, Environment, has_session_id, before_statement, before_transaction,
}
use content_platform.Database.Monad.Laws.{Result-cases, >>=-ok}
use content_platform.Repository.{within_tx}
use content_platform.Repository.Atomic.{within_tx-ok}
use content_platform.Repository.Sessions.{set_token, find_session_owner}
use content_platform.Service.{Service, check_live_context}
use content_platform.Service.Rows.{lock_user, lock_user-ok}
use content_platform.Service.Mute.Recovery.{recovered_users, recovered_audits}
use content_platform.Service.Refresh.{
  access_expiry, RefreshInput, RefreshResult, refresh, refresh_locked, refresh_user,
  refresh_lookup_error,
}
use content_platform.Service.Untouched.{find_session_owner-state}
use content_platform.Service.Refresh.Sound.{
  access_expiry-bounds, issue_refreshed-signed, check_refreshable-ok, issue_refreshed-ok,
  refresh_user-ok, access_lifetime,
}

-- A refresh of `session` and its owner, found in `before`, that leaves `after`.
pub record IsRefreshed (env : Environment) (service : Service) (input : RefreshInput)
    (session_id : ℤ) (candidate : Digest) (secret : Text) (digest : Digest) (before : Store)
    (result : RefreshResult) (after : Store) : Type 0 where
  pub session : UserSession
  pub user : User
  pub session_stored : Mem session before.sessions
  pub user_stored : Mem user before.users
  pub identified : session.id ≡ session_id
  pub owned : session.user_id ≡ user.id
  pub unrevoked : session.revoked_at ≡ none
  pub unexpired : normalize_time env.clock_now < normalize_time session.expires_at
  pub matching : service.refresh_token_generator.match_digest session.token_hash candidate ≡ true
  pub undeleted : user.deleted_at ≡ none
  pub allowed : can_login user.status ≡ true
  pub formatted : service.refresh_token_generator.format session.id secret ≡ ok result.refresh_token
  pub expiry : Time
  pub jwt_id : Text
  pub jwt_id_drawn : service.access_token_manager.generate_jwt_id ≡ ok jwt_id
  pub signed :
      service.access_token_manager.sign user.id session.id
        (normalize_time env.clock_now)
        expiry
        jwt_id
      ≡ ok result.access_token
  pub not_after_session : expiry ≤ normalize_time session.expires_at
  pub not_after_term : expiry ≤ normalize_time env.clock_now + service.access_token_ttl
  pub shown_life : result.expires_in ≡ unix_difference expiry (normalize_time env.clock_now)
  pub same_end : result.refresh_expires_at ≡ normalize_time session.expires_at
  pub positive_life : 0 < result.expires_in
  pub within_session :
      normalize_time env.clock_now / second + result.expires_in ≤ result.refresh_expires_at / second
  pub rotated : after ≡ record {
    users = recovered_users user (normalize_time env.clock_now) before.users;
    sessions = update_where (has_session_id session_id) (set_token digest) before.sessions;
    audits = before.audits ++ recovered_audits user (normalize_time env.clock_now) input.request_id;
  }

module _ (env : Environment) (service : Service) (input : RefreshInput) (session_id : ℤ)
    (candidate : Digest) (secret : Text) (digest : Digest)
    (drawn : service.refresh_token_generator.generate ≡ ok (secret, digest)) where
  refresh_locked-ok :
      (owner_id : ℤ) (s : Store) {result : RefreshResult} {s' : Store}
      → refresh_locked env service input session_id owner_id candidate s ≡ (ok result, s')
      → IsRefreshed env service input session_id candidate secret digest s result s'
  unfolding refresh_locked
  refresh_locked-ok owner_id s {result} {s'} h =
      let lock =
        lock_user env refresh_lookup_error owner_id invalid_refresh_token invalid_refresh_token in
      let k = refresh_user env service input session_id owner_id candidate in
      let (user, _, e, f) = >>=-ok lock k s h in
      let (same, stored, _) =
        lock_user-ok env refresh_lookup_error owner_id invalid_refresh_token invalid_refresh_token s
          e in
      let g = subst (λ u. k user u ≡ (ok result, s')) same f in
      let (session, session_stored, checked, issued) =
        refresh_user-ok env service input session_id owner_id candidate user s g in
      let (_, identified, owned, unrevoked, matching, undeleted, allowed) =
        check_refreshable-ok env service session_id owner_id candidate user session checked in
      let t = normalize_time env.clock_now in
      let (formatted, same_end, unexpired, valid, life, final) =
        issue_refreshed-ok env service input user session t s drawn issued in
      let (jwt_id, drawn_id, signed) =
        issue_refreshed-signed env service input user session t s drawn issued in
      let (before_end, before_term) =
        access_expiry-bounds service.access_token_ttl t (normalize_time session.expires_at) in
      let (positive, within, _) =
        access_lifetime service.access_token_ttl env.clock_now session.expires_at valid in
      record {
        session = session;
        user = user;
        session_stored = session_stored;
        user_stored = stored;
        identified = identified;
        owned = owned;
        unrevoked = unrevoked;
        unexpired = unexpired;
        matching = matching;
        undeleted = undeleted;
        allowed = allowed;
        formatted = formatted;
        expiry = access_expiry service.access_token_ttl t (normalize_time session.expires_at);
        jwt_id = jwt_id;
        jwt_id_drawn = drawn_id;
        signed = signed;
        not_after_session = before_end;
        not_after_term = before_term;
        shown_life = life;
        same_end = same_end;
        positive_life = rw life positive;
        within_session = rw (life, same_end) within;
        rotated = rw (← identified) final;
      }

  refresh_transaction :
      (s : Store) {result : RefreshResult} {s' : Store}
      → service.refresh_token_generator.parse input.refresh_token ≡ ok (session_id, candidate)
      → refresh env service input s ≡ (ok result, s')
      → (owner_id : ℤ) × (within_tx env
            (refresh_locked env service input session_id owner_id candidate)
            (env.others before_statement s)
          ≡ (ok result, s'))
  unfolding refresh check_live_context
  refresh_transaction s parsed h = elim (Result-cases (find_session_owner env session_id s).0) [
    | inl (owner_id, e) ↦ (owner_id, grind (arith, find_session_owner-state))
    | inr (x, e) ↦ absurd (ground arith)
  ]

  -- A successful refresh found an unrevoked, unexpired session whose stored digest matches the
  -- token, and a user who may log in; afterwards exactly that session's digest is replaced, besides
  -- the lifting of a mute that had run out. The access token is signed, with an identifier that was
  -- drawn for it, for that user and that session, from the time of the call up to an instant that is
  -- not after the session's end or the token's own term, and `expires_in` is the seconds up to it.
  pub refresh_sound :
      (s : Store) {result : RefreshResult} {s' : Store}
      → service.refresh_token_generator.parse input.refresh_token ≡ ok (session_id, candidate)
      → refresh env service input s ≡ (ok result, s')
      → IsRefreshed env service input session_id candidate secret digest
          (env.others before_transaction (env.others before_statement s))
          result
          s'
  refresh_sound s parsed h =
      let (owner_id, e) = refresh_transaction s parsed h in
      let callback = refresh_locked env service input session_id owner_id candidate in
      refresh_locked-ok owner_id _ (within_tx-ok env callback (env.others before_statement s) e).1
