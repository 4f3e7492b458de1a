-- ===== src/Repository/Revocation.antt =====
-- RevokeLockedSessions (session.go): after it, no session of the user is open.
use content_platform.Prelude.{
  ℤ, Bool, true, false, ◌&&◌, ◌||◌, List, [], ◌∷◌, map, ◌≡◌, refl, inl, inr, arith, eq_ℤ,
  eq_ℤ_sound, eq_ℤ_refl, update_where, select_where, any_where, All, All-weaken, Bool-cases, ◌∙◌,
  ap, sym, subst,
}
use content_platform.GoTime.{Time}
use content_platform.Domain.{UserSession, is_nil}
use content_platform.Database.{Store, Environment}
use content_platform.Repository.{sorted_unique_ids, contains_id}
use content_platform.Repository.Atomic.{is_ok}
use content_platform.Repository.Locking.{open_sessions, lock_active_sessions-ok}
use content_platform.Errors.{ok}
use content_platform.Repository.Identifiers.{contains_id-sorted_unique_ids, any_where-sort_by}
use content_platform.Repository.Sessions.{
  is_unrevoked, set_revoked, is_requested, session_before, revoke_locked_session, revoke_each,
  revoke_locked_sessions, lock_active_sessions,
}

-- An open session of the user.
unfoldable pub is_open_of : ℤ → UserSession → Bool
is_open_of user_id row = eq_ℤ row.user_id user_id && is_nil row.revoked_at

-- Every open session of the user is named by `ids`.
abbrev pub Covers : ℤ → List ℤ → List UserSession → Type 0
Covers user_id ids rows =
    All (λ (row : UserSession). is_open_of user_id row ≡ true → contains_id ids row.id ≡ true) rows

revoked_is_closed :
    (user_id : ℤ) (at : Time) (row : UserSession) → is_open_of user_id (set_revoked at row) ≡ false
unfolding is_open_of set_revoked is_nil
revoked_is_closed user_id at row = ground arith

covered_by_rest :
    (user_id id : ℤ) (ids : List ℤ) (row : UserSession)
    → is_unrevoked id row ≡ false
    → (is_open_of user_id row ≡ true → contains_id (id ∷ ids) row.id ≡ true)
    → is_open_of user_id row ≡ true
    → contains_id ids row.id ≡ true
unfolding is_unrevoked contains_id any_where is_open_of
covered_by_rest user_id id ids row e h o = ground (arith, eq_ℤ_sound id row.id, eq_ℤ_refl id, h)

-- One UPDATE takes one identifier off those that remain.
covered_after :
    (user_id : ℤ) (at : Time) (id : ℤ) (ids : List ℤ) (rows : List UserSession)
    → Covers user_id (id ∷ ids) rows
    → Covers user_id ids (update_where (is_unrevoked id) (set_revoked at) rows)
unfolding update_where
covered_after user_id at id ids [] h = tt
covered_after user_id at id ids (row ∷ rest) h = elim (Bool-cases (is_unrevoked id row)) [
  | inl e ↦ rw e (
    (λ o. absurd (ground (arith, revoked_is_closed user_id at row))),
    covered_after user_id at id ids rest h.1,
  )
  | inr e ↦
      rw e (covered_by_rest user_id id ids row e h.0, covered_after user_id at id ids rest h.1)
]

pub none_open :
    (user_id : ℤ) (rows : List UserSession)
    → Covers user_id [] rows
    → any_where (is_open_of user_id) rows ≡ false
unfolding any_where contains_id
none_open user_id [] h = refl
none_open user_id (row ∷ rest) h = ground (arith, h.0, none_open user_id rest h.1)

-- The sessions that are left once every identifier is taken.
unfoldable pub all_revoked : Time → List ℤ → List UserSession → List UserSession
all_revoked at [] rows = rows
all_revoked at (id ∷ ids) rows =
    all_revoked at ids (update_where (is_unrevoked id) (set_revoked at) rows)

pub all_revoked-none_open :
    (user_id : ℤ) (at : Time) (ids : List ℤ) (rows : List UserSession)
    → Covers user_id ids rows
    → any_where (is_open_of user_id) (all_revoked at ids rows) ≡ false
unfolding all_revoked
all_revoked-none_open user_id at [] rows h = none_open user_id rows h
all_revoked-none_open user_id at (id ∷ ids) rows h =
    all_revoked-none_open user_id at ids (update_where (is_unrevoked id) (set_revoked at) rows)
      (covered_after user_id at id ids rows h)

-- The identifiers of sessions.
unfoldable pub ids_of : List UserSession → List ℤ
ids_of rows = map (λ row. row.id) rows

contains_id-ids_of :
    (rows : List UserSession) (id : ℤ)
    → contains_id (ids_of rows) id ≡ any_where (λ (row : UserSession). eq_ℤ row.id id) rows
unfolding contains_id ids_of any_where
contains_id-ids_of [] id = refl
contains_id-ids_of (row ∷ rest) id = ap (λ b. eq_ℤ row.id id || b) (contains_id-ids_of rest id)

pub Covers-cons :
    (user_id id : ℤ) (ids : List ℤ) (rows : List UserSession)
    → Covers user_id ids rows
    → Covers user_id (id ∷ ids) rows
unfolding contains_id any_where
Covers-cons user_id id ids rows h =
    All-weaken
      (λ (row : UserSession). is_open_of user_id row ≡ true → contains_id ids row.id ≡ true)
      (λ (row : UserSession). is_open_of user_id row ≡ true → contains_id (id ∷ ids) row.id ≡ true)
      rows (λ row k o. ground (arith, k o)) h

pub selected_first :
    (user_id : ℤ) (row : UserSession) (ids : List ℤ)
    → is_open_of user_id row ≡ true
    → contains_id (row.id ∷ ids) row.id ≡ true
unfolding contains_id any_where
selected_first user_id row ids o = ground (arith, eq_ℤ_refl row.id)

unselected :
    (user_id : ℤ) (row : UserSession)
    → is_requested [] (user_id ∷ []) row ≡ false
    → is_open_of user_id row ≡ false
unfolding is_requested is_open_of contains_id any_where
unselected user_id row e = ground (arith, eq_ℤ_sound row.user_id user_id, eq_ℤ_refl user_id)

selection-Covers :
    (user_id : ℤ) (rows : List UserSession)
    → Covers user_id (ids_of (select_where (is_requested [] (user_id ∷ [])) rows)) rows
unfolding select_where ids_of
selection-Covers user_id [] = tt
selection-Covers user_id (row ∷ rest) =
    let chosen = is_requested [] (user_id ∷ []) in
    let ids = ids_of (select_where chosen rest) in
    let named = λ (ids : List ℤ). Covers user_id ids (row ∷ rest) in
    let all = ids_of (select_where chosen (row ∷ rest)) in
    elim (Bool-cases (chosen row)) [
      | inl e ↦ subst named {x = row.id ∷ ids} {y = all} (ground (arith, e)) (
        selected_first user_id row ids,
        Covers-cons user_id row.id ids rest (selection-Covers user_id rest),
      )
      | inr e ↦
          subst named {x = ids} {y = all} (ground (arith, e)) (
            (λ o. absurd (ground (arith, unselected user_id row e))),
            selection-Covers user_id rest,
          )
    ]

pub Covers-sorted :
    (user_id : ℤ) (ids : List ℤ) (rows : List UserSession)
    → Covers user_id ids rows
    → Covers user_id (sorted_unique_ids ids) rows
Covers-sorted user_id ids rows h =
    All-weaken
      (λ (row : UserSession). is_open_of user_id row ≡ true → contains_id ids row.id ≡ true)
      (λ (row : UserSession).
        is_open_of user_id row ≡ true → contains_id (sorted_unique_ids ids) row.id ≡ true)
      rows (λ row k o. contains_id-sorted_unique_ids ids row.id ∙ k o) h

-- The sessions that lockActiveSessions returns for a user are all that are open.
open_sessions-Covers :
    (user_id : ℤ) (s : Store)
    → Covers user_id (sorted_unique_ids (ids_of (open_sessions s user_id))) s.sessions
open_sessions-Covers user_id s =
    let chosen = select_where (is_requested [] (user_id ∷ [])) s.sessions in
    All-weaken
      (λ (row : UserSession).
        is_open_of user_id row ≡ true → contains_id (ids_of chosen) row.id ≡ true)
      (λ (row : UserSession).
        is_open_of user_id row ≡ true
        → contains_id (sorted_unique_ids (ids_of (open_sessions s user_id))) row.id ≡ true)
      s.sessions
      (λ row k o.
        contains_id-sorted_unique_ids (ids_of (open_sessions s user_id)) row.id
        ∙ contains_id-ids_of (open_sessions s user_id) row.id
        ∙ any_where-sort_by (λ (r : UserSession). eq_ℤ r.id row.id) session_before chosen
        ∙ sym (contains_id-ids_of chosen row.id)
        ∙ k o)
      (selection-Covers user_id s.sessions)

module _ (env : Environment) where
  revoke_locked_session-state :
      (at : Time) (id : ℤ) (s : Store)
      → let (r, s') = revoke_locked_session env at id s in
        is_ok r ≡ true
        → s' ≡ record s { sessions = update_where (is_unrevoked id) (set_revoked at) s.sessions }
  unfolding revoke_locked_session
  revoke_locked_session-state at id s h = ground arith

  revoke_each-state :
      (at : Time) (ids : List ℤ) (s : Store)
      → let (r, s') = revoke_each env at ids s in
        is_ok r ≡ true → s' ≡ record s { sessions = all_revoked at ids s.sessions }
  unfolding revoke_each all_revoked
  revoke_each-state at [] s h = refl
  revoke_each-state at (id ∷ ids) s h =
      grind (arith, revoke_locked_session-state, revoke_each-state at ids)

  pub revoke_locked_sessions-state :
      (ids : List ℤ) (at : Time) (s : Store)
      → let (r, s') = revoke_locked_sessions env ids at s in
        is_ok r ≡ true
        → s' ≡ record s { sessions = all_revoked at (sorted_unique_ids ids) s.sessions }
  unfolding revoke_locked_sessions
  revoke_locked_sessions-state ids at s h = revoke_each-state at (sorted_unique_ids ids) s h

-- None of the sessions that LockActiveSessions finds is open once all of them are revoked.
pub all_revoked-open_sessions :
    (user_id : ℤ) (at : Time) (s : Store)
    → any_where
        (is_open_of user_id)
        (all_revoked at (sorted_unique_ids (ids_of (open_sessions s user_id))) s.sessions)
      ≡ false
all_revoked-open_sessions user_id at s =
    all_revoked-none_open user_id at (sorted_unique_ids (ids_of (open_sessions s user_id)))
      s.sessions (open_sessions-Covers user_id s)

-- LockActiveSessions and then RevokeLockedSessions of what it returned, both of which succeed: no
-- session of the user is open, and the users and the audit entries are what they were.
pub revocation_complete :
    (env : Environment) (user_id : ℤ) (at : Time) (s : Store) {locked : List UserSession}
    {between after : Store}
    → lock_active_sessions env user_id s ≡ (ok locked, between)
    → revoke_locked_sessions env (ids_of locked) at between ≡ (ok tt, after)
    → (any_where (is_open_of user_id) after.sessions ≡ false)
      × (after.users ≡ s.users)
      × (after.audits ≡ s.audits)
revocation_complete env user_id at s {locked} {between} {after} h k =
    let (same, rows) = lock_active_sessions-ok env user_id s h in
    let ids = sorted_unique_ids (ids_of locked) in
    let left : after ≡ record between { sessions = all_revoked at ids between.sessions } =
      ground (arith, k, revoke_locked_sessions-state env (ids_of locked) at between) in
    let left' : after ≡ record s { sessions = all_revoked at ids s.sessions } =
      subst (λ (t : Store). after ≡ record t { sessions = all_revoked at ids t.sessions }) same
        left in
    rw left' (
      subst
          (λ rows.
            any_where (is_open_of user_id)
              (all_revoked at (sorted_unique_ids (ids_of rows)) s.sessions)
            ≡ false)
          (sym rows) (all_revoked-open_sessions user_id at s),
      refl,
      refl,
    )
