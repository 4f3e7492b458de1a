-- ===== src/Service/StatusChange/Sessions.antt =====
-- The sessions that ChangeUserStatus locks for a ban: all open sessions of the target are found.
use content_platform.Prelude.{
  Mem, ℤ, true, false, Option, none, some, List, [], ◌∷◌, ◌≡◌, inl, inr, arith, All, All-weaken,
  All-of_sorted_selection, subst, sort_by, select_where, eq_ℤ, eq_ℤ_sound, eq_ℤ_refl, any_where,
  Bool-cases,
}
use content_platform.Domain.{UserSession}
use content_platform.Errors.{ok}
use content_platform.Ports.{SessionLockRequest}
use content_platform.Database.{Store, Environment}
use content_platform.Database.Monad.Laws.{Result-cases}
use content_platform.Repository.{contains_id, sorted_unique_ids, drop_repeats}
use content_platform.Repository.Sessions.{lock_sessions, is_requested, session_before}
use content_platform.Repository.Sessions
use content_platform.Repository.Revocation.{Covers, Covers-cons, selected_first, is_open_of, ids_of}
use content_platform.Service.StatusChange.{sort_out_sessions, validate_administrative_session_set}

module _ (actor_id actor_session_id target_id : ℤ) where
  actor_session_is_closed :
      (row : UserSession)
      → eq_ℤ actor_id target_id ≡ false
      → eq_ℤ row.user_id actor_id ≡ true
      → is_open_of target_id row ≡ false
  unfolding is_open_of
  actor_session_is_closed row apart own = ground (
    arith,
    eq_ℤ_sound row.user_id actor_id,
    eq_ℤ_sound row.user_id target_id,
    eq_ℤ_refl target_id,
  )

  -- Every open session of the target among the rows is one of those that are returned.
  sort_out_sessions-Covers :
      (previous : Option ℤ) (actor_session : Option UserSession) (rows : List UserSession)
      {found : UserSession} {targets : List UserSession}
      → eq_ℤ actor_id target_id ≡ false
      → sort_out_sessions actor_id actor_session_id target_id previous actor_session rows
        ≡ ok (found, targets)
      → Covers target_id (ids_of targets) rows
  unfolding sort_out_sessions ids_of
  sort_out_sessions-Covers previous actor_session [] apart h = tt
  sort_out_sessions-Covers previous actor_session (row ∷ rest) {found} {targets} apart h =
      elim (Bool-cases (eq_ℤ row.id actor_session_id)) [
        | inl e ↦ (
          (λ o. absurd (ground (arith, actor_session_is_closed row apart))),
          sort_out_sessions-Covers (some row.id) (some row) rest {found = found} apart
              (ground arith),
        )
        | inr e ↦
            elim (Result-cases (
              sort_out_sessions actor_id actor_session_id target_id (some row.id) actor_session
                rest)) [
                  | inl ((f, later), g) ↦
                      subst (λ ts. Covers target_id (ids_of ts) (row ∷ rest)) {x = row ∷ later}
                        {y = targets} (ground arith)
                        (
                          selected_first target_id row (ids_of later),
                          Covers-cons target_id row.id (ids_of later) rest
                              (sort_out_sessions-Covers (some row.id) actor_session rest apart g),
                        )
                  | inr (x, g) ↦ absurd (ground arith)
                ]
      ]

-- The session that is found is one of the rows, or the one that was found before.
sort_out_sessions-Mem :
    (actor_id actor_session_id target_id : ℤ) (all : List UserSession) (previous : Option ℤ)
    (actor_session : Option UserSession) (rows : List UserSession) {found : UserSession}
    {targets : List UserSession}
    → All (λ row. Mem row all) rows
    → ((row : UserSession) → actor_session ≡ some row → Mem row all)
    → sort_out_sessions actor_id actor_session_id target_id previous actor_session rows
      ≡ ok (found, targets)
    → Mem found all
unfolding sort_out_sessions
sort_out_sessions-Mem actor_id actor_session_id target_id all previous none [] h k e = absurd (cc)
sort_out_sessions-Mem actor_id actor_session_id target_id all previous (some row) [] {found} h k e =
    k found (ground (arith, e))
sort_out_sessions-Mem actor_id actor_session_id target_id all previous actor_session (row ∷ rest)
      {found} {targets} h k e =
    elim (Bool-cases (eq_ℤ row.id actor_session_id)) [
      | inl own ↦
          sort_out_sessions-Mem actor_id actor_session_id target_id all (some row.id) (some row)
            rest {found = found} {targets = targets} h.1
            (λ other f. subst (λ r. Mem r all) {x = row} {y = other} (ground (arith, f)) h.0)
            (ground (arith, own, e))
      | inr other ↦
          elim (Result-cases (
            sort_out_sessions actor_id actor_session_id target_id (some row.id) actor_session
              rest)) [
                | inl ((f, later), g) ↦
                    subst (λ r. Mem r all) {x = f} {y = found} (ground (arith, other, g, e))
                      (sort_out_sessions-Mem actor_id actor_session_id target_id all (some row.id)
                        actor_session rest {found = f} {targets = later} h.1 k g)
                | inr (x, g) ↦ absurd (ground (arith, other, g, e))
              ]
    ]

pub sorted_out-Mem :
    (actor_id actor_session_id target_id : ℤ) (all rows : List UserSession) {found : UserSession}
    {targets : List UserSession}
    → All (λ row. Mem row all) rows
    → validate_administrative_session_set actor_id actor_session_id target_id rows
      ≡ ok (found, targets)
    → Mem found all
unfolding validate_administrative_session_set
sorted_out-Mem actor_id actor_session_id target_id all rows h e =
    sort_out_sessions-Mem actor_id actor_session_id target_id all none none rows h
      (λ row f. absurd (cc)) e

abbrev pub ban_locks : ℤ → ℤ → SessionLockRequest
ban_locks actor_session_id target_id = record {
  session_ids = actor_session_id ∷ [];
  active_user_ids = target_id ∷ [];
}

module _ (env : Environment) (actor_id actor_session_id target_id : ℤ) where
  lock_sessions-rows :
      (s : Store) {rows : List UserSession} {s' : Store}
      → lock_sessions env (ban_locks actor_session_id target_id) s ≡ (ok rows, s')
      → rows
        ≡ sort_by session_before
            (select_where (is_requested (actor_session_id ∷ []) (target_id ∷ [])) s.sessions)
  unfolding lock_sessions Sessions.lock_rows sorted_unique_ids drop_repeats
  lock_sessions-rows s h = ground arith

  open_is_requested :
      (row : UserSession)
      → is_open_of target_id row ≡ true
      → is_requested (actor_session_id ∷ []) (target_id ∷ []) row ≡ true
  unfolding is_open_of is_requested contains_id any_where
  open_is_requested row o = ground (arith, eq_ℤ_sound row.user_id target_id, eq_ℤ_refl target_id)

  -- The sessions that are locked and sorted out are all that are open for the target.
  pub ban_locks-Covers :
      (s : Store) {rows : List UserSession} {s' : Store} {found : UserSession}
      {targets : List UserSession}
      → eq_ℤ actor_id target_id ≡ false
      → lock_sessions env (ban_locks actor_session_id target_id) s ≡ (ok rows, s')
      → validate_administrative_session_set actor_id actor_session_id target_id rows
        ≡ ok (found, targets)
      → Covers target_id (ids_of targets) s.sessions
  unfolding validate_administrative_session_set
  ban_locks-Covers s {rows} {s'} {found} {targets} apart locked sorted =
      let chosen = is_requested (actor_session_id ∷ []) (target_id ∷ []) in
      let named = λ (row : UserSession).
        is_open_of target_id row ≡ true → contains_id (ids_of targets) row.id ≡ true in
      let covers =
        sort_out_sessions-Covers actor_id actor_session_id target_id none none rows apart sorted in
      let all = subst (All named) (lock_sessions-rows s locked) covers in
      All-weaken (λ row. chosen row ≡ true → named row) named s.sessions
        (λ row k o. k (open_is_requested row o) o)
        (All-of_sorted_selection named session_before chosen s.sessions all)
