-- ===== src/Service/Profile/Sound.antt =====
-- What a successful UpdateMe has checked in its transaction, and the database that it leaves.
use content_platform.Prelude.{
  ℤ, Text, true, false, ◌||◌, ◌≡◌, refl, none, List, arith, eq_ℤ_sound, text_eq_sound, update_where,
  if◌then◌else◌,
}
use content_platform.GoTime.{Time}
use content_platform.Domain.{User, UserSession, is_nil}
use content_platform.Domain.Validation.{TextRules}
use content_platform.Errors.{Result, ok, err}
use content_platform.Ports.{Field, unset, set_field, UserMutation}
use content_platform.Database.{Store, Environment, has_id}
use content_platform.Repository.Atomic.{is_ok}
use content_platform.Repository.Users.{field_or, field_is_set, apply_mutation}
use content_platform.Service.Checks.{strict_authentication_user_error, should_recover_expired_mute}
use content_platform.Service.Steps.{steps}
use content_platform.Service.Deletion.Sound.{update_user-state}
use content_platform.Service.Profile.{
  UpdateMeInput, valid_profile_mutation_result, changed_field, profile_mutation, write_mutation,
  check_own_session,
}

-- The users after the UPDATE, which is left out where no field changes.
unfoldable pub written : UpdateMeInput → User → Time → List User → List User
written input user t users =
    let mutation = profile_mutation input user t in
    if field_is_set mutation.display_name || field_is_set mutation.bio
    then update_where (has_id mutation.user_id) (apply_mutation mutation) users
    else users

-- The user that is returned has the fields of the input that are set, and keeps the others.
abbrev pub Writes : UpdateMeInput → User → Result User → Type 0
Writes input user (err e) = Unit
Writes input user (ok u) =
    (u.display_name ≡ field_or input.display_name user.display_name)
    × (u.bio ≡ field_or input.bio user.bio)
    × (u.id ≡ user.id)

unset_if_same : (f : Field Text) (old : Text) → field_or (changed_field f old) old ≡ field_or f old
unfolding field_or changed_field
unset_if_same unset old = refl
unset_if_same (set_field value) old = ground (arith, text_eq_sound value old)

kept_if_unset :
    (f : Field Text) (old : Text)
    → field_is_set (changed_field f old) ≡ false
    → field_or f old ≡ old
unfolding field_or field_is_set changed_field
kept_if_unset unset old h = refl
kept_if_unset (set_field value) old h = ground (arith, text_eq_sound value old)

valid_result-fields :
    (rules : TextRules) (user previous : User) (m : UserMutation) (t : Time)
    → valid_profile_mutation_result rules user previous m t ≡ true
    → (user.display_name ≡ field_or m.display_name previous.display_name)
      × (user.bio ≡ field_or m.bio previous.bio)
      × (user.id ≡ previous.id)
unfolding valid_profile_mutation_result
valid_result-fields rules user previous m t h = ground (
  arith,
  text_eq_sound user.display_name (field_or m.display_name previous.display_name),
  text_eq_sound user.bio (field_or m.bio previous.bio),
  eq_ℤ_sound user.id previous.id,
)

module _ (env : Environment) (rules : TextRules) where
  write_mutation-ok :
      (input : UpdateMeInput) (user : User) (t : Time) (s : Store) {u : User} {s' : Store}
      → write_mutation env rules input user t s ≡ (ok u, s')
      → (u.display_name ≡ field_or input.display_name user.display_name)
        × (u.bio ≡ field_or input.bio user.bio)
        × (u.id ≡ user.id)
  unfolding write_mutation profile_mutation
  write_mutation-ok input user t s {u} h =
      let mutation = profile_mutation input user t in
      let names = kept_if_unset input.display_name user.display_name in
      let bios = kept_if_unset input.bio user.bio in
      let fields = valid_result-fields rules u user mutation t in
      let name = unset_if_same input.display_name user.display_name in
      let bio = unset_if_same input.bio user.bio in
      (
        ground (arith, names, bios, fields, name, bio),
        ground (arith, names, bios, fields, name, bio),
        ground (arith, fields),
      )

  pub check_own_session-state :
      (user_id session_id : ℤ) (session : UserSession) (s : Store)
      → (check_own_session env rules user_id session_id session s).1 ≡ s
  unfolding check_own_session
  check_own_session-state user_id session_id session s = grind steps

  pub write_mutation-state :
      (input : UpdateMeInput) (user : User) (t : Time) (s : Store)
      → let (r, s') = write_mutation env rules input user t s in
        is_ok r ≡ true → s' ≡ record s { users = written input user t s.users }
  unfolding write_mutation written
  write_mutation-state input user t s h = grind (arith, update_user-state)

  pub write_mutation-Writes :
      (input : UpdateMeInput) (user : User) (t : Time) (s : Store)
      → Writes input user (write_mutation env rules input user t s).0
  write_mutation-Writes input user t s = go _ refl
    where
      go : (r : Result User) → (write_mutation env rules input user t s).0 ≡ r → Writes input user r
      go (err e) h = tt
      go (ok u) h =
          write_mutation-ok input user t s {u = u}
            {s' = (write_mutation env rules input user t s).1} (ground arith)

  pub check_own_session-ok :
      (user_id session_id : ℤ) (session : UserSession) (s : Store) {s' : Store}
      → check_own_session env rules user_id session_id session s ≡ (ok tt, s')
      → (session.id ≡ session_id) × (session.user_id ≡ user_id) × (session.revoked_at ≡ none)
  unfolding check_own_session is_nil
      content_platform.Service.Checks.valid_authentication_session_structure
      content_platform.Service.Checks.authentication_session
  check_own_session-ok user_id session_id session s h =
      ground (arith, eq_ℤ_sound session.id session_id, eq_ℤ_sound session.user_id user_id)
