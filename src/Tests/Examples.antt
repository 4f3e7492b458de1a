-- ===== src/Tests/Examples.antt =====
-- The theorems on the operations, at the runs on the small database.
use content_platform.Prelude.{
  eq_ℤ, some, ◌≡◌, ◌⊎◌, refl, true, false, [], ◌∷◌, pos, any_where, update_where,
}
use content_platform.Service.Profile.Public.{IsShown, public_user_sound}
use content_platform.Service.Profile.Correct.{IsUpdated, trimmed, update_me_sound}
use content_platform.Service.StatusChange.Correct.{IsModerated, change_user_status_sound}
use content_platform.Domain.{User, public_view, view, normalize_time}
use content_platform.GoTime.{truncate_second}
use content_platform.Errors.{ok, err}
use content_platform.Repository.Atomic.{Untouched, is_commit_lost, is_write_lost}
use content_platform.Database.{insert_user}
use content_platform.Service.Refresh.Correct.{IsRefreshed, refresh_sound}
use content_platform.Service.Login.Correct.{IsLoggedIn, login_sound}
use content_platform.Service.Deletion.Correct.{IsDeleted, delete_me_sound}
use content_platform.Service.Account.Correct.{
  IsRegistered, register_sound, is_own_open, logout_sound,
}
use content_platform.Service.Untouched.{
  refresh-Untouched, login-Untouched, register-Untouched, delete_me-Untouched, update_me-Untouched,
  change_user_status-Untouched,
}
use content_platform.Tests.Fixture.{env, service, rules, store, ann, root, digest_of, today}
use content_platform.Tests.Runs.{
  refresh_input, refreshed, after_refresh, refresh_run, no_sessions, refresh_refused, login_input,
  logged_in, after_login, login_run, login_refused, register_input, cid, register_run,
  register_refused, logout_input, after_logout, logout_run,
}
use content_platform.Tests.UserRuns.{
  public_input, public_run, described, after_update, update_run, banned_ann, after_ban, ban_run,
  delete_input, after_delete, delete_run, delete_refused, update_input, update_refused, ban_input,
  ban_refused,
}

refresh_sound_example :
    IsRefreshed env service refresh_input
      (pos 5)
      (digest_of 1)
      (115 ∷ [])
      (digest_of 9)
      store
      refreshed
      after_refresh
refresh_sound_example =
    refresh_sound env service refresh_input (pos 5) (digest_of 1) (115 ∷ []) (digest_of 9) refl
      store refl refresh_run

login_sound_example :
    IsLoggedIn env service login_input (115 ∷ []) (digest_of 9) store logged_in after_login
login_sound_example =
    login_sound env rules service login_input (115 ∷ []) (digest_of 9) refl store login_run

delete_me_sound_example : IsDeleted env delete_input store after_delete
delete_me_sound_example = delete_me_sound env rules delete_input store delete_run

register_sound_example :
    IsRegistered env rules service register_input store
      (view cid)
      (record store { users = ann ∷ root ∷ cid ∷ [] })
register_sound_example = register_sound env rules service register_input store register_run

logout_sound_example :
    (any_where (is_own_open logout_input) after_logout.sessions ≡ false)
    × (after_logout ≡ record store {
      sessions =
          update_where
            (is_own_open logout_input)
            (λ row. record row { revoked_at = some today })
            store.sessions;
    })
unfolding normalize_time truncate_second
logout_sound_example = logout_sound env logout_input store logout_run

refresh-Untouched_example : Untouched env no_sessions no_sessions ⊎ (is_commit_lost env ≡ true)
refresh-Untouched_example = refresh-Untouched env service refresh_input no_sessions refresh_refused

login-Untouched_example : Untouched env store store ⊎ (is_commit_lost env ≡ true)
login-Untouched_example =
    login-Untouched env rules service (record login_input { password = [] }) store login_refused

register-Untouched_example : Untouched env store store ⊎ (is_write_lost env insert_user ≡ true)
register-Untouched_example =
    register-Untouched env rules service (record register_input { email = ann.email }) store
      register_refused

delete_me-Untouched_example : Untouched env no_sessions no_sessions ⊎ (is_commit_lost env ≡ true)
delete_me-Untouched_example = delete_me-Untouched env rules delete_input no_sessions delete_refused

update_me-Untouched_example : Untouched env no_sessions no_sessions
unfolding content_platform.Errors.is_internal
update_me-Untouched_example =
    update_me-Untouched env rules update_input no_sessions update_refused refl

change_user_status-Untouched_example : Untouched env no_sessions no_sessions
unfolding content_platform.Errors.is_internal
change_user_status-Untouched_example =
    change_user_status-Untouched env rules ban_input no_sessions ban_refused refl

update_me_sound_example :
    (user : User) × (updated : User) × (user.id ≡ pos 1)
    × (view described ≡ view updated)
    × IsUpdated env (trimmed update_input) user store updated after_update
update_me_sound_example = update_me_sound env rules update_input store update_run

change_user_status_sound_example :
    (u : User) × (view banned_ann ≡ view u)
    × (eq_ℤ (pos 2) (pos 1) ≡ false)
    × IsModerated env ban_input store u after_ban
change_user_status_sound_example = change_user_status_sound env rules ban_input store ban_run

public_user_sound_example : IsShown env rules public_input store (public_view ann) store
public_user_sound_example = public_user_sound env rules public_input store public_run
