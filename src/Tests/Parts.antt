-- ===== src/Tests/Parts.antt =====
-- The theorems on the parts that the operations are made of, at concrete values.
use content_platform.Prelude.{
  ◌++◌, ℕ, ◌*◌, ◌<◌, ◌≤◌, ◌%◌, ◌≡◌, ◌⊎◌, refl, true, false, some, [], ◌∷◌, pos, any_where, arith,
}
use content_platform.GoTime.{second}
use content_platform.Domain.{
  User, deleted, muted, public_view, can_edit_profile, can_read_self, can_login, can_delete_account,
  can_write_article, can_write_comment, can_interact, can_repost, can_send_message,
}
use content_platform.Domain.Validation.{
  is_space, to_lower, trim_space, normalize_email, validate_email, normalize_display_name,
  validate_display_name,
}
use content_platform.Domain.Validation.Normal.{IsLowerTable, normalize_email-same}
use content_platform.Errors.{not_found, ok}
use content_platform.Database.{Store, before_transaction}
use content_platform.Database.Monad.{throw}
use content_platform.Repository.{within_tx, sorted_unique_ids}
use content_platform.Repository.Atomic.{within_tx-refused, is_ok, is_repository_error}
use content_platform.Repository.Revocation.{is_open_of, ids_of, revocation_complete}
use content_platform.Repository.Sessions.{lock_active_sessions, revoke_locked_sessions}
use content_platform.Service.{Dependencies, Config, new, valid_token_ttl}
use content_platform.Service.Configuration.{new_sound}
use content_platform.Tests.Fixture.{env, service, rules, store, today, ann_session, root_session}

abbrev revoked : Store
revoked = record store {
  sessions = record ann_session { revoked_at = some today } ∷ root_session ∷ [];
}

locked_run : lock_active_sessions env (pos 1) store ≡ (ok (ann_session ∷ []), store)
unfolding lock_active_sessions content_platform.Repository.drop_repeats any_where
    content_platform.Prelude.eq_ℤ content_platform.Domain.is_nil
locked_run = refl

revoked_run : revoke_locked_sessions env (ids_of (ann_session ∷ [])) today store ≡ (ok tt, revoked)
unfolding revoke_locked_sessions ids_of content_platform.Repository.Sessions.revoke_each
    content_platform.Repository.Sessions.revoke_locked_session
    content_platform.Repository.drop_repeats content_platform.Prelude.find_where
    content_platform.Prelude.eq_ℤ content_platform.Domain.is_nil
    content_platform.Database.session_row_ok content_platform.Prelude.is_positive
    content_platform.GoTime.is_after content_platform.Database.is_nil_or_since
    content_platform.GoTime.is_before content_platform.Prelude.update_where
revoked_run = refl

revocation_complete_example :
    (any_where (is_open_of (pos 1)) revoked.sessions ≡ false)
    × (revoked.users ≡ store.users)
    × (revoked.audits ≡ store.audits)
revocation_complete_example = revocation_complete env (pos 1) today store locked_run revoked_run

within_tx-refused_example :
    let (r, s') = within_tx env (throw {A = ℕ} not_found) store in
    (s' ≡ store)
    ⊎ (s' ≡ env.others before_transaction store)
    ⊎ (is_repository_error r ≡ true)
    ⊎ (is_ok r ≡ true)
within_tx-refused_example = within_tx-refused env (throw {A = ℕ} not_found) store

abbrev dependencies : Dependencies
dependencies = record {
  has_repository = true;
  password_hasher = some service.password_hasher;
  access_token_manager = some service.access_token_manager;
  refresh_token_generator = some service.refresh_token_generator;
  has_clock = true;
}

abbrev config : Config
config = record { access_token_ttl = pos (60 * second); refresh_token_ttl = pos (600 * second) }

new_sound_example :
    (dependencies.has_repository ≡ true)
    × (dependencies.has_clock ≡ true)
    × (dependencies.password_hasher ≡ some service.password_hasher)
    × (dependencies.access_token_manager ≡ some service.access_token_manager)
    × (dependencies.refresh_token_generator ≡ some service.refresh_token_generator)
    × (config.access_token_ttl ≡ pos service.access_token_ttl)
    × (config.refresh_token_ttl ≡ pos service.refresh_token_ttl)
    × (second ≤ service.access_token_ttl)
    × (service.access_token_ttl < service.refresh_token_ttl)
    × (service.access_token_ttl % second ≡ 0)
    × (service.refresh_token_ttl % second ≡ 0)
unfolding new valid_token_ttl
new_sound_example = new_sound dependencies config {service = service} refl

rules-IsLowerTable : IsLowerTable rules
unfolding content_platform.Domain.Validation.to_lower_rune
rules-IsLowerTable r h = ground arith

normalize_email-same_example :
    (normalize_email rules ((32 ∷ []) ++ ((65 ∷ 64 ∷ 98 ∷ []) ++ (9 ∷ [])))
      ≡ normalize_email rules (65 ∷ 64 ∷ 98 ∷ []))
    × (normalize_email rules (to_lower rules (65 ∷ 64 ∷ 98 ∷ []))
        ≡ normalize_email rules (65 ∷ 64 ∷ 98 ∷ []))
    × (normalize_email rules (normalize_email rules (65 ∷ 64 ∷ 98 ∷ []))
        ≡ normalize_email rules (65 ∷ 64 ∷ 98 ∷ []))
unfolding is_space
normalize_email-same_example =
    normalize_email-same rules (32 ∷ []) (65 ∷ 64 ∷ 98 ∷ []) (9 ∷ []) (refl, tt) (refl, tt)
      rules-IsLowerTable
