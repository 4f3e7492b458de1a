-- ===== src/Database.antt =====
-- The PostgreSQL database that the repository works on: the tables of migrations/*.sql as lists of
-- rows, their constraints as tests, and the environment of one call of the service. What happens
-- outside the program is a parameter: which statements fail, when the context is done, what the
-- clock says, and what other transactions commit before a statement of this call takes effect.
pub mod Monad
use content_platform.Prelude.{
  ℕ, ℤ, pos, Text, Bool, true, false, not, ◌&&◌, ◌||◌, Option, none, some, List, [], ◌∷◌, length,
  ltb, leb, ◌==◌, is_positive, is_negative, eq_ℤ, text_eq, any_where, if◌then◌else◌,
}
use content_platform.GoTime.{Time, is_after, is_before}
use content_platform.Domain.{
  User, UserSession, Role, Status, role_user, role_admin, other_role, pending, active, muted,
  frozen, banned, deleted, other_status, status_eq, is_nil,
}
use content_platform.Domain.Validation.{byte_length, trim_left, trim_right, keep_unless_blank}
use content_platform.Errors.{ContextErr}
use content_platform.Ports.{AuditEntry, AuditActorType, actor_system, actor_user, actor_admin}

pub record Store : Type 0 where
  pub users : List User
  pub sessions : List UserSession
  pub audits : List AuditEntry

-- The statements of a call. No call issues one of these twice, so each fails or succeeds by itself.
pub data Statement : Type 0 where
  insert_user select_credential select_user select_state select_owner : Statement
  update_revoked lock_user_rows lock_session_rows insert_session update_token : Statement
  update_user_row : Statement
  insert_audit_row : AuditEntry → Statement
  recover_mute : ℤ → Statement
  revoke_row : ℤ → Statement
  begin_transaction commit_transaction rollback_transaction : Statement

-- Where a call looks at `ctx.Err()`: on entry, after the password work, after the read or the
-- comparison, after the clock, and when a statement has failed.
pub data Poll : Type 0 where
  at_entry after_hash after_read after_clock : Poll
  at_failure : Statement → Poll

-- `false` and `true` say whether a commit that reported an error was carried out.
pub data CommitOutcome : Type 0 where
  committed : CommitOutcome
  commit_failed : Bool → Option ContextErr → CommitOutcome

pub data Moment : Type 0 where
  before_statement before_transaction : Moment

pub record Environment : Type 0 where
  pub context_is_nil : Bool
  pub ctx_err : Poll → Option ContextErr
  -- s.clock.Now()
  pub clock_now : Time
  -- a statement's error, with the context error that errors.Is finds in it
  pub fault : Statement → Option (Option ContextErr)
  pub commit : CommitOutcome
  -- the commit that ends a writing statement outside of a transaction
  pub own_commit : Statement → CommitOutcome
  pub others : Moment → Store → Store
  -- the next values of the BIGSERIAL sequences
  pub next_user_id : ℤ
  pub next_session_id : ℤ
  -- PostgreSQL's lower()
  pub database_lower : Text → Text

-- TEXT holds valid UTF-8 with no NUL.
unfoldable pub is_storable : Text → Bool
is_storable s = not (any_where (λ r. r == 0 || leb 0x110000 r) s)

-- PostgreSQL's btrim()
unfoldable pub btrim : Text → Text
unfolding trim_left trim_right keep_unless_blank
btrim s = trim_right (λ r. r == 32) (trim_left (λ r. r == 32) s)

unfoldable pub is_known_role : Role → Bool
is_known_role (other_role _) = false
is_known_role _ = true

unfoldable pub is_known_status : Status → Bool
is_known_status (other_status _) = false
is_known_status _ = true

abbrev same_test : Bool → Bool → Bool
same_test true b = b
same_test false b = not b

-- `value IS NULL OR value >= since`
unfoldable pub is_nil_or_since : Time → Option Time → Bool
is_nil_or_since since none = true
is_nil_or_since since (some value) = not (is_before value since)

module _ (env : Environment) where
  -- The CHECK constraints of a row of `users`.
  unfoldable pub user_row_ok : User → Bool
  user_row_ok u =
      is_positive u.id
      && not (text_eq u.password_hash [])
      && leb (length u.bio) 1000
      && is_known_role u.role
      && is_known_status u.status
      && not (is_negative u.violation_count)
      && not (is_before u.updated_at u.created_at)
      && is_nil_or_since u.created_at u.deleted_at
      && not (text_eq u.email [])
      && text_eq u.email (env.database_lower (btrim u.email))
      && leb (byte_length u.email) 320
      && leb 1 (length u.display_name)
      && leb (length u.display_name) 100
      && text_eq u.display_name (btrim u.display_name)
      && same_test (status_eq u.status muted) (not (is_nil u.muted_until))
      && same_test (status_eq u.status deleted) (not (is_nil u.deleted_at))
      && is_storable u.email
      && is_storable u.password_hash
      && is_storable u.display_name
      && is_storable u.bio

-- The CHECK constraints of a row of `user_sessions`.
unfoldable pub session_row_ok : UserSession → Bool
session_row_ok s =
    is_positive s.id
    && length s.token_hash == 32
    && is_after s.expires_at s.created_at
    && is_nil_or_since s.created_at s.revoked_at

unfoldable pub is_system : AuditActorType → Bool
is_system actor_system = true
is_system actor_user = false
is_system actor_admin = false

-- The CHECK constraints of a row of `audit_logs`.
unfoldable pub audit_row_ok : AuditEntry → Bool
audit_row_ok a = is_positive a.target_id && same_test (is_system a.actor_type) (is_nil a.actor_id)

unfoldable pub has_id : ℤ → User → Bool
has_id id u = eq_ℤ u.id id

unfoldable pub has_session_id : ℤ → UserSession → Bool
has_session_id id s = eq_ℤ s.id id

unfoldable pub has_email : Text → User → Bool
has_email email u = text_eq u.email email

-- REFERENCES users(id), where a null refers to nothing.
unfoldable pub references_user : Store → Option ℤ → Bool
references_user s none = true
references_user s (some id) = any_where (has_id id) s.users
