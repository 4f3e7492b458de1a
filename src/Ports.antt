-- ===== src/Ports.antt =====
-- identity/service/ports.go: the records that pass between the service and its adapters. The
-- adapters' interfaces are records of functions. A call draws each random value once, so what it
-- draws is part of the record.
use content_platform.Prelude.{ℕ, ℤ, Text, Bool, Option, List}
use content_platform.GoTime.{Time}
use content_platform.Domain.{User, Role, Status}
use content_platform.Errors.{Result}

-- [32]byte
abbrev pub Digest : Type 0
Digest = List ℕ

pub record PasswordHasher : Type 0 where
  pub hash : Text → Result Text
  pub compare_hash : Text → Text → Result Bool
  pub dummy_hash : Text
  pub dummy_candidate : Text

pub record AccessTokenManager : Type 0 where
  pub generate_jwt_id : Result Text
  pub sign : ℤ → ℤ → Time → Time → Text → Result Text

pub record RefreshTokenGenerator : Type 0 where
  pub generate : Result (Text × Digest)
  pub format : ℤ → Text → Result Text
  pub parse : Text → Result (ℤ × Digest)
  pub match_digest : Digest → Digest → Bool

pub record CreateUserRecord : Type 0 where
  pub email : Text
  pub password_hash : Text
  pub display_name : Text
  pub bio : Text
  pub role : Role
  pub status : Status
  pub muted_until : Option Time
  pub violation_count : ℤ
  pub created_at : Time
  pub updated_at : Time
  pub deleted_at : Option Time

pub record LoginCredential : Type 0 where
  pub user_id : ℤ
  pub password_hash : Text
  pub status : Status
  pub deleted_at : Option Time

pub record AuthenticationSession : Type 0 where
  pub id : ℤ
  pub user_id : ℤ
  pub expires_at : Time
  pub revoked_at : Option Time
  pub created_at : Time

pub record AuthenticationState : Type 0 where
  pub session : AuthenticationSession
  pub user : User

pub record CreateSessionRecord : Type 0 where
  pub user_id : ℤ
  pub token_hash : Digest
  pub expires_at : Time
  pub created_at : Time

pub record SessionLockRequest : Type 0 where
  pub session_ids : List ℤ
  pub active_user_ids : List ℤ

pub record RevokeSessionRequest : Type 0 where
  pub user_id : ℤ
  pub session_id : ℤ
  pub revoked_at : Time

-- Field[T]: `unset` has Set false, and a Value that nothing reads.
pub data Field (A : Type 0) : Type 0 where
  unset : Field A
  set_field : A → Field A

pub record UserMutation : Type 0 where
  pub user_id : ℤ
  pub display_name : Field Text
  pub bio : Field Text
  pub status : Field Status
  pub muted_until : Field (Option Time)
  pub violation_count : Field ℤ
  pub updated_at : Field Time
  pub deleted_at : Field (Option Time)

pub data AuditActorType : Type 0 where
  actor_user actor_admin actor_system : AuditActorType

-- "user.mute_expired" and "user.status_changed"
pub data AuditAction : Type 0 where
  mute_expired status_changed : AuditAction

-- The map that the two audit entries build. Only "user.status_changed" has a reason.
pub record AuditDetail : Type 0 where
  pub old_status : Status
  pub new_status : Status
  pub reason : Option Text
  pub old_muted_until : Option Time
  pub new_muted_until : Option Time
  pub request_id : Text

-- TargetType is "user" in every entry.
pub record AuditEntry : Type 0 where
  pub actor_type : AuditActorType
  pub actor_id : Option ℤ
  pub action : AuditAction
  pub target_id : ℤ
  pub detail : AuditDetail
  pub created_at : Time
