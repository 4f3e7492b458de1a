-- ===== src/Endpoint/Payload.antt =====
-- identity/handler/dto.go, with the two payloads of system/service/health.go.
use content_platform.Prelude.{ℕ, ℤ, Text, codes, Bool, Option, none, some}
use content_platform.GoTime.{Time, truncate_second}
use content_platform.Domain.{Role, Status, UserView, PublicUserView}
use content_platform.Service.Login.{LoginResult}
use content_platform.Service.Refresh.{RefreshResult}

pub record RegisterRequest : Type 0 where
  pub email : Text
  pub password : Text
  pub display_name : Text

pub record LoginRequest : Type 0 where
  pub email : Text
  pub password : Text

pub record RefreshRequest : Type 0 where
  pub refresh_token : Text

pub record UpdateMeRequest : Type 0 where
  pub display_name : Option Text
  pub bio : Option Text

pub record ChangeStatusRequest : Type 0 where
  pub status : Status
  pub reason : Option Text
  pub muted_until : Option Text

pub record UserResponse : Type 0 where
  pub id : ℤ
  pub email : Text
  pub display_name : Text
  pub bio : Text
  pub role : Role
  pub status : Status
  pub muted_until : Option Time
  pub violation_count : ℤ
  pub created_at : Time
  pub updated_at : Time
  pub deleted_at : Option Time

pub record PublicUserResponse : Type 0 where
  pub id : ℤ
  pub display_name : Text
  pub bio : Text
  pub role : Role
  pub status : Status
  pub created_at : Time

pub record LoginResponse : Type 0 where
  pub token_type : Text
  pub access_token : Text
  pub expires_in : ℕ
  pub refresh_token : Text
  pub refresh_expires_at : Time
  pub user : UserResponse

pub record RefreshResponse : Type 0 where
  pub token_type : Text
  pub access_token : Text
  pub expires_in : ℕ
  pub refresh_token : Text
  pub refresh_expires_at : Time

-- DependencyState
pub data DependencyState : Type 0 where
  up down : DependencyState

-- The map of checks, with its two keys.
pub record Checks : Type 0 where
  pub postgres : DependencyState
  pub redis : DependencyState

-- Status of package system/service
pub data ReadyStatus : Type 0 where
  ready degraded not_ready : ReadyStatus

pub record Readiness : Type 0 where
  pub status : ReadyStatus
  pub checks : Checks

-- What a response carries as data or as details.
pub data Payload : Type 0 where
  user_payload : UserResponse → Payload
  public_user_payload : PublicUserResponse → Payload
  login_payload : LoginResponse → Payload
  refresh_payload : RefreshResponse → Payload
  -- logoutResponse and deleteResponse
  logged_out_payload deleted_payload : Bool → Payload
  -- Liveness, by its status
  liveness_payload : Text → Payload
  readiness_payload : Readiness → Payload
  checks_payload : Checks → Payload

-- normalizeTime
unfoldable pub normalize_time : Time → Time
normalize_time value = truncate_second value

-- normalizeOptionalTime
unfoldable pub normalize_optional_time : Option Time → Option Time
normalize_optional_time none = none
normalize_optional_time (some value) = some (normalize_time value)

-- newUserResponse
unfoldable pub new_user_response : UserView → UserResponse
new_user_response user = record {
  id = user.id;
  email = user.email;
  display_name = user.display_name;
  bio = user.bio;
  role = user.role;
  status = user.status;
  muted_until = normalize_optional_time user.muted_until;
  violation_count = user.violation_count;
  created_at = normalize_time user.created_at;
  updated_at = normalize_time user.updated_at;
  deleted_at = normalize_optional_time user.deleted_at;
}

-- newPublicUserResponse
unfoldable pub new_public_user_response : PublicUserView → PublicUserResponse
new_public_user_response user = record {
  id = user.id;
  display_name = user.display_name;
  bio = user.bio;
  role = user.role;
  status = user.status;
  created_at = normalize_time user.created_at;
}

-- TokenType is "Bearer" in each result of the service.
abbrev pub token_type : Text
token_type = codes "Bearer"

-- newLoginResponse
unfoldable pub new_login_response : LoginResult → LoginResponse
new_login_response result = record {
  token_type = token_type;
  access_token = result.access_token;
  expires_in = result.expires_in;
  refresh_token = result.refresh_token;
  refresh_expires_at = normalize_time result.refresh_expires_at;
  user = new_user_response result.user;
}

-- newRefreshResponse
unfoldable pub new_refresh_response : RefreshResult → RefreshResponse
new_refresh_response result = record {
  token_type = token_type;
  access_token = result.access_token;
  expires_in = result.expires_in;
  refresh_token = result.refresh_token;
  refresh_expires_at = normalize_time result.refresh_expires_at;
}
