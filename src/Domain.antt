-- ===== src/Domain.antt =====
-- identity/domain: users, sessions, roles, statuses and views (user.go, session.go).
pub mod Validation
pub mod Views
use content_platform.Prelude.{
  ℕ, ℤ, Text, Bool, true, false, ◌&&◌, Option, none, some, List, [], ◌∷◌, text_eq, if◌then◌else◌,
}
use content_platform.GoTime.{Time, is_after, truncate_second}

-- A Role is a string in the source: `other_role` is any text but the two constants.
pub data Role : Type 0 where
  role_user role_admin : Role
  other_role : Text → Role

-- So is a Status: `other_status` is any text but the six constants.
pub data Status : Type 0 where
  pending active muted frozen banned deleted : Status
  other_status : Text → Status

unfoldable pub role_eq : Role → Role → Bool
role_eq role_user role_user = true
role_eq role_admin role_admin = true
role_eq (other_role s) (other_role t) = text_eq s t
role_eq _ _ = false

unfoldable pub status_eq : Status → Status → Bool
status_eq pending pending = true
status_eq active active = true
status_eq muted muted = true
status_eq frozen frozen = true
status_eq banned banned = true
status_eq deleted deleted = true
status_eq (other_status s) (other_status t) = text_eq s t
status_eq _ _ = false

pub record User : Type 0 where
  pub id : ℤ
  pub email : Text
  pub password_hash : Text
  pub display_name : Text
  pub bio : Text
  pub role : Role
  pub status : Status
  pub muted_until : Option Time
  pub violation_count : ℤ
  pub created_at : Time
  pub updated_at : Time
  pub deleted_at : Option Time

pub record UserView : Type 0 where
  pub id : ℤ
  pub email : Text
  pub display_name : Text
  pub bio : Text
  pub role : Role
  pub status : Status
  pub muted_until : Option Time
  pub violation_count : ℤ
  pub created_at : Time
  pub updated_at : Time
  pub deleted_at : Option Time

pub record PublicUserView : Type 0 where
  pub id : ℤ
  pub display_name : Text
  pub bio : Text
  pub role : Role
  pub status : Status
  pub created_at : Time

pub record UserSession : Type 0 where
  pub id : ℤ
  pub user_id : ℤ
  pub token_hash : List ℕ
  pub expires_at : Time
  pub revoked_at : Option Time
  pub created_at : Time

unfoldable pub is_nil {ℓ} : {A : Type ℓ} → Option A → Bool
is_nil none = true
is_nil (some _) = false

-- `UserSession.IsValid`
unfoldable pub session_is_valid : UserSession → Time → Bool
session_is_valid s now = is_nil s.revoked_at && is_after s.expires_at now

unfoldable pub can_login : Status → Bool
can_login pending = true
can_login active = true
can_login muted = true
can_login frozen = true
can_login _ = false

unfoldable pub can_read_self : Status → Bool
can_read_self pending = true
can_read_self active = true
can_read_self muted = true
can_read_self frozen = true
can_read_self _ = false

unfoldable pub can_edit_profile : Status → Bool
can_edit_profile pending = true
can_edit_profile active = true
can_edit_profile muted = true
can_edit_profile _ = false

unfoldable pub can_delete_account : Status → Bool
can_delete_account pending = true
can_delete_account active = true
can_delete_account muted = true
can_delete_account _ = false

unfoldable pub allows_content_writes : Status → Bool
allows_content_writes s = status_eq s active

unfoldable pub can_write_article : Status → Bool
unfolding allows_content_writes
can_write_article s = allows_content_writes s

unfoldable pub can_write_comment : Status → Bool
unfolding allows_content_writes
can_write_comment s = allows_content_writes s

unfoldable pub can_interact : Status → Bool
unfolding allows_content_writes
can_interact s = allows_content_writes s

unfoldable pub can_repost : Status → Bool
unfolding allows_content_writes
can_repost s = allows_content_writes s

unfoldable pub can_send_message : Status → Bool
unfolding allows_content_writes
can_send_message s = allows_content_writes s

-- `NormalizeTime`: UTC keeps the instant.
unfoldable pub normalize_time : Time → Time
normalize_time value = truncate_second value

unfoldable pub normalize_optional_time : Option Time → Option Time
normalize_optional_time none = none
normalize_optional_time (some value) = some (normalize_time value)

-- `User.View`
unfoldable pub view : User → UserView
view u = record {
  id = u.id;
  email = u.email;
  display_name = u.display_name;
  bio = u.bio;
  role = u.role;
  status = u.status;
  muted_until = normalize_optional_time u.muted_until;
  violation_count = u.violation_count;
  created_at = normalize_time u.created_at;
  updated_at = normalize_time u.updated_at;
  deleted_at = normalize_optional_time u.deleted_at;
}

abbrev public_fields : User → PublicUserView
public_fields u = record {
  id = u.id;
  display_name = u.display_name;
  bio = u.bio;
  role = u.role;
  status = u.status;
  created_at = normalize_time u.created_at;
}

-- "Deleted User"
abbrev pub deleted_user_name : Text
deleted_user_name = 68 ∷ 101 ∷ 108 ∷ 101 ∷ 116 ∷ 101 ∷ 100 ∷ 32 ∷ 85 ∷ 115 ∷ 101 ∷ 114 ∷ []

-- `User.PublicView`
unfoldable pub public_view : User → PublicUserView
public_view u =
    let shown = public_fields u in
    if status_eq u.status deleted
    then record shown {
      display_name = deleted_user_name;
      bio = [];
      role = role_user;
      status = deleted;
    }
    else shown
