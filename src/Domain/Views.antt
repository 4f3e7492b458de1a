-- ===== src/Domain/Views.antt =====
-- What the views of user.go show, and what the status of a user allows.
use content_platform.Prelude.{true, ◌≡◌, arith}
use content_platform.Domain.{
  User, Status, status_eq, deleted, public_view, normalize_time, can_login, can_read_self,
  can_edit_profile, can_delete_account, can_write_article, can_write_comment, can_interact,
  can_repost, can_send_message,
}

-- The public views of two deleted users with the same identifier and second of creation are the
-- same: name, biography and role are not shown.
pub public_view-deleted :
    (u v : User)
    → u.status ≡ deleted
    → v.status ≡ deleted
    → u.id ≡ v.id
    → normalize_time u.created_at ≡ normalize_time v.created_at
    → public_view u ≡ public_view v
unfolding public_view status_eq
public_view-deleted u v h k e f = ground arith

-- A status that allows one kind of content allows every kind, and the profile to be edited; who may
-- edit the profile may delete the account, and the reverse; who may do so may read the own account
-- and log in, and who may read the own account may log in, and the reverse.
pub can_edit_profile_lem :
    (s : Status)
    → (can_write_article s ≡ can_write_comment s)
      × (can_write_article s ≡ can_interact s)
      × (can_write_article s ≡ can_repost s)
      × (can_write_article s ≡ can_send_message s)
      × (can_write_article s ≡ true → can_edit_profile s ≡ true)
      × (can_edit_profile s ≡ can_delete_account s)
      × (can_edit_profile s ≡ true → can_read_self s ≡ true)
      × (can_read_self s ≡ can_login s)
unfolding status_eq can_write_article can_write_comment can_interact can_repost can_send_message
    can_edit_profile can_delete_account can_read_self can_login
can_edit_profile_lem s = ground arith
