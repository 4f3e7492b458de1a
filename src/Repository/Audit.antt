-- ===== src/Repository/Audit.antt =====
-- infra/postgres/identity/audit.go: the insertion of an audit entry.
use content_platform.Prelude.{Bool, true, ◌&&◌, Option, none, some, [], ◌∷◌, ◌++◌, if◌then◌else◌}
use content_platform.GoTime.{Time, year_in_range}
use content_platform.Errors.{ok, err}
use content_platform.Ports.{AuditEntry, AuditDetail}
use content_platform.Database.{Environment, insert_audit_row, audit_row_ok, references_user}
use content_platform.Database.Monad.{Action}
use content_platform.Repository.{repository_internal_error, run}

-- json.Marshal refuses a time whose year has not four digits.
unfoldable pub optional_time_encodable : Option Time → Bool
optional_time_encodable none = true
optional_time_encodable (some t) = year_in_range t

unfoldable pub encode_audit_detail : AuditDetail → Bool
unfolding optional_time_encodable
encode_audit_detail d =
    optional_time_encodable d.old_muted_until && optional_time_encodable d.new_muted_until

module _ (env : Environment) where
  unfoldable pub insert_audit : AuditEntry → Action (Unit {0})
  unfolding run repository_internal_error encode_audit_detail
  insert_audit entry s =
      if encode_audit_detail entry.detail
      then run env (insert_audit_row entry)
          (λ t.
            if audit_row_ok entry && references_user t entry.actor_id
            then (ok tt, record t { audits = t.audits ++ entry ∷ [] })
            else (err (repository_internal_error env (insert_audit_row entry) none), t))
          s
      else (err (repository_internal_error env (insert_audit_row entry) none), s)
