-- ===== src/AppError.antt =====
-- platform/apperror/error.go: the errors that a response may show. `D` is the type of what a response
-- carries as data or details.
use content_platform.Prelude.{Text, codes, Bool, true, false, Option, none, some}

-- Kind, a string in the source: `other_kind` is any text but the nine constants.
pub data Kind : Type 0 where
  invalid_argument unauthenticated permission_denied not_found_kind method_not_allowed : Kind
  conflict rate_limited internal_kind dependency_unavailable : Kind
  other_kind : Text → Kind

unfoldable pub kind_text : Kind → Text
kind_text invalid_argument = codes "invalid_argument"
kind_text unauthenticated = codes "unauthenticated"
kind_text permission_denied = codes "permission_denied"
kind_text not_found_kind = codes "not_found"
kind_text method_not_allowed = codes "method_not_allowed"
kind_text conflict = codes "conflict"
kind_text rate_limited = codes "rate_limited"
kind_text internal_kind = codes "internal_error"
kind_text dependency_unavailable = codes "dependency_unavailable"
kind_text (other_kind t) = t

-- *Error. Of the cause, which only the log shows, the record keeps whether there is one.
pub record AppError (D : Type 0) : Type 0 where
  pub kind : Kind
  pub code : Text
  pub message : Text
  pub details : Option D
  pub has_cause : Bool

-- `New`
unfoldable pub new_error : {D : Type 0} → Kind → Text → Text → AppError D
new_error kind code message = record {
  kind = kind;
  code = code;
  message = message;
  details = none;
  has_cause = false;
}

-- `Wrap`, of a cause that is not nil
unfoldable pub wrap_error : {D : Type 0} → Kind → Text → Text → AppError D
unfolding new_error
wrap_error kind code message = record (new_error kind code message) { has_cause = true }

-- `WithDetails`
unfoldable pub with_details : {D : Type 0} → D → AppError D → AppError D
with_details details e = record e { details = some details }

-- An error as WriteError meets it: one that `From` finds, or another.
pub data Failure (D : Type 0) : Type 0 where
  application : AppError D → Failure D
  other : Failure D

-- `From`
unfoldable pub from : {D : Type 0} → Failure D → Option (AppError D)
from (application e) = some e
from other = none
