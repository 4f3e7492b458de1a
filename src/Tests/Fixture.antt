-- ===== src/Tests/Fixture.antt =====
-- A small database, with one user who has an open session and an administrator, and a service whose
-- adapters always succeed.
use content_platform.Prelude.{ℕ, ◌+◌, ◌*◌, pos, none, List, [], ◌∷◌, true, false, text_eq}
use content_platform.GoTime.{Time, second}
use content_platform.Domain.{User, UserSession, role_user, role_admin, active}
use content_platform.Domain.Validation.{TextRules}
use content_platform.Errors.{ok}
use content_platform.Ports.{Digest}
use content_platform.Database.{Store, Environment, committed}
use content_platform.Service.{Service}

-- A moment of the year 2024.
abbrev pub today : Time
today = (730692556 * 146097 * 86400 + 63900000000) * 1000000000

abbrev pub rules : TextRules
rules = record { lower_table = λ r. r; is_email = λ s. true }

-- 32 bytes with the value `r`.
abbrev pub digest_of : ℕ → Digest
digest_of r =
    let four = λ (s : List ℕ). r ∷ r ∷ r ∷ r ∷ s in
    four (four (four (four (four (four (four (four [])))))))

abbrev pub ann : User
ann = record {
  id = pos 1;
  email = 97 ∷ 64 ∷ 98 ∷ [];
  password_hash = 104 ∷ [];
  display_name = 65 ∷ 110 ∷ 110 ∷ [];
  bio = [];
  role = role_user;
  status = active;
  muted_until = none;
  violation_count = pos 0;
  created_at = today;
  updated_at = today;
  deleted_at = none;
}

abbrev pub root : User
root = record ann { id = pos 2; email = 114 ∷ 64 ∷ 98 ∷ []; role = role_admin }

abbrev pub ann_session : UserSession
ann_session = record {
  id = pos 5;
  user_id = pos 1;
  token_hash = digest_of 1;
  expires_at = today + 1000 * second;
  revoked_at = none;
  created_at = today;
}

abbrev pub root_session : UserSession
root_session = record ann_session { id = pos 6; user_id = pos 2; token_hash = digest_of 2 }

abbrev pub store : Store
store = record { users = ann ∷ root ∷ []; sessions = ann_session ∷ root_session ∷ []; audits = [] }

abbrev pub env : Environment
env = record {
  context_is_nil = false;
  ctx_err = λ poll. none;
  clock_now = today + 5;
  fault = λ st. none;
  commit = committed;
  own_commit = λ st. committed;
  others = λ moment s. s;
  next_user_id = pos 3;
  next_session_id = pos 7;
  database_lower = λ s. s;
}

abbrev pub service : Service
service = record {
  password_hasher = record {
    hash = λ password. ok (104 ∷ []);
    compare_hash = λ hash password. ok (text_eq hash (104 ∷ []));
    dummy_hash = 104 ∷ [];
    dummy_candidate = [];
  };
  access_token_manager = record {
    generate_jwt_id = ok [];
    sign = λ user_id session_id issued expiry jwt_id. ok (74 ∷ []);
  };
  refresh_token_generator = record {
    generate = ok (115 ∷ [], digest_of 9);
    format = λ id secret. ok secret;
    parse = λ token. ok (pos 5, digest_of 1);
    match_digest = text_eq;
  };
  access_token_ttl = 60 * second;
  refresh_token_ttl = 600 * second;
}
