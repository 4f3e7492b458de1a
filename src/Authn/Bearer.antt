-- ===== src/Authn/Bearer.antt =====
-- singleAuthorizationHeader and bearerToken of platform/authn/middleware.go, and singleHeaderValue of
-- platform/httpx/decode.go, which counts the same way.
use content_platform.Prelude.{
  ℕ, suc, ◌+◌, Text, List, [], ◌∷◌, ◌++◌, codes, Bool, true, false, not, ◌&&◌, ◌||◌, Option, none,
  some, ◌==◌, length, if◌then◌else◌,
}
use content_platform.Domain.Validation.{is_space}
use content_platform.GoStrings.{contains, cut}
use content_platform.Http.{Header, equal_fold}
pub mod Grammar
pub mod Order

-- The loop over the values of one header field: the last value and the count.
unfoldable pub count_values : List Text → Text × ℕ → Text × ℕ
count_values [] found = found
count_values (candidate ∷ values) (value, count) = count_values values (candidate, suc count)

-- The loop over the header.
unfoldable pub count_fields : Text → Header → Text × ℕ → Text × ℕ
count_fields wanted [] found = found
count_fields wanted ((name, values) ∷ header) found =
    count_fields wanted header (if equal_fold name wanted then count_values values found else found)

unfoldable pub only_one : Text × ℕ → Option Text
only_one (value, count) = if count == 1 then some value else none

-- singleHeaderValue
unfoldable pub single_header_value : Header → Text → Option Text
unfolding count_fields count_values only_one
single_header_value header wanted = only_one (count_fields wanted header ([], 0))

-- singleAuthorizationHeader
unfoldable pub single_authorization_header : Header → Option Text
unfolding count_fields count_values only_one
single_authorization_header header = only_one (count_fields (codes "Authorization") header ([], 0))

-- `authorization[start:]`, behind the spaces at the front
unfoldable pub skip_spaces : Text → Text
skip_spaces [] = []
skip_spaces (c ∷ s) = if c == b' ' then skip_spaces s else c ∷ s

-- `strings.IndexFunc(rawToken, unicode.IsSpace) >= 0`
unfoldable pub has_space : Text → Bool
unfolding is_space
has_space [] = false
has_space (c ∷ s) = is_space c || has_space s

-- What bearerToken does with the text behind the first space.
unfoldable pub token_of : Text → Option Text
unfolding has_space
token_of [] = none
token_of (c ∷ s) = if has_space (c ∷ s) then none else some (c ∷ s)

-- bearerToken: a separator at 0 leaves an empty scheme, which is not "Bearer".
unfoldable pub bearer_token : Text → Option Text
unfolding skip_spaces token_of
bearer_token authorization =
    if not (contains b' ' authorization)
      || not (equal_fold (cut b' ' authorization).0 (codes "Bearer"))
    then none
    else token_of (skip_spaces (cut b' ' authorization).1)
