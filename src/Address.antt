-- ===== src/Address.antt =====
-- The addresses of a configuration (infra/config/validate.go): validTCPAddress and validDatabaseURL, with
-- strconv.Atoi. net.SplitHostPort, url.ParseRequestURI and pgx.ParseConfig are parameters.
use content_platform.Prelude.{
  zero, suc, ℤ, pos, negsuc, Text, [], ◌∷◌, codes, Bool, true, false, not, ◌&&◌, ◌||◌, Option, none,
  some, leb, ◌==◌, text_eq, if◌then◌else◌,
}
use content_platform.Domain.Validation.{trim_space}
use content_platform.Token.Decimal.{parse_int, all_digits}

pub record AddressLibrary : Type 0 where
  -- `net.SplitHostPort`
  pub split_host_port : Text → Option (Text × Text)
  -- `url.ParseRequestURI`: the scheme and the path
  pub parse_request_uri : Text → Option (Text × Text)
  -- `pgx.ParseConfig(value)` returns no error
  pub parses_as_pgx : Text → Bool

-- The digits of an int.
unfoldable pub atoi_digits : Text → Option ℤ
atoi_digits [] = none
atoi_digits (c ∷ s) = if all_digits (c ∷ s) then parse_int (c ∷ s) else none

-- The integer -n. The one number that fits with a minus sign only is left out.
unfoldable pub negate : Option ℤ → Option ℤ
negate none = none
negate (some (negsuc n)) = none
negate (some (pos zero)) = some (pos 0)
negate (some (pos (suc n))) = some (negsuc n)

-- `strconv.Atoi`
unfoldable pub atoi : Text → Option ℤ
unfolding atoi_digits negate
atoi [] = none
atoi (c ∷ s) =
    if (c == b'+')
    then atoi_digits s
    else if (c == b'-')
    then negate (atoi_digits s)
    else atoi_digits (c ∷ s)

-- `portNumber >= 1 && portNumber <= 65535`
unfoldable pub valid_port : Option ℤ → Bool
valid_port none = false
valid_port (some (negsuc n)) = false
valid_port (some (pos n)) = leb 1 n && leb n 65535

-- `strings.Trim(path, "/") == ""`
unfoldable pub only_slashes : Text → Bool
only_slashes [] = true
only_slashes (c ∷ s) = (c == b'/') && only_slashes s

module _ (library : AddressLibrary) where
  -- validTCPAddress
  unfoldable pub valid_tcp_address : Text → Bool → Bool
  valid_tcp_address address require_host = elim (library.split_host_port address) [
    | none ↦ false
    | some (host, port) ↦
        if require_host && text_eq (trim_space host) [] then false else valid_port (atoi port)
  ]

  -- validDatabaseURL
  unfoldable pub valid_database_url : Text → Bool
  valid_database_url value = elim (library.parse_request_uri value) [
    | none ↦ false
    | some (scheme, path) ↦
        (text_eq scheme (codes "postgres") || text_eq scheme (codes "postgresql"))
        && not (only_slashes path)
        && library.parses_as_pgx value
  ]
