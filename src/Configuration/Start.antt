-- ===== src/Configuration/Start.antt =====
-- What a configuration that Load returns makes sure of.
use content_platform.Prelude.{
  ℕ, ◌≤◌, ◌<◌, ◌%◌, ℤ, pos, negsuc, ltb_ℤ, Text, [], Bool, false, not, Option, none, ◌≡◌, refl,
  arith, text_eq,
}
use content_platform.GoTime.{second}
use content_platform.Domain.Validation.{byte_length, trim_space}
use content_platform.Address.{AddressLibrary}
use content_platform.Configuration.{
  AuthConfig, Config, check, below_second, part_of_second, cost_refused, validate_auth, first_error,
  validate,
}

-- A lifetime in whole seconds, of a second or longer.
abbrev pub IsLifetime : ℤ → ℕ → Type 0
IsLifetime ttl n = (ttl ≡ pos n) × (second ≤ n) × (n % second ≡ 0)

pub record IsUsable (c : AuthConfig) : Type 0 where
  pub secret : 32 ≤ byte_length c.jwt_secret
  pub issuer : text_eq (trim_space c.jwt_issuer) [] ≡ false
  pub audience : text_eq (trim_space c.jwt_audience) [] ≡ false
  pub lifetimes :
      (access : ℕ) × (refresh : ℕ) × IsLifetime c.access_token_ttl access
      × IsLifetime c.refresh_token_ttl refresh
      × (access < refresh)
  pub cost : (n : ℕ) × (c.bcrypt_cost ≡ pos n) × (10 ≤ n) × (n ≤ 15)

lifetime :
    (ttl : ℤ) → below_second ttl ≡ false → part_of_second ttl ≡ false → (n : ℕ) × IsLifetime ttl n
unfolding below_second part_of_second
lifetime (negsuc n) h k = absurd (cc)
lifetime (pos n) h k = (n, (refl, ground arith, ground arith))

cost_refused_sound : (c : ℤ) → cost_refused c ≡ false → (n : ℕ) × (c ≡ pos n) × (10 ≤ n) × (n ≤ 15)
unfolding cost_refused
cost_refused_sound (negsuc n) h = absurd (cc)
cost_refused_sound (pos n) h = (n, refl, ground arith, ground arith)

check-none :
    (condition : Bool) (message : Text) (rest : Option Text)
    → check condition message rest ≡ none
    → (condition ≡ false) × (rest ≡ none)
unfolding check
check-none condition message rest h = ground arith

first_error-none : (o rest : Option Text) → first_error o rest ≡ none → (o ≡ none) × (rest ≡ none)
unfolding first_error
first_error-none o rest h = ground arith

lifetimes-lt : (a b : ℤ) (n m : ℕ) → a ≡ pos n → b ≡ pos m → not (ltb_ℤ a b) ≡ false → n < m
unfolding ltb_ℤ
lifetimes-lt a b n m e f h = ground arith

pub validate_auth-none : (c : AuthConfig) → validate_auth c ≡ none → IsUsable c
unfolding validate_auth
validate_auth-none c h =
    let (secret, h1) = check-none _ _ _ h in
    let (issuer, h2) = check-none _ _ _ h1 in
    let (audience, h3) = check-none _ _ _ h2 in
    let (_, h4) = check-none _ _ _ h3 in
    let (above, h5) = check-none _ _ _ h4 in
    let (whole, h6) = check-none _ _ _ h5 in
    let (_, h7) = check-none _ _ _ h6 in
    let (above', h8) = check-none _ _ _ h7 in
    let (whole', h9) = check-none _ _ _ h8 in
    let (order, h10) = check-none _ _ _ h9 in
    let (access, is_access) = lifetime c.access_token_ttl above whole in
    let (refresh, is_refresh) = lifetime c.refresh_token_ttl above' whole' in
    record {
      secret = ground (arith, secret);
      issuer = issuer;
      audience = audience;
      lifetimes = (
        access,
        refresh,
        is_access,
        is_refresh,
        lifetimes-lt c.access_token_ttl c.refresh_token_ttl access refresh is_access.0 is_refresh.0
            order,
      );
      cost = cost_refused_sound c.bcrypt_cost (check-none _ _ _ h10).0;
    }

pub validate-none :
    (library : AddressLibrary) (c : Config) → validate library c ≡ none → IsUsable c.auth
unfolding validate
validate-none library c h =
    let (_, h1) = check-none _ _ _ h in
    let (_, h2) = first_error-none _ _ h1 in
    let (_, h3) = first_error-none _ _ h2 in
    let (_, h4) = first_error-none _ _ h3 in validate_auth-none c.auth (first_error-none _ _ h4).0
