-- ===== src/Service/Configuration.antt =====
-- What New (service.go) makes sure of, for every later operation of the service.
use content_platform.Prelude.{ℕ, ℤ, pos, ◌≤◌, ◌<◌, ◌%◌, ◌≡◌, true, some, arith}
use content_platform.GoTime.{second}
use content_platform.Errors.{ok}
use content_platform.Service.{Dependencies, Config, Service, new, valid_token_ttl}

valid_token_ttl-ok :
    (ttl : ℤ) {n : ℕ}
    → valid_token_ttl ttl ≡ some n
    → (ttl ≡ pos n) × (second ≤ n) × (n % second ≡ 0)
unfolding valid_token_ttl
valid_token_ttl-ok ttl h = ground arith

-- A service that New returns has what it was given: every dependency, and two lifetimes in whole
-- seconds, of a second or longer, of which that of the session is the longer one.
pub new_sound :
    (d : Dependencies) (c : Config) {service : Service}
    → new d c ≡ ok service
    → (d.has_repository ≡ true)
      × (d.has_clock ≡ true)
      × (d.password_hasher ≡ some service.password_hasher)
      × (d.access_token_manager ≡ some service.access_token_manager)
      × (d.refresh_token_generator ≡ some service.refresh_token_generator)
      × (c.access_token_ttl ≡ pos service.access_token_ttl)
      × (c.refresh_token_ttl ≡ pos service.refresh_token_ttl)
      × (second ≤ service.access_token_ttl)
      × (service.access_token_ttl < service.refresh_token_ttl)
      × (service.access_token_ttl % second ≡ 0)
      × (service.refresh_token_ttl % second ≡ 0)
unfolding new
new_sound d c h =
    ground (arith, valid_token_ttl-ok c.access_token_ttl, valid_token_ttl-ok c.refresh_token_ttl)
