-- ===== src/App/Start/Correct.antt =====
-- The start: a valid configuration starts, and a start that fails leaves no database handle open.
use content_platform.Prelude.{
  ℕ, ◌≤◌, ◌<◌, ℤ, Text, List, [], ◌∷◌, true, none, some, ◌≡◌, ◌⊎◌, inl, inr, refl, ap, arith, ◌≢◌,
  Bool-cases, Option-cases,
}
use content_platform.Errors.{Error, Result, ok, err, adapter_error}
use content_platform.Database.Monad.Laws.{Result-cases}
use content_platform.Service.{Service, Dependencies, valid_token_ttl}
use content_platform.Service
use content_platform.Token.Access.{AccessManager, new_access_manager}
use content_platform.Password.{Bcrypt, dummy_candidate, valid_cost, with_cost}
use content_platform.Password
use content_platform.Address.{AddressLibrary}
use content_platform.Configuration.{Config, validate}
use content_platform.Configuration.Start.{IsUsable, IsLifetime, validate-none}
use content_platform.App.Start.{
  Event, database_opened, database_closed, App, Startup, close_unless_made, dependencies, lifetimes,
  make_app, make_service, make_manager, make, new_with_dependencies,
}

valid_token_ttl-IsLifetime : (ttl : ℤ) (n : ℕ) → IsLifetime ttl n → valid_token_ttl ttl ≡ some n
unfolding valid_token_ttl
valid_token_ttl-IsLifetime ttl n h = ground arith

new-made :
    (d : Dependencies) (c : Service.Config) (access refresh : ℕ)
    → d.has_repository ≡ true
    → d.has_clock ≡ true
    → d.password_hasher ≢ none
    → d.access_token_manager ≢ none
    → d.refresh_token_generator ≢ none
    → IsLifetime c.access_token_ttl access
    → IsLifetime c.refresh_token_ttl refresh
    → access < refresh
    → (service : Service) × (Service.new d c ≡ ok service)
unfolding Service.new
new-made d c access refresh r k hasher manager generator a b order =
    elim (Option-cases d.password_hasher) [
      | inl e ↦ absurd (hasher e)
      | inr (h, e) ↦ elim (Option-cases d.access_token_manager) [
        | inl f ↦ absurd (manager f)
        | inr (m, f) ↦ elim (Option-cases d.refresh_token_generator) [
          | inl g ↦ absurd (generator g)
          | inr (t, g) ↦ (
            record {
              password_hasher = h;
              access_token_manager = m;
              refresh_token_generator = t;
              access_token_ttl = access;
              refresh_token_ttl = refresh;
            },
            ground (
              arith,
              e,
              f,
              g,
              valid_token_ttl-IsLifetime c.access_token_ttl access a,
              valid_token_ttl-IsLifetime c.refresh_token_ttl refresh b,
            ),
          )
        ]
      ]
    ]

module _ (startup : Startup) (c : Config) where
  make_service-ok :
      (b : Bcrypt) (m : AccessManager) (service : Service)
      → Service.new (dependencies startup c b m) (lifetimes startup c) ≡ ok service
      → make_service startup c b m ≡ ok (make_app startup c m service)
  unfolding make_service
  make_service-ok b m service e =
      ap
        (λ (r : Result Service). elim r as (λ x. Result App) [
          | err x ↦ err x
          | ok made ↦ ok (make_app startup c m made)
        ])
        e

  new_with_dependencies-ok :
      (app : App)
      → startup.opens_database ≡ true
      → make startup c ≡ ok app
      → new_with_dependencies startup c ≡ (ok app, database_opened ∷ [])
  unfolding new_with_dependencies close_unless_made
  new_with_dependencies-ok app h e = ground (arith, h, e)

  make_service-IsUsable :
      (b : Bcrypt) (m : AccessManager)
      → IsUsable c.auth
      → (app : App) × (make_service startup c b m ≡ ok app)
  unfolding dependencies lifetimes
  make_service-IsUsable b m u =
      let (access, refresh, is_access, is_refresh, order) = u.lifetimes in
      let (service, e) =
        new-made (dependencies startup c b m) (lifetimes startup c) access refresh refl refl (cc)
          (cc) (cc) is_access is_refresh order in
      (make_app startup c m service, make_service-ok b m service e)

  make_manager-IsUsable :
      (b : Bcrypt) → IsUsable c.auth → (app : App) × (make_manager startup c b ≡ ok app)
  unfolding make_manager new_access_manager
  make_manager-IsUsable b u =
      let m : AccessManager = record {
        secret = c.auth.jwt_secret;
        issuer = c.auth.jwt_issuer;
        audience = c.auth.jwt_audience;
        random = startup.jwt_random;
      } in
      let (app, e) = make_service-IsUsable b m u in
      (app, ground (arith, e, u.secret, u.issuer, u.audience))

  make-IsUsable :
      (dummy_hash : ℕ → Text)
      → ((cost : ℕ)
          → 10 ≤ cost
          → cost ≤ 15
          → startup.bcrypt.generate dummy_candidate cost ≡ some (dummy_hash cost))
      → IsUsable c.auth
      → (app : App) × (make startup c ≡ ok app)
  unfolding make Password.new with_cost valid_cost
  make-IsUsable dummy_hash generates u =
      let (cost, e, low, high) = u.cost in
      let b : Bcrypt = record { cost = cost; dummy_hash = dummy_hash cost } in
      let (app, f) = make_manager-IsUsable b u in
      (app, ground (arith, e, generates cost low high, f))

  -- A configuration that passes Validate starts the application: where the database can be opened and
  -- bcrypt hashes the dummy password at every cost from 10 to 15, every part is made, and the database
  -- is not closed. Redis need not answer.
  pub new_with_dependencies-validate :
      (library : AddressLibrary) (dummy_hash : ℕ → Text)
      → validate library c ≡ none
      → startup.opens_database ≡ true
      → ((cost : ℕ)
          → 10 ≤ cost
          → cost ≤ 15
          → startup.bcrypt.generate dummy_candidate cost ≡ some (dummy_hash cost))
      → (app : App) × (new_with_dependencies startup c ≡ (ok app, database_opened ∷ []))
  new_with_dependencies-validate library dummy_hash v opens generates =
      let (app, e) = make-IsUsable dummy_hash generates (validate-none library c v) in
      (app, new_with_dependencies-ok app opens e)

  -- The database handle is open after the start exactly when the start succeeded: a start that fails
  -- has not opened it, or has closed it behind the failure.
  pub new_with_dependencies-closed :
      ((app : App) × (new_with_dependencies startup c ≡ (ok app, database_opened ∷ [])))
      ⊎ ((e : Error) × (events : List Event) × (new_with_dependencies startup c ≡ (err e, events))
          × ((events ≡ []) ⊎ (events ≡ database_opened ∷ database_closed ∷ [])))
  unfolding new_with_dependencies close_unless_made
  new_with_dependencies-closed = elim (Bool-cases startup.opens_database) [
    | inl h ↦ elim (Result-cases (make startup c)) [
      | inl (app, e) ↦ inl (app, new_with_dependencies-ok app h e)
      | inr (x, e) ↦ inr (x, _, ground (arith, h, e), inr refl)
    ]
    | inr h ↦ inr (adapter_error, [], ground (arith, h), inl refl)
  ]
