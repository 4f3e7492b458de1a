-- ===== src/App/Login.antt =====
-- Login (internal/identity/service/auth.go) with the token adapters of internal/infra/token, as the start
-- puts them together: what a client can do with the tokens that it is given.
use mathlib.Core.List.{mem-cons_self, mem-cons_of_mem}
use content_platform.Prelude.{
  Mem, List, ◌++◌, [], ◌∷◌, ap, none, ℕ, ◌+◌, ◌*◌, ◌/◌, ◌≤◌, ◌<◌, ℤ, pos, true, false, some, ◌≡◌,
  refl, sym, ◌∙◌, subst, arith,
}
use content_platform.GoTime.{Time, second, is_zero, year_in_range, unix_difference}
use content_platform.Domain.{normalize_time, UserSession}
use content_platform.Repository.Sessions.{new_session}
use content_platform.Service.Login.Sound.{created_session}
use content_platform.Domain.Validation.{TextRules}
use content_platform.Errors.{ok}
use content_platform.Ports.{Digest}
use content_platform.Database.{Store, Environment}
use content_platform.Service.{Service}
use content_platform.Service.Login.{LoginInput, LoginResult, login}
use content_platform.Service.Login.Correct.{IsLoggedIn, login_sound}
use content_platform.Token.Decimal.{int64_cutoff}
use content_platform.Token.Base64.{Bytes, encode}
use content_platform.Token.Refresh.{refresh_codec, generate, format, parse}
use content_platform.Token.Refresh.TokenText.{IsSecret, token_text, format-token_text}
use content_platform.Token.Refresh.RoundTrip.{parse-token_text}
use content_platform.Token.Access.{JwtLibrary, AccessManager, access_token_manager, sign, verify}
use content_platform.Token.Access.Jwt.{IsJwt, IsUtf8}
use content_platform.Token.Access.RoundTrip.{verify-sign}

-- A service with the adapters; `raw` is what a read of the random source yields.
abbrev pub with_adapters : (Bytes → Digest) → Bytes → JwtLibrary → AccessManager → Service → Service
with_adapters sha256 raw jwt m service = record service {
  access_token_manager = access_token_manager jwt m;
  refresh_token_generator = refresh_codec sha256 (some raw);
}

expiry_in_range :
    (t expiry end : Time)
    → year_in_range t ≡ true
    → year_in_range end ≡ true
    → t / second < expiry / second
    → expiry / second ≤ end / second
    → year_in_range expiry ≡ true
unfolding year_in_range
expiry_in_range t expiry end a b h k = ground arith

life-expiry :
    (t expiry life end : Time)
    → life ≡ unix_difference expiry t
    → 0 < life
    → t / second + life ≤ end / second
    → (t / second < expiry / second)
      × (expiry / second ≤ end / second)
      × (expiry / second ≡ t / second + life)
unfolding unix_difference
life-expiry t expiry life end h k l = omega arith

last_in : (row : UserSession) (rows : List UserSession) → Mem row (rows ++ row ∷ [])
last_in row [] = mem-cons_self
last_in row (first ∷ rest) = mem-cons_of_mem first (last_in row rest)

module _ (env : Environment) (rules : TextRules) (base : Service) (sha256 : Bytes → Digest)
    (raw : Bytes) (jwt : JwtLibrary) (m : AccessManager) (input : LoginInput) (s : Store) where
  logged_in :
      {result : LoginResult} {s' : Store}
      → login env rules (with_adapters sha256 raw jwt m base) input s ≡ (ok result, s')
      → (before : Store) × IsLoggedIn env
          (with_adapters sha256 raw jwt m base)
          input
          (encode raw)
          (sha256 raw)
          before
          result
          s'
  unfolding refresh_codec generate
  logged_in h = (
    _,
    login_sound env rules (with_adapters sha256 raw jwt m base) input (encode raw) (sha256 raw) refl
        s h,
  )

  -- The refresh token of a login leads back to its session: where the random source gave 32 bytes and
  -- the database a positive int64 for the session, the codec parses the token that the client is given
  -- into the identifier and the digest of a session that the database then has. It is the session of
  -- the login: the next identifier, the user's own, not revoked, and up to the end that is shown.
  pub login-parse :
      (n : ℕ) (result : LoginResult) (s' : Store)
      → IsSecret raw
      → env.next_session_id ≡ pos n
      → 0 < n
      → n < int64_cutoff
      → login env rules (with_adapters sha256 raw jwt m base) input s ≡ (ok result, s')
      → (session : UserSession) × Mem session s'.sessions
        × (session.id ≡ env.next_session_id)
        × (session.user_id ≡ result.user.id)
        × (session.revoked_at ≡ none)
        × (normalize_time session.expires_at ≡ result.refresh_expires_at)
        × (parse sha256 result.refresh_token ≡ ok (session.id, session.token_hash))
  unfolding refresh_codec created_session new_session
  login-parse n result s' secret id lo hi h =
      let (before, done) = logged_in h in
      let formatted : format (pos n) (encode raw) ≡ ok result.refresh_token =
        subst (λ (z : ℤ). format z (encode raw) ≡ ok result.refresh_token) id done.formatted in
      let same : result.refresh_token ≡ token_text n raw =
        ground (arith, formatted, format-token_text n raw lo hi secret) in
      let session =
        created_session env (with_adapters sha256 raw jwt m base) done.user (sha256 raw)
          (normalize_time env.clock_now) in
      (
        session,
        subst (λ rows. Mem session rows) (sym (ap (λ (t : Store). t.sessions) done.stored))
            (last_in session before.sessions),
        refl,
        sym done.shown,
        refl,
        sym done.session_end,
        rw (same, id) (parse-token_text sha256 n raw lo hi secret),
      )

  -- The access token of a login opens the API: the Verify of the manager that signed it accepts it for
  -- the user and the session of the login, at every instant that is less than `expires_in` seconds after
  -- the second of the login and not more than 30 seconds before it. The identifiers are below 2^63, the
  -- instants (of the login, of the end of the session, and of the call of Verify, which is not the zero
  -- time) are in the years 0 to 9999, the issuer and the audience are valid UTF-8, and golang-jwt is as
  -- `IsJwt` says.
  pub login-verify :
      (u n : ℕ) (now : Time) (result : LoginResult) (s' : Store)
      → IsJwt jwt
      → IsUtf8 m.issuer
      → IsUtf8 m.audience
      → u < int64_cutoff
      → n < int64_cutoff
      → result.user.id ≡ pos u
      → env.next_session_id ≡ pos n
      → year_in_range (normalize_time env.clock_now) ≡ true
      → year_in_range result.refresh_expires_at ≡ true
      → year_in_range now ≡ true
      → is_zero now ≡ false
      → now / second < normalize_time env.clock_now / second + result.expires_in
      → normalize_time env.clock_now ≤ now + 30 * second
      → login env rules (with_adapters sha256 raw jwt m base) input s ≡ (ok result, s')
      → verify jwt m result.access_token now ≡ some (record { user_id = pos u; session_id = pos n })
  unfolding access_token_manager
  login-verify u n now result s' library utf_i utf_a hi hi' user session t_range end_range now_range
        not_zero alive skew h =
      let (before, done) = logged_in h in
      let (expiry, jwt_id, drawn, signed, life) = done.signed in
      let t = normalize_time env.clock_now in
      let (later, earlier, exact) =
        life-expiry t expiry result.expires_in result.refresh_expires_at life done.positive_life
          done.within_session in
      let token : sign jwt m (pos u) (pos n) t expiry jwt_id ≡ ok result.access_token =
        subst (λ (z : ℤ). sign jwt m z (pos n) t expiry jwt_id ≡ ok result.access_token)
          (sym done.shown ∙ user)
          (subst (λ (z : ℤ). sign jwt m done.user.id z t expiry jwt_id ≡ ok result.access_token)
            session signed) in
      verify-sign jwt library m u n t expiry jwt_id result.access_token now utf_i utf_a hi hi'
        (
          t_range,
          expiry_in_range t expiry result.refresh_expires_at t_range end_range later earlier,
          now_range,
          not_zero,
          omega arith,
          skew,
        )
        token
