-- ===== src/Authn/Middleware/Safety.antt =====
-- Whom the middleware lets through.
use content_platform.Prelude.{
  ◌≤◌, Text, true, false, Option, none, some, is_positive, ◌≡◌, ◌⊎◌, refl, ap, arith, Option-cases,
  inl, inr,
}
use content_platform.GoTime.{Time, truncate_second}
use content_platform.Domain.Validation.{byte_length}
use content_platform.Http.{Request, World, Handler}
use content_platform.Authn.{Principal}
use content_platform.Authn.Bearer.{single_authorization_header, bearer_token}
use content_platform.Authn.Bearer.Grammar.{IsBearer, bearer_token_iff}
use content_platform.Authn.Middleware.{
  Verifier, raw_token, accept_principal, verify_token, authenticated, reject_access_token,
  with_context, forward, middleware,
}

-- What has been tested of a request that is let through with the principal `p`.
pub record IsAuthenticated (verifier : Verifier) (now : Time) (r : Request) (p : Principal)
    : Type 0 where
  pub authorization : Text
  pub token : Text
  pub is_only : single_authorization_header r.header ≡ some authorization
  pub is_bearer : IsBearer authorization token
  pub fits : byte_length token ≤ 4096
  pub verified : verifier token (truncate_second now) ≡ some p
  pub has_user : is_positive p.user_id ≡ true
  pub has_session : is_positive p.session_id ≡ true
  pub live :
      (r.context.cancelled 0 ≡ false)
      × (r.context.cancelled 1 ≡ false)
      × (r.context.cancelled 2 ≡ false)

raw_token_sound :
    (r : Request) (t : Text)
    → raw_token r ≡ some t
    → (a : Text) × (single_authorization_header r.header ≡ some a)
      × IsBearer a t
      × (byte_length t ≤ 4096)
unfolding raw_token
raw_token_sound r t h = elim (Option-cases (single_authorization_header r.header)) [
  | inl e ↦ absurd (ground (arith, e))
  | inr (a, e) ↦ elim (Option-cases (bearer_token a)) [
    | inl f ↦ absurd (ground (arith, e, f))
    | inr (u, f) ↦
        let same : u ≡ t = ground (arith, e, f) in
        (a, e, (bearer_token_iff a t).0 (ground (arith, e, f)), ground (arith, e, f))
  ]
]

verify_token_sound :
    (verifier : Verifier) (now : Time) (r : Request) (t : Text) (p : Principal)
    → verify_token verifier now r t ≡ some p
    → (verifier t (truncate_second now) ≡ some p)
      × (is_positive p.user_id ≡ true)
      × (is_positive p.session_id ≡ true)
      × (r.context.cancelled 1 ≡ false)
      × (r.context.cancelled 2 ≡ false)
unfolding verify_token accept_principal
verify_token_sound verifier now r t p h = elim (Option-cases (verifier t (truncate_second now))) [
  | inl e ↦ absurd (ground (arith, e))
  | inr (q, e) ↦ (
    ground (arith, e),
    ground (arith, e),
    ground (arith, e),
    ground (arith, e),
    ground (arith, e),
  )
]

authenticated_sound :
    (verifier : Verifier) (now : Time) (r : Request) (p : Principal)
    → authenticated (some verifier) (some now) r ≡ some p
    → IsAuthenticated verifier now r p
unfolding authenticated
authenticated_sound verifier now r p h = elim (Option-cases (raw_token r)) [
  | inl e ↦ absurd (ground (arith, e))
  | inr (t, e) ↦
      let (a, only, bearer, fits) = raw_token_sound r t e in
      let (v, u, s, c, d) = verify_token_sound verifier now r t p (ground (arith, e)) in
      record {
        authorization = a;
        token = t;
        is_only = only;
        is_bearer = bearer;
        fits = fits;
        verified = v;
        has_user = u;
        has_session = s;
        live = (ground (arith, e), c, d);
      }
]

module _ {S : Type 0} (reject : Option (Handler S)) (next : Handler S) where
  -- The middleware either rejects a request, or hands it on with a principal in its context that the
  -- verifier returned, at the clock's second, for the token of the only Authorization value, a bearer
  -- token of at most 4096 bytes. The principal's identifiers are positive, and no look at the context
  -- found it cancelled. Without a verifier or a clock it rejects every request.
  pub middleware-IsAuthenticated :
      (verifier : Option Verifier) (clock : Option Time) (r : Request) (w : World S)
      → (middleware verifier clock reject next r w ≡ reject_access_token reject r w)
        ⊎ ((v : Verifier) × (now : Time) × (p : Principal) × (verifier ≡ some v)
            × (clock ≡ some now)
            × IsAuthenticated v now r p
            × (middleware verifier clock reject next r w ≡ next (with_context p r) w))
  unfolding middleware forward authenticated
  middleware-IsAuthenticated none clock r w = inl refl
  middleware-IsAuthenticated (some v) none r w = inl refl
  middleware-IsAuthenticated (some v) (some now) r w =
      elim (Option-cases (authenticated (some v) (some now) r)) [
        | inl e ↦ inl (ap (λ (o : Option Principal). forward reject next o r w) e)
        | inr (p, e) ↦ inr (
          v,
          now,
          p,
          refl,
          refl,
          authenticated_sound v now r p e,
          ap (λ (o : Option Principal). forward reject next o r w) e,
        )
      ]
