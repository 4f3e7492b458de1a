-- ===== src/Authn/Bearer/Grammar.antt =====
-- What bearerToken accepts.
use content_platform.Prelude.{
  ℕ, zero, suc, Text, [], ◌∷◌, ◌++◌, codes, true, false, some, ◌==◌, ◌≡◌, ◌≢◌, ◌↔◌, refl, ap, ◌∙◌,
  arith, All, Bool-cases, inl, inr,
}
use content_platform.Domain.Validation.{is_space}
use content_platform.GoStrings.{contains, cut}
use content_platform.Http.{equal_fold, fold}
use content_platform.Authn.Bearer.{skip_spaces, has_space, token_of, bearer_token}

-- Spaces before a text.
unfoldable pub spaces : ℕ → Text → Text
spaces zero s = s
spaces (suc n) s = b' ' ∷ spaces n s

-- The scheme, which is "Bearer" up to case, one space or more, and a token that is not empty and has
-- no white space.
pub record IsBearer (authorization token : Text) : Type 0 where
  pub scheme : Text
  pub more_spaces : ℕ
  pub is_scheme : equal_fold scheme (codes "Bearer") ≡ true
  pub has_token : token ≢ []
  pub no_space : has_space token ≡ false
  pub split : authorization ≡ scheme ++ (b' ' ∷ spaces more_spaces token)

cut-contains : (s : Text) → contains b' ' s ≡ true → s ≡ (cut b' ' s).0 ++ (b' ' ∷ (cut b' ' s).1)
unfolding contains cut
cut-contains [] h = absurd (cc)
cut-contains (c ∷ s) h = ground (arith, cut-contains s)

skip_spaces-spaces : (s : Text) → (n : ℕ) × (s ≡ spaces n (skip_spaces s))
unfolding skip_spaces spaces
skip_spaces-spaces [] = (0, refl)
skip_spaces-spaces (c ∷ s) =
    let (n, e) = skip_spaces-spaces s in
    elim (Bool-cases (c == b' ')) [
      | inl h ↦ (suc n, rw h (ground (arith, h)))
      | inr h ↦ (0, rw h refl)
    ]

token_of_sound : (s t : Text) → token_of s ≡ some t → (s ≡ t) × (t ≢ []) × (has_space t ≡ false)
unfolding token_of
token_of_sound [] t h = absurd (cc)
token_of_sound (c ∷ s) t h = ground arith

bearer_token_sound : (s t : Text) → bearer_token s ≡ some t → IsBearer s t
unfolding bearer_token
bearer_token_sound s t h =
    let (n, e) = skip_spaces-spaces (cut b' ' s).1 in
    let (same, some_text, free) =
      token_of_sound (skip_spaces (cut b' ' s).1) t (ground (arith, h)) in
    record {
      scheme = (cut b' ' s).0;
      more_spaces = n;
      is_scheme = ground (arith, h);
      has_token = some_text;
      no_space = free;
      split =
          cut-contains s (ground (arith, h))
          ∙ ap (λ (u : Text). (cut b' ' s).0 ++ (b' ' ∷ u)) (e ∙ ap (spaces n) same);
    }

-- A scheme that folds like a text without spaces has none: the first space is the one behind it.
cut-scheme :
    (scheme t rest : Text)
    → equal_fold scheme t ≡ true
    → All (λ c. fold c ≢ b' ') t
    → (cut b' ' (scheme ++ (b' ' ∷ rest)) ≡ (scheme, rest))
      × (contains b' ' (scheme ++ (b' ' ∷ rest)) ≡ true)
unfolding equal_fold cut contains fold
cut-scheme [] [] rest h k = (refl, refl)
cut-scheme [] (b ∷ t) rest h k = absurd (cc)
cut-scheme (a ∷ s) [] rest h k = absurd (cc)
cut-scheme (a ∷ s) (b ∷ t) rest h (k, ks) =
    let (e, f) = cut-scheme s t rest (ground (arith, h)) ks in ground (arith, e, f)

skip_spaces-token :
    (n : ℕ) (t : Text)
    → t ≢ []
    → has_space t ≡ false
    → (skip_spaces (spaces n t) ≡ t) × (token_of t ≡ some t)
unfolding skip_spaces spaces has_space is_space token_of
skip_spaces-token zero [] h k = absurd (h refl)
skip_spaces-token zero (c ∷ s) h k = ground arith
skip_spaces-token (suc n) t h k = ground (arith, skip_spaces-token n t h k)

bearer_token_complete : (s t : Text) → IsBearer s t → bearer_token s ≡ some t
unfolding bearer_token
bearer_token_complete s t h =
    let (e, f) =
      cut-scheme h.scheme (codes "Bearer") (spaces h.more_spaces t) h.is_scheme
        (unfold fold in omega arith) in
    let (u, v) = skip_spaces-token h.more_spaces t h.has_token h.no_space in
    rw (h.split, e, f, h.is_scheme, u, v) refl

-- An Authorization value is accepted exactly when it is the scheme "Bearer" in any case, one space or
-- more, and a text that is not empty and has no white space, and that text is the token.
pub bearer_token_iff : (s t : Text) → (bearer_token s ≡ some t) ↔ IsBearer s t
bearer_token_iff s t = (bearer_token_sound s t, bearer_token_complete s t)
