-- ===== src/Webui/Guard/Origin.antt =====
-- internal/webui/handler.go, internal/api/http.go: the token and the origin of a request.
use gsm_system.Base.{
  ◌≡◌, refl, ap, ◌⊎◌, inl, inr, Bool, true, ◌&&◌, ◌||◌, [], ◌∷◌, List, Option, none, some, map,
  Bool-cases, Option-cases, and-eq-true,
}
use gsm_system.Base.Text.{Text, codes, eqb, eqb_iff, is_empty, lower, trim_space}
use gsm_system.Base.Utf8.{fields}
use gsm_system.Configuration.{Url}
use gsm_system.Api.Http.{token_matches, authorized}
use gsm_system.Webui.{
  Request, own_scheme, split_authority, split_origin, is_public, is_own, allows_split,
  allows_origin,
}

-- No token is configured, or the header names the scheme and has the token.
abbrev pub Carries : Text → Text → Type 0
Carries token header =
    (trim_space token ≡ [])
    ⊎ ((scheme : Text) × (fields header ≡ scheme ∷ (trim_space token ∷ []))
        × (map lower scheme ≡ codes "bearer"))

pub and-parts : (a b : Bool) → (a && b) ≡ true → (a ≡ true) × (b ≡ true)
and-parts a b h = and-eq-true a b h

module _ (hash : Text → Text) (no_collision : (s t : Text) → hash s ≡ hash t → s ≡ t) where
  pub matches-Carries :
      (token : Text) (l : List Text)
      → token_matches hash token l ≡ true
      → (scheme : Text) × (l ≡ scheme ∷ (token ∷ [])) × (map lower scheme ≡ codes "bearer")
  matches-Carries token [] h = absurd (cc h)
  matches-Carries token (scheme ∷ []) h = absurd (cc h)
  matches-Carries token (scheme ∷ (got ∷ (x ∷ l))) h = absurd (cc h)
  matches-Carries token (scheme ∷ (got ∷ [])) h =
      let parts = and-parts _ _ h in
      (
        scheme,
        ap (λ t. scheme ∷ (t ∷ []))
            (no_collision got token ((eqb_iff (hash got) (hash token)).0 parts.1)),
        (eqb_iff (map lower scheme) (codes "bearer")).0 parts.0,
      )

  pub authorized-Carries :
      (token header : Text) → authorized hash token header ≡ true → Carries token header
  unfolding authorized
  authorized-Carries token header h = by_token (trim_space token) refl h
    where
      by_token :
          (want : Text)
          → trim_space token ≡ want
          → (is_empty want || token_matches hash want (fields header)) ≡ true
          → (want ≡ [])
            ⊎ ((scheme : Text) × (fields header ≡ scheme ∷ (want ∷ []))
                × (map lower scheme ≡ codes "bearer"))
      by_token [] e k = inl refl
      by_token (c ∷ want) e k = inr (matches-Carries (c ∷ want) (fields header) k)

module _ (parse_url : Text → Option Url) (equal_fold : Text → Text → Bool) where
  -- The request names no origin; or it names the configured one; or, where none is configured, that
  -- of the listener it was sent to.
  pub data IsSameOrigin (public : Text) (r : Request) : Type 0 where
    absent : trim_space r.origin ≡ [] → IsSameOrigin public r
    configured :
        (o p : Text × Text × Text)
        → split_origin parse_url equal_fold (trim_space r.origin) ≡ some o
        → split_origin parse_url equal_fold public ≡ some p
        → equal_fold o.0 p.0 ≡ true
        → equal_fold o.1 p.1 ≡ true
        → o.2 ≡ p.2
        → IsSameOrigin public r
    own :
        (o : Text × Text × Text) (a : Text × Text)
        → public ≡ []
        → split_origin parse_url equal_fold (trim_space r.origin) ≡ some o
        → split_authority parse_url equal_fold r.host (own_scheme r.tls) ≡ some a
        → equal_fold o.0 (own_scheme r.tls) ≡ true
        → equal_fold o.1 a.0 ≡ true
        → o.2 ≡ a.1
        → IsSameOrigin public r

  pub is_own-parts :
      (o : Text × Text × Text) (scheme : Text) (a : Text × Text)
      → is_own parse_url equal_fold o scheme (some a) ≡ true
      → (equal_fold o.0 scheme ≡ true) × (equal_fold o.1 a.0 ≡ true) × (o.2 ≡ a.1)
  is_own-parts (s, h, p) scheme (h', p') e =
      let parts = and-parts (equal_fold s scheme && equal_fold h h') (eqb p p') e in
      let rest = and-parts (equal_fold s scheme) (equal_fold h h') parts.0 in
      (rest.0, rest.1, (eqb_iff p p').0 parts.1)

  pub is_public-parts :
      (o p : Text × Text × Text)
      → is_public parse_url equal_fold o (some p) ≡ true
      → (equal_fold o.0 p.0 ≡ true) × (equal_fold o.1 p.1 ≡ true) × (o.2 ≡ p.2)
  is_public-parts (s, h, p) (s', h', p') e =
      let parts = and-parts (equal_fold s s' && equal_fold h h') (eqb p p') e in
      let rest = and-parts (equal_fold s s') (equal_fold h h') parts.0 in
      (rest.0, rest.1, (eqb_iff p p').0 parts.1)

  pub by_own :
      (r : Request) (o : Text × Text × Text) (m : Option (Text × Text))
      → split_authority parse_url equal_fold r.host (own_scheme r.tls) ≡ m
      → split_origin parse_url equal_fold (trim_space r.origin) ≡ some o
      → is_own parse_url equal_fold o (own_scheme r.tls) m ≡ true
      → IsSameOrigin [] r
  by_own r (s, h, p) none f e k = absurd (cc k)
  by_own r o (some a) f e k =
      let parts = is_own-parts o (own_scheme r.tls) a k in own o a refl e f parts.0 parts.1 parts.2

  pub by_public :
      (public : Text) (r : Request) (o : Text × Text × Text) (m : Option (Text × Text × Text))
      → split_origin parse_url equal_fold public ≡ m
      → split_origin parse_url equal_fold (trim_space r.origin) ≡ some o
      → is_public parse_url equal_fold o m ≡ true
      → IsSameOrigin public r
  by_public public r (s, h, p) none f e k = absurd (cc k)
  by_public public r o (some p) f e k =
      let parts = is_public-parts o p k in configured o p e f parts.0 parts.1 parts.2

  pub split-IsSameOrigin :
      (public : Text) (r : Request) (o : Text × Text × Text)
      → split_origin parse_url equal_fold (trim_space r.origin) ≡ some o
      → allows_split parse_url equal_fold public r (some o) ≡ true
      → IsSameOrigin public r
  split-IsSameOrigin [] r o e h =
      by_own r o (split_authority parse_url equal_fold r.host (own_scheme r.tls)) refl e h
  split-IsSameOrigin (c ∷ public) r o e h =
      by_public (c ∷ public) r o (split_origin parse_url equal_fold (c ∷ public)) refl e h

  pub allows_origin-IsSameOrigin :
      (public : Text) (r : Request)
      → allows_origin parse_url equal_fold public r ≡ true
      → IsSameOrigin public r
  unfolding allows_origin
  allows_origin-IsSameOrigin public r h = elim (Bool-cases (is_empty (trim_space r.origin))) [
    | inl e ↦ absent (empty (trim_space r.origin) e)
    | inr e ↦ elim (Option-cases (split_origin parse_url equal_fold (trim_space r.origin))) [
      | inl n ↦ absurd (cc (rw (e, n) at h))
      | inr (o, f) ↦ split-IsSameOrigin public r o f (rw (e, f) at h)
    ]
  ]
    where
      empty : (s : Text) → is_empty s ≡ true → s ≡ []
      empty [] k = refl
      empty (c ∷ s) k = absurd (cc k)
