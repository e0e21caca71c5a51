-- ===== src/Webui/Guard.antt =====
-- internal/webui/handler.go, internal/api/http.go: what a request has when it reaches a handler.
pub mod Origin
use gsm_system.Base.{
  ◌≡◌, refl, ap, ◌⊎◌, inl, inr, Bool, true, false, not, ◌&&◌, ◌||◌, [], ◌∷◌, List, Option, none,
  some, map, Bool-cases, Option-cases, and-eq-true,
}
use gsm_system.Base.Text.{Text, codes, eqb, eqb_iff, is_empty, lower, trim_space, contains}
use gsm_system.Base.Utf8.{fields}
use gsm_system.Gsm.Presets.{valid_preset_id}
use gsm_system.Configuration.{Url}
use gsm_system.Api.Route.{
  Method, get, post, put, patch, delete, other, Handler, Routed, handled, Resource, serve_at,
  resource_in, fixed_paths, serve_v1,
}
use gsm_system.Api.Route.Reached.{
  changes_state, names_valid, IsCareful, OnHandled, serve_v1-IsCareful,
}
use gsm_system.Api.Http.{token_matches, authorized, chain}
use gsm_system.Webui.{
  Request, is_write_method, method_of, own_scheme, Answered, split_authority, split_origin,
  is_public, is_own, allows_split, allows_origin, serve_api,
}
use gsm_system.Webui.Guard.Origin.{
  Carries, and-parts, matches-Carries, authorized-Carries, IsSameOrigin, is_own-parts,
  is_public-parts, by_own, by_public, split-IsSameOrigin, allows_origin-IsSameOrigin,
}

-- A request with a method that the API does not know reaches no handler.
other-unhandled :
    (no_query : Bool) (res : Resource) → OnHandled (λ h. ⊥) (serve_at other no_query res)
unfolding serve_at
other-unhandled q Resource.nothing = tt
other-unhandled q Resource.cell = tt
other-unhandled q Resource.presets = tt
other-unhandled q Resource.config = tt
other-unhandled q Resource.profile = tt
other-unhandled q Resource.health_check = tt
other-unhandled q Resource.connection_list = tt
other-unhandled q Resource.subscribers = tt
other-unhandled q Resource.active_calls = tt
other-unhandled q Resource.history = tt
other-unhandled q Resource.messages = tt
other-unhandled q Resource.network = tt
other-unhandled q (Resource.preset id) =
    elim (Bool-cases (is_empty id || contains id (codes "/"))) [
      | inl e ↦ rw e tt
      | inr e ↦ rw e (elim (Bool-cases (valid_preset_id id)) [ inl v ↦ rw v tt | inr v ↦ rw v tt ])
    ]
other-unhandled q (Resource.subscriber imsi) = tt
other-unhandled q (Resource.subscriber_number imsi) = tt

abbrev Reads : Method → Type 0
Reads get = Unit
Reads other = Unit
Reads _ = ⊥

-- A method that is not tested for its origin is GET or none that reaches a handler.
method_of-Reads : (method : Text) → is_write_method method ≡ false → Reads (method_of method)
unfolding is_write_method method_of
method_of-Reads method h = elim (Bool-cases (eqb method (codes "GET"))) [
  | inl e ↦ rw e tt
  | inr e ↦ rw e (elim (Bool-cases (eqb method (codes "HEAD"))) [
    | inl f ↦ rw f tt
    | inr f ↦ rw f (elim (Bool-cases (eqb method (codes "OPTIONS"))) [
      | inl g ↦ rw g tt
      | inr g ↦ absurd (cc (rw (e, f, g) at h))
    ])
  ])
]

-- What a request has when it reaches the handler `h`.
pub record IsGuarded (parse_url : Text → Option Url) (equal_fold : Text → Text → Bool)
    (token public : Text) (r : Request) (h : Handler) : Type 0 where
  pub carries : Carries token r.authorization
  pub writes :
      (changes_state h ≡ false) ⊎ (IsSameOrigin parse_url equal_fold public r × (r.no_query ≡ true))
  pub named : names_valid h ≡ true

abbrev pub OnServed : (Handler → Type 0) → Answered → Type 0
OnServed P Answered.cross_origin = Unit
OnServed P Answered.asset = Unit
OnServed P (Answered.served routed) = OnHandled P routed

module _ (parse_url : Text → Option Url) (equal_fold : Text → Text → Bool) (token public : Text)
    (r : Request) where
  IsGuarded-write :
      (m : Method) (routed : Routed)
      → Carries token r.authorization
      → IsSameOrigin parse_url equal_fold public r
      → OnHandled (IsCareful m r.no_query) routed
      → OnHandled (IsGuarded parse_url equal_fold token public r) routed
  IsGuarded-write m (handled h) c o k = record {
    carries = c;
    writes = elim k.0 [ inl e ↦ inl e | inr e ↦ inr (o, e.1) ];
    named = k.1;
  }
  IsGuarded-write m (Routed.refused e) c o k = tt
  IsGuarded-write m (Routed.not_allowed ms) c o k = tt

  IsGuarded-read :
      (m : Method) (routed : Routed)
      → Reads m
      → Carries token r.authorization
      → OnHandled (IsCareful m r.no_query) routed
      → (m ≡ other → OnHandled (λ h. ⊥) routed)
      → OnHandled (IsGuarded parse_url equal_fold token public r) routed
  IsGuarded-read get (handled h) d c k u = record {
    carries = c;
    writes = elim k.0 [ inl e ↦ inl e | inr e ↦ absurd (cc e.0) ];
    named = k.1;
  }
  IsGuarded-read other (handled h) d c k u = absurd (u refl)
  IsGuarded-read post (handled h) d c k u = absurd d
  IsGuarded-read put (handled h) d c k u = absurd d
  IsGuarded-read patch (handled h) d c k u = absurd d
  IsGuarded-read delete (handled h) d c k u = absurd d
  IsGuarded-read m (Routed.refused e) d c k u = tt
  IsGuarded-read m (Routed.not_allowed ms) d c k u = tt

serve_v1-unhandled :
    (m : Method) (path : Text) (no_query : Bool)
    → m ≡ other
    → OnHandled (λ h. ⊥) (serve_v1 m path no_query)
unfolding serve_v1
serve_v1-unhandled m path q e = rw e (other-unhandled q (resource_in fixed_paths path))

-- If the hash of a token tells it apart from every other text: a request that reaches a handler
-- carries the token, if one is configured. If the handler changes something, the request has no
-- query, and it names no origin or the one that is configured or, where none is, that of its
-- listener. A handler of one preset or one subscriber is given a valid identifier or IMSI.
pub serve_api-IsGuarded :
    (parse_url : Text → Option Url) (equal_fold : Text → Text → Bool) (hash : Text → Text)
    (no_collision : (s t : Text) → hash s ≡ hash t → s ≡ t) (token public : Text) (r : Request)
    → OnServed
        (IsGuarded parse_url equal_fold token public r)
        (serve_api parse_url equal_fold hash token public r)
unfolding serve_api chain
serve_api-IsGuarded parse_url equal_fold hash no_collision token public r =
    elim (Bool-cases (authorized hash token r.authorization)) [
      | inr bad ↦
          elim (Bool-cases
            (is_write_method r.method && not (allows_origin parse_url equal_fold public r))) [
              | inl e ↦ rw e tt
              | inr e ↦ rw (e, bad) tt
            ]
      | inl good ↦ elim (Bool-cases (is_write_method r.method)) [
        | inr reads ↦
            rw (reads, good)
              (IsGuarded-read parse_url equal_fold token public r (method_of r.method) routed
                (method_of-Reads r.method reads) (carries good) careful
                (serve_v1-unhandled (method_of r.method) r.path r.no_query))
        | inl writes ↦ elim (Bool-cases (allows_origin parse_url equal_fold public r)) [
          | inl allowed ↦
              rw (writes, allowed, good)
                (IsGuarded-write parse_url equal_fold token public r (method_of r.method) routed
                  (carries good) (allows_origin-IsSameOrigin parse_url equal_fold public r allowed)
                  careful)
          | inr foreign ↦ rw (writes, foreign) tt
        ]
      ]
    ]
  where
    routed : Routed
    routed = serve_v1 (method_of r.method) r.path r.no_query

    careful :
        OnHandled
          (IsCareful (method_of r.method) r.no_query)
          (serve_v1 (method_of r.method) r.path r.no_query)
    careful = serve_v1-IsCareful (method_of r.method) r.path r.no_query

    carries : authorized hash token r.authorization ≡ true → Carries token r.authorization
    carries good = authorized-Carries hash no_collision token r.authorization good
