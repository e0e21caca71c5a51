-- ===== src/Webui.antt =====
-- internal/webui/handler.go: which requests the API sees, in the console and on its own listener.
-- Parameters: url.Parse, strings.EqualFold of hosts, and the hash of Api.Http. Assets, metadata and
-- the security headers are not modelled.
pub mod Guard
mod Tests
use gsm_system.Base.{
  Bool, true, false, not, ◌&&◌, ◌||◌, [], ◌∷◌, ◌++◌, List, Option, none, some, if◌then◌else◌,
}
use gsm_system.Base.Text.{Text, codes, eqb, is_empty, is_some, one_of, strip_prefix, trim_space}
use gsm_system.Base.Number.{atoi}
use gsm_system.Configuration.{Url, port_between}
use gsm_system.Api.Route.{Method, get, post, put, patch, delete, other, Routed}
use gsm_system.Api.Http.{chain}

-- The parts of a request that are looked at.
pub record Request : Type 0 where
  pub method : Text
  pub path : Text
  pub no_query : Bool
  pub origin : Text
  pub authorization : Text
  pub host : Text
  pub tls : Bool

-- `isAPIRoute`
unfoldable pub is_api_route : Text → Bool
unfolding eqb strip_prefix
is_api_route path = eqb path (codes "/api/v1") || is_some (strip_prefix (codes "/api/v1/") path)

-- `isWriteMethod`
unfoldable pub is_write_method : Text → Bool
is_write_method method = not (one_of (codes "GET" ∷ codes "HEAD" ∷ codes "OPTIONS" ∷ []) method)

-- The method as the API tells it apart.
unfoldable pub method_of : Text → Method
method_of method =
    if eqb method (codes "GET")
    then get
    else if eqb method (codes "HEAD")
    then other
    else if eqb method (codes "OPTIONS")
    then other
    else if eqb method (codes "POST")
    then post
    else if eqb method (codes "PUT")
    then put
    else if eqb method (codes "PATCH")
    then patch
    else if eqb method (codes "DELETE")
    then delete
    else other

abbrev default_port : Text → Text
default_port scheme =
    if eqb scheme (codes "http")
    then codes "80"
    else if eqb scheme (codes "https")
    then codes "443"
    else []

abbrev port_or : Text → Text → Text → Option (Text × Text)
port_or scheme host [] = some (host, default_port scheme)
port_or scheme host (c ∷ port) =
    if port_between 1 (atoi (c ∷ port)) then some (host, c ∷ port) else none

abbrev authority_of : Text → Option Url → Option (Text × Text)
authority_of scheme none = none
authority_of scheme (some u) =
    if u.has_user || is_empty u.hostname then none else port_or scheme u.hostname u.port

abbrev with_scheme : Text → Option (Text × Text) → Option (Text × Text × Text)
with_scheme scheme none = none
with_scheme scheme (some (host, port)) = some (scheme, host, port)

abbrev own_scheme : Bool → Text
own_scheme tls = if tls then codes "https" else codes "http"

-- The answer to a request: refused for its origin, or what the API makes of it.
pub data Answered : Type 0 where
  cross_origin asset : Answered
  served : Routed → Answered

module _ (parse_url : Text → Option Url) (equal_fold : Text → Text → Bool) where
  -- `splitAuthority`
  unfoldable pub split_authority : Text → Text → Option (Text × Text)
  unfolding eqb atoi
  split_authority authority scheme = authority_of scheme (parse_url (codes "//" ++ authority))

  abbrev origin_of : Option Url → Option (Text × Text × Text)
  origin_of none = none
  origin_of (some u) =
      if u.has_user
        || not (eqb u.scheme (codes "http") || eqb u.scheme (codes "https"))
        || is_empty u.host
        || not (is_empty u.path)
        || not (is_empty u.raw_query)
        || not (is_empty u.fragment)
      then none
      else with_scheme u.scheme (split_authority u.host u.scheme)

  -- `splitOrigin`
  unfoldable pub split_origin : Text → Option (Text × Text × Text)
  unfolding split_authority eqb
  split_origin value = origin_of (parse_url value)

  abbrev pub is_public : Text × Text × Text → Option (Text × Text × Text) → Bool
  is_public o none = false
  is_public (scheme, host, port) (some (scheme', host', port')) =
      equal_fold scheme scheme' && equal_fold host host' && eqb port port'

  abbrev pub is_own : Text × Text × Text → Text → Option (Text × Text) → Bool
  is_own o scheme none = false
  is_own (scheme, host, port) own (some (host', port')) =
      equal_fold scheme own && equal_fold host host' && eqb port port'

  abbrev pub allows_split : Text → Request → Option (Text × Text × Text) → Bool
  allows_split public r none = false
  allows_split public r (some o) =
      if is_empty public
      then is_own o (own_scheme r.tls) (split_authority r.host (own_scheme r.tls))
      else is_public o (split_origin public)

  -- `allowsOrigin`
  unfoldable pub allows_origin : Text → Request → Bool
  unfolding split_origin trim_space
  allows_origin public r =
      let origin = trim_space r.origin in
      is_empty origin || allows_split public r (split_origin origin)

  -- `serveAPI` around `chain`, which `ProtectAPI` serves on the listener of the API
  unfoldable pub serve_api : (Text → Text) → Text → Text → Request → Answered
  unfolding is_write_method allows_origin chain method_of
  serve_api hash token public r =
      if is_write_method r.method && not (allows_origin public r)
      then cross_origin
      else served (chain hash token r.authorization (method_of r.method) r.path r.no_query)

  -- `ServeHTTP` of the console
  unfoldable pub serve_http : (Text → Text) → Text → Text → Request → Answered
  unfolding is_api_route serve_api
  serve_http hash token public r =
      if is_api_route r.path then serve_api hash token public r else asset
