-- ===== src/Api/Http.antt =====
-- internal/api/http.go: the bearer token, and the decoding of a body.
-- `hash` stands for sha256.Sum256. What the parsers of the media type and of JSON give is observed.
use gsm_system.Base.{Bool, false, ◌&&◌, ◌||◌, [], ◌∷◌, List, Option, none, some, map, if◌then◌else◌}
use gsm_system.Base.Text.{Text, codes, eqb, is_empty, lower, trim_space}
use gsm_system.Base.Utf8.{fields}
use gsm_system.Base.Map.{put}
use gsm_system.Base.Json.{Json, Fields, null, obj, end, field, unique_names, fold_name, as_string}
use gsm_system.Gsm.Database.{Values}
use gsm_system.Api.Cell.{Code}
use gsm_system.Api.Route.{Method, Routed, serve_v1}

module _ (hash : Text → Text) where
  abbrev pub token_matches : Text → List Text → Bool
  token_matches want (scheme ∷ (got ∷ [])) =
      eqb (map lower scheme) (codes "bearer") && eqb (hash got) (hash want)
  token_matches want _ = false

  -- `authorized`, of the value of GSM_API_TOKEN and of the header
  unfoldable pub authorized : Text → Text → Bool
  unfolding eqb trim_space fields
  authorized token header =
      let want = trim_space token in is_empty want || token_matches want (fields header)

  -- `chain` around `serveV1`. The recovery of a panic, and the redirection of paths that are not
  -- clean by http.ServeMux, are not modelled.
  unfoldable pub chain : Text → Text → Method → Text → Bool → Routed
  unfolding authorized serve_v1
  chain token header m path no_query =
      if authorized token header then serve_v1 m path no_query else Routed.refused Code.unauthorized

-- What the reading of a body gives: an error, or a first value and what follows it.
pub data Rest : Type 0 where
  at_end limit_follows more_follows : Rest

pub data Body : Type 0 where
  beyond_limit unreadable : Body
  value : Json → Rest → Body

abbrev pub same_name : Text → Text
same_name n = n

module _ {ℓ} {A : Type ℓ} (into : Json → Option A) where
  abbrev decoded_into : Option A → Code × Option A
  decoded_into none = (Code.malformed, none)
  decoded_into (some a) = (Code.ok, some a)

  abbrev decode_value_v1 : Json → Code × Option A
  decode_value_v1 (obj fs) =
      if unique_names same_name (obj fs)
      then decoded_into (into (obj fs))
      else (Code.malformed, none)
  decode_value_v1 _ = (Code.malformed, none)

  abbrev decode_body : Body → Code × Option A
  decode_body beyond_limit = (Code.too_large, none)
  decode_body unreadable = (Code.malformed, none)
  decode_body (value j limit_follows) = (Code.too_large, none)
  decode_body (value j more_follows) = (Code.malformed, none)
  decode_body (value j at_end) = decode_value_v1 j

  -- `decodeV1JSON`, of the media type if it can be parsed
  unfoldable pub decode_v1_json : Option Text → Body → Code × Option A
  unfolding unique_names eqb
  decode_v1_json none body = (Code.media_type, none)
  decode_v1_json (some media) body =
      if eqb media (codes "application/json") then decode_body body else (Code.media_type, none)

-- The members of `values`; a null is the empty text.
unfoldable pub values_from : Fields → Values → Option Values
unfolding as_string put
values_from end vs = some vs
values_from (field n v fs) vs = elim (as_string [] v) [
  | none ↦ none
  | some t ↦ values_from fs (put n t vs)
]

abbrev values_member : Values → Json → Option Values
values_member vs null = some []
values_member vs (obj fs) = values_from fs vs
values_member vs _ = none

-- The body of PATCH /config: a second member of that name adds to the same map.
unfoldable pub config_members : Fields → Values → Option Values
unfolding values_from fold_name eqb
config_members end vs = some vs
config_members (field n v fs) vs =
    if eqb (fold_name n) (codes "values")
    then elim (values_member vs v) [ none ↦ none | some next ↦ config_members fs next ]
    else none

unfoldable pub config_values : Json → Option Values
unfolding config_members
config_values (obj fs) = config_members fs []
config_values _ = none
