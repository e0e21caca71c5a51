-- ===== src/Webui/Tests.antt =====
-- Writes from the console's own origin, and a body that repeats a key.
use gsm_system.Base.{◌≡◌, refl, true, false, [], ◌∷◌, Option, none, some, if◌then◌else◌}
use gsm_system.Base.Text.{Text, codes, eqb, trim_space, strip_prefix}
use gsm_system.Base.Number.{atoi}
use gsm_system.Base.Utf8.{fields}
use gsm_system.Base.Map.{put}
use gsm_system.Base.Json.{Json, str, obj, end, field, fold_name}
use gsm_system.Configuration.{Url}
use gsm_system.Api.Cell.{Code}
use gsm_system.Api.Route.{Handler, Routed}
use gsm_system.Api.Http.{value, at_end, decode_v1_json, config_values}
use gsm_system.Webui.{Request, Answered, serve_api, serve_http}
use gsm_system.Webui.Guard.{OnServed, IsGuarded, serve_api-IsGuarded}

abbrev lab : Url
lab = record {
  scheme = codes "http";
  host = codes "lab";
  hostname = codes "lab";
  port = codes "8082";
  has_user = false;
  path = [];
  raw_query = [];
  fragment = [];
}

abbrev only_lab : Text → Option Url
only_lab s =
    if eqb s (codes "http://lab:8082")
    then some lab
    else if eqb s (codes "//lab")
    then some lab
    else none

abbrev same_hash : Text → Text
same_hash t = t

abbrev stop_cell : Text → Request
stop_cell origin = record {
  method = codes "DELETE";
  path = codes "/api/v1/cell";
  no_query = true;
  origin = origin;
  authorization = codes "bearer secret";
  host = codes "lab";
  tls = false;
}

own_origin :
    serve_api only_lab eqb same_hash (codes "secret") [] (stop_cell (codes "http://lab:8082"))
    ≡ Answered.served (Routed.handled Handler.cell_stop)
unfolding serve_api eqb trim_space atoi fields strip_prefix
own_origin = refl

foreign_origin :
    serve_http only_lab eqb same_hash (codes "secret") [] (stop_cell (codes "http://elsewhere"))
    ≡ Answered.cross_origin
unfolding serve_http eqb trim_space atoi strip_prefix
foreign_origin = refl

serve_api-IsGuarded_example :
    OnServed
      (IsGuarded only_lab eqb (codes "secret") [] (stop_cell (codes "http://lab:8082")))
      (serve_api only_lab eqb same_hash (codes "secret") [] (stop_cell (codes "http://lab:8082")))
serve_api-IsGuarded_example =
    serve_api-IsGuarded only_lab eqb same_hash (λ s t e. e) (codes "secret") []
      (stop_cell (codes "http://lab:8082"))

abbrev one_value : Text → Json
one_value v = obj (field (codes "GSM.Radio.C0") (str v) end)

-- The same key twice under `values` and `VALUES`: the body is accepted, and the last one is taken.
repeated_key :
    decode_v1_json config_values (some (codes "application/json")) (
      value
        (obj (
          field
            (codes "values")
            (one_value (codes "1"))
            (field (codes "VALUES") (one_value (codes "2")) end)))
        at_end)
    ≡ (Code.ok, some ((codes "GSM.Radio.C0", codes "2") ∷ []))
unfolding decode_v1_json config_values fold_name eqb put
repeated_key = refl
