-- ===== src/Api/Route.antt =====
-- internal/api/v1.go, presets.go, helpers.go: which handler a request reaches, `allow` and
-- `requireNoQuery`. A handler is named by what it does; its body is in the other modules.
pub mod Reached
pub mod Addresses
pub mod Paths
pub mod Exact
use gsm_system.Base.{
  Bool, true, false, not, ◌&&◌, ◌||◌, [], ◌∷◌, List, Option, none, some, any, if◌then◌else◌,
}
use gsm_system.Base.Text.{Text, codes, eqb, is_empty, contains, strip_prefix, split}
use gsm_system.Gsm.Params.{valid_imsi}
use gsm_system.Gsm.Presets.{valid_preset_id}
use gsm_system.Api.Cell.{Code}

pub data Method : Type 0 where
  get post put patch delete other : Method

abbrev pub same_method : Method → Method → Bool
same_method get get = true
same_method post post = true
same_method put put = true
same_method patch patch = true
same_method delete delete = true
same_method _ _ = false

pub data Handler : Type 0 where
  cell_status cell_start cell_stop : Handler
  preset_list preset_create : Handler
  preset_get preset_update preset_delete : Text → Handler
  config_get config_patch : Handler
  profile_get health connections : Handler
  subscriber_list : Handler
  subscriber_get subscriber_bind subscriber_unbind : Text → Handler
  sms_list sms_send : Handler
  calls call_history : Handler
  network_get network_put : Handler

-- A handler is reached, or the request is answered at once; a 405 lists the methods in `Allow`.
pub data Routed : Type 0 where
  handled : Handler → Routed
  refused : Code → Routed
  not_allowed : List Method → Routed

-- `allow`
abbrev pub allow : Method → List Method → Routed → Routed
allow m ms next = if any (same_method m) ms then next else not_allowed ms

-- `requireNoQuery`; the flag says that the query is empty.
abbrev pub require_no_query : Bool → Routed → Routed
require_no_query no_query next = if no_query then next else refused Code.refused

abbrev pub only_get : Method → Bool → Handler → Routed
only_get m no_query h = allow m (get ∷ []) (require_no_query no_query (handled h))

-- What a path names.
pub data Resource : Type 0 where
  cell presets config profile health_check connection_list subscribers : Resource
  messages active_calls history network nothing : Resource
  preset subscriber subscriber_number : Text → Resource

abbrev pub cell_handler : Method → Handler
cell_handler post = cell_start
cell_handler delete = cell_stop
cell_handler _ = cell_status

abbrev pub presets_handler : Method → Handler
presets_handler get = preset_list
presets_handler _ = preset_create

abbrev pub preset_handler : Text → Method → Handler
preset_handler id put = preset_update id
preset_handler id delete = preset_delete id
preset_handler id _ = preset_get id

abbrev pub number_handler : Text → Method → Handler
number_handler imsi put = subscriber_bind imsi
number_handler imsi _ = subscriber_unbind imsi

abbrev pub checked : Bool → Routed → Routed
checked valid next = if valid then next else refused Code.refused

abbrev pub config_handler : Method → Handler
config_handler get = config_get
config_handler _ = config_patch

-- GET reads its own query parameters; the other method takes none.
abbrev pub get_or_write : Method → Bool → Handler → Handler → Routed
get_or_write get no_query read write = handled read
get_or_write _ no_query read write = require_no_query no_query (handled write)

-- The case of `serveV1` for what the path names, `handlePresets`, `routePreset` and
-- `routeSubscriber` included.
unfoldable pub serve_at : Method → Bool → Resource → Routed
unfolding valid_preset_id valid_imsi
serve_at m no_query cell =
    allow m (get ∷ post ∷ delete ∷ []) (require_no_query no_query (handled (cell_handler m)))
serve_at m no_query presets =
    allow m (get ∷ post ∷ []) (require_no_query no_query (handled (presets_handler m)))
serve_at m no_query config =
    allow m (get ∷ patch ∷ []) (require_no_query no_query (handled (config_handler m)))
serve_at m no_query profile = only_get m no_query profile_get
serve_at m no_query health_check = only_get m no_query health
serve_at m no_query connection_list = allow m (get ∷ []) (handled connections)
serve_at m no_query subscribers = allow m (get ∷ []) (handled subscriber_list)
serve_at m no_query messages = allow m (get ∷ post ∷ []) (get_or_write m no_query sms_list sms_send)
serve_at m no_query active_calls = allow m (get ∷ []) (handled calls)
serve_at m no_query history = allow m (get ∷ []) (handled call_history)
serve_at m no_query network =
    allow m (get ∷ put ∷ []) (get_or_write m no_query network_get network_put)
serve_at m no_query (preset id) =
    if is_empty id || contains id (codes "/")
    then refused Code.unknown
    else checked (valid_preset_id id) (
        allow m (get ∷ put ∷ delete ∷ [])
          (require_no_query no_query (handled (preset_handler id m))))
serve_at m no_query (subscriber imsi) =
    allow m (get ∷ [])
      (require_no_query no_query (checked (valid_imsi imsi) (handled (subscriber_get imsi))))
serve_at m no_query (subscriber_number imsi) =
    allow m (put ∷ delete ∷ [])
      (require_no_query no_query (checked (valid_imsi imsi) (handled (number_handler imsi m))))
serve_at m no_query nothing = refused Code.unknown

-- The parts of `routeSubscriber`.
abbrev pub subscriber_path : List Text → Resource
subscriber_path ([] ∷ []) = nothing
subscriber_path ((c ∷ imsi) ∷ []) = subscriber (c ∷ imsi)
subscriber_path ((c ∷ imsi) ∷ (part ∷ [])) =
    if eqb part (codes "number") then subscriber_number (c ∷ imsi) else nothing
subscriber_path _ = nothing

abbrev pub under_subscribers : Option Text → Resource
under_subscribers none = nothing
under_subscribers (some rest) = subscriber_path (split b'/' rest)

abbrev pub under_presets : Option Text → Option Text → Resource
under_presets (some id) s = preset id
under_presets none s = under_subscribers s

abbrev pub fixed_paths : List (Text × Resource)
fixed_paths =
    (codes "/api/v1/cell", cell)
    ∷ (codes "/api/v1/presets", presets)
    ∷ (codes "/api/v1/config", config)
    ∷ (codes "/api/v1/profile", profile)
    ∷ (codes "/api/v1/health", health_check)
    ∷ (codes "/api/v1/connections", connection_list)
    ∷ (codes "/api/v1/subscribers", subscribers)
    ∷ (codes "/api/v1/sms", messages)
    ∷ (codes "/api/v1/calls", active_calls)
    ∷ (codes "/api/v1/calls/history", history)
    ∷ (codes "/api/v1/network", network)
    ∷ []

-- The `switch` on the path, with its default case.
unfoldable pub resource_in : List (Text × Resource) → Text → Resource
unfolding strip_prefix split eqb
resource_in [] path =
    under_presets (strip_prefix (codes "/api/v1/presets/") path)
      (strip_prefix (codes "/api/v1/subscribers/") path)
resource_in ((p, r) ∷ l) path = let rest = resource_in l path in if eqb path p then r else rest

-- `serveV1`
unfoldable pub serve_v1 : Method → Text → Bool → Routed
unfolding serve_at resource_in
serve_v1 m path no_query = serve_at m no_query (resource_in fixed_paths path)
