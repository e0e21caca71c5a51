-- ===== src/Api/Cell.antt =====
-- internal/api/v1.go and internal/api/presets.go: the requests that start and stop the cell.
-- A request is its decoded body; a reply is its code, with what became of the manager.
use gsm_system.Base.{
  ℕ, ◌==◌, ◌/◌, ltb, Bool, true, false, not, ◌||◌, [], ◌∷◌, List, Option, none, some, if◌then◌else◌,
}
use gsm_system.Base.Text.{Text, is_some}
use gsm_system.Gsm.Params.{StartParams, FieldIssue, validate_detailed}
use gsm_system.Gsm.Presets.{Preset, PresetError, not_found, valid_preset_id}
use gsm_system.Gsm.Presets.Store.{State, get_preset}
use gsm_system.Gsm.Presets.Codec.{no_params}
use gsm_system.Gsm.Manager.{Seen, Manager}
use gsm_system.Gsm.Manager.Status.{CellState, is_running}
use gsm_system.Gsm.Manager.Profile.{ProfileFile, overlay_profile}
use gsm_system.Gsm.Manager.Start.{
  StartEnv, StartError, already_running, no_network_rule, no_device, Effect, Outcome, start,
}
use gsm_system.Gsm.Manager.Stop.{StopEnv, stop, stop_effects}

pub data Code : Type 0 where
  ok malformed unauthorized unknown method conflict precondition too_large : Code
  media_type refused internal no_hardware : Code

abbrev pub code_number : Code → ℕ
code_number ok = 0
code_number malformed = 40001
code_number unauthorized = 40101
code_number unknown = 40401
code_number method = 40501
code_number conflict = 40901
code_number precondition = 41201
code_number too_large = 41301
code_number media_type = 41501
code_number refused = 42201
code_number internal = 50001
code_number no_hardware = 50301

-- The HTTP status that `writeV1` sends with a code.
unfoldable pub status_of : ℕ → ℕ
status_of code =
    let status = if code == 0 then 200 else code / 100 in
    if ltb status 100 || ltb 599 status then 500 else status

-- `cellStartRequest`: each name that was supplied, with its value.
pub record CellStartRequest : Type 0 where
  pub preset_id : Option Text
  pub arfcns : Option Text
  pub c0 : Option Text
  pub band : Option Text
  pub mcc : Option Text
  pub mnc : Option Text
  pub lac : Option Text
  pub ci : Option Text
  pub short_name : Option Text
  pub network : Option Text

abbrev pub has_explicit_params : CellStartRequest → Bool
has_explicit_params b =
    is_some b.arfcns
    || (is_some b.c0
        || (is_some b.band
            || (is_some b.mcc
                || (is_some b.mnc
                    || (is_some b.lac
                        || (is_some b.ci || (is_some b.short_name || is_some b.network)))))))

abbrev or_empty : Option Text → Text
or_empty none = []
or_empty (some t) = t

unfoldable pub params_of : CellStartRequest → StartParams
params_of b = record {
  arfcns = or_empty b.arfcns;
  c0 = or_empty b.c0;
  band = or_empty b.band;
  mcc = or_empty b.mcc;
  mnc = or_empty b.mnc;
  lac = or_empty b.lac;
  ci = or_empty b.ci;
  short_name = or_empty b.short_name;
  network = or_empty b.network;
}

-- What the request is served with: the stored presets, the profile, and the start of the cell.
pub record CellEnv : Type 0 where
  pub presets : State
  pub profile : ProfileFile
  pub start : StartEnv

pub record Reply : Type 0 where
  pub code : Code
  pub manager : Manager
  pub effects : List Effect

abbrev pub reject : Code → Manager → Reply
reject c m = record { code = c; manager = m; effects = [] }

-- The code of an error of `Start`, in the order of the cases.
unfoldable pub start_code : Option StartError → Code
start_code none = ok
start_code (some already_running) = conflict
start_code (some no_network_rule) = no_hardware
start_code (some no_device) = no_hardware
start_code (some _) = internal

abbrev pub start_reply : Outcome → Reply
start_reply o = record { code = start_code o.error; manager = o.manager; effects = o.effects }

abbrev pub start_checked : StartEnv → StartParams → Manager → List FieldIssue → Reply
start_checked env p m [] = start_reply (start env p m)
start_checked env p m (i ∷ l) = reject refused m

unfoldable pub start_with : StartEnv → StartParams → Manager → Reply
start_with env p m = start_checked env p m (validate_detailed p)

-- `writePresetReadError`
abbrev pub read_error_code : PresetError → Code
read_error_code not_found = unknown
read_error_code _ = internal

abbrev pub start_preset : StartEnv → Manager → Option PresetError × Option Preset → Reply
start_preset env m (some e, _) = reject (read_error_code e) m
start_preset env m (none, some p) = start_with env p.params m
start_preset env m (none, none) = reject internal m

abbrev pub start_unnamed : CellEnv → CellStartRequest → Manager → Reply
start_unnamed env b m =
    if not (has_explicit_params b)
    then start_with env.start (overlay_profile env.profile no_params).0 m
    else start_with env.start (params_of b) m

abbrev pub start_named : CellEnv → CellStartRequest → Manager → Text → Reply
start_named env b m id =
    if has_explicit_params b
    then reject refused m
    else if not (valid_preset_id id)
    then reject refused m
    else start_preset env.start m (get_preset id env.presets)

-- `handleCellStart` of a body, or of the code of a body that could not be decoded.
unfoldable pub handle_cell_start : CellEnv → Code → CellStartRequest → Manager → Reply
handle_cell_start env ok b m = elim b.preset_id [
  | none ↦ start_unnamed env b m
  | some id ↦ start_named env b m id
]
handle_cell_start env c b m = reject c m

-- `handleCellStop`: the status before, the stop, and the status after.
pub record StopRequest : Type 0 where
  pub locked_before : Bool
  pub seen_before : Seen
  pub stop : StopEnv
  pub locked_after : Bool
  pub seen_after : Seen

abbrev is_stopped : CellState → Bool
is_stopped CellState.stopped = true
is_stopped _ = false

unfoldable pub handle_cell_stop : StopRequest → Manager → Reply
handle_cell_stop r m =
    if is_stopped (is_running r.locked_before r.seen_before m).state
    then reject ok m
    else (let m' = (stop r.stop m).0 in
        let after = (is_running r.locked_after r.seen_after m').state in
        record {
          code = if is_stopped after then ok else internal;
          manager = m';
          effects = stop_effects r.stop m;
        })
