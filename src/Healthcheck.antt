-- ===== src/Healthcheck.antt =====
-- internal/healthcheck/healthcheck.go: the probe of the container, over what the management
-- interface answers. The request itself is not modelled.
pub mod Accepts
mod Tests
use gsm_system.Base.{ℕ, Bool, true, false, not, ◌&&◌, ◌||◌, Option, none, some, ◌==◌, if◌then◌else◌}
use gsm_system.Base.Text.{Text, codes, eqb, is_empty}
use gsm_system.Gsm.Manager.Status.{CellState, Status}

-- The host that the probe asks, for the host of the listen address.
unfoldable pub probe_host : Text → Text
probe_host host =
    if is_empty host || eqb host (codes "0.0.0.0")
    then codes "127.0.0.1"
    else if eqb host (codes "::")
    then codes "::1"
    else host

-- The fields of the decoded body.
pub record Body : Type 0 where
  pub code : Option ℕ
  pub state : Text
  pub ready : Bool
  pub running : Bool
  pub transitioning : Bool

-- The answer: its HTTP status, and its body if it can be decoded.
pub record Response : Type 0 where
  pub status : ℕ
  pub body : Option Body

pub data ProbeError : Type 0 where
  bad_address probe_failed bad_status invalid_response not_ready cell_not_ready : ProbeError

abbrev is_zero : Option ℕ → Bool
is_zero none = false
is_zero (some n) = n == 0

abbrev pub check_body : Option Body → Option ProbeError
check_body none = some invalid_response
check_body (some b) =
    if not (is_zero b.code) || b.transitioning
    then some not_ready
    else if eqb b.state (codes "stopped") && not b.running
    then none
    else if eqb b.state (codes "running") && b.running && b.ready
    then none
    else some cell_not_ready

abbrev pub check_response : Option Response → Option ProbeError
check_response none = some probe_failed
check_response (some r) = if r.status == 200 then check_body r.body else some bad_status

-- `Check`: the flag says that the listen address splits, `none` is a request that fails.
unfoldable pub check_cell : Bool → Option Response → Option ProbeError
unfolding eqb
check_cell splits r = if splits then check_response r else some bad_address

-- How the management interface writes the state of the cell.
abbrev pub state_text : CellState → Text
state_text CellState.degraded = codes "degraded"
state_text CellState.stopped = codes "stopped"
state_text CellState.running = codes "running"
state_text CellState.transitioning = codes "transitioning"

-- The body of GET /api/v1/cell, as far as the probe reads it.
abbrev pub cell_body : Status → Body
cell_body s = record {
  code = some 0;
  state = state_text s.state;
  ready = s.ready;
  running = s.running;
  transitioning = s.flags.transitioning;
}

abbrev pub cell_response : Status → Response
cell_response s = record { status = 200; body = some (cell_body s) }
