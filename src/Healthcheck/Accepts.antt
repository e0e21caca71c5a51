-- ===== src/Healthcheck/Accepts.antt =====
-- internal/healthcheck/healthcheck.go: which states of the cell the probe accepts.
use gsm_system.Base.{ℕ, if◌then◌else◌, ◌≡◌, ◌↔◌, ◌⊎◌, Bool, true, false, Option, none, some, arith}
use gsm_system.Base.Text.{eqb}
use gsm_system.Gsm.Params.{StartParams}
use gsm_system.Gsm.Manager.{Seen, Manager}
use gsm_system.Gsm.Manager.Status.{
  CellState, Status, Flags, classify, with_start, system_flags, own_flags, is_running,
}
use gsm_system.Healthcheck.{check_cell, cell_response}

accepts-state :
    (f : Flags)
    → check_cell true (some (cell_response (classify f))) ≡ none
    → ((classify f).state ≡ CellState.stopped) ⊎ ((classify f).state ≡ CellState.running)
unfolding check_cell classify eqb
accepts-state f h = ground arith

state-accepts :
    (f : Flags)
    → ((classify f).state ≡ CellState.stopped) ⊎ ((classify f).state ≡ CellState.running)
    → check_cell true (some (cell_response (classify f))) ≡ none
unfolding check_cell classify eqb
state-accepts f h = ground arith

-- The probe of a status, and the states that it is meant to accept.
abbrev pub AcceptsWell : Status → Type 0
AcceptsWell s =
    (check_cell true (some (cell_response s)) ≡ none)
    ↔ ((s.state ≡ CellState.stopped) ⊎ (s.state ≡ CellState.running))

with_start-AcceptsWell :
    (t : Option ℕ) (p : StartParams) (s : Status) → AcceptsWell s → AcceptsWell (with_start t p s)
with_start-AcceptsWell none p s h = h
with_start-AcceptsWell (some t) p s h = by_running s.running
  where
    by_running :
        (b : Bool)
        → AcceptsWell (
            if b
            then record s { started_at = some t; band = p.band; short_name = p.short_name }
            else s)
    by_running true = h
    by_running false = h

-- Whatever is observed of the processes, and whether or not a start or stop is in progress: the
-- probe of the state that the management interface reports succeeds exactly when the cell is
-- stopped or running, never when it is degraded or in transition.
pub check_cell_iff :
    (locked : Bool) (seen : Seen) (m : Manager) → AcceptsWell (is_running locked seen m)
unfolding is_running
check_cell_iff false seen m = (
  accepts-state (record (system_flags seen.running) { transitioning = true }),
  state-accepts (record (system_flags seen.running) { transitioning = true }),
)
check_cell_iff true seen m =
    with_start-AcceptsWell m.started_at m.last_start
      (classify (own_flags seen m (system_flags seen.running)))
      (
        accepts-state (own_flags seen m (system_flags seen.running)),
        state-accepts (own_flags seen m (system_flags seen.running)),
      )
