-- ===== src/Gsm/Manager/Stop.antt =====
-- internal/gsm/manager.go: `Stop`, over what it observes before and after, and what it leaves.
use gsm_system.Base.{
  ℕ, ◌≡◌, refl, Bool, true, false, not, ◌&&◌, any, [], ◌∷◌, ◌++◌, List, Option, none, some,
  if◌then◌else◌, arith, Option-cases, inl, inr,
}
use gsm_system.Gsm.Sms.{Cursor}
use gsm_system.Gsm.Sms.Span.{File}
use gsm_system.Gsm.Sms.Session.{State, Session, stop_at, end_mark, end_session}
use gsm_system.Gsm.Manager.{
  Service, Process, Seen, Manager, cell_procs, cell_running, any_service_running,
}
use gsm_system.Gsm.Manager.Start.{
  Effect, removed_pid_file, cleared_tmsis, killed, stop_managed_reverse,
}

pub record StopEnv : Type 0 where
  pub before : Seen
  pub after : Seen
  pub clears_tmsis : Bool
  pub time : ℕ
  pub log : Option File

abbrev stop_managed : Option Process → List Effect
stop_managed none = []
stop_managed (some p) = Effect.stopped p ∷ []

abbrev kill_names : List Effect
kill_names =
    killed Service.smqueue
    ∷ killed Service.asterisk
    ∷ killed Service.sip_auth_serve
    ∷ removed_pid_file
    ∷ killed Service.open_bts
    ∷ killed Service.transceiver
    ∷ []

unfoldable pub stop_effects : StopEnv → Manager → List Effect
stop_effects env m =
    (if cell_running env.before m && env.clears_tmsis then cleared_tmsis ∷ [] else [])
    ++ (stop_managed_reverse m.owned_children ++ (stop_managed m.open_bts ++ kill_names))

abbrev no_children : Manager → Manager
no_children m = record m { owned_children = []; open_bts = none }

abbrev ended : StopEnv → Manager → Manager
ended env m = record m {
  started_at = none;
  sms_session = end_session env.time env.log m.sms_session;
}

pub record Stopping : Type 0 where
  pub manager : Manager
  pub effects : List Effect
  pub was : Bool
  pub has_stopped : Bool

-- `stopLocked`
unfoldable pub stop_locked : StopEnv → Manager → Stopping
stop_locked env m =
    let m' = no_children m in
    let has_stopped = not (any_service_running env.after m') in
    record {
      manager = if has_stopped then ended env m' else m';
      effects = stop_effects env m;
      was = any_service_running env.before m;
      has_stopped = has_stopped;
    }

-- `Stop`
unfoldable pub stop : StopEnv → Manager → Manager × Bool
stop env m = let r = stop_locked env m in (r.manager, r.was && r.has_stopped)

-- No session, or one that has ended.
abbrev pub HasEnded : Option Session → Type 0
HasEnded none = Unit
HasEnded (some s) = (t : ℕ) × (s.ended ≡ some t)

stop_at-HasEnded : (now : ℕ) (c : Option Cursor) (s : Session) → HasEnded (some (stop_at now c s))
stop_at-HasEnded now none s = (now, refl)
stop_at-HasEnded now (some c) s = (now, refl)

end_session-HasEnded :
    (now : ℕ) (f : Option File) (s : Option Session) → HasEnded (end_session now f s)
unfolding end_session
end_session-HasEnded now f none = tt
end_session-HasEnded now f (some s) = elim (Option-cases s.ended) [
  | inr (t, e) ↦ rw (e, end_session) (t, e)
  | inl e ↦ rw (e, end_session) (by_state s.state)
]
  where
    by_state :
        (st : State)
        → HasEnded (elim st [
          | State.boundary_lost ↦ some (record s { ended = some now })
          | _ ↦ some (stop_at now (end_mark f) s)
        ])
    by_state State.boundary_lost = (now, refl)
    by_state State.starting = stop_at-HasEnded now (end_mark f) s
    by_state State.running = stop_at-HasEnded now (end_mark f) s
    by_state State.stopped = stop_at-HasEnded now (end_mark f) s

pub record Stops (env : StopEnv) (m : Manager) (m' : Manager) (result : Bool) : Type 0 where
  pub no_children : (m'.owned_children ≡ []) × (m'.open_bts ≡ none)
  pub was_running : result ≡ true → any_service_running env.before m ≡ true
  pub none_running : result ≡ true → any env.after.running cell_procs ≡ false
  pub has_ended : result ≡ true → (m'.started_at ≡ none) × HasEnded m'.sms_session
  pub keeps_params : m'.last_start ≡ m.last_start

stopped_case :
    (env : StopEnv) (m : Manager) (w b : Bool)
    → any_service_running env.before m ≡ w
    → any env.after.running cell_procs ≡ b
    → Stops env m (if not b then ended env (no_children m) else no_children m) (w && not b)
stopped_case env m w true e f = record {
  no_children = (refl, refl);
  was_running = ground arith;
  none_running = ground arith;
  has_ended = ground arith;
  keeps_params = refl;
}
stopped_case env m w false e f = record {
  no_children = (refl, refl);
  was_running = ground arith;
  none_running = λ _. f;
  has_ended = λ _. (refl, end_session-HasEnded env.time env.log m.sms_session);
  keeps_params = refl;
}

-- After a stop the manager owns no process, whatever was observed; if it reports success, some
-- service of the cell ran before, none of the five process names runs after, the start time is
-- cleared and the SMS session, if there is one, has ended. The last parameters stay.
pub stop-Stops : (env : StopEnv) (m : Manager) → Stops env m (stop env m).0 (stop env m).1
unfolding stop stop_locked any_service_running
stop-Stops env m =
    stopped_case env m (any_service_running env.before m) (any env.after.running cell_procs) refl
      refl
