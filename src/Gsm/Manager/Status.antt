-- ===== src/Gsm/Manager/Status.antt =====
-- internal/gsm/manager.go: `Status`, `classify` and `IsRunning`.
use gsm_system.Base.{
  ℕ, ◌≡◌, sym, ap, subst, Bool-cases, inl, inr, ◌↔◌, Bool, true, false, not, ◌&&◌, ◌||◌, [], ◌∷◌,
  List, Option, none, some, if◌then◌else◌, arith,
}
use gsm_system.Base.Text.{Text}
use gsm_system.Gsm.Params.{StartParams}
use gsm_system.Gsm.Manager.{Service, Process, Seen, Manager, is_alive}

pub data CellState : Type 0 where
  degraded stopped running transitioning : CellState

-- The process flags of `Status`.
pub record Flags : Type 0 where
  pub transitioning : Bool
  pub open_bts : Bool
  pub transceiver : Bool
  pub sip_auth_serve : Bool
  pub smqueue : Bool
  pub asterisk : Bool

pub record Status : Type 0 where
  pub flags : Flags
  pub state : CellState
  pub ready : Bool
  pub sms_ready : Bool
  pub voice_ready : Bool
  pub running : Bool
  pub started_at : Option ℕ
  pub band : Text
  pub short_name : Text

abbrev runs : Flags → Bool
runs f = f.open_bts || f.transceiver

abbrev serves_sms : Flags → Bool
serves_sms f = f.open_bts && (f.transceiver && (f.sip_auth_serve && f.smqueue))

abbrev serves_voice : Flags → Bool
serves_voice f = f.open_bts && (f.transceiver && (f.sip_auth_serve && f.asterisk))

abbrev is_ready : Flags → Bool
is_ready f = serves_sms f && (serves_voice f && not f.transitioning)

abbrev all_stopped : Flags → Bool
all_stopped f = not (runs f) && (not f.sip_auth_serve && (not f.smqueue && not f.asterisk))

abbrev state_of : Flags → CellState
state_of f =
    if f.transitioning
    then CellState.transitioning
    else if is_ready f
    then CellState.running
    else if all_stopped f
    then CellState.stopped
    else CellState.degraded

-- `classify`: the last assignment that applies decides the state.
unfoldable pub classify : Flags → Status
classify f = record {
  flags = f;
  state = state_of f;
  ready = is_ready f;
  sms_ready = serves_sms f;
  voice_ready = serves_voice f;
  running = runs f;
  started_at = none;
  band = [];
  short_name = [];
}

-- The loop over the children: a living child sets the flag of its name.
abbrev set_flag : Service → Flags → Flags
set_flag Service.sip_auth_serve f = record f { sip_auth_serve = true }
set_flag Service.smqueue f = record f { smqueue = true }
set_flag Service.asterisk f = record f { asterisk = true }
set_flag _ f = f

unfoldable pub add_children : (ℕ → Bool) → List Process → Flags → Flags
add_children alive [] f = f
add_children alive (p ∷ l) f =
    add_children alive l (if alive p.pid then set_flag p.service f else f)

abbrev pub system_flags : (Service → Bool) → Flags
system_flags names = record {
  transitioning = false;
  open_bts = names Service.open_bts;
  transceiver = names Service.transceiver;
  sip_auth_serve = names Service.sip_auth_serve;
  smqueue = names Service.smqueue;
  asterisk = names Service.asterisk;
}

abbrev pub with_start : Option ℕ → StartParams → Status → Status
with_start none p st = st
with_start (some t) p st =
    if st.running
    then record st { started_at = some t; band = p.band; short_name = p.short_name }
    else st

abbrev pub own_flags : Seen → Manager → Flags → Flags
own_flags seen m f =
    add_children seen.alive m.owned_children
      (if is_alive seen m.open_bts then record f { open_bts = true } else f)

-- `IsRunning`: `locked` tells whether `TryLock` succeeded; a start or stop in progress hides the rest.
unfoldable pub is_running : Bool → Seen → Manager → Status
is_running false seen m = classify (record (system_flags seen.running) { transitioning = true })
is_running true seen m =
    with_start m.started_at m.last_start (classify (own_flags seen m (system_flags seen.running)))

-- Every one of the five processes is up.
abbrev pub all_up : Flags → Bool
all_up f = f.open_bts && (f.transceiver && (f.sip_auth_serve && (f.smqueue && f.asterisk)))

abbrev pub all_down : Flags → Bool
all_down f =
    not f.open_bts
    && (not f.transceiver && (not f.sip_auth_serve && (not f.smqueue && not f.asterisk)))

pub record IsClassified (st : Status) : Type 0 where
  pub ready : (st.ready ≡ true) ↔ ((st.state ≡ CellState.running))
  pub running :
      (st.state ≡ CellState.running) ↔ ((all_up st.flags && not st.flags.transitioning) ≡ true)
  pub stopped :
      (st.state ≡ CellState.stopped) ↔ ((all_down st.flags && not st.flags.transitioning) ≡ true)
  pub transitioning : (st.state ≡ CellState.transitioning) ↔ (st.flags.transitioning ≡ true)

classify-IsClassified : (f : Flags) → IsClassified (classify f)
unfolding classify
classify-IsClassified f = record {
  ready = ground arith;
  running = ground arith;
  stopped = ground arith;
  transitioning = ground arith;
}

with_start-IsClassified :
    (t : Option ℕ) (p : StartParams) (st : Status)
    → IsClassified st
    → IsClassified (with_start t p st)
with_start-IsClassified none p st h = h
with_start-IsClassified (some t) p st h = elim (Bool-cases st.running) [
  | inl r ↦
      subst IsClassified
        (sym (
          ap
            (λ b.
              if b
              then record st { started_at = some t; band = p.band; short_name = p.short_name }
              else st)
            r))
        (record {
          ready = h.ready;
          running = h.running;
          stopped = h.stopped;
          transitioning = h.transitioning;
        })
  | inr r ↦
      subst IsClassified
        (sym (
          ap
            (λ b.
              if b
              then record st { started_at = some t; band = p.band; short_name = p.short_name }
              else st)
            r))
        h
]

-- The reported state, whatever is observed and whether or not a start or stop is in progress: the
-- cell is ready exactly in the state running, which it has exactly when all five processes are up
-- and nothing is in progress; it is stopped exactly when all are down and nothing is in progress,
-- and transitioning exactly when something is.
is_running-IsClassified :
    (locked : Bool) (seen : Seen) (m : Manager) → IsClassified (is_running locked seen m)
unfolding is_running
is_running-IsClassified false seen m =
    classify-IsClassified (record (system_flags seen.running) { transitioning = true })
is_running-IsClassified true seen m =
    with_start-IsClassified m.started_at m.last_start
      (classify (own_flags seen m (system_flags seen.running)))
      (classify-IsClassified (own_flags seen m (system_flags seen.running)))
