-- ===== src/Gsm/Sms/Session.antt =====
-- internal/gsm/sms_session.go: the session that a start begins and a stop ends, and reading it.
use gsm_system.Base.{ℕ, zero, suc, Bool, true, false, [], List, Option, none, some, length}
use gsm_system.Base.Text.{Text}
use gsm_system.Gsm.Sms.{Cursor, sms_mark}
use gsm_system.Gsm.Sms.Span.{File, Open, SpanError, Read, fail, span, read_span}

pub data State : Type 0 where
  starting : State
  running : State
  stopped : State
  boundary_lost : State

-- `smsSession`; times are numbers.
pub record Session : Type 0 where
  pub id : Text
  pub start : Cursor
  pub end : Option Cursor
  pub started : ℕ
  pub ended : Option ℕ
  pub state : State

pub data BeginError : Type 0 where
  no_log : BeginError
  no_mark : BeginError
  no_id : BeginError

abbrev pub mark_of : File → Option Cursor
mark_of f = sms_mark f.ino f.is_regular f.marked

abbrev pub new_session :
    ℕ → Option Cursor → Option Text → Option Session → Option Session × Option BeginError
new_session now none id s = (s, some no_mark)
new_session now (some c) none s = (s, some no_id)
new_session now (some c) (some id) s = (
  some (record {
    id = id;
    start = c;
    end = none;
    started = now;
    ended = none;
    state = State.starting;
  }),
  none,
)

-- `beginSMSSession`: `f` is the created or opened log, `id` the random identifier; both may fail.
unfoldable pub begin :
    ℕ → Option File → Option Text → Option Session → Option Session × Option BeginError
begin now none id s = (s, some no_log)
begin now (some f) id s = new_session now (mark_of f) id s

-- `commitSMSSession`
unfoldable pub commit : Option Session → Option Session
commit none = none
commit (some s) = elim s.state [
  | State.starting ↦ some (record s { state = State.running })
  | _ ↦ some s
]

abbrev pub stop_at : ℕ → Option Cursor → Session → Session
stop_at now none s = record s { ended = some now; state = State.boundary_lost }
stop_at now (some c) s = record s { ended = some now; end = some c; state = State.stopped }

abbrev pub end_mark : Option File → Option Cursor
end_mark none = none
end_mark (some f) = mark_of f

-- `endSMSSession`: the first end counts; a log that cannot be marked loses the boundary.
unfoldable pub end_session : ℕ → Option File → Option Session → Option Session
end_session now f none = none
end_session now f (some s) = elim s.ended [
  | some _ ↦ some s
  | none ↦ elim s.state [
    | State.boundary_lost ↦ some (record s { ended = some now })
    | _ ↦ some (stop_at now (end_mark f) s)
  ]
]

-- `SMSWindow`, less the constant `Scope`; its state is `none` without a session.
pub record Window : Type 0 where
  pub bytes : ℕ
  pub max_bytes : ℕ
  pub truncated : Bool
  pub session_id : Text
  pub started_at : Option ℕ
  pub ended_at : Option ℕ
  pub state : Option State

pub data ReadError : Type 0 where
  bad_size : ReadError
  read_fails : ReadError

pub record Reply : Type 0 where
  pub data' : Text
  pub window : Window
  pub error : Option ReadError

abbrev pub empty_window : ℕ → Window
empty_window n = record {
  bytes = 0;
  max_bytes = n;
  truncated = false;
  session_id = [];
  started_at = none;
  ended_at = none;
  state = none;
}

abbrev pub window_of : ℕ → Session → Window
window_of n s = record {
  bytes = 0;
  max_bytes = n;
  truncated = false;
  session_id = s.id;
  started_at = some s.started;
  ended_at = s.ended;
  state = some s.state;
}

abbrev pub lost_reply : ℕ → Session → Reply
lost_reply n s = record {
  data' = [];
  window = record (window_of n s) { truncated = true; state = some State.boundary_lost };
  error = none;
}

abbrev pub answer : ℕ → Session → Read → Session × Reply
answer n s (fail SpanError.boundary) = (record s { state = State.boundary_lost }, lost_reply n s)
answer n s (fail SpanError.io) =
    (s, record { data' = []; window = window_of n s; error = some read_fails })
answer n s (span b t) = (
  s,
  record {
    data' = b;
    window = record (window_of n s) { bytes = length b; truncated = t };
    error = none;
  },
)

abbrev pub read_in : State → ℕ → List Open → List Open → Session → Session × Reply
read_in State.boundary_lost n files again s = (s, lost_reply n s)
read_in _ n files again s = answer n s (read_span s.start s.end n files again)

abbrev pub keep_session : Session × Reply → Option Session × Reply
keep_session (s, r) = (some s, r)

-- `ReadCurrentSMS`: the session can only change to `boundary_lost`.
unfoldable pub read_current : ℕ → List Open → List Open → Option Session → Option Session × Reply
read_current zero files again s =
    (s, record { data' = []; window = empty_window 0; error = some bad_size })
read_current (suc n) files again none =
    (none, record { data' = []; window = empty_window (suc n); error = none })
read_current (suc n) files again (some s) = keep_session (read_in s.state (suc n) files again s)
