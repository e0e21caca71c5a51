-- ===== src/Gsm/Manager/Start.antt =====
-- internal/gsm/manager.go: `Start`, over what each of its calls returns, with the effects it has.
use gsm_system.Base.{
  ℕ, Bool, true, false, not, [], ◌∷◌, ◌++◌, List, Option, none, some, if◌then◌else◌,
}
use gsm_system.Base.Text.{Text}
use gsm_system.Gsm.Params.{StartParams, FieldIssue, validate}
use gsm_system.Gsm.Sms.Span.{File}
use gsm_system.Gsm.Sms.Session.{Session, BeginError, begin, commit}
use gsm_system.Gsm.Manager.{Service, Process, Seen, Manager, cell_running}

-- What the channels of `waitForReady` deliver; several may be ready, and `select` takes any.
pub data Wake : Type 0 where
  wake_cancelled wake_exited wake_timeout wake_marker : Wake

pub data WaitError : Type 0 where
  wait_cancelled wait_exited wait_timeout : WaitError

pub record Wait : Type 0 where
  pub before : Option WaitError  -- what the first, non-blocking select takes
  pub wake : Wake
  pub cancelled_then : Bool
  pub exited_then : Bool

abbrev confirm : Bool → Bool → Option WaitError
confirm true exited = some wait_cancelled
confirm false true = some wait_exited
confirm false false = none

abbrev after_wake : Wake → Wait → Option WaitError
after_wake wake_cancelled w = some wait_cancelled
after_wake wake_exited w = some wait_exited
after_wake wake_timeout w = some wait_timeout
after_wake wake_marker w = confirm w.cancelled_then w.exited_then

-- `waitForReady`
unfoldable pub wait_for_ready : Wait → Option WaitError
wait_for_ready w = elim w.before [ some e ↦ some e | none ↦ after_wake w.wake w ]

pub data StartError : Type 0 where
  invalid : FieldIssue → StartError
  cancelled already_running unknown_iface no_dirs no_device no_network_rule : StartError
  not_configured : StartError
  no_session : BeginError → StartError
  not_started : Service → StartError
  exited_during_startup : Service → StartError
  no_log : StartError
  not_ready : WaitError → StartError
  exited_before_completion : Service → StartError
  not_saved : StartError

-- What the calls of one `Start` return, in the order of the calls.
pub record StartEnv : Type 0 where
  pub cancelled_at_lock : Bool
  pub at_lock : Seen
  pub iface_exists : Bool
  pub has_dirs : Bool
  pub device_connected : Bool
  pub rule_ensured : Bool
  pub is_configured : Bool
  pub cancelled_configured : Bool
  pub session_log : Option File
  pub session_id : Option Text
  pub session_time : ℕ
  pub name_runs : Service → Bool
  pub spawn : Service → Option ℕ
  pub cancelled_waiting : Bool
  pub alive_waiting : ℕ → Bool
  pub log_opens : Bool
  pub wait : Wait
  pub clears_tmsis : Bool
  pub cancelled_ready : Bool
  pub alive_ready : ℕ → Bool
  pub is_saved : Bool
  pub start_time : ℕ

pub data Effect : Type 0 where
  ensured_rule : Text → Effect
  removed_pid_file : Effect
  configured : StartParams → Effect
  launched : Process → Effect
  stopped : Process → Effect
  cleared_tmsis : Effect
  saved : StartParams → Effect
  killed : Service → Effect

-- A piece of the launch: the children started so far, what was done, and the error if it failed.
pub record Attempt : Type 0 where
  pub owned : List Process
  pub effects : List Effect
  pub error : Option StartError

abbrev pub after_effects : List Effect → Attempt → Attempt
after_effects es a = record a { effects = es ++ a.effects }

abbrev pub and_then_on : Option StartError → Attempt → (List Process → Attempt) → Attempt
and_then_on none a f = after_effects a.effects (f a.owned)
and_then_on (some e) a f = a

-- The rest of the launch, unless a return came before it.
abbrev pub and_then : Attempt → (List Process → Attempt) → Attempt
and_then a f = and_then_on a.error a f

abbrev pub proceed : List Effect → List Process → Attempt
proceed es owned = record { owned = owned; effects = es; error = none }

abbrev pub check : Bool → StartError → List Process → Attempt
check ok e owned = record { owned = owned; effects = []; error = if ok then none else some e }

abbrev pub return_error : (Option StartError) → List Process → Attempt
return_error e owned = record { owned = owned; effects = []; error = e }

-- The next child, appended to the owned ones.
abbrev pub add_child : Service → Option ℕ → List Process → Attempt
add_child s none owned = record { owned = owned; effects = []; error = some (not_started s) }
add_child s (some pid) owned =
    let p : Process = record { service = s; pid = pid } in
    record { owned = owned ++ p ∷ []; effects = launched p ∷ []; error = none }

-- A service that already runs is left alone.
abbrev pub start_unless_running : StartEnv → Service → List Process → Attempt
start_unless_running env s owned =
    if env.name_runs s then proceed [] owned else add_child s (env.spawn s) owned

-- The first child that has exited.
abbrev pub first_exited : (ℕ → Bool) → List Process → Option Service
first_exited alive [] = none
first_exited alive (p ∷ l) = if alive p.pid then first_exited alive l else some p.service

abbrev pub to_error {ℓ} : {A : Type ℓ} → (A → StartError) → Option A → Option StartError
to_error f none = none
to_error f (some a) = some (f a)

abbrev pub check_alive : (Service → StartError) → (ℕ → Bool) → List Process → Attempt
check_alive e alive owned = return_error (to_error e (first_exited alive owned)) owned

-- From the session's boundary to the saved profile; everything in it may be rolled back.
unfoldable pub launch : StartEnv → StartParams → Attempt
launch env p = and_then (start_unless_running env Service.sip_auth_serve []) λ o.
    and_then (start_unless_running env Service.smqueue o) λ o.
      and_then (start_unless_running env Service.asterisk o) λ o.
        and_then (check (not env.cancelled_waiting) cancelled o) λ o.
          and_then (check_alive exited_during_startup env.alive_waiting o) λ o.
            and_then (check env.log_opens no_log o) λ o.
              and_then (add_child Service.open_bts (env.spawn Service.open_bts) o) λ o.
                and_then (return_error (to_error not_ready (wait_for_ready env.wait)) o) λ o.
                  and_then (proceed (if env.clears_tmsis then cleared_tmsis ∷ [] else []) o) λ o.
                    and_then (check (not env.cancelled_ready) cancelled o) λ o.
                      and_then (check_alive exited_before_completion env.alive_ready o)
                        λ o. and_then (check env.is_saved not_saved o) λ o. proceed (saved p ∷ []) o

-- `stopManagedReverse`
unfoldable pub stop_managed_reverse : List Process → List Effect
stop_managed_reverse [] = []
stop_managed_reverse (p ∷ l) = stop_managed_reverse l ++ stopped p ∷ []

-- `owned[:len(owned)-1]` and the last child.
abbrev pub split_last : List Process → List Process × Option Process
split_last [] = ([], none)
split_last (p ∷ []) = ([], some p)
split_last (p ∷ q ∷ l) = let (init, last) = split_last (q ∷ l) in (p ∷ init, last)

pub record Outcome : Type 0 where
  pub manager : Manager
  pub effects : List Effect
  pub error : Option StartError

-- The deferred calls: a failed launch stops its own children and forgets the session.
unfoldable pub settle : StartEnv → StartParams → Manager → Attempt → Outcome
settle env p m a = elim a.error [
  | some e ↦ record {
    manager = record m { sms_session = none };
    effects = a.effects ++ stop_managed_reverse a.owned;
    error = some e;
  }
  | none ↦ record {
    manager = record {
      open_bts = (split_last a.owned).1;
      owned_children = (split_last a.owned).0;
      started_at = some env.start_time;
      last_start = p;
      sms_session = commit m.sms_session;
    };
    effects = a.effects;
    error = none;
  }
]

abbrev pub failed : Manager → List Effect → StartError → Outcome
failed m es e = record { manager = record m { sms_session = none }; effects = es; error = some e }

abbrev pub with_session :
    StartEnv → StartParams → Manager → List Effect → Option Session × Option BeginError → Outcome
with_session env p m es (s, some e) = failed m es (no_session e)
with_session env p m es (s, none) =
    let o = settle env p (record m { sms_session = s }) (launch env p) in
    record o { effects = es ++ o.effects }

-- The calls before the launch, in their order; `m` has no session any more.
unfoldable pub prepare : StartEnv → StartParams → Manager → Outcome
prepare env p m =
    let before = ensured_rule p.network ∷ removed_pid_file ∷ [] in
    let after = before ++ configured p ∷ [] in
    if not env.iface_exists
    then failed m [] unknown_iface
    else if not env.has_dirs
    then failed m [] no_dirs
    else if not env.device_connected
    then failed m [] no_device
    else if not env.rule_ensured
    then failed m [] no_network_rule
    else if not env.is_configured
    then failed m before not_configured
    else if env.cancelled_configured
    then failed m after cancelled
    else with_session env p m after
        (begin env.session_time env.session_log env.session_id m.sms_session)

abbrev pub refused : Manager → StartError → Outcome
refused m e = record { manager = m; effects = []; error = some e }

abbrev pub start_valid : Option FieldIssue → StartEnv → StartParams → Manager → Outcome
start_valid (some i) env p m = refused m (invalid i)
start_valid none env p m =
    if env.cancelled_at_lock
    then refused m cancelled
    else if cell_running env.at_lock m
    then refused m already_running
    else prepare env p (record m { sms_session = none })

-- `Start`
unfoldable pub start : StartEnv → StartParams → Manager → Outcome
start env p m = start_valid (validate p) env p m
