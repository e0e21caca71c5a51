-- ===== src/Gsm/Manager/Tests.antt =====
-- The manager on concrete starts and stops.
use gsm_system.Base.{ℕ, ◌≡◌, refl, ◌==◌, Bool, true, false, not, [], Option, none, some}
use gsm_system.Base.Text.{codes, eqb, trim_space}
use gsm_system.Gsm.Params.{
  is_blank, validate, validate_detailed, validate_short_name, valid_interface_name,
}
use gsm_system.Base.Number.{atoi, is_digits}
use gsm_system.Gsm.Params.Tests.{addx}
use gsm_system.Gsm.Sms.{sms_mark}
use gsm_system.Gsm.Sms.Span.{File}
use gsm_system.Gsm.Sms.Session.{begin, commit}
use gsm_system.Gsm.Manager.{Service, Seen, Manager, cell_running}
use gsm_system.Gsm.Manager.Start.{
  Wait, wake_marker, wait_for_ready, StartEnv, exited_during_startup, launch, settle, prepare,
  start,
}
use gsm_system.Gsm.Manager.Stop.{StopEnv, Stops, stop, stop-Stops}
use gsm_system.Gsm.Manager.Rollback.{Ended, start-Ended}
use gsm_system.Gsm.Manager.Launch.{Succeeds, start-Succeeds}
use gsm_system.Gsm.Manager.Profile.{SaveFault, no_file, save_profile, lacks_required}
use gsm_system.Gsm.Manager.Overlay.{Saved, load_profile-save_profile}
use gsm_system.Gsm.Presets.Codec.RoundTrip.{IsUtf8Params}
use gsm_system.Base.Utf8.{utf8_valid}
use gsm_system.Gsm.Presets.Codec.{no_params}

abbrev pub nothing_seen : Seen
nothing_seen = record { alive = λ _. false; running = λ _. false }

abbrev pub idle : Manager
idle = record {
  open_bts = none;
  owned_children = [];
  started_at = none;
  last_start = no_params;
  sms_session = none;
}

abbrev pids : Service → Option ℕ
pids Service.sip_auth_serve = some 11
pids Service.smqueue = some 12
pids Service.asterisk = some 13
pids _ = some 14

abbrev empty_log : File
empty_log = record {
  ino = 1;
  is_regular = true;
  marked = some [];
  checked = none;
  copied = none;
  rechecked = none;
}

abbrev ready_wait : Wait
ready_wait = record {
  before = none;
  wake = wake_marker;
  cancelled_then = false;
  exited_then = false;
}

-- Every call succeeds; `alive` tells which children live.
abbrev pub env_with : (ℕ → Bool) → StartEnv
env_with alive = record {
  cancelled_at_lock = false;
  at_lock = nothing_seen;
  iface_exists = true;
  has_dirs = true;
  device_connected = true;
  rule_ensured = true;
  is_configured = true;
  cancelled_configured = false;
  session_log = some empty_log;
  session_id = some (codes "ab");
  session_time = 3;
  name_runs = λ _. false;
  spawn = pids;
  cancelled_waiting = false;
  alive_waiting = alive;
  log_opens = true;
  wait = ready_wait;
  clears_tmsis = true;
  cancelled_ready = false;
  alive_ready = alive;
  is_saved = true;
  start_time = 9;
}

good_start : (start (env_with λ _. true) addx idle).error ≡ none
unfolding start prepare launch settle begin commit sms_mark wait_for_ready cell_running validate
    validate_detailed validate_short_name valid_interface_name is_blank trim_space eqb atoi
    is_digits
good_start = refl

smqueue_exits :
    (start (env_with λ pid. not (pid == 12)) addx idle).error
    ≡ some (exited_during_startup Service.smqueue)
unfolding start prepare launch settle begin commit sms_mark wait_for_ready cell_running validate
    validate_detailed validate_short_name valid_interface_name is_blank trim_space eqb atoi
    is_digits
smqueue_exits = refl

start-Ended_example : Ended idle (start (env_with λ pid. not (pid == 12)) addx idle)
start-Ended_example = start-Ended (env_with λ pid. not (pid == 12)) addx idle

start-Succeeds_example :
    Succeeds (env_with λ _. true) addx idle (start (env_with λ _. true) addx idle)
start-Succeeds_example = start-Succeeds (env_with λ _. true) addx idle good_start

abbrev stop_env : StopEnv
stop_env = record {
  before = record nothing_seen { running = λ _. true };
  after = nothing_seen;
  clears_tmsis = true;
  time = 12;
  log = none;
}

stop-Stops_example : Stops stop_env idle (stop stop_env idle).0 (stop stop_env idle).1
stop-Stops_example = stop-Stops stop_env idle

good_is_whole : lacks_required addx ≡ false
unfolding is_blank trim_space
good_is_whole = refl

good_is_utf8 : IsUtf8Params addx
unfolding utf8_valid
good_is_utf8 = (refl, refl, refl, refl, refl, refl, refl, refl, refl)

load_profile-save_profile_example :
    Saved
      (some SaveFault.syncing_directory)
      addx
      no_file
      (save_profile (some SaveFault.syncing_directory) addx no_file)
load_profile-save_profile_example =
    load_profile-save_profile (some SaveFault.syncing_directory) addx no_file good_is_whole
      good_is_utf8
