-- ===== src/Process.antt =====
-- internal/sysop/proc.go: the processes of a name, and ending them.
-- The output of ps, the clock and what a signal does are the observations of a run; times are in
-- milliseconds.
pub mod Ends
mod Tests
use gsm_system.Base.{
  ℕ, zero, suc, ◌+◌, Bool, true, false, not, ◌&&◌, ◌||◌, [], ◌∷◌, ◌++◌, List, Option, none, some,
  length, ltb, ◌==◌, if◌then◌else◌,
}
use gsm_system.Base.Text.{
  Text, codes, eqb, is_empty, contains, has_prefix, strip_prefix, split, trim_space,
}
use gsm_system.Base.Utf8.{fields}
use gsm_system.Base.Number.{ℤ, atoi}

abbrev pid_of : Option ℤ → List ℤ
pid_of none = []
pid_of (some pid) = pid ∷ []

abbrev process_in : Text → List Text → List ℤ
process_in name (pid ∷ (stat ∷ (comm ∷ []))) =
    if eqb comm name && not (contains stat (codes "Z")) then pid_of (atoi pid) else []
process_in name _ = []

unfoldable pub pids_in : Text → List Text → List ℤ
unfolding eqb contains fields atoi
pids_in name [] = []
pids_in name (l ∷ ls) = process_in name (fields l) ++ pids_in name ls

-- `PIDs` of the output of ps; `none` is an error of ps.
unfoldable pub pids : Text → Option Text → List ℤ
unfolding pids_in split
pids name none = []
pids name (some out) = pids_in name (split b'\n' out)

abbrev is_any {ℓ} : {A : Type ℓ} → List A → Bool
is_any [] = false
is_any (_ ∷ _) = true

-- `Running`
unfoldable pub is_process_running : Text → Option Text → Bool
unfolding pids
is_process_running name out = is_any (pids name out)

-- `AnyRunning`, with one output of ps for each name
unfoldable pub any_running : List (Text × Option Text) → Option Text
unfolding is_process_running
any_running [] = none
any_running ((name, out) ∷ l) =
    let rest = any_running l in if is_process_running name out then some name else rest

-- `pidAlive` of the output of ps; `none` is an error of ps.
unfoldable pub pid_alive : Option Text → Bool
unfolding trim_space strip_prefix
pid_alive none = false
pid_alive (some out) =
    not (is_empty (trim_space out)) && not (has_prefix (trim_space out) (codes "Z"))

pub data Signal : Type 0 where
  term kill : Signal

-- Round i of the polling: the time at its start, and what ps gives for the process.
pub record Rounds : Type 0 where
  pub now : ℕ → ℕ
  pub stat : ℕ → Option Text

-- How the polling ends: the process is gone, or the deadline has come.
pub data Polled : Type 0 where
  gone expired : Polled

-- The loop from round i on; `none` means that the fuel ran out.
unfoldable pub poll : ℕ → ℕ → Rounds → ℕ → Option Polled
poll zero deadline r i = none
poll (suc fuel) deadline r i =
    let next = poll fuel deadline r (suc i) in
    if ltb (r.now i) deadline
    then if pid_alive (r.stat i) then next else some gone
    else some expired

-- What `killPID` returns, and the signals that it sent.
pub record Kill : Type 0 where
  pub ended : Bool
  pub signals : List Signal

abbrev pub kill_after : Option Text → Option Polled → Option Kill
kill_after last none = none
kill_after last (some gone) = some (record { ended = true; signals = term ∷ [] })
kill_after last (some expired) =
    some (record { ended = not (pid_alive last); signals = term ∷ (kill ∷ []) })

-- `killPID`: the polling begins at `started`, and `last` is what ps gives behind the KILL.
unfoldable pub kill_pid : ℕ → ℕ → ℕ → Rounds → Option Text → Option Kill
unfolding poll pid_alive
kill_pid fuel timeout started r last = kill_after last (poll fuel (started + timeout) r 0)

-- `KillAll` of what `killPID` returned for each process.
unfoldable pub kill_all : List Kill → ℕ
kill_all [] = 0
kill_all (k ∷ l) = (if k.ended then 1 else 0) + kill_all l
