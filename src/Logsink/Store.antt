-- ===== src/Logsink/Store.antt =====
-- internal/logsink/sink.go, `appendLog`: one log path with its rotated file `path.1`.
-- Each system call may fail; `Faults` says which of them do in one call of `appendLog`.
pub mod Outcome
use gsm_system.Base.{
  ℕ, ◌+◌, Bool, true, false, List, [], ◌∷◌, ◌++◌, Option, none, some, length, take, ltb,
  if◌then◌else◌,
}
use gsm_system.Base.Text.{Text}

-- What a path names: nothing, a regular file with its bytes, or another kind of file.
pub data Entry : Type 0 where
  missing : Entry
  regular : Text → Entry
  other : Entry

pub record Logs : Type 0 where
  pub current : Entry
  pub backup : Entry

pub record Faults : Type 0 where
  pub lstat : Bool
  pub remove : Bool
  pub rename : Bool
  pub open_file : Bool
  pub chmod : Bool
  -- A failed write has stored this many bytes.
  pub short_write : Option ℕ
  pub close : Bool

abbrev pub no_faults : Faults
no_faults = record {
  lstat = false;
  remove = false;
  rename = false;
  open_file = false;
  chmod = false;
  short_write = none;
  close = false;
}

pub data LogError : Type 0 where
  too_large not_regular io_error closed : LogError

abbrev pub bytes_of : Entry → Text
bytes_of (regular b) = b
bytes_of _ = []

-- f.Write(data) and f.Close(), the errors joined
abbrev write_close : Faults → Text → Text → Logs → Logs × Option LogError
write_close f old data' s = elim f.short_write [
  | some k ↦ (record s { current = regular (old ++ take k data') }, some io_error)
  | none ↦ (record s { current = regular (old ++ data') }, if f.close then some io_error else none)
]

-- os.OpenFile(path, O_CREATE|O_WRONLY|O_APPEND) and what follows
open_append : Faults → Text → Logs → Logs × Option LogError
open_append f data' s =
    let s' = record s { current = regular (bytes_of s.current) } in
    if f.open_file
    then (s, some io_error)
    else if f.chmod
    then (s', some io_error)
    else write_close f (bytes_of s.current) data' s'

-- os.Remove(backup), os.Rename(path, backup)
rotate : Faults → Text → Logs → Logs × Option LogError
unfolding open_append
rotate f data' s =
    let cleared = record s { backup = missing } in
    if f.remove
    then (s, some io_error)
    else if f.rename
    then (cleared, some io_error)
    else open_append f data' (record { current = missing; backup = s.current })

append_to : ℕ → Faults → Text → Logs → Entry → Logs × Option LogError
unfolding rotate open_append
append_to limit f data' s (regular b) =
    if ltb limit (length b + length data') then rotate f data' s else open_append f data' s
append_to limit f data' s missing = open_append f data' s
append_to limit f data' s other = (s, some not_regular)

unfoldable pub append_log : ℕ → Faults → Text → Logs → Logs × Option LogError
unfolding append_to
append_log limit f data' s =
    if ltb limit (length data')
    then (s, some too_large)
    else if f.lstat
    then (s, some io_error)
    else append_to limit f data' s s.current
