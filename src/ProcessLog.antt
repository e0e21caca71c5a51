-- ===== src/ProcessLog.antt =====
-- internal/gsm/process_log.go: readiness of the OpenBTS child, seen in the bytes of its own output.
-- `ready` is a channel that is closed once; closing it again is a panic, here `none`, and so is a
-- count of the wrapped writer beyond the capacity of the data.
pub mod Marker
pub mod Tests
use gsm_system.Base.{
  ℕ, suc, ◌+◌, ◌-◌, Bool, true, false, List, [], ◌∷◌, ◌++◌, Option, none, some, length, take, drop,
  leb, ltb, if◌then◌else◌,
}
use gsm_system.Base.Text.{Text, codes, contains}

pub record ProcessLog : Type 0 where
  pub ready_closed : Bool
  pub tail : Text
  pub seen : Bool

unfoldable pub new_process_log : ProcessLog
new_process_log = record { ready_closed = false; tail = []; seen = false }

abbrev pub marker : Text
marker = codes "system ready"

-- close(w.ready)
abbrev pub close_ready : ProcessLog → Option ProcessLog
close_ready w = if w.ready_closed then none else some (record w { ready_closed = true })

-- text[len(text)-len(marker)+1:] if the text is at least as long as the marker
abbrev pub keep_tail : Text → Text
keep_tail text =
    if leb (length marker) (length text) then drop (length text - length marker + 1) text else text

-- The slice that is written: its bytes, and those behind them up to its capacity.
pub record Slice : Type 0 where
  pub bytes : Text
  pub spare : Text

-- data[:n]
abbrev pub cut : Slice → ℕ → Option Text
cut d n = if ltb (length (d.bytes ++ d.spare)) n then none else some (take n (d.bytes ++ d.spare))

abbrev pub watch : ProcessLog → Option Text → Option ProcessLog
watch w none = none
watch w (some new) =
    let text = w.tail ++ new in
    if contains text marker
    then close_ready (record w { seen = true })
    else some (record w { tail = keep_tail text })

-- `Write`: `n` is the count that the wrapped writer reports for the slice.
unfoldable pub write : ProcessLog → Slice → ℕ → Option ProcessLog
write w d n = if w.seen then some w else watch w (cut d n)

-- A session's writes, each with the count that the wrapped writer reported.
unfoldable pub write_all : ProcessLog → List (Slice × ℕ) → Option ProcessLog
write_all w [] = some w
write_all w ((d, n) ∷ rest) = elim (write w d n) [ none ↦ none | some w' ↦ write_all w' rest ]
