-- ===== src/Logsink/Writer.antt =====
-- internal/logsink/writer.go: adopting old logs and writing process output in bounded chunks.
use gsm_system.Base.{
  ℕ, zero, suc, ◌+◌, ◌-◌, ◌*◌, ◌^◌, Bool, true, false, [], ◌∷◌, Option, none, some, length, take,
  drop, leb, min, if◌then◌else◌,
}
use gsm_system.Base.Text.{Text}
use gsm_system.Logsink.Store.{
  Entry, missing, regular, other, Logs, Faults, LogError, not_regular, io_error, closed, append_log,
}

-- 16 << 20
abbrev pub max_log_bytes : ℕ
max_log_bytes = 16 * 2 ^ 20

-- The step at which `capExistingLog` fails, if one does. All but the last leave the file alone.
pub data CapFault : Type 0 where
  lstat_fails : CapFault
  copy_fails : CapFault  -- open, seek, create, copy, sync or close
  rename_fails : CapFault

-- `capExistingLog`: keeps the last `limit` bytes of a longer file.
unfoldable pub cap_existing_log : ℕ → Option CapFault → Entry → Entry × Option LogError
cap_existing_log limit (some CapFault.lstat_fails) e = (e, some io_error)
cap_existing_log limit fault missing = (missing, none)
cap_existing_log limit fault other = (other, some not_regular)
cap_existing_log limit none (regular b) =
    if leb (length b) limit then (regular b, none) else (regular (drop (length b - limit) b), none)
cap_existing_log limit (some _) (regular b) =
    if leb (length b) limit then (regular b, none) else (regular b, some io_error)

pub record Writer : Type 0 where
  pub is_closed : Bool

-- What may fail in one `NewWriter`.
pub record NewFaults : Type 0 where
  pub current : Option CapFault
  pub backup : Option CapFault
  pub append : Faults

abbrev then_append : ℕ → Faults → Logs → Logs × Option Writer
then_append limit f s =
    let (s', e) = append_log limit f [] s in
    (s', elim e [ none ↦ some (record { is_closed = false }) | some _ ↦ none ])

-- `NewWriter`: caps the log, then its backup, then creates the log; no writer on an error.
unfoldable pub new_writer : ℕ → NewFaults → Logs → Logs × Option Writer
new_writer limit f s =
    let (c, e) = cap_existing_log limit f.current s.current in
    let (b, e') = cap_existing_log limit f.backup s.backup in
    elim e [
      | some _ ↦ (record s { current = c }, none)
      | none ↦ elim e' [
        | some _ ↦ (record { current = c; backup = b }, none)
        | none ↦ then_append limit f.append (record { current = c; backup = b })
      ]
    ]

-- The loop of `Write`: chunks of at most `limit` bytes until the data is used up or a chunk fails.
-- The faults of the n-th call of `appendLog` are `f n`; the fuel is the length of the data.
unfoldable pub write_chunks : ℕ → ℕ → (ℕ → Faults) → ℕ → Text → Logs → Logs × ℕ × Option LogError
write_chunks fuel limit f written [] s = (s, written, none)
write_chunks zero limit f written (c ∷ rest) s = (s, written, none)
write_chunks (suc fuel) limit f written (c ∷ rest) s =
    let n = min (length (c ∷ rest)) limit in
    let (s', e) = append_log limit (f 0) (take n (c ∷ rest)) s in
    let more = write_chunks fuel limit (λ i. f (suc i)) (written + n) (drop n (c ∷ rest)) s' in
    elim e [ some err ↦ (s', written, some err) | none ↦ more ]

-- `(*Writer).Write`
unfoldable pub write : ℕ → (ℕ → Faults) → Writer → Text → Logs → Logs × ℕ × Option LogError
unfolding write_chunks
write limit f w data' s =
    if w.is_closed then (s, 0, some closed) else write_chunks (length data') limit f 0 data' s

-- `(*Writer).Close`
unfoldable pub close : Writer → Writer
close w = record w { is_closed = true }
