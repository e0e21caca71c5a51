-- ===== src/Logsink/Bounds.antt =====
-- The log and its backup stay within the limit, whatever fails.
use gsm_system.Base.{
  ℕ, zero, suc, ◌+◌, ◌-◌, ◌≤◌, ◌≡◌, [], ◌∷◌, Option, none, some, length, take, drop, min,
  length-append, length-take, length-drop, arith, Bool-cases, Option-cases, inl, inr,
}
use gsm_system.Base.Text.{Text}
use gsm_system.Logsink.Store.{
  Entry, missing, regular, other, Logs, Faults, LogError, bytes_of, append_log,
}
use gsm_system.Logsink.Store.Outcome.{
  size, Outcome, kept, dropped, appended, rotated, moved, append_log-Outcome,
}
use gsm_system.Logsink.Writer.{
  CapFault, lstat_fails, cap_existing_log, NewFaults, new_writer, Writer, write_chunks, write,
}

pub record IsBounded (limit : ℕ) (s : Logs) : Type 0 where
  pub current : size s.current ≤ limit
  pub backup : size s.backup ≤ limit

Outcome-IsBounded :
    (limit : ℕ) (data' : Text) {s s' : Logs} {e : Option LogError}
    → Outcome limit data' s s' e
    → IsBounded limit s
    → IsBounded limit s'
Outcome-IsBounded limit data' (kept same err _) h = rw same h
Outcome-IsBounded limit data' (dropped next _) h = rw next (omega arith)
Outcome-IsBounded limit data' {s} (appended k room next _) h =
    rw next (omega (arith, length-append (bytes_of s.current) (take k data'), length-take k data'))
Outcome-IsBounded limit data' (rotated k _ fits next _) h =
    rw next (omega (arith, length-take k data'))
Outcome-IsBounded limit data' (moved _ next _) h = rw next (omega arith)

-- If the log and its backup hold at most `limit` bytes each, they still do after one `appendLog`,
-- whichever of its system calls fail.
pub append_log-IsBounded :
    (limit : ℕ) (f : Faults) (data' : Text) (s : Logs)
    → IsBounded limit s
    → IsBounded limit (append_log limit f data' s).0
append_log-IsBounded limit f data' s h =
    Outcome-IsBounded limit data' (append_log-Outcome limit f data' s) h

-- A log within the limit stays within it, and a longer one is within it if no error is reported.
pub size-cap_existing_log :
    (limit : ℕ) (fault : Option CapFault) (e : Entry)
    → (size e ≤ limit → size (cap_existing_log limit fault e).0 ≤ limit)
      × ((cap_existing_log limit fault e).1 ≡ none
          → size (cap_existing_log limit fault e).0 ≤ limit)
unfolding cap_existing_log
size-cap_existing_log limit (some lstat_fails) e = ((λ h. h), λ h. cc)
size-cap_existing_log limit none missing = ((λ h. h), λ h. omega arith)
size-cap_existing_log limit (some _) missing = ((λ h. h), λ h. omega arith)
size-cap_existing_log limit none other = ((λ h. h), λ h. cc)
size-cap_existing_log limit (some _) other = ((λ h. h), λ h. cc)
size-cap_existing_log limit none (regular b) = (
  ground (arith, length-drop (length b - limit) b),
  ground (arith, length-drop (length b - limit) b),
)
size-cap_existing_log limit (some _) (regular b) = (ground arith, ground arith)

-- Whatever sizes the log and its backup had, both are within the limit once `NewWriter` returns a
-- writer.
new_writer-IsBounded :
    (limit : ℕ) (f : NewFaults) (s : Logs) {w : Writer}
    → (new_writer limit f s).1 ≡ some w
    → IsBounded limit (new_writer limit f s).0
unfolding new_writer
new_writer-IsBounded limit f s h =
    elim (Option-cases (cap_existing_log limit f.current s.current).1) [
      | inr (err, e) ↦ absurd (no_writer (rw (e, new_writer) at h))
      | inl e ↦ elim (Option-cases (cap_existing_log limit f.backup s.backup).1) [
        | inr (err, e') ↦ absurd (no_writer (rw (e, e', new_writer) at h))
        | inl e' ↦
            rw (e, e', new_writer)
              (append_log-IsBounded limit f.append [] _ (record {
                current = (size-cap_existing_log limit f.current s.current).1 e;
                backup = (size-cap_existing_log limit f.backup s.backup).1 e';
              }))
      ]
    ]
  where
    no_writer : {w : Writer} → none ≡ some w → ⊥
    no_writer h = cc

write_chunks-IsBounded :
    (fuel limit : ℕ) (f : ℕ → Faults) (written : ℕ) (data' : Text) (s : Logs)
    → IsBounded limit s
    → IsBounded limit (write_chunks fuel limit f written data' s).0
unfolding write_chunks
write_chunks-IsBounded zero limit f written [] s h = h
write_chunks-IsBounded (suc fuel) limit f written [] s h = h
write_chunks-IsBounded zero limit f written (c ∷ rest) s h = h
write_chunks-IsBounded (suc fuel) limit f written (c ∷ rest) s h =
    let n = min (length (c ∷ rest)) limit in
    let h' = append_log-IsBounded limit (f 0) (take n (c ∷ rest)) s h in
    elim (Option-cases (append_log limit (f 0) (take n (c ∷ rest)) s).1) [
      | inr (err, e) ↦ rw (e, write_chunks) h'
      | inl e ↦
          rw (e, write_chunks)
            (write_chunks-IsBounded fuel limit (λ i. f (suc i)) (written + n) (drop n (c ∷ rest)) _
              h')
    ]

-- A log and a backup within the limit stay within it under `Write`, whatever the size of the data
-- and whichever system calls fail on the way.
write-IsBounded :
    (limit : ℕ) (f : ℕ → Faults) (w : Writer) (data' : Text) (s : Logs)
    → IsBounded limit s
    → IsBounded limit (write limit f w data' s).0
unfolding write
write-IsBounded limit f w data' s h = elim (Bool-cases w.is_closed) [
  | inl c ↦ rw c h
  | inr c ↦ rw c (write_chunks-IsBounded (length data') limit f 0 data' s h)
]
