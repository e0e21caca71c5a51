-- ===== src/Logsink/Retention.antt =====
-- What the log and its backup still hold: the end of everything that was ever written.
use gsm_system.Base.{
  ℕ, zero, suc, ◌+◌, ◌≤◌, ◌<◌, ◌≡◌, sym, ap, ◌∙◌, refl, ◌⊎◌, length-append, false, [], ◌∷◌, ◌++◌,
  append_assoc, append-nil, Option, none, length, take, drop, min, take_all, length-drop, take-add,
  take-take, arith, Option-cases, inl, inr,
}
use gsm_system.Base.Text.{Text}
use gsm_system.Logsink.Store.{Logs, Faults, LogError, bytes_of, append_log}
use gsm_system.Logsink.Store.Outcome.{
  Outcome, kept, dropped, appended, rotated, moved, append_log-Outcome,
}
use gsm_system.Logsink.Writer.{Writer, write_chunks, write}

-- The bytes on disk, oldest first.
abbrev pub stream : Logs → Text
stream s = bytes_of s.backup ++ bytes_of s.current

-- From `s` to `s'` the first `k` bytes of the data were added at the end, and then some bytes,
-- which `lost` has, were taken off the beginning.
pub record Retains (data' : Text) (k : ℕ) (s s' : Logs) : Type 0 where
  pub lost : Text
  pub kept : stream s ++ take k data' ≡ lost ++ stream s'

-- Nothing was lost, or more bytes are left than one log may hold.
abbrev pub LosesLate : ℕ → Text → Logs → Type 0
LosesLate limit lost s = (lost ≡ []) ⊎ (limit < length (stream s))

rotated-full :
    (limit k : ℕ) (old data' : Text)
    → limit < length old + length data'
    → k ≡ length data'
    → limit < length (old ++ take k data')
rotated-full limit k old data' full e =
    rw (take_all k data' (omega arith)) (omega (arith, length-append old data'))

Outcome-Retains :
    (limit : ℕ) (data' : Text) {s s' : Logs} {e : Option LogError}
    → Outcome limit data' s s' e
    → (k : ℕ) × (r : Retains data' k s s') × ((e ≡ none)
        → (k ≡ length data') × LosesLate limit r.lost s')
Outcome-Retains limit data' {s} (kept same err h) =
    (0, record { lost = []; kept = rw same (append-nil (stream s)) }, λ n. absurd (cc))
Outcome-Retains limit data' {s} (dropped next h) =
    (0, record { lost = bytes_of s.backup; kept = rw next (append-nil (stream s)) }, λ n. cc)
Outcome-Retains limit data' {s} (appended k room next st) = (
  k,
  record {
    lost = [];
    kept = rw next (append_assoc (bytes_of s.backup) (bytes_of s.current) (take k data'));
  },
  λ n. (ground arith, inl refl),
)
Outcome-Retains limit data' {s} (rotated k full fits next st) = (
  k,
  record {
    lost = bytes_of s.backup;
    kept = rw next (append_assoc (bytes_of s.backup) (bytes_of s.current) (take k data'));
  },
  λ n. (
    ground arith,
    inr (rw next (rotated-full limit k (bytes_of s.current) data' full (ground arith))),
  ),
)
Outcome-Retains limit data' {s} (moved _ next h) =
    (0, record { lost = bytes_of s.backup; kept = rw next (rw (append-nil, append-nil)) }, λ n. cc)

-- What is left only grows while nothing is lost.
LosesLate-trans :
    (limit k : ℕ) (data' : Text) (s1 s2 : Logs) (l1 l2 : Text)
    → LosesLate limit l1 s1
    → stream s1 ++ take k data' ≡ l2 ++ stream s2
    → LosesLate limit l2 s2
    → LosesLate limit (l1 ++ l2) s2
LosesLate-trans limit k data' s1 s2 l1 l2 first eq (inr more) = inr more
LosesLate-trans limit k data' s1 s2 l1 l2 (inl e) eq (inl f) = inl (rw (e, f) refl)
LosesLate-trans limit k data' s1 s2 l1 l2 (inr more) eq (inl f) = inr (
    omega (
      arith,
      length-append (stream s1) (take k data'),
      ap length (eq ∙ ap (λ l. l ++ stream s2) f),
    ))

-- One chunk stored whole, and then some of the rest; `P` says that no error came.
Retains-then :
    (limit n k whole : ℕ) (data' : Text) (P : Type 0) (s s1 s2 : Logs)
    (first : Retains (take n data') whole s s1) (second : Retains (drop n data') k s1 s2)
    → whole ≡ length (take n data')
    → LosesLate limit first.lost s1
    → (P → LosesLate limit second.lost s2)
    → (r : Retains data' (n + k) s s2) × (P → LosesLate limit r.lost s2)
Retains-then limit n k whole data' P s s1 s2 first second w early late = (
  record {
    lost = first.lost ++ second.lost;
    kept =
        ap (λ t. stream s ++ t) (take-add n k data')
        ∙ sym (append_assoc (stream s) (take n data') (take k (drop n data')))
        ∙ ap (λ t. t ++ take k (drop n data'))
            (ap (λ t. stream s ++ t) (sym (take_all whole (take n data') (omega arith)))
              ∙ first.kept)
        ∙ append_assoc first.lost (stream s1) (take k (drop n data'))
        ∙ ap (λ t. first.lost ++ t) second.kept
        ∙ sym (append_assoc first.lost second.lost (stream s2));
  },
  λ p.
      LosesLate-trans limit k (drop n data') s1 s2 first.lost second.lost early second.kept
        (late p),
)

-- A chunk of which `k` bytes were stored, seen as a part of the whole data.
Retains-chunk :
    (n k : ℕ) (data' : Text) {s s' : Logs}
    → Retains (take n data') k s s'
    → Retains data' (min k n) s s'
Retains-chunk n k data' {s} r = record {
  lost = r.lost;
  kept = ap (λ t. stream s ++ t) (sym (take-take k n data')) ∙ r.kept;
}

-- How the reported count and error relate to the stored bytes.
abbrev pub Reported : Text → ℕ → ℕ → ℕ → Option LogError → Type 0
Reported data' k before written e =
    (written ≤ before + k) × (e ≡ none → (k ≡ length data') × (written ≡ before + length data'))

write_chunks-Retains :
    (fuel limit : ℕ) (f : ℕ → Faults) (written : ℕ) (data' : Text) (s : Logs)
    → 0 < limit
    → length data' ≤ fuel
    → let (s', n, e) = write_chunks fuel limit f written data' s in
      (k : ℕ) × (r : Retains data' k s s') × Reported data' k written n e
      × (e ≡ none → LosesLate limit r.lost s')
unfolding write_chunks
write_chunks-Retains fuel limit f written [] s pos enough = (
  0,
  record { lost = []; kept = append-nil (stream s) },
  (omega arith, λ h. omega arith),
  λ h. inl refl,
)
write_chunks-Retains zero limit f written (c ∷ rest) s pos enough = absurd (omega arith)
write_chunks-Retains (suc fuel) limit f written (c ∷ rest) s pos enough =
    let n = min (length (c ∷ rest)) limit in
    let chunk = take n (c ∷ rest) in
    let s1 = (append_log limit (f 0) chunk s).0 in
    let (k, r, whole) = Outcome-Retains limit chunk (append_log-Outcome limit (f 0) chunk s) in
    elim (Option-cases (append_log limit (f 0) chunk s).1) [
      | inr (err, e) ↦
          rw (e, write_chunks)
            (
              min k n,
              Retains-chunk n k (c ∷ rest) r,
              (omega arith, λ h. absurd (cc)),
              λ h. absurd (cc),
            )
      | inl e ↦
          let (k2, r2, rep, late) =
            write_chunks-Retains fuel limit (λ i. f (suc i)) (written + n) (drop n (c ∷ rest)) s1
              pos (omega (arith, length-drop n (c ∷ rest))) in
          let (both, lost_late) =
            Retains-then limit n k2 k (c ∷ rest) _ s s1 _ r r2 (whole e).0 (whole e).1 late in
          rw (e, write_chunks)
            (
              n + k2,
              both,
              (omega arith, λ h. omega (arith, rep.1 h, length-drop n (c ∷ rest))),
              lost_late,
            )
    ]

-- `Write` on an open writer, with a positive limit and any failing system calls: for some `k` the
-- bytes on disk are those of before followed by the first `k` bytes of the data, less some at the
-- beginning; the reported count is at most `k`; and without an error both are the length of the
-- data, and bytes were only lost if more are left than one log may hold.
pub write-Retains :
    (limit : ℕ) (f : ℕ → Faults) (w : Writer) (data' : Text) (s : Logs)
    → 0 < limit
    → w.is_closed ≡ false
    → let (s', n, e) = write limit f w data' s in
      (k : ℕ) × (r : Retains data' k s s') × Reported data' k 0 n e
      × (e ≡ none → LosesLate limit r.lost s')
unfolding write
write-Retains limit f w data' s pos op =
    rw (op, write) (write_chunks-Retains (length data') limit f 0 data' s pos (omega arith))
