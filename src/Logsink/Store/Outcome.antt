-- ===== src/Logsink/Store/Outcome.antt =====
-- The five ways in which one `appendLog` can leave a log and its backup.
use gsm_system.Base.{
  ℕ, ◌+◌, ◌≤◌, ◌<◌, ◌≡◌, refl, ◌++◌, append-nil, Option, none, some, length, take, take_all, ltb,
  arith, Bool-cases, ◌⊎◌, inl, inr, Option-cases,
}
use gsm_system.Base.Text.{Text}
use gsm_system.Logsink.Store.{
  Entry, missing, regular, other, Logs, Faults, LogError, io_error, bytes_of, open_append, rotate,
  append_to, append_log,
}

abbrev pub size : Entry → ℕ
size e = length (bytes_of e)

-- `k` bytes of the data were stored: all of them, or the call failed.
abbrev pub Stored : Text → ℕ → Option LogError → Type 0
Stored data' k e = (k ≡ length data') × (e ≡ none) ⊎ (e ≡ some io_error)

pub data Outcome (limit : ℕ) (data' : Text) (s s' : Logs) (e : Option LogError) : Type 0 where
  kept : s' ≡ s → (err : LogError) → e ≡ some err → Outcome limit data' s s' e
  dropped : s' ≡ record s { backup = missing } → e ≡ some io_error → Outcome limit data' s s' e
  appended :
      (k : ℕ)
      → size s.current + length data' ≤ limit
      → s' ≡ record s { current = regular (bytes_of s.current ++ take k data') }
      → Stored data' k e
      → Outcome limit data' s s' e
  rotated :
      (k : ℕ)
      → limit < size s.current + length data'
      → length data' ≤ limit
      → s' ≡ record { current = regular (take k data'); backup = s.current }
      → Stored data' k e
      → Outcome limit data' s s' e
  moved :
      limit < size s.current + length data'
      → s' ≡ record { current = missing; backup = s.current }
      → e ≡ some io_error
      → Outcome limit data' s s' e

-- What `open_append` does: nothing, or the old bytes followed by `k` bytes of the data.
open_append_cases :
    (f : Faults) (data' : Text) (s : Logs)
    → let (s', e) = open_append f data' s in
      (s' ≡ s) × (e ≡ some io_error)
      ⊎ ((k : ℕ) × (s' ≡ record s { current = regular (bytes_of s.current ++ take k data') })
          × Stored data' k e)
unfolding open_append
open_append_cases f data' s = elim (Bool-cases f.open_file) [
  | inl o ↦ inl (rw o, rw o)
  | inr o ↦ elim (Bool-cases f.chmod) [
    | inl c ↦ inr (0, rw (o, c, append-nil), inr (rw (o, c)))
    | inr c ↦ elim (Option-cases f.short_write) [
      | inr (k, w) ↦ inr (k, rw (o, c, w), inr (rw (o, c, w)))
      | inl w ↦ inr (
        length data',
        rw (o, c, w, take_all (length data') data' (omega arith)),
        elim (Bool-cases f.close) [
          | inl d ↦ inr (rw (o, c, w, d))
          | inr d ↦ inl (refl, rw (o, c, w, d))
        ],
      )
    ]
  ]
]

module _ (limit : ℕ) (f : Faults) (data' : Text) (s : Logs) (fits : length data' ≤ limit) where
  open_append-Outcome :
      size s.current + length data' ≤ limit
      → Outcome limit data' s (open_append f data' s).0 (open_append f data' s).1
  open_append-Outcome room = elim (open_append_cases f data' s) [
    | inl (same, e) ↦ Outcome.kept same io_error e
    | inr (k, next, st) ↦ Outcome.appended k room next st
  ]

  rotate-Outcome :
      limit < size s.current + length data'
      → Outcome limit data' s (rotate f data' s).0 (rotate f data' s).1
  unfolding rotate
  rotate-Outcome full = elim (Bool-cases f.remove) [
    | inl r ↦ Outcome.kept (rw r) io_error (rw r)
    | inr r ↦ elim (Bool-cases f.rename) [
      | inl n ↦ Outcome.dropped (rw (r, n)) (rw (r, n))
      | inr n ↦
          rw (r, n)
            (elim (open_append_cases f data' (record { current = missing; backup = s.current })) [
              | inl (same, e) ↦ Outcome.moved full same e
              | inr (k, next, st) ↦ Outcome.rotated k full fits next st
            ])
    ]
  ]

append_to-Outcome :
    (limit : ℕ) (f : Faults) (data' : Text) (s : Logs) (c : Entry)
    → s.current ≡ c
    → length data' ≤ limit
    → Outcome limit data' s (append_to limit f data' s c).0 (append_to limit f data' s c).1
unfolding append_to
append_to-Outcome limit f data' s missing h fits =
    open_append-Outcome limit f data' s fits (rw h (omega arith))
append_to-Outcome limit f data' s other h fits = Outcome.kept refl _ refl
append_to-Outcome limit f data' s (regular b) h fits =
    elim (Bool-cases (ltb limit (length b + length data'))) [
      | inl full ↦ rw full (rotate-Outcome limit f data' s fits (rw h (ground arith)))
      | inr room ↦ rw room (open_append-Outcome limit f data' s fits (rw h (ground arith)))
    ]

-- Every call of `appendLog`, with any faults, ends in one of the five ways.
pub append_log-Outcome :
    (limit : ℕ) (f : Faults) (data' : Text) (s : Logs)
    → Outcome limit data' s (append_log limit f data' s).0 (append_log limit f data' s).1
unfolding append_log
append_log-Outcome limit f data' s = elim (Bool-cases (ltb limit (length data'))) [
  | inl big ↦ rw big (Outcome.kept refl _ refl)
  | inr fits ↦ rw fits (elim (Bool-cases f.lstat) [
    | inl l ↦ rw l (Outcome.kept refl _ refl)
    | inr l ↦ rw l (append_to-Outcome limit f data' s s.current refl (ground arith))
  ])
]
