-- ===== src/Gsm/Sms/Span.antt =====
-- internal/gsm/sms_session.go: `readSMSSpan`, the bytes of one session from the log and its backup.
use gsm_system.Base.{
  ℕ, ◌≡◌, refl, zero, suc, ◌+◌, ◌-◌, ◌==◌, ltb, leb, Bool, true, false, not, ◌&&◌, [], ◌∷◌, List,
  ◌++◌, Option, none, some, all, if◌then◌else◌,
}
use gsm_system.Base.Text.{Text, is_empty}
use gsm_system.Gsm.Sms.{Cursor, read_at, sms_mark, valid}

-- An open log file: what its mark, the cursor checks, the copy and the last check see of it.
pub record File : Type 0 where
  pub ino : ℕ
  pub is_regular : Bool
  pub marked : Option Text
  pub checked : Option Text
  pub copied : Option Text
  pub rechecked : Option Text

pub data Open : Type 0 where
  absent : Open
  denied : Open
  opened : File → Open

pub data SpanError : Type 0 where
  boundary : SpanError  -- `errSMSBoundary`, always with `truncated`
  io : SpanError  -- any other error, never with `truncated`

-- The data and `truncated`, or the error.
pub data Read : Type 0 where
  fail : SpanError → Read
  span : Text → Bool → Read

pub data ReadCases (r : Read) : Type 0 where
  lost : r ≡ fail boundary → ReadCases r
  broken : r ≡ fail io → ReadCases r
  got : (b : Text) (t : Bool) → r ≡ span b t → ReadCases r

pub Read-cases : (r : Read) → ReadCases r
Read-cases (fail SpanError.boundary) = lost refl
Read-cases (fail SpanError.io) = broken refl
Read-cases (span b t) = got b t refl

-- `smsSegment`
pub record Segment : Type 0 where
  pub file : File
  pub mark : Cursor
  pub start : ℕ
  pub end : ℕ

abbrev pub marked_segment : File → Option Cursor → Option Segment
marked_segment f none = none
marked_segment f (some m) = some (record { file = f; mark = m; start = 0; end = m.offset })

abbrev pub add_segment : Option Segment → Option (List Segment) → Option (List Segment)
add_segment (some s) (some l) = some (s ∷ l)
add_segment _ _ = none

-- The opening loop: a missing file is passed over, any other failure ends the read.
unfoldable pub open_all : List Open → Option (List Segment)
open_all [] = some []
open_all (Open.absent ∷ l) = open_all l
open_all (Open.denied ∷ l) = none
open_all (Open.opened f ∷ l) =
    add_segment (marked_segment f (sms_mark f.ino f.is_regular f.marked)) (open_all l)

abbrev pub holds : Cursor → Segment → Bool
holds c s = valid c s.file.ino s.file.checked

-- `files[first:]`: the last file in which the start of the session is valid, and those after it.
unfoldable pub from_start : Cursor → List Segment → Option (List Segment)
from_start c [] = none
from_start c (s ∷ l) = elim (from_start c l) [
  | some found ↦ some found
  | none ↦ if holds c s then some (record s { start = c.offset } ∷ l) else none
]

-- `files[first : last+1]`: up to the last file in which the end of the session is valid.
unfoldable pub to_end : Cursor → List Segment → Option (List Segment)
to_end c [] = none
to_end c (s ∷ l) =
    let here = if holds c s then record s { end = c.offset } else s in
    elim (to_end c l) [
      | some found ↦ some (here ∷ found)
      | none ↦ if holds c s then some (here ∷ []) else none
    ]

abbrev pub last_of : Segment → List Segment → Segment
last_of s [] = s
last_of s (t ∷ l) = last_of t l

abbrev pub ends_after_start : Option (List Segment) → Option (List Segment)
ends_after_start none = none
ends_after_start (some []) = none
ends_after_start (some (s ∷ l)) =
    if ltb (last_of s l).end (last_of s l).start then none else some (s ∷ l)

abbrev pub until_end : Option Cursor → List Segment → Option (List Segment)
until_end none l = some l
until_end (some c) l = ends_after_start (to_end c l)

-- Two different positions must not show the same file.
abbrev pub distinct_ends : Option (List Segment) → Option (List Segment)
distinct_ends none = none
distinct_ends (some []) = none
distinct_ends (some (s ∷ [])) = some (s ∷ [])
distinct_ends (some (s ∷ t ∷ l)) =
    if s.mark.ino == (last_of t l).mark.ino then none else some (s ∷ t ∷ l)

abbrev pub from_found : Option Cursor → Option (List Segment) → Option (List Segment)
from_found end none = none
from_found end (some l) = distinct_ends (until_end end l)

-- The files of the session with the bounds of its bytes in each, if the boundaries still exist.
unfoldable pub locate : Cursor → Option Cursor → List Segment → Option (List Segment)
locate start end l = from_found end (from_start start l)

abbrev pub sum_starts : List Segment → ℕ
sum_starts [] = 0
sum_starts (s ∷ l) = s.start + sum_starts l

abbrev pub sum_ends : List Segment → ℕ
sum_ends [] = 0
sum_ends (s ∷ l) = s.end + sum_ends l

abbrev pub read_file : ℕ → ℕ → Segment → Option Text
read_file n off s = elim s.file.copied [ none ↦ none | some t ↦ read_at n off t ]

abbrev pub newline : ℕ
newline = 10

-- Whether the last of the bytes is missing or not a newline.
abbrev pub cuts_line : Option Text → Option Bool
cuts_line none = none
cuts_line (some []) = some false
cuts_line (some (c ∷ _)) = some (not (c == newline))

-- The test of the byte before the cut, in this file or at the end of the file before it.
abbrev pub cut_line : Option Segment → Segment → ℕ → Option Bool
cut_line before s (suc k) = cuts_line (read_file 1 k s)
cut_line none s zero = some false
cut_line (some b) s zero = elim b.end [ zero ↦ some false | suc k ↦ cuts_line (read_file 1 k b) ]

abbrev pub put_before : Option Text → Option (Text × Bool) → Option (Text × Bool)
put_before (some chunk) (some (out, d)) = some (chunk ++ out, d)
put_before _ _ = none

-- The copying loop: `before` is the file before this one, `skip` the bytes still to leave out. A
-- file whose end is before its start adds the difference to `skip`. Returns the bytes and `dropFirst`.
unfoldable pub gather : Option Segment → List Segment → ℕ → Bool → Bool → Option (Text × Bool)
gather before [] skip cut_checked drop_first = some ([], drop_first)
gather before (s ∷ l) skip cut_checked drop_first =
    let passed = gather (some s) l (skip + s.start - s.end) cut_checked drop_first in
    let start = s.start + skip in
    if leb s.end (skip + s.start)
    then passed
    else elim (if cut_checked then some drop_first else cut_line before s start) [
      | none ↦ none
      | some d ↦ put_before (read_file (s.end - start) start s) (gather (some s) l 0 true d)
    ]

-- `b[p+1:]` for the first newline, or nothing.
unfoldable pub after_line : Text → Text
after_line [] = []
after_line (c ∷ t) = if c == newline then t else after_line t

-- `b[:p+1]` for the last newline, or nothing.
unfoldable pub whole_lines : Text → Text
whole_lines [] = []
whole_lines (c ∷ t) =
    let rest = whole_lines t in if is_empty rest && not (c == newline) then [] else c ∷ rest

abbrev pub trim_lines : Bool → Text → Text
trim_lines d b = whole_lines (if d then after_line b else b)

abbrev pub starts_inside : Text → Bool
starts_inside [] = false
starts_inside (c ∷ []) = not (c == newline)
starts_inside (c ∷ d ∷ t) = starts_inside (d ∷ t)

abbrev pub still_marked : Segment → Bool
still_marked s = valid s.mark s.file.ino s.file.rechecked

abbrev pub still_ends : Option Cursor → Segment → Bool
still_ends none s = true
still_ends (some c) s = valid c s.file.ino s.file.rechecked

-- The checks after the copy.
abbrev pub unchanged : Cursor → Option Cursor → Segment → List Segment → Bool
unchanged start end s l =
    all still_marked (s ∷ l)
    && (valid start s.file.ino s.file.rechecked && still_ends end (last_of s l))

abbrev pub finish : Bool → Bool → Option (Text × Bool) → Read
finish ok truncated none = fail boundary
finish false truncated (some _) = fail boundary
finish true truncated (some (b, d)) = span (trim_lines d b) truncated

unfoldable pub copy_span : Cursor → Option Cursor → ℕ → List Segment → Read
copy_span start end limit [] = fail boundary
copy_span start end limit (s ∷ l) =
    let truncated = ltb (limit + sum_starts (s ∷ l)) (sum_ends (s ∷ l)) in
    let skip = if truncated then sum_ends (s ∷ l) - (limit + sum_starts (s ∷ l)) else 0 in
    finish (unchanged start end s l) truncated
      (gather none (s ∷ l) skip (not truncated) (starts_inside start.anchor))

abbrev pub copy_located : Cursor → Option Cursor → ℕ → Option (List Segment) → Read
copy_located start end limit none = fail boundary
copy_located start end limit (some l) = copy_span start end limit l

-- `readSMSSpanOnce` on what opening the backup and then the log gives.
unfoldable pub read_once : Cursor → Option Cursor → ℕ → List Open → Read
read_once start end limit files = elim (open_all files) [
  | none ↦ fail io
  | some l ↦ copy_located start end limit (locate start end l)
]

-- `readSMSSpanUsing`: a second sample of the files when the first one lost the boundary.
unfoldable pub read_span : Cursor → Option Cursor → ℕ → List Open → List Open → Read
read_span start end limit files again = elim (read_once start end limit files) [
  | fail SpanError.boundary ↦ read_once start end limit again
  | r ↦ r
]
