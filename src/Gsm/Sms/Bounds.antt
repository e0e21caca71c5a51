-- ===== src/Gsm/Sms/Bounds.antt =====
-- The data that a read of the session returns fits the requested number of bytes.
pub mod Copied
use gsm_system.Base.{
  ℕ, zero, suc, ◌+◌, ◌-◌, ◌≤◌, ◌≡◌, refl, subst, ◌==◌, ltb, leb, Bool, true, false, not, [], ◌∷◌,
  List, Option, none, some, length, drop, length-append, length-take, length-drop, if◌then◌else◌,
  arith, Bool-cases, Option-cases, inl, inr, leb→le, leb→gt,
}
use gsm_system.Base.Text.{Text}
use gsm_system.Gsm.Sms.{Cursor, read_at, sms_mark}
use gsm_system.Gsm.Sms.Span.{
  File, Open, Segment, SpanError, Read, fail, span, open_all, from_start, to_end, ends_after_start,
  until_end, distinct_ends, from_found, locate, marked_segment, add_segment, holds, sum_starts,
  last_of, Read-cases, lost, broken, got, sum_ends, read_file, cut_line, put_before, gather,
  after_line, whole_lines, trim_lines, starts_inside, unchanged, finish, copy_span, copy_located,
  read_once, read_span,
}
use gsm_system.Gsm.Sms.Session.{State, Session, answer, read_in, read_current}
use gsm_system.Gsm.Sms.Bounds.Copied.{
  HasLength, read_at-HasLength, read_file-HasLength, length-whole_lines, length-after_line,
  length-trim_lines, remaining, Fresh, sum_starts-Fresh, Fits, Fits-put_before, Fits-le, FreshRest,
  Fresh-FreshRest, gather-Fits, ReadFits, finish-ReadFits, copy_span-ReadFits,
}

abbrev AllFresh : Option (List Segment) → Type 0
AllFresh none = Unit
AllFresh (some l) = Fresh l

abbrev RestFresh : Option (List Segment) → Type 0
RestFresh none = Unit
RestFresh (some l) = FreshRest l

add_segment-AllFresh :
    (f : File) (m : Option Cursor) (o : Option (List Segment))
    → AllFresh o
    → AllFresh (add_segment (marked_segment f m) o)
add_segment-AllFresh f none o h = tt
add_segment-AllFresh f (some m) none h = tt
add_segment-AllFresh f (some m) (some l) h = (refl, h)

open_all-AllFresh : (l : List Open) → AllFresh (open_all l)
unfolding open_all
open_all-AllFresh [] = tt
open_all-AllFresh (Open.absent ∷ l) = open_all-AllFresh l
open_all-AllFresh (Open.denied ∷ l) = tt
open_all-AllFresh (Open.opened f ∷ l) =
    add_segment-AllFresh f (sms_mark f.ino f.is_regular f.marked) (open_all l) (open_all-AllFresh l)

from_start-RestFresh : (c : Cursor) (l : List Segment) → Fresh l → RestFresh (from_start c l)
unfolding from_start
from_start-RestFresh c [] h = tt
from_start-RestFresh c (s ∷ l) h = elim (Option-cases (from_start c l)) [
  | inr (found, e) ↦ rw e (subst RestFresh e (from_start-RestFresh c l h.1))
  | inl e ↦ rw e (elim (Bool-cases (holds c s)) [ inl t ↦ rw t h.1 | inr t ↦ rw t tt ])
]

to_end-AllFresh : (c : Cursor) (l : List Segment) → Fresh l → AllFresh (to_end c l)
unfolding to_end
to_end-AllFresh c [] h = tt
to_end-AllFresh c (s ∷ l) h = elim (Option-cases (to_end c l)) [
  | inr (found, e) ↦ rw e (elim (Bool-cases (holds c s)) [
    | inl t ↦ rw t (h.0, subst AllFresh e (to_end-AllFresh c l h.1))
    | inr t ↦ rw t (h.0, subst AllFresh e (to_end-AllFresh c l h.1))
  ])
  | inl e ↦ rw e (elim (Bool-cases (holds c s)) [ inl t ↦ rw t (h.0, tt) | inr t ↦ rw t tt ])
]

to_end-RestFresh : (c : Cursor) (l : List Segment) → FreshRest l → RestFresh (to_end c l)
unfolding to_end
to_end-RestFresh c [] h = tt
to_end-RestFresh c (s ∷ l) h = elim (Option-cases (to_end c l)) [
  | inr (found, e) ↦ rw e (subst AllFresh e (to_end-AllFresh c l h))
  | inl e ↦ rw e (elim (Bool-cases (holds c s)) [ inl t ↦ rw t tt | inr t ↦ rw t tt ])
]

ends_after_start-RestFresh :
    (o : Option (List Segment)) → RestFresh o → RestFresh (ends_after_start o)
ends_after_start-RestFresh none h = tt
ends_after_start-RestFresh (some []) h = tt
ends_after_start-RestFresh (some (s ∷ l)) h =
    elim (Bool-cases (ltb (last_of s l).end (last_of s l).start)) [
      | inl t ↦ rw t tt
      | inr t ↦ rw t h
    ]

until_end-RestFresh :
    (end : Option Cursor) (l : List Segment) → FreshRest l → RestFresh (until_end end l)
until_end-RestFresh none l h = h
until_end-RestFresh (some c) l h = ends_after_start-RestFresh (to_end c l) (to_end-RestFresh c l h)

distinct_ends-RestFresh : (o : Option (List Segment)) → RestFresh o → RestFresh (distinct_ends o)
distinct_ends-RestFresh none h = tt
distinct_ends-RestFresh (some []) h = tt
distinct_ends-RestFresh (some (s ∷ [])) h = h
distinct_ends-RestFresh (some (s ∷ t ∷ l)) h =
    elim (Bool-cases (s.mark.ino == (last_of t l).mark.ino)) [ inl e ↦ rw e tt | inr e ↦ rw e h ]

from_found-RestFresh :
    (end : Option Cursor) (o : Option (List Segment)) → RestFresh o → RestFresh (from_found end o)
from_found-RestFresh end none h = tt
from_found-RestFresh end (some l) h =
    distinct_ends-RestFresh (until_end end l) (until_end-RestFresh end l h)

locate-RestFresh :
    (start : Cursor) (end : Option Cursor) (l : List Segment)
    → Fresh l
    → RestFresh (locate start end l)
unfolding locate
locate-RestFresh start end l h =
    from_found-RestFresh end (from_start start l) (from_start-RestFresh start l h)

copy_located-ReadFits :
    (start : Cursor) (end : Option Cursor) (limit : ℕ) (o : Option (List Segment))
    → RestFresh o
    → ReadFits limit (copy_located start end limit o)
copy_located-ReadFits start end limit none h = tt
copy_located-ReadFits start end limit (some l) h = copy_span-ReadFits start end limit l h

read_once-ReadFits :
    (start : Cursor) (end : Option Cursor) (limit : ℕ) (files : List Open)
    → ReadFits limit (read_once start end limit files)
unfolding read_once
read_once-ReadFits start end limit files = elim (Option-cases (open_all files)) [
  | inl e ↦ rw (e, read_once) tt
  | inr (l, e) ↦
      rw (e, read_once)
        (copy_located-ReadFits start end limit (locate start end l)
          (locate-RestFresh start end l (subst AllFresh e (open_all-AllFresh files))))
]

read_span-ReadFits :
    (start : Cursor) (end : Option Cursor) (limit : ℕ) (files again : List Open)
    → ReadFits limit (read_span start end limit files again)
unfolding read_span
read_span-ReadFits start end limit files again =
    elim (Read-cases (read_once start end limit files)) [
      | lost e ↦ rw (e, read_span) (read_once-ReadFits start end limit again)
      | broken e ↦ rw (e, read_span) tt
      | got b t e ↦
          rw (e, read_span) (subst (ReadFits limit) e (read_once-ReadFits start end limit files))
    ]

answer-fits : (n : ℕ) (s : Session) (r : Read) → ReadFits n r → length (answer n s r).1.data' ≤ n
answer-fits n s (fail SpanError.boundary) h = omega arith
answer-fits n s (fail SpanError.io) h = omega arith
answer-fits n s (span b t) h = h

read_in-fits :
    (st : State) (n : ℕ) (files again : List Open) (s : Session)
    → length (read_in st n files again s).1.data' ≤ n
read_in-fits State.boundary_lost n files again s = omega arith
read_in-fits State.starting n files again s =
    answer-fits n s (read_span s.start s.end n files again)
      (read_span-ReadFits s.start s.end n files again)
read_in-fits State.running n files again s =
    answer-fits n s (read_span s.start s.end n files again)
      (read_span-ReadFits s.start s.end n files again)
read_in-fits State.stopped n files again s =
    answer-fits n s (read_span s.start s.end n files again)
      (read_span-ReadFits s.start s.end n files again)

-- Whatever the log files hold and however they change while they are read, the data of a read of
-- the current session has at most the requested number of bytes.
pub read_current-fits :
    (n : ℕ) (files again : List Open) (s : Option Session)
    → length (read_current n files again s).1.data' ≤ n
unfolding read_current
read_current-fits zero files again s = omega arith
read_current-fits (suc n) files again none = omega arith
read_current-fits (suc n) files again (some s) = read_in-fits s.state (suc n) files again s
