-- ===== src/Gsm/Sms/Lines.antt =====
-- The data that a read of the session returns consists of whole lines.
use gsm_system.Base.{
  ℕ, zero, suc, ◌≡◌, refl, ◌==◌, Bool, true, false, not, ◌&&◌, [], ◌∷◌, List, Option, none, some,
  if◌then◌else◌, arith, Option-cases, inl, inr, subst,
}
use gsm_system.Base.Text.{Text, is_empty}
use gsm_system.Gsm.Sms.{Cursor}
use gsm_system.Gsm.Sms.Span.{
  Open, Segment, SpanError, Read, fail, span, Read-cases, lost, broken, got, open_all, locate,
  newline, after_line, whole_lines, finish, copy_span, copy_located, read_once, read_span,
}
use gsm_system.Gsm.Sms.Session.{State, Session, answer, read_in, read_current}

-- Empty, or ending in a newline.
unfoldable pub ends_line : Text → Bool
ends_line [] = true
ends_line (c ∷ []) = c == newline
ends_line (c ∷ d ∷ t) = ends_line (d ∷ t)

ends_line_cons :
    (c : ℕ) (r : Text)
    → ends_line r ≡ true
    → ends_line (if is_empty r && not (c == newline) then [] else c ∷ r) ≡ true
unfolding ends_line
ends_line_cons c [] h = ground arith
ends_line_cons c (d ∷ r) h = h

ends_line-whole_lines : (t : Text) → ends_line (whole_lines t) ≡ true
unfolding whole_lines ends_line
ends_line-whole_lines [] = refl
ends_line-whole_lines (c ∷ t) = ends_line_cons c (whole_lines t) (ends_line-whole_lines t)

abbrev IsWhole : Read → Type 0
IsWhole (fail e) = Unit
IsWhole (span b t) = ends_line b ≡ true

finish-IsWhole : (ok t : Bool) (o : Option (Text × Bool)) → IsWhole (finish ok t o)
finish-IsWhole ok t none = tt
finish-IsWhole false t (some p) = tt
finish-IsWhole true t (some (b, d)) = ends_line-whole_lines (if d then after_line b else b)

copy_located-IsWhole :
    (start : Cursor) (end : Option Cursor) (limit : ℕ) (o : Option (List Segment))
    → IsWhole (copy_located start end limit o)
unfolding copy_span
copy_located-IsWhole start end limit none = tt
copy_located-IsWhole start end limit (some []) = tt
copy_located-IsWhole start end limit (some (s ∷ l)) = finish-IsWhole _ _ _

read_once-IsWhole :
    (start : Cursor) (end : Option Cursor) (limit : ℕ) (files : List Open)
    → IsWhole (read_once start end limit files)
unfolding read_once
read_once-IsWhole start end limit files = elim (Option-cases (open_all files)) [
  | inl e ↦ rw (e, read_once) tt
  | inr (l, e) ↦ rw (e, read_once) (copy_located-IsWhole start end limit (locate start end l))
]

read_span-IsWhole :
    (start : Cursor) (end : Option Cursor) (limit : ℕ) (files again : List Open)
    → IsWhole (read_span start end limit files again)
unfolding read_span
read_span-IsWhole start end limit files again =
    elim (Read-cases (read_once start end limit files)) [
      | lost e ↦ rw (e, read_span) (read_once-IsWhole start end limit again)
      | broken e ↦ rw (e, read_span) tt
      | got b t e ↦ rw (e, read_span) (subst IsWhole e (read_once-IsWhole start end limit files))
    ]

answer_whole :
    (n : ℕ) (s : Session) (r : Read) → IsWhole r → ends_line (answer n s r).1.data' ≡ true
unfolding ends_line
answer_whole n s (fail SpanError.boundary) h = refl
answer_whole n s (fail SpanError.io) h = refl
answer_whole n s (span b t) h = h

read_in_whole :
    (st : State) (n : ℕ) (files again : List Open) (s : Session)
    → ends_line (read_in st n files again s).1.data' ≡ true
unfolding ends_line
read_in_whole State.boundary_lost n files again s = refl
read_in_whole State.starting n files again s =
    answer_whole n s _ (read_span-IsWhole s.start s.end n files again)
read_in_whole State.running n files again s =
    answer_whole n s _ (read_span-IsWhole s.start s.end n files again)
read_in_whole State.stopped n files again s =
    answer_whole n s _ (read_span-IsWhole s.start s.end n files again)

-- Whatever the log files hold and however they change while they are read, the data of a read of
-- the current session is empty or ends in a newline.
read_current_whole :
    (n : ℕ) (files again : List Open) (s : Option Session)
    → ends_line (read_current n files again s).1.data' ≡ true
unfolding read_current ends_line
read_current_whole zero files again s = refl
read_current_whole (suc n) files again none = refl
read_current_whole (suc n) files again (some s) = read_in_whole s.state (suc n) files again s
