-- ===== src/Gsm/Sms/Tests.antt =====
-- The SMS session on concrete logs.
use gsm_system.Base.{
  ℕ, ◌≡◌, refl, true, false, [], ◌∷◌, List, none, some, length, ltb, ◌≤◌, arith, if◌then◌else◌,
}
use gsm_system.Base.Text.{Text, codes, eqb}
use gsm_system.Gsm.Sms.{Cursor, sms_mark, valid}
use gsm_system.Gsm.Sms.Span.{
  File, Open, Segment, boundary, fail, span, open_all, from_start, locate, gather, after_line,
  whole_lines, copy_span, read_once, starts_inside, unchanged,
}
use gsm_system.Gsm.Sms.Session.{State, Session, read_current}
use gsm_system.Gsm.Sms.Bounds.{read_current-fits}
use gsm_system.Gsm.Sms.Lost.{commits, ends, StaysLost, lost_forever}
use gsm_system.Gsm.Sms.Window.{two, copy_span-eq-last_lines}
use gsm_system.Gsm.Sms.Window.Parts.{session_bytes, IsStable, last_lines}

abbrev steady : ℕ → Text → File
steady ino t = record {
  ino = ino;
  is_regular = true;
  marked = some t;
  checked = some t;
  copied = some t;
  rechecked = some t;
}

abbrev old_log : Text
old_log = 111 ∷ 10 ∷ []

abbrev start_cursor : Cursor
start_cursor = record { ino = 7; offset = 2; anchor = old_log }

-- The log after the launch, with an unfinished line.
abbrev grown : Text
grown = 111 ∷ 10 ∷ 97 ∷ 98 ∷ 10 ∷ 99 ∷ 10 ∷ 100 ∷ []

read_grown :
    read_once start_cursor none 100 (Open.absent ∷ Open.opened (steady 7 grown) ∷ [])
    ≡ span (97 ∷ 98 ∷ 10 ∷ 99 ∷ 10 ∷ []) false
unfolding read_once open_all locate from_start copy_span gather sms_mark valid whole_lines eqb
read_grown = refl

-- Four bytes are "\nc\nd": the cut goes through the line "ab".
read_last_lines :
    read_once start_cursor none 4 (Open.absent ∷ Open.opened (steady 7 grown) ∷ [])
    ≡ span (99 ∷ 10 ∷ []) true
unfolding read_once open_all locate from_start copy_span gather sms_mark valid after_line
    whole_lines eqb
read_last_lines = refl

-- The log was replaced by another file.
read_replaced :
    read_once start_cursor none 4 (Open.absent ∷ Open.opened (steady 8 grown) ∷ []) ≡ fail boundary
unfolding read_once open_all locate from_start sms_mark valid
read_replaced = refl

abbrev a_session : Session
a_session = record {
  id = codes "0f";
  start = start_cursor;
  end = none;
  started = 5;
  ended = none;
  state = State.running;
}

abbrev lost_session : Session
lost_session = record a_session { state = State.boundary_lost }

abbrev logs : List Open
logs = Open.absent ∷ Open.opened (steady 7 grown) ∷ []

read_current-fits_example : length (read_current 4 logs logs (some a_session)).1.data' ≤ 4
read_current-fits_example = read_current-fits 4 logs logs (some a_session)

lost_forever_example : StaysLost (commits ∷ (ends 9 none ∷ [])) 3 logs logs lost_session
lost_forever_example = lost_forever (commits ∷ (ends 9 none ∷ [])) 3 logs logs lost_session refl

abbrev at_mark : ℕ → Text → ℕ → ℕ → Segment
at_mark ino t from to = record {
  file = steady ino t;
  mark = record { ino = ino; offset = length t; anchor = t };
  start = from;
  end = to;
}

abbrev whole_log : Segment
whole_log = at_mark 7 grown 2 8

abbrev backup_log : Segment
backup_log = at_mark 7 (111 ∷ 10 ∷ 97 ∷ 98 ∷ 10 ∷ []) 2 5

abbrev current_log : Segment
current_log = at_mark 9 (99 ∷ 10 ∷ 100 ∷ []) 0 3

IsStable-whole : IsStable whole_log
IsStable-whole = record {
  text = grown;
  copied = refl;
  reaches = omega arith;
  ordered = omega arith;
}

IsStable-backup : IsStable backup_log
IsStable-backup = record {
  text = 111 ∷ 10 ∷ 97 ∷ 98 ∷ 10 ∷ [];
  copied = refl;
  reaches = omega arith;
  ordered = omega arith;
}

IsStable-current : IsStable current_log
IsStable-current = record {
  text = 99 ∷ 10 ∷ 100 ∷ [];
  copied = refl;
  reaches = omega arith;
  ordered = omega arith;
}

copy_span-eq-last_lines_example : copy_span start_cursor none 4 (backup_log ∷ current_log ∷ []) ≡ (
    if unchanged start_cursor none backup_log (current_log ∷ [])
    then span
        (last_lines
          (starts_inside start_cursor.anchor)
          4
          (session_bytes (backup_log ∷ current_log ∷ [])))
        (ltb 4 (length (session_bytes (backup_log ∷ current_log ∷ []))))
    else fail boundary)
copy_span-eq-last_lines_example =
    copy_span-eq-last_lines start_cursor none 4 backup_log (current_log ∷ [])
      (two IsStable-backup IsStable-current refl) (omega arith)
