-- ===== src/Parser/Native.antt =====
-- internal/parser/sms.go: lines of a log, the native log prefix, restarts and generations.
use gsm_system.Base.{
  ℕ, zero, suc, ◌+◌, Bool, false, not, ◌&&◌, ◌||◌, List, [], ◌∷◌, Option, none, some, reverse,
  length, ltb, ◌==◌, if◌then◌else◌,
}
use gsm_system.Base.Text.{Text, codes, eqb, is_digit, has_prefix, strip_prefix, trim_space}
use gsm_system.Base.Regex.{
  Re, byte, many, few, group, start, stop, word, ◌▸◌, bytes, some_of, times, optional, one_word,
  white, not_newline, submatch, matches,
}

-- strings.SplitAfter(log, "\n")
unfoldable pub split_after_from : Text → Text → List Text
split_after_from cur [] = reverse cur ∷ []
split_after_from cur (c ∷ s) =
    let closed = split_after_from [] s in
    let longer = split_after_from (c ∷ cur) s in
    if c == b'\n' then reverse (c ∷ cur) ∷ closed else longer

unfoldable pub split_after : Text → List Text
unfolding split_after_from
split_after log = split_after_from [] log

-- strings.TrimSuffix(line, "\n")
unfoldable pub trim_newline : Text → Text
trim_newline [] = []
trim_newline (c ∷ []) = if c == b'\n' then [] else c ∷ []
trim_newline (c ∷ (d ∷ s)) = c ∷ trim_newline (d ∷ s)

abbrev one_more : Option ℕ → Option ℕ
one_more none = none
one_more (some n) = some (suc n)

-- A run of ESC [ digits and semicolons m: the bytes of the run with its final m, if it ends so.
unfoldable pub ansi_end : Text → Option ℕ
ansi_end [] = none
ansi_end (c ∷ s) =
    let longer = one_more (ansi_end s) in
    if c == b'm' then some 1 else if is_digit c || c == b';' then longer else none

abbrev ansi_sequence : Option ℕ → ℕ
ansi_sequence none = 0
ansi_sequence (some n) = n + 2

unfoldable pub ansi_width : Text → ℕ
unfolding ansi_end
ansi_width [] = 0
ansi_width (a ∷ []) = 0
ansi_width (a ∷ (b ∷ s)) = if a == 27 && b == b'[' then ansi_sequence (ansi_end s) else 0

unfoldable pub strip_from : ℕ → Text → Text
unfolding ansi_width
strip_from skip [] = []
strip_from (suc k) (c ∷ s) = strip_from k s
strip_from zero (c ∷ s) = elim (ansi_width (c ∷ s)) [
  | zero ↦ c ∷ strip_from 0 s
  | suc k ↦ strip_from k s
]

unfoldable pub strip_ansi : Text → Text
unfolding strip_from
strip_ansi s = strip_from 0 s

-- strings.ReplaceAll(s, "\r\n", "\n")
unfoldable pub unix_lines : Text → Text
unix_lines [] = []
unix_lines (c ∷ []) = c ∷ []
unix_lines (c ∷ (d ∷ s)) =
    let joined = unix_lines s in
    let apart = unix_lines (d ∷ s) in if c == 13 && d == 10 then 10 ∷ joined else c ∷ apart

unfoldable pub clean_log : Text → Text
unfolding strip_ansi unix_lines
clean_log log = unix_lines (strip_ansi log)

abbrev pub re_time : Re
re_time = group (
    times 4 is_digit
    ▸ bytes (codes "-")
    ▸ times 2 is_digit
    ▸ bytes (codes "-")
    ▸ times 2 is_digit
    ▸ bytes (codes "T")
    ▸ times 2 is_digit
    ▸ bytes (codes ":")
    ▸ times 2 is_digit
    ▸ bytes (codes ":")
    ▸ times 2 is_digit
    ▸ optional (bytes (codes ".") ▸ some_of is_digit)
    ▸ optional (
        Re.alt (bytes (codes "Z")) (
          byte (λ c. c == b'+' || c == b'-')
          ▸ times 2 is_digit
          ▸ bytes (codes ":")
          ▸ times 2 is_digit)))

-- [^:\s]
abbrev name_byte : ℕ → Bool
name_byte c = not (c == b':' || white c)

abbrev pub re_native_line : Re
re_native_line =
    start
    ▸ optional (
        bytes (codes "<")
        ▸ some_of is_digit
        ▸ bytes (codes ">")
        ▸ few not_newline
        ▸ word
        ▸ bytes (codes "smqueue:")
        ▸ some_of white)
    ▸ one_word (
        codes "ALERT"
        ∷ codes "CRIT"
        ∷ codes "ERR"
        ∷ codes "WARNING"
        ∷ codes "NOTICE"
        ∷ codes "INFO"
        ∷ codes "DEBUG"
        ∷ [])
    ▸ some_of white
    ▸ some_of is_digit
    ▸ bytes (codes ":")
    ▸ some_of is_digit
    ▸ some_of white
    ▸ re_time
    ▸ some_of white
    ▸ group (some_of name_byte)
    ▸ optional (bytes (codes ":") ▸ some_of is_digit)
    ▸ bytes (codes ":")
    ▸ group (some_of name_byte)
    ▸ bytes (codes ":")
    ▸ optional (byte white)
    ▸ group (many not_newline)
    ▸ stop

-- `nativeMessage`
pub record Native : Type 0 where
  pub time : Text
  pub source : Text
  pub function : Text
  pub text : Text

abbrev native_of : Option (List Text) → Option Native
native_of (some (t ∷ (s ∷ (f ∷ (x ∷ []))))) =
    some (record { time = t; source = s; function = f; text = x })
native_of _ = none

unfoldable pub parse_native_message : Text → Option Native
unfolding submatch
parse_native_message line = native_of (submatch re_native_line line)

abbrev pub comes_from : Text → Text → Native → Bool
comes_from source function n = eqb n.source source && eqb n.function function

abbrev timed : Option Text → Bool
timed none = false
timed (some rest) = matches re_time rest

abbrev restarts_natively : Option Native → Bool
restarts_natively none = false
restarts_natively (some n) =
    comes_from (codes "smqueue.cpp") (codes "main") n
    && has_prefix n.text (codes "smqueue (re)starting")

unfoldable pub is_restart_line : Text → Bool
unfolding submatch parse_native_message strip_prefix
is_restart_line line =
    timed (strip_prefix (codes "Starting at ") (trim_space line))
    || restarts_natively (parse_native_message line)

-- The loop of `restartPositions` over the lines left, from a position on.
unfoldable pub restarts_from : ℕ → List Text → List ℕ
restarts_from position [] = []
restarts_from position (l ∷ ls) =
    let rest = restarts_from (position + length l) ls in
    if is_restart_line (trim_newline l) then position ∷ rest else rest

unfoldable pub restart_positions : Text → List ℕ
unfolding restarts_from split_after
restart_positions log = restarts_from 0 (split_after log)

-- sort.Search on the restarts, which increase: the first one behind the position.
unfoldable pub generation_at : List ℕ → ℕ → ℕ
generation_at [] position = 0
generation_at (r ∷ rs) position =
    let later = generation_at rs position in if ltb position r then 0 else suc later

-- `positionedLine`
pub record Line : Type 0 where
  pub start : ℕ
  pub end : ℕ
  pub text : Text

-- Only the last piece can be empty, and it is skipped.
unfoldable pub lines_from : ℕ → List Text → List Line
lines_from position [] = []
lines_from position ([] ∷ ls) = lines_from position ls
lines_from position ((c ∷ l) ∷ ls) =
    record { start = position; end = position + length (c ∷ l); text = trim_newline (c ∷ l) }
    ∷ lines_from (position + length (c ∷ l)) ls

unfoldable pub log_lines : Text → List Line
unfolding lines_from split_after
log_lines log = lines_from 0 (split_after log)
