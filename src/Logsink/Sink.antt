-- ===== src/Logsink/Sink.antt =====
-- internal/logsink/sink.go: the syslog collector's choice of a file and its receive loop.
-- The socket and the goroutine are left out: `receive` is given the datagrams in their order.
use gsm_system.Base.{
  ℕ, suc, ◌*◌, ◌^◌, Bool, false, not, ◌&&◌, ◌||◌, List, [], ◌∷◌, ◌++◌, reverse, Option, none, some,
  length, ltb, ◌==◌, any, if◌then◌else◌,
}
use gsm_system.Base.Text.{Text, codes, eqb, is_empty, is_digit, lower, trim_set}
use gsm_system.Logsink.Store.{Logs, Faults, append_log}

-- 64 << 10
abbrev pub max_message_bytes : ℕ
max_message_bytes = 64 * 2 ^ 10

-- The check of `StartWithSmqueueLog` on its file name: a plain name.
unfoldable pub valid_log_name : Text → Bool
valid_log_name name = not (
    is_empty name
    || eqb name (codes ".")
    || eqb name (codes "..")
    || any (λ c. c == b'/' || c == b'\\') name)

-- `\s` of the regexp package
abbrev regexp_space : ℕ → Bool
regexp_space c = c == 32 || c == 9 || c == 10 || c == 12 || c == 13

-- What is left behind the name `p` under `(?i)`; the fold of "s" includes U+017F, bytes 0xc5 0xbf.
unfoldable pub strip_fold : Text → Text → Option Text
strip_fold [] s = some s
strip_fold (a ∷ p) [] = none
strip_fold (a ∷ p) (b ∷ []) = if lower b == a then strip_fold p [] else none
strip_fold (a ∷ p) (b ∷ (c ∷ s)) =
    let plain = strip_fold p (c ∷ s) in
    let long_s = strip_fold p s in
    if lower b == a then plain else if a == b's' && b == 0xc5 && c == 0xbf then long_s else none

-- `[0-9]*\]:` behind at least one digit
unfoldable pub closes_pid : Text → Bool
closes_pid [] = false
closes_pid (c ∷ s) =
    if is_digit c then closes_pid s else c == b']' && elim s [ [] ↦ false | d ∷ _ ↦ d == b':' ]

-- `(?:\[[0-9]+\])?:`
unfoldable pub closes_tag : Text → Bool
unfolding closes_pid
closes_tag [] = false
closes_tag (c ∷ s) =
    c == b':' || c == b'[' && elim s [ [] ↦ false | d ∷ rest ↦ is_digit d && closes_pid rest ]

pub data Tag : Type 0 where
  smqueue openbts : Tag

abbrev tag_named : Text → Text → Bool
tag_named name s = elim (strip_fold name s) [ none ↦ false | some rest ↦ closes_tag rest ]

-- A tag that starts right here.
unfoldable pub tag_here : Text → Option Tag
unfolding strip_fold closes_tag
tag_here s =
    if tag_named (codes "smqueue") s
    then some smqueue
    else if tag_named (codes "openbts") s
    then some openbts
    else none

-- The leftmost tag behind a white-space byte.
unfoldable pub tag_after_space : Text → Option Tag
unfolding tag_here
tag_after_space [] = none
tag_after_space (c ∷ s) =
    let rest = tag_after_space s in
    if regexp_space c then elim (tag_here s) [ some t ↦ some t | none ↦ rest ] else rest

-- tagPattern.FindStringSubmatch(line)[1]
unfoldable pub find_tag : Text → Option Tag
unfolding tag_after_space
find_tag line = elim (tag_here line) [ some t ↦ some t | none ↦ tag_after_space line ]

-- `logName`
unfoldable pub log_name : Text → Text
unfolding find_tag
log_name line = elim (find_tag line) [
  | some smqueue ↦ codes "smqueue.log"
  | some openbts ↦ codes "openbts-syslog.log"
  | none ↦ codes "system.log"
]

-- The private directory: the log and backup of each file name.
abbrev pub Dir : Type 0
Dir = Text → Logs

abbrev pub update : Dir → Text → Logs → Dir
update d name s = λ other. if eqb other name then s else d other

-- The file of `appendMessage`, with the configured name of the smqueue log.
unfoldable pub target_name : Text → Text → Text
unfolding log_name
target_name smqueue_log_name line =
    let name = log_name line in
    if eqb name (codes "smqueue.log") && not (is_empty smqueue_log_name)
    then smqueue_log_name
    else name

-- `appendMessage`; its error is only logged.
unfoldable pub append_message : Text → ℕ → Faults → Text → Dir → Dir
append_message smqueue_log_name limit f line d =
    let name = target_name smqueue_log_name line in
    update d name (append_log limit f (line ++ b'\n' ∷ []) (d name)).0

abbrev is_line_end : ℕ → Bool
is_line_end c = c == 0 || c == 13 || c == 10

-- strings.TrimRight(line, "\x00\r\n")
unfoldable pub trim_right : Text → Text
unfolding trim_set
trim_right s = reverse (trim_set is_line_end (reverse s))

-- One round of `receive`.
unfoldable pub receive_one : Text → ℕ → Faults → Text → Dir → Dir
receive_one smqueue_log_name limit f datagram d =
    let line = trim_right datagram in
    if ltb max_message_bytes (length datagram)
    then d
    else if is_empty line
    then d
    else append_message smqueue_log_name limit f line d

unfoldable pub receive : Text → ℕ → (ℕ → Faults) → List Text → Dir → Dir
receive name limit f [] d = d
receive name limit f (datagram ∷ rest) d =
    receive name limit (λ i. f (suc i)) rest (receive_one name limit (f 0) datagram d)
