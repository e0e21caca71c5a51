-- ===== src/Gsm/Sms.antt =====
-- internal/gsm/sms_session.go: cursors into the SMS log and the span of the log between two of them.
-- A log may be written, rotated or removed while it is read, so an open file is what the calls of
-- each phase of `readSMSSpanOnce` observe of it; an observation `none` is a failing system call.
pub mod Span
pub mod Session
pub mod Bounds
pub mod Lines
pub mod Window
pub mod Lost
mod Tests
use gsm_system.Base.{
  ℕ, zero, suc, ◌+◌, ◌-◌, ◌≤◌, ◌==◌, ltb, leb, Bool, true, false, not, ◌&&◌, [], ◌∷◌, Option, none,
  some, length, take, drop, if◌then◌else◌,
}
use gsm_system.Base.Text.{Text, eqb}

-- `smsCursor`: the identity of a file, a length of it, and the last bytes before that length.
pub record Cursor : Type 0 where
  pub ino : ℕ
  pub offset : ℕ
  pub anchor : Text

-- `ReadAt` of `n` bytes at `off`, an error when the file ends before them.
abbrev pub read_at : ℕ → ℕ → Text → Option Text
read_at n off t = if leb (off + n) (length t) then some (take n (drop off t)) else none

abbrev pub anchor_size : ℕ → ℕ
anchor_size size = if ltb 256 size then 256 else size

abbrev with_anchor : ℕ → ℕ → Option Text → Option Cursor
with_anchor ino size none = none
with_anchor ino size (some a) = some (record { ino = ino; offset = size; anchor = a })

-- `smsMark` of a file with the given identity, kind and contents.
unfoldable pub sms_mark : ℕ → Bool → Option Text → Option Cursor
sms_mark ino is_regular none = none
sms_mark ino false (some t) = none
sms_mark ino true (some t) =
    let n = anchor_size (length t) in with_anchor ino (length t) (read_at n (length t - n) t)

abbrev same_anchor : Text → Option Text → Bool
same_anchor a none = false
same_anchor a (some b) = eqb b a

-- `smsCursor.valid`: the same file, at least as long, with the same bytes before the offset.
unfoldable pub valid : Cursor → ℕ → Option Text → Bool
valid c ino none = false
valid c ino (some t) =
    ino == c.ino
    && not (ltb (length t) c.offset)
    && same_anchor c.anchor (read_at (length c.anchor) (c.offset - length c.anchor) t)
