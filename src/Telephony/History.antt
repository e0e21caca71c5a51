-- ===== src/Telephony/History.antt =====
-- internal/telephony/telephony.go: which part of the call records `HistoryInLocation` parses.
-- The time zone, the parsing of the chosen records and the cancellation of the request are left.
use gsm_system.Base.{
  ℕ, zero, suc, ◌-◌, ◌*◌, ◌^◌, ◌==◌, ltb, Bool, true, false, not, ◌&&◌, [], ◌∷◌, Option, none, some,
  length, drop, if◌then◌else◌,
}
use gsm_system.Base.Text.{Text}

abbrev pub quote_mark : ℕ
quote_mark = b'"'

abbrev pub flip_if : Bool → Bool → Bool
flip_if true b = not b
flip_if false b = b

abbrev pub found : Bool → Option ℕ → Option ℕ
found true later = some 1
found false none = none
found false (some i) = some (suc i)

-- The scan from the end: whether the text after a point leaves a quote open, and the first record
-- start found, as an index into the text. A record start is not at the very end.
unfoldable pub scan_back : Text → Bool × Option ℕ
scan_back [] = (false, none)
scan_back (c ∷ t) =
    let (in_quotes, earliest) = scan_back t in
    (
      flip_if (c == quote_mark) in_quotes,
      found (c == 10 && (not in_quotes && ltb 0 (length t))) earliest,
    )

-- `firstSafeCSVBoundary`
unfoldable pub first_safe_csv_boundary : Text → Option ℕ
first_safe_csv_boundary t = (scan_back t).1

-- 64 << 20
abbrev pub max_history_window_bytes : ℕ
max_history_window_bytes = 64 * 2 ^ 20

pub data HistoryError : Type 0 where
  not_positive too_large incomplete_record : HistoryError

pub data Records : Type 0 where
  refused : HistoryError → Records
  records : Text → Bool → Records

-- The last byte is missing or a newline.
abbrev pub ends_record : Text → Bool
ends_record [] = true
ends_record (c ∷ []) = c == 10
ends_record (c ∷ d ∷ t) = ends_record (d ∷ t)

abbrev from_boundary : Text → Option ℕ → Text
from_boundary t none = []
from_boundary t (some i) = drop i t

abbrev cut_records : Text → Records
cut_records t =
    if not (ends_record t)
    then refused incomplete_record
    else records (from_boundary t (first_safe_csv_boundary t)) true

-- The bytes that are parsed, and whether the window was truncated; `content` is the file, which
-- keeps its size while it is read.
unfoldable pub select_records : ℕ → Text → Records
select_records zero content = refused not_positive
select_records (suc n) content =
    if ltb max_history_window_bytes (suc n)
    then refused too_large
    else if ltb (suc n) (length content)
    then cut_records (drop (length content - suc n) content)
    else records content false
