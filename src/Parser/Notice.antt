-- ===== src/Parser/Notice.antt =====
-- internal/parser/sms.go: the candidates that native log lines give, and the keyed records.
pub mod Structured
use gsm_system.Base.{
  ℕ, zero, suc, ◌+◌, Bool, true, false, not, ◌&&◌, ◌||◌, List, [], ◌∷◌, ◌++◌, Option, none, some,
  reverse, length, ltb, ◌%◌, ◌/◌, ◌==◌, if◌then◌else◌,
}
use gsm_system.Base.Text.{Text, codes, is_empty, trim_space, trim_set}
use gsm_system.Base.Utf8.{utf8_valid, hex_decode}
use gsm_system.Base.Regex.{
  Re, byte, many, group, start, stop, ◌▸◌, bytes, some_of, optional, white, non_white, not_newline,
  submatch,
}
use gsm_system.Parser.Native.{
  Native, comes_from, parse_native_message, is_restart_line, trim_newline, split_after,
  generation_at,
}
use gsm_system.Parser.Party.{Sms, empty_sms, parse_notice_party, trim_right}

-- `smsCandidate`
pub record Candidate : Type 0 where
  pub identity : Text
  pub position : ℕ
  pub sms : Sms
  pub structured : Bool

-- strconv.Itoa of a natural number; the first argument bounds the number of digits.
unfoldable pub digits_of : ℕ → ℕ → Text → Text
digits_of zero n acc = acc
digits_of (suc fuel) n acc =
    let longer = digits_of fuel (n / 10) ((n % 10 + b'0') ∷ acc) in
    if ltb n 10 then (n + b'0') ∷ acc else longer

unfoldable pub itoa : ℕ → Text
unfolding digits_of
itoa n = digits_of (suc n) n []

unfoldable pub scoped_identity : ℕ → Text → Text
unfolding itoa
scoped_identity generation qtag = itoa generation ++ (0 ∷ qtag)

-- [^'\r\n] and [^':\s]
abbrev tag_byte : ℕ → Bool
tag_byte c = not (c == 39 || c == 13 || c == 10)

abbrev key_byte : ℕ → Bool
key_byte c = not (c == 39 || c == b':' || white c)

abbrev quote : Re
quote = byte (λ c. c == 39)

abbrev pub re_got_sms : Re
re_got_sms =
    start
    ▸ bytes (codes "Got SMS rqst qtag ")
    ▸ quote
    ▸ group (some_of tag_byte)
    ▸ quote
    ▸ bytes (codes " from ")
    ▸ group (some_of non_white)
    ▸ bytes (codes " for ")
    ▸ group (some_of non_white)
    ▸ many white
    ▸ stop

abbrev pub re_keyed_text : Re
re_keyed_text =
    start
    ▸ bytes (codes "Decoded text")
    ▸ some_of white
    ▸ bytes (codes "qtag")
    ▸ Re.alt (bytes (codes "=")) (some_of white)
    ▸ optional quote
    ▸ group (some_of key_byte)
    ▸ optional quote
    ▸ many white
    ▸ bytes (codes ":")
    ▸ many white
    ▸ group (many not_newline)
    ▸ stop

abbrev pub re_structured : Re
re_structured =
    start
    ▸ bytes (codes "GSM_SMS_V1 qtag_hex=")
    ▸ group (many non_white)
    ▸ bytes (codes " from_hex=")
    ▸ group (many non_white)
    ▸ bytes (codes " to_hex=")
    ▸ group (many non_white)
    ▸ bytes (codes " text_hex=")
    ▸ group (many non_white)
    ▸ many white
    ▸ stop

-- One encoded value: too long, not hexadecimal, or not UTF-8.
abbrev checked_text : Option Text → Option Text
checked_text none = none
checked_text (some s) = if utf8_valid s then some s else none

unfoldable pub decode_value : ℕ → Text → Option Text
unfolding hex_decode utf8_valid
decode_value limit encoded =
    if ltb limit (length encoded) then none else checked_text (hex_decode encoded)

-- `structuredSMS`
pub record StructuredSms : Type 0 where
  pub qtag : Text
  pub sms : Sms

unfoldable pub structured_of :
    Text → Option Text → Option Text → Option Text → Option Text → Option StructuredSms
unfolding parse_notice_party
structured_of time (some (q ∷ qtag)) (some from) (some to) (some text) = some (record {
  qtag = q ∷ qtag;
  sms =
      parse_notice_party to false
        (parse_notice_party from true (record empty_sms { time = time; text = text }));
})
structured_of time _ _ _ _ = none

abbrev pub decode_all : Text → Option (List Text) → Option StructuredSms
decode_all time (some (q ∷ (f ∷ (t ∷ (x ∷ []))))) =
    structured_of time (decode_value 512 q) (decode_value 512 f) (decode_value 512 t)
      (decode_value 8192 x)
decode_all time _ = none

unfoldable pub parse_structured_sms : Text → Text → Option StructuredSms
unfolding submatch decode_value structured_of
parse_structured_sms message event_time = decode_all event_time (submatch re_structured message)

abbrev pub cut_party : ℕ → Bool
cut_party c = c == b'.' || c == b',' || c == b';'

abbrev pub observed : ℕ → ℕ → Text → Sms → Bool → Candidate
observed generation position qtag s keyed = record {
  identity = scoped_identity generation qtag;
  position = position;
  sms = s;
  structured = keyed;
}

abbrev pub got_sms : ℕ → ℕ → Text → Option (List Text) → List Candidate
got_sms generation position time (some (qtag ∷ (from ∷ (to ∷ [])))) =
    observed generation position qtag
      (parse_notice_party (trim_right cut_party to) false
        (parse_notice_party from true (record empty_sms { time = time })))
      false
    ∷ []
got_sms generation position time _ = []

abbrev pub structured_candidate : ℕ → ℕ → Option StructuredSms → List Candidate
structured_candidate generation position none = []
structured_candidate generation position (some s) =
    observed generation position s.qtag s.sms true ∷ []

abbrev pub keyed_text : ℕ → ℕ → Text → Option (List Text) → List Candidate
keyed_text generation position time (some (qtag ∷ (text ∷ []))) =
    observed generation position qtag (record empty_sms { time = time; text = trim_space text })
      false
    ∷ []
keyed_text generation position time _ = []

unfoldable pub notice_of : ℕ → ℕ → Option Native → List Candidate
unfolding submatch scoped_identity parse_notice_party parse_structured_sms trim_space trim_set
notice_of generation position none = []
notice_of generation position (some n) =
    if comes_from (codes "smqueue.cpp") (codes "main_loop") n
    then got_sms generation position n.time (submatch re_got_sms n.text)
    else if comes_from (codes "smsc.cpp") (codes "submitSMS") n
    then structured_candidate generation position (parse_structured_sms n.text n.time)
    else if comes_from (codes "smqueue.h") (codes "get_text") n
    then keyed_text generation position n.time (submatch re_keyed_text n.text)
    else []

-- The candidate of one line, if it gives one; a restart line gives none.
unfoldable pub notice_line : List ℕ → ℕ → Text → List Candidate
unfolding is_restart_line notice_of parse_native_message generation_at
notice_line restarts position line =
    if is_restart_line line
    then []
    else notice_of (generation_at restarts position) position (parse_native_message line)

unfoldable pub notices_from : List ℕ → ℕ → List Text → List Candidate
unfolding notice_line
notices_from restarts position [] = []
notices_from restarts position (l ∷ ls) =
    notice_line restarts position (trim_newline l) ++ notices_from restarts (position + length l) ls

unfoldable pub parse_notice_events : Text → List ℕ → List Candidate
unfolding notices_from split_after
parse_notice_events log restarts = notices_from restarts 0 (split_after log)
