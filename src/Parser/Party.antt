-- ===== src/Parser/Party.antt =====
-- internal/parser/sms.go: one decoded message, its parties, and how two reports of it are joined.
use gsm_system.Base.{
  ℕ, zero, suc, ◌+◌, Bool, true, false, ◌||◌, List, [], ◌∷◌, Option, none, some, reverse, drop,
  take, ◌==◌, if◌then◌else◌,
}
use gsm_system.Base.Text.{Text, codes, is_digit, has_prefix, index_of, trim_space, trim, trim_set}
use gsm_system.Base.Utf8.{fields}
use gsm_system.Base.Regex.{
  Re, byte, group, start, stop, ◌▸◌, bytes, times, optional, submatch, matches,
}

-- `SMS`; an empty text stands for a missing value.
pub record Sms : Type 0 where
  pub time : Text
  pub text : Text
  pub sender_number : Text
  pub sender_imsi : Text
  pub receiver_number : Text
  pub receiver_imsi : Text

abbrev pub empty_sms : Sms
empty_sms = record {
  time = [];
  text = [];
  sender_number = [];
  sender_imsi = [];
  receiver_number = [];
  receiver_imsi = [];
}

abbrev pub re_imsi : Re
re_imsi = start ▸ bytes (codes "IMSI") ▸ group (times 15 is_digit) ▸ stop

-- p{2,15}, as many as there are
abbrev up_to : ℕ → Re
up_to zero = Re.empty
up_to (suc n) = optional (byte is_digit ▸ up_to n)

abbrev pub re_number : Re
re_number = start ▸ optional (bytes (codes "+")) ▸ times 2 is_digit ▸ up_to 13 ▸ stop

abbrev pub Side : Type 0
Side = Bool

abbrev pub set_imsi : Bool → Text → Sms → Sms
set_imsi true v s = record s { sender_imsi = v }
set_imsi false v s = record s { receiver_imsi = v }

abbrev pub set_number : Bool → Text → Sms → Sms
set_number true v s = record s { sender_number = v }
set_number false v s = record s { receiver_number = v }

abbrev pub party_of : Option (List Text) → Bool → Text → Bool → Sms → Sms
party_of (some (imsi ∷ [])) numeric value sender s = set_imsi sender imsi s
party_of _ numeric value sender s = if numeric then set_number sender value s else s

-- `parseNoticeParty`; the flag is true for the sender.
unfoldable pub parse_notice_party : Text → Bool → Sms → Sms
unfolding submatch
parse_notice_party value sender s =
    party_of (submatch re_imsi value) (matches re_number value) value sender s

-- `a` unless it is empty.
abbrev pub or_else : Text → Text → Text
or_else [] b = b
or_else (c ∷ a) b = c ∷ a

unfoldable pub merge_sms : Sms → Sms → Sms
merge_sms target incoming = record {
  time = or_else target.time incoming.time;
  text = or_else target.text incoming.text;
  sender_number = or_else target.sender_number incoming.sender_number;
  sender_imsi = or_else target.sender_imsi incoming.sender_imsi;
  receiver_number = or_else target.receiver_number incoming.receiver_number;
  receiver_imsi = or_else target.receiver_imsi incoming.receiver_imsi;
}

unfoldable pub apply_structured_sms : Sms → Sms → Sms
apply_structured_sms target incoming = record incoming { time = or_else target.time incoming.time }

-- strings.TrimRight(s, cutset)
abbrev pub trim_right : (ℕ → Bool) → Text → Text
trim_right cut s = reverse (trim_set cut (reverse s))

abbrev angle : ℕ → Bool
angle c = c == b'<' || c == b'>'

abbrev behind : Option ℕ → Text → Text
behind none s = s
behind (some i) s = drop (i + 1) s

abbrev ahead : Option ℕ → Text → Text
ahead none s = s
ahead (some i) s = take i s

abbrev first_or : List Text → Text → Text
first_or [] s = s
first_or (f ∷ _) s = f

abbrev before_at : Text → Text
before_at s = ahead (index_of s (codes "@")) s

abbrev bare_number : Text → Text
bare_number raw =
    if has_prefix raw (codes "<")
    then before_at (behind (index_of (trim angle raw) (codes ":")) (trim angle raw))
    else trim angle (first_or (fields raw) raw)

unfoldable pub clean_number : Text → Text
unfolding trim_space fields index_of trim
clean_number raw = trim_space (bare_number (trim_space raw))
