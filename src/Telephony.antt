-- ===== src/Telephony.antt =====
-- internal/telephony/telephony.go: active calls from Asterisk's concise output, and the tail of the
-- call records.
pub mod Concise
pub mod History
pub mod Boundary
mod Tests
use gsm_system.Base.{Bool, true, false, [], ◌∷◌, Option, none, some, if◌then◌else◌}
use gsm_system.Base.Text.{Text, codes, eqb, is_empty, trim_space}
use gsm_system.Base.Number.{ℤ, pos, negsuc, atoi}
use gsm_system.Base.{ℕ}

-- `nullable`
abbrev pub nullable : Text → Option Text
nullable [] = none
nullable (c ∷ t) = some (c ∷ t)

abbrev non_negative : Option ℤ → Option ℕ
non_negative none = none
non_negative (some (pos n)) = some n
non_negative (some (negsuc n)) = none

-- `nonNegativeInt`
unfoldable pub non_negative_int : Text → Option ℕ
non_negative_int s = non_negative (atoi (trim_space s))
