-- ===== src/Telephony/Concise.antt =====
-- internal/telephony/telephony.go: `ParseConcise`.
use gsm_system.Base.{
  ℕ, ◌==◌, Bool, false, not, ◌&&◌, ◌||◌, [], ◌∷◌, List, Option, none, some, any, if◌then◌else◌,
}
use gsm_system.Base.Text.{Text, codes, eqb, is_empty, is_digit, one_of, split, trim_space}
use gsm_system.Telephony.{nullable, non_negative_int}
use gsm_system.Sql.Rows.{unix_lines}

pub record ActiveCall : Type 0 where
  pub channel : Text
  pub context : Text
  pub extension : Text
  pub state : Text
  pub application : Text
  pub caller_id : Text
  pub duration_seconds : ℕ
  pub bridge_id : Option Text
  pub unique_id : Option Text

abbrev bootstrap_notice : Text
bootstrap_notice =
    codes "No ethernet interface found for seeding global EID. You will have to set it manually."

abbrev bang : ℕ
bang = b'!'

-- `nullableNative`
unfoldable pub nullable_native : Text → Option Text
nullable_native s =
    let t = trim_space s in
    if eqb t (codes "(None)") || eqb t (codes "<none>") then none else nullable t

-- The rest of `conciseSummary` after at least one digit.
abbrev summary_rest : Text → Bool
summary_rest t =
    one_of
      (codes " active channels"
        ∷ codes " active channel"
        ∷ codes " active calls"
        ∷ codes " active call"
        ∷ [])
      t

unfoldable pub after_digits : Text → Bool
after_digits [] = false
after_digits (c ∷ t) =
    let more = after_digits t in if is_digit c then more else summary_rest (c ∷ t)

-- `conciseSummary`: ^[0-9]+ active (?:channels?|calls?)$
unfoldable pub is_summary : Text → Bool
is_summary [] = false
is_summary (c ∷ t) = is_digit c && after_digits t

abbrev call_with :
    Text → Text → Text → Text → Text → Text → Option ℕ → Text → Text → Option ActiveCall
call_with channel context' extension state application caller none bridge unique = none
call_with channel context' extension state application caller (some n) bridge unique =
    some (record {
      channel = channel;
      context = context';
      extension = extension;
      state = state;
      application = application;
      caller_id = caller;
      duration_seconds = n;
      bridge_id = nullable_native bridge;
      unique_id = nullable_native unique;
    })

-- The fields of a row: 14 of them, with a duration that is a number.
unfoldable pub parse_fields : List Text → Option ActiveCall
parse_fields (f0 ∷ f1 ∷ f2 ∷ f3 ∷ f4 ∷ f5 ∷ f6 ∷ f7 ∷ f8 ∷ f9 ∷ f10 ∷ f11 ∷ f12 ∷ f13 ∷ []) =
    call_with f0 f1 f2 f4 f5 f7 (non_negative_int f11) f12 f13
parse_fields _ = none

pub data Line : Type 0 where
  skipped : Line
  refused : Line
  call : ActiveCall → Line

abbrev line_of : Option ActiveCall → Line
line_of none = refused
line_of (some c) = call c

-- One line of the output, after TrimSpace.
unfoldable pub parse_line : Text → Line
parse_line line =
    if eqb line bootstrap_notice || is_empty line
    then skipped
    else if not (any (λ c. c == bang) line)
    then (if is_summary line then skipped else refused)
    else line_of (parse_fields (split bang line))

abbrev add_line : Line → Option (List ActiveCall) → Option (List ActiveCall)
add_line skipped rest = rest
add_line refused rest = none
add_line (call c) none = none
add_line (call c) (some l) = some (c ∷ l)

unfoldable pub parse_lines : List Text → Option (List ActiveCall)
parse_lines [] = some []
parse_lines (line ∷ l) = add_line (parse_line (trim_space line)) (parse_lines l)

-- `ParseConcise`
unfoldable pub parse_concise : Text → Option (List ActiveCall)
parse_concise output = parse_lines (split 10 (unix_lines output))
