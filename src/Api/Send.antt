-- ===== src/Api/Send.antt =====
-- internal/api/v1.go and internal/api/helpers.go: the submission of a message to OpenBTS.
-- `fold` is what unicode.ToLower makes of one rune above 127.
pub mod Command
use gsm_system.Base.{
  Bool, true, false, not, ◌&&◌, ◌||◌, [], ◌∷◌, ◌++◌, List, Option, none, some, length, any, all,
  ltb, ◌==◌, ℕ, if◌then◌else◌,
}
use gsm_system.Base.Text.{Text, codes, is_empty, contains, trim_space}
use gsm_system.Gsm.Params.{valid_imsi, valid_number}
use gsm_system.Parser.Tmsi.{lower_text}
use gsm_system.Api.Cell.{Code}

-- What a native command leaves: its output, and whether it failed (or could not be run).
pub record CliExit : Type 0 where
  pub output : Text
  pub failed : Bool

abbrev failure_markers : List Text
failure_markers =
    codes "no such command" ∷ codes "unable to connect" ∷ codes "command not found" ∷ []

-- `runCLIContext` of a binary with this name: the output, or `none` for an error.
unfoldable pub run_cli_context : (Text → Text) → Text → CliExit → Option Text
unfolding lower_text trim_space contains
run_cli_context fold bin exit =
    if is_empty (trim_space bin) || exit.failed
    then none
    else if any (λ marker. contains (lower_text fold exit.output) marker) failure_markers
    then none
    else some exit.output

-- The letters, digits and signs of `safe`.
abbrev pub safe_character : ℕ → Bool
safe_character c =
    any (λ d. d == c)
      (codes "@!#$%&()*+,-./0123456789:;<=>?ABCDEFGHIJKLMNOPQRSTUVWXYZ_abcdefghijklmnopqrstuvwxyz ")

pub data TextReason : Type 0 where
  required at_most_159_bytes unsafe_character : TextReason

-- `validateSMSText`: a rune outside ASCII is none of the safe ones, and neither are its bytes.
unfoldable pub validate_sms_text : Text → Option TextReason
validate_sms_text text =
    if is_empty text
    then some required
    else if ltb 159 (length text)
    then some at_most_159_bytes
    else if all safe_character text
    then none
    else some unsafe_character

pub record SmsRequest : Type 0 where
  pub imsi : Text
  pub sender : Text
  pub text : Text

pub data SendField : Type 0 where
  imsi_field sender_field : SendField
  text_field : TextReason → SendField

abbrev text_issue : Option TextReason → List SendField
text_issue none = []
text_issue (some r) = text_field r ∷ []

unfoldable pub send_issues : SmsRequest → List SendField
unfolding valid_imsi valid_number validate_sms_text
send_issues b =
    (if valid_imsi b.imsi then [] else imsi_field ∷ [])
    ++ ((if valid_number b.sender then [] else sender_field ∷ [])
        ++ text_issue (validate_sms_text b.text))

-- The answer: its code, the fields that are refused, and the command that was given to OpenBTS.
pub record SendReply : Type 0 where
  pub code : Code
  pub issues : List SendField
  pub command : Option Text

abbrev pub send_command : SmsRequest → Text
send_command b =
    codes "sendsms "
    ++ (b.imsi ++ (codes " " ++ (b.sender ++ (codes " \"" ++ (b.text ++ codes "\"")))))

abbrev submitted : Option Text → Code
submitted none = Code.internal
submitted (some output) =
    if contains output (codes "message submitted for delivery") then Code.ok else Code.internal

abbrev pub refuse_send : Code → List SendField → SendReply
refuse_send c issues = record { code = c; issues = issues; command = none }

module _ (fold : Text → Text) (bin : Text) (cli : Text → CliExit) where
  abbrev pub send_checked : Bool → SmsRequest → List SendField → SendReply
  send_checked sms_ready b (i ∷ l) = refuse_send Code.refused (i ∷ l)
  send_checked sms_ready b [] =
      if sms_ready
      then record {
        code = submitted (run_cli_context fold bin (cli (send_command b)));
        issues = [];
        command = some (send_command b);
      }
      else refuse_send Code.precondition []

  -- `handleSMSSend` of a body, or of the code of a body that could not be decoded.
  unfoldable pub handle_sms_send : Code → Bool → SmsRequest → SendReply
  unfolding run_cli_context send_issues contains
  handle_sms_send Code.ok sms_ready b = send_checked sms_ready b (send_issues b)
  handle_sms_send c sms_ready b = refuse_send c []
