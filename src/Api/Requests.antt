-- ===== src/Api/Requests.antt =====
-- Requests to the API on concrete inputs.
use gsm_system.Base.{◌≡◌, refl, ◌↔◌, true, false, [], ◌∷◌, List, none, some}
use gsm_system.Base.Text.{Text, codes, eqb, contains, strip_prefix, split}
use gsm_system.Base.Number.{is_digits}
use gsm_system.Gsm.Params.{valid_number}
use gsm_system.Gsm.Params.Tests.{addx}
use gsm_system.Gsm.Presets.{Preset, valid_preset}
use gsm_system.Gsm.Manager.Tests.{idle, nothing_seen}
use gsm_system.NetworkRule.Tests.{list_iptables, list_append_adds}
use gsm_system.Subscriber.Snapshot.{Subscriber}
use gsm_system.Subscriber.Tests.{bind_env, bind_answers}
use gsm_system.Parser.Party.{Sms}
use gsm_system.Api.Cell.{Code}
use gsm_system.Api.Identity.{sms_identity_resolution, new_sms_binding_index}
use gsm_system.Api.Identity.Honest.{AnswersHonestly, sms_identity_resolution-IsHonest}
use gsm_system.Api.Send.{CliExit, SmsRequest, handle_sms_send}
use gsm_system.Api.Send.Command.{OnCommand, handle_sms_send-IsSafe}
use gsm_system.Api.Writes.{handle_network_put, handle_subscriber_bind, validate_preset_request}
use gsm_system.Api.Writes.Guarded.{
  IsGuarded, AcceptsBinding, is_ok, handle_network_put-IsGuarded,
  handle_subscriber_bind-AcceptsBinding,
}
use gsm_system.Api.Writes.Agree.{validate_preset_request_iff}
use gsm_system.Api.Route.{get, delete, Handler, handled, not_allowed, put, serve_v1}
use gsm_system.Gsm.Params.{valid_imsi}
use gsm_system.Api.Route.Reached.{OnHandled, names_valid}
use gsm_system.Api.Route.Exact.{serve_v1-IsAt}
use gsm_system.Api.Route.Addresses.{verb, address, serve_v1-verb}

abbrev subscribers : List Subscriber
subscribers =
    record { imsi = codes "001010000000001"; number = some (codes "2101"); consistent = true }
    ∷ record { imsi = codes "001010000000002"; number = none; consistent = true }
    ∷ []

abbrev from_number : Sms
from_number = record {
  time = codes "2024-01-02T03:04:05";
  text = codes "hi";
  sender_number = codes "2101";
  sender_imsi = [];
  receiver_number = codes "411";
  receiver_imsi = [];
}

sms_identity_resolution-IsHonest_example :
    AnswersHonestly subscribers from_number
      (sms_identity_resolution from_number (new_sms_binding_index subscribers))
sms_identity_resolution-IsHonest_example = sms_identity_resolution-IsHonest subscribers from_number

abbrev same_rune : Text → Text
same_rune rune = rune

abbrev cli : Text → CliExit
cli command = record { output = codes "message submitted for delivery"; failed = false }

abbrev hello : SmsRequest
hello = record { imsi = codes "001010000000001"; sender = codes "2101"; text = codes "hello" }

hello_sent : handle_sms_send same_rune (codes "OpenBTSCLI") cli Code.ok true hello ≡ record {
  code = Code.ok;
  issues = [];
  command = some (codes "sendsms 001010000000001 2101 \"hello\"");
}
unfolding handle_sms_send contains strip_prefix is_digits
hello_sent = refl

handle_sms_send-IsSafe_example :
    OnCommand true hello
      (handle_sms_send same_rune (codes "OpenBTSCLI") cli Code.ok true hello).command
handle_sms_send-IsSafe_example =
    handle_sms_send-IsSafe same_rune (codes "OpenBTSCLI") cli Code.ok true hello

handle_network_put-IsGuarded_example :
    IsGuarded list_iptables nothing_seen idle
      (codes " eth0 ")
      []
      (handle_network_put list_iptables nothing_seen idle Code.ok (codes " eth0 ") [])
handle_network_put-IsGuarded_example =
    handle_network_put-IsGuarded list_iptables list_append_adds nothing_seen idle Code.ok
      (codes " eth0 ") []

bind_accepted : is_ok (handle_subscriber_bind false bind_env Code.ok (codes "2101")).0 ≡ true
unfolding handle_subscriber_bind eqb valid_number is_digits
bind_accepted = rw bind_answers refl

handle_subscriber_bind-AcceptsBinding_example :
    AcceptsBinding bind_env
      (codes "2101")
      (handle_subscriber_bind false bind_env Code.ok (codes "2101")).1
handle_subscriber_bind-AcceptsBinding_example =
    handle_subscriber_bind-AcceptsBinding false bind_env (codes "2101") bind_accepted

abbrev rural : Preset
rural = record { id = codes "rural"; name = codes "Rural"; description = []; params = addx }

validate_preset_request_iff_example :
    (validate_preset_request rural true ≡ []) ↔ (valid_preset rural ≡ true)
validate_preset_request_iff_example = validate_preset_request_iff rural

abbrev number_path : Text
number_path = codes "/api/v1/subscribers/001010000000001/number"

number_routes :
    (serve_v1 put number_path true ≡ handled (Handler.subscriber_bind (codes "001010000000001")))
    × (serve_v1 get number_path true ≡ not_allowed (put ∷ delete ∷ []))
unfolding serve_v1 eqb strip_prefix split is_digits
number_routes = (refl, refl)

unbind_valid : names_valid (Handler.subscriber_unbind (codes "001010000000001")) ≡ true
unfolding is_digits valid_imsi
unbind_valid = refl

serve_v1-verb_example :
    serve_v1
      (verb (Handler.subscriber_unbind (codes "001010000000001")))
      (address (Handler.subscriber_unbind (codes "001010000000001")))
      true
    ≡ handled (Handler.subscriber_unbind (codes "001010000000001"))
serve_v1-verb_example =
    serve_v1-verb (Handler.subscriber_unbind (codes "001010000000001")) unbind_valid

serve_v1-IsAt_example :
    OnHandled
      (λ h. (delete ≡ verb h) × (number_path ≡ address h))
      (serve_v1 delete number_path true)
serve_v1-IsAt_example = serve_v1-IsAt delete number_path true
