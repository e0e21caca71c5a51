-- ===== src/Api/Identity.antt =====
-- internal/api/v1.go: the current bindings that complete the parties of a message, and where each
-- of its four identities comes from.
pub mod Honest
use gsm_system.Base.{
  ℕ, zero, suc, ◌+◌, ◌==◌, Bool, true, false, not, ◌&&◌, ◌||◌, [], ◌∷◌, List, Option, none, some,
  if◌then◌else◌,
}
use gsm_system.Base.Text.{Text, codes, eqb, is_empty, one_of}
use gsm_system.Base.Map.{find, put}
use gsm_system.Subscriber.Snapshot.{Subscriber}
use gsm_system.Parser.Party.{Sms}
use gsm_system.Parser.Tmsi.{trim_prefix}

abbrev pub service_codes : List Text
service_codes =
    codes "101"
    ∷ codes "411"
    ∷ codes "111"
    ∷ codes "112"
    ∷ codes "911"
    ∷ codes "2600"
    ∷ codes "2602"
    ∷ []

-- `isSMSServiceCode`
unfoldable pub is_sms_service_code : Text → Bool
is_sms_service_code number = one_of service_codes (trim_prefix (codes "+") number)

-- imsiCount[imsi] and numberCount[number]
unfoldable pub imsi_count : Text → List Subscriber → ℕ
imsi_count imsi [] = 0
imsi_count imsi (s ∷ l) = (if eqb s.imsi imsi then 1 else 0) + imsi_count imsi l

abbrev pub is_numbered : Text → Option Text → Bool
is_numbered number none = false
is_numbered number (some n) = eqb n number

unfoldable pub number_count : Text → List Subscriber → ℕ
number_count number [] = 0
number_count number (s ∷ l) = (if is_numbered number s.number then 1 else 0) + number_count number l

-- `smsBindingIndex`
pub record BindingIndex : Type 0 where
  pub by_imsi : List (Text × Text)
  pub by_number : List (Text × Text)

abbrev pub is_one_to_one : List Subscriber → Subscriber → Text → Bool
is_one_to_one registered s n =
    s.consistent
    && not (is_empty n)
    && (imsi_count s.imsi registered == 1)
    && (number_count n registered == 1)
    && not (is_sms_service_code n)

abbrev pub add_binding : Text → Text → BindingIndex → BindingIndex
add_binding imsi number index = record {
  by_imsi = put imsi number index.by_imsi;
  by_number = put number imsi index.by_number;
}

abbrev pub index_entry : List Subscriber → Subscriber → Option Text → BindingIndex → BindingIndex
index_entry registered s none index = index
index_entry registered s (some n) index =
    if is_one_to_one registered s n then add_binding s.imsi n index else index

-- The second loop.
unfoldable pub index_entries : List Subscriber → List Subscriber → BindingIndex → BindingIndex
index_entries registered [] index = index
index_entries registered (s ∷ l) index =
    index_entries registered l (index_entry registered s s.number index)

abbrev pub no_bindings : BindingIndex
no_bindings = record { by_imsi = []; by_number = [] }

unfoldable pub new_sms_binding_index : List Subscriber → BindingIndex
new_sms_binding_index registered = index_entries registered registered no_bindings

pub data Provenance : Type 0 where
  unknown log_observation current_binding : Provenance

-- One party: its number and IMSI, each with where it comes from.
pub record Party : Type 0 where
  pub number : Text
  pub imsi : Text
  pub number_from : Provenance
  pub imsi_from : Provenance

abbrev pub number_found : Option Text → Party → Party
number_found none p = p
number_found (some n) p = record p { number = n; number_from = current_binding }

abbrev pub imsi_found : Option Text → Party → Party
imsi_found none p = p
imsi_found (some i) p = record p { imsi = i; imsi_from = current_binding }

-- `resolveSMSParty`
unfoldable pub resolve_sms_party : BindingIndex → Party → Party
resolve_sms_party index p =
    if is_empty p.number && not (is_empty p.imsi)
    then number_found (find p.imsi index.by_imsi) p
    else if is_empty p.imsi && not (is_empty p.number) && not (is_sms_service_code p.number)
    then imsi_found (find p.number index.by_number) p
    else p

abbrev pub seen_in_log : Text → Provenance
seen_in_log [] = unknown
seen_in_log (_ ∷ _) = log_observation

abbrev pub party_seen : Text → Text → Party
party_seen number imsi = record {
  number = number;
  imsi = imsi;
  number_from = seen_in_log number;
  imsi_from = seen_in_log imsi;
}

-- The message and the four entries of the map that `smsIdentityResolution` returns.
pub record Resolved : Type 0 where
  pub message : Sms
  pub sender : Party
  pub receiver : Party

unfoldable pub sms_identity_resolution : Sms → BindingIndex → Resolved
unfolding resolve_sms_party
sms_identity_resolution m index =
    let sender = resolve_sms_party index (party_seen m.sender_number m.sender_imsi) in
    let receiver = resolve_sms_party index (party_seen m.receiver_number m.receiver_imsi) in
    record {
      message = record m {
        sender_number = sender.number;
        sender_imsi = sender.imsi;
        receiver_number = receiver.number;
        receiver_imsi = receiver.imsi;
      };
      sender = sender;
      receiver = receiver;
    }
