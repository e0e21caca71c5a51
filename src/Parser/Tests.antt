-- ===== src/Parser/Tests.antt =====
-- The parsers on small logs.
use gsm_system.Base.{
  ◌≡◌, refl, true, false, List, [], ◌∷◌, ◌++◌, Option, none, some, map, all, All, All-of_all, drop,
  take, ltb, ◌<◌, if◌then◌else◌, arith,
}
use gsm_system.Base.Text.{Text, codes, contains, eqb, trim_space, strip_prefix, is_empty, split}
use gsm_system.Base.Number.{is_digits}
use gsm_system.Base.Map.{find}
use gsm_system.Base.Utf8.{IsByte, utf8_valid}
use gsm_system.Parser.Native.{trim_newline, parse_native_message, is_restart_line}
use gsm_system.Parser.Party.{empty_sms, parse_notice_party, clean_number}
use gsm_system.Parser.Merge.{parse_smqueue_log, candidates_of}
use gsm_system.Parser.Merge.Laws.{once, identities_of}
use gsm_system.Parser.Merge.Summary.{told, about, parse_smqueue_log-told}
use gsm_system.Parser.Imsi.{parse_smqueue_log-HaveImsis}
use gsm_system.Parser.Imsi.Notices.{HasImsis}
use gsm_system.Parser.Notice.{parse_structured_sms}
use gsm_system.Parser.Notice.Structured.{CanSend, record_line, parse_structured_sms-record_line}
use gsm_system.Parser.Delivery.{Event, request, decoded, request_indexes, associate}
use gsm_system.Parser.Delivery.Association.{
  Evidenced, text_for, associate-text_for, associate-Evidenced,
}
use gsm_system.Parser.Tmsi.{Ue, phone_identity, parse_tmsis}
use gsm_system.Parser.Tmsi.Rows.{IsUe}
use gsm_system.Parser.Tmsi.Total.{parse_tmsis-AreUes}
use gsm_system.Parser.Sgsn.{parse_sgsn, observations, assigned, find-parse_sgsn}

line_test :
    parse_native_message
      (codes "NOTICE 12:34 2024-01-02T03:04:05.6 smqueue.cpp:2100:main_loop: Got it")
    ≡ some (record {
      time = codes "2024-01-02T03:04:05.6";
      source = codes "smqueue.cpp";
      function = codes "main_loop";
      text = codes "Got it";
    })
unfolding parse_native_message
line_test = refl

syslog_test :
    parse_native_message (
      codes
        "<133>Jan  2 03:04:05 gsm smqueue: INFO 1:2 2024-01-02T03:04:05 smqueue.h:7:get_text: Decoded text: hi")
    ≡ some (record {
      time = codes "2024-01-02T03:04:05";
      source = codes "smqueue.h";
      function = codes "get_text";
      text = codes "Decoded text: hi";
    })
unfolding parse_native_message
syslog_test = refl

restart_test : is_restart_line (codes " Starting at 2024-01-02T03:04:05 ") ≡ true
unfolding is_restart_line trim_space
restart_test = refl

number_test : clean_number (codes "<sip:1001@127.0.0.1>") ≡ codes "1001"
unfolding clean_number strip_prefix
number_test = refl

two_reports : Text
two_reports =
    codes
      "NOTICE 1:2 2024-01-02T03:04:05 smqueue.cpp:2:main_loop: Got SMS rqst qtag '7--a' from IMSI001010000000001 for 1001.\r\n"
    ++ codes
        "NOTICE 1:2 2024-01-02T03:04:06 smsc.cpp:2:submitSMS: GSM_SMS_V1 qtag_hex=372d2d61 from_hex=31303031 to_hex=31303032 text_hex=6869\n"

two_reports_test :
    parse_smqueue_log two_reports
    ≡ record {
      time = codes "2024-01-02T03:04:05";
      text = codes "hi";
      sender_number = codes "1001";
      sender_imsi = [];
      receiver_number = codes "1002";
      receiver_imsi = [];
    }
      ∷ []
unfolding parse_smqueue_log two_reports trim_newline eqb
two_reports_test = refl

parse_smqueue_log-told_example :
    parse_smqueue_log two_reports
    ≡ map
        (λ i. told (about i (candidates_of two_reports)))
        (once (identities_of (candidates_of two_reports)))
parse_smqueue_log-told_example = parse_smqueue_log-told two_reports

parse_smqueue_log-HaveImsis_example : All HasImsis (parse_smqueue_log two_reports)
parse_smqueue_log-HaveImsis_example = parse_smqueue_log-HaveImsis two_reports

abbrev prelude : List Event
prelude =
    decoded (codes "01:00") (codes "early")
    ∷ request (codes "a") (codes "02:00")
    ∷ decoded (codes "02:01") (codes "hi")
    ∷ request (codes "b") (codes "03:00")
    ∷ []

associate_test :
    associate prelude (codes "a")
    ≡ some (record { qtag = codes "a"; time = codes "02:01"; text = codes "hi" })
unfolding associate eqb
associate_test = refl

one_request : request_indexes 0 (take 3 prelude) ≡ 1 ∷ []
unfolding request_indexes
one_request = refl

associate-text_for_example :
    associate (take 3 prelude) (codes "a")
    ≡ some (text_for (codes "a") (codes "02:00") (drop 2 (take 3 prelude)))
associate-text_for_example =
    associate-text_for (take 3 prelude) (codes "a") 1 (codes "a") (codes "02:00") one_request refl

associate-Evidenced_example : Evidenced prelude (codes "a") (associate prelude (codes "a"))
associate-Evidenced_example = associate-Evidenced prelude (codes "a")

all-IsByte : (s : Text) → all (λ c. ltb c 256) s ≡ true → All IsByte s
all-IsByte s h = All-of_all IsByte (λ c. ltb c 256) (λ c e. ground arith) s h

CanSend-tag : CanSend 512 (codes "7")
unfolding utf8_valid
CanSend-tag = (all-IsByte (codes "7") refl, refl, omega arith)

CanSend-from : CanSend 512 (codes "1001")
unfolding utf8_valid
CanSend-from = (all-IsByte (codes "1001") refl, refl, omega arith)

CanSend-to : CanSend 512 (codes "1002")
unfolding utf8_valid
CanSend-to = (all-IsByte (codes "1002") refl, refl, omega arith)

CanSend-text : CanSend 8192 (codes "hi")
unfolding utf8_valid
CanSend-text = (all-IsByte (codes "hi") refl, refl, omega arith)

parse_structured_sms-record_line_example :
    parse_structured_sms (record_line (codes "7") (codes "1001") (codes "1002") (codes "hi")) []
    ≡ some (record {
      qtag = codes "7";
      sms = parse_notice_party (codes "1002") false (
          parse_notice_party
            (codes "1001")
            true
            (record empty_sms { time = []; text = codes "hi" }));
    })
parse_structured_sms-record_line_example =
    parse_structured_sms-record_line b'7' [] (codes "1001") (codes "1002") (codes "hi") []
      CanSend-tag CanSend-from CanSend-to CanSend-text

abbrev same_letter : Text → Text
same_letter rune = rune

abbrev any_address : Text → Option Text
any_address s = if is_empty s then none else some s

abbrev sessions : Text
sessions = codes "gmm imsi=001010000000001 ips=(10.0.0.2)\ngmm imsi=001010000000001 ips=none\n"

find-parse_sgsn_example :
    find (codes "001010000000001") (parse_sgsn same_letter any_address sessions)
    ≡ assigned
        (codes "001010000000001")
        (observations same_letter any_address (split b'\n' sessions))
find-parse_sgsn_example = find-parse_sgsn same_letter any_address sessions (codes "001010000000001")

abbrev table : Text
table = codes "IMSI            TMSI IMEI            AUTH\n001010000000001 1    123456789012345 1\n"

all-IsAscii : (s : Text) → all (λ c. ltb c 128) s ≡ true → All (λ c. c < 128) s
all-IsAscii s h = All-of_all (λ c. c < 128) (λ c. ltb c 128) (λ c e. ground arith) s h

parse_tmsis-AreUes_example :
    (us : List Ue) × (parse_tmsis same_letter table [] ≡ some us) × All IsUe us
parse_tmsis-AreUes_example = parse_tmsis-AreUes same_letter [] table (all-IsAscii table refl)

-- Two bytes that are no rune become six in lower case, so the index points four bytes too far.
wrong_digits :
    phone_identity same_letter (0xff ∷ (0xff ∷ codes "tel:12345678")) ≡ some (codes "5678")
unfolding phone_identity strip_prefix contains is_digits eqb
wrong_digits = refl
