-- ===== src/Parser/Delivery.antt =====
-- internal/parser/sms.go: delivery blocks of the older log format, and which decoded text belongs
-- to which of them.
pub mod Association
use gsm_system.Base.{
  ℕ, zero, suc, ◌+◌, Bool, true, false, not, ◌&&◌, ◌||◌, List, [], ◌∷◌, ◌++◌, Option, none, some,
  reverse, length, take, drop, slice, get_elem?, leb, ◌==◌, if◌then◌else◌,
}
use gsm_system.Base.Text.{
  Text, codes, eqb, is_digit, is_empty, is_some, lower, has_prefix, trim_space, trim,
}
use gsm_system.Base.Regex.{
  Re, byte, many, group, start, stop, line_start, line_end, ◌▸◌, bytes, some_of, times, white,
  non_white, not_newline, submatch, matches,
}
use gsm_system.Parser.Native.{
  Native, comes_from, parse_native_message, is_restart_line, generation_at, Line, log_lines,
}
use gsm_system.Parser.Party.{Sms, empty_sms, clean_number}
use gsm_system.Parser.Notice.{Candidate, scoped_identity, re_got_sms}

abbrev is_marker_text : Text → Bool
is_marker_text s = eqb s (codes "Deliver message:") || eqb s (codes "--Deliver message:")

abbrev marks_natively : Option Native → Bool
marks_natively none = false
marks_natively (some n) =
    comes_from (codes "smnet.cpp") (codes "deliver_msg_datagram") n && is_marker_text n.text

unfoldable pub is_delivery_marker : Text → Bool
unfolding trim_space parse_native_message
is_delivery_marker line =
    is_marker_text (trim_space line) || marks_natively (parse_native_message line)

-- `legacyPreludeEvent`
pub data Event : Type 0 where
  request : Text → Text → Event
  boundary : Event
  decoded : Text → Text → Event

abbrev re_text : Re
re_text = start ▸ bytes (codes "Decoded text:") ▸ many white ▸ group (many not_newline) ▸ stop

abbrev re_delivery : Re
re_delivery =
    start
    ▸ bytes (codes "Request Message Delivery for")
    ▸ some_of white
    ▸ group (some_of non_white)
    ▸ many white
    ▸ stop

abbrev quotes : ℕ → Bool
quotes c = c == 39 || c == 34

abbrev request_event : Text → Option (List Text) → List Event
request_event time (some (qtag ∷ [])) = request (trim quotes qtag) time ∷ []
request_event time _ = []

abbrev decoded_event : Text → Option (List Text) → List Event
decoded_event time (some (text ∷ [])) = decoded time (trim_space text) ∷ []
decoded_event time _ = []

unfoldable pub event_of : Text → Option Native → List Event
unfolding submatch is_restart_line trim trim_space
event_of line none = []
event_of line (some n) =
    if comes_from (codes "smqueue.cpp") (codes "process_timeout") n
    then request_event n.time (submatch re_delivery n.text)
    else if comes_from (codes "smqueue.cpp") (codes "main_loop") n && matches re_got_sms n.text
    then boundary ∷ []
    else if is_restart_line line
    then boundary ∷ []
    else if comes_from (codes "smqueue.h") (codes "get_text") n
    then decoded_event n.time (submatch re_text n.text)
    else []

unfoldable pub events_of : List Line → List Event
unfolding event_of parse_native_message
events_of [] = []
events_of (l ∷ ls) = event_of l.text (parse_native_message l.text) ++ events_of ls

unfoldable pub legacy_prelude_events : Text → List Event
unfolding events_of log_lines
legacy_prelude_events prelude = events_of (log_lines prelude)

-- A literal in either case.
abbrev folded : Text → Re
folded [] = Re.empty
folded (c ∷ s) = byte (λ d. lower d == lower c) ▸ folded s

abbrev re_cseq : Re
re_cseq =
    line_start
    ▸ bytes (codes "CSeq:")
    ▸ many white
    ▸ group (some_of is_digit)
    ▸ some_of white
    ▸ bytes (codes "MESSAGE")
    ▸ many white
    ▸ line_end

-- [^;>\s]
abbrev tag_byte : ℕ → Bool
tag_byte c = not (c == b';' || c == b'>' || white c)

abbrev re_from_tag : Re
re_from_tag =
    line_start
    ▸ folded (codes "From:")
    ▸ many not_newline
    ▸ folded (codes ";tag=")
    ▸ group (some_of tag_byte)

abbrev qtag_of : Option (List Text) → Option (List Text) → Text
qtag_of (some (n ∷ [])) (some (tag ∷ [])) = n ++ (codes "--" ++ tag)
qtag_of _ _ = []

unfoldable pub qtag_from_delivery_block : Text → Text
unfolding submatch
qtag_from_delivery_block block = qtag_of (submatch re_cseq block) (submatch re_from_tag block)

-- `requestIndexes`
unfoldable pub request_indexes : ℕ → List Event → List ℕ
request_indexes index [] = []
request_indexes index (request _ _ ∷ es) = index ∷ request_indexes (index + 1) es
request_indexes index (boundary ∷ es) = request_indexes (index + 1) es
request_indexes index (decoded _ _ ∷ es) = request_indexes (index + 1) es

abbrev pub asks_for : Text → Option Event → Bool
asks_for qtag (some (request q _)) = eqb q qtag
asks_for qtag _ = false

-- The only one of the requests with this qtag, behind the one found so far.
unfoldable pub only_request : List Event → Text → Option ℕ → List ℕ → Option ℕ
only_request events qtag found [] = found
only_request events qtag found (i ∷ is) =
    let first = only_request events qtag (some i) is in
    let other = only_request events qtag found is in
    if asks_for qtag (get_elem? events i) then (if is_some found then none else first) else other

abbrev pub choose_request : List Event → Text → List ℕ → Option ℕ
choose_request events qtag [] = none
choose_request events qtag (i ∷ []) = some i
choose_request events qtag (i ∷ (j ∷ is)) =
    if is_empty qtag then none else only_request events qtag none (i ∷ (j ∷ is))

-- `decodedLine`
pub record DecodedLine : Type 0 where
  pub qtag : Text
  pub time : Text
  pub text : Text

-- The loop over the events behind the request: how many texts were decoded, and the result so far.
unfoldable pub collect : Text → ℕ → DecodedLine → List Event → DecodedLine
collect request_time n result [] =
    if n == 1 then result else record result { text = []; time = request_time }
collect request_time n result (request _ _ ∷ es) = result
collect request_time n result (boundary ∷ es) = result
collect request_time n result (decoded time text ∷ es) =
    collect request_time (n + 1) (record result { time = time; text = text }) es

abbrev pub collect_for : Option Event → List Event → Option DecodedLine
collect_for (some (request qtag time)) es =
    some (collect time 0 (record { qtag = qtag; time = time; text = [] }) es)
collect_for _ es = none

abbrev pub decoded_at : List Event → Option ℕ → Option DecodedLine
decoded_at events none = none
decoded_at events (some i) = collect_for (get_elem? events i) (drop (i + 1) events)

unfoldable pub associate : List Event → Text → Option DecodedLine
unfolding collect only_request request_indexes
associate events qtag = decoded_at events (choose_request events qtag (request_indexes 0 events))

unfoldable pub decoded_for_delivery : Text → Text → Option DecodedLine
unfolding legacy_prelude_events qtag_from_delivery_block associate
decoded_for_delivery prelude block =
    associate (legacy_prelude_events prelude) (qtag_from_delivery_block block)

abbrev pub sip_imsi : Text → Re
sip_imsi lead = bytes lead ▸ many white ▸ bytes (codes "<sip:IMSI") ▸ group (times 15 is_digit)

abbrev pub re_msg_to : Re
re_msg_to =
    bytes (codes "MESSAGE") ▸ some_of white ▸ bytes (codes "sip:IMSI") ▸ group (times 15 is_digit)

abbrev pub header : Text → Re
header name = line_start ▸ bytes name ▸ many white ▸ group (some_of non_white)

abbrev pub re_cant_send : Re
re_cant_send = bytes (codes "Can't send your SMS to") ▸ some_of white ▸ group (some_of non_white)

abbrev pub first_group : Option (List Text) → Option Text
first_group (some (v ∷ [])) = some v
first_group _ = none

abbrev pub found_or : Option Text → Text → Text
found_or none old = old
found_or (some v) old = v

-- A header's number, unless it is an IMSI or empty.
abbrev pub number_or : Option Text → Text → Text
number_or none old = old
number_or (some raw) old =
    let v = clean_number raw in
    if not (has_prefix v (codes "IMSI")) && not (is_empty v) then v else old

abbrev edge : ℕ → Bool
edge c = c == 32 || c == b',' || c == b'.' || c == b';' || c == 34 || c == 39

abbrev pub undeliverable : Option Text → Sms → Sms
undeliverable none s = s
undeliverable (some raw) s =
    let v = trim edge raw in
    record s {
      receiver_number = if has_prefix v (codes "IMSI") then s.receiver_number else v;
      receiver_imsi = [];
    }

unfoldable pub parse_deliver_into : Text → Sms → Sms
unfolding submatch clean_number trim
parse_deliver_into block s = undeliverable (first_group (submatch re_cant_send block)) (record s {
  receiver_imsi = found_or (first_group (submatch re_msg_to block)) s.receiver_imsi;
  sender_imsi =
      found_or (first_group (submatch (sip_imsi (codes "Contact:")) block))
        (found_or (first_group (submatch (sip_imsi (codes "From:")) block)) s.sender_imsi);
  sender_number = number_or (first_group (submatch (header (codes "From:")) block)) s.sender_number;
  receiver_number =
      number_or (first_group (submatch (header (codes "To:")) block)) s.receiver_number;
})

-- The lines of a block, each with its newline.
unfoldable pub block_of : List Line → Text
block_of [] = []
block_of (l ∷ ls) = (l.text ++ 10 ∷ []) ++ block_of ls

abbrev pub delivered : List ℕ → ℕ → Text → Option DecodedLine → List Candidate
delivered restarts position block none = []
delivered restarts position block (some d) =
    record {
      identity = scoped_identity (generation_at restarts position) d.qtag;
      position = position;
      sms = parse_deliver_into block (record empty_sms { time = d.time; text = d.text });
      structured = false;
    }
    ∷ []

-- The loop over the lines, with the end of the last marker seen.
unfoldable pub deliveries_from : Text → List ℕ → ℕ → List Line → List Candidate
unfolding is_delivery_marker block_of decoded_for_delivery parse_deliver_into scoped_identity
    generation_at
deliveries_from log restarts previous [] = []
deliveries_from log restarts previous (l ∷ ls) =
    let block = block_of (take 18 ls) in
    let found =
      delivered restarts l.start block (decoded_for_delivery (slice previous l.start log) block) in
    let marked = found ++ deliveries_from log restarts l.end ls in
    let other = deliveries_from log restarts previous ls in
    if is_delivery_marker l.text then marked else other

unfoldable pub parse_delivery_events : Text → List ℕ → List Candidate
unfolding deliveries_from log_lines
parse_delivery_events log restarts = deliveries_from log restarts 0 (log_lines log)
