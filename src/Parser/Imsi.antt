-- ===== src/Parser/Imsi.antt =====
-- internal/parser/sms.go: which texts can stand in the IMSI fields of a message.
pub mod Notices
pub mod Deliveries
use gsm_system.Base.{
  ℕ, ◌+◌, ◌≡◌, refl, ◌⊎◌, inl, inr, Bool, true, false, List, [], ◌∷◌, ◌++◌, Option, none, some, map,
  take, slice, length, All, All-append, Bool-cases, if◌then◌else◌, ltb,
}
use gsm_system.Base.Text.{Text, codes, eqb, is_digit}
use gsm_system.Base.Regex.{Re, group, submatch, matches, times}
use gsm_system.Base.Regex.Sound.{Groups, submatch-All, Takes-times, bytes-Groups, times-Groups}
use gsm_system.Parser.Native.{
  Native, comes_from, parse_native_message, is_restart_line, trim_newline, split_after,
  generation_at, Line, log_lines, clean_log, restart_positions,
}
use gsm_system.Parser.Party.{
  Sms, empty_sms, set_imsi, set_number, trim_right, re_number, re_imsi, party_of,
  parse_notice_party, or_else, merge_sms, apply_structured_sms,
}
use gsm_system.Parser.Notice.{
  Candidate, cut_party, StructuredSms, got_sms, structured_candidate, keyed_text, structured_of,
  parse_structured_sms, decode_all, decode_value, notice_of, notice_line, notices_from,
  parse_notice_events, re_got_sms, re_keyed_text, re_structured,
}
use gsm_system.Parser.Delivery.{
  DecodedLine, first_group, found_or, undeliverable, delivered, sip_imsi, re_msg_to, re_cant_send,
  parse_deliver_into, deliveries_from, decoded_for_delivery, is_delivery_marker, block_of,
  parse_delivery_events,
}
use gsm_system.Parser.Merge.{
  Entry, insert_by_position, sort_by_position, merge_entry, absorb, absorb_all, candidates_of,
  entries_of, parse_smqueue_log,
}
use gsm_system.Parser.Imsi.Notices.{
  IsImsi, IsNoneOrImsi, HasImsis, OnMatch, submatch-OnMatch, numbered, identified,
  party_of-HasImsis, IsImsi-Groups, parse_notice_party-HasImsis, nobody, AllHaveImsis,
  got_sms-HaveImsis, keyed_text-HaveImsis, OnStructured, structured_of-HasImsis,
  decode_all-HasImsis, structured_candidate-HaveImsis, if-HaveImsis, notice_of-HaveImsis,
  notices_from-HaveImsis,
}
use gsm_system.Parser.Imsi.Deliveries.{
  OnGroup, first_group-OnGroup, found_or-IsNoneOrImsi, undeliverable-HasImsis, group_of-OnGroup,
  sip_imsi-Groups, parse_deliver_into-HasImsis, delivered-HaveImsis, deliveries_from-HaveImsis,
}

insert_by_position-HaveImsis :
    (c : Candidate) (cs : List Candidate)
    → HasImsis c.sms
    → AllHaveImsis cs
    → AllHaveImsis (insert_by_position c cs)
unfolding insert_by_position
insert_by_position-HaveImsis c [] h k = (h, tt)
insert_by_position-HaveImsis c (d ∷ ds) h k =
    if-HaveImsis (ltb d.position c.position) (d ∷ insert_by_position c ds) (c ∷ (d ∷ ds))
      (k.0, insert_by_position-HaveImsis c ds h k.1) (h, k)

sort_by_position-HaveImsis :
    (cs : List Candidate) → AllHaveImsis cs → AllHaveImsis (sort_by_position cs)
unfolding sort_by_position
sort_by_position-HaveImsis [] h = tt
sort_by_position-HaveImsis (c ∷ cs) h =
    insert_by_position-HaveImsis c (sort_by_position cs) h.0 (sort_by_position-HaveImsis cs h.1)

or_else-IsNoneOrImsi : (a b : Text) → IsNoneOrImsi a → IsNoneOrImsi b → IsNoneOrImsi (or_else a b)
or_else-IsNoneOrImsi [] b h k = k
or_else-IsNoneOrImsi (c ∷ a) b h k = h

merge_entry-HasImsis :
    (c : Candidate) (e : Entry) → HasImsis c.sms → HasImsis e.sms → HasImsis (merge_entry c e).sms
merge_entry-HasImsis c e h k = by_flags c.structured e.structured
  where
    by_flags :
        (b d : Bool)
        → HasImsis (merge_entry (record c { structured = b }) (record e { structured = d })).sms
    by_flags true true = unfold merge_entry in k
    by_flags true false = unfold merge_entry in (unfold apply_structured_sms in h)
    by_flags false true = unfold merge_entry in k
    by_flags false false =
        unfold merge_entry in
        (unfold merge_sms in
          (
            or_else-IsNoneOrImsi e.sms.sender_imsi c.sms.sender_imsi k.0 h.0,
            or_else-IsNoneOrImsi e.sms.receiver_imsi c.sms.receiver_imsi k.1 h.1,
          ))

abbrev EntriesHaveImsis : List Entry → Type 0
EntriesHaveImsis es = All (λ e. HasImsis e.sms) es

absorb-HaveImsis :
    (c : Candidate) (es : List Entry)
    → HasImsis c.sms
    → EntriesHaveImsis es
    → EntriesHaveImsis (absorb c es)
unfolding absorb
absorb-HaveImsis c [] h k = (h, tt)
absorb-HaveImsis c (e ∷ es) h k = elim (Bool-cases (eqb e.identity c.identity)) [
  | inl s ↦ rw s (merge_entry-HasImsis c e h k.0, k.1)
  | inr s ↦ rw s (k.0, absorb-HaveImsis c es h k.1)
]

absorb_all-HaveImsis :
    (cs : List Candidate) (es : List Entry)
    → AllHaveImsis cs
    → EntriesHaveImsis es
    → EntriesHaveImsis (absorb_all cs es)
unfolding absorb_all
absorb_all-HaveImsis [] es h k = k
absorb_all-HaveImsis (c ∷ cs) es h k =
    absorb_all-HaveImsis cs (absorb c es) h.1 (absorb-HaveImsis c es h.0 k)

candidates_of-HaveImsis : (log : Text) → AllHaveImsis (candidates_of log)
unfolding candidates_of parse_notice_events parse_delivery_events
candidates_of-HaveImsis log = sort_by_position-HaveImsis _ (
    All-append (λ c. HasImsis c.sms) _ _
      (notices_from-HaveImsis (restart_positions (clean_log log)) 0 (split_after (clean_log log)))
      (deliveries_from-HaveImsis (clean_log log) (restart_positions (clean_log log)) 0
        (log_lines (clean_log log))))

All-map_sms : (es : List Entry) → EntriesHaveImsis es → All HasImsis (map (λ e. e.sms) es)
All-map_sms [] h = tt
All-map_sms (e ∷ es) h = (h.0, All-map_sms es h.1)

-- Whatever a log holds, each IMSI of each message that is read from it is missing or consists of
-- fifteen decimal digits.
pub parse_smqueue_log-HaveImsis : (log : Text) → All HasImsis (parse_smqueue_log log)
unfolding parse_smqueue_log entries_of
parse_smqueue_log-HaveImsis log =
    All-map_sms (absorb_all (candidates_of log) [])
      (absorb_all-HaveImsis (candidates_of log) [] (candidates_of-HaveImsis log) tt)
