-- ===== src/Parser/Imsi/Deliveries.antt =====
-- internal/parser/sms.go: the IMSI fields of what is read from delivery blocks.
use gsm_system.Base.{
  ℕ, refl, inl, inr, List, [], ◌∷◌, ◌++◌, Option, none, some, take, slice, All-append,
}
use gsm_system.Base.Text.{Text, codes}
use gsm_system.Base.Regex.{Re, submatch}
use gsm_system.Base.Regex.Sound.{Groups, bytes-Groups}
use gsm_system.Parser.Native.{Line}
use gsm_system.Parser.Party.{Sms, empty_sms}
use gsm_system.Parser.Notice.{Candidate}
use gsm_system.Parser.Delivery.{
  DecodedLine, first_group, found_or, undeliverable, delivered, sip_imsi, re_msg_to, re_cant_send,
  parse_deliver_into, deliveries_from, decoded_for_delivery, is_delivery_marker, block_of,
}
use gsm_system.Parser.Imsi.Notices.{
  IsImsi, IsNoneOrImsi, HasImsis, OnMatch, submatch-OnMatch, IsImsi-Groups, nobody, AllHaveImsis,
  if-HaveImsis,
}

abbrev pub OnGroup : Option Text → Type 0
OnGroup none = Unit
OnGroup (some v) = IsImsi v

pub first_group-OnGroup : (o : Option (List Text)) → OnMatch o → OnGroup (first_group o)
first_group-OnGroup none m = tt
first_group-OnGroup (some []) m = tt
first_group-OnGroup (some (v ∷ [])) m = m.0
first_group-OnGroup (some (v ∷ (w ∷ g))) m = tt

pub found_or-IsNoneOrImsi :
    (o : Option Text) (old : Text) → OnGroup o → IsNoneOrImsi old → IsNoneOrImsi (found_or o old)
found_or-IsNoneOrImsi none old m h = h
found_or-IsNoneOrImsi (some v) old m h = inr m

pub undeliverable-HasImsis : (o : Option Text) (s : Sms) → HasImsis s → HasImsis (undeliverable o s)
undeliverable-HasImsis none s h = h
undeliverable-HasImsis (some raw) s h = (h.0, inl refl)

pub group_of-OnGroup :
    (r : Re) (block : Text) → Groups IsImsi r → OnGroup (first_group (submatch r block))
group_of-OnGroup r block q = first_group-OnGroup (submatch r block) (submatch-OnMatch r block q)

pub sip_imsi-Groups : (lead : Text) → Groups IsImsi (sip_imsi lead)
sip_imsi-Groups lead =
    (bytes-Groups IsImsi lead, (tt, (bytes-Groups IsImsi (codes "<sip:IMSI"), IsImsi-Groups)))

pub parse_deliver_into-HasImsis :
    (block : Text) (s : Sms) → HasImsis s → HasImsis (parse_deliver_into block s)
unfolding parse_deliver_into
parse_deliver_into-HasImsis block s h =
    undeliverable-HasImsis (first_group (submatch re_cant_send block)) _ (
      found_or-IsNoneOrImsi (first_group (submatch (sip_imsi (codes "Contact:")) block)) _
          (group_of-OnGroup (sip_imsi (codes "Contact:")) block
            (sip_imsi-Groups (codes "Contact:")))
          (found_or-IsNoneOrImsi (first_group (submatch (sip_imsi (codes "From:")) block))
            s.sender_imsi
            (group_of-OnGroup (sip_imsi (codes "From:")) block (sip_imsi-Groups (codes "From:")))
            h.0),
      found_or-IsNoneOrImsi (first_group (submatch re_msg_to block)) s.receiver_imsi
          (group_of-OnGroup re_msg_to block (
            bytes-Groups IsImsi (codes "MESSAGE"),
            ((tt, tt), (bytes-Groups IsImsi (codes "sip:IMSI"), IsImsi-Groups)),
          ))
          h.1,
    )

pub delivered-HaveImsis :
    (restarts : List ℕ) (position : ℕ) (block : Text) (o : Option DecodedLine)
    → AllHaveImsis (delivered restarts position block o)
delivered-HaveImsis restarts pos block none = tt
delivered-HaveImsis restarts pos block (some d) = (
  parse_deliver_into-HasImsis block (record empty_sms { time = d.time; text = d.text })
      (nobody d.time d.text),
  tt,
)

pub deliveries_from-HaveImsis :
    (log : Text) (restarts : List ℕ) (previous : ℕ) (ls : List Line)
    → AllHaveImsis (deliveries_from log restarts previous ls)
unfolding deliveries_from
deliveries_from-HaveImsis log restarts previous [] = tt
deliveries_from-HaveImsis log restarts previous (l ∷ ls) =
    if-HaveImsis (is_delivery_marker l.text) (found ++ deliveries_from log restarts l.end ls)
      (deliveries_from log restarts previous ls)
      (All-append (λ c. HasImsis c.sms) found (deliveries_from log restarts l.end ls)
        (delivered-HaveImsis restarts l.start block decoded)
        (deliveries_from-HaveImsis log restarts l.end ls))
      (deliveries_from-HaveImsis log restarts previous ls)
  where
    block : Text
    block = block_of (take 18 ls)

    decoded : Option DecodedLine
    decoded = decoded_for_delivery (slice previous l.start log) block

    found : List Candidate
    found = delivered restarts l.start block decoded

-- Through the sort and the merge.
