-- ===== src/Parser/Imsi/Notices.antt =====
-- internal/parser/sms.go: the IMSI fields of what is read from notices and keyed records.
use gsm_system.Base.{
  ℕ, ◌+◌, ◌≡◌, refl, ◌⊎◌, inl, inr, Bool, true, false, List, [], ◌∷◌, Option, none, some, length,
  All, All-append, if◌then◌else◌,
}
use gsm_system.Base.Text.{Text, codes, is_digit}
use gsm_system.Base.Regex.{Re, group, submatch, matches, times}
use gsm_system.Base.Regex.Sound.{Groups, submatch-All, Takes-times, bytes-Groups, times-Groups}
use gsm_system.Parser.Native.{
  Native, comes_from, parse_native_message, is_restart_line, trim_newline, generation_at,
}
use gsm_system.Parser.Party.{
  Sms, empty_sms, set_imsi, set_number, trim_right, re_number, re_imsi, party_of,
  parse_notice_party,
}
use gsm_system.Parser.Notice.{
  Candidate, cut_party, StructuredSms, got_sms, structured_candidate, keyed_text, structured_of,
  parse_structured_sms, decode_all, decode_value, notice_of, notice_line, notices_from, re_got_sms,
  re_keyed_text, re_structured,
}

abbrev pub IsImsi : Text → Type 0
IsImsi u = (length u ≡ 15) × All (λ c. is_digit c ≡ true) u

-- Missing, or fifteen digits.
abbrev pub IsNoneOrImsi : Text → Type 0
IsNoneOrImsi u = (u ≡ []) ⊎ IsImsi u

abbrev pub HasImsis : Sms → Type 0
HasImsis s = IsNoneOrImsi s.sender_imsi × IsNoneOrImsi s.receiver_imsi

abbrev pub OnMatch : Option (List Text) → Type 0
OnMatch none = Unit
OnMatch (some g) = All IsImsi g

pub submatch-OnMatch : (r : Re) (s : Text) → Groups IsImsi r → OnMatch (submatch r s)
submatch-OnMatch r s q = on (submatch r s) (λ g e. submatch-All IsImsi r s g q e)
  where
    on : (o : Option (List Text)) → ((g : List Text) → o ≡ some g → All IsImsi g) → OnMatch o
    on none h = tt
    on (some g) h = h g refl

pub numbered :
    (numeric sender : Bool) (value : Text) (s : Sms)
    → HasImsis s
    → HasImsis (if numeric then set_number sender value s else s)
numbered true true value s h = h
numbered true false value s h = h
numbered false sender value s h = h

pub identified :
    (sender : Bool) (v : Text) (s : Sms) → IsImsi v → HasImsis s → HasImsis (set_imsi sender v s)
identified true v s i h = (inr i, h.1)
identified false v s i h = (h.0, inr i)

pub party_of-HasImsis :
    (o : Option (List Text)) (numeric : Bool) (value : Text) (sender : Bool) (s : Sms)
    → OnMatch o
    → HasImsis s
    → HasImsis (party_of o numeric value sender s)
party_of-HasImsis none numeric value sender s m h = numbered numeric sender value s h
party_of-HasImsis (some []) numeric value sender s m h = numbered numeric sender value s h
party_of-HasImsis (some (i ∷ [])) numeric value sender s m h = identified sender i s m.0 h
party_of-HasImsis (some (i ∷ (j ∷ g))) numeric value sender s m h =
    numbered numeric sender value s h

pub IsImsi-Groups : Groups IsImsi (group (times 15 is_digit))
IsImsi-Groups = (times-Groups IsImsi 15 is_digit, Takes-times 15 is_digit)

pub parse_notice_party-HasImsis :
    (value : Text) (sender : Bool) (s : Sms)
    → HasImsis s
    → HasImsis (parse_notice_party value sender s)
unfolding parse_notice_party
parse_notice_party-HasImsis value sender s h =
    party_of-HasImsis (submatch re_imsi value) (matches re_number value) value sender s
      (submatch-OnMatch re_imsi value
        (tt, (bytes-Groups IsImsi (codes "IMSI"), (IsImsi-Groups, tt))))
      h

pub nobody : (time text : Text) → HasImsis (record empty_sms { time = time; text = text })
nobody time text = (inl refl, inl refl)

-- Of the reports of the native log.
abbrev pub AllHaveImsis : List Candidate → Type 0
AllHaveImsis cs = All (λ c. HasImsis c.sms) cs

pub got_sms-HaveImsis :
    (generation position : ℕ) (time : Text) (o : Option (List Text))
    → AllHaveImsis (got_sms generation position time o)
got_sms-HaveImsis gen pos time (some (q ∷ (f ∷ (t ∷ [])))) = (
  parse_notice_party-HasImsis (trim_right cut_party t) false
      (parse_notice_party f true (record empty_sms { time = time }))
      (parse_notice_party-HasImsis f true (record empty_sms { time = time }) (nobody time [])),
  tt,
)
got_sms-HaveImsis gen pos time none = tt
got_sms-HaveImsis gen pos time (some []) = tt
got_sms-HaveImsis gen pos time (some (_ ∷ [])) = tt
got_sms-HaveImsis gen pos time (some (_ ∷ (_ ∷ []))) = tt
got_sms-HaveImsis gen pos time (some (_ ∷ (_ ∷ (_ ∷ (_ ∷ _))))) = tt

pub keyed_text-HaveImsis :
    (generation position : ℕ) (time : Text) (o : Option (List Text))
    → AllHaveImsis (keyed_text generation position time o)
keyed_text-HaveImsis gen pos time (some (q ∷ (x ∷ []))) = (nobody time [], tt)
keyed_text-HaveImsis gen pos time none = tt
keyed_text-HaveImsis gen pos time (some []) = tt
keyed_text-HaveImsis gen pos time (some (_ ∷ [])) = tt
keyed_text-HaveImsis gen pos time (some (_ ∷ (_ ∷ (_ ∷ _)))) = tt

abbrev pub OnStructured : Option StructuredSms → Type 0
OnStructured none = Unit
OnStructured (some s) = HasImsis s.sms

pub structured_of-HasImsis :
    (time : Text) (q f t x : Option Text) → OnStructured (structured_of time q f t x)
unfolding structured_of
structured_of-HasImsis time none f t x = tt
structured_of-HasImsis time (some []) f t x = tt
structured_of-HasImsis time (some (c ∷ q)) none t x = tt
structured_of-HasImsis time (some (c ∷ q)) (some f) none x = tt
structured_of-HasImsis time (some (c ∷ q)) (some f) (some t) none = tt
structured_of-HasImsis time (some (c ∷ q)) (some f) (some t) (some x) =
    parse_notice_party-HasImsis t false (parse_notice_party f true blank)
      (parse_notice_party-HasImsis f true blank (nobody time x))
  where
    blank : Sms
    blank = record empty_sms { time = time; text = x }

pub decode_all-HasImsis : (time : Text) (o : Option (List Text)) → OnStructured (decode_all time o)
decode_all-HasImsis time (some (q ∷ (f ∷ (t ∷ (x ∷ []))))) =
    structured_of-HasImsis time (decode_value 512 q) (decode_value 512 f) (decode_value 512 t)
      (decode_value 8192 x)
decode_all-HasImsis time none = tt
decode_all-HasImsis time (some []) = tt
decode_all-HasImsis time (some (_ ∷ [])) = tt
decode_all-HasImsis time (some (_ ∷ (_ ∷ []))) = tt
decode_all-HasImsis time (some (_ ∷ (_ ∷ (_ ∷ [])))) = tt
decode_all-HasImsis time (some (_ ∷ (_ ∷ (_ ∷ (_ ∷ (_ ∷ _)))))) = tt

pub structured_candidate-HaveImsis :
    (generation position : ℕ) (o : Option StructuredSms)
    → OnStructured o
    → AllHaveImsis (structured_candidate generation position o)
structured_candidate-HaveImsis gen pos none h = tt
structured_candidate-HaveImsis gen pos (some s) h = (h, tt)

pub if-HaveImsis :
    (b : Bool) (cs ds : List Candidate)
    → AllHaveImsis cs
    → AllHaveImsis ds
    → AllHaveImsis (if b then cs else ds)
if-HaveImsis true cs ds h k = h
if-HaveImsis false cs ds h k = k

pub notice_of-HaveImsis :
    (generation position : ℕ) (o : Option Native) → AllHaveImsis (notice_of generation position o)
unfolding notice_of
notice_of-HaveImsis gen pos none = tt
notice_of-HaveImsis gen pos (some n) =
    if-HaveImsis (comes_from (codes "smqueue.cpp") (codes "main_loop") n) got
      (if comes_from (codes "smsc.cpp") (codes "submitSMS") n then keyed else texts)
      (got_sms-HaveImsis gen pos n.time (submatch re_got_sms n.text))
      (if-HaveImsis (comes_from (codes "smsc.cpp") (codes "submitSMS") n) keyed texts
        (structured_candidate-HaveImsis gen pos (parse_structured_sms n.text n.time) structured)
        (if-HaveImsis (comes_from (codes "smqueue.h") (codes "get_text") n) decoded []
          (keyed_text-HaveImsis gen pos n.time (submatch re_keyed_text n.text)) tt))
  where
    got : List Candidate
    got = got_sms gen pos n.time (submatch re_got_sms n.text)

    keyed : List Candidate
    keyed = structured_candidate gen pos (parse_structured_sms n.text n.time)

    decoded : List Candidate
    decoded = keyed_text gen pos n.time (submatch re_keyed_text n.text)

    texts : List Candidate
    texts = if comes_from (codes "smqueue.h") (codes "get_text") n then decoded else []

    structured : OnStructured (parse_structured_sms n.text n.time)
    structured =
        unfold parse_structured_sms in decode_all-HasImsis n.time (submatch re_structured n.text)

pub notices_from-HaveImsis :
    (restarts : List ℕ) (position : ℕ) (ls : List Text)
    → AllHaveImsis (notices_from restarts position ls)
unfolding notices_from notice_line
notices_from-HaveImsis restarts pos [] = tt
notices_from-HaveImsis restarts pos (l ∷ ls) =
    All-append (λ c. HasImsis c.sms) (notice_line restarts pos (trim_newline l))
      (notices_from restarts (pos + length l) ls)
      (if-HaveImsis (is_restart_line (trim_newline l)) []
        (notice_of (generation_at restarts pos) pos (parse_native_message (trim_newline l))) tt
        (notice_of-HaveImsis (generation_at restarts pos) pos
          (parse_native_message (trim_newline l))))
      (notices_from-HaveImsis restarts (pos + length l) ls)

-- Of the delivery blocks.
