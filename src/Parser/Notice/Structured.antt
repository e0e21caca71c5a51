-- ===== src/Parser/Notice/Structured.antt =====
-- internal/parser/sms.go: the keyed record of a message is read back exactly.
use gsm_system.Base.{
  ℕ, ◌*◌, ◌≤◌, ◌<◌, ◌≡◌, refl, ap, ◌∙◌, true, false, List, [], ◌∷◌, ◌++◌, Option, none, some,
  length, All, arith, ltb-false,
}
use gsm_system.Base.Text.{Text, codes}
use gsm_system.Base.Utf8.{
  IsByte, utf8_valid, hex_encode, hex_digit_of, hex_decode-encode, length-hex_encode,
  All-hex_encode,
}
use gsm_system.Base.Regex.{many, stop, seq, white, non_white, run, submatch, done}
use gsm_system.Base.Regex.Laws.{at, run-field, run-start, submatch-run}
use gsm_system.Parser.Party.{empty_sms, parse_notice_party}
use gsm_system.Parser.Notice.{re_structured, decode_value, decode_all, parse_structured_sms}

-- The text of a record, as the native code prints it.
unfoldable pub record_line : Text → Text → Text → Text → Text
record_line qtag from to text =
    codes "GSM_SMS_V1 qtag_hex="
    ++ (hex_encode qtag
        ++ (codes " from_hex="
            ++ (hex_encode from
                ++ (codes " to_hex="
                    ++ (hex_encode to ++ (codes " text_hex=" ++ (hex_encode text ++ [])))))))

non_white-hex_digit_of : (n : ℕ) → n < 16 → non_white (hex_digit_of n) ≡ true
unfolding hex_digit_of
non_white-hex_digit_of n h = ground arith

abbrev hex_groups : Text → Text → Text → Text → List Text
hex_groups q f t x = hex_encode q ∷ hex_encode f ∷ hex_encode t ∷ hex_encode x ∷ []

submatch-record_line :
    (q f t x : Text)
    → All IsByte q
    → All IsByte f
    → All IsByte t
    → All IsByte x
    → submatch re_structured (record_line q f t x)
      ≡ some (hex_encode q ∷ hex_encode f ∷ hex_encode t ∷ hex_encode x ∷ [])
unfolding record_line
submatch-record_line q f t x hq hf ht hx =
    submatch-run re_structured (record_line q f t x) (hex_groups q f t x) (
      run-start _ _ [] done
      ∙ run-field (codes "GSM_SMS_V1 qtag_hex=") non_white (hex_encode q) _ [] _ done _ (plain q hq)
          refl
          (λ b.
            run-field (codes " from_hex=") non_white (hex_encode f) _ _ _ done _ (plain f hf) refl
              (λ b.
                run-field (codes " to_hex=") non_white (hex_encode t) _ _ _ done _ (plain t ht) refl
                  (λ b.
                    run-field (codes " text_hex=") non_white (hex_encode x) [] _ _ done _
                      (plain x hx) tt (λ b. ends b) b)
                  b)
              b)
          none)
  where
    plain : (s : Text) → All IsByte s → All (λ c. non_white c ≡ true) (hex_encode s)
    plain s h = All-hex_encode non_white non_white-hex_digit_of s h

    ends :
        (b : Option ℕ)
        → run
            (seq (many white) stop)
            (at b [] (hex_encode x ∷ hex_encode t ∷ hex_encode f ∷ hex_encode q ∷ []))
            done
          ≡ some (hex_groups q f t x)
    ends b = unfold run in refl

-- Bytes that are valid UTF-8 and whose hexadecimal form keeps to the limit.
abbrev pub CanSend : ℕ → Text → Type 0
CanSend limit s = All IsByte s × (utf8_valid s ≡ true) × (2 * length s ≤ limit)

decode_value-encode :
    (limit : ℕ) (s : Text) → CanSend limit s → decode_value limit (hex_encode s) ≡ some s
unfolding decode_value
decode_value-encode limit s h =
    rw (ltb-false limit (length (hex_encode s)) (omega (arith, length-hex_encode s)))
      (rw (hex_decode-encode s h.0) (rw h.1 refl))

-- A keyed record within the limits comes back whole, whatever UTF-8 text its four values are: the
-- qtag, which must not be empty, the text as it was sent, and the two parties, classified.
pub parse_structured_sms-record_line :
    (c : ℕ) (qtag from to text time : Text)
    → CanSend 512 (c ∷ qtag)
    → CanSend 512 from
    → CanSend 512 to
    → CanSend 8192 text
    → parse_structured_sms (record_line (c ∷ qtag) from to text) time
      ≡ some (record {
        qtag = c ∷ qtag;
        sms =
            parse_notice_party to false
              (parse_notice_party from true (record empty_sms { time = time; text = text }));
      })
unfolding parse_structured_sms
parse_structured_sms-record_line c qtag from to text time hq hf ht hx =
    ap (decode_all time) (submatch-record_line (c ∷ qtag) from to text hq.0 hf.0 ht.0 hx.0)
    ∙ rw (decode_value-encode 512 (c ∷ qtag) hq) (
        rw (decode_value-encode 512 from hf)
          (rw (decode_value-encode 512 to ht) (rw (decode_value-encode 8192 text hx) refl)))
