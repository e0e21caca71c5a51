-- ===== src/Api/Send/Command.antt =====
-- internal/api/v1.go: which commands a request can make OpenBTS run.
use gsm_system.Base.{
  ℕ, ◌≡◌, ◌≢◌, ◌≤◌, refl, subst, leb, Bool, true, false, not, ◌&&◌, [], ◌∷◌, List, Option, none,
  some, length, any, all, All, All-of_all, ◌==◌, Bool-cases, inl, inr, arith, ==_iff, and-eq-true,
}
use mathlib.Core.Bool.{false≢true}
use gsm_system.Base.Text.{Text, codes, is_empty, is_digit}
use gsm_system.Base.Number.{is_digits}
use gsm_system.Gsm.Params.{valid_imsi, valid_number}
use gsm_system.Api.Cell.{Code}
use gsm_system.Api.Send.{
  CliExit, validate_sms_text, safe_character, SmsRequest, SendField, send_issues, send_command,
  send_checked, handle_sms_send,
}

-- No quote, backslash or control character, and nothing above ASCII.
abbrev pub IsPlain : ℕ → Type 0
IsPlain c = (c ≢ 34) × (c ≢ 92) × (32 ≤ c) × (c ≤ 126)

abbrev pub AreDigits : Text → Type 0
AreDigits s = All (λ c. is_digit c ≡ true) s

-- What a command that was given satisfies.
pub record IsSafe (ready : Bool) (b : SmsRequest) (command : Text) : Type 0 where
  pub form : command ≡ send_command b
  pub imsi : (length b.imsi ≡ 15) × AreDigits b.imsi
  pub sender : (2 ≤ length b.sender) × (length b.sender ≤ 15) × AreDigits b.sender
  pub text : (b.text ≢ []) × (length b.text ≤ 159) × All IsPlain b.text
  pub sms_ready : ready ≡ true

abbrev pub OnCommand : Bool → SmsRequest → Option Text → Type 0
OnCommand ready b none = Unit
OnCommand ready b (some c) = IsSafe ready b c

some-ne_none : {A : Type 0} {a : A} → ◌≢◌ {A = Option A} (some a) none
some-ne_none e = cc

any-All : (P : ℕ → Type 0) (c : ℕ) (l : Text) → All P l → any (λ d. d == c) l ≡ true → P c
any-All P c [] a h = absurd (false≢true h)
any-All P c (d ∷ l) a h = elim (Bool-cases (d == c)) [
  | inl e ↦ subst P ((==_iff d c).0 e) a.0
  | inr e ↦ any-All P c l a.1 (rw e at h)
]

is_plain : ℕ → Bool
is_plain c = not (c == 34) && not (c == 92) && leb 32 c && leb c 126

is_plain-IsPlain : (c : ℕ) → is_plain c ≡ true → IsPlain c
unfolding is_plain
is_plain-IsPlain c h = ((λ e. ground arith), (λ e. ground arith), (ground arith), (ground arith))

safe_letters : Text
safe_letters =
    codes "@!#$%&()*+,-./0123456789:;<=>?ABCDEFGHIJKLMNOPQRSTUVWXYZ_abcdefghijklmnopqrstuvwxyz "

safe_letters-plain : all is_plain safe_letters ≡ true
unfolding is_plain safe_letters
safe_letters-plain = refl

safe_character-IsPlain : (c : ℕ) → safe_character c ≡ true → IsPlain c
unfolding safe_letters
safe_character-IsPlain c h =
    any-All IsPlain c safe_letters
      (All-of_all IsPlain is_plain is_plain-IsPlain safe_letters safe_letters-plain) h

valid_text : (s : Text) → validate_sms_text s ≡ none → (s ≢ []) × (length s ≤ 159) × All IsPlain s
unfolding validate_sms_text
valid_text [] h = absurd (some-ne_none h)
valid_text (c ∷ s) h = (
  (λ e. cc),
  (ground arith),
  All-of_all IsPlain safe_character safe_character-IsPlain (c ∷ s) (ground arith),
)

digits-AreDigits : (s : Text) → is_digits s ≡ true → AreDigits s
unfolding is_digits
digits-AreDigits s h =
    All-of_all (λ c. is_digit c ≡ true) is_digit (λ c e. e) s
      (and-eq-true (not (is_empty s)) (all is_digit s) h).1

valid_imsi-AreDigits : (s : Text) → valid_imsi s ≡ true → (length s ≡ 15) × AreDigits s
unfolding valid_imsi
valid_imsi-AreDigits s h =
    let parts = and-eq-true (length s == 15) (is_digits s) h in
    ((==_iff (length s) 15).0 parts.0, digits-AreDigits s parts.1)

valid_number-AreDigits :
    (s : Text) → valid_number s ≡ true → (2 ≤ length s) × (length s ≤ 15) × AreDigits s
unfolding valid_number
valid_number-AreDigits s h = (ground arith, ground arith, digits-AreDigits s (ground arith))

issues_none :
    (b : SmsRequest)
    → send_issues b ≡ []
    → (valid_imsi b.imsi ≡ true)
      × (valid_number b.sender ≡ true)
      × (validate_sms_text b.text ≡ none)
unfolding send_issues
issues_none b h = (ground arith, ground arith, ground arith)

module _ (fold : Text → Text) (bin : Text) (cli : Text → CliExit) where
  send_checked-OnCommand :
      (ready : Bool) (b : SmsRequest) (l : List SendField)
      → send_issues b ≡ l
      → OnCommand ready b (send_checked fold bin cli ready b l).command
  send_checked-OnCommand ready b (i ∷ l) h = tt
  send_checked-OnCommand false b [] h = tt
  send_checked-OnCommand true b [] h =
      let parts = issues_none b h in
      record {
        form = refl;
        imsi = valid_imsi-AreDigits b.imsi parts.0;
        sender = valid_number-AreDigits b.sender parts.1;
        text = valid_text b.text parts.2;
        sms_ready = refl;
      }

  -- Whatever a request holds, a command is only given to OpenBTS when its message services are
  -- ready, and it is `sendsms` with an IMSI of fifteen digits, a sender of two to fifteen digits
  -- and, in quotes, a text of one to 159 printable ASCII characters without a quote or a
  -- backslash: no request can end the quoted text.
  pub handle_sms_send-IsSafe :
      (c : Code) (ready : Bool) (b : SmsRequest)
      → OnCommand ready b (handle_sms_send fold bin cli c ready b).command
  unfolding handle_sms_send
  handle_sms_send-IsSafe Code.ok ready b = send_checked-OnCommand ready b (send_issues b) refl
  handle_sms_send-IsSafe c ready b = tt
