-- ===== src/Gsm/Sms/Window/Parts.antt =====
-- The bytes of the session in each file, and what a cut says of the byte before it.
use gsm_system.Base.{
  take-drop_slice, ℕ, zero, suc, ◌+◌, ◌-◌, ◌≤◌, ◌<◌, ◌≡◌, ◌∙◌, refl, sym, ap, ◌==◌, Bool, false,
  not, [], ◌∷◌, List, ◌++◌, none, some, length, take, drop, slice, drop-drop, drop-append_le,
  drop-append_ge, length-take, length-drop, arith, le→leb,
}
use gsm_system.Base.Text.{Text}
use gsm_system.Gsm.Sms.{read_at}
use gsm_system.Gsm.Sms.Span.{Segment, read_file, newline, cuts_line, trim_lines}

abbrev pub content : Segment → Text
content s = elim s.file.copied [ none ↦ [] | some t ↦ t ]

-- The bytes between the bounds of a segment.
abbrev pub part : Segment → Text
part s = slice s.start s.end (content s)

abbrev pub session_bytes : List Segment → Text
session_bytes [] = []
session_bytes (s ∷ l) = part s ++ session_bytes l

-- The copy sees the file at least as long as the marked end.
pub record IsStable (s : Segment) : Type 0 where
  pub text : Text
  pub copied : s.file.copied ≡ some text
  pub reaches : s.end ≤ length text
  pub ordered : s.start ≤ s.end

-- Whether the first byte is missing or a newline; negated.
abbrev pub inside_line : Text → Bool
inside_line [] = false
inside_line (c ∷ t) = not (c == newline)

abbrev pub cut_inside : Bool → ℕ → Text → Bool
cut_inside start_inside zero t = start_inside
cut_inside start_inside (suc k) t = inside_line (drop k t)

-- The whole lines among the last `limit` bytes, without a line that the cut or the session's start
-- goes through.
abbrev pub last_lines : Bool → ℕ → Text → Text
last_lines start_inside limit t =
    let cut = length t - limit in trim_lines (cut_inside start_inside cut t) (drop cut t)

pub inside_line-take :
    (k end : ℕ) (t : Text) → k < end → inside_line (drop k (take end t)) ≡ inside_line (drop k t)
inside_line-take k zero t h = absurd (omega arith)
inside_line-take zero (suc end) [] h = refl
inside_line-take zero (suc end) (c ∷ t) h = refl
inside_line-take (suc k) (suc end) [] h = refl
inside_line-take (suc k) (suc end) (c ∷ t) h = inside_line-take k end t (omega arith)

pub inside_line-append : (s t : Text) → 0 < length s → inside_line (s ++ t) ≡ inside_line s
inside_line-append [] t h = absurd (omega arith)
inside_line-append (c ∷ s) t h = refl

pub cuts_line-take : (t : Text) → cuts_line (some (take 1 t)) ≡ some (inside_line t)
cuts_line-take [] = refl
cuts_line-take (c ∷ t) = refl

pub read_at_eq :
    (n off : ℕ) (t : Text) → off + n ≤ length t → read_at n off t ≡ some (take n (drop off t))
read_at_eq n off t h = rw (le→leb (off + n) (length t) h) refl

module _ (s : Segment) (h : IsStable s) where
  pub length-part : length (part s) ≡ s.end - s.start
  length-part =
      rw (h.copied, content)
        (omega (
          arith,
          length-drop s.start (take s.end h.text),
          length-take s.end h.text,
          h.reaches,
          h.ordered,
        ))

  pub read_file-part :
      (k : ℕ)
      → k ≤ s.end - s.start
      → read_file (s.end - (s.start + k)) (s.start + k) s ≡ some (drop k (part s))
  read_file-part k l =
      rw (h.copied, content)
        (read_at_eq (s.end - (s.start + k)) (s.start + k) h.text
            (omega (arith, h.reaches, h.ordered))
          ∙ ap some (
              take-drop_slice (s.start + k) s.end h.text (omega (arith, h.ordered))
              ∙ sym (drop-drop k s.start (take s.end h.text))))

  pub read_file-byte :
      (k : ℕ) → k < s.end → cuts_line (read_file 1 k s) ≡ some (inside_line (drop k (content s)))
  read_file-byte k l =
      rw (h.copied, content)
        (ap cuts_line (read_at_eq 1 k h.text (omega (arith, h.reaches)))
          ∙ cuts_line-take (drop k h.text))

  pub skip_past :
      (l : List Segment) (skip : ℕ)
      → s.end ≤ skip + s.start
      → drop (skip + s.start - s.end) (session_bytes l) ≡ drop skip (part s ++ session_bytes l)
  skip_past l skip past =
      ap (λ k. drop k (session_bytes l)) {x = skip + s.start - s.end} {y = skip - length (part s)}
        (omega (arith, length-part, h.ordered))
      ∙ sym (drop-append_ge skip (part s) (session_bytes l) (omega (arith, length-part, h.ordered)))

  pub cut_here :
      (l : List Segment) (skip : ℕ)
      → skip + s.start < s.end
      → drop skip (part s) ++ session_bytes l ≡ drop skip (part s ++ session_bytes l)
  cut_here l skip here =
      sym (drop-append_le skip (part s) (session_bytes l) (omega (arith, length-part, h.ordered)))

  pub byte_before :
      (l : List Segment) (k : ℕ)
      → k + s.start < s.end
      → inside_line (drop (s.start + k) (content s))
        ≡ inside_line (drop k (part s ++ session_bytes l))
  byte_before l k here =
      sym (inside_line-take (s.start + k) s.end (content s) (omega arith))
      ∙ ap inside_line (sym (drop-drop k s.start (take s.end (content s))))
      ∙ sym (
          inside_line-append (drop k (part s)) (session_bytes l)
            (omega (arith, length-drop k (part s), length-part, h.ordered)))
      ∙ ap inside_line (
          sym (drop-append_le k (part s) (session_bytes l) (omega (arith, length-part, h.ordered))))
