-- ===== src/Gsm/Sms/Bounds/Copied.antt =====
-- The copied bytes fit the limit.
use gsm_system.Base.{
  ℕ, ◌+◌, ◌-◌, ◌≤◌, ◌≡◌, refl, ltb, leb, Bool, true, false, not, [], ◌∷◌, List, Option, none, some,
  length, drop, length-append, length-take, length-drop, if◌then◌else◌, arith, Bool-cases,
  Option-cases, inl, inr, leb→le, leb→gt,
}
use gsm_system.Base.Text.{Text}
use gsm_system.Gsm.Sms.{Cursor, read_at}
use gsm_system.Gsm.Sms.Span.{
  Segment, Read, fail, span, sum_starts, sum_ends, read_file, cut_line, put_before, gather,
  after_line, whole_lines, trim_lines, starts_inside, unchanged, finish, copy_span,
}

abbrev pub HasLength : ℕ → Option Text → Type 0
HasLength n none = Unit
HasLength n (some b) = length b ≡ n

pub read_at-HasLength : (n off : ℕ) (t : Text) → HasLength n (read_at n off t)
read_at-HasLength n off t = elim (Bool-cases (leb (off + n) (length t))) [
  | inl fits ↦ rw fits (
      omega
        (arith, length-take n (drop off t), length-drop off t, leb→le (off + n) (length t) fits))
  | inr short ↦ rw short tt
]

pub read_file-HasLength : (n off : ℕ) (s : Segment) → HasLength n (read_file n off s)
read_file-HasLength n off s = elim (Option-cases s.file.copied) [
  | inl e ↦ rw e tt
  | inr (t, e) ↦ rw e (read_at-HasLength n off t)
]

pub length-whole_lines : (t : Text) → length (whole_lines t) ≤ length t
unfolding whole_lines
length-whole_lines [] = omega arith
length-whole_lines (c ∷ t) = ground (arith, length-whole_lines t)

pub length-after_line : (t : Text) → length (after_line t) ≤ length t
unfolding after_line
length-after_line [] = omega arith
length-after_line (c ∷ t) = ground (arith, length-after_line t)

pub length-trim_lines : (d : Bool) (t : Text) → length (trim_lines d t) ≤ length t
length-trim_lines false t = length-whole_lines t
length-trim_lines true t = omega (arith, length-whole_lines (after_line t), length-after_line t)

-- The bytes of `l` that are not skipped.
abbrev pub remaining : ℕ → List Segment → ℕ
remaining skip l = sum_ends l - (skip + sum_starts l)

abbrev pub Fresh : List Segment → Type 0
Fresh [] = Unit
Fresh (s ∷ l) = (s.start ≡ 0) × Fresh l

pub sum_starts-Fresh : (l : List Segment) → Fresh l → sum_starts l ≡ 0
sum_starts-Fresh [] h = refl
sum_starts-Fresh (s ∷ l) h = omega (arith, h.0, sum_starts-Fresh l h.1)

abbrev pub Fits : ℕ → Option (Text × Bool) → Type 0
Fits n none = Unit
Fits n (some (b, d)) = length b ≤ n

pub Fits-put_before :
    (m n k : ℕ) (chunk : Option Text) (rest : Option (Text × Bool))
    → HasLength m chunk
    → Fits n rest
    → m + n ≤ k
    → Fits k (put_before chunk rest)
Fits-put_before m n k none rest h g l = tt
Fits-put_before m n k (some c) none h g l = tt
Fits-put_before m n k (some c) (some (b, d)) h g l = omega (arith, length-append c b)

pub Fits-le : (m n : ℕ) (o : Option (Text × Bool)) → m ≤ n → Fits m o → Fits n o
Fits-le m n none l h = tt
Fits-le m n (some (b, d)) l h = omega arith

abbrev pub FreshRest : List Segment → Type 0
FreshRest [] = Unit
FreshRest (s ∷ l) = Fresh l

pub Fresh-FreshRest : (l : List Segment) → Fresh l → FreshRest l
Fresh-FreshRest [] h = tt
Fresh-FreshRest (s ∷ l) h = h.1

pub gather-Fits :
    (before : Option Segment) (l : List Segment) (skip : ℕ) (checked d : Bool)
    → FreshRest l
    → Fits (remaining skip l) (gather before l skip checked d)
unfolding gather
gather-Fits before [] skip checked d h = omega arith
gather-Fits before (s ∷ l) skip checked d h = elim (Bool-cases (leb s.end (skip + s.start))) [
  | inl past ↦ rw past (
      Fits-le (remaining (skip + s.start - s.end) l) (remaining skip (s ∷ l))
        (gather (some s) l (skip + s.start - s.end) checked d)
        (omega (arith, leb→le s.end (skip + s.start) past))
        (gather-Fits (some s) l (skip + s.start - s.end) checked d (Fresh-FreshRest l h)))
  | inr here ↦
      rw here
        (elim (Option-cases (if checked then some d else cut_line before s (s.start + skip))) [
          | inl e ↦ rw e tt
          | inr (d', e) ↦ rw e (
              Fits-put_before (s.end - (s.start + skip)) (remaining 0 l) (remaining skip (s ∷ l))
                (read_file (s.end - (s.start + skip)) (s.start + skip) s)
                (gather (some s) l 0 true d')
                (read_file-HasLength (s.end - (s.start + skip)) (s.start + skip) s)
                (gather-Fits (some s) l 0 true d' (Fresh-FreshRest l h))
                (omega (arith, leb→gt s.end (skip + s.start) here, sum_starts-Fresh l h)))
        ])
]

abbrev pub ReadFits : ℕ → Read → Type 0
ReadFits n (fail e) = Unit
ReadFits n (span b t) = length b ≤ n

pub finish-ReadFits :
    (n : ℕ) (ok t : Bool) (o : Option (Text × Bool)) → Fits n o → ReadFits n (finish ok t o)
finish-ReadFits n ok t none h = tt
finish-ReadFits n false t (some (b, d)) h = tt
finish-ReadFits n true t (some (b, d)) h = omega (arith, length-trim_lines d b)

pub copy_span-ReadFits :
    (start : Cursor) (end : Option Cursor) (limit : ℕ) (l : List Segment)
    → FreshRest l
    → ReadFits limit (copy_span start end limit l)
unfolding copy_span
copy_span-ReadFits start end limit [] h = tt
copy_span-ReadFits start end limit (s ∷ l) h =
    let cut = ltb (limit + sum_starts (s ∷ l)) (sum_ends (s ∷ l)) in
    let skip = if cut then sum_ends (s ∷ l) - (limit + sum_starts (s ∷ l)) else 0 in
    let o = gather none (s ∷ l) skip (not cut) (starts_inside start.anchor) in
    finish-ReadFits limit (unchanged start end s l) cut o (
      Fits-le (remaining skip (s ∷ l)) limit o (ground arith)
        (gather-Fits none (s ∷ l) skip (not cut) (starts_inside start.anchor) h))
