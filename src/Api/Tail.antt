-- ===== src/Api/Tail.antt =====
-- internal/api/helpers.go: `readTail`, the last lines of a log file.
use gsm_system.Base.{
  ℕ, zero, suc, ◌-◌, ◌≤◌, ◌<◌, ◌≡◌, ◌∙◌, refl, sym, ap, leb, leb→le, leb→gt, lt→ltb, ltb-false,
  ==_iff, take_all, take-append-drop, append_assoc, ◌==◌, ltb, Bool, true, false, ◌||◌, [], ◌∷◌,
  ◌++◌, Option, none, some, length, take, drop, length-drop, if◌then◌else◌, arith, Bool-cases, inl,
  inr, ◌⊎◌,
}
use gsm_system.Base.Text.{Text}
use gsm_system.Gsm.Sms.Span.{after_line}

-- `tailWindow`
pub record TailWindow : Type 0 where
  pub bytes : ℕ
  pub max_bytes : ℕ
  pub truncated : Bool

pub data TailError : Type 0 where
  bad_size unreadable : TailError

-- An open file: its size when it is asked for, and what is in it when it is read.
pub record TailFile : Type 0 where
  pub size : ℕ
  pub bytes : Text

pub data Tail : Type 0 where
  failed : TailError → Tail
  tail : Text → TailWindow → Tail

abbrev window : ℕ → Bool → Text → Tail
window n t b = tail b (record { bytes = length b; max_bytes = n; truncated = t })

-- What one `io.ReadAll` of a reader limited to one byte more than asked for gives.
abbrev pub from_start : ℕ → TailFile → Text
from_start n f = take (suc n) (drop (if ltb n f.size then f.size - n else 0) f.bytes)

abbrev pub is_cut : ℕ → TailFile → Bool
is_cut n f = ltb n f.size || ltb n (length (from_start n f))

-- `readTail`; `none` is a file that cannot be opened or read.
unfoldable pub read_tail : ℕ → Option TailFile → Tail
read_tail zero f = failed bad_size
read_tail (suc n) none = failed unreadable
read_tail (suc n) (some f) =
    let b = from_start (suc n) f in
    let kept = if ltb (suc n) (length b) then take (suc n) b else b in
    window (suc n) (is_cut (suc n) f) (if is_cut (suc n) f then after_line kept else kept)

-- `b` is an end of `t`, after a newline.
unfoldable pub AfterNewline : Text → Text → Type 0
AfterNewline t b = (before : Text) × (t ≡ before ++ 10 ∷ b)

after_line-cases : (t : Text) → (after_line t ≡ []) ⊎ AfterNewline t (after_line t)
unfolding after_line AfterNewline
after_line-cases [] = inl refl
after_line-cases (c ∷ t) = elim (Bool-cases (c == 10)) [
  | inl e ↦ rw e (inr ([], ap (λ n. n ∷ t) ((==_iff c 10).0 e)))
  | inr e ↦ rw e (later (after_line-cases t))
]
  where
    later :
        (after_line t ≡ []) ⊎ AfterNewline t (after_line t)
        → (after_line t ≡ []) ⊎ AfterNewline (c ∷ t) (after_line t)
    later (inl h) = inl h
    later (inr (before, h)) = inr (c ∷ before, ap (λ u. c ∷ u) h)

AfterNewline-drop : (k : ℕ) (t b : Text) → AfterNewline (drop k t) b → AfterNewline t b
unfolding AfterNewline
AfterNewline-drop k t b (before, h) = (
  take k t ++ before,
  sym (take-append-drop k t)
      ∙ ap (λ u. take k t ++ u) h
      ∙ sym (append_assoc (take k t) before (10 ∷ b)),
)

length-after_line : (t : Text) → length (after_line t) ≤ length t
unfolding after_line
length-after_line [] = omega arith
length-after_line (c ∷ t) = ground (arith, length-after_line t)

-- The last lines of the bytes `t`, at most `n` bytes of them.
pub data IsTail (n : ℕ) (t : Text) : Tail → Type 0 where
  whole :
      length t ≤ n
      → IsTail n t (tail t (record { bytes = length t; max_bytes = n; truncated = false }))
  part :
      (b : Text)
      → n < length t
      → length b ≤ n
      → (b ≡ []) ⊎ AfterNewline t b
      → IsTail n t (tail b (record { bytes = length b; max_bytes = n; truncated = true }))

module _ (n : ℕ) (t : Text) where
  whole_start : length t ≤ n → from_start n (record { size = length t; bytes = t }) ≡ t
  whole_start h = rw (ltb-false n (length t) h) (take_all (suc n) t (omega arith))

  part_start :
      n < length t → from_start n (record { size = length t; bytes = t }) ≡ drop (length t - n) t
  part_start h =
      rw (lt→ltb n (length t) h)
        (take_all (suc n) (drop (length t - n) t) (omega (arith, length-drop (length t - n) t)))

-- Reading the tail of a file that nothing writes to, for a positive size: a file that fits is given
-- whole and is not reported as truncated; of a longer one, reported as truncated, the data fits,
-- and it is empty or begins just after a newline and runs to the end of the file.
pub read_tail-IsTail :
    (n : ℕ) (t : Text)
    → 0 < n
    → IsTail n t (read_tail n (some (record { size = length t; bytes = t })))
unfolding read_tail
read_tail-IsTail zero t h = absurd (omega arith)
read_tail-IsTail (suc m) t h = elim (Bool-cases (leb (length t) (suc m))) [
  | inl fits ↦
      let fits' = leb→le (length t) (suc m) fits in
      rw (whole_start (suc m) t fits', ltb-false (suc m) (length t) fits') (whole fits')
  | inr long ↦
      let long' = leb→gt (length t) (suc m) long in
      let k = length t - suc m in
      let size = length-drop k t in
      rw
        (
          part_start (suc m) t long',
          lt→ltb (suc m) (length t) long',
          ltb-false (suc m) (length (drop k t)) (omega arith),
        )
        (part (after_line (drop k t)) long' (omega (arith, length-after_line (drop k t)))
          (elim (after_line-cases (drop k t)) [
            | inl e ↦ inl e
            | inr e ↦ inr (AfterNewline-drop k t (after_line (drop k t)) e)
          ]))
]
