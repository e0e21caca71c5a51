-- ===== src/Gsm/Sms/Window/Gather.antt =====
-- The copying loop over files that only grow: the bytes it gathers and the byte it looks at.
use gsm_system.Base.{
  ℕ, suc, ◌+◌, ◌-◌, ◌≤◌, ◌<◌, ◌≡◌, ◌∙◌, refl, ap, leb, Bool, true, false, [], ◌∷◌, List, Option,
  none, some, drop, arith, Bool-cases, inl, inr, leb→le, leb→gt, le→leb, gt→leb, ap₂, drop-nil, All,
}
use gsm_system.Base.Text.{Text}
use gsm_system.Gsm.Sms.Span.{Segment, read_file, cuts_line, cut_line, put_before, gather}
use gsm_system.Gsm.Sms.Window.Parts.{
  content, part, session_bytes, IsStable, inside_line, read_file-part, read_file-byte, skip_past,
  cut_here, byte_before,
}

-- The read bytes of a stable segment, cut at `skip`, and those of the segments after it.
pub gather_checked :
    (before : Option Segment) (l : List Segment) (skip : ℕ) (d : Bool)
    → All IsStable l
    → gather before l skip true d ≡ some (drop skip (session_bytes l), d)
unfolding gather
gather_checked before [] skip d h = rw drop-nil refl
gather_checked before (s ∷ l) skip d (h, hs) = elim (Bool-cases (leb s.end (skip + s.start))) [
  | inl past ↦ rw past (
      gather_checked (some s) l (skip + s.start - s.end) d hs
      ∙ ap (λ b. some (b, d)) (skip_past s h l skip (leb→le s.end (skip + s.start) past)))
  | inr here ↦ rw here (
      ap (λ c. put_before c (gather (some s) l 0 true d))
        (read_file-part s h skip (omega (arith, leb→gt s.end (skip + s.start) here)))
      ∙ ap (put_before (some (drop skip (part s)))) (gather_checked (some s) l 0 d hs)
      ∙ ap (λ b. some (b, d)) (cut_here s h l skip (leb→gt s.end (skip + s.start) here)))
]

pub cut_line-suc :
    (before : Option Segment) (s : Segment) (m k : ℕ)
    → m ≡ suc k
    → cut_line before s m ≡ cuts_line (read_file 1 k s)
cut_line-suc before s m k e = rw e refl

pub cut_line-next :
    (s t : Segment) (n m : ℕ)
    → n ≡ 0
    → s.end ≡ suc m
    → cut_line (some s) t n ≡ cuts_line (read_file 1 m s)
cut_line-next s t n m e last = rw (e, last) refl

-- A cut inside a segment looks at the byte before it in the same segment.
pub gather_inside :
    (before : Option Segment) (s : Segment) (l : List Segment) (k : ℕ) (d : Bool)
    → IsStable s
    → All IsStable l
    → suc k + s.start < s.end
    → gather before (s ∷ l) (suc k) false d
      ≡ some (drop (suc k) (session_bytes (s ∷ l)), inside_line (drop k (session_bytes (s ∷ l))))
unfolding gather
gather_inside before s l k d h hs cut =
    rw
      (
        gt→leb s.end (suc k + s.start) cut,
        cut_line-suc before s (s.start + suc k) (s.start + k) (omega arith)
            ∙ read_file-byte s h (s.start + k) (omega arith),
      )
      (ap
          (λ c.
            put_before c (gather (some s) l 0 true (inside_line (drop (s.start + k) (content s)))))
          (read_file-part s h (suc k) (omega arith))
        ∙ ap (put_before (some (drop (suc k) (part s))))
            (gather_checked (some s) l 0 (inside_line (drop (s.start + k) (content s))) hs)
        ∙ ap₂ (λ b d'. some (b, d')) (cut_here s h l (suc k) cut)
            (byte_before s h l k (omega arith)))

pub gather_past :
    (before : Option Segment) (s : Segment) (l : List Segment) (skip : ℕ) (c d : Bool)
    → s.end ≤ skip + s.start
    → gather before (s ∷ l) skip c d ≡ gather (some s) l (skip + s.start - s.end) c d
unfolding gather
gather_past before s l skip c d h = rw (le→leb s.end (skip + s.start) h) refl

-- At a cut exactly between two files the last byte of the first one is looked at.
pub gather_next :
    (s t : Segment) (l : List Segment) (m : ℕ) (d : Bool)
    → IsStable s
    → All IsStable (t ∷ l)
    → s.end ≡ suc m
    → t.start ≡ 0
    → 0 < t.end
    → gather (some s) (t ∷ l) 0 false d
      ≡ some (session_bytes (t ∷ l), inside_line (drop m (content s)))
unfolding gather
gather_next s t l m d h (g, gs) last first some_bytes =
    rw
      (
        gt→leb t.end (0 + t.start) (omega arith),
        cut_line-next s t (t.start + 0) m (omega arith) last ∙ read_file-byte s h m (omega arith),
      )
      (ap (λ c. put_before c (gather (some t) l 0 true (inside_line (drop m (content s)))))
          (read_file-part t g 0 (omega arith))
        ∙ ap (put_before (some (part t)))
            (gather_checked (some t) l 0 (inside_line (drop m (content s))) gs))

abbrev pub result : ℕ → Text → Option (Text × Bool)
result k b = some (drop (suc k) b, inside_line (drop k b))

pub gather_between :
    (s t : Segment) (l : List Segment) (k : ℕ) (d : Bool)
    → IsStable s
    → All IsStable (t ∷ l)
    → suc k + s.start ≡ s.end
    → t.start ≡ 0
    → 0 < t.end
    → gather none (s ∷ t ∷ l) (suc k) false d ≡ result k (session_bytes (s ∷ t ∷ l))
gather_between s t l k d h hs cut first some_bytes =
    gather_past none s (t ∷ l) (suc k) false d (omega arith)
    ∙ ap (λ n. gather (some s) (t ∷ l) n false d) {x = suc k + s.start - s.end} {y = 0}
        (omega arith)
    ∙ gather_next s t l (s.start + k) d h hs (omega arith) first some_bytes
    ∙ ap₂ (λ b c. some (b, c))
        (ap (λ n. drop n (session_bytes (t ∷ l))) {x = 0} {y = suc k + s.start - s.end}
            (omega arith)
          ∙ skip_past s h (t ∷ l) (suc k) (omega arith))
        (byte_before s h (t ∷ l) k (omega arith))

pub gather_second :
    (s t : Segment) (k : ℕ) (d : Bool)
    → IsStable s
    → IsStable t
    → t.start ≡ 0
    → s.end < suc k + s.start
    → suc k + s.start < s.end + t.end
    → gather none (s ∷ t ∷ []) (suc k) false d ≡ result k (session_bytes (s ∷ t ∷ []))
gather_second s t k d h g first past enough =
    gather_past none s (t ∷ []) (suc k) false d (omega arith)
    ∙ ap (λ n. gather (some s) (t ∷ []) n false d) {x = suc k + s.start - s.end}
        {y = suc (k + s.start - s.end)} (omega arith)
    ∙ gather_inside (some s) t [] (k + s.start - s.end) d g tt (omega arith)
    ∙ ap₂ (λ b c. some (b, inside_line c))
        (ap (λ n. drop n (session_bytes (t ∷ []))) {x = suc (k + s.start - s.end)}
            {y = suc k + s.start - s.end} (omega arith)
          ∙ skip_past s h (t ∷ []) (suc k) (omega arith))
        (skip_past s h (t ∷ []) k (omega arith))

-- The copying loop over two stable files leaves out `suc k` bytes and looks at the last of them.
pub gather_two :
    (s t : Segment) (k : ℕ) (d : Bool)
    → IsStable s
    → IsStable t
    → t.start ≡ 0
    → suc k + s.start < s.end + t.end
    → gather none (s ∷ t ∷ []) (suc k) false d ≡ result k (session_bytes (s ∷ t ∷ []))
gather_two s t k d h g first enough = elim (Bool-cases (leb s.end (k + s.start))) [
  | inl past ↦
      gather_second s t k d h g first (omega (arith, leb→le s.end (k + s.start) past)) enough
  | inr a ↦ elim (Bool-cases (leb s.end (suc k + s.start))) [
    | inl b ↦
        gather_between s t [] k d h (g, tt)
          (omega (arith, leb→gt s.end (k + s.start) a, leb→le s.end (suc k + s.start) b)) first
          (omega (arith, leb→le s.end (suc k + s.start) b))
    | inr b ↦ gather_inside none s (t ∷ []) k d h (g, tt) (leb→gt s.end (suc k + s.start) b)
  ]
]
