-- ===== src/ProcessLog/Marker.antt =====
-- The child is ready exactly when the marker occurs in what it wrote, however the writes cut it.
use gsm_system.Base.{
  ℕ, ◌+◌, ◌-◌, ◌≤◌, ◌≡◌, refl, sym, ap, ◌∙◌, true, false, List, [], ◌∷◌, ◌++◌, append_assoc,
  append-nil, some, length, take, drop, length-append, length-drop, take-append-drop, leb, ltb, All,
  take-append_le, Bool-cases, inl, inr, arith,
}
use gsm_system.Base.Text.{Text, contains, has_prefix, strip_prefix}
use gsm_system.ProcessLog.{
  ProcessLog, Slice, cut, marker, keep_tail, write, write_all, new_process_log,
}

-- What reached the wrapped writer.
abbrev pub accepted : List (Slice × ℕ) → Text
accepted [] = []
accepted ((d, n) ∷ rest) = take n d.bytes ++ accepted rest

-- As io.Writer asks: no write reports more bytes than it was given.
abbrev pub KeepsCount : Slice × ℕ → Type 0
KeepsCount (d, n) = n ≤ length d.bytes

cut-bytes : (d : Slice) (n : ℕ) → n ≤ length d.bytes → cut d n ≡ some (take n d.bytes)
cut-bytes d n h = rw (few) (ap some (take-append_le n d.bytes d.spare h))
  where
    few : ltb (length (d.bytes ++ d.spare)) n ≡ false
    few = ground (arith, length-append d.bytes d.spare)

has_prefix-append : (p s y : Text) → length p ≤ length s → has_prefix (s ++ y) p ≡ has_prefix s p
unfolding strip_prefix
has_prefix-append [] s y h = refl
has_prefix-append (a ∷ p) [] y h = absurd (omega arith)
has_prefix-append (a ∷ p) (b ∷ s) y h = ground (arith, has_prefix-append p s y)

contains-append_left :
    (p z t y : Text)
    → contains (z ++ t) p ≡ false
    → length p ≤ length t + 1
    → contains (z ++ (t ++ y)) p ≡ contains (t ++ y) p
unfolding contains
contains-append_left p [] t y h l = refl
contains-append_left p (c ∷ z) t y h l = ground (
  arith,
  contains-append_left p z t y,
  has_prefix-append p (c ∷ (z ++ t)) y,
  length-append z t,
  append_assoc z t y,
)

has_prefix-append_true : (p s y : Text) → has_prefix s p ≡ true → has_prefix (s ++ y) p ≡ true
unfolding strip_prefix
has_prefix-append_true [] s y h = refl
has_prefix-append_true (a ∷ p) [] y h = cc
has_prefix-append_true (a ∷ p) (b ∷ s) y h = ground (arith, has_prefix-append_true p s y)

contains_of_has_prefix : (p s : Text) → has_prefix s p ≡ true → contains s p ≡ true
unfolding contains
contains_of_has_prefix p [] h = h
contains_of_has_prefix p (c ∷ s) h = rw h

contains-append_true : (p s y : Text) → contains s p ≡ true → contains (s ++ y) p ≡ true
unfolding contains
contains-append_true p [] y h = contains_of_has_prefix p y (has_prefix-append_true p [] y h)
contains-append_true p (c ∷ s) y h =
    ground (arith, contains-append_true p s y, has_prefix-append_true p (c ∷ s) y)

-- Cutting a text without the marker to its last bytes loses no marker that is still to come.
contains-keep_tail :
    (text y : Text)
    → contains text marker ≡ false
    → contains (text ++ y) marker ≡ contains (keep_tail text ++ y) marker
contains-keep_tail text y h = elim (Bool-cases (leb (length marker) (length text))) [
  | inr short ↦ rw short
  | inl long ↦
      let k : ℕ = length text - length marker + 1 in
      let whole = take-append-drop k text in
      rw long (
        ap (λ t. contains (t ++ y) marker) (sym whole)
        ∙ ap (λ t. contains t marker) (append_assoc (take k text) (drop k text) y)
        ∙ contains-append_left marker (take k text) (drop k text) y (rw whole h)
            (ground (arith, length-drop k text)))
]

-- What the detector knows of the bytes that were accepted so far.
record Tracks (w : ProcessLog) (all : Text) : Type 0 where
  closed : w.ready_closed ≡ w.seen
  found : w.seen ≡ contains all marker
  ahead : w.seen ≡ false → (y : Text) → contains (all ++ y) marker ≡ contains (w.tail ++ y) marker

write-Tracks :
    (w : ProcessLog) (all : Text) (d : Slice) (n : ℕ)
    → n ≤ length d.bytes
    → Tracks w all
    → (w' : ProcessLog) × (write w d n ≡ some w') × Tracks w' (all ++ take n d.bytes)
unfolding write
write-Tracks w all d n fits t = elim (Bool-cases w.seen) [
  | inl s ↦ (
    w,
    rw s,
    record {
      closed = t.closed;
      found = s ∙ sym (contains-append_true marker all (take n d.bytes) (sym t.found ∙ s));
      ahead = λ u. cc;
    },
  )
  | inr s ↦ elim (Bool-cases (contains (w.tail ++ take n d.bytes) marker)) [
    | inl hit ↦ (
      record w { seen = true; ready_closed = true },
      rw (s, cut-bytes d n fits, hit) (rw (t.closed ∙ s)),
      record { closed = refl; found = sym (t.ahead s (take n d.bytes) ∙ hit); ahead = λ u. cc },
    )
    | inr miss ↦ (
      record w { tail = keep_tail (w.tail ++ take n d.bytes) },
      rw (s, cut-bytes d n fits, miss),
      record {
        closed = t.closed;
        found = s ∙ sym (t.ahead s (take n d.bytes) ∙ miss);
        ahead = λ u y.
            ap (λ z. contains z marker) (append_assoc all (take n d.bytes) y)
            ∙ t.ahead s (take n d.bytes ++ y)
            ∙ ap (λ z. contains z marker) (sym (append_assoc w.tail (take n d.bytes) y))
            ∙ contains-keep_tail (w.tail ++ take n d.bytes) y miss;
      },
    )
  ]
]

write_all-Tracks :
    (ws : List (Slice × ℕ)) (w : ProcessLog) (all : Text)
    → All KeepsCount ws
    → Tracks w all
    → (w' : ProcessLog) × (write_all w ws ≡ some w') × Tracks w' (all ++ accepted ws)
unfolding write_all
write_all-Tracks [] w all h t = (w, refl, rw append-nil t)
write_all-Tracks ((d, n) ∷ ws) w all h t =
    let (w', e, t') = write-Tracks w all d n h.0 t in
    let (w2, e2, t2) = write_all-Tracks ws w' (all ++ take n d.bytes) h.1 t' in
    (w2, rw (e, write_all) e2, rw (← append_assoc all (take n d.bytes) (accepted ws)) t2)

new-Tracks : Tracks new_process_log []
unfolding new_process_log contains strip_prefix
new-Tracks = record { closed = refl; found = refl; ahead = λ u y. refl }

-- For every sequence of writes of a new child, in which the wrapped writer reports no more bytes
-- than it was given, as io.Writer asks: no write panics, and afterwards the readiness channel is
-- closed exactly when the marker occurs in the accepted bytes, taken together.
pub ready-eq-contains :
    (ws : List (Slice × ℕ))
    → All KeepsCount ws
    → (w : ProcessLog) × (write_all new_process_log ws ≡ some w)
      × (w.ready_closed ≡ contains (accepted ws) marker)
      × (w.seen ≡ w.ready_closed)
ready-eq-contains ws h =
    let (w, e, t) = write_all-Tracks ws new_process_log [] h new-Tracks in
    (w, e, t.closed ∙ t.found, sym t.closed)
