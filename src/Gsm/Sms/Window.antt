-- ===== src/Gsm/Sms/Window.antt =====
-- What a read of the session returns of log files that only grow while they are read: the last
-- lines of the session's bytes, wherever a rotation has put them.
pub mod Parts
pub mod Gather
use gsm_system.Base.{
  take-drop_slice, ℕ, zero, suc, ◌+◌, ◌-◌, ◌≤◌, ◌<◌, ◌≡◌, ◌∙◌, refl, sym, ap, ◌==◌, ltb, leb, Bool,
  true, false, not, [], ◌∷◌, List, ◌++◌, append-nil, Option, none, some, length, take, drop, slice,
  drop-drop, drop-append_le, drop-append_ge, length-append, length-take, length-drop, if◌then◌else◌,
  arith, Bool-cases, inl, inr, leb→le, leb→gt, le→leb, lt→ltb, ltb-false, ltb-eq, gt→leb, ap₂,
  drop-nil, All,
}
use gsm_system.Base.Text.{Text}
use gsm_system.Gsm.Sms.{Cursor, read_at}
use gsm_system.Gsm.Sms.Span.{
  Segment, boundary, Read, fail, span, sum_starts, sum_ends, read_file, newline, cuts_line,
  cut_line, put_before, gather, trim_lines, starts_inside, unchanged, finish, copy_span,
}
use gsm_system.Gsm.Sms.Window.Gather.{
  gather_checked, cut_line-suc, cut_line-next, gather_inside, gather_past, gather_next, result,
  gather_between, gather_second, gather_two,
}
use gsm_system.Gsm.Sms.Window.Parts.{
  content, part, session_bytes, IsStable, inside_line, cut_inside, last_lines, inside_line-take,
  inside_line-append, cuts_line-take, read_at_eq, length-part, read_file-part, read_file-byte,
  skip_past, cut_here, byte_before,
}

-- The session's bytes in one file, or in the backup and a log that it was rotated to.
pub data IsSession : Segment → List Segment → Type 0 where
  one : {s : Segment} → IsStable s → IsSession s []
  two : {s t : Segment} → IsStable s → IsStable t → t.start ≡ 0 → IsSession s (t ∷ [])

session-All : (s : Segment) (l : List Segment) → IsSession s l → All IsStable (s ∷ l)
session-All s [] (one h) = (h, tt)
session-All s (t ∷ []) (two h g _) = (h, (g, tt))
session-All s (t ∷ u ∷ l) h = elim h [ ]

length-session_bytes :
    (l : List Segment) → All IsStable l → length (session_bytes l) + sum_starts l ≡ sum_ends l
length-session_bytes [] h = refl
length-session_bytes (s ∷ l) (h, hs) = omega (
  arith,
  length-append (part s) (session_bytes l),
  length-part s h,
  h.ordered,
  length-session_bytes l hs,
)

gather_session :
    (s : Segment) (l : List Segment) (k : ℕ) (d : Bool)
    → IsSession s l
    → suc k < length (session_bytes (s ∷ l))
    → gather none (s ∷ l) (suc k) false d ≡ result k (session_bytes (s ∷ l))
gather_session s [] k d (one h) enough =
    gather_inside none s [] k d h tt (omega (arith, length-session_bytes (s ∷ []) (h, tt)))
gather_session s (t ∷ []) k d (two h g first) enough =
    gather_two s t k d h g first (omega (arith, length-session_bytes (s ∷ t ∷ []) (h, (g, tt))))
gather_session s (t ∷ u ∷ l) k d h enough = elim h [ ]

gather_limit :
    (s : Segment) (l : List Segment) (limit : ℕ) (d : Bool)
    → IsSession s l
    → 0 < limit
    → let b = session_bytes (s ∷ l) in
      let bound = limit + sum_starts (s ∷ l) in
      let cut = ltb bound (sum_ends (s ∷ l)) in
      gather none (s ∷ l) (if cut then sum_ends (s ∷ l) - bound else 0) (not cut) d
      ≡ some (drop (length b - limit) b, cut_inside d (length b - limit) b)
gather_limit s l limit d h pos =
    let b = session_bytes (s ∷ l) in
    let bound = limit + sum_starts (s ∷ l) in
    let size = length-session_bytes (s ∷ l) (session-All s l h) in
    elim (Bool-cases (leb (sum_ends (s ∷ l)) bound)) [
      | inl all_fits ↦
          rw (ltb-false bound (sum_ends (s ∷ l)) (leb→le (sum_ends (s ∷ l)) bound all_fits)) (
            gather_checked none (s ∷ l) 0 d (session-All s l h)
            ∙ ap (λ n. some (drop n b, cut_inside d n b)) {x = 0} {y = length b - limit}
                (omega (arith, size, leb→le (sum_ends (s ∷ l)) bound all_fits)))
      | inr more ↦ rw (lt→ltb bound (sum_ends (s ∷ l)) (leb→gt (sum_ends (s ∷ l)) bound more)) (
          ap (λ n. gather none (s ∷ l) n false d) {x = sum_ends (s ∷ l) - bound}
            {y = suc (length b - limit - 1)}
            (omega (arith, size, leb→gt (sum_ends (s ∷ l)) bound more))
          ∙ gather_session s l (length b - limit - 1) d h
              (omega (arith, size, leb→gt (sum_ends (s ∷ l)) bound more))
          ∙ ap (λ n. some (drop n b, cut_inside d n b)) {x = suc (length b - limit - 1)}
              {y = length b - limit} (omega (arith, size, leb→gt (sum_ends (s ∷ l)) bound more)))
    ]

finish-some :
    (ok t : Bool) (b : Text) (d : Bool)
    → finish ok t (some (b, d)) ≡ (if ok then span (trim_lines d b) t else fail boundary)
finish-some true t b d = refl
finish-some false t b d = refl

truncated_eq :
    (s : Segment) (l : List Segment) (limit : ℕ)
    → IsSession s l
    → ltb (limit + sum_starts (s ∷ l)) (sum_ends (s ∷ l))
      ≡ ltb limit (length (session_bytes (s ∷ l)))
truncated_eq s l limit h =
    ltb-eq (limit + sum_starts (s ∷ l)) (sum_ends (s ∷ l)) limit (length (session_bytes (s ∷ l)))
      (omega (arith, length-session_bytes (s ∷ l) (session-All s l h)))

-- If the files that hold the session only grow while they are copied, there are at most two of
-- them and `limit` is positive, then reading gives exactly the whole lines among the last `limit`
-- bytes of the session, wherever a rotation divides them, and reports whether bytes were left out;
-- or the boundary is lost, when a check after the copy fails.
pub copy_span-eq-last_lines :
    (start : Cursor) (end : Option Cursor) (limit : ℕ) (s : Segment) (l : List Segment)
    → IsSession s l
    → 0 < limit
    → let b = session_bytes (s ∷ l) in
      copy_span start end limit (s ∷ l) ≡ (
        if unchanged start end s l
        then span (last_lines (starts_inside start.anchor) limit b) (ltb limit (length b))
        else fail boundary)
unfolding copy_span
copy_span-eq-last_lines start end limit s l h pos =
    let b = session_bytes (s ∷ l) in
    let d = starts_inside start.anchor in
    ap (finish (unchanged start end s l) (ltb (limit + sum_starts (s ∷ l)) (sum_ends (s ∷ l))))
      (gather_limit s l limit d h pos)
    ∙ finish-some (unchanged start end s l) (ltb (limit + sum_starts (s ∷ l)) (sum_ends (s ∷ l)))
        (drop (length b - limit) b) (cut_inside d (length b - limit) b)
    ∙ ap (λ t. if unchanged start end s l then span (last_lines d limit b) t else fail boundary)
        (truncated_eq s l limit h)

abbrev whole_read : Cursor → ℕ → Text → Read
whole_read start limit b =
    span (last_lines (starts_inside start.anchor) limit b) (ltb limit (length b))

-- A rotation in the middle of a session is not seen: from the same launch cursor, one growing log
-- and the same bytes divided between a backup and a log give the same answer, if no check after
-- the copy fails in either.
copy_span-rotated :
    (start : Cursor) (end end' : Option Cursor) (limit : ℕ) (s u v : Segment)
    → IsSession s []
    → IsSession u (v ∷ [])
    → part s ≡ part u ++ part v
    → 0 < limit
    → unchanged start end s [] ≡ true
    → unchanged start end' u (v ∷ []) ≡ true
    → copy_span start end limit (s ∷ []) ≡ copy_span start end' limit (u ∷ v ∷ [])
copy_span-rotated start end end' limit s u v h g same pos ok ok' =
    copy_span-eq-last_lines start end limit s [] h pos
    ∙ ap (λ c. if c then whole_read start limit (session_bytes (s ∷ [])) else fail boundary) ok
    ∙ ap (whole_read start limit) {x = session_bytes (s ∷ [])} {y = session_bytes (u ∷ v ∷ [])}
        (append-nil (part s) ∙ same ∙ sym (ap (λ t. part u ++ t) (append-nil (part v))))
    ∙ ap (λ c. if c then whole_read start limit (session_bytes (u ∷ v ∷ [])) else fail boundary)
        (sym ok')
    ∙ sym (copy_span-eq-last_lines start end' limit u (v ∷ []) g pos)
