-- ===== src/Gsm/Sms/Lost.antt =====
-- A session whose boundary is lost stays lost: later operations cannot revive its log.
use gsm_system.Base.{
  ℕ, zero, suc, ◌≡◌, true, refl, sym, ap, subst, [], ◌∷◌, List, Option, none, some, Option-cases,
  inl, inr,
}
use gsm_system.Gsm.Sms.Span.{File, Open}
use gsm_system.Gsm.Sms.Session.{
  State, Session, read_in, commit, end_session, keep_session, lost_reply, read_current, Reply,
}

-- What may happen to a session between two starts.
pub data Event : Type 0 where
  commits : Event
  ends : ℕ → Option File → Event
  reads : ℕ → List Open → List Open → Event

unfoldable pub after_event : Event → Option Session → Option Session
after_event commits s = commit s
after_event (ends now f) s = end_session now f s
after_event (reads n files again) s = (read_current n files again s).0

unfoldable pub after_events : List Event → Option Session → Option Session
after_events [] s = s
after_events (e ∷ es) s = after_events es (after_event e s)

-- The session `s` is lost, and has the identifier and the start of the session `s0`.
abbrev pub IsLost : Session → Option Session → Type 0
IsLost s0 none = ⊥
IsLost s0 (some s) =
    (s.state ≡ State.boundary_lost)
    × (s.id ≡ s0.id)
    × (s.start ≡ s0.start)
    × (s.started ≡ s0.started)

read_in_lost :
    (st : State) (n : ℕ) (files again : List Open) (s : Session)
    → st ≡ State.boundary_lost
    → read_in st n files again s ≡ (s, lost_reply n s)
read_in_lost st n files again s h = rw h refl

after_event-IsLost :
    (e : Event) (s0 : Session) (s : Option Session) → IsLost s0 s → IsLost s0 (after_event e s)
unfolding after_event commit end_session read_current
after_event-IsLost e s0 none h = elim h [ ]
after_event-IsLost commits s0 (some s) h = rw (h.0, commit) h
after_event-IsLost (ends now f) s0 (some s) h = elim (Option-cases s.ended) [
  | inl e ↦ rw (e, h.0, end_session) h
  | inr (t, e) ↦ rw (e, end_session) h
]
after_event-IsLost (reads zero files again) s0 (some s) h = h
after_event-IsLost (reads (suc n) files again) s0 (some s) h =
    subst (IsLost s0)
      (sym (ap (λ r. (keep_session r).0) (read_in_lost s.state (suc n) files again s h.0))) h

after_events-IsLost :
    (es : List Event) (s0 : Session) (s : Option Session)
    → IsLost s0 s
    → IsLost s0 (after_events es s)
unfolding after_events
after_events-IsLost [] s0 s h = h
after_events-IsLost (e ∷ es) s0 s h =
    after_events-IsLost es s0 (after_event e s) (after_event-IsLost e s0 s h)

-- What a read answers of a session that is lost.
pub record TellsLost (n : ℕ) (s0 : Session) (r : Reply) : Type 0 where
  pub no_data : r.data' ≡ []
  pub no_error : r.error ≡ none
  pub lost : r.window.state ≡ some State.boundary_lost
  pub cut : r.window.truncated ≡ true
  pub named : r.window.session_id ≡ s0.id

lost_reads :
    (n : ℕ) (files again : List Open) (s0 : Session) (s : Option Session)
    → IsLost s0 s
    → TellsLost (suc n) s0 (read_current (suc n) files again s).1
unfolding read_current
lost_reads n files again s0 none h = elim h [ ]
lost_reads n files again s0 (some s) h =
    subst (λ r. TellsLost (suc n) s0 (keep_session r).1)
      (sym (read_in_lost s.state (suc n) files again s h.0))
      (record { no_data = refl; no_error = refl; lost = refl; cut = refl; named = h.1 })

-- A session that is lost stays so, as the same session, and reads tell it.
abbrev pub StaysLost : List Event → ℕ → List Open → List Open → Session → Type 0
StaysLost es n files again s =
    IsLost s (after_events es (some s))
    × TellsLost (suc n) s (read_current (suc n) files again (after_events es (some s))).1

-- Once the boundary of a session is lost, commits, ends and reads in any order, with any log
-- files, leave the same session, lost; and every later read of a positive size succeeds, gives no
-- data, names that session, and reports it as lost and cut.
pub lost_forever :
    (es : List Event) (n : ℕ) (files again : List Open) (s : Session)
    → s.state ≡ State.boundary_lost
    → StaysLost es n files again s
lost_forever es n files again s h =
    let lost = after_events-IsLost es s (some s) (h, refl, refl, refl) in
    (lost, lost_reads n files again s (after_events es (some s)) lost)
