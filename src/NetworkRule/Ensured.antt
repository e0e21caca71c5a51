-- ===== src/NetworkRule/Ensured.antt =====
-- After a successful `Ensure` the rule is there, once.
use gsm_system.Base.{zero, suc, ◌≡◌, refl, ap, false, none, some}
use gsm_system.Base.Text.{Text}
use gsm_system.NetworkRule.{
  Exit, exited, unavailable, Iptables, Presence, is_present, is_absent, unknown, presence_of,
  present, appended, ensure_from, ensure,
}

module _ {Table : Type 0} (iptables : Iptables Table)
    (append_adds : (iface : Text) (t t' : Table)
      → iptables.append iface t ≡ (t', exited 0)
      → iptables.check iface t' ≡ exited 0) where
  some≢none : {A : Type 0} {a : A} → some a ≡ none → ⊥
  some≢none = cc

  ensured_append :
      (iface : Text) (t : Table) (r : Table × Exit)
      → iptables.append iface t ≡ r
      → (appended iptables r).2 ≡ none
      → present iptables iface (appended iptables r).0 ≡ is_present
  unfolding present
  ensured_append iface t (t', exited zero) e h = ap presence_of (append_adds iface t t' e)
  ensured_append iface t (t', exited (suc n)) e h = absurd (some≢none h)
  ensured_append iface t (t', unavailable) e h = absurd (some≢none h)

  ensured_from :
      (iface : Text) (t : Table) (p : Presence)
      → present iptables iface t ≡ p
      → (ensure_from iptables iface t p).2 ≡ none
      → present iptables iface (ensure_from iptables iface t p).0 ≡ is_present
  ensured_from iface t is_present e h = e
  ensured_from iface t is_absent e h = ensured_append iface t (iptables.append iface t) refl h
  ensured_from iface t (unknown err) e h = absurd (some≢none h)

  ensure-present :
      (iface : Text) (t : Table)
      → present iptables iface t ≡ is_present
      → ensure iptables iface t ≡ (t, false, none)
  unfolding ensure
  ensure-present iface t e = ap (ensure_from iptables iface t) e

  -- If a successful append of iptables makes its check of the same rule succeed, then after an
  -- `Ensure` without an error the rule is present, and a second `Ensure` changes nothing, reports
  -- that it changed nothing and no error: the rule is never added twice.
  pub ensure_twice :
      (iface : Text) (t : Table)
      → (ensure iptables iface t).2 ≡ none
      → (present iptables iface (ensure iptables iface t).0 ≡ is_present)
        × (ensure iptables iface (ensure iptables iface t).0
            ≡ ((ensure iptables iface t).0, false, none))
  unfolding ensure
  ensure_twice iface t h =
      let there = ensured_from iface t (present iptables iface t) refl h in
      (there, ensure-present iface (ensure iptables iface t).0 there)
