-- ===== src/NetworkRule.antt =====
-- internal/networkrule/networkrule.go: the one NAT rule that the project manages.
-- The iptables command is a parameter: what its check and its append do to a table.
pub mod Ensured
pub mod Tests
use gsm_system.Base.{ℕ, zero, suc, Bool, true, false, Option, none, some, if◌then◌else◌}
use gsm_system.Base.Text.{Text}

-- How a command ends: with an exit code, or not at all (not found, killed, timed out).
pub data Exit : Type 0 where
  exited : ℕ → Exit
  unavailable : Exit

-- `iptables -t nat -C` and `-A` for the managed network and an interface.
pub record Iptables (Table : Type 0) : Type 0 where
  pub check : Text → Table → Exit
  pub append : Text → Table → Table × Exit

pub data RuleError : Type 0 where
  check_fails append_fails : RuleError

pub data Presence : Type 0 where
  is_present is_absent : Presence
  unknown : RuleError → Presence

abbrev pub presence_of : Exit → Presence
presence_of (exited zero) = is_present
presence_of (exited (suc zero)) = is_absent
presence_of (exited (suc (suc n))) = unknown check_fails
presence_of unavailable = unknown check_fails

module _ {Table : Type 0} (iptables : Iptables Table) where
  -- `Present`
  unfoldable pub present : Text → Table → Presence
  present iface t = presence_of (iptables.check iface t)

  abbrev pub appended : Table × Exit → Table × Bool × Option RuleError
  appended (t, exited zero) = (t, true, none)
  appended (t, exited (suc n)) = (t, false, some append_fails)
  appended (t, unavailable) = (t, false, some append_fails)

  abbrev pub ensure_from : Text → Table → Presence → Table × Bool × Option RuleError
  ensure_from iface t is_present = (t, false, none)
  ensure_from iface t is_absent = appended (iptables.append iface t)
  ensure_from iface t (unknown e) = (t, false, some e)

  -- `Ensure`: the table, whether the call changed it, and the error.
  unfoldable pub ensure : Text → Table → Table × Bool × Option RuleError
  ensure iface t = ensure_from iface t (present iface t)
