-- ===== src/NetworkRule/Tests.antt =====
-- A table that is a list of interfaces.
use gsm_system.Base.{◌≡◌, refl, sym, ap, ◌∙◌, true, ◌||◌, [], ◌∷◌, List, none, if◌then◌else◌}
use gsm_system.Base.Text.{Text, codes, eqb_refl, one_of}
use gsm_system.NetworkRule.{exited, Iptables, present, ensure}

abbrev pub list_iptables : Iptables (List Text)
list_iptables = record {
  check = λ iface t. if one_of t iface then exited 0 else exited 1;
  append = λ iface t. (iface ∷ t, exited 0);
}

pub list_append_adds :
    (iface : Text) (t t' : List Text)
    → list_iptables.append iface t ≡ (t', exited 0)
    → list_iptables.check iface t' ≡ exited 0
list_append_adds iface t t' e =
    ap (λ r. list_iptables.check iface r.0) (sym e)
    ∙ ap (λ b. if b || one_of t iface then exited 0 else exited 1) (eqb_refl iface)

first_ensure : ensure list_iptables (codes "eth0") [] ≡ (codes "eth0" ∷ [], true, none)
unfolding ensure present
first_ensure = refl
