-- ===== src/Api/Writes/Guarded.antt =====
-- internal/api/v1.go: when a request may change the network rule, and what an accepted binding is.
use gsm_system.Base.{
  ◌≡◌, refl, ap, ◌∙◌, ◌⊎◌, Bool, true, false, Option, none, some, Bool-cases, inl, inr, arith,
}
use gsm_system.Base.Text.{Text, trim_space, one_of}
use gsm_system.Gsm.Params.{valid_number}
use gsm_system.Gsm.Manager.{Seen, Manager, ran, cell_running, with_stopped_cell}
use gsm_system.Subscriber.Binding.{
  StoreError, conflict, inconsistent, fails, StoreEnv, Answer, answer, error, Result, bind_number,
}
use gsm_system.Subscriber.Agree.{OnAnswer, Binds, bind_number-Binds}
use gsm_system.NetworkRule.{exited, Iptables, RuleError, is_present, present, ensure}
use gsm_system.NetworkRule.Ensured.{ensure_twice}
use gsm_system.Api.Cell.{Code}
use gsm_system.Api.Identity.{service_codes}
use gsm_system.Api.Writes.{
  validate_iface, rule_code, handle_network_put, valid_binding_number, bind_tested,
  subscriber_reply, subscriber_code, handle_subscriber_bind,
}

abbrev pub is_ok : Code → Bool
is_ok Code.ok = true
is_ok _ = false

-- A property where the answer is no error.
abbrev pub WhenOk : Code → Type 0 → Type 0
WhenOk Code.ok P = P
WhenOk _ P = Unit

when_ok : (c : Code) {P : Type 0} → (is_ok c ≡ true → P) → WhenOk c P
when_ok Code.ok f = f refl
when_ok _ f = tt

module _ {Table : Type 0} (iptables : Iptables Table) where
  -- Either the rules are as they were and the answer is an error, or the cell was stopped, the
  -- interface valid, and the rule was ensured.
  data PutNetwork (seen : Seen) (m : Manager) (body : Text) (t : Table) (r : Table × Bool × Code)
      : Type 0 where
    kept : r.0 ≡ t → r.1 ≡ false → is_ok r.2 ≡ false → PutNetwork seen m body t r
    ensured :
        cell_running seen m ≡ false
        → validate_iface (trim_space body) ≡ true
        → (r.0 ≡ (ensure iptables (trim_space body) t).0)
        → (r.1 ≡ (ensure iptables (trim_space body) t).1)
        → (is_ok r.2 ≡ true → (ensure iptables (trim_space body) t).2 ≡ none)
        → PutNetwork seen m body t r

  is_ok-ran : (e : Option RuleError) → is_ok (rule_code iptables (ran e)) ≡ true → e ≡ none
  is_ok-ran none h = refl
  is_ok-ran (some e) h = absurd (cc h)

  handle_network_put-PutNetwork :
      (seen : Seen) (m : Manager) (c : Code) (body : Text) (t : Table)
      → PutNetwork seen m body t (handle_network_put iptables seen m c body t)
  unfolding handle_network_put with_stopped_cell
  handle_network_put-PutNetwork seen m Code.ok body t =
      elim (Bool-cases (validate_iface (trim_space body))) [
        | inr bad ↦ rw bad (kept refl refl refl)
        | inl good ↦ elim (Bool-cases (cell_running seen m)) [
          | inl runs ↦ rw good (rw runs (kept refl refl refl))
          | inr idle ↦ rw good (
              rw idle
                (ensured idle good refl refl (is_ok-ran (ensure iptables (trim_space body) t).2)))
        ]
      ]
  handle_network_put-PutNetwork seen m c body t = kept refl refl refl

  -- The rules are as they were and the answer is an error; or the cell was stopped, the interface
  -- name is valid, and after an answer without an error the rule is present.
  abbrev pub IsGuarded : Seen → Manager → Text → Table → Table × Bool × Code → Type 0
  IsGuarded seen m body t r =
      ((r.0 ≡ t) × (r.1 ≡ false) × (is_ok r.2 ≡ false))
      ⊎ ((cell_running seen m ≡ false)
          × (validate_iface (trim_space body) ≡ true)
          × WhenOk r.2 (present iptables (trim_space body) r.0 ≡ is_present))

  PutNetwork-IsGuarded :
      (append_adds : (iface : Text) (t t' : Table)
        → iptables.append iface t ≡ (t', exited 0)
        → iptables.check iface t' ≡ exited 0)
      (seen : Seen) (m : Manager) (body : Text) (t : Table) (r : Table × Bool × Code)
      → PutNetwork seen m body t r
      → IsGuarded seen m body t r
  PutNetwork-IsGuarded adds seen m body t r (kept same unchanged bad) = inl (same, unchanged, bad)
  PutNetwork-IsGuarded adds seen m body t r (ensured idle good table changed fine) = inr (
    idle,
    good,
    when_ok r.2 λ h.
        ap (λ t'. present iptables (trim_space body) t') table
        ∙ (ensure_twice iptables adds (trim_space body) t (fine h)).0,
  )

  -- If a successful append of iptables makes its check of the same rule succeed: a request for the
  -- network rule changes nothing and is answered with an error, or it found the cell stopped and
  -- the interface name valid, and then the rule is present when the answer is no error. While the
  -- cell runs only the first can be.
  pub handle_network_put-IsGuarded :
      (append_adds : (iface : Text) (t t' : Table)
        → iptables.append iface t ≡ (t', exited 0)
        → iptables.check iface t' ≡ exited 0)
      (seen : Seen) (m : Manager) (c : Code) (body : Text) (t : Table)
      → IsGuarded seen m body t (handle_network_put iptables seen m c body t)
  handle_network_put-IsGuarded adds seen m c body t =
      PutNetwork-IsGuarded adds seen m body t (handle_network_put iptables seen m c body t)
        (handle_network_put-PutNetwork seen m c body t)

subscriber_code-error :
    (missing : Bool) (e : StoreError) → is_ok (subscriber_code missing e) ≡ false
unfolding subscriber_code
subscriber_code-error missing StoreError.not_found = refl
subscriber_code-error missing conflict = refl
subscriber_code-error missing inconsistent = refl
subscriber_code-error true fails = refl
subscriber_code-error false fails = refl

-- What an accepted binding guarantees.
abbrev pub AcceptsBinding : StoreEnv → Text → Option (Answer Result) → Type 0
AcceptsBinding env number r =
    (bound : Result) × (r ≡ some (answer bound))
    × Binds env number bound
    × (valid_number number ≡ true)
    × (one_of service_codes number ≡ false)

ok-ne_error : (c : Code) → is_ok c ≡ true → is_ok c ≡ false → ⊥
ok-ne_error c h k = cc

reply-AcceptsBinding :
    (missing : Bool) (env : StoreEnv) (number : Text) (a : Answer Result)
    → OnAnswer (Binds env number) a
    → valid_number number ≡ true
    → one_of service_codes number ≡ false
    → is_ok (subscriber_reply missing a).0 ≡ true
    → AcceptsBinding env number (some (subscriber_reply missing a).1)
reply-AcceptsBinding missing env number (error e) b v s h =
    absurd (ok-ne_error (subscriber_code missing e) h (subscriber_code-error missing e))
reply-AcceptsBinding missing env number (answer r) b v s h = (r, refl, b, v, s)

binding_parts :
    (number : Text)
    → valid_binding_number number ≡ true
    → (valid_number number ≡ true) × (one_of service_codes number ≡ false)
unfolding valid_binding_number
binding_parts number h = (ground arith, ground arith)

-- A request to bind a number that is answered without an error: the number has two to fifteen
-- digits and is no service number, and the answer is a subscriber that the registry shows after
-- the transaction, with exactly this number and both tables agreeing, which nobody else held.
pub handle_subscriber_bind-AcceptsBinding :
    (missing : Bool) (env : StoreEnv) (number : Text)
    → is_ok (handle_subscriber_bind missing env Code.ok number).0 ≡ true
    → AcceptsBinding env number (handle_subscriber_bind missing env Code.ok number).1
unfolding handle_subscriber_bind
handle_subscriber_bind-AcceptsBinding missing env number h =
    by_test (valid_binding_number number) refl h
  where
    by_test :
        (b : Bool)
        → valid_binding_number number ≡ b
        → is_ok (bind_tested missing env number b).0 ≡ true
        → AcceptsBinding env number (bind_tested missing env number b).1
    by_test true v k =
        reply-AcceptsBinding missing env number (bind_number env number)
          (bind_number-Binds env number) (binding_parts number v).0 (binding_parts number v).1 k
    by_test false v k = absurd (cc k)
