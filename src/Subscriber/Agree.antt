-- ===== src/Subscriber/Agree.antt =====
-- What a successful binding or unbinding guarantees.
use gsm_system.Base.{
  ◌≡◌, refl, ap, Bool, true, false, Option, none, some, if◌then◌else◌, arith, Bool-cases, ℕ, ◌≤◌,
  ==_iff, and-eq-true, inl, inr,
}
use gsm_system.Base.Text.{Text, eqb_iff}
use gsm_system.Base.Number.{ℤ, pos, negsuc}
use gsm_system.Subscriber.Snapshot.{Subscriber}
use gsm_system.Subscriber.Binding.{
  StoreError, Answer, answer, error, BindingState, binding_state, refusal, Result, StoreEnv, get,
  has_number, has_none, is_int, above_one, is_bound, is_unbound, confirm, bind_checked, bind_state,
  bind_number, unbind_known, unbind_number,
}

-- `P` of the answer, if there is one.
abbrev pub OnAnswer : (Result → Type 0) → Answer Result → Type 0
OnAnswer P (error e) = Unit
OnAnswer P (answer r) = P r

-- The read after the transaction shows the subscriber that is returned, as `ok` asks for.
pub record IsConfirmed (ok : Subscriber → Bool) (env : StoreEnv) (r : Result) : Type 0 where
  pub accepted : ok r.subscriber ≡ true
  pub shown : get env.after ≡ answer r.subscriber
  pub ran : env.transaction_runs ≡ true

confirm-IsConfirmed :
    (ok : Subscriber → Bool) (env : StoreEnv) (a : Answer Subscriber)
    → get env.after ≡ a
    → env.transaction_runs ≡ true
    → OnAnswer (IsConfirmed ok env) (confirm ok env.tmsi a)
confirm-IsConfirmed ok env (error e) h t = tt
confirm-IsConfirmed ok env (answer s) h t = elim (Bool-cases (ok s)) [
  | inl y ↦ rw y (record { accepted = y; shown = h; ran = t })
  | inr n ↦ rw n tt
]

OnAnswer-if :
    (P : Result → Type 0) (b : Bool) (x y : Answer Result)
    → (b ≡ true → OnAnswer P x)
    → (b ≡ false → OnAnswer P y)
    → OnAnswer P (if b then x else y)
OnAnswer-if P true x y f g = f refl
OnAnswer-if P false x y f g = g refl

abbrev pub AtMostOne : ℤ → Type 0
AtMostOne (pos n) = n ≤ 1
AtMostOne (negsuc n) = Unit

-- The counts that a binding may begin with: one SIP row, at most one dial row, no other holder.
pub record IsFree (s : BindingState) : Type 0 where
  pub one_sip : s.sip_count ≡ pos 1
  pub few_dials : AtMostOne s.dial_count
  pub unheld : s.conflicts ≡ pos 0

is_int-pos : (n : ℕ) (z : ℤ) → is_int n z ≡ true → z ≡ pos n
is_int-pos n (pos m) h = ap pos ((==_iff m n).0 h)
is_int-pos n (negsuc m) h = absurd (cc h)

above_one-AtMostOne : (z : ℤ) → above_one z ≡ false → AtMostOne z
above_one-AtMostOne (pos m) h = ground arith
above_one-AtMostOne (negsuc m) h = tt

refusal-IsFree : (s : BindingState) → refusal s ≡ none → IsFree s
refusal-IsFree s h = elim (Bool-cases (is_int 0 s.sip_count)) [
  | inl e ↦ absurd (cc (rw e at h))
  | inr e ↦ elim (Bool-cases (is_int 1 s.sip_count)) [
    | inr f ↦ absurd (cc (rw (e, f) at h))
    | inl f ↦ elim (Bool-cases (above_one s.dial_count)) [
      | inl g ↦ absurd (cc (rw (e, f, g) at h))
      | inr g ↦ elim (Bool-cases (is_int 0 s.conflicts)) [
        | inr k ↦ absurd (cc (rw (e, f, g, k) at h))
        | inl k ↦ record {
          one_sip = is_int-pos 1 s.sip_count f;
          few_dials = above_one-AtMostOne s.dial_count g;
          unheld = is_int-pos 0 s.conflicts k;
        }
      ]
    ]
  ]
]

pub record Binds (env : StoreEnv) (number : Text) (r : Result) : Type 0 where
  pub bound : r.subscriber.number ≡ some number
  pub consistent : r.subscriber.consistent ≡ true
  pub shown : get env.after ≡ answer r.subscriber
  pub ran : env.transaction_runs ≡ true
  pub allowed : (s : BindingState) × (binding_state env.before ≡ some s) × IsFree s

number-has_number : (n : Text) (o : Option Text) → has_number n o ≡ true → o ≡ some n
number-has_number n none h = absurd (ground arith)
number-has_number n (some m) h = ap some ((eqb_iff m n).0 h)

bind_checked-Binds :
    (env : StoreEnv) (number : Text) (s : BindingState) (e : Option StoreError)
    → binding_state env.before ≡ some s
    → refusal s ≡ e
    → OnAnswer (Binds env number) (bind_checked env number e)
bind_checked-Binds env number s (some e) h g = tt
bind_checked-Binds env number s none h g =
    OnAnswer-if (Binds env number) env.transaction_runs _ _
      (λ t.
        widen (confirm (is_bound number) env.tmsi (get env.after))
          (confirm-IsConfirmed (is_bound number) env (get env.after) refl t))
      (λ _. tt)
  where
    widen :
        (a : Answer Result)
        → OnAnswer (IsConfirmed (is_bound number) env) a
        → OnAnswer (Binds env number) a
    widen (error e) c = tt
    widen (answer r) c =
        let both =
          and-eq-true (has_number number r.subscriber.number) r.subscriber.consistent c.accepted in
        record {
          bound = number-has_number number r.subscriber.number both.0;
          consistent = both.1;
          shown = c.shown;
          ran = c.ran;
          allowed = (s, h, refusal-IsFree s g);
        }

bind_state-Binds :
    (env : StoreEnv) (number : Text) (o : Option BindingState)
    → binding_state env.before ≡ o
    → OnAnswer (Binds env number) (bind_state env number o)
bind_state-Binds env number none h = tt
bind_state-Binds env number (some s) h = bind_checked-Binds env number s (refusal s) h refl

-- Whatever the calls of sqlite3 return: a binding that is answered without an error was preceded
-- by a count of one SIP row, at most one dial row and no other holder of the number, its
-- transaction ran, and the read after it shows the returned subscriber, with exactly this number
-- and both tables agreeing.
pub bind_number-Binds :
    (env : StoreEnv) (number : Text) → OnAnswer (Binds env number) (bind_number env number)
unfolding bind_number
bind_number-Binds env number = bind_state-Binds env number (binding_state env.before) refl

pub record Unbinds (env : StoreEnv) (r : Result) : Type 0 where
  pub unbound : r.subscriber.number ≡ none
  pub consistent : r.subscriber.consistent ≡ true
  pub shown : get env.after ≡ answer r.subscriber
  pub ran : env.transaction_runs ≡ true
  pub known : (s : Subscriber) × (get env.before ≡ answer s)

number-has_none : (o : Option Text) → has_none o ≡ true → o ≡ none
number-has_none none h = refl
number-has_none (some m) h = absurd (ground arith)

unbind_known-Unbinds :
    (env : StoreEnv) (a : Answer Subscriber)
    → get env.before ≡ a
    → OnAnswer (Unbinds env) (unbind_known env a)
unbind_known-Unbinds env (error e) h = tt
unbind_known-Unbinds env (answer s) h =
    OnAnswer-if (Unbinds env) env.transaction_runs _ _
      (λ t.
        widen (confirm is_unbound env.tmsi (get env.after))
          (confirm-IsConfirmed is_unbound env (get env.after) refl t))
      (λ _. tt)
  where
    widen : (a : Answer Result) → OnAnswer (IsConfirmed is_unbound env) a → OnAnswer (Unbinds env) a
    widen (error e) c = tt
    widen (answer r) c =
        let both = and-eq-true (has_none r.subscriber.number) r.subscriber.consistent c.accepted in
        record {
          unbound = number-has_none r.subscriber.number both.0;
          consistent = both.1;
          shown = c.shown;
          ran = c.ran;
          known = (s, h);
        }

-- Whatever the calls of sqlite3 return: an unbinding that is answered without an error was of a
-- subscriber that was registered, its transaction ran, and the read after it shows the returned
-- subscriber, without a number and with both tables agreeing.
unbind_number-Unbinds : (env : StoreEnv) → OnAnswer (Unbinds env) (unbind_number env)
unfolding unbind_number
unbind_number-Unbinds env = unbind_known-Unbinds env (get env.before) refl
