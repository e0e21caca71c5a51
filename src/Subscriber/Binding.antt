-- ===== src/Subscriber/Binding.antt =====
-- internal/subscriber/store.go: `Get`, `Bind` and `Unbind` over the results of the calls of sqlite3.
use gsm_system.Base.{
  ℕ, ◌==◌, ltb, Bool, true, false, not, ◌&&◌, ◌||◌, [], ◌∷◌, List, Option, none, some,
  if◌then◌else◌,
}
use gsm_system.Base.Text.{Text, codes, eqb}
use gsm_system.Base.Number.{ℤ, pos, negsuc, atoi}
use gsm_system.Subscriber.Snapshot.{Subscriber, subscribers_from_snapshot}

pub data StoreError : Type 0 where
  not_found : StoreError
  conflict : StoreError
  inconsistent : StoreError
  fails : StoreError  -- any other error

-- The rows that a query returns, or `none` if the file is missing or the command fails.
abbrev pub Rows : Type 0
Rows = Option (List (List Text))

pub data Answer {ℓ} (A : Type ℓ) : Type ℓ where
  answer : A → Answer A
  error : StoreError → Answer A

-- `List`
unfoldable pub list_all : Rows → Answer (List Subscriber)
list_all none = error fails
list_all (some rows) = elim (subscribers_from_snapshot rows) [
  | none ↦ error inconsistent
  | some l ↦ answer l
]

abbrev only_one : Answer (List Subscriber) → Answer Subscriber
only_one (error e) = error e
only_one (answer []) = error not_found
only_one (answer (s ∷ [])) = answer s
only_one (answer (s ∷ t ∷ l)) = error inconsistent

-- `Get`
unfoldable pub get : Rows → Answer Subscriber
get rows = only_one (list_all rows)

-- `bindingState`
pub record BindingState : Type 0 where
  pub sip_count : ℤ
  pub dial_count : ℤ
  pub conflicts : ℤ

abbrev counts : Option ℤ → Option ℤ → Option ℤ → Option BindingState
counts (some a) (some b) (some c) = some (record { sip_count = a; dial_count = b; conflicts = c })
counts _ _ _ = none

unfoldable pub binding_state : Rows → Option BindingState
binding_state (some ((a ∷ b ∷ c ∷ []) ∷ [])) = counts (atoi a) (atoi b) (atoi c)
binding_state _ = none

abbrev pub is_int : ℕ → ℤ → Bool
is_int n (pos m) = m == n
is_int n (negsuc m) = false

abbrev pub above_one : ℤ → Bool
above_one (pos m) = ltb 1 m
above_one (negsuc m) = false

-- The checks before the transaction, made once more when it fails.
abbrev pub refusal : BindingState → Option StoreError
refusal s =
    if is_int 0 s.sip_count
    then some not_found
    else if not (is_int 1 s.sip_count) || above_one s.dial_count
    then some inconsistent
    else if not (is_int 0 s.conflicts)
    then some conflict
    else none

pub data Projection : Type 0 where
  unavailable failed not_present updated : Projection

-- What `projectTMSI` gets: whether there is a TMSI database, its count, and whether the update runs.
pub record TmsiEnv : Type 0 where
  pub exists : Bool
  pub rows : Rows
  pub update_runs : Bool

abbrev project_count : Bool → Rows → Projection
project_count runs (some ((n ∷ []) ∷ [])) =
    if eqb n (codes "0")
    then not_present
    else if not (eqb n (codes "1"))
    then failed
    else if runs
    then updated
    else failed
project_count runs _ = failed

-- `projectTMSI`
unfoldable pub project_tmsi : TmsiEnv → Projection
project_tmsi env = if not env.exists then unavailable else project_count env.update_runs env.rows

pub record Result : Type 0 where
  pub subscriber : Subscriber
  pub projection : Projection

pub record StoreEnv : Type 0 where
  pub before : Rows  -- the counts of `bindingState`, or the rows of `Get` for `Unbind`
  pub transaction_runs : Bool
  pub after_failure : Rows
  pub after : Rows
  pub tmsi : TmsiEnv

abbrev pub has_number : Text → Option Text → Bool
has_number n none = false
has_number n (some m) = eqb m n

abbrev pub confirm : (Subscriber → Bool) → TmsiEnv → Answer Subscriber → Answer Result
confirm ok env (error e) = error e
confirm ok env (answer s) =
    if ok s
    then answer (record { subscriber = s; projection = project_tmsi env })
    else error inconsistent

abbrev pub is_bound : Text → Subscriber → Bool
is_bound number s = has_number number s.number && s.consistent

abbrev pub explain : Option BindingState → StoreError
explain none = fails
explain (some s) = elim (refusal s) [ some e ↦ e | none ↦ fails ]

abbrev pub bind_checked : StoreEnv → Text → Option StoreError → Answer Result
bind_checked env number (some e) = error e
bind_checked env number none =
    if env.transaction_runs
    then confirm (is_bound number) env.tmsi (get env.after)
    else error (explain (binding_state env.after_failure))

abbrev pub bind_state : StoreEnv → Text → Option BindingState → Answer Result
bind_state env number none = error fails
bind_state env number (some s) = bind_checked env number (refusal s)

-- `Bind`
unfoldable pub bind_number : StoreEnv → Text → Answer Result
bind_number env number = bind_state env number (binding_state env.before)

abbrev pub has_none : Option Text → Bool
has_none none = true
has_none (some n) = false

abbrev pub is_unbound : Subscriber → Bool
is_unbound s = has_none s.number && s.consistent

abbrev pub unbind_known : StoreEnv → Answer Subscriber → Answer Result
unbind_known env (error e) = error e
unbind_known env (answer s) =
    if env.transaction_runs then confirm is_unbound env.tmsi (get env.after) else error fails

-- `Unbind`
unfoldable pub unbind_number : StoreEnv → Answer Result
unbind_number env = unbind_known env (get env.before)
