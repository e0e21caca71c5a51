-- ===== src/Gsm/Manager/Launch.antt =====
-- What holds when `Start` returns no error.
use gsm_system.Base.{
  ℕ, ◌≡◌, ◌≢◌, refl, subst, inl, inr, Bool, true, false, not, [], ◌∷◌, ◌++◌, List, All, Option,
  none, some, if◌then◌else◌, Bool-cases, Option-cases,
}
use gsm_system.Base.Text.{Text}
use gsm_system.Gsm.Params.{StartParams, FieldIssue, validate}
use gsm_system.Gsm.Sms.{Cursor}
use gsm_system.Gsm.Sms.Span.{File}
use gsm_system.Gsm.Sms.Session.{State, Session, BeginError, new_session, mark_of, begin, commit}
use gsm_system.Gsm.Manager.{Service, Process, Manager, cell_running}
use gsm_system.Gsm.Manager.Start.{
  StartEnv, StartError, invalid, cancelled, already_running, unknown_iface, no_dirs, no_device,
  no_network_rule, not_configured, no_session, not_ready, exited_during_startup,
  exited_before_completion, not_saved, Effect, ensured_rule, removed_pid_file, configured,
  cleared_tmsis, saved, Attempt, and_then_on, and_then, proceed, check, return_error, add_child,
  first_exited, to_error, start_unless_running, check_alive, launch, Outcome, settle, failed,
  with_session, prepare, refused, start_valid, start, wait_for_ready,
}

-- A property of the children that holds if the attempt has not failed.
unfoldable pub Post : (List Process → Type 0) → Attempt → Type 0
Post P a = a.error ≡ none → P a.owned

some≢none {ℓ} : {A : Type ℓ} {a : A} → some a ≢ none
some≢none = cc

pub Post-and_then :
    (P : List Process → Type 0) (a : Attempt) (f : List Process → Attempt)
    → (a.error ≡ none → Post P (f a.owned))
    → Post P (and_then a f)
unfolding Post
Post-and_then P a f h = elim (Option-cases a.error) [
  | inl eq ↦ rw (eq, and_then_on) (h eq)
  | inr (e, eq) ↦ rw (eq, and_then_on) (λ bad. absurd (some≢none bad))
]

pub Post-and_then_all :
    (P : List Process → Type 0) (a : Attempt) (f : List Process → Attempt)
    → ((o : List Process) → a.error ≡ none → Post P (f o))
    → Post P (and_then a f)
Post-and_then_all P a f h = Post-and_then P a f (h a.owned)

All-alive :
    (alive : ℕ → Bool) (l : List Process)
    → first_exited alive l ≡ none
    → All (λ q. alive q.pid ≡ true) l
All-alive alive [] h = tt
All-alive alive (q ∷ l) h = elim (Bool-cases (alive q.pid)) [
  | inl e ↦ (
    e,
    All-alive alive l
        (subst (λ b. (if b then first_exited alive l else some q.service) ≡ none) e h),
  )
  | inr e ↦
      absurd
        (some≢none (subst (λ b. (if b then first_exited alive l else some q.service) ≡ none) e h))
]

to_error-none {ℓ} :
    {A : Type ℓ} (f : A → StartError) (o : Option A) → to_error f o ≡ none → o ≡ none
to_error-none f none h = refl
to_error-none f (some a) h = absurd (some≢none h)

pub record Launched (env : StartEnv) (owned : List Process) : Type 0 where
  pub ready : wait_for_ready env.wait ≡ none
  pub all_alive : All (λ q. env.alive_ready q.pid ≡ true) owned
  pub profile : env.is_saved ≡ true

check-true : (b : Bool) (e : StartError) (o : List Process) → (check b e o).error ≡ none → b ≡ true
check-true true e o h = refl
check-true false e o h = absurd (some≢none h)

Post-proceed :
    (P : List Process → Type 0) (es : List Effect) (o : List Process) → P o → Post P (proceed es o)
unfolding Post
Post-proceed P es o h _ = h

Post-checked :
    (env : StartEnv) (p : StartParams)
    → wait_for_ready env.wait ≡ none
    → (o : List Process)
    → Post (Launched env) (
        and_then
          (check_alive exited_before_completion env.alive_ready o)
          λ o. and_then (check env.is_saved not_saved o) λ o. proceed (saved p ∷ []) o)
Post-checked env p ready o = Post-and_then _ _ _ λ alive. Post-and_then _ _ _ λ kept.
    Post-proceed _ _ _ (record {
      ready = ready;
      all_alive =
          All-alive env.alive_ready o
            (to_error-none exited_before_completion (first_exited env.alive_ready o) alive);
      profile = check-true env.is_saved not_saved o kept;
    })

Post-launch : (env : StartEnv) (p : StartParams) → Post (Launched env) (launch env p)
unfolding launch
Post-launch env p =
    Post-and_then_all _ (start_unless_running env Service.sip_auth_serve []) _ λ o _.
      Post-and_then_all _ (start_unless_running env Service.smqueue o) _ λ o _.
        Post-and_then_all _ (start_unless_running env Service.asterisk o) _ λ o _.
          Post-and_then_all _ (check (not env.cancelled_waiting) cancelled o) _ λ o _.
            Post-and_then_all _ (check_alive exited_during_startup env.alive_waiting o) _ λ o _.
              Post-and_then_all _ (check env.log_opens StartError.no_log o) _ λ o _.
                Post-and_then_all _ (add_child Service.open_bts (env.spawn Service.open_bts) o) _
                  λ o _.
                    Post-and_then_all _
                      (return_error (to_error not_ready (wait_for_ready env.wait)) o) _
                      λ o ready.
                        Post-and_then_all _
                          (proceed (if env.clears_tmsis then cleared_tmsis ∷ [] else []) o) _
                          λ o _.
                            Post-and_then_all _ (check (not env.cancelled_ready) cancelled o) _
                              λ o _.
                                Post-checked env p
                                  (to_error-none not_ready (wait_for_ready env.wait) ready) o

-- What a successful start has established.
pub record Succeeds (env : StartEnv) (p : StartParams) (m : Manager) (o : Outcome) : Type 0 where
  pub is_valid : validate p ≡ none
  pub was_idle : cell_running env.at_lock m ≡ false
  pub launched : Launched env (launch env p).owned
  pub profile : o.manager.last_start ≡ p
  pub session : (s : Session) × (o.manager.sms_session ≡ some s) × (s.state ≡ State.running)

NoError : (Outcome → Type 0) → Outcome → Type 0
NoError P o = o.error ≡ none → P o

module _ (P : Outcome → Type 0) where
  NoError-if :
      (b : Bool) (x y : Outcome)
      → (b ≡ true → NoError P x)
      → (b ≡ false → NoError P y)
      → NoError P (if b then x else y)
  NoError-if true x y f g = f refl
  NoError-if false x y f g = g refl

  NoError-failed : (m : Manager) (es : List Effect) (e : StartError) → NoError P (failed m es e)
  unfolding NoError
  NoError-failed m es e h = absurd (some≢none h)

  NoError-refused : (m : Manager) (e : StartError) → NoError P (refused m e)
  unfolding NoError
  NoError-refused m e h = absurd (some≢none h)

-- What `begin` returns without an error is a starting session.
abbrev Begun : Option Session × Option BeginError → Type 0
Begun (s, some e) = Unit
Begun (none, none) = ⊥
Begun (some s, none) = s.state ≡ State.starting

new_session-Begun :
    (now : ℕ) (c : Option Cursor) (id : Option Text) (s : Option Session)
    → Begun (new_session now c id s)
new_session-Begun now none id s = tt
new_session-Begun now (some c) none s = tt
new_session-Begun now (some c) (some id) s = refl

begin-Begun :
    (now : ℕ) (f : Option File) (id : Option Text) (s : Option Session) → Begun (begin now f id s)
unfolding begin
begin-Begun now none id s = tt
begin-Begun now (some f) id s = new_session-Begun now (mark_of f) id s

commit-starting :
    (s : Session)
    → s.state ≡ State.starting
    → commit (some s) ≡ some (record s { state = State.running })
unfolding commit
commit-starting s e = rw (e, commit) refl

module _ (env : StartEnv) (p : StartParams) (m : Manager) (is_valid : validate p ≡ none)
    (was_idle : cell_running env.at_lock m ≡ false) where
  settle-Succeeds :
      (s : Session) (es : List Effect)
      → s.state ≡ State.starting
      → let o = settle env p (record m { sms_session = some s }) (launch env p) in
        NoError (Succeeds env p m) (record o { effects = es ++ o.effects })
  unfolding NoError settle commit Post
  settle-Succeeds s es e = elim (Option-cases (launch env p).error) [
    | inr (err, eq) ↦ rw (eq, settle) (λ bad. absurd (some≢none bad))
    | inl eq ↦
        rw (eq, settle)
          (λ _. record {
            is_valid = is_valid;
            was_idle = was_idle;
            launched = Post-launch env p eq;
            profile = refl;
            session = (record s { state = State.running }, commit-starting s e, refl);
          })
  ]

  with_session-Succeeds :
      (es : List Effect) (r : Option Session × Option BeginError)
      → Begun r
      → NoError (Succeeds env p m) (with_session env p m es r)
  with_session-Succeeds es (s, some e) h = NoError-failed (Succeeds env p m) m es (no_session e)
  with_session-Succeeds es (none, none) h = elim h [ ]
  with_session-Succeeds es (some s, none) h = settle-Succeeds s es h

prepare-Succeeds :
    (env : StartEnv) (p : StartParams) (m : Manager)
    → validate p ≡ none
    → cell_running env.at_lock m ≡ false
    → NoError (Succeeds env p m) (prepare env p (record m { sms_session = none }))
unfolding prepare
prepare-Succeeds env p m v i =
    NoError-if _ (not env.iface_exists) _ _ (λ _. NoError-failed _ m [] unknown_iface)
      λ _.
        NoError-if _ (not env.has_dirs) _ _ (λ _. NoError-failed _ m [] no_dirs)
          λ _.
            NoError-if _ (not env.device_connected) _ _ (λ _. NoError-failed _ m [] no_device)
              λ _.
                NoError-if _ (not env.rule_ensured) _ _ (λ _. NoError-failed _ m [] no_network_rule)
                  λ _.
                    NoError-if _ (not env.is_configured) _ _
                      (λ _. NoError-failed _ m before not_configured)
                      λ _.
                        NoError-if _ env.cancelled_configured _ _
                          (λ _. NoError-failed _ m after cancelled)
                          λ _.
                            with_session-Succeeds env p m v i after
                              (begin env.session_time env.session_log env.session_id none)
                              (begin-Begun env.session_time env.session_log env.session_id none)
  where
    before : List Effect
    before = ensured_rule p.network ∷ removed_pid_file ∷ []

    after : List Effect
    after = before ++ configured p ∷ []

start_valid-Succeeds :
    (env : StartEnv) (p : StartParams) (m : Manager) (v : Option FieldIssue)
    → validate p ≡ v
    → NoError (Succeeds env p m) (start_valid v env p m)
start_valid-Succeeds env p m (some i) e = NoError-refused _ m (invalid i)
start_valid-Succeeds env p m none e =
    NoError-if _ env.cancelled_at_lock _ _ (λ _. NoError-refused _ m cancelled)
      λ _.
        NoError-if _ (cell_running env.at_lock m) _ _ (λ _. NoError-refused _ m already_running)
          λ idle. prepare-Succeeds env p m e idle

-- A start that returns no error had valid parameters and no running cell; waiting for readiness
-- returned no error, all children it started were alive at the end, the profile was saved, and the
-- manager has these parameters and a running SMS session.
pub start-Succeeds :
    (env : StartEnv) (p : StartParams) (m : Manager)
    → (start env p m).error ≡ none
    → Succeeds env p m (start env p m)
unfolding start NoError
start-Succeeds env p m h = start_valid-Succeeds env p m (validate p) refl h
