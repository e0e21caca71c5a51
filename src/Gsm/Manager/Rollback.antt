-- ===== src/Gsm/Manager/Rollback.antt =====
-- A failed start leaves no process behind, and the state of a refused or failed start.
use gsm_system.Base.{
  ℕ, ◌≡◌, refl, sym, ap, ◌∙◌, inl, inr, ◌==◌, Bool, true, false, not, [], ◌∷◌, ◌++◌, List, Option,
  none, some, if◌then◌else◌, arith, Bool-cases, Option-cases,
}
use gsm_system.Gsm.Params.{StartParams, FieldIssue, validate}
use gsm_system.Gsm.Sms.Session.{Session, BeginError, begin}
use gsm_system.Gsm.Manager.{Service, Process, Manager, cell_running}
use gsm_system.Gsm.Manager.Launch.{Post, Post-and_then, Post-and_then_all}
use gsm_system.Gsm.Manager.Start.{
  no_log, exited_during_startup, exited_before_completion, not_ready, not_saved, to_error,
  wait_for_ready, check_alive, StartEnv, StartError, invalid, cancelled, already_running,
  not_configured, unknown_iface, no_dirs, no_device, no_network_rule, start_valid, Effect,
  ensured_rule, removed_pid_file, configured, launched, stopped, cleared_tmsis, saved, Attempt,
  and_then_on, and_then, proceed, check, return_error, add_child, start_unless_running, launch,
  stop_managed_reverse, split_last, Outcome, settle, failed, with_session, prepare, refused, start,
}

abbrev remove : Process → List Process → List Process
remove p [] = []
remove p (q ∷ l) = if q.pid == p.pid then l else q ∷ remove p l

-- The children that run after an effect, the latest first.
abbrev pub replay_one : Effect → List Process → List Process
replay_one (launched p) ps = p ∷ ps
replay_one (stopped p) ps = remove p ps
replay_one _ ps = ps

unfoldable pub replay : List Effect → List Process → List Process
replay [] ps = ps
replay (e ∷ es) ps = replay es (replay_one e ps)

-- Children in the order of their start, on top of others.
abbrev pub stack : List Process → List Process → List Process
stack [] ps = ps
stack (p ∷ l) ps = stack l (p ∷ ps)

pub replay-append :
    (es fs : List Effect) (ps : List Process) → replay (es ++ fs) ps ≡ replay fs (replay es ps)
unfolding replay
replay-append [] fs ps = refl
replay-append (e ∷ es) fs ps = replay-append es fs (replay_one e ps)

stack-append :
    (l : List Process) (p : Process) (ps : List Process) → stack (l ++ p ∷ []) ps ≡ p ∷ stack l ps
stack-append [] p ps = refl
stack-append (q ∷ l) p ps = stack-append l p (q ∷ ps)

==_refl : (n : ℕ) → (n == n) ≡ true
==_refl n = ground arith

remove-top : (p : Process) (ps : List Process) → remove p (p ∷ ps) ≡ ps
remove-top p ps = rw (==_refl p.pid) refl

replay-stop_managed_reverse :
    (l ps : List Process) → replay (stop_managed_reverse l) (stack l ps) ≡ ps
unfolding stop_managed_reverse replay
replay-stop_managed_reverse [] ps = refl
replay-stop_managed_reverse (p ∷ l) ps =
    replay-append (stop_managed_reverse l) (stopped p ∷ []) (stack l (p ∷ ps))
    ∙ ap (remove p) (replay-stop_managed_reverse l (p ∷ ps))
    ∙ remove-top p ps

-- The effects of an attempt that began with the children `owned` leave its own children running.
Tracks : List Process → Attempt → Type 0
Tracks owned a = (ps : List Process) → replay a.effects (stack owned ps) ≡ stack a.owned ps

Tracks-and_then :
    (owned : List Process) (a : Attempt) (f : List Process → Attempt)
    → Tracks owned a
    → ((o : List Process) → Tracks o (f o))
    → Tracks owned (and_then a f)
unfolding Tracks
Tracks-and_then owned a f h g ps = elim (Option-cases a.error) [
  | inr (e, eq) ↦ rw (eq, and_then_on) (h ps)
  | inl eq ↦
      rw (eq, and_then_on)
        (replay-append a.effects (f a.owned).effects (stack owned ps)
          ∙ ap (replay (f a.owned).effects) (h ps)
          ∙ g a.owned ps)
]

Tracks-add_child :
    (s : Service) (pid : Option ℕ) (owned : List Process) → Tracks owned (add_child s pid owned)
unfolding Tracks replay
Tracks-add_child s none owned ps = refl
Tracks-add_child s (some pid) owned ps =
    sym (stack-append owned (record { service = s; pid = pid }) ps)

Tracks-start_unless_running :
    (env : StartEnv) (s : Service) (owned : List Process)
    → Tracks owned (start_unless_running env s owned)
unfolding Tracks replay
Tracks-start_unless_running env s owned = elim (Bool-cases (env.name_runs s)) [
  | inl r ↦ rw r (λ ps. refl)
  | inr r ↦ rw r (Tracks-add_child s (env.spawn s) owned)
]

Tracks-return_error :
    (e : Option StartError) (owned : List Process) → Tracks owned (return_error e owned)
unfolding Tracks replay
Tracks-return_error e owned ps = refl

Tracks-check : (ok : Bool) (e : StartError) (owned : List Process) → Tracks owned (check ok e owned)
unfolding Tracks replay
Tracks-check ok e owned ps = refl

Tracks-clear :
    (b : Bool) (owned : List Process)
    → Tracks owned (proceed (if b then cleared_tmsis ∷ [] else []) owned)
unfolding Tracks replay
Tracks-clear true owned ps = refl
Tracks-clear false owned ps = refl

Tracks-saved :
    (p : StartParams) (owned : List Process) → Tracks owned (proceed (saved p ∷ []) owned)
unfolding Tracks replay
Tracks-saved p owned ps = refl

Tracks-launch : (env : StartEnv) (p : StartParams) → Tracks [] (launch env p)
unfolding launch
Tracks-launch env p =
    Tracks-and_then _ _ _ (Tracks-start_unless_running env Service.sip_auth_serve []) λ o.
      Tracks-and_then _ _ _ (Tracks-start_unless_running env Service.smqueue o) λ o.
        Tracks-and_then _ _ _ (Tracks-start_unless_running env Service.asterisk o) λ o.
          Tracks-and_then _ _ _ (Tracks-check (not env.cancelled_waiting) cancelled o) λ o.
            Tracks-and_then _ _ _ (Tracks-return_error _ o) λ o.
              Tracks-and_then _ _ _ (Tracks-check env.log_opens _ o) λ o.
                Tracks-and_then _ _ _
                  (Tracks-add_child Service.open_bts (env.spawn Service.open_bts) o)
                  λ o. Tracks-and_then _ _ _ (Tracks-return_error _ o) λ o.
                    Tracks-and_then _ _ _ (Tracks-clear env.clears_tmsis o) λ o.
                      Tracks-and_then _ _ _ (Tracks-check (not env.cancelled_ready) cancelled o)
                        λ o. Tracks-and_then _ _ _ (Tracks-return_error _ o) λ o.
                          Tracks-and_then _ _ _ (Tracks-check env.is_saved _ o)
                            λ o. Tracks-saved p o

-- An attempt that has not failed has OpenBTS as its last child.
EndsInCell : List Process → Type 0
EndsInCell owned =
    (services : List Process) × (cell : Process) × (owned ≡ services ++ cell ∷ [])
    × (cell.service ≡ Service.open_bts)

Post-add_child :
    (pid : Option ℕ) (owned : List Process) → Post EndsInCell (add_child Service.open_bts pid owned)
unfolding Post EndsInCell
Post-add_child none owned e = absurd (cc e)
Post-add_child (some pid) owned e =
    (owned, record { service = Service.open_bts; pid = pid }, refl, refl)

Post-and_then_kept :
    (a : Attempt) (f : List Process → Attempt)
    → Post EndsInCell a
    → ((o : List Process) → EndsInCell o → Post EndsInCell (f o))
    → Post EndsInCell (and_then a f)
Post-and_then_kept a f h g = Post-and_then EndsInCell a f (λ e. g a.owned (unfold Post in h e))

Post-same :
    (owned : List Process) (es : List Effect) (e : Option StartError)
    → EndsInCell owned
    → Post EndsInCell (record { owned = owned; effects = es; error = e })
unfolding Post
Post-same owned es e h _ = h

-- What follows the start of OpenBTS keeps the children.
abbrev started : StartEnv → StartParams → List Process → Attempt
started env p o = and_then (return_error (to_error not_ready (wait_for_ready env.wait)) o) λ o.
    and_then (proceed (if env.clears_tmsis then cleared_tmsis ∷ [] else []) o) λ o.
      and_then (check (not env.cancelled_ready) cancelled o) λ o.
        and_then (check_alive exited_before_completion env.alive_ready o)
          λ o. and_then (check env.is_saved not_saved o) λ o. proceed (saved p ∷ []) o

Post-started :
    (env : StartEnv) (p : StartParams) (o : List Process)
    → EndsInCell o
    → Post EndsInCell (started env p o)
Post-started env p o h =
    Post-and_then_kept (return_error (to_error not_ready (wait_for_ready env.wait)) o) _
      (Post-same o _ _ h)
      λ o h.
        Post-and_then_kept (proceed (if env.clears_tmsis then cleared_tmsis ∷ [] else []) o) _
          (Post-same o _ _ h)
          λ o h.
            Post-and_then_kept (check (not env.cancelled_ready) cancelled o) _ (Post-same o _ _ h)
              λ o h.
                Post-and_then_kept (check_alive exited_before_completion env.alive_ready o) _
                  (Post-same o _ _ h)
                  λ o h.
                    Post-and_then_kept (check env.is_saved not_saved o) _ (Post-same o _ _ h)
                      λ o h. Post-same o (saved p ∷ []) none h

Post-launch : (env : StartEnv) (p : StartParams) → Post EndsInCell (launch env p)
unfolding launch
Post-launch env p =
    Post-and_then_all EndsInCell (start_unless_running env Service.sip_auth_serve []) _ λ o _.
      Post-and_then_all EndsInCell (start_unless_running env Service.smqueue o) _ λ o _.
        Post-and_then_all EndsInCell (start_unless_running env Service.asterisk o) _ λ o _.
          Post-and_then_all EndsInCell (check (not env.cancelled_waiting) cancelled o) _ λ o _.
            Post-and_then_all EndsInCell (check_alive exited_during_startup env.alive_waiting o) _
              λ o _. Post-and_then_all EndsInCell (check env.log_opens no_log o) _ λ o _.
                Post-and_then_kept (add_child Service.open_bts (env.spawn Service.open_bts) o) _
                  (Post-add_child (env.spawn Service.open_bts) o) (Post-started env p)

split_last-append : (l : List Process) (p : Process) → split_last (l ++ p ∷ []) ≡ (l, some p)
split_last-append [] p = refl
split_last-append (q ∷ []) p = refl
split_last-append (q ∷ (q' ∷ l)) p = rw (split_last-append (q' ∷ l) p) refl

-- How a start ends: refused without any effect, failed with its children stopped again and the
-- session forgotten, or done.
pub data Ended (m : Manager) (o : Outcome) : Type 0 where
  was_refused : (e : StartError) → o ≡ refused m e → Ended m o
  has_failed :
      (e : StartError)
      → o.error ≡ some e
      → o.manager ≡ record m { sms_session = none }
      → ((ps : List Process) → replay o.effects ps ≡ ps)
      → Ended m o
  is_done :
      (services : List Process) (cell : Process)
      → cell.service ≡ Service.open_bts
      → o.error ≡ none
      → o.manager.open_bts ≡ some cell
      → o.manager.owned_children ≡ services
      → ((ps : List Process) → replay o.effects ps ≡ cell ∷ stack services ps)
      → Ended m o

abbrev Quiet : List Effect → Type 0
Quiet es = (ps : List Process) → replay es ps ≡ ps

settle-Ended :
    (env : StartEnv) (p : StartParams) (m : Manager) (s : Option Session) (es : List Effect)
    (a : Attempt)
    → Quiet es
    → Tracks [] a
    → Post EndsInCell a
    → let o = settle env p (record m { sms_session = s }) a in
      Ended m (record o { effects = es ++ o.effects })
unfolding settle Tracks Post EndsInCell
settle-Ended env p m s es a quiet h cell = elim (Option-cases a.error) [
  | inr (e, eq) ↦
      rw (eq, settle)
        (has_failed e refl refl λ ps.
          replay-append es (a.effects ++ stop_managed_reverse a.owned) ps
          ∙ ap (replay (a.effects ++ stop_managed_reverse a.owned)) (quiet ps)
          ∙ replay-append a.effects (stop_managed_reverse a.owned) ps
          ∙ ap (replay (stop_managed_reverse a.owned)) (h ps)
          ∙ replay-stop_managed_reverse a.owned ps)
  | inl eq ↦
      let (services, last, owned, named) = cell eq in
      rw (eq, settle)
        (is_done services last named refl
          (ap (λ r. r.1) (ap split_last owned ∙ split_last-append services last))
          (ap (λ r. r.0) (ap split_last owned ∙ split_last-append services last))
          λ ps.
            replay-append es a.effects ps
            ∙ ap (replay a.effects) (quiet ps)
            ∙ h ps
            ∙ ap (λ l. stack l ps) owned
            ∙ stack-append services last ps)
]

failed-Ended :
    (m : Manager) (es : List Effect) (e : StartError) → Quiet es → Ended m (failed m es e)
failed-Ended m es e quiet = has_failed e refl refl quiet

with_session-Ended :
    (env : StartEnv) (p : StartParams) (m : Manager) (es : List Effect)
    (r : Option Session × Option BeginError)
    → Quiet es
    → Ended m (with_session env p (record m { sms_session = none }) es r)
with_session-Ended env p m es (s, some e) quiet = has_failed _ refl refl quiet
with_session-Ended env p m es (s, none) quiet =
    settle-Ended env p m s es (launch env p) quiet (Tracks-launch env p) (Post-launch env p)

if-Ended :
    (b : Bool) {m : Manager} {x y : Outcome} → Ended m x → Ended m y → Ended m (if b then x else y)
if-Ended true h g = h
if-Ended false h g = g

prepare-Ended :
    (env : StartEnv) (p : StartParams) (m : Manager)
    → Ended m (prepare env p (record m { sms_session = none }))
unfolding prepare replay
prepare-Ended env p m =
    if-Ended (not env.iface_exists) (failed-Ended m [] unknown_iface λ ps. refl) (
      if-Ended (not env.has_dirs) (failed-Ended m [] no_dirs λ ps. refl) (
        if-Ended (not env.device_connected) (failed-Ended m [] no_device λ ps. refl) (
          if-Ended (not env.rule_ensured) (failed-Ended m [] no_network_rule λ ps. refl) (
            if-Ended (not env.is_configured) (failed-Ended m before not_configured λ ps. refl) (
              if-Ended env.cancelled_configured (failed-Ended m after cancelled λ ps. refl) (
                with_session-Ended env p m after
                  (begin env.session_time env.session_log env.session_id none) λ ps. refl))))))
  where
    before : List Effect
    before = ensured_rule p.network ∷ removed_pid_file ∷ []

    after : List Effect
    after = before ++ configured p ∷ []

start_valid-Ended :
    (i : Option FieldIssue) (env : StartEnv) (p : StartParams) (m : Manager)
    → Ended m (start_valid i env p m)
start_valid-Ended (some i) env p m = was_refused (invalid i) refl
start_valid-Ended none env p m = if-Ended env.cancelled_at_lock (was_refused cancelled refl) (
    if-Ended (cell_running env.at_lock m) (was_refused already_running refl)
      (prepare-Ended env p m))

-- A start with any parameters, whatever each of its calls returns: it is refused and changes
-- nothing, or it fails, stops again exactly the children that it started, so that those of before
-- still run and no other, and only forgets the SMS session; or it succeeds, and the children that
-- run on top of those of before are those that the manager owns: its services and, started last,
-- its OpenBTS.
pub start-Ended : (env : StartEnv) (p : StartParams) (m : Manager) → Ended m (start env p m)
unfolding start
start-Ended env p m = start_valid-Ended (validate p) env p m
