-- ===== src/Api/Route/Exact.antt =====
-- internal/api/v1.go: an operation is reached only at its own address.
use gsm_system.Base.{
  ◌≡◌, refl, sym, subst, Bool, true, false, ◌||◌, [], ◌∷◌, List, any, All, Bool-cases, inl, inr,
}
use gsm_system.Base.Text.{Text, codes, is_empty, contains}
use gsm_system.Gsm.Params.{valid_imsi}
use gsm_system.Gsm.Presets.{valid_preset_id}
use gsm_system.Api.Route.{
  Method, get, post, put, patch, delete, same_method, Handler, Routed, handled, allow,
  require_no_query, checked, cell_handler, presets_handler, config_handler, preset_handler,
  number_handler, get_or_write, Resource, serve_at, resource_in, fixed_paths, serve_v1,
}
use gsm_system.Api.Route.Reached.{OnHandled, OnHandled-unless, OnHandled-checked}
use gsm_system.Api.Route.Addresses.{verb, address}
use gsm_system.Api.Route.Paths.{At, resource_in-At, fixed_paths-At}

-- A handler is at its address.
abbrev IsAt : Method → Text → Handler → Type 0
IsAt m path h = (m ≡ verb h) × (path ≡ address h)

same_method-eq : (m n : Method) → same_method m n ≡ true → m ≡ n
same_method-eq get get h = refl
same_method-eq post post h = refl
same_method-eq put put h = refl
same_method-eq patch patch h = refl
same_method-eq delete delete h = refl
same_method-eq m n h = absurd (cc)

any_listed :
    (Q : Method → Type 0) (m : Method) (l : List Method)
    → All Q l
    → any (same_method m) l ≡ true
    → Q m
any_listed Q m [] h e = absurd (cc)
any_listed Q m (n ∷ l) h e = elim (Bool-cases (same_method m n)) [
  | inl same ↦ subst Q (sym (same_method-eq m n same)) h.0
  | inr apart ↦ any_listed Q m l h.1 (rw apart at e)
]

module _ (path : Text) where
  -- What holds of the answer to each listed method holds behind `allow`.
  OnHandled-allowed :
      (m : Method) (ms : List Method) (next : Method → Routed)
      → All (λ n. OnHandled (IsAt n path) (next n)) ms
      → OnHandled (IsAt m path) (allow m ms (next m))
  OnHandled-allowed m ms next h = elim (Bool-cases (any (same_method m) ms)) [
    | inl e ↦ rw e (any_listed (λ n. OnHandled (IsAt n path) (next n)) m ms h e)
    | inr e ↦ rw e tt
  ]

  OnHandled-query :
      (m : Method) (q : Bool) (h : Handler)
      → IsAt m path h
      → OnHandled (IsAt m path) (require_no_query q (handled h))
  OnHandled-query m true h a = a
  OnHandled-query m false h a = tt

  OnHandled-valid :
      (m : Method) (q valid : Bool) (h : Handler)
      → IsAt m path h
      → OnHandled (IsAt m path) (require_no_query q (checked valid (handled h)))
  OnHandled-valid m true true h a = a
  OnHandled-valid m true false h a = tt
  OnHandled-valid m false valid h a = tt

  serve_at-IsAt :
      (m : Method) (q : Bool) (r : Resource) → At path r → OnHandled (IsAt m path) (serve_at m q r)
  unfolding serve_at
  serve_at-IsAt m q Resource.nothing a = tt
  serve_at-IsAt m q Resource.cell a =
      OnHandled-allowed m (get ∷ post ∷ delete ∷ [])
        (λ n. require_no_query q (handled (cell_handler n)))
        (
          OnHandled-query get q Handler.cell_status (refl, a),
          (
            OnHandled-query post q Handler.cell_start (refl, a),
            (OnHandled-query delete q Handler.cell_stop (refl, a), tt),
          ),
        )
  serve_at-IsAt m q Resource.presets a =
      OnHandled-allowed m (get ∷ post ∷ []) (λ n. require_no_query q (handled (presets_handler n)))
        (
          OnHandled-query get q Handler.preset_list (refl, a),
          (OnHandled-query post q Handler.preset_create (refl, a), tt),
        )
  serve_at-IsAt m q Resource.config a =
      OnHandled-allowed m (get ∷ patch ∷ []) (λ n. require_no_query q (handled (config_handler n)))
        (
          OnHandled-query get q Handler.config_get (refl, a),
          (OnHandled-query patch q Handler.config_patch (refl, a), tt),
        )
  serve_at-IsAt m q Resource.profile a =
      OnHandled-allowed m (get ∷ []) (λ n. require_no_query q (handled Handler.profile_get))
        (OnHandled-query get q Handler.profile_get (refl, a), tt)
  serve_at-IsAt m q Resource.health_check a =
      OnHandled-allowed m (get ∷ []) (λ n. require_no_query q (handled Handler.health))
        (OnHandled-query get q Handler.health (refl, a), tt)
  serve_at-IsAt m q Resource.connection_list a =
      OnHandled-allowed m (get ∷ []) (λ n. handled Handler.connections) ((refl, a), tt)
  serve_at-IsAt m q Resource.subscribers a =
      OnHandled-allowed m (get ∷ []) (λ n. handled Handler.subscriber_list) ((refl, a), tt)
  serve_at-IsAt m q Resource.active_calls a =
      OnHandled-allowed m (get ∷ []) (λ n. handled Handler.calls) ((refl, a), tt)
  serve_at-IsAt m q Resource.history a =
      OnHandled-allowed m (get ∷ []) (λ n. handled Handler.call_history) ((refl, a), tt)
  serve_at-IsAt m q Resource.messages a =
      OnHandled-allowed m (get ∷ post ∷ [])
        (λ n. get_or_write n q Handler.sms_list Handler.sms_send)
        ((refl, a), (OnHandled-query post q Handler.sms_send (refl, a), tt))
  serve_at-IsAt m q Resource.network a =
      OnHandled-allowed m (get ∷ put ∷ [])
        (λ n. get_or_write n q Handler.network_get Handler.network_put)
        ((refl, a), (OnHandled-query put q Handler.network_put (refl, a), tt))
  serve_at-IsAt m q (Resource.preset id) a =
      OnHandled-unless (IsAt m path) (is_empty id || contains id (codes "/")) _ (
        OnHandled-checked (IsAt m path) (valid_preset_id id) _ λ _.
          OnHandled-allowed m (get ∷ put ∷ delete ∷ [])
            (λ n. require_no_query q (handled (preset_handler id n)))
            (
              OnHandled-query get q (Handler.preset_get id) (refl, a),
              (
                OnHandled-query put q (Handler.preset_update id) (refl, a),
                (OnHandled-query delete q (Handler.preset_delete id) (refl, a), tt),
              ),
            ))
  serve_at-IsAt m q (Resource.subscriber imsi) a =
      OnHandled-allowed m (get ∷ [])
        (λ n.
          require_no_query q (checked (valid_imsi imsi) (handled (Handler.subscriber_get imsi))))
        (OnHandled-valid get q (valid_imsi imsi) (Handler.subscriber_get imsi) (refl, a), tt)
  serve_at-IsAt m q (Resource.subscriber_number imsi) a =
      OnHandled-allowed m (put ∷ delete ∷ [])
        (λ n. require_no_query q (checked (valid_imsi imsi) (handled (number_handler imsi n))))
        (
          OnHandled-valid put q (valid_imsi imsi) (Handler.subscriber_bind imsi) (refl, a),
          (
            OnHandled-valid delete q (valid_imsi imsi) (Handler.subscriber_unbind imsi) (refl, a),
            tt,
          ),
        )

-- An operation is reached at its own address only: whatever the method, the path and the query of
-- a request are, if it reaches an operation, then the method and the path are those of it.
pub serve_v1-IsAt :
    (m : Method) (path : Text) (no_query : Bool)
    → OnHandled (λ h. (m ≡ verb h) × (path ≡ address h)) (serve_v1 m path no_query)
unfolding serve_v1
serve_v1-IsAt m path no_query =
    serve_at-IsAt path m no_query (resource_in fixed_paths path)
      (resource_in-At fixed_paths path fixed_paths-At)
