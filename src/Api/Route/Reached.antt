-- ===== src/Api/Route/Reached.antt =====
-- internal/api/v1.go: which requests reach a handler that changes something.
use gsm_system.Base.{
  ◌≡◌, refl, ◌⊎◌, inl, inr, Bool, true, false, ◌||◌, [], ◌∷◌, List, any, if◌then◌else◌, Bool-cases,
}
use gsm_system.Base.Text.{Text, codes, is_empty, contains}
use gsm_system.Gsm.Params.{valid_imsi}
use gsm_system.Gsm.Presets.{valid_preset_id}
use gsm_system.Api.Cell.{Code}
use gsm_system.Api.Route.{
  Method, get, post, put, patch, delete, other, same_method, Handler, Routed, handled, refused,
  not_allowed, allow, require_no_query, checked, only_get, get_or_write, cell_handler,
  presets_handler, config_handler, preset_handler, number_handler, Resource, serve_at, resource_in,
  fixed_paths, serve_v1,
}

-- The handlers that change the cell, the stores, the rules, or send a message.
abbrev pub changes_state : Handler → Bool
changes_state Handler.cell_start = true
changes_state Handler.cell_stop = true
changes_state Handler.preset_create = true
changes_state (Handler.preset_update _) = true
changes_state (Handler.preset_delete _) = true
changes_state Handler.config_patch = true
changes_state (Handler.subscriber_bind _) = true
changes_state (Handler.subscriber_unbind _) = true
changes_state Handler.sms_send = true
changes_state Handler.network_put = true
changes_state _ = false

-- The identifier that a handler is given.
abbrev pub names_valid : Handler → Bool
names_valid (Handler.preset_get id) = valid_preset_id id
names_valid (Handler.preset_update id) = valid_preset_id id
names_valid (Handler.preset_delete id) = valid_preset_id id
names_valid (Handler.subscriber_get imsi) = valid_imsi imsi
names_valid (Handler.subscriber_bind imsi) = valid_imsi imsi
names_valid (Handler.subscriber_unbind imsi) = valid_imsi imsi
names_valid _ = true

abbrev pub is_get : Method → Bool
is_get get = true
is_get _ = false

abbrev pub IsCareful : Method → Bool → Handler → Type 0
IsCareful m no_query h =
    ((changes_state h ≡ false) ⊎ ((is_get m ≡ false) × (no_query ≡ true))) × (names_valid h ≡ true)

abbrev pub OnHandled : (Handler → Type 0) → Routed → Type 0
OnHandled P (handled h) = P h
OnHandled P (refused c) = Unit
OnHandled P (not_allowed ms) = Unit

-- `allow`, `requireNoQuery` and a check pass on what holds behind them.
module _ (P : Handler → Type 0) where
  OnHandled-allow :
      (m : Method) (ms : List Method) (r : Routed) → OnHandled P r → OnHandled P (allow m ms r)
  OnHandled-allow m ms r h = elim (Bool-cases (any (same_method m) ms)) [
    | inl e ↦ rw e h
    | inr e ↦ rw e tt
  ]

  OnHandled-no_query :
      (q : Bool) (r : Routed) → (q ≡ true → OnHandled P r) → OnHandled P (require_no_query q r)
  OnHandled-no_query true r f = f refl
  OnHandled-no_query false r f = tt

  pub OnHandled-checked :
      (b : Bool) (r : Routed) → (b ≡ true → OnHandled P r) → OnHandled P (checked b r)
  OnHandled-checked true r f = f refl
  OnHandled-checked false r f = tt

  pub OnHandled-unless :
      (b : Bool) (r : Routed) → OnHandled P r → OnHandled P (if b then refused Code.unknown else r)
  OnHandled-unless true r h = tt
  OnHandled-unless false r h = h

cell-IsCareful : (m : Method) (q : Bool) → q ≡ true → IsCareful m q (cell_handler m)
cell-IsCareful get q e = (inl refl, refl)
cell-IsCareful post q e = (inr (refl, e), refl)
cell-IsCareful put q e = (inl refl, refl)
cell-IsCareful patch q e = (inl refl, refl)
cell-IsCareful delete q e = (inr (refl, e), refl)
cell-IsCareful other q e = (inl refl, refl)

presets-IsCareful : (m : Method) (q : Bool) → q ≡ true → IsCareful m q (presets_handler m)
presets-IsCareful get q e = (inl refl, refl)
presets-IsCareful post q e = (inr (refl, e), refl)
presets-IsCareful put q e = (inr (refl, e), refl)
presets-IsCareful patch q e = (inr (refl, e), refl)
presets-IsCareful delete q e = (inr (refl, e), refl)
presets-IsCareful other q e = (inr (refl, e), refl)

config-IsCareful : (m : Method) (q : Bool) → q ≡ true → IsCareful m q (config_handler m)
config-IsCareful get q e = (inl refl, refl)
config-IsCareful post q e = (inr (refl, e), refl)
config-IsCareful put q e = (inr (refl, e), refl)
config-IsCareful patch q e = (inr (refl, e), refl)
config-IsCareful delete q e = (inr (refl, e), refl)
config-IsCareful other q e = (inr (refl, e), refl)

preset-IsCareful :
    (id : Text) (m : Method) (q : Bool)
    → q ≡ true
    → valid_preset_id id ≡ true
    → IsCareful m q (preset_handler id m)
preset-IsCareful id get q e v = (inl refl, v)
preset-IsCareful id post q e v = (inl refl, v)
preset-IsCareful id put q e v = (inr (refl, e), v)
preset-IsCareful id patch q e v = (inl refl, v)
preset-IsCareful id delete q e v = (inr (refl, e), v)
preset-IsCareful id other q e v = (inl refl, v)

-- Behind `allow` the method is PUT or DELETE.
number-OnHandled :
    (imsi : Text) (m : Method) (q v : Bool)
    → valid_imsi imsi ≡ v
    → OnHandled (IsCareful m q) (
        allow m
          (put ∷ delete ∷ [])
          (require_no_query q (checked v (handled (number_handler imsi m)))))
number-OnHandled imsi get q v e = tt
number-OnHandled imsi post q v e = tt
number-OnHandled imsi patch q v e = tt
number-OnHandled imsi other q v e = tt
number-OnHandled imsi put true true e = (inr (refl, refl), e)
number-OnHandled imsi put true false e = tt
number-OnHandled imsi put false v e = tt
number-OnHandled imsi delete true true e = (inr (refl, refl), e)
number-OnHandled imsi delete true false e = tt
number-OnHandled imsi delete false v e = tt

-- A read that takes query parameters, and a write that takes none.
get_or_write-OnHandled :
    (m : Method) (q : Bool) (read write : Handler)
    → changes_state read ≡ false
    → names_valid read ≡ true
    → names_valid write ≡ true
    → OnHandled (IsCareful m q) (get_or_write m q read write)
get_or_write-OnHandled get q read write s n w = (inl s, n)
get_or_write-OnHandled post true read write s n w = (inr (refl, refl), w)
get_or_write-OnHandled put true read write s n w = (inr (refl, refl), w)
get_or_write-OnHandled patch true read write s n w = (inr (refl, refl), w)
get_or_write-OnHandled delete true read write s n w = (inr (refl, refl), w)
get_or_write-OnHandled other true read write s n w = (inr (refl, refl), w)
get_or_write-OnHandled post false read write s n w = tt
get_or_write-OnHandled put false read write s n w = tt
get_or_write-OnHandled patch false read write s n w = tt
get_or_write-OnHandled delete false read write s n w = tt
get_or_write-OnHandled other false read write s n w = tt

serve_at-IsCareful :
    (m : Method) (q : Bool) (r : Resource) → OnHandled (IsCareful m q) (serve_at m q r)
unfolding serve_at
serve_at-IsCareful m q r = by_resource r
  where
    P : Handler → Type 0
    P = IsCareful m q

    reads :
        (h : Handler)
        → changes_state h ≡ false
        → names_valid h ≡ true
        → OnHandled P (only_get m q h)
    reads h s n =
        OnHandled-allow P m (get ∷ []) (require_no_query q (handled h))
          (OnHandled-no_query P q (handled h) (λ _. (inl s, n)))

    by_resource : (r : Resource) → OnHandled P (serve_at m q r)
    by_resource Resource.nothing = tt
    by_resource Resource.cell =
        OnHandled-allow P m (get ∷ post ∷ delete ∷ [])
          (require_no_query q (handled (cell_handler m)))
          (OnHandled-no_query P q (handled (cell_handler m)) (cell-IsCareful m q))
    by_resource Resource.presets =
        OnHandled-allow P m (get ∷ post ∷ []) (require_no_query q (handled (presets_handler m)))
          (OnHandled-no_query P q (handled (presets_handler m)) (presets-IsCareful m q))
    by_resource Resource.config =
        OnHandled-allow P m (get ∷ patch ∷ []) (require_no_query q (handled (config_handler m)))
          (OnHandled-no_query P q (handled (config_handler m)) (config-IsCareful m q))
    by_resource Resource.profile = reads Handler.profile_get refl refl
    by_resource Resource.health_check = reads Handler.health refl refl
    by_resource Resource.connection_list =
        OnHandled-allow P m (get ∷ []) (handled Handler.connections) (inl refl, refl)
    by_resource Resource.subscribers =
        OnHandled-allow P m (get ∷ []) (handled Handler.subscriber_list) (inl refl, refl)
    by_resource Resource.active_calls =
        OnHandled-allow P m (get ∷ []) (handled Handler.calls) (inl refl, refl)
    by_resource Resource.history =
        OnHandled-allow P m (get ∷ []) (handled Handler.call_history) (inl refl, refl)
    by_resource Resource.messages =
        OnHandled-allow P m (get ∷ post ∷ []) (get_or_write m q Handler.sms_list Handler.sms_send)
          (get_or_write-OnHandled m q Handler.sms_list Handler.sms_send refl refl refl)
    by_resource Resource.network =
        OnHandled-allow P m (get ∷ put ∷ [])
          (get_or_write m q Handler.network_get Handler.network_put)
          (get_or_write-OnHandled m q Handler.network_get Handler.network_put refl refl refl)
    by_resource (Resource.preset id) =
        OnHandled-unless P (is_empty id || contains id (codes "/"))
          (checked (valid_preset_id id) (
            allow m (get ∷ put ∷ delete ∷ []) (require_no_query q (handled (preset_handler id m)))))
          (OnHandled-checked P (valid_preset_id id)
            (allow m (get ∷ put ∷ delete ∷ []) (require_no_query q (handled (preset_handler id m))))
            (λ v.
              OnHandled-allow P m (get ∷ put ∷ delete ∷ [])
                (require_no_query q (handled (preset_handler id m)))
                (OnHandled-no_query P q (handled (preset_handler id m))
                  (λ e. preset-IsCareful id m q e v))))
    by_resource (Resource.subscriber imsi) =
        OnHandled-allow P m (get ∷ [])
          (require_no_query q (checked (valid_imsi imsi) (handled (Handler.subscriber_get imsi))))
          (OnHandled-no_query P q
            (checked (valid_imsi imsi) (handled (Handler.subscriber_get imsi)))
            (λ _.
              OnHandled-checked P (valid_imsi imsi) (handled (Handler.subscriber_get imsi))
                (λ v. (inl refl, v))))
    by_resource (Resource.subscriber_number imsi) = number-OnHandled imsi m q (valid_imsi imsi) refl

-- On every path: a request reaches a handler that changes something only with a method other than
-- GET and without a query, and a handler of one preset or one subscriber is given a valid
-- identifier or IMSI.
pub serve_v1-IsCareful :
    (m : Method) (path : Text) (no_query : Bool)
    → OnHandled (IsCareful m no_query) (serve_v1 m path no_query)
unfolding serve_v1
serve_v1-IsCareful m path no_query = serve_at-IsCareful m no_query (resource_in fixed_paths path)
