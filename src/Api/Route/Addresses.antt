-- ===== src/Api/Route/Addresses.antt =====
-- internal/api/v1.go: every operation has an address, the method and the path that reach it.
use gsm_system.Base.{
  ℕ, ◌≡◌, ◌≢◌, refl, sym, ap, ◌∙◌, true, false, ◌||◌, [], ◌∷◌, ◌++◌, All, All-of_all, if◌then◌else◌,
  arith, ◌==◌, reverse, append_assoc, append-nil,
}
use mathlib.Core.List.{reverse-cons}
use gsm_system.Base.Number.{is_digits}
use gsm_system.Base.Text.{
  Text, codes, is_digit, eqb, is_empty, contains, strip_prefix, split, split_from,
}
use gsm_system.Gsm.Params.{valid_imsi}
use gsm_system.Gsm.Presets.{valid_preset_id, id_char}
use gsm_system.Api.Cell.{Code}
use gsm_system.Api.Route.{
  Method, get, post, put, patch, delete, Handler, handled, refused, checked, subscriber_path,
  serve_at, resource_in, serve_v1, Resource,
}
use gsm_system.Api.Route.Reached.{names_valid}

-- The method of each operation of the interface.
abbrev pub verb : Handler → Method
verb Handler.cell_status = get
verb Handler.cell_start = post
verb Handler.cell_stop = delete
verb Handler.preset_list = get
verb Handler.preset_create = post
verb (Handler.preset_get _) = get
verb (Handler.preset_update _) = put
verb (Handler.preset_delete _) = delete
verb Handler.config_get = get
verb Handler.config_patch = patch
verb Handler.profile_get = get
verb Handler.health = get
verb Handler.connections = get
verb Handler.subscriber_list = get
verb (Handler.subscriber_get _) = get
verb (Handler.subscriber_bind _) = put
verb (Handler.subscriber_unbind _) = delete
verb Handler.sms_list = get
verb Handler.sms_send = post
verb Handler.calls = get
verb Handler.call_history = get
verb Handler.network_get = get
verb Handler.network_put = put

-- The path of each operation behind "/api/v1/".
abbrev path_of : Handler → Text
path_of Handler.cell_status = codes "cell"
path_of Handler.cell_start = codes "cell"
path_of Handler.cell_stop = codes "cell"
path_of Handler.preset_list = codes "presets"
path_of Handler.preset_create = codes "presets"
path_of (Handler.preset_get id) = codes "presets/" ++ id
path_of (Handler.preset_update id) = codes "presets/" ++ id
path_of (Handler.preset_delete id) = codes "presets/" ++ id
path_of Handler.config_get = codes "config"
path_of Handler.config_patch = codes "config"
path_of Handler.profile_get = codes "profile"
path_of Handler.health = codes "health"
path_of Handler.connections = codes "connections"
path_of Handler.subscriber_list = codes "subscribers"
path_of (Handler.subscriber_get imsi) = codes "subscribers/" ++ imsi
path_of (Handler.subscriber_bind imsi) = codes "subscribers/" ++ imsi ++ codes "/number"
path_of (Handler.subscriber_unbind imsi) = codes "subscribers/" ++ imsi ++ codes "/number"
path_of Handler.sms_list = codes "sms"
path_of Handler.sms_send = codes "sms"
path_of Handler.calls = codes "calls"
path_of Handler.call_history = codes "calls/history"
path_of Handler.network_get = codes "network"
path_of Handler.network_put = codes "network"

abbrev pub address : Handler → Text
address h = codes "/api/v1/" ++ path_of h

HasNoSlash : Text → Type 0
HasNoSlash s = All (λ c. c ≢ b'/') s

contains-HasNoSlash : (s : Text) → HasNoSlash s → contains s (codes "/") ≡ false
unfolding contains strip_prefix HasNoSlash
contains-HasNoSlash [] h = refl
contains-HasNoSlash (c ∷ s) h = ground (arith, h.0, contains-HasNoSlash s h.1)

pub reverse-cons_append : (c : ℕ) (cur s : Text) → reverse (c ∷ cur) ++ s ≡ reverse cur ++ c ∷ s
reverse-cons_append c cur s =
    ap (λ r. r ++ s) (reverse-cons c cur) ∙ append_assoc (reverse cur) (c ∷ []) s

no_slash : (c : ℕ) → c ≢ b'/' → (c == b'/') ≡ false
no_slash c h = ground (arith, h)

split_from-HasNoSlash :
    (cur s : Text) → HasNoSlash s → split_from b'/' cur s ≡ (reverse cur ++ s) ∷ []
unfolding split_from HasNoSlash
split_from-HasNoSlash cur [] h = ap (λ r. r ∷ []) (sym (append-nil (reverse cur)))
split_from-HasNoSlash cur (c ∷ s) h =
    rw (no_slash c h.0)
      (split_from-HasNoSlash (c ∷ cur) s h.1 ∙ ap (λ r. r ∷ []) (reverse-cons_append c cur s))

split_from-append :
    (cur s rest : Text)
    → HasNoSlash s
    → split_from b'/' cur (s ++ b'/' ∷ rest) ≡ (reverse cur ++ s) ∷ split_from b'/' [] rest
unfolding split_from HasNoSlash
split_from-append cur [] rest h =
    ap (λ r. r ∷ split_from b'/' [] rest) (sym (append-nil (reverse cur)))
split_from-append cur (c ∷ s) rest h = rw (no_slash c h.0) (
    split_from-append (c ∷ cur) s rest h.1
    ∙ ap (λ r. r ∷ split_from b'/' [] rest) (reverse-cons_append c cur s))

valid_preset_id-HasNoSlash : (id : Text) → valid_preset_id id ≡ true → HasNoSlash id
unfolding valid_preset_id HasNoSlash
valid_preset_id-HasNoSlash [] v = tt
valid_preset_id-HasNoSlash (c ∷ id) v =
    (ground arith, All-of_all _ id_char (λ c e. ground arith) id (ground arith))

valid_imsi-HasNoSlash : (imsi : Text) → valid_imsi imsi ≡ true → HasNoSlash imsi
unfolding valid_imsi is_digits HasNoSlash
valid_imsi-HasNoSlash imsi v = All-of_all _ is_digit (λ c e. ground arith) imsi (ground arith)

preset_reached :
    (id : Text) (h : Handler)
    → valid_preset_id id ≡ true
    → (if is_empty id || contains id (codes "/")
        then refused Code.unknown
        else checked (valid_preset_id id) (handled h))
      ≡ handled h
preset_reached [] h v = unfold valid_preset_id in absurd (cc)
preset_reached (c ∷ id) h v =
    rw (contains-HasNoSlash (c ∷ id) (valid_preset_id-HasNoSlash (c ∷ id) v), v) refl

subscriber_reached :
    (imsi : Text)
    → valid_imsi imsi ≡ true
    → subscriber_path (split b'/' imsi) ≡ Resource.subscriber imsi
unfolding split
subscriber_reached [] v = unfold valid_imsi in absurd (cc)
subscriber_reached (c ∷ imsi) v =
    rw (split_from-HasNoSlash [] (c ∷ imsi) (valid_imsi-HasNoSlash (c ∷ imsi) v)) refl

number_reached :
    (imsi : Text)
    → valid_imsi imsi ≡ true
    → subscriber_path (split b'/' (imsi ++ codes "/number")) ≡ Resource.subscriber_number imsi
unfolding split split_from eqb
number_reached [] v = unfold valid_imsi in absurd (cc)
number_reached (c ∷ imsi) v =
    rw (split_from-append [] (c ∷ imsi) (codes "number") (valid_imsi-HasNoSlash (c ∷ imsi) v)) refl

-- Every operation is reached: a request without a query, with the method of the operation and the
-- path that the interface gives it, of a valid preset identifier or IMSI where the path has one,
-- reaches exactly that operation with exactly that identifier.
pub serve_v1-verb :
    (h : Handler) → names_valid h ≡ true → serve_v1 (verb h) (address h) true ≡ handled h
unfolding serve_v1 serve_at resource_in eqb strip_prefix
serve_v1-verb Handler.cell_status v = refl
serve_v1-verb Handler.cell_start v = refl
serve_v1-verb Handler.cell_stop v = refl
serve_v1-verb Handler.preset_list v = refl
serve_v1-verb Handler.preset_create v = refl
serve_v1-verb (Handler.preset_get id) v = preset_reached id (Handler.preset_get id) v
serve_v1-verb (Handler.preset_update id) v = preset_reached id (Handler.preset_update id) v
serve_v1-verb (Handler.preset_delete id) v = preset_reached id (Handler.preset_delete id) v
serve_v1-verb Handler.config_get v = refl
serve_v1-verb Handler.config_patch v = refl
serve_v1-verb Handler.profile_get v = refl
serve_v1-verb Handler.health v = refl
serve_v1-verb Handler.connections v = refl
serve_v1-verb Handler.subscriber_list v = refl
serve_v1-verb (Handler.subscriber_get imsi) v = rw (subscriber_reached imsi v) (rw v refl)
serve_v1-verb (Handler.subscriber_bind imsi) v = rw (number_reached imsi v) (rw v refl)
serve_v1-verb (Handler.subscriber_unbind imsi) v = rw (number_reached imsi v) (rw v refl)
serve_v1-verb Handler.sms_list v = refl
serve_v1-verb Handler.sms_send v = refl
serve_v1-verb Handler.calls v = refl
serve_v1-verb Handler.call_history v = refl
serve_v1-verb Handler.network_get v = refl
serve_v1-verb Handler.network_put v = refl
