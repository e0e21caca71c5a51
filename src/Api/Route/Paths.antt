-- ===== src/Api/Route/Paths.antt =====
-- internal/api/v1.go: the paths that the switch of `serveV1` takes for each resource.
use gsm_system.Base.{
  ◌≡◌, refl, sym, ap, ◌∙◌, subst, [], ◌∷◌, ◌++◌, List, All, Bool-cases, Option-cases, inl, inr,
  ◌==◌, ==_iff, reverse, append-nil,
}
use gsm_system.Base.Text.{
  Text, codes, eqb, eqb_iff, strip_prefix, strip_prefix-eq_some, split, split_from,
}
use gsm_system.Api.Route.{subscriber_path, under_presets, Resource, resource_in, fixed_paths}
use gsm_system.Api.Route.Addresses.{reverse-cons_append}

-- The paths of a resource.
abbrev pub At : Text → Resource → Type 0
At path Resource.cell = path ≡ codes "/api/v1/cell"
At path Resource.presets = path ≡ codes "/api/v1/presets"
At path Resource.config = path ≡ codes "/api/v1/config"
At path Resource.profile = path ≡ codes "/api/v1/profile"
At path Resource.health_check = path ≡ codes "/api/v1/health"
At path Resource.connection_list = path ≡ codes "/api/v1/connections"
At path Resource.subscribers = path ≡ codes "/api/v1/subscribers"
At path Resource.messages = path ≡ codes "/api/v1/sms"
At path Resource.active_calls = path ≡ codes "/api/v1/calls"
At path Resource.history = path ≡ codes "/api/v1/calls/history"
At path Resource.network = path ≡ codes "/api/v1/network"
At path Resource.nothing = Unit
At path (Resource.preset id) = path ≡ codes "/api/v1/presets/" ++ id
At path (Resource.subscriber imsi) = path ≡ codes "/api/v1/subscribers/" ++ imsi
At path (Resource.subscriber_number imsi) =
    path ≡ codes "/api/v1/subscribers/" ++ (imsi ++ codes "/number")

-- The parts of a text with the separator between them.
join_parts : List Text → Text
join_parts [] = []
join_parts (x ∷ []) = x
join_parts (x ∷ (y ∷ l)) = x ++ b'/' ∷ join_parts (y ∷ l)

join_parts-cons :
    (x cur s : Text)
    → join_parts (x ∷ split_from b'/' cur s) ≡ x ++ b'/' ∷ join_parts (split_from b'/' cur s)
unfolding join_parts split_from
join_parts-cons x cur [] = refl
join_parts-cons x cur (d ∷ s) = elim (Bool-cases (d == b'/')) [
  | inl e ↦ rw e refl
  | inr e ↦ rw e (join_parts-cons x (d ∷ cur) s)
]

join_parts-split_from : (cur s : Text) → join_parts (split_from b'/' cur s) ≡ reverse cur ++ s
unfolding join_parts split_from
join_parts-split_from cur [] = sym (append-nil (reverse cur))
join_parts-split_from cur (c ∷ s) = elim (Bool-cases (c == b'/')) [
  | inl e ↦ rw e (
      join_parts-cons (reverse cur) [] s
      ∙ ap (λ r. reverse cur ++ b'/' ∷ r) (join_parts-split_from [] s)
      ∙ ap (λ d. reverse cur ++ d ∷ s) (sym ((==_iff c b'/').0 e)))
  | inr e ↦ rw e (join_parts-split_from (c ∷ cur) s ∙ reverse-cons_append c cur s)
]

path_of_parts :
    (path rest : Text) (l : List Text)
    → path ≡ codes "/api/v1/subscribers/" ++ rest
    → join_parts l ≡ rest
    → At path (subscriber_path l)
unfolding join_parts
path_of_parts path rest [] e j = tt
path_of_parts path rest ([] ∷ []) e j = tt
path_of_parts path rest ((c ∷ imsi) ∷ []) e j =
    e ∙ ap (λ r. codes "/api/v1/subscribers/" ++ r) (sym j)
path_of_parts path rest ([] ∷ (part ∷ [])) e j = tt
path_of_parts path rest ((c ∷ imsi) ∷ (part ∷ [])) e j =
    elim (Bool-cases (eqb part (codes "number"))) [
      | inl n ↦ rw n (
          e
          ∙ ap (λ r. codes "/api/v1/subscribers/" ++ r) (sym j)
          ∙ ap (λ r. codes "/api/v1/subscribers/" ++ ((c ∷ imsi) ++ b'/' ∷ r))
              ((eqb_iff part (codes "number")).0 n))
      | inr n ↦ rw n tt
    ]
path_of_parts path rest ([] ∷ (part ∷ (y ∷ l))) e j = tt
path_of_parts path rest ((c ∷ x) ∷ (part ∷ (y ∷ l))) e j = tt

prefix_At :
    (path : Text)
    → At path (
        under_presets
          (strip_prefix (codes "/api/v1/presets/") path)
          (strip_prefix (codes "/api/v1/subscribers/") path))
unfolding split
prefix_At path = elim (Option-cases (strip_prefix (codes "/api/v1/presets/") path)) [
  | inl none_found ↦
      rw none_found (elim (Option-cases (strip_prefix (codes "/api/v1/subscribers/") path)) [
        | inl nothing_found ↦ rw nothing_found tt
        | inr (rest, e) ↦ rw e (
            path_of_parts path rest (split_from b'/' [] rest)
              (strip_prefix-eq_some (codes "/api/v1/subscribers/") path rest e)
              (join_parts-split_from [] rest))
      ])
  | inr (id, e) ↦ rw e (strip_prefix-eq_some (codes "/api/v1/presets/") path id e)
]

pub resource_in-At :
    (l : List (Text × Resource)) (path : Text)
    → All (λ e. At e.0 e.1) l
    → At path (resource_in l path)
unfolding resource_in split
resource_in-At [] path h = prefix_At path
resource_in-At ((p, r) ∷ l) path h = elim (Bool-cases (eqb path p)) [
  | inl e ↦ rw e (subst (λ t. At t r) (sym ((eqb_iff path p).0 e)) h.0)
  | inr e ↦ rw e (resource_in-At l path h.1)
]

-- The table of the fixed paths.
pub fixed_paths-At : All (λ e. At e.0 e.1) fixed_paths
fixed_paths-At =
    (refl, (refl, (refl, (refl, (refl, (refl, (refl, (refl, (refl, (refl, (refl, tt)))))))))))
