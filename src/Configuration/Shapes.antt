-- ===== src/Configuration/Shapes.antt =====
-- internal/config/config.go: what the checks of a log name, a listen address, a public origin and a
-- time zone mean.
use gsm_system.Base.{
  ℕ, ◌≡◌, ◌≢◌, refl, Bool, true, false, ◌||◌, ◌≤◌, ◌⊎◌, inl, inr, ◌∷◌, [], Option, none, some, any,
  All, arith, Bool-cases, ◌==◌,
}
use gsm_system.Base.Text.{Text, codes, eqb, eqb_iff, is_empty, trim_space, has_prefix, contains}
use gsm_system.Base.Number.{ℤ, pos, negsuc, atoi, in_range}
use gsm_system.Configuration.{
  Library, Url, valid_listen_address, valid_web_public_origin, valid_location, valid_base_name,
  zone_name, port_between, valid_parts, valid_url, bad_host_byte, bad_zone_byte,
}

-- A name without a slash that is none of "", "." and ".."; or "/".
pub record IsLogName (name : Text) : Type 0 where
  pub is_given : name ≢ []
  pub plain : (name ≡ codes "/") ⊎ All (λ c. c ≢ b'/') name
  pub is_file : name ≢ codes "."
  pub is_child : name ≢ codes ".."

pub record IsPort (lo : ℕ) (port : Text) : Type 0 where
  pub number : ℕ
  pub reads : atoi port ≡ some (pos number)
  pub least : lo ≤ number
  pub most : number ≤ 65535

-- An address that splits into a host, without blanks around it, NUL, slash and backslash, and a
-- port of 0 to 65535.
pub record IsListenAddress (lib : Library) (address : Text) : Type 0 where
  pub host : Text
  pub port : Text
  pub splits : lib.split_host_port address ≡ some (host, port)
  pub address_trimmed : trim_space address ≡ address
  pub host_trimmed : trim_space host ≡ host
  pub host_bytes : All (λ c. (c ≢ 0) × (c ≢ b'/') × (c ≢ b'\\')) host
  pub has_port : IsPort 0 port

-- A URL of http or https with a host and nothing behind it, of no user, on a port from 1.
pub record IsOrigin (lib : Library) (origin : Text) : Type 0 where
  pub url : Url
  pub parses : lib.parse_url origin ≡ some url
  pub trimmed : trim_space origin ≡ origin
  pub scheme : (url.scheme ≡ codes "http") ⊎ (url.scheme ≡ codes "https")
  pub has_host : (url.host ≢ []) × (url.hostname ≢ [])
  pub no_user : url.has_user ≡ false
  pub nothing_else : (url.path ≡ []) × (url.raw_query ≡ []) × (url.fragment ≡ [])
  pub has_port : (url.port ≡ []) ⊎ IsPort 1 url.port

-- A known zone, not "Local", that can be no path out of the zone directory.
pub record IsZone (lib : Library) (zone : Text) : Type 0 where
  pub known : lib.has_zone zone ≡ true
  pub not_local : zone ≢ codes "Local"
  pub relative : has_prefix zone (codes "/") ≡ false
  pub no_parent : contains zone (codes "..") ≡ false
  pub bytes : All (λ c. (c ≢ b'\\') × (c ≢ b':') × (c ≢ 0)) zone

any_false-All :
    (f : ℕ → Bool) (P : ℕ → Type 0)
    → ((c : ℕ) → f c ≡ false → P c)
    → (s : Text) → any f s ≡ false
    → All P s
any_false-All f P g [] h = tt
any_false-All f P g (c ∷ s) h = (g c (ground (arith, h)), any_false-All f P g s (ground (arith, h)))

nonempty_of_is_empty : (s : Text) → is_empty s ≡ false → s ≢ []
nonempty_of_is_empty [] h e = absurd (cc)
nonempty_of_is_empty (c ∷ s) h e = absurd (cc)

empty_of_is_empty : (s : Text) → is_empty s ≡ true → s ≡ []
empty_of_is_empty [] h = refl
empty_of_is_empty (c ∷ s) h = absurd (cc)

pub valid_base_name-IsLogName : (name : Text) → valid_base_name name ≡ true → IsLogName name
unfolding valid_base_name
valid_base_name-IsLogName name h = record {
  is_given = nonempty_of_is_empty name (ground (arith, h));
  plain = elim (Bool-cases (eqb name (codes "/"))) [
    | inl e ↦ inl ((eqb_iff name (codes "/")).0 e)
    | inr e ↦
        inr
          (any_false-All (λ c. c == b'/') _ (λ c k. ground (arith, k)) name (ground (arith, h, e)))
  ];
  is_file = λ e. ground (arith, h, eqb_iff name (codes "."));
  is_child = λ e. ground (arith, h, eqb_iff name (codes ".."));
}

port_between-IsPort :
    (lo : ℕ) (port : Text) (n : Option ℤ)
    → atoi port ≡ n
    → port_between lo n ≡ true
    → IsPort lo port
port_between-IsPort lo port none e h = absurd (cc)
port_between-IsPort lo port (some (negsuc n)) e h = absurd (cc)
port_between-IsPort lo port (some (pos n)) e h = record {
  number = n;
  reads = e;
  least = ground (arith, h);
  most = ground (arith, h);
}

pub in_range-pos :
    (lo hi : ℕ) (i : ℤ) → in_range lo hi i ≡ true → (n : ℕ) × (i ≡ pos n) × (lo ≤ n) × (n ≤ hi)
in_range-pos lo hi (pos n) h = (n, refl, ground (arith, h), ground (arith, h))
in_range-pos lo hi (negsuc n) h = absurd (cc)

valid_parts-IsListenAddress :
    (lib : Library) (address : Text) (parts : Option (Text × Text))
    → lib.split_host_port address ≡ parts
    → trim_space address ≡ address
    → valid_parts parts ≡ true
    → IsListenAddress lib address
valid_parts-IsListenAddress lib address none e t h = absurd (cc)
valid_parts-IsListenAddress lib address (some (host, port)) e t h = record {
  host = host;
  port = port;
  splits = e;
  address_trimmed = t;
  host_trimmed = (eqb_iff (trim_space host) host).0 (ground (arith, h));
  host_bytes =
      any_false-All bad_host_byte _
        (λ c k. (ground (arith, k), ground (arith, k), ground (arith, k))) host (ground (arith, h));
  has_port = port_between-IsPort 0 port (atoi port) refl (ground (arith, h));
}

IsPort-cases :
    (port : Text)
    → (is_empty port || port_between 1 (atoi port)) ≡ true
    → (port ≡ []) ⊎ IsPort 1 port
IsPort-cases [] h = inl refl
IsPort-cases (c ∷ port) h = inr (port_between-IsPort 1 (c ∷ port) (atoi (c ∷ port)) refl h)

scheme_cases :
    (scheme : Text)
    → (eqb scheme (codes "http") || eqb scheme (codes "https")) ≡ true
    → (scheme ≡ codes "http") ⊎ (scheme ≡ codes "https")
scheme_cases scheme h = elim (Bool-cases (eqb scheme (codes "http"))) [
  | inl e ↦ inl ((eqb_iff scheme (codes "http")).0 e)
  | inr e ↦ inr ((eqb_iff scheme (codes "https")).0 (ground (arith, h, e)))
]

valid_url-IsOrigin :
    (lib : Library) (origin : Text) (url : Option Url)
    → lib.parse_url origin ≡ url
    → trim_space origin ≡ origin
    → valid_url url ≡ true
    → IsOrigin lib origin
valid_url-IsOrigin lib origin none e t h = absurd (cc)
valid_url-IsOrigin lib origin (some u) e t h = record {
  url = u;
  parses = e;
  trimmed = t;
  scheme = scheme_cases u.scheme (ground (arith, h));
  has_host = (
    nonempty_of_is_empty u.host (ground (arith, h)),
    nonempty_of_is_empty u.hostname (ground (arith, h)),
  );
  no_user = ground (arith, h);
  nothing_else = (
    empty_of_is_empty u.path (ground (arith, h)),
    empty_of_is_empty u.raw_query (ground (arith, h)),
    empty_of_is_empty u.fragment (ground (arith, h)),
  );
  has_port = IsPort-cases u.port (ground (arith, h));
}

module _ (lib : Library) where
  pub valid_listen_address-IsListenAddress :
      (address : Text) → valid_listen_address lib address ≡ true → IsListenAddress lib address
  unfolding valid_listen_address
  valid_listen_address-IsListenAddress address h =
      valid_parts-IsListenAddress lib address (lib.split_host_port address) refl
        ((eqb_iff (trim_space address) address).0 (ground (arith, h))) (ground (arith, h))

  pub valid_web_public_origin-IsOrigin :
      (origin : Text)
      → valid_web_public_origin lib origin ≡ true
      → (origin ≡ []) ⊎ IsOrigin lib origin
  unfolding valid_web_public_origin
  valid_web_public_origin-IsOrigin origin h = elim (Bool-cases (is_empty origin)) [
    | inl e ↦ inl (empty_of_is_empty origin e)
    | inr e ↦ inr (
        valid_url-IsOrigin lib origin (lib.parse_url origin) refl
          ((eqb_iff (trim_space origin) origin).0 (ground (arith, h, e))) (ground (arith, h, e)))
  ]

  pub valid_location-IsZone :
      (zone : Text) → valid_location lib zone ≡ true → IsZone lib (zone_name zone)
  unfolding valid_location
  valid_location-IsZone zone h = record {
    known = ground (arith, h);
    not_local = λ e. ground (arith, h, eqb_iff (zone_name zone) (codes "Local"));
    relative = ground (arith, h);
    no_parent = ground (arith, h);
    bytes =
        any_false-All bad_zone_byte _
          (λ c k. (ground (arith, k), ground (arith, k), ground (arith, k))) (zone_name zone)
          (ground (arith, h));
  }
