-- ===== src/Configuration/Valid.antt =====
-- internal/config/config.go: a configuration that is loaded is valid.
use gsm_system.Base.{ℕ, ◌≡◌, refl, Bool, true, false, not, ◌||◌, ◌*◌, ◌^◌, ◌≤◌, ◌⊎◌, [], arith}
use gsm_system.Base.Number.{pos}
use gsm_system.Configuration.{
  Config, ConfigFile, Environment, LoadError, Loaded, loaded, failed, and_then, require, read_file,
  Library, checked, valid_listen_address, load_config, with_dirs, zoned, set_or,
}
use gsm_system.Configuration.Shapes.{
  IsLogName, IsListenAddress, IsOrigin, IsZone, valid_base_name-IsLogName, in_range-pos,
  valid_listen_address-IsListenAddress, valid_web_public_origin-IsOrigin, valid_location-IsZone,
}

pub record IsValid (lib : Library) (c : Config) : Type 0 where
  pub listen : IsListenAddress lib c.listen_addr
  pub web : c.web_enabled ≡ true → IsListenAddress lib c.web_listen
  pub origin : (c.web_public_origin ≡ []) ⊎ IsOrigin lib c.web_public_origin
  pub zone : IsZone lib c.timezone
  pub history : (n : ℕ) × (c.max_history_bytes ≡ pos n) × (65536 ≤ n) × (n ≤ 67108864)
  pub logs : IsLogName c.smqueue_log_name × IsLogName c.openbts_log_name

abbrev pub OnLoaded : (Config → Type 0) → Loaded → Type 0
OnLoaded P (loaded c) = P c
OnLoaded P (failed e) = Unit

OnLoaded-require :
    (P : Config → Type 0) (ok : Bool) (e : LoadError) (c : Config)
    → (ok ≡ true → P c)
    → OnLoaded P (require ok e c)
OnLoaded-require P true e c f = f refl
OnLoaded-require P false e c f = tt

OnLoaded-then :
    (P : Config → Type 0) (ok : Bool) (e : LoadError) (c : Config) (next : Config → Loaded)
    → (ok ≡ true → OnLoaded P (next c))
    → OnLoaded P (and_then (require ok e c) next)
OnLoaded-then P true e c next f = f refl
OnLoaded-then P false e c next f = tt

-- Every configuration that `l` may hold is loaded by `f` to one with `P`.
OnLoaded-after :
    (P : Config → Type 0) (l : Loaded) (next : Config → Loaded)
    → ((c : Config) → OnLoaded P (next c))
    → OnLoaded P (and_then l next)
OnLoaded-after P (loaded c) next f = f c
OnLoaded-after P (failed e) next f = tt

module _ (lib : Library) where
  checked-IsValid : (c : Config) → IsZone lib c.timezone → OnLoaded (IsValid lib) (checked lib c)
  checked-IsValid c z = OnLoaded-then (IsValid lib) _ _ c _ λ a.
      OnLoaded-then (IsValid lib) (not c.web_enabled || valid_listen_address lib c.web_listen) _ c _
        λ b. OnLoaded-then (IsValid lib) _ _ c _ λ o. OnLoaded-then (IsValid lib) _ _ c _ λ h.
          OnLoaded-require (IsValid lib) _ _ c λ n. record {
            listen = valid_listen_address-IsListenAddress lib c.listen_addr a;
            web =
                λ on. valid_listen_address-IsListenAddress lib c.web_listen (ground (arith, b, on));
            origin = valid_web_public_origin-IsOrigin lib c.web_public_origin o;
            zone = z;
            history = in_range-pos 65536 (64 * 2 ^ 20) c.max_history_bytes h;
            logs = (
              valid_base_name-IsLogName c.smqueue_log_name (ground (arith, n)),
              valid_base_name-IsLogName c.openbts_log_name (ground (arith, n)),
            );
          }

  -- Whatever the configuration file and the environment hold, a configuration that loading
  -- returns without an error has a listen address of a clean host and a port up to 65535, the same
  -- for the console if it is enabled, no public origin or one of an http or https URL with nothing
  -- but host and port, a known time zone that is no path out of the zone directory, histories of
  -- 64 KiB to 64 MiB, and two log names that are plain names of files or "/".
  pub load_config-IsValid :
      (file : ConfigFile) (env : Environment) → OnLoaded (IsValid lib) (load_config lib file env)
  unfolding load_config
  load_config-IsValid file env = OnLoaded-after (IsValid lib) (read_file file) _ λ c.
      OnLoaded-after (IsValid lib) _ _ λ d. OnLoaded-then (IsValid lib) _ _ _ _ λ z.
        checked-IsValid (with_dirs lib env (zoned env d))
          (valid_location-IsZone lib (set_or env.tz d.timezone) z)
