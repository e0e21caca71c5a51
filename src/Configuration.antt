-- ===== src/Configuration.antt =====
-- internal/config/config.go: defaults, file, environment and checks of the configuration.
-- The YAML decoder gives its result as an argument. Parameters stand for net.SplitHostPort,
-- url.Parse, time.LoadLocation and filepath.Join. The paths of binaries, databases and the call
-- records, which loading passes on unread, are left out of the record.
pub mod Shapes
pub mod Valid
mod Tests
use gsm_system.Base.{
  ℕ, ◌*◌, ◌^◌, Bool, true, false, not, ◌&&◌, ◌||◌, [], ◌∷◌, List, Option, none, some, any, ltb,
  ◌==◌, if◌then◌else◌,
}
use gsm_system.Base.Text.{
  Text, codes, eqb, is_empty, one_of, contains, has_prefix, strip_prefix, trim_space,
}
use gsm_system.Base.Number.{ℤ, pos, negsuc, atoi, in_range}

-- `Config`
pub record Config : Type 0 where
  pub listen_addr : Text
  pub web_enabled : Bool
  pub web_listen : Text
  pub web_public_origin : Text
  pub timezone : Text
  pub data_dir : Text
  pub conf_dir : Text
  pub log_dir : Text
  pub smqueue_log_name : Text
  pub openbts_log_name : Text
  pub syslog_socket : Text
  pub max_history_bytes : ℤ

-- `Default`
abbrev pub default : Config
default = record {
  listen_addr = codes ":8082";
  web_enabled = true;
  web_listen = codes ":18082";
  web_public_origin = [];
  timezone = codes "Asia/Shanghai";
  data_dir = codes "/data";
  conf_dir = [];
  log_dir = [];
  smqueue_log_name = codes "smqueue.log";
  openbts_log_name = codes "openbts.log";
  syslog_socket = codes "/dev/log";
  max_history_bytes = pos (8 * 2 ^ 20);
}

-- What the file gives: no path, an error of reading or decoding it, or the decoded configuration,
-- which is the default one where the file is empty.
pub data ConfigFile : Type 0 where
  no_path unreadable malformed several_documents : ConfigFile
  decoded : Config → ConfigFile

-- The variables that are set, each with its value.
pub record Environment : Type 0 where
  pub listen : Option Text
  pub web_listen : Option Text
  pub web_enabled : Option Text
  pub web_public_origin : Option Text
  pub tz : Option Text
  pub data_dir : Option Text
  pub syslog_socket : Option Text

pub data LoadError : Type 0 where
  file_unreadable file_malformed file_several bad_web_enabled bad_timezone : LoadError
  bad_listen bad_web_listen bad_origin bad_history_bytes bad_log_name : LoadError

pub data Loaded : Type 0 where
  loaded : Config → Loaded
  failed : LoadError → Loaded

abbrev pub and_then : Loaded → (Config → Loaded) → Loaded
and_then (failed e) f = failed e
and_then (loaded c) f = f c

abbrev pub require : Bool → LoadError → Config → Loaded
require ok e c = if ok then loaded c else failed e

-- A variable that is set and not empty replaces the value.
abbrev pub nonempty_or : Option Text → Text → Text
nonempty_or none old = old
nonempty_or (some []) old = old
nonempty_or (some (c ∷ v)) old = c ∷ v

abbrev pub set_or : Option Text → Text → Text
set_or none old = old
set_or (some v) old = v

-- strconv.ParseBool
unfoldable pub parse_bool : Text → Option Bool
unfolding eqb
parse_bool s =
    if one_of (codes "1" ∷ codes "t" ∷ codes "T" ∷ codes "TRUE" ∷ codes "true" ∷ codes "True" ∷ [])
      s
    then some true
    else if one_of
        (codes "0" ∷ codes "f" ∷ codes "F" ∷ codes "FALSE" ∷ codes "false" ∷ codes "False" ∷ []) s
    then some false
    else none

abbrev with_enabled : Option Bool → Config → Loaded
with_enabled none c = failed bad_web_enabled
with_enabled (some b) c = loaded (record c { web_enabled = b })

abbrev enable_web : Option Text → Config → Loaded
enable_web none c = loaded c
enable_web (some raw) c =
    if is_empty (trim_space raw) then loaded c else with_enabled (parse_bool (trim_space raw)) c

abbrev pub read_file : ConfigFile → Loaded
read_file no_path = loaded default
read_file unreadable = failed file_unreadable
read_file malformed = failed file_malformed
read_file several_documents = failed file_several
read_file (decoded c) = loaded c

-- The parts of a URL that are looked at.
pub record Url : Type 0 where
  pub scheme : Text
  pub host : Text
  pub hostname : Text
  pub port : Text
  pub has_user : Bool
  pub path : Text
  pub raw_query : Text
  pub fragment : Text

-- Parameters: the library functions named above.
pub record Library : Type 0 where
  pub split_host_port : Text → Option (Text × Text)
  pub parse_url : Text → Option Url
  pub has_zone : Text → Bool
  pub join : Text → Text → Text

abbrev pub port_between : ℕ → Option ℤ → Bool
port_between lo none = false
port_between lo (some n) = in_range lo 65535 n

abbrev pub bad_host_byte : ℕ → Bool
bad_host_byte c = c == 0 || c == b'/' || c == 92

abbrev pub valid_parts : Option (Text × Text) → Bool
valid_parts none = false
valid_parts (some (host, port)) =
    not (is_empty port)
    && (eqb (trim_space host) host && not (any bad_host_byte host))
    && port_between 0 (atoi port)

abbrev pub ends_in_colon : Text → Bool
ends_in_colon [] = false
ends_in_colon (c ∷ []) = c == b':'
ends_in_colon (c ∷ (d ∷ s)) = ends_in_colon (d ∷ s)

abbrev pub valid_url : Option Url → Bool
valid_url none = false
valid_url (some u) =
    (eqb u.scheme (codes "http") || eqb u.scheme (codes "https"))
    && not (is_empty u.host)
    && not (is_empty u.hostname)
    && not u.has_user
    && is_empty u.path
    && is_empty u.raw_query
    && is_empty u.fragment
    && not (ends_in_colon u.host)
    && (is_empty u.port || port_between 1 (atoi u.port))

abbrev pub bad_zone_byte : ℕ → Bool
bad_zone_byte c = c == 92 || c == b':' || c == 0

abbrev zone_name : Text → Text
zone_name [] = codes "Asia/Shanghai"
zone_name (c ∷ s) = c ∷ s

-- The test of a log's name: a name is its own filepath.Base where it has no slash, or is "/".
unfoldable pub valid_base_name : Text → Bool
unfolding eqb
valid_base_name name =
    not (is_empty name)
    && (eqb name (codes "/") || not (any (λ c. c == b'/') name))
    && not (eqb name (codes "."))
    && not (eqb name (codes ".."))

abbrev pub zoned : Environment → Config → Config
zoned env c = record c {
  web_public_origin = set_or env.web_public_origin c.web_public_origin;
  timezone = set_or env.tz c.timezone;
}

module _ (lib : Library) where
  -- `validateListenAddress`
  unfoldable pub valid_listen_address : Text → Bool
  unfolding eqb trim_space atoi
  valid_listen_address address =
      not (is_empty address)
      && eqb (trim_space address) address
      && valid_parts (lib.split_host_port address)

  -- `validateWebPublicOrigin`
  unfoldable pub valid_web_public_origin : Text → Bool
  unfolding eqb trim_space atoi
  valid_web_public_origin origin =
      is_empty origin || eqb (trim_space origin) origin && valid_url (lib.parse_url origin)

  -- `Location`, as far as it fails or not
  unfoldable pub valid_location : Text → Bool
  unfolding eqb strip_prefix contains
  valid_location timezone =
      let name = zone_name timezone in
      not (
        eqb name (codes "Local")
        || any bad_zone_byte name
        || has_prefix name (codes "/")
        || contains name (codes ".."))
      && lib.has_zone name

  abbrev dir_or : Text → Text → Text → Text
  dir_or [] data_dir name = lib.join data_dir name
  dir_or (c ∷ dir) data_dir name = c ∷ dir

  abbrev pub with_dirs : Environment → Config → Config
  with_dirs env c =
      let dir = nonempty_or env.data_dir c.data_dir in
      record c {
        timezone = zone_name c.timezone;
        data_dir = dir;
        syslog_socket = set_or env.syslog_socket c.syslog_socket;
        conf_dir = dir_or c.conf_dir dir (codes "conf");
        log_dir = dir_or c.log_dir dir (codes "log");
      }

  abbrev pub checked : Config → Loaded
  checked c = and_then (require (valid_listen_address c.listen_addr) bad_listen c) λ c.
      and_then (require (not c.web_enabled || valid_listen_address c.web_listen) bad_web_listen c)
        λ c. and_then (require (valid_web_public_origin c.web_public_origin) bad_origin c) λ c.
          and_then (require (in_range 65536 (64 * 2 ^ 20) c.max_history_bytes) bad_history_bytes c)
            λ c.
              require (valid_base_name c.smqueue_log_name && valid_base_name c.openbts_log_name)
                bad_log_name c

  abbrev with_zone : Environment → Config → Loaded
  with_zone env c = require (valid_location (zoned env c).timezone) bad_timezone (zoned env c)

  -- `Load`
  unfoldable pub load_config : ConfigFile → Environment → Loaded
  unfolding valid_listen_address valid_web_public_origin valid_location parse_bool valid_base_name
  load_config file env = and_then (read_file file) λ c.
      and_then
        (enable_web env.web_enabled (record c {
          listen_addr = nonempty_or env.listen c.listen_addr;
          web_listen = nonempty_or env.web_listen c.web_listen;
        }))
        λ c. and_then (with_zone env c) λ c. checked (with_dirs env c)
