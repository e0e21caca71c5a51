-- ===== src/Configuration/Tests.antt =====
-- Loading the defaults, over library functions that accept everything.
use gsm_system.Base.{◌≡◌, refl, true, [], ◌++◌, none, some}
use gsm_system.Base.Text.{codes, eqb, trim_space, strip_prefix, contains}
use gsm_system.Base.Number.{atoi}
use gsm_system.Configuration.{
  Config, Environment, Library, no_path, default, loaded, load_config, valid_base_name,
}
use gsm_system.Configuration.Valid.{OnLoaded, IsValid, load_config-IsValid}

abbrev accepting : Library
accepting = record {
  split_host_port = λ address. some ([], codes "8082");
  parse_url = λ s. none;
  has_zone = λ name. true;
  join = λ dir name. dir ++ (codes "/" ++ name);
}

abbrev empty_environment : Environment
empty_environment = record {
  listen = none;
  web_listen = none;
  web_enabled = none;
  web_public_origin = none;
  tz = none;
  data_dir = none;
  syslog_socket = none;
}

abbrev defaults_loaded : Config
defaults_loaded = record default { conf_dir = codes "/data/conf"; log_dir = codes "/data/log" }

defaults_test : load_config accepting no_path empty_environment ≡ loaded defaults_loaded
unfolding load_config eqb trim_space strip_prefix contains atoi
defaults_test = refl

-- The root directory is its own filepath.Base.
root_test : valid_base_name (codes "/") ≡ true
unfolding valid_base_name eqb
root_test = refl

load_config-IsValid_example :
    OnLoaded (IsValid accepting) (load_config accepting no_path empty_environment)
load_config-IsValid_example = load_config-IsValid accepting no_path empty_environment
