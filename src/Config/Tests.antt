-- ===== src/Config/Tests.antt =====
-- Loads in a concrete environment, and the theorems at concrete data.
use infisical_ksp.Base.{
  ◌≡◌, refl, bytes_eq, bytes_beq, text, to_lower, is_ascii, lower_byte, has_suffix, arith,
}
use infisical_ksp.Base.Result.{Result}
use infisical_ksp.Config.{Config}
use infisical_ksp.Config.Load.{
  System, and_then, require, within, number_or, text_or, check_location, check_parsed,
  check_server_url, check_method, check_range, check_duration, check_count, check_exclusions,
  check_ip_address, validate, set_defaults, apply_env_overrides, completed, finish,
  load_config_with, load_config_from, load_config, default_method, config_path, default_config_path,
  default_log_path, program_data, parse_approval_duration,
}
use infisical_ksp.Config.Fixture.{env_only, env_config}
use infisical_ksp.Config.Days.{parse_approval_duration_wraps}
use infisical_ksp.Config.Validity.{
  IsValid, FollowsEnvironment, load_config-IsValid, load_config-FollowsEnvironment,
}
use infisical_ksp.Context.{validate_scope_exclusions}
use infisical_ksp.Errors.{GoError}

run : System → Result GoError Config
unfolding load_config load_config_from load_config_with finish completed set_defaults
    apply_env_overrides within and_then require number_or text_or check_location check_parsed
    check_server_url check_method check_range check_duration check_count check_exclusions
    check_ip_address validate default_method config_path default_config_path default_log_path
    program_data validate_scope_exclusions text bytes_beq to_lower is_ascii lower_byte
run sys = load_config sys

load_config-IsValid_example : IsValid env_only env_config
unfolding run
load_config-IsValid_example = load_config-IsValid env_only refl

load_config-FollowsEnvironment_example : FollowsEnvironment env_only env_config
unfolding run
load_config-FollowsEnvironment_example = load_config-FollowsEnvironment env_only refl

parse_approval_duration_wraps_example :
    parse_approval_duration env_only (text "281474976710657d")
    ≡ parse_approval_duration env_only (text "1d")
unfolding text bytes_beq has_suffix
parse_approval_duration_wraps_example =
    parse_approval_duration_wraps env_only (text "1d") (text "281474976710657d") 1 (omega arith)
      refl refl refl refl
