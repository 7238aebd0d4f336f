-- ===== src/Examples/Configs.antt =====
-- pkg/aigateway/config.go in a concrete environment.
use leartech_go_common.Base.{◌≡◌, ◌↔◌, refl, [], All, codes, Text, text_eq, if◌then◌else◌}
use leartech_go_common.Base.Results.{ok}
use leartech_go_common.Base.Trim.{trim_space}
use leartech_go_common.Gateway.Config.{Config, load_config, provider_names}
use leartech_go_common.Gateway.Config.Refusals.{IsComplete, from_env, load_config-IsComplete}

abbrev run_env : Text → Text
run_env k =
    if text_eq k (codes "LEARTECH_AIGW_URL")
    then codes " https://gateway\n"
    else if text_eq k (codes "LEARTECH_AIGW_API_KEY")
    then codes "k"
    else if text_eq k (codes "LEARTECH_RUN_ID")
    then codes "r"
    else []

abbrev run_config : Config
run_config = record {
  url = codes "https://gateway";
  api_key = codes "k";
  model = [];
  run_id = codes "r";
  session_id = [];
}

loads : load_config run_env ≡ ok run_config
unfolding load_config text_eq codes
loads = refl

load_config-IsComplete_example : (load_config run_env ≡ ok run_config) ↔ (
    All (λ k. trim_space (run_env k) ≡ []) provider_names
    × (run_config ≡ from_env run_env)
    × IsComplete run_config)
load_config-IsComplete_example = load_config-IsComplete run_env run_config
